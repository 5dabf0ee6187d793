-- ===== src/Sniffer/Answer/Parsed.antt =====
-- The packet that the answer begins with: both parsers at a frame that is not VXLAN.
use go_dpdk.Base.{ℕ, ◌+◌, ◌*◌, ◌%◌, ◌≡◌, refl, true, false, ◌==◌, arith}
use go_dpdk.Memory.{Memory, load8}
use go_dpdk.Mbuf.{Mbuf}
use go_dpdk.Sniffer.Answer.{answer, fresh, handle}
use go_dpdk.Packet.Swap.{be16}
use go_dpdk.Packet.Parse.{
  Packet, nil, vxlan_decap, parse_data, parse_known_l4, set_payload, parse_all_known_l4_for_ipv4,
  parse_all_known_l4_for_ipv6,
}
use go_dpdk.Packet.Parse.Wire.{parse_l3_lem, header_length}

-- The packet after both parsers.
unfoldable pub parsed : Memory → Mbuf → Packet
parsed m mb = (parse_data m (vxlan_decap m (fresh mb)).0).0

pub handle-parsed : (m : Memory) (mb : Mbuf) → handle m mb ≡ answer m (parsed m mb)
unfolding handle parsed
handle-parsed m mb = refl

-- What `ParseData` leaves in a packet, for the three kinds of frames that are answered.
module _ (m : Memory) (p : Packet) where
  abbrev l3 : ℕ
  l3 = p.l2 + 14

  pub parse_data-arp : be16 m (p.l2 + 12) ≡ 0x0806 → (parse_data m p).0 ≡ record p { l3 = l3 }
  unfolding parse_data parse_known_l4 set_payload
  parse_data-arp h =
      let ip4 : (be16 m (p.l2 + 12) == 0x0800) ≡ false = ground arith in
      let arp : (be16 m (p.l2 + 12) == 0x0806) ≡ true = ground arith in
      rw (parse_l3_lem m p, ip4, arp) refl

  abbrev l4_ipv4 : ℕ
  l4_ipv4 = l3 + load8 m l3 % 16 * 4

  pub parse_data-icmp :
      be16 m (p.l2 + 12) ≡ 0x0800
      → load8 m (l3 + 9) ≡ 1
      → (parse_data m p).0 ≡ record p { l3 = l3; l4 = l4_ipv4; payload = l4_ipv4 + 8 }
  unfolding parse_data parse_known_l4 set_payload parse_all_known_l4_for_ipv4
  parse_data-icmp h proto =
      let ip4 : (be16 m (p.l2 + 12) == 0x0800) ≡ true = ground arith in
      let known : (l3 == nil) ≡ false = ground arith in
      let known4 : (l4_ipv4 == nil) ≡ false = ground arith in
      rw (parse_l3_lem m p, ip4) (rw (known, header_length m l3, proto, known4) (rw known4 refl))

  pub parse_data-icmpv6 :
      be16 m (p.l2 + 12) ≡ 0x86dd
      → load8 m (l3 + 6) ≡ 58
      → (parse_data m p).0 ≡ record p { l3 = l3; l4 = l3 + 40; payload = l3 + 40 + 8 }
  unfolding parse_data parse_known_l4 set_payload parse_all_known_l4_for_ipv6
  parse_data-icmpv6 h proto =
      let ip4 : (be16 m (p.l2 + 12) == 0x0800) ≡ false = ground arith in
      let arp : (be16 m (p.l2 + 12) == 0x0806) ≡ false = ground arith in
      let ip6 : (be16 m (p.l2 + 12) == 0x86dd) ≡ true = ground arith in
      let known : (l3 == nil) ≡ false = ground arith in
      let known4 : (l3 + 40 == nil) ≡ false = ground arith in
      rw (parse_l3_lem m p, ip4, arp, ip6) (rw (known, proto, known4) (rw known4 refl))
