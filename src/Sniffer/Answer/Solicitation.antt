-- ===== src/Sniffer/Answer/Solicitation.antt =====
-- The answer to a neighbour solicitation that carries no option.
use go_dpdk.Base.{
  [], ◌∷◌, ◌++◌, ℕ, ◌+◌, ◌^◌, ◌≤◌, ◌<◌, ◌≡◌, refl, ap, ◌∙◌, arith, true, false, ◌==◌, sub64, ltb,
}
use go_dpdk.Memory.{Memory, load8, load_bytes, Stores, load8-stores}
use go_dpdk.Mbuf
use go_dpdk.Mbuf.{Mbuf}
use go_dpdk.Packet.Swap.{be16}
use go_dpdk.Packet.Parse.{
  Packet, get_ether, get_ipv6, get_for_ipv6, parse_l7, vxlan_decap, start_at_offset,
}
use go_dpdk.Packet.Parse.Wire.{swapped_test}
use go_dpdk.Packet.Parse.Vxlan.{is_vxlan, vxlan_decap_start}
use go_dpdk.Packet.Icmp6.{get_nd_target_link_layer_address_option, check_enough_space}
use go_dpdk.Sniffer.Answer.{
  panicked, swap_runs, answer, answer_inner, answer_outer, answer_ipv6, answer_icmpv6,
  answer_solicitation, handle, fresh,
}
use go_dpdk.Sniffer.Answer.Sums.{be16-stores}
use go_dpdk.Sniffer.Answer.Parsed.{parsed, handle-parsed, parse_data-icmpv6}

module _ (m : Memory) (s : ℕ) where
  abbrev l3 : ℕ
  l3 = s + 14

  abbrev m1 : Memory
  m1 = swap_runs m (s + 6) s 6

  abbrev m2 : Memory
  m2 = swap_runs m1 (l3 + 8) (l3 + 24) 16

  abbrev macs : Stores
  macs = (s, load_bytes m (s + 6) 6) ∷ (s + 6, load_bytes m s 6) ∷ []

  abbrev ips : Stores
  ips = (l3 + 24, load_bytes m1 (l3 + 8) 16) ∷ (l3 + 8, load_bytes m1 (l3 + 24) 16) ∷ []

  seen :
      (be16 m1 (s + 12) ≡ be16 m (s + 12))
      × (load8 m2 (l3 + 6) ≡ load8 m (l3 + 6))
      × (load8 m2 (l3 + 40) ≡ load8 m (l3 + 40))
  unfolding load_bytes
  seen = (
    be16-stores m (s + 12) macs (omega arith),
    load8-stores m (l3 + 6) (ips ++ macs) (omega arith),
    load8-stores m (l3 + 40) (ips ++ macs) (omega arith),
  )

  answer-panics :
      (p : Packet)
      → p.l2 ≡ s
      → p.l3 ≡ l3
      → p.l4 ≡ l3 + 40
      → s + 78 < 2 ^ 63
      → p.cmbuf.data_len ≤ 78
      → be16 m (s + 12) ≡ 0x86dd
      → load8 m (l3 + 6) ≡ 58
      → load8 m (l3 + 40) ≡ 135
      → answer m p ≡ panicked
  unfolding answer answer_inner answer_outer answer_ipv6 answer_icmpv6 answer_solicitation get_ether
      get_ipv6 get_for_ipv6 parse_l7 get_nd_target_link_layer_address_option check_enough_space
      start_at_offset Mbuf.get_data_len_mbuf
  answer-panics p l2 at3 at4 low short type next solicits =
      let is_arp : (be16 m1 (s + 12) == 0x0806) ≡ false = ground (arith, seen) in
      let is_ipv4 : (be16 m1 (s + 12) == 0x0800) ≡ false = ground (arith, seen) in
      let is_ipv6 : (be16 m1 (s + 12) == 0x86dd) ≡ true = ground (arith, seen) in
      let icmp : (load8 m2 (l3 + 6) == 58) ≡ true = ground (arith, seen) in
      let echo : (load8 m2 (l3 + 40) == 128) ≡ false = ground (arith, seen) in
      let asks : (load8 m2 (l3 + 40) == 135) ≡ true = ground (arith, seen) in
      let near : ltb (sub64 (l3 + 40 + 8) (s + 0)) (2 ^ 63) ≡ true = ground arith in
      let full : ltb (sub64 (l3 + 40 + 8) (s + 0) + 16) p.cmbuf.data_len ≡ false = ground arith in
      rw
        (
          l2,
          swapped_test m1 (s + 12) 0x0806 (omega arith),
          is_arp,
          swapped_test m1 (s + 12) 0x0800 (omega arith),
          is_ipv4,
          swapped_test m1 (s + 12) 0x86dd (omega arith),
          is_ipv6,
          at3,
          icmp,
          at4,
          echo,
          asks,
          near,
          full,
        )
        refl

-- A neighbour solicitation in a frame of at most 78 bytes, so that no byte follows the target
-- address, makes the program follow a nil pointer. Such a frame is well formed: a host that probes
-- for a duplicate of its address sends it.
pub handle_solicitation :
    (m : Memory) (mb : Mbuf)
    → let s = mb.buf_addr + mb.data_off in
      s + 78 < 2 ^ 63
      → mb.data_len ≤ 78
      → be16 m (s + 12) ≡ 0x86dd
      → load8 m (s + 14 + 6) ≡ 58
      → load8 m (s + 14 + 40) ≡ 135
      → handle m mb ≡ panicked
unfolding parsed
handle_solicitation m mb low short type next solicits =
    let plain : is_vxlan m (mb.buf_addr + mb.data_off) ≡ false = ground arith in
    let (_, l2, same) = vxlan_decap_start m (fresh mb) plain in
    let p = (vxlan_decap m (fresh mb)).0 in
    let run = parse_data-icmpv6 m p (rw l2 type) (rw l2 next) in
    handle-parsed m mb
    ∙ answer-panics m (mb.buf_addr + mb.data_off) (parsed m mb) (rw run l2)
        (rw run (ap (λ a. a + 14) l2)) (rw run (ap (λ a. a + 14 + 40) l2)) low
        (rw (run, same) short) type next solicits
