-- ===== src/Packet/Parse.antt =====
-- packet/packet.go: the packet structure and the functions that find its headers.
pub mod Wire
pub mod Vxlan
mod Tests
use go_dpdk.Base.{
  ℕ, ◌+◌, ◌*◌, ◌/◌, ◌%◌, ◌^◌, Bool, true, false, ◌||◌, not, u8, ◌<<<◌, ◌>>>◌, bit_and, ◌==◌,
  if◌then◌else◌, ℤ, pos, negsuc,
}
use go_dpdk.Types
use go_dpdk.Memory.{Memory}
use go_dpdk.Mbuf
use go_dpdk.Mbuf.{Mbuf}
use go_dpdk.Packet.Swap.{swap_bytes_uint16}
use go_dpdk.Packet.Header.{ether_at, ipv4_at, ipv6_at, tcp_at, udp_at}

-- The pointers are addresses, and 0 is nil. `payload` is the field `Data`.
pub record Packet : Type 0 where
  pub l2 : ℕ
  pub l3 : ℕ
  pub l4 : ℕ
  pub payload : ℕ
  pub outer_l2 : ℕ
  pub outer_l3 : ℕ
  pub outer_l4 : ℕ
  pub outer_ether : ℕ
  pub outer_ipv4_hdr : ℕ
  pub outer_udp_hdr : ℕ
  pub vxlan_header : ℕ
  pub overlay : Bool
  pub ether : ℕ
  pub cmbuf : Mbuf

abbrev pub nil : ℕ
nil = 0

unfoldable pub parse_l2 : Packet → Packet
unfolding Mbuf.l2
parse_l2 p = record p { l2 = Mbuf.l2 p.cmbuf }

unfoldable pub get_ether : Packet → ℕ
get_ether p = p.l2

unfoldable pub unparsed : Packet → ℕ
unparsed p = p.l2 + Types.ether_len

unfoldable pub start_at_offset : Packet → ℕ → ℕ
start_at_offset p offset = p.l2 + offset

unfoldable pub parse_l3 : Packet → Packet
unfolding unparsed
parse_l3 p = record p { l3 = unparsed p }

module _ (m : Memory) where
  unfoldable pub get_ipv4 : Packet → ℕ
  unfolding ether_at get_ether
  get_ipv4 p =
      if (ether_at m (get_ether p)).ether_type == swap_bytes_uint16 Types.ipv4_number
      then p.l3
      else nil

  unfoldable pub get_arp : Packet → ℕ
  unfolding ether_at get_ether
  get_arp p =
      if (ether_at m (get_ether p)).ether_type == swap_bytes_uint16 Types.arp_number
      then p.l3
      else nil

  unfoldable pub get_ipv6 : Packet → ℕ
  unfolding ether_at get_ether
  get_ipv6 p =
      if (ether_at m (get_ether p)).ether_type == swap_bytes_uint16 Types.ipv6_number
      then p.l3
      else nil

  -- `VersionIhl & 0x0f << 2` is computed on a uint8.
  unfoldable pub parse_l4_for_ipv4 : Packet → Packet
  unfolding ipv4_at
  parse_l4_for_ipv4 p = record p {
    l4 = p.l3 + u8 (bit_and (ipv4_at m p.l3).version_ihl 0x0f <<< 2);
  }

  unfoldable pub parse_l4_for_ipv6 : Packet → Packet
  parse_l4_for_ipv6 p = record p { l4 = p.l3 + Types.ipv6_len }

  -- `GetTCPForIPv4`, `GetUDPForIPv4` and `GetICMPForIPv4` have this body at three numbers.
  unfoldable pub get_for_ipv4 : (number : ℕ) → Packet → ℕ
  unfolding ipv4_at
  get_for_ipv4 number p = if (ipv4_at m p.l3).next_proto_id == number then p.l4 else nil

  unfoldable pub get_for_ipv6 : (number : ℕ) → Packet → ℕ
  unfolding ipv6_at
  get_for_ipv6 number p = if (ipv6_at m p.l3).proto == number then p.l4 else nil

  abbrev pub get_tcp_for_ipv4 : Packet → ℕ
  get_tcp_for_ipv4 p = get_for_ipv4 Types.tcp_number p

  abbrev pub get_udp_for_ipv4 : Packet → ℕ
  get_udp_for_ipv4 p = get_for_ipv4 Types.udp_number p

  abbrev pub get_icmp_for_ipv4 : Packet → ℕ
  get_icmp_for_ipv4 p = get_for_ipv4 Types.icmp_number p

  abbrev pub get_tcp_for_ipv6 : Packet → ℕ
  get_tcp_for_ipv6 p = get_for_ipv6 Types.tcp_number p

  abbrev pub get_udp_for_ipv6 : Packet → ℕ
  get_udp_for_ipv6 p = get_for_ipv6 Types.udp_number p

  abbrev pub get_icmp_for_ipv6 : Packet → ℕ
  get_icmp_for_ipv6 p = get_for_ipv6 Types.icmpv6_number p

  -- The results of the parsers: three pointers, of which all but one are nil.
  unfoldable pub parse_all_known_l3 : Packet → Packet × (ℕ × ℕ × ℕ)
  unfolding parse_l3 get_ipv4 get_arp get_ipv6
  parse_all_known_l3 p =
      let p = parse_l3 p in
      if not (get_ipv4 p == nil)
      then (p, (p.l3, nil, nil))
      else if not (get_arp p == nil)
      then (p, (nil, nil, p.l3))
      else if not (get_ipv6 p == nil)
      then (p, (nil, p.l3, nil))
      else (p, (nil, nil, nil))

  unfoldable pub parse_all_known_l4_for_ipv4 : Packet → Packet × (ℕ × ℕ × ℕ)
  unfolding parse_l4_for_ipv4 get_for_ipv4
  parse_all_known_l4_for_ipv4 p =
      let p = parse_l4_for_ipv4 p in
      if not (get_udp_for_ipv4 p == nil)
      then (p, (nil, p.l4, nil))
      else if not (get_tcp_for_ipv4 p == nil)
      then (p, (p.l4, nil, nil))
      else if not (get_icmp_for_ipv4 p == nil)
      then (p, (nil, nil, p.l4))
      else (p, (nil, nil, nil))

  unfoldable pub parse_all_known_l4_for_ipv6 : Packet → Packet × (ℕ × ℕ × ℕ)
  unfolding parse_l4_for_ipv6 get_for_ipv6
  parse_all_known_l4_for_ipv6 p =
      let p = parse_l4_for_ipv6 p in
      if not (get_tcp_for_ipv6 p == nil)
      then (p, (p.l4, nil, nil))
      else if not (get_udp_for_ipv6 p == nil)
      then (p, (nil, p.l4, nil))
      else if not (get_icmp_for_ipv6 p == nil)
      then (p, (nil, nil, p.l4))
      else (p, (nil, nil, nil))

  -- `L4 + uintptr(DataOff & 0xf0) >> 2`, where the shift binds tighter.
  unfoldable pub tcp_payload : (l4 : ℕ) → ℕ
  unfolding tcp_at
  tcp_payload l4 = l4 + (bit_and (tcp_at m l4).data_off 0xf0 >>> 2)

  unfoldable pub parse_l7 : Packet → (protocol : ℕ) → Packet
  unfolding tcp_payload
  parse_l7 p protocol =
      if protocol == Types.tcp_number
      then record p { payload = tcp_payload p.l4 }
      else if protocol == Types.udp_number
      then record p { payload = p.l4 + Types.udp_len }
      else if (protocol == Types.icmp_number) || (protocol == Types.icmpv6_number)
      then record p { payload = p.l4 + Types.icmp_len }
      else p

  -- The end of `ParseData` and of `VxlanDecap`: the payload behind the header that was found.
  unfoldable pub set_payload : Packet × (ℕ × ℕ × ℕ) → Packet × ℤ
  unfolding tcp_payload
  set_payload (p, (tcp, udp, icmp)) =
      if not (tcp == nil)
      then (record p { payload = tcp_payload p.l4 }, pos 0)
      else if not (udp == nil)
      then (record p { payload = p.l4 + Types.udp_len }, pos 0)
      else if not (icmp == nil)
      then (record p { payload = p.l4 + Types.icmp_len }, pos 0)
      else (p, negsuc 0)

  -- The parse of layer 4 that fits what layer 3 is. Where that is neither IPv4 nor IPv6 the three
  -- variables keep what they held before.
  unfoldable pub parse_known_l4 : (before : ℕ × ℕ × ℕ) → Packet × (ℕ × ℕ × ℕ) → Packet × (ℕ × ℕ × ℕ)
  parse_known_l4 before (p, (ipv4, ipv6, arp)) =
      if not (ipv4 == nil)
      then parse_all_known_l4_for_ipv4 p
      else if not (ipv6 == nil)
      then parse_all_known_l4_for_ipv6 p
      else (p, before)

  -- 0, or -1 where layer 3 or 4 is not known.
  unfoldable pub parse_data : Packet → Packet × ℤ
  parse_data p = set_payload (parse_known_l4 (nil, nil, nil) (parse_all_known_l3 p))

  -- The end of `VxlanDecap`, on the inner frame; `udp` is the outer UDP header.
  unfoldable pub vxlan_inner : (udp : ℕ) → Packet × (ℕ × ℕ × ℕ) → Packet × ℤ
  vxlan_inner udp (p, (ipv4, ipv6, arp)) =
      if not (arp == nil)
      then (p, pos 0)
      else set_payload (parse_known_l4 (nil, udp, nil) (p, (ipv4, ipv6, arp)))

  -- The packet after the assignments that move it to the inner frame.
  unfoldable pub enter_overlay : (ether ipv4 udp : ℕ) → Packet → Packet
  enter_overlay ether ipv4 udp p = record p {
    overlay = true;
    outer_ether = ether;
    outer_ipv4_hdr = ipv4;
    outer_udp_hdr = udp;
    vxlan_header = p.l4 + Types.udp_len;
    outer_l2 = p.l2;
    outer_l3 = p.l3;
    outer_l4 = p.l4;
    l3 = nil;
    l4 = nil;
    l2 = p.l4 + Types.udp_len + Types.vxlan_len;
  }

  -- The middle of `VxlanDecap`, from the outer IPv4 header on.
  unfoldable pub vxlan_outer : (ether : ℕ) → Packet × (ℕ × ℕ × ℕ) → Packet × ℤ
  unfolding udp_at
  vxlan_outer ether (p, (ipv4, _, _)) =
      if ipv4 == nil
      then (p, negsuc 0)
      else (let (p, (_, udp, _)) = parse_all_known_l4_for_ipv4 p in
          if (udp == nil) || not (swap_bytes_uint16 (udp_at m udp).dst_port == 4789)
          then (p, negsuc 0)
          else vxlan_inner udp (parse_all_known_l3 (enter_overlay ether ipv4 udp p)))

  unfoldable pub vxlan_decap : Packet → Packet × ℤ
  unfolding parse_l2 parse_l3 get_ether ether_at
  vxlan_decap packet =
      let p = parse_l2 (record packet { overlay = false }) in
      let ether = get_ether p in
      let ether_type = (ether_at m ether).ether_type in
      if (ether_type == Types.swap_arp_number) || (ether_type == Types.swap_ipv6_number)
      then (parse_l3 p, negsuc 0)
      else (let p = if ether_type == Types.swap_ipv4_number then parse_l3 p else p in
          vxlan_outer ether (parse_all_known_l3 p))
