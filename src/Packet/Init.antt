-- ===== src/Packet/Init.antt =====
-- packet/packet.go: the functions that lay out an empty packet. `plSize` is a uint, and the lengths
-- in the headers are cut to uint16 as the code does. Writing through `Ether` and through `L3` meet
-- in one memory.
pub mod Fill
pub mod Ipv4
mod Tests
use go_dpdk.Base.{ℕ, ◌+◌, ◌%◌, ◌^◌, Bool, true, false, List, length, u8, u16, u64, if◌then◌else◌}
use go_dpdk.Types
use go_dpdk.Memory.{Memory, store8, store16, store32}
use go_dpdk.Mbuf
use go_dpdk.Mbuf.{Mbuf}
use go_dpdk.Packet.Swap.{swap_bytes_uint16}
use go_dpdk.Packet.Parse.{
  Packet, unparsed, parse_l3, parse_l4_for_ipv4, parse_l4_for_ipv6, tcp_payload,
}

-- A packet in its memory.
abbrev pub State : Type 0
State = Memory × Packet

-- `if AppendMbuf(...) == false { return false }`, then the rest on the packet with the longer mbuf.
unfoldable pub append_then :
    (buf_size : ℕ) → (Memory → Packet → State) → Memory → Packet → State × Bool
append_then buf_size rest m p =
    let (mb, done) = Mbuf.append_mbuf p.cmbuf buf_size in
    if done then (rest m (record p { cmbuf = mb }), true) else ((m, p), false)

unfoldable pub generate_packet_from_byte : Memory → Packet → List ℕ → State × Bool
generate_packet_from_byte m p bytes =
    append_then (length bytes) (λ m p. (Mbuf.write_data_to_mbuf m p.cmbuf bytes, p)) m p

unfoldable pub init_empty_packet : Memory → Packet → (pl_size : ℕ) → State × Bool
init_empty_packet m p pl_size =
    append_then (u64 (pl_size + Types.ether_len)) (λ m p. (m, record p { payload = unparsed p })) m
      p

-- `packet.Ether.EtherType = SwapBytesUint16(number)`
unfoldable pub set_ether_type : Memory → Packet → (number : ℕ) → Memory
set_ether_type m p number = store16 m (p.ether + 12) (swap_bytes_uint16 number)

unfoldable pub fill_ipv4_default : Memory → Packet → (pl_len next_proto : ℕ) → Memory
fill_ipv4_default m p pl_len next_proto =
    let m = store8 m p.l3 Types.ipv4_version_ihl in
    let m = store16 m (p.l3 + 2) (swap_bytes_uint16 pl_len) in
    let m = store8 m (p.l3 + 9) next_proto in store8 m (p.l3 + 8) 64

unfoldable pub fill_ipv6_default : Memory → Packet → (total_len next_proto : ℕ) → Memory
fill_ipv6_default m p total_len next_proto =
    let m = store16 m (p.l3 + 4) (swap_bytes_uint16 total_len) in
    let m = store32 m p.l3 Types.ipv6_vtc_flow in
    let m = store8 m (p.l3 + 6) next_proto in store8 m (p.l3 + 7) 255

-- `hdr.HdrChecksum = 0`, under the global flag `hwtxchecksum`.
unfoldable pub reset_checksum : (hwtxchecksum : Bool) → Memory → Packet → Memory
reset_checksum hwtxchecksum m p = if hwtxchecksum then store16 m (p.l3 + 10) 0 else m

module _ (hwtxchecksum : Bool) where
  unfoldable pub init_empty_ipv4_packet : Memory → Packet → (pl_size : ℕ) → State × Bool
  init_empty_ipv4_packet m p pl_size =
      append_then (u64 (pl_size + Types.ether_len + Types.ipv4_min_len))
        (λ m p.
          let m = set_ether_type m p Types.ipv4_number in
          let p = parse_l3 (record p { payload = unparsed p + Types.ipv4_min_len }) in
          let m = fill_ipv4_default m p (u16 (Types.ipv4_min_len + pl_size)) Types.no_next_header in
          (reset_checksum hwtxchecksum m p, p))
        m p

  unfoldable pub init_empty_ipv4_tcp_packet : Memory → Packet → (pl_size : ℕ) → State × Bool
  init_empty_ipv4_tcp_packet m p pl_size =
      append_then (u64 (pl_size + Types.ether_len + Types.ipv4_min_len + Types.tcp_min_len))
        (λ m p.
          let m = set_ether_type m p Types.ipv4_number in
          let p = parse_l3 p in
          let m =
            fill_ipv4_default m p (u16 (Types.ipv4_min_len + Types.tcp_min_len + pl_size))
              Types.tcp_number in
          let p = parse_l4_for_ipv4 m p in
          let m = store8 m (p.l4 + 12) Types.tcp_min_data_offset in
          let p = record p { payload = tcp_payload m p.l4 } in (reset_checksum hwtxchecksum m p, p))
        m p

  unfoldable pub init_empty_ipv4_udp_packet : Memory → Packet → (pl_size : ℕ) → State × Bool
  init_empty_ipv4_udp_packet m p pl_size =
      append_then (u64 (pl_size + Types.ether_len + Types.ipv4_min_len + Types.udp_len))
        (λ m p.
          let m = set_ether_type m p Types.ipv4_number in
          let p =
            parse_l3 (record p { payload = unparsed p + Types.ipv4_min_len + Types.udp_len }) in
          let m =
            fill_ipv4_default m p (u16 (Types.ipv4_min_len + Types.udp_len + pl_size))
              Types.udp_number in
          let p = parse_l4_for_ipv4 m p in
          let m = store16 m (p.l4 + 4) (swap_bytes_uint16 (u16 (Types.udp_len + pl_size))) in
          (reset_checksum hwtxchecksum m p, p))
        m p

  unfoldable pub init_empty_ipv4_icmp_packet : Memory → Packet → (pl_size : ℕ) → State × Bool
  init_empty_ipv4_icmp_packet m p pl_size =
      append_then (u64 (pl_size + Types.ether_len + Types.ipv4_min_len + Types.icmp_len))
        (λ m p.
          let m = set_ether_type m p Types.ipv4_number in
          let p =
            parse_l3 (record p { payload = unparsed p + Types.ipv4_min_len + Types.icmp_len }) in
          let m =
            fill_ipv4_default m p (u16 (Types.ipv4_min_len + Types.icmp_len + pl_size))
              Types.icmp_number in
          let p = parse_l4_for_ipv4 m p in (reset_checksum hwtxchecksum m p, p))
        m p

unfoldable pub init_empty_ipv6_packet : Memory → Packet → (pl_size : ℕ) → State × Bool
init_empty_ipv6_packet m p pl_size =
    append_then (u64 (pl_size + Types.ether_len + Types.ipv6_len))
      (λ m p.
        let m = set_ether_type m p Types.ipv6_number in
        let p = parse_l3 (record p { payload = unparsed p + Types.ipv6_len }) in
        (fill_ipv6_default m p (u16 pl_size) Types.no_next_header, p))
      m p

unfoldable pub init_empty_arp_packet : Memory → Packet → State × Bool
init_empty_arp_packet m p =
    append_then (Types.ether_len + Types.arp_len)
      (λ m p. (set_ether_type m p Types.arp_number, parse_l3 p)) m p

unfoldable pub init_empty_ipv6_tcp_packet : Memory → Packet → (pl_size : ℕ) → State × Bool
init_empty_ipv6_tcp_packet m p pl_size =
    append_then (u64 (pl_size + Types.ether_len + Types.ipv6_len + Types.tcp_min_len))
      (λ m p.
        let m = set_ether_type m p Types.ipv6_number in
        let p = parse_l3 p in
        let m = fill_ipv6_default m p (u16 (Types.tcp_min_len + pl_size)) Types.tcp_number in
        let p = parse_l4_for_ipv6 m p in
        let m = store8 m (p.l4 + 12) Types.tcp_min_data_offset in
        (m, record p { payload = tcp_payload m p.l4 }))
      m p

unfoldable pub init_empty_ipv6_udp_packet : Memory → Packet → (pl_size : ℕ) → State × Bool
init_empty_ipv6_udp_packet m p pl_size =
    append_then (u64 (pl_size + Types.ether_len + Types.ipv6_len + Types.udp_len))
      (λ m p.
        let m = set_ether_type m p Types.ipv6_number in
        let p = parse_l3 (record p { payload = unparsed p + Types.ipv6_len + Types.udp_len }) in
        let m = fill_ipv6_default m p (u16 (Types.udp_len + pl_size)) Types.udp_number in
        let p = parse_l4_for_ipv6 m p in
        (store16 m (p.l4 + 4) (swap_bytes_uint16 (u16 (Types.udp_len + pl_size))), p))
      m p

unfoldable pub init_empty_ipv6_icmp_packet : Memory → Packet → (pl_size : ℕ) → State × Bool
init_empty_ipv6_icmp_packet m p pl_size =
    append_then (u64 (pl_size + Types.ether_len + Types.ipv6_len + Types.icmp_len))
      (λ m p.
        let m = set_ether_type m p Types.ipv6_number in
        let p = parse_l3 (record p { payload = unparsed p + Types.ipv6_len + Types.icmp_len }) in
        let m = fill_ipv6_default m p (u16 (Types.icmp_len + pl_size)) Types.icmpv6_number in
        (m, parse_l4_for_ipv6 m p))
      m p
