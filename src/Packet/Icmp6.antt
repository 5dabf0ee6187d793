-- ===== src/Packet/Icmp6.antt =====
-- packet/icmp6.go: neighbour discovery. Addresses are lists of bytes; a function that fills an array
-- through a pointer takes the array and returns it.
pub mod Address
mod Tests
use go_dpdk.Base.{
  ℕ, ◌+◌, ◌-◌, ◌/◌, ◌%◌, ◌^◌, Bool, true, false, List, [], ◌∷◌, ◌++◌, Option, none, some, length,
  drop, set, get_or, u8, u64, sub64, ltb, ◌==◌, if◌then◌else◌, bit_xor, bit_or,
}
use mathlib.Core.Option
use go_dpdk.Types
use go_dpdk.Memory.{Memory, store8, store16, load_bytes, store_bytes}
use go_dpdk.Mbuf
use go_dpdk.Packet.Swap.{swap_bytes_uint16}
use go_dpdk.Packet.Parse.{Packet, nil, start_at_offset, parse_l7}
use go_dpdk.Packet.Init.{State, init_empty_ipv6_icmp_packet}

abbrev pub ipv6_link_local_prefix : List ℕ
ipv6_link_local_prefix = 0xfe ∷ 0x80 ∷ 0 ∷ 0 ∷ 0 ∷ 0 ∷ 0 ∷ 0 ∷ []

abbrev pub ipv6_link_local_multicast_prefix : List ℕ
ipv6_link_local_multicast_prefix =
    0xff ∷ 0x02 ∷ 0 ∷ 0 ∷ 0 ∷ 0 ∷ 0 ∷ 0 ∷ 0 ∷ 0 ∷ 0 ∷ 0x01 ∷ 0xff ∷ []

abbrev pub ipv6_ether_multicast_prefix : List ℕ
ipv6_ether_multicast_prefix = 0x33 ∷ 0x33 ∷ []

-- `copy(dst, src)` for a `src` that is not longer.
abbrev pub copy : (dst src : List ℕ) → List ℕ
copy dst src = src ++ drop (length src) dst

unfoldable pub calculate_ipv6_link_local_addr_for_mac : (ll_addr mac : List ℕ) → List ℕ
calculate_ipv6_link_local_addr_for_mac ll_addr mac =
    let a = copy ll_addr ipv6_link_local_prefix in
    let a = set a 8 (bit_xor (get_or mac 0 0) 0x02) in
    let a = set a 9 (get_or mac 1 0) in
    let a = set a 10 (get_or mac 2 0) in
    let a = set a 11 0xff in
    let a = set a 12 0xfe in
    let a = set a 13 (get_or mac 3 0) in
    let a = set a 14 (get_or mac 4 0) in set a 15 (get_or mac 5 0)

unfoldable pub calculate_ipv6_multicast_addr_for_dst_ip : (multicast_addr dst_ip : List ℕ) → List ℕ
calculate_ipv6_multicast_addr_for_dst_ip multicast_addr dst_ip =
    let a = copy multicast_addr ipv6_link_local_multicast_prefix in
    let a = set a 13 (get_or dst_ip 13 0) in
    let a = set a 14 (get_or dst_ip 14 0) in set a 15 (get_or dst_ip 15 0)

unfoldable pub calculate_ipv6_broadcast_mac_for_dst_multicast_ip :
    (dst_mac dst_ip : List ℕ) → List ℕ
calculate_ipv6_broadcast_mac_for_dst_multicast_ip dst_mac dst_ip =
    let a = copy dst_mac ipv6_ether_multicast_prefix in
    let a = set a 2 (get_or dst_ip 12 0) in
    let a = set a 3 (get_or dst_ip 13 0) in
    let a = set a 4 (get_or dst_ip 14 0) in set a 5 (get_or dst_ip 15 0)

-- The test of the sign of an int64: `hdrs_len` is negative from 2 ^ 63 on, and `space` is below
-- 2 ^ 62, so that the differences do not wrap.
unfoldable pub check_enough_space : Packet → (space : ℕ) → Bool
check_enough_space p space =
    let hdrs_len = sub64 p.payload (start_at_offset p 0) in
    let packet_length = Mbuf.get_data_len_mbuf p.cmbuf in
    if ltb hdrs_len (2 ^ 63)
    then ltb (hdrs_len + space) packet_length
    else ltb space (packet_length + (2 ^ 64 - hdrs_len))

unfoldable pub get_nd_source_link_layer_address_option : Packet → (msg_length : ℕ) → ℕ
get_nd_source_link_layer_address_option p msg_length =
    if check_enough_space p msg_length then u64 (p.payload + msg_length) else nil

unfoldable pub get_nd_target_link_layer_address_option : Packet → (msg_length : ℕ) → ℕ
get_nd_target_link_layer_address_option p msg_length =
    if check_enough_space p msg_length then u64 (p.payload + msg_length) else nil

-- The sizes of the two messages, and of the two options.
abbrev pub message_size : ℕ
message_size = 16

abbrev pub option_size : ℕ
option_size = 8

-- The assignments to an option at `option`; nil panics.
unfoldable pub fill_option : Memory → (option type : ℕ) → (mac : List ℕ) → Option Memory
fill_option m option type mac =
    if option == nil
    then none
    else some (
        let m = store8 m option type in
        let m = store8 m (option + 1) (u8 (option_size / 8)) in store_bytes m (option + 2) mac)

-- `var targetMulticastAddr types.IPv6Address`
abbrev zeros : List ℕ
zeros = 0 ∷ 0 ∷ 0 ∷ 0 ∷ 0 ∷ 0 ∷ 0 ∷ 0 ∷ 0 ∷ 0 ∷ 0 ∷ 0 ∷ 0 ∷ 0 ∷ 0 ∷ 0 ∷ []

-- The result of InitEmptyIPv6ICMPPacket is not looked at.
unfoldable pub init_icmpv6_neighbor_solicitation_packet :
    Memory → Packet → (src_mac src_ip dst_ip : List ℕ) → Option State
init_icmpv6_neighbor_solicitation_packet m p src_mac src_ip dst_ip =
    let ((m, p), _) = init_empty_ipv6_icmp_packet m p (message_size + option_size) in
    let target = calculate_ipv6_multicast_addr_for_dst_ip zeros dst_ip in
    let m =
      store_bytes m p.ether
        (calculate_ipv6_broadcast_mac_for_dst_multicast_ip (load_bytes m p.ether 6) target) in
    let m = store_bytes m (p.ether + 6) src_mac in
    let m = store_bytes m (p.l3 + 24) target in
    let m = store_bytes m (p.l3 + 8) src_ip in
    let m = store8 m p.l4 Types.icmpv6_neighbor_solicitation in
    let m = store16 m (p.l4 + 4) 0 in
    let m = store16 m (p.l4 + 6) 0 in
    let p = parse_l7 m p Types.icmpv6_number in
    let m = store_bytes m p.payload dst_ip in
    Option.map (λ m. (m, p))
      (fill_option m (get_nd_source_link_layer_address_option p message_size) 1 src_mac)

unfoldable pub init_icmpv6_neighbor_advertisement_packet :
    Memory → Packet → (src_mac dst_mac src_ip dst_ip : List ℕ) → Option State
init_icmpv6_neighbor_advertisement_packet m p src_mac dst_mac src_ip dst_ip =
    let ((m, p), _) = init_empty_ipv6_icmp_packet m p (message_size + option_size) in
    let m = store_bytes m p.ether dst_mac in
    let m = store_bytes m (p.ether + 6) src_mac in
    let m = store_bytes m (p.l3 + 24) dst_ip in
    let m = store_bytes m (p.l3 + 8) src_ip in
    let m = store8 m p.l4 Types.icmpv6_neighbor_advertisement in
    let m = store16 m (p.l4 + 4) (swap_bytes_uint16 (bit_or 0x4000 0x2000)) in
    let m = store16 m (p.l4 + 6) 0 in
    let p = parse_l7 m p Types.icmpv6_number in
    let m = store_bytes m p.payload src_ip in
    Option.map (λ m. (m, p))
      (fill_option m (get_nd_target_link_layer_address_option p message_size) 2 src_mac)
