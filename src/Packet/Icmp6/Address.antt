-- ===== src/Packet/Icmp6/Address.antt =====
-- The addresses of neighbour discovery, and the test for an option.
use go_dpdk.Base.{
  ℕ, ◌+◌, ◌^◌, ◌≤◌, ◌<◌, ◌≡◌, ◌≢◌, ◌↔◌, refl, arith, List, [], ◌∷◌, bit_xor, drop, get_or,
}
use go_dpdk.Mbuf
use go_dpdk.Packet.Parse.{Packet, nil, start_at_offset}
use go_dpdk.Packet.Icmp6.{
  calculate_ipv6_link_local_addr_for_mac, calculate_ipv6_multicast_addr_for_dst_ip,
  calculate_ipv6_broadcast_mac_for_dst_multicast_ip, check_enough_space,
  get_nd_source_link_layer_address_option, get_nd_target_link_layer_address_option,
}

-- The option is found exactly where one byte of it is in the packet: of its eight bytes the test
-- sees the first only. The packet's headers are in the segment, and addresses are below 2 ^ 63.
pub option_found_iff :
    (p : Packet) (msg_length : ℕ)
    → p.l2 ≤ p.payload
    → 0 < p.payload
    → p.payload + msg_length < 2 ^ 63
    → ((get_nd_source_link_layer_address_option p msg_length ≢ nil)
        ↔ (p.payload + msg_length + 1 ≤ p.l2 + p.cmbuf.data_len))
      × ((get_nd_target_link_layer_address_option p msg_length ≢ nil)
          ↔ (p.payload + msg_length + 1 ≤ p.l2 + p.cmbuf.data_len))
unfolding get_nd_source_link_layer_address_option get_nd_target_link_layer_address_option
    check_enough_space start_at_offset Mbuf.get_data_len_mbuf
option_found_iff p n h pos narrow = (ground arith, ground arith)

-- Whatever the array of 16 bytes held before, the link-local address of a MAC address is the prefix
-- fe80::/64 and the modified EUI-64 identifier of RFC 4291, with the universal bit flipped.
pub link_local_lem :
    (ll_addr : List ℕ) (old : ℕ → ℕ) (a b c d e f : ℕ)
    → drop 8 ll_addr ≡ old 0 ∷ old 1 ∷ old 2 ∷ old 3 ∷ old 4 ∷ old 5 ∷ old 6 ∷ old 7 ∷ []
    → calculate_ipv6_link_local_addr_for_mac ll_addr (a ∷ b ∷ c ∷ d ∷ e ∷ f ∷ [])
      ≡ 0xfe ∷ 0x80 ∷ 0 ∷ 0 ∷ 0 ∷ 0 ∷ 0 ∷ 0 ∷ bit_xor a 2 ∷ b ∷ c ∷ 0xff ∷ 0xfe ∷ d ∷ e ∷ f ∷ []
unfolding calculate_ipv6_link_local_addr_for_mac
link_local_lem ll_addr old a b c d e f h = rw h

-- Whatever the arrays held before, the MAC address for the solicited-node address of `ip` is
-- 33:33:ff followed by the last three bytes of `ip`, and that address is ff02::1:ff00:0/104 followed
-- by the same bytes.
pub solicited_node_lem :
    (mac addr ip : List ℕ) (old : ℕ → ℕ)
    → drop 2 mac ≡ old 0 ∷ old 1 ∷ old 2 ∷ old 3 ∷ []
    → drop 13 addr ≡ old 4 ∷ old 5 ∷ old 6 ∷ []
    → let node = calculate_ipv6_multicast_addr_for_dst_ip addr ip in
      let low = get_or ip 13 0 ∷ get_or ip 14 0 ∷ get_or ip 15 0 ∷ [] in
      (node ≡ (0xff ∷ 0x02 ∷ 0 ∷ 0 ∷ 0 ∷ 0 ∷ 0 ∷ 0 ∷ 0 ∷ 0 ∷ 0 ∷ 1 ∷ 0xff ∷ low))
      × (calculate_ipv6_broadcast_mac_for_dst_multicast_ip mac node ≡ (0x33 ∷ 0x33 ∷ 0xff ∷ low))
unfolding calculate_ipv6_multicast_addr_for_dst_ip calculate_ipv6_broadcast_mac_for_dst_multicast_ip
solicited_node_lem mac addr ip old h k = rw (h, k) (refl, refl)
