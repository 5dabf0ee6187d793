-- ===== src/Sniffer/Answer.antt =====
-- app/test-sniffer/lcores.go: what `LcoreFunc` does with one received packet. Printing is left out.
-- `L3` and `L4` are set by `ParseData` before the answer, so that only the option can be nil.
pub mod Parsed
mod ArpSteps
pub mod Arp
pub mod Sums
mod EchoSteps
pub mod Echo
pub mod Solicitation
mod Tests
use go_dpdk.Base.{
  ℕ, ◌+◌, ◌%◌, ◌^◌, ◌/◌, Bool, true, false, List, [], ◌∷◌, u8, not, ◌==◌, if◌then◌else◌, bit_or,
}
use go_dpdk.Types
use go_dpdk.Memory.{
  Memory, load8, load16, load32, store8, store16, store32, load_bytes, store_bytes,
}
use go_dpdk.Mbuf.{Mbuf}
use go_dpdk.Packet.Header.{ipv4_at, ipv6_at, icmp_at}
use go_dpdk.Packet.Swap.{swap_bytes_uint16}
use go_dpdk.Packet.Parse.{
  Packet, nil, get_ether, get_ipv4, get_arp, get_ipv6, get_icmp_for_ipv4, get_icmp_for_ipv6,
  get_udp_for_ipv4, get_udp_for_ipv6, parse_l7, parse_data, vxlan_decap,
}
use go_dpdk.Packet.Checksum.{calculate_ipv4_checksum, calculate_ipv4_icmp_checksum}
use go_dpdk.Packet.Checksum.Ipv6.{calculate_ipv6_icmp_checksum}
use go_dpdk.Packet.Arp.{arp_request, arp_reply}
use go_dpdk.Packet.Icmp6.{get_nd_target_link_layer_address_option, message_size, option_size}

-- The packet is freed, or put into the buffer to send; or a nil pointer is followed.
pub data Verdict : Type 0 where
  dropped : Memory → Packet → Verdict
  sent : Memory → Packet → Verdict
  panicked : Verdict

-- The hardware address that the program answers with.
abbrev pub own_mac : List ℕ
own_mac = 0x0a ∷ 0x58 ∷ 0xda ∷ 0x97 ∷ 0x5a ∷ 0x6f ∷ []

-- `tmp := *a; *a = *b; *b = tmp` on runs of `n` bytes.
abbrev pub swap_runs : Memory → (a b n : ℕ) → Memory
swap_runs m a b n =
    let tmp = load_bytes m a n in let m = store_bytes m a (load_bytes m b n) in store_bytes m b tmp

unfoldable pub answer_arp : Memory → Packet → (ether : ℕ) → Verdict
answer_arp m p ether =
    let arp = get_arp m p in
    if not (load16 m (arp + 6) == swap_bytes_uint16 arp_request)
    then dropped m p
    else (let m = store16 m (arp + 6) (swap_bytes_uint16 arp_reply) in
        let tmp = load_bytes m (arp + 8) 6 in
        let m = store_bytes m (arp + 8) own_mac in
        let m = store_bytes m (ether + 6) (load_bytes m (arp + 8) 6) in
        let m = store_bytes m (arp + 18) tmp in sent (swap_runs m (arp + 14) (arp + 24) 4) p)

-- The end of the IPv4 case: the header checksum.
abbrev finish_ipv4 : Memory → (ipv4 : ℕ) → Memory
finish_ipv4 m ipv4 =
    store16 m (ipv4 + 10) (swap_bytes_uint16 (calculate_ipv4_checksum (ipv4_at m ipv4)))

unfoldable pub answer_ipv4 : Memory → Packet → Verdict
answer_ipv4 m p =
    let ipv4 = get_ipv4 m p in
    let tmp_ip = load32 m (ipv4 + 12) in
    let m = store32 m (ipv4 + 12) (load32 m (ipv4 + 16)) in
    let m = store32 m (ipv4 + 16) tmp_ip in
    let proto = load8 m (ipv4 + 9) in
    if proto == Types.icmp_number
    then (let icmp = get_icmp_for_ipv4 m p in
        if not (load8 m icmp == Types.icmp_type_echo_request)
        then dropped m p
        else (let m = store8 m icmp Types.icmp_type_echo_response in
            let sum = calculate_ipv4_icmp_checksum m (ipv4_at m ipv4) (icmp_at m icmp) p.payload in
            let m = store16 m (icmp + 2) (swap_bytes_uint16 sum) in sent (finish_ipv4 m ipv4) p))
    else if proto == Types.udp_number
    then (let tmp_port = load16 m (get_udp_for_ipv4 m p) in
        let m = store16 m (get_udp_for_ipv4 m p) (load16 m (get_udp_for_ipv4 m p + 2)) in
        let m = store16 m (get_udp_for_ipv4 m p + 2) tmp_port in sent (finish_ipv4 m ipv4) p)
    else dropped m p

-- The checksum of the ICMPv6 message, in its field.
abbrev finish_icmpv6 : Memory → Packet → (ipv6 icmp : ℕ) → Memory
finish_icmpv6 m p ipv6 icmp =
    store16 m (icmp + 2) (
      swap_bytes_uint16
        (calculate_ipv6_icmp_checksum m (ipv6_at m ipv6) (icmp_at m icmp) p.payload))

-- The answer to a neighbour solicitation.
unfoldable pub answer_solicitation : Memory → Packet → (ether ipv6 icmp : ℕ) → Verdict
answer_solicitation m p ether ipv6 icmp =
    let p = parse_l7 m p Types.icmpv6_number in
    let raw_target_ip = load_bytes m p.payload 16 in
    let m = store8 m icmp Types.icmpv6_neighbor_advertisement in
    let m = store16 m (icmp + 4) (swap_bytes_uint16 (bit_or 0x4000 0x2000)) in
    let m = store_bytes m (p.l3 + 8) raw_target_ip in
    let m = store_bytes m (ether + 6) own_mac in
    let m = store_bytes m p.payload raw_target_ip in
    let option = get_nd_target_link_layer_address_option p message_size in
    if option == nil
    then panicked
    else (let m = store8 m option 2 in
        let m = store8 m (option + 1) (u8 (option_size / 8)) in
        let m = store_bytes m (option + 2) own_mac in sent (finish_icmpv6 m p ipv6 icmp) p)

unfoldable pub answer_icmpv6 : Memory → Packet → (ether ipv6 : ℕ) → Verdict
answer_icmpv6 m p ether ipv6 =
    let icmp = get_icmp_for_ipv6 m p in
    let type = load8 m icmp in
    if type == Types.icmpv6_type_echo_request
    then (let m = store8 m icmp Types.icmpv6_type_echo_response in
        sent (finish_icmpv6 m p ipv6 icmp) p)
    else if type == Types.icmpv6_neighbor_solicitation
    then answer_solicitation m p ether ipv6 icmp
    else if type == Types.icmpv6_type_router_solicitation
    then dropped m p
    else sent m p

unfoldable pub answer_ipv6 : Memory → Packet → (ether : ℕ) → Verdict
answer_ipv6 m p ether =
    let ipv6 = get_ipv6 m p in
    let m = swap_runs m (p.l3 + 8) (p.l3 + 24) 16 in
    let proto = load8 m (ipv6 + 6) in
    if proto == Types.icmpv6_number
    then answer_icmpv6 m p ether ipv6
    else if proto == Types.udp_number
    then (let udp = get_udp_for_ipv6 m p in
        let tmp_port = load16 m udp in
        let m = store16 m udp (load16 m (udp + 2)) in
        let m = store16 m (udp + 2) tmp_port in sent m p)
    else dropped m p

-- `if pkt.Overlay`: the outer headers of a packet that is to be sent.
unfoldable pub answer_outer : Verdict → Verdict
answer_outer (dropped m p) = dropped m p
answer_outer panicked = panicked
answer_outer (sent m p) =
    if p.overlay
    then (let m = swap_runs m (p.outer_ether + 6) p.outer_ether 6 in
        let out_ipv4 = p.outer_ipv4_hdr in
        let tmp_ip = load32 m (out_ipv4 + 12) in
        let m = store32 m (out_ipv4 + 12) (load32 m (out_ipv4 + 16)) in
        let m = store32 m (out_ipv4 + 16) tmp_ip in sent (store16 m (p.outer_udp_hdr + 6) 0) p)
    else sent m p

-- The choice by the EtherType, after the hardware addresses are swapped.
unfoldable pub answer_inner : Memory → Packet → (ether : ℕ) → Verdict
answer_inner m p ether =
    let ether_type = load16 m (ether + 12) in
    if ether_type == swap_bytes_uint16 Types.arp_number
    then answer_arp m p ether
    else if ether_type == swap_bytes_uint16 Types.ipv4_number
    then answer_ipv4 m p
    else if ether_type == swap_bytes_uint16 Types.ipv6_number
    then answer_ipv6 m p ether
    else sent m p

-- From `ether := pkt.GetEther()` on.
unfoldable pub answer : Memory → Packet → Verdict
answer m p =
    let ether = get_ether p in answer_outer (answer_inner (swap_runs m (ether + 6) ether 6) p ether)

-- A `packet.Packet` with nothing but its mbuf.
abbrev pub fresh : Mbuf → Packet
fresh mb = record {
  l2 = nil;
  l3 = nil;
  l4 = nil;
  payload = nil;
  outer_l2 = nil;
  outer_l3 = nil;
  outer_l4 = nil;
  outer_ether = nil;
  outer_ipv4_hdr = nil;
  outer_udp_hdr = nil;
  vxlan_header = nil;
  overlay = false;
  ether = nil;
  cmbuf = mb;
}

-- The body of the loop over the received packets.
unfoldable pub handle : Memory → Mbuf → Verdict
handle m mb = let (p, _) = vxlan_decap m (fresh mb) in let (p, _) = parse_data m p in answer m p
