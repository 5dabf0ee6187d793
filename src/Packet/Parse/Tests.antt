-- ===== src/Packet/Parse/Tests.antt =====
-- Runs and instances for the parsers.
use go_dpdk.Base.{◌≡◌, inl, refl, some, none, arith}
use go_dpdk.Memory.{load8, load16}
use go_dpdk.Packet.Swap.{be16, swap_bytes_uint16}
use go_dpdk.Packet.Sample.{packet, tcp_frame, tcp_bytes, vxlan_frame, arp_frame, ethernet}
use go_dpdk.Packet.Parse.{
  parse_data, set_payload, parse_known_l4, parse_all_known_l3, parse_all_known_l4_for_ipv4,
  vxlan_decap, vxlan_outer, vxlan_inner, enter_overlay,
}
use go_dpdk.Packet.Parse.Wire.{payload_at, outcome, parse_data-payload_at}
use go_dpdk.Packet.Parse.Vxlan.{vxlan_decap-inner, vxlan_decap_stale}

parse_tcp : outcome (parse_data tcp_frame (packet 57)) ≡ some 4150
unfolding parse_data set_payload parse_known_l4 parse_all_known_l3 parse_all_known_l4_for_ipv4
    load16 load8 swap_bytes_uint16
parse_tcp = refl

parse_arp : outcome (parse_data arp_frame (packet 14)) ≡ none
unfolding parse_data set_payload parse_known_l4 parse_all_known_l3 parse_all_known_l4_for_ipv4
    load16 load8 swap_bytes_uint16
parse_arp = refl

decap_tcp : outcome (vxlan_decap (vxlan_frame tcp_bytes) (packet 107)) ≡ some 4200
unfolding vxlan_decap vxlan_outer vxlan_inner enter_overlay set_payload parse_known_l4
    parse_all_known_l3 parse_all_known_l4_for_ipv4 load16 load8 swap_bytes_uint16
decap_tcp = refl

parse_data-payload_at_example :
    outcome (parse_data tcp_frame (packet 57)) ≡ payload_at tcp_frame 0x1000
parse_data-payload_at_example = parse_data-payload_at tcp_frame (packet 57)

vxlan_decap-inner_example :
    outcome (vxlan_decap (vxlan_frame tcp_bytes) (packet 107))
    ≡ payload_at (vxlan_frame tcp_bytes) 4146
unfolding be16 load8
vxlan_decap-inner_example = vxlan_decap-inner (vxlan_frame tcp_bytes) (packet 107) refl (inl refl)

vxlan_decap_stale_example :
    outcome (vxlan_decap (vxlan_frame (ethernet 0x12 0x34)) (packet 64)) ≡ some 8
unfolding be16 load8
vxlan_decap_stale_example =
    vxlan_decap_stale (vxlan_frame (ethernet 0x12 0x34)) (packet 64) refl (omega arith)
      (omega arith) (omega arith)
