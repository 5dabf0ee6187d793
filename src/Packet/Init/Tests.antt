-- ===== src/Packet/Init/Tests.antt =====
-- Instances for the functions that lay out a packet.
use go_dpdk.Base.{◌+◌, refl, true, arith}
use go_dpdk.Packet.Sample.{packet, at_page}
use go_dpdk.Base.{[]}
use go_dpdk.Packet.Init.{init_empty_ipv4_tcp_packet}
use go_dpdk.Packet.Init.Ipv4.{IsReady, IsLaidOut, init_empty_ipv4_tcp_packet-IsLaidOut}

room_for_tcp : IsReady 64 (10 + 54) (packet 0)
room_for_tcp = record { valid = ground arith; room = omega arith; here = refl }

room_for_eight : IsReady 64 (10 + 42) (packet 0)
room_for_eight = record { valid = ground arith; room = omega arith; here = refl }

init_empty_ipv4_tcp_packet-IsLaidOut_example :
    IsLaidOut 4096 50 64 (init_empty_ipv4_tcp_packet true (at_page []) (packet 0) 10)
init_empty_ipv4_tcp_packet-IsLaidOut_example =
    init_empty_ipv4_tcp_packet-IsLaidOut true (at_page []) (packet 0) 10 room_for_tcp
