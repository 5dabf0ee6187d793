-- ===== src/Packet/Checksum/Ipv6/Tests.antt =====
-- Instances for the checksums over IPv6.
use go_dpdk.Base.{[], ◌∷◌}
use go_dpdk.Memory.{Memory}
use go_dpdk.Packet.Sample.{ipv6_frame, tcp_segment}

abbrev udp6 : Memory
udp6 = ipv6_frame 11 17 (0x12 ∷ 0x34 ∷ 0 ∷ 53 ∷ 0 ∷ 11 ∷ 0 ∷ 0 ∷ 97 ∷ 98 ∷ 99 ∷ [])

abbrev tcp6 : Memory
tcp6 = ipv6_frame 23 6 tcp_segment

abbrev icmp6 : Memory
icmp6 = ipv6_frame 11 58 (128 ∷ 0 ∷ 0 ∷ 0 ∷ 0 ∷ 1 ∷ 0 ∷ 7 ∷ 97 ∷ 98 ∷ 99 ∷ [])
