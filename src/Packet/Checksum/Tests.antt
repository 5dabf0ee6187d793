-- ===== src/Packet/Checksum/Tests.antt =====
-- Runs and instances for the checksums.
use go_dpdk.Base.{◌+◌, ◌≡◌, refl, arith}
use go_dpdk.Memory.{load8}
use go_dpdk.Packet.Swap.{be16}
use go_dpdk.Packet.Header.{ipv4_at, tcp_at}
use go_dpdk.Packet.Sample.{tcp_frame}
use go_dpdk.Packet.Checksum.{reduce_checksum, calculate_data_checksum, calculate_ipv4_tcp_checksum}
use go_dpdk.Packet.Checksum.Reduce.{IsFolded, reduce_checksum-IsFolded}
use go_dpdk.Packet.Checksum.Words.{words_sum, byte_sum, calculate_data_checksum-eq-byte_sum}
use go_dpdk.Packet.Checksum.Ipv4.{with_checksum, ipv4_checksum_accepted}
use go_dpdk.Packet.Checksum.Parts.{tcp_words}
use go_dpdk.Packet.Checksum.Transport.{pseudo, tcp_checksum_accepted}

reduce_checksum-IsFolded_example : IsFolded 0x2fffd (reduce_checksum 0x2fffd)
reduce_checksum-IsFolded_example = reduce_checksum-IsFolded 0x2fffd (omega arith)

calculate_data_checksum-eq-byte_sum_example :
    calculate_data_checksum tcp_frame 4150 3 0 ≡ byte_sum tcp_frame 4150 3
calculate_data_checksum-eq-byte_sum_example =
    calculate_data_checksum-eq-byte_sum tcp_frame 4150 3 (omega arith) (omega arith)

ipv4_checksum_accepted_example :
    reduce_checksum (words_sum (with_checksum tcp_frame 4110) 4110 10) ≡ 0xffff
ipv4_checksum_accepted_example = ipv4_checksum_accepted tcp_frame 4110

tcp_checksum_accepted_example :
    let c =
      calculate_ipv4_tcp_checksum tcp_frame (ipv4_at tcp_frame 4110) (tcp_at tcp_frame 4130) 4150 in
    reduce_checksum
      (byte_sum tcp_frame 4150 3 + pseudo tcp_frame 4110 + 23 + (tcp_words tcp_frame 4130 + c))
    ≡ 0xffff
unfolding be16 load8
tcp_checksum_accepted_example =
    tcp_checksum_accepted tcp_frame 4110 4130 4150 (omega arith) refl refl (omega arith)
