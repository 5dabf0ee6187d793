-- ===== src/Packet/Checksum/Ipv6.antt =====
-- packet/checksum.go: the checksums over IPv6. The pseudo header has the payload length.
pub mod Accepted
mod Tests
use go_dpdk.Base.{ℕ, ◌+◌, u16, u32, sub16, not16, ◌<<<◌, bit_or}
use go_dpdk.Types
use go_dpdk.Memory.{Memory}
use go_dpdk.Packet.Header.{IPv6Hdr, TcpHdr, UdpHdr, IcmpHdr}
use go_dpdk.Packet.Swap.{swap_bytes_uint16}
use go_dpdk.Packet.Checksum.{
  reduce_checksum, calculate_data_checksum, calculate_tcp_checksum, udp_nonzero,
}

-- `uint32(uint16(addr[i])<<8 | uint16(addr[i+1]))`
abbrev pub addr_word : (ℕ → ℕ) → ℕ → ℕ
addr_word addr i = bit_or (u16 (addr i <<< 8)) (addr (i + 1))

unfoldable pub calculate_ipv6_addr_checksum : IPv6Hdr → ℕ
calculate_ipv6_addr_checksum hdr = u32 (
    addr_word hdr.src_addr 0
    + addr_word hdr.src_addr 2
    + addr_word hdr.src_addr 4
    + addr_word hdr.src_addr 6
    + addr_word hdr.src_addr 8
    + addr_word hdr.src_addr 10
    + addr_word hdr.src_addr 12
    + addr_word hdr.src_addr 14
    + addr_word hdr.dst_addr 0
    + addr_word hdr.dst_addr 2
    + addr_word hdr.dst_addr 4
    + addr_word hdr.dst_addr 6
    + addr_word hdr.dst_addr 8
    + addr_word hdr.dst_addr 10
    + addr_word hdr.dst_addr 12
    + addr_word hdr.dst_addr 14)

unfoldable pub calculate_pseudo_hdr_ipv6_tcp_cksum : IPv6Hdr → ℕ
calculate_pseudo_hdr_ipv6_tcp_cksum hdr =
    let data_length = swap_bytes_uint16 hdr.payload_len in
    reduce_checksum (u32 (calculate_ipv6_addr_checksum hdr + data_length + hdr.proto))

unfoldable pub calculate_pseudo_hdr_ipv6_udp_cksum : IPv6Hdr → UdpHdr → ℕ
calculate_pseudo_hdr_ipv6_udp_cksum hdr udp =
    reduce_checksum
      (u32 (calculate_ipv6_addr_checksum hdr + hdr.proto + swap_bytes_uint16 udp.dgram_len))

unfoldable pub calculate_ipv6_udp_checksum : Memory → IPv6Hdr → UdpHdr → (bytes : ℕ) → ℕ
calculate_ipv6_udp_checksum m hdr udp bytes =
    let data_length = swap_bytes_uint16 hdr.payload_len in
    let sum = calculate_data_checksum m bytes (sub16 data_length Types.udp_len) 0 in
    udp_nonzero (
      not16 (
        reduce_checksum (
          u32 (
            sum
            + (calculate_ipv6_addr_checksum hdr
                + swap_bytes_uint16 udp.dgram_len
                + hdr.proto
                + swap_bytes_uint16 udp.src_port
                + swap_bytes_uint16 udp.dst_port
                + swap_bytes_uint16 udp.dgram_len)))))

unfoldable pub calculate_ipv6_tcp_checksum : Memory → IPv6Hdr → TcpHdr → (bytes : ℕ) → ℕ
calculate_ipv6_tcp_checksum m hdr tcp bytes =
    let data_length = swap_bytes_uint16 hdr.payload_len in
    let sum = calculate_data_checksum m bytes (sub16 data_length Types.tcp_min_len) 0 in
    not16 (
      reduce_checksum (
        u32 (
          sum
          + (calculate_ipv6_addr_checksum hdr
              + data_length
              + hdr.proto
              + calculate_tcp_checksum tcp))))

unfoldable pub calculate_ipv6_icmp_checksum : Memory → IPv6Hdr → IcmpHdr → (bytes : ℕ) → ℕ
calculate_ipv6_icmp_checksum m hdr icmp bytes =
    let data_length = swap_bytes_uint16 hdr.payload_len in
    let sum = calculate_data_checksum m bytes (sub16 data_length Types.icmp_len) 0 in
    not16 (
      reduce_checksum (
        u32 (
          sum
          + (calculate_ipv6_addr_checksum hdr
              + data_length
              + hdr.proto
              + bit_or (u16 (icmp.type <<< 8)) icmp.code
              + swap_bytes_uint16 icmp.identifier
              + swap_bytes_uint16 icmp.seq_num))))
