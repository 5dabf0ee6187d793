-- ===== src/Packet/Checksum.antt =====
-- packet/checksum.go. Sums are uint32: a chain of additions wraps once, at its end.
pub mod Reduce
pub mod Words
pub mod Ipv4
pub mod Parts
pub mod Transport
pub mod Ipv6
mod Tests
use mathlib.Core.Logic.{dite}
use mathlib.Core.WellFounded.{Acc}
use go_dpdk.Base.{
  ℕ, zero, suc, ◌+◌, ◌-◌, ◌*◌, ◌/◌, ◌%◌, ◌^◌, ◌<◌, Bool, true, false, arith, u16, u32, u64, sub16,
  not16, ◌<<<◌, ◌>>>◌, bit_and, bit_or, ◌==◌, if◌then◌else◌, lt_wf, dec_lt,
}
use go_dpdk.Bits.{bit_and_low}
use go_dpdk.Types
use go_dpdk.Memory.{Memory, load8, load16}
use go_dpdk.Packet.Header.{IPv4Hdr, IPv6Hdr, TcpHdr, UdpHdr, IcmpHdr}
use go_dpdk.Packet.Swap.{swap_bytes_uint16}

-- One round of the folding loop.
abbrev pub fold_once : ℕ → ℕ
fold_once sum = u32 ((sum >>> 16) + bit_and sum 0xffff)

pub fold_once-lt : (sum : ℕ) → 0xffff < sum → fold_once sum < sum
fold_once-lt sum h = omega (arith, bit_and_low 16 sum)

-- The loop of `reduceChecksum`: it ends because the sum falls.
unfoldable pub reduce_acc : (sum : ℕ) → Acc ◌<◌ sum → ℕ
reduce_acc sum (Acc.intro _ smaller) =
    dite (dec_lt 0xffff sum)
      (λ h. reduce_acc (fold_once sum) (smaller (fold_once sum) (fold_once-lt sum h)))
      (λ _. u16 sum)

unfoldable pub reduce_checksum : ℕ → ℕ
unfolding reduce_acc lt_wf dec_lt
reduce_checksum sum = reduce_acc sum (lt_wf.apply sum)

-- The loop of `calculateDataChecksum` over `slice`, from index `i` with `left` rounds to go.
unfoldable pub data_loop : Memory → (uptr : ℕ) → (left i sum : ℕ) → ℕ
data_loop m uptr zero i sum = sum
data_loop m uptr (suc left) i sum =
    data_loop m uptr left (i + 1) (u32 (sum + swap_bytes_uint16 (load16 m (uptr + 2 * i))))

-- `length` is never negative at a call. A negative `offset` is its two's complement.
unfoldable pub calculate_data_checksum : Memory → (ptr length offset : ℕ) → ℕ
unfolding data_loop
calculate_data_checksum m ptr length offset =
    let uptr = u64 (ptr + offset) in
    let sum = data_loop m uptr (length / 2) 0 0 in
    if bit_and length 1 == 0 then sum else u32 (sum + (load8 m (uptr + (length - 1)) <<< 8))

unfoldable pub calculate_ipv4_addr_checksum : IPv4Hdr → ℕ
calculate_ipv4_addr_checksum hdr = u32 (
    swap_bytes_uint16 (u16 (hdr.src_addr >>> 16))
    + swap_bytes_uint16 (u16 hdr.src_addr)
    + swap_bytes_uint16 (u16 (hdr.dst_addr >>> 16))
    + swap_bytes_uint16 (u16 hdr.dst_addr))

unfoldable pub calculate_ipv4_checksum : IPv4Hdr → ℕ
calculate_ipv4_checksum hdr =
    let sum = u32 (
      u32 (hdr.version_ihl <<< 8)
      + hdr.type_of_service
      + swap_bytes_uint16 hdr.total_length
      + swap_bytes_uint16 hdr.packet_id
      + swap_bytes_uint16 hdr.fragment_offset
      + u32 (hdr.time_to_live <<< 8)
      + hdr.next_proto_id
      + swap_bytes_uint16 (u16 (hdr.src_addr >>> 16))
      + swap_bytes_uint16 (u16 hdr.src_addr)
      + swap_bytes_uint16 (u16 (hdr.dst_addr >>> 16))
      + swap_bytes_uint16 (u16 hdr.dst_addr)) in
    not16 (reduce_checksum sum)

unfoldable pub calculate_pseudo_hdr_ipv4_tcp_cksum : IPv4Hdr → ℕ
calculate_pseudo_hdr_ipv4_tcp_cksum hdr =
    let data_length = sub16 (swap_bytes_uint16 hdr.total_length) Types.ipv4_min_len in
    reduce_checksum (u32 (calculate_ipv4_addr_checksum hdr + hdr.next_proto_id + data_length))

unfoldable pub calculate_pseudo_hdr_ipv4_udp_cksum : IPv4Hdr → UdpHdr → ℕ
calculate_pseudo_hdr_ipv4_udp_cksum hdr udp =
    reduce_checksum
      (u32 (calculate_ipv4_addr_checksum hdr + hdr.next_proto_id + swap_bytes_uint16 udp.dgram_len))

-- The tail of the UDP functions: a zero result is sent as all ones.
abbrev pub udp_nonzero : ℕ → ℕ
udp_nonzero ret_sum = if ret_sum == 0 then not16 ret_sum else ret_sum

unfoldable pub calculate_ipv4_udp_checksum : Memory → IPv4Hdr → UdpHdr → (bytes : ℕ) → ℕ
calculate_ipv4_udp_checksum m hdr udp bytes =
    let data_length = sub16 (swap_bytes_uint16 hdr.total_length) Types.ipv4_min_len in
    let sum = calculate_data_checksum m bytes (sub16 data_length Types.udp_len) 0 in
    udp_nonzero (
      not16 (
        reduce_checksum (
          u32 (
            sum
            + (calculate_ipv4_addr_checksum hdr
                + hdr.next_proto_id
                + swap_bytes_uint16 udp.dgram_len
                + swap_bytes_uint16 udp.src_port
                + swap_bytes_uint16 udp.dst_port
                + swap_bytes_uint16 udp.dgram_len)))))

unfoldable pub calculate_tcp_checksum : TcpHdr → ℕ
calculate_tcp_checksum tcp = u32 (
    swap_bytes_uint16 tcp.src_port
    + swap_bytes_uint16 tcp.dst_port
    + swap_bytes_uint16 (u16 (tcp.sent_seq >>> 16))
    + swap_bytes_uint16 (u16 tcp.sent_seq)
    + swap_bytes_uint16 (u16 (tcp.recv_ack >>> 16))
    + swap_bytes_uint16 (u16 tcp.recv_ack)
    + u32 (tcp.data_off <<< 8)
    + tcp.tcp_flags
    + swap_bytes_uint16 tcp.rx_win
    + swap_bytes_uint16 tcp.tcp_urp)

unfoldable pub calculate_ipv4_tcp_checksum : Memory → IPv4Hdr → TcpHdr → (bytes : ℕ) → ℕ
calculate_ipv4_tcp_checksum m hdr tcp bytes =
    let data_length = sub16 (swap_bytes_uint16 hdr.total_length) Types.ipv4_min_len in
    let sum = calculate_data_checksum m bytes (sub16 data_length Types.tcp_min_len) 0 in
    not16 (
      reduce_checksum (
        u32 (
          sum
          + (calculate_ipv4_addr_checksum hdr
              + hdr.next_proto_id
              + data_length
              + calculate_tcp_checksum tcp))))

unfoldable pub calculate_ipv4_icmp_checksum : Memory → IPv4Hdr → IcmpHdr → (bytes : ℕ) → ℕ
calculate_ipv4_icmp_checksum m hdr icmp bytes =
    let data_length =
      sub16 (sub16 (swap_bytes_uint16 hdr.total_length) Types.ipv4_min_len) Types.icmp_len in
    not16 (
      reduce_checksum (
        u32 (
          bit_or (u16 (icmp.type <<< 8)) icmp.code
          + swap_bytes_uint16 icmp.identifier
          + swap_bytes_uint16 icmp.seq_num
          + calculate_data_checksum m bytes data_length 0)))
