-- ===== src/Packet/Checksum/Transport.antt =====
-- The checksums of UDP, TCP and ICMP over IPv4, at headers in memory. The IPv4 header at `p` has the
-- total length `total`. The code takes both headers for 20 bytes: it counts no options.
use go_dpdk.Base.{ℕ, ◌+◌, ◌-◌, ◌*◌, ◌/◌, ◌%◌, ◌^◌, ◌≤◌, ◌<◌, ◌≡◌, refl, ap, arith, not16, sub16}
use go_dpdk.Memory.{Memory, load8, load16, load8-lt}
use go_dpdk.Packet.Swap.{be16, swap_bytes_uint16, swap16-load16, be16-lt}
use go_dpdk.Packet.Header.{ipv4_at, udp_at, tcp_at, icmp_at}
use go_dpdk.Packet.Checksum.{
  reduce_checksum, calculate_ipv4_addr_checksum, calculate_ipv4_udp_checksum,
  calculate_ipv4_tcp_checksum, calculate_ipv4_icmp_checksum, udp_nonzero,
}
use go_dpdk.Packet.Checksum.Reduce.{reduce_complement, reduce_complement_nonzero}
use go_dpdk.Packet.Checksum.Words.{byte_sum, byte_sum-lt}
use go_dpdk.Packet.Checksum.Parts.{
  udp_words, tcp_words, icmp_words, data_part, tcp_part, tcp_words-lt, joined,
}
use go_dpdk.Packet.Checksum.Ipv4.{addr_checksum-at}

module _ (m : Memory) (p : ℕ) where
  abbrev pub total : ℕ
  total = be16 m (p + 2)

  -- The two addresses and the protocol, which every pseudo header has.
  abbrev pub pseudo : ℕ
  pseudo = be16 m (p + 12) + be16 m (p + 14) + be16 m (p + 16) + be16 m (p + 18) + load8 m (p + 9)

  pub addr_part : calculate_ipv4_addr_checksum (ipv4_at m p) + load8 m (p + 9) ≡ pseudo
  addr_part = omega (arith, addr_checksum-at m p)

  pub pseudo-lt : pseudo < 2 ^ 19
  pseudo-lt = omega (
    arith,
    be16-lt m (p + 12),
    be16-lt m (p + 14),
    be16-lt m (p + 16),
    be16-lt m (p + 18),
    load8-lt m (p + 9),
  )

  module _ (t bytes : ℕ) (low : bytes < 2 ^ 64) where
    udp_as_sum :
        28 ≤ total
        → calculate_ipv4_udp_checksum m (ipv4_at m p) (udp_at m t) bytes
          ≡ udp_nonzero (
              not16 (
                reduce_checksum
                  (byte_sum m bytes (total - 28) + pseudo + be16 m (t + 4) + udp_words m t)))
    unfolding calculate_ipv4_udp_checksum ipv4_at udp_at
    udp_as_sum h =
        let len : sub16 (sub16 (swap_bytes_uint16 (load16 m (p + 2))) 20) 8 ≡ total - 28 =
          omega (arith, swap16-load16 m (p + 2), be16-lt m (p + 2)) in
        ap (λ s. udp_nonzero (not16 (reduce_checksum s)))
          (omega (
            arith,
            data_part m bytes low _ _ len (omega (arith, be16-lt m (p + 2))),
            byte_sum-lt m bytes (total - 28),
            addr_part,
            pseudo-lt,
            swap16-load16 m t,
            swap16-load16 m (t + 2),
            swap16-load16 m (t + 4),
            be16-lt m (p + 2),
            be16-lt m t,
            be16-lt m (t + 2),
            be16-lt m (t + 4),
          ))

    tcp_as_sum :
        40 ≤ total
        → calculate_ipv4_tcp_checksum m (ipv4_at m p) (tcp_at m t) bytes
          ≡ not16 (
              reduce_checksum
                (byte_sum m bytes (total - 40) + pseudo + (total - 20) + tcp_words m t))
    unfolding calculate_ipv4_tcp_checksum ipv4_at
    tcp_as_sum h =
        let len : sub16 (sub16 (swap_bytes_uint16 (load16 m (p + 2))) 20) 20 ≡ total - 40 =
          omega (arith, swap16-load16 m (p + 2), be16-lt m (p + 2)) in
        ap (λ s. not16 (reduce_checksum s))
          (omega (
            arith,
            data_part m bytes low _ _ len (omega (arith, be16-lt m (p + 2))),
            byte_sum-lt m bytes (total - 40),
            addr_part,
            pseudo-lt,
            tcp_part m t,
            tcp_words-lt m t,
            swap16-load16 m (p + 2),
            be16-lt m (p + 2),
          ))

    -- The length of the ICMP data wraps for a total length below 28.
    icmp_as_sum :
        (len : ℕ)
        → len ≡ sub16 (sub16 total 20) 8
        → calculate_ipv4_icmp_checksum m (ipv4_at m p) (icmp_at m t) bytes
          ≡ not16 (reduce_checksum (icmp_words m t + byte_sum m bytes len))
    unfolding calculate_ipv4_icmp_checksum ipv4_at icmp_at
    icmp_as_sum len e =
        let same : sub16 (sub16 (swap_bytes_uint16 (load16 m (p + 2))) 20) 8 ≡ len =
          omega (arith, swap16-load16 m (p + 2)) in
        ap (λ s. not16 (reduce_checksum s))
          (omega (
            arith,
            data_part m bytes low _ _ same (omega arith),
            byte_sum-lt m bytes len,
            joined m t,
            swap16-load16 m (t + 4),
            swap16-load16 m (t + 6),
            be16-lt m t,
            be16-lt m (t + 4),
            be16-lt m (t + 6),
          ))

    -- For a total length of at least 28 and data at a 64-bit address: the UDP checksum, added to the
    -- pseudo header, the other words of the header and the data behind an IPv4 header of 20 bytes,
    -- folds to all ones, and it is never the zero that stands for "no checksum".
    pub udp_checksum_accepted :
        28 ≤ total
        → let c = calculate_ipv4_udp_checksum m (ipv4_at m p) (udp_at m t) bytes in
          (reduce_checksum
              (byte_sum m bytes (total - 28) + pseudo + be16 m (t + 4) + (udp_words m t + c))
            ≡ 0xffff)
          × (0 < c)
    udp_checksum_accepted h =
        let s = byte_sum m bytes (total - 28) + pseudo + be16 m (t + 4) + udp_words m t in
        let c = udp_nonzero (not16 (reduce_checksum s)) in
        let small : s < 2 ^ 31 + 2 ^ 22 = omega (
          arith,
          byte_sum-lt m bytes (total - 28),
          pseudo-lt,
          be16-lt m (p + 2),
          be16-lt m t,
          be16-lt m (t + 2),
          be16-lt m (t + 4),
        ) in
        let bound : c < 2 ^ 16 = ground arith in
        let whole : byte_sum m bytes (total - 28) + pseudo + be16 m (t + 4) + (udp_words m t + c)
            ≡ s + c =
          omega arith in
        rw (udp_as_sum h, whole)
          (reduce_complement_nonzero s (s + c) (omega arith) (omega arith) refl)

    tcp_sum_accepted :
        40 ≤ total
        → let c = calculate_ipv4_tcp_checksum m (ipv4_at m p) (tcp_at m t) bytes in
          reduce_checksum
            (byte_sum m bytes (total - 40) + pseudo + (total - 20) + (tcp_words m t + c))
          ≡ 0xffff
    tcp_sum_accepted h =
        let s = byte_sum m bytes (total - 40) + pseudo + (total - 20) + tcp_words m t in
        let small : s < 2 ^ 31 + 2 ^ 22 = omega (
          arith,
          byte_sum-lt m bytes (total - 40),
          pseudo-lt,
          tcp_words-lt m t,
          be16-lt m (p + 2),
        ) in
        reduce_complement s _ (omega arith) (omega (arith, tcp_as_sum h))
          (omega (arith, tcp_as_sum h))

    -- For an IPv4 header and a TCP header without options, a total length of at least 40 and data at
    -- a 64-bit address, a receiver accepts the TCP checksum: added to the pseudo header with the
    -- length of the segment behind the IPv4 header, the other words of the header and the data
    -- behind both headers, it folds to all ones.
    pub tcp_checksum_accepted :
        load8 m p % 16 ≡ 5
        → load8 m (t + 12) / 16 ≡ 5
        → 40 ≤ total
        → let c = calculate_ipv4_tcp_checksum m (ipv4_at m p) (tcp_at m t) bytes in
          let segment = total - load8 m p % 16 * 4 in
          let size = segment - load8 m (t + 12) / 16 * 4 in
          reduce_checksum (byte_sum m bytes size + pseudo + segment + (tcp_words m t + c)) ≡ 0xffff
    tcp_checksum_accepted ihl offset h =
        let size : total - 20 - 20 ≡ total - 40 = omega arith in
        rw (ihl, offset, size) (tcp_sum_accepted h)

    -- For a total length of at least 28 and data at a 64-bit address: the ICMP checksum, added to the
    -- other words of the header and the data behind an IPv4 header of 20 bytes, folds to all ones.
    pub icmp_checksum_accepted :
        28 ≤ total
        → let c = calculate_ipv4_icmp_checksum m (ipv4_at m p) (icmp_at m t) bytes in
          reduce_checksum (icmp_words m t + byte_sum m bytes (total - 28) + c) ≡ 0xffff
    icmp_checksum_accepted h =
        let s = icmp_words m t + byte_sum m bytes (total - 28) in
        let run = icmp_as_sum (total - 28) (omega (arith, be16-lt m (p + 2))) in
        let small : s < 2 ^ 31 + 2 ^ 22 = omega (
          arith,
          byte_sum-lt m bytes (total - 28),
          be16-lt m (p + 2),
          be16-lt m t,
          be16-lt m (t + 4),
          be16-lt m (t + 6),
        ) in
        reduce_complement s _ (omega arith) (omega (arith, run)) (omega (arith, run))

    -- For a total length below 28 the length of the data wraps: the function then sums 65508 bytes
    -- and more, wherever in the 64-bit address space the data lies.
    pub icmp_checksum_short :
        total < 28
        → calculate_ipv4_icmp_checksum m (ipv4_at m p) (icmp_at m t) bytes
          ≡ not16 (reduce_checksum (icmp_words m t + byte_sum m bytes (65508 + total)))
    icmp_checksum_short h = icmp_as_sum (65508 + total) (omega arith)
