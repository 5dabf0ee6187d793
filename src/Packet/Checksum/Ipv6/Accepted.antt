-- ===== src/Packet/Checksum/Ipv6/Accepted.antt =====
-- The checksums of UDP, TCP and ICMP over IPv6, at headers in memory: the IPv6 header at `p` and the
-- transport header at `t`.
use go_dpdk.Base.{
  ℕ, ◌+◌, ◌-◌, ◌^◌, ◌≤◌, ◌<◌, ◌≡◌, refl, ap, arith, not16, sub16, u16, bit_or, ◌<<<◌,
}
use go_dpdk.Memory.{Memory, load8, load16, load8-lt}
use go_dpdk.Packet.Swap.{be16, swap_bytes_uint16, swap16-load16, be16-lt}
use go_dpdk.Packet.Header.{ipv6_at, udp_at, tcp_at, icmp_at}
use go_dpdk.Packet.Checksum.{reduce_checksum, udp_nonzero}
use go_dpdk.Packet.Checksum.Reduce.{reduce_complement, reduce_complement_nonzero}
use go_dpdk.Packet.Checksum.Words.{words_sum, words_sum-le, byte_sum, byte_sum-lt}
use go_dpdk.Packet.Checksum.Parts.{
  udp_words, tcp_words, icmp_words, data_part, tcp_part, tcp_words-lt, joined,
}
use go_dpdk.Packet.Checksum.Ipv6.{
  addr_word, calculate_ipv6_addr_checksum, calculate_ipv6_udp_checksum, calculate_ipv6_tcp_checksum,
  calculate_ipv6_icmp_checksum,
}

word_at :
    (m : Memory) (p a b : ℕ)
    → a ≡ p
    → b ≡ p + 1
    → bit_or (u16 (load8 m a <<< 8)) (load8 m b) ≡ be16 m p
word_at m p a b e f = rw (e, f) (joined m p)

src_word : (m : Memory) (p i : ℕ) → addr_word (ipv6_at m p).src_addr i ≡ be16 m (p + 8 + i)
unfolding ipv6_at
src_word m p i = word_at m (p + 8 + i) _ _ (omega arith) (omega arith)

dst_word : (m : Memory) (p i : ℕ) → addr_word (ipv6_at m p).dst_addr i ≡ be16 m (p + 8 + (16 + i))
unfolding ipv6_at
dst_word m p i = word_at m (p + 8 + (16 + i)) _ _ (omega arith) (omega arith)

-- The two addresses are the 16 words at offset 8.
addr_checksum6-at :
    (m : Memory) (p : ℕ) → calculate_ipv6_addr_checksum (ipv6_at m p) ≡ words_sum m (p + 8) 16
unfolding calculate_ipv6_addr_checksum
addr_checksum6-at m p =
    rw
      (
        src_word m p 0,
        src_word m p 2,
        src_word m p 4,
        src_word m p 6,
        src_word m p 8,
        src_word m p 10,
        src_word m p 12,
        src_word m p 14,
        dst_word m p 0,
        dst_word m p 2,
        dst_word m p 4,
        dst_word m p 6,
        dst_word m p 8,
        dst_word m p 10,
        dst_word m p 12,
        dst_word m p 14,
      )
      (omega (arith, words_sum-le m (p + 8) 16))

module _ (m : Memory) (p : ℕ) where
  abbrev pub payload_length : ℕ
  payload_length = be16 m (p + 4)

  -- The two addresses and the next header, which every pseudo header has.
  abbrev pub pseudo6 : ℕ
  pseudo6 = words_sum m (p + 8) 16 + load8 m (p + 6)

  module _ (t bytes : ℕ) (low : bytes < 2 ^ 64) where
    udp6_as_sum :
        8 ≤ payload_length
        → calculate_ipv6_udp_checksum m (ipv6_at m p) (udp_at m t) bytes
          ≡ udp_nonzero (
              not16 (
                reduce_checksum (
                  byte_sum m bytes (payload_length - 8)
                  + pseudo6
                  + be16 m (t + 4)
                  + udp_words m t)))
    unfolding calculate_ipv6_udp_checksum ipv6_at udp_at
    udp6_as_sum h =
        let len : sub16 (swap_bytes_uint16 (load16 m (p + 4))) 8 ≡ payload_length - 8 =
          omega (arith, swap16-load16 m (p + 4), be16-lt m (p + 4)) in
        ap (λ s. udp_nonzero (not16 (reduce_checksum s)))
          (omega (
            arith,
            data_part m bytes low _ _ len (omega (arith, be16-lt m (p + 4))),
            byte_sum-lt m bytes (payload_length - 8),
            addr_checksum6-at m p,
            words_sum-le m (p + 8) 16,
            load8-lt m (p + 6),
            swap16-load16 m t,
            swap16-load16 m (t + 2),
            swap16-load16 m (t + 4),
            be16-lt m (p + 4),
            be16-lt m t,
            be16-lt m (t + 2),
            be16-lt m (t + 4),
          ))

    tcp6_as_sum :
        20 ≤ payload_length
        → calculate_ipv6_tcp_checksum m (ipv6_at m p) (tcp_at m t) bytes
          ≡ not16 (
              reduce_checksum
                (byte_sum m bytes (payload_length - 20) + pseudo6 + payload_length + tcp_words m t))
    unfolding calculate_ipv6_tcp_checksum ipv6_at
    tcp6_as_sum h =
        let len : sub16 (swap_bytes_uint16 (load16 m (p + 4))) 20 ≡ payload_length - 20 =
          omega (arith, swap16-load16 m (p + 4), be16-lt m (p + 4)) in
        ap (λ s. not16 (reduce_checksum s))
          (omega (
            arith,
            data_part m bytes low _ _ len (omega (arith, be16-lt m (p + 4))),
            byte_sum-lt m bytes (payload_length - 20),
            addr_checksum6-at m p,
            words_sum-le m (p + 8) 16,
            load8-lt m (p + 6),
            tcp_part m t,
            tcp_words-lt m t,
            swap16-load16 m (p + 4),
            be16-lt m (p + 4),
          ))

    icmp6_as_sum :
        8 ≤ payload_length
        → calculate_ipv6_icmp_checksum m (ipv6_at m p) (icmp_at m t) bytes
          ≡ not16 (
              reduce_checksum
                (byte_sum m bytes (payload_length - 8) + pseudo6 + payload_length + icmp_words m t))
    unfolding calculate_ipv6_icmp_checksum ipv6_at icmp_at
    icmp6_as_sum h =
        let len : sub16 (swap_bytes_uint16 (load16 m (p + 4))) 8 ≡ payload_length - 8 =
          omega (arith, swap16-load16 m (p + 4), be16-lt m (p + 4)) in
        ap (λ s. not16 (reduce_checksum s))
          (omega (
            arith,
            data_part m bytes low _ _ len (omega (arith, be16-lt m (p + 4))),
            byte_sum-lt m bytes (payload_length - 8),
            addr_checksum6-at m p,
            words_sum-le m (p + 8) 16,
            load8-lt m (p + 6),
            joined m t,
            swap16-load16 m (p + 4),
            swap16-load16 m (t + 4),
            swap16-load16 m (t + 6),
            be16-lt m (p + 4),
            be16-lt m t,
            be16-lt m (t + 4),
            be16-lt m (t + 6),
          ))

    -- For a payload length of at least 8 and data at a 64-bit address, a receiver accepts the UDP
    -- checksum over IPv6: added to the pseudo header, the other words of the header and the data it
    -- folds to all ones, and it is never zero.
    pub udp6_checksum_accepted :
        8 ≤ payload_length
        → let c = calculate_ipv6_udp_checksum m (ipv6_at m p) (udp_at m t) bytes in
          (reduce_checksum (
              byte_sum m bytes (payload_length - 8)
              + pseudo6
              + be16 m (t + 4)
              + (udp_words m t + c))
            ≡ 0xffff)
          × (0 < c)
    udp6_checksum_accepted h =
        let s = byte_sum m bytes (payload_length - 8) + pseudo6 + be16 m (t + 4) + udp_words m t in
        let c = udp_nonzero (not16 (reduce_checksum s)) in
        let small : s < 2 ^ 31 + 2 ^ 22 = omega (
          arith,
          byte_sum-lt m bytes (payload_length - 8),
          words_sum-le m (p + 8) 16,
          load8-lt m (p + 6),
          be16-lt m (p + 4),
          be16-lt m t,
          be16-lt m (t + 2),
          be16-lt m (t + 4),
        ) in
        let bound : c < 2 ^ 16 = ground arith in
        let whole : byte_sum m bytes (payload_length - 8)
              + pseudo6
              + be16 m (t + 4)
              + (udp_words m t + c)
            ≡ s + c =
          omega arith in
        rw (udp6_as_sum h, whole)
          (reduce_complement_nonzero s (s + c) (omega arith) (omega arith) refl)

    -- For a payload length of at least 20 and data at a 64-bit address, a receiver accepts the TCP
    -- checksum over IPv6: added to the pseudo header, the other words of the header and the data it
    -- folds to all ones.
    pub tcp6_checksum_accepted :
        20 ≤ payload_length
        → let c = calculate_ipv6_tcp_checksum m (ipv6_at m p) (tcp_at m t) bytes in
          reduce_checksum (
            byte_sum m bytes (payload_length - 20) + pseudo6 + payload_length + (tcp_words m t + c))
          ≡ 0xffff
    tcp6_checksum_accepted h =
        let s = byte_sum m bytes (payload_length - 20) + pseudo6 + payload_length + tcp_words m t in
        let small : s < 2 ^ 31 + 2 ^ 22 = omega (
          arith,
          byte_sum-lt m bytes (payload_length - 20),
          words_sum-le m (p + 8) 16,
          load8-lt m (p + 6),
          tcp_words-lt m t,
          be16-lt m (p + 4),
        ) in
        reduce_complement s _ (omega arith) (omega (arith, tcp6_as_sum h))
          (omega (arith, tcp6_as_sum h))

    -- For a payload length of at least 8 and data at a 64-bit address, a receiver accepts the ICMPv6
    -- checksum: added to the pseudo header, the other words of the header and the data it folds to
    -- all ones.
    pub icmp6_checksum_accepted :
        8 ≤ payload_length
        → let c = calculate_ipv6_icmp_checksum m (ipv6_at m p) (icmp_at m t) bytes in
          reduce_checksum (
            byte_sum m bytes (payload_length - 8) + pseudo6 + payload_length + (icmp_words m t + c))
          ≡ 0xffff
    icmp6_checksum_accepted h =
        let s = byte_sum m bytes (payload_length - 8) + pseudo6 + payload_length + icmp_words m t in
        let small : s < 2 ^ 31 + 2 ^ 22 = omega (
          arith,
          byte_sum-lt m bytes (payload_length - 8),
          words_sum-le m (p + 8) 16,
          load8-lt m (p + 6),
          be16-lt m (p + 4),
          be16-lt m t,
          be16-lt m (t + 4),
          be16-lt m (t + 6),
        ) in
        reduce_complement s _ (omega arith) (omega (arith, icmp6_as_sum h))
          (omega (arith, icmp6_as_sum h))
