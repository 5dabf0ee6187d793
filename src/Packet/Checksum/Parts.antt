-- ===== src/Packet/Checksum/Parts.antt =====
-- The parts that the transport checksums have in common, as sums of big-endian words.
use go_dpdk.Base.{ℕ, ◌+◌, ◌*◌, ◌^◌, ◌<◌, ◌≡◌, refl, ap, sym, ◌∙◌, arith, u16, bit_or, ◌<<<◌}
use go_dpdk.Bits.{bit_or-eq-add}
use go_dpdk.Memory.{Memory, load8, load8-lt}
use go_dpdk.Packet.Swap.{be16, swap16-load16, swap16_halves, be16-lt, be16_lem}
use go_dpdk.Packet.Header.{tcp_at}
use go_dpdk.Packet.Checksum.{calculate_data_checksum, calculate_tcp_checksum}
use go_dpdk.Packet.Checksum.Words.{byte_sum, calculate_data_checksum-eq-byte_sum}

-- The words of a UDP header without its checksum.
abbrev pub udp_words : Memory → (t : ℕ) → ℕ
udp_words m t = be16 m t + be16 m (t + 2) + be16 m (t + 4)

-- The words of a TCP header without its checksum.
abbrev pub tcp_words : Memory → (t : ℕ) → ℕ
tcp_words m t =
    be16 m t
    + be16 m (t + 2)
    + be16 m (t + 4)
    + be16 m (t + 6)
    + be16 m (t + 8)
    + be16 m (t + 10)
    + be16 m (t + 12)
    + be16 m (t + 14)
    + be16 m (t + 18)

-- The words of an ICMP header without its checksum.
abbrev pub icmp_words : Memory → (t : ℕ) → ℕ
icmp_words m t = be16 m t + be16 m (t + 4) + be16 m (t + 6)

module _ (m : Memory) where
  pub data_part :
      (bytes : ℕ)
      → bytes < 2 ^ 64
      → (n k : ℕ) → n ≡ k
      → k < 2 ^ 16
      → calculate_data_checksum m bytes n 0 ≡ byte_sum m bytes k
  data_part bytes low n k e h = rw e (calculate_data_checksum-eq-byte_sum m bytes k low h)

  module _ (t : ℕ) where
    pub tcp_part : calculate_tcp_checksum (tcp_at m t) ≡ tcp_words m t
    unfolding calculate_tcp_checksum tcp_at
    tcp_part = omega (
      arith,
      swap16-load16 m t,
      swap16-load16 m (t + 2),
      swap16_halves m (t + 4) (t + 6) (omega arith),
      swap16_halves m (t + 8) (t + 10) (omega arith),
      swap16-load16 m (t + 14),
      swap16-load16 m (t + 18),
      be16_lem m (t + 12) (t + 13) (omega arith),
      be16-lt m t,
      be16-lt m (t + 2),
      be16-lt m (t + 4),
      be16-lt m (t + 6),
      be16-lt m (t + 8),
      be16-lt m (t + 10),
      be16-lt m (t + 12),
      be16-lt m (t + 14),
      be16-lt m (t + 18),
    )

    pub tcp_words-lt : tcp_words m t < 2 ^ 20
    tcp_words-lt = omega (
      arith,
      be16-lt m t,
      be16-lt m (t + 2),
      be16-lt m (t + 4),
      be16-lt m (t + 6),
      be16-lt m (t + 8),
      be16-lt m (t + 10),
      be16-lt m (t + 12),
      be16-lt m (t + 14),
      be16-lt m (t + 18),
    )

    pub joined : bit_or (u16 (load8 m t <<< 8)) (load8 m (t + 1)) ≡ be16 m t
    joined =
        ap (λ a. bit_or a (load8 m (t + 1))) {y = load8 m t * 2 ^ 8} (omega (arith, load8-lt m t))
        ∙ bit_or-eq-add 8 (load8 m t) (load8 m (t + 1)) (load8-lt m (t + 1))
        ∙ sym (be16_lem m t (t + 1) refl)
