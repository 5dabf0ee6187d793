-- ===== src/Packet/Checksum/Ipv4.antt =====
-- `CalculateIPv4Checksum` at a header in memory.
use mathlib.Core.Path.{ap₂}
use go_dpdk.Base.{ℕ, ◌+◌, ◌^◌, ◌<◌, ◌≡◌, inl, inr, refl, ap, ◌∙◌, arith, not16}
use go_dpdk.Memory.{Memory, store16}
use go_dpdk.Packet.Swap.{
  be16, swap_bytes_uint16, swap16-load16, swap16_halves, be16-lt, be16_lem, be16-store16,
  be16-store16_ne,
}
use go_dpdk.Packet.Header.{ipv4_at}
use go_dpdk.Packet.Checksum.{reduce_checksum, calculate_ipv4_checksum, calculate_ipv4_addr_checksum}
use go_dpdk.Packet.Checksum.Reduce.{reduce_complement}
use go_dpdk.Packet.Checksum.Words.{words_sum}

-- The header without its checksum field: the sum of the ten words less the sixth.
abbrev pub header_sum : Memory → ℕ → ℕ
header_sum m p =
    be16 m p
    + be16 m (p + 2)
    + be16 m (p + 4)
    + be16 m (p + 6)
    + be16 m (p + 8)
    + be16 m (p + 12)
    + be16 m (p + 14)
    + be16 m (p + 16)
    + be16 m (p + 18)

pub addr_checksum-at :
    (m : Memory) (p : ℕ)
    → calculate_ipv4_addr_checksum (ipv4_at m p)
      ≡ be16 m (p + 12) + be16 m (p + 14) + be16 m (p + 16) + be16 m (p + 18)
unfolding calculate_ipv4_addr_checksum ipv4_at
addr_checksum-at m p = omega (
  arith,
  swap16_halves m (p + 12) (p + 14) (omega arith),
  swap16_halves m (p + 16) (p + 18) (omega arith),
  be16-lt m (p + 12),
  be16-lt m (p + 14),
  be16-lt m (p + 16),
  be16-lt m (p + 18),
)

calculate_ipv4_checksum-at :
    (m : Memory) (p : ℕ)
    → calculate_ipv4_checksum (ipv4_at m p) ≡ not16 (reduce_checksum (header_sum m p))
unfolding calculate_ipv4_checksum ipv4_at
calculate_ipv4_checksum-at m p =
    ap (λ t. not16 (reduce_checksum t))
      (omega (
        arith,
        be16_lem m p (p + 1) refl,
        be16_lem m (p + 8) (p + 9) (omega arith),
        swap16_halves m (p + 12) (p + 14) (omega arith),
        swap16_halves m (p + 16) (p + 18) (omega arith),
        swap16-load16 m (p + 2),
        swap16-load16 m (p + 4),
        swap16-load16 m (p + 6),
        be16-lt m p,
        be16-lt m (p + 2),
        be16-lt m (p + 4),
        be16-lt m (p + 6),
        be16-lt m (p + 8),
        be16-lt m (p + 12),
        be16-lt m (p + 14),
        be16-lt m (p + 16),
        be16-lt m (p + 18),
      ))

header_sum-lt : (m : Memory) (p : ℕ) → header_sum m p < 2 ^ 20
header_sum-lt m p = omega (
  arith,
  be16-lt m p,
  be16-lt m (p + 2),
  be16-lt m (p + 4),
  be16-lt m (p + 6),
  be16-lt m (p + 8),
  be16-lt m (p + 12),
  be16-lt m (p + 14),
  be16-lt m (p + 16),
  be16-lt m (p + 18),
)

-- The memory after `hdr.HdrChecksum = SwapBytesUint16(CalculateIPv4Checksum(hdr))`.
abbrev pub with_checksum : Memory → ℕ → Memory
with_checksum m p = store16 m (p + 10) (swap_bytes_uint16 (calculate_ipv4_checksum (ipv4_at m p)))

words_sum_ten : (m : Memory) (p : ℕ) → words_sum m p 10 ≡ header_sum m p + be16 m (p + 10)
words_sum_ten m p = omega (arith, ap (be16 m) (start p))
  where
    start : (p : ℕ) → p + 0 ≡ p
    start p = omega arith

header_sum-store16 : (m : Memory) (p v : ℕ) → header_sum (store16 m (p + 10) v) p ≡ header_sum m p
header_sum-store16 m p v = omega (
  arith,
  be16-store16_ne m (p + 10) v p (inl (omega arith)),
  be16-store16_ne m (p + 10) v (p + 2) (inl (omega arith)),
  be16-store16_ne m (p + 10) v (p + 4) (inl (omega arith)),
  be16-store16_ne m (p + 10) v (p + 6) (inl (omega arith)),
  be16-store16_ne m (p + 10) v (p + 8) (inl (omega arith)),
  be16-store16_ne m (p + 10) v (p + 12) (inr (omega arith)),
  be16-store16_ne m (p + 10) v (p + 14) (inr (omega arith)),
  be16-store16_ne m (p + 10) v (p + 16) (inr (omega arith)),
  be16-store16_ne m (p + 10) v (p + 18) (inr (omega arith)),
)

with_checksum_total :
    (m : Memory) (p : ℕ)
    → words_sum (with_checksum m p) p 10 ≡ header_sum m p + not16 (reduce_checksum (header_sum m p))
with_checksum_total m p =
    let sum = calculate_ipv4_checksum (ipv4_at m p) in
    let value : sum ≡ not16 (reduce_checksum (header_sum m p)) = calculate_ipv4_checksum-at m p in
    words_sum_ten (with_checksum m p) p
    ∙ ap₂ ◌+◌ (header_sum-store16 m p (swap_bytes_uint16 sum))
        (be16-store16 m (p + 10) sum (omega (arith, value)) ∙ value)

-- A receiver accepts a header without options: once the checksum is stored in its field, the ten
-- words of the header fold to all ones.
pub ipv4_checksum_accepted :
    (m : Memory) (p : ℕ) → reduce_checksum (words_sum (with_checksum m p) p 10) ≡ 0xffff
ipv4_checksum_accepted m p =
    reduce_complement (header_sum m p) _ (omega (arith, header_sum-lt m p))
      (omega (arith, with_checksum_total m p, header_sum-lt m p)) (with_checksum_total m p)
