-- ===== src/Packet/Checksum/Reduce.antt =====
-- Folding keeps the sum modulo 65535: one's complement arithmetic.
use mathlib.Core.WellFounded.{Acc}
use mathlib.Core.Logic.{dif_pos, dif_neg}
use native.Mathlib.Bridge.{le_prop}
use go_dpdk.Base.{ℕ, ◌+◌, ◌%◌, ◌^◌, ◌<◌, ◌≡◌, ◌⊎◌, arith, not16, lt_wf, dec_lt}
use go_dpdk.Bits.{bit_and_low}
use go_dpdk.Packet.Checksum.{reduce_acc, reduce_checksum, fold_once, fold_once-lt, udp_nonzero}

-- What folding promises of a sum `s` and its result `r`.
pub record IsFolded (s r : ℕ) : Type 0 where
  pub fits : r < 2 ^ 16
  pub same : r % 65535 ≡ s % 65535
  pub zero_iff : ((s ≡ 0) × (r ≡ 0)) ⊎ ((0 < s) × (0 < r))

fold_once-IsFolded :
    (s : ℕ) → s < 2 ^ 32 → 0xffff < s → {r : ℕ} → IsFolded (fold_once s) r → IsFolded s r
fold_once-IsFolded s h big f = omega (arith, bit_and_low 16 s)

reduce_acc-IsFolded : (s : ℕ) (w : Acc ◌<◌ s) → s < 2 ^ 32 → IsFolded s (reduce_acc s w)
unfolding reduce_acc
reduce_acc-IsFolded s (Acc.intro _ smaller) h = elim (dec_lt 0xffff s) [
  | yes big ↦ rw (dif_pos _ le_prop big) (
      fold_once-IsFolded s h big (
        reduce_acc-IsFolded (fold_once s) (smaller (fold_once s) (fold_once-lt s big))
          (omega arith)))
  | no small ↦ rw (dif_neg _ small) (omega arith)
]

-- For every uint32 the loop ends with a value of 16 bits that is congruent to the sum modulo
-- 65535, and is zero only for the zero sum.
pub reduce_checksum-IsFolded : (s : ℕ) → s < 2 ^ 32 → IsFolded s (reduce_checksum s)
unfolding reduce_checksum
reduce_checksum-IsFolded s h = reduce_acc-IsFolded s (lt_wf.apply s) h

-- Adding the complement of a folded sum makes the sum fold to all ones.
pub reduce_complement :
    (s t : ℕ)
    → s < 2 ^ 32
    → t < 2 ^ 32
    → t ≡ s + not16 (reduce_checksum s)
    → reduce_checksum t ≡ 0xffff
reduce_complement s t hs ht e =
    omega (arith, reduce_checksum-IsFolded s hs, reduce_checksum-IsFolded t ht)

-- The same with a zero complement replaced by all ones, as UDP wants it.
pub reduce_complement_nonzero :
    (s t : ℕ)
    → s < 2 ^ 32
    → t < 2 ^ 32
    → t ≡ s + udp_nonzero (not16 (reduce_checksum s))
    → (reduce_checksum t ≡ 0xffff) × (0 < udp_nonzero (not16 (reduce_checksum s)))
reduce_complement_nonzero s t hs ht e =
    ground (arith, reduce_checksum-IsFolded s hs, reduce_checksum-IsFolded t ht)
