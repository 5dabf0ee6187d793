-- ===== src/Mem/Order.antt =====
-- The result of Memcmp.
use go_dpdk.Base.{
  ℕ, zero, suc, ◌+◌, ◌-◌, ◌*◌, ◌/◌, ◌%◌, ◌≤◌, ◌<◌, ◌≡◌, ◌↔◌, refl, arith, ltb, if◌then◌else◌,
  dec_lt, ℤ, pos, negsuc,
}
use go_dpdk.Memory.{Memory, load8, load64, load64_bytes, load64_sum, load8-lt}
use go_dpdk.Mem.Compare.{compare_words, compare_bytes, memcmp}

load8-plus : (m : Memory) (a b : ℕ) → load8 m (a + 0) ≡ load8 m (b + 0) → load8 m a ≡ load8 m b
load8-plus m a b e = ground arith

load64_top : (m : Memory) (a b : ℕ) → load8 m (a + 7) < load8 m (b + 7) → load64 m a < load64 m b
load64_top m a b lt = omega (
  arith,
  load64_sum m a,
  load64_sum m b,
  load8-lt m a,
  load8-lt m (a + 1),
  load8-lt m (a + 2),
  load8-lt m (a + 3),
  load8-lt m (a + 4),
  load8-lt m (a + 5),
  load8-lt m (a + 6),
)

load64-eq :
    (m : Memory) (a b : ℕ)
    → ((k : ℕ) → k < 8 → load8 m (a + k) ≡ load8 m (b + k))
    → load64 m a ≡ load64 m b
load64-eq m a b h = omega (
  arith,
  load64_sum m a,
  load64_sum m b,
  load8-plus m a b (h 0 (omega arith)),
  h 1,
  h 2,
  h 3,
  h 4,
  h 5,
  h 6,
  h 7,
)

load8-eq :
    (m : Memory) (a b k : ℕ) → load64 m a ≡ load64 m b → k < 8 → load8 m (a + k) ≡ load8 m (b + k)
load8-eq m a b k e lt = ground (arith, load64_bytes m a, load64_bytes m b)

-- One comparison of either loop, `r` being what the later rounds give.
abbrev verdict : ℕ → ℕ → ℤ → ℤ
verdict d s r = if ltb d s then negsuc 0 else if ltb s d then pos 1 else r

verdict-zero : (d s : ℕ) (r : ℤ) → (verdict d s r ≡ pos 0) ↔ ((d ≡ s) × (r ≡ pos 0))
verdict-zero d s r = (λ e. ground arith, λ p. ground arith)

module _ (m : Memory) (dest src : ℕ) where
  -- The bytes from `lo` up to `hi` agree.
  abbrev IsSameRun : ℕ → ℕ → Type 0
  IsSameRun lo hi = (k : ℕ) → lo ≤ k → k < hi → load8 m (dest + k) ≡ load8 m (src + k)

  compare_bytes-zero :
      (rounds i cnt : ℕ)
      → (compare_bytes rounds i cnt dest src m ≡ pos 0)
        ↔ IsSameRun (8 * cnt + i) (8 * cnt + (i + rounds))
  unfolding compare_bytes
  compare_bytes-zero zero i cnt = (λ e k lo hi. absurd (omega arith), λ h. refl)
  compare_bytes-zero (suc rounds) i cnt =
      let at = 8 * cnt + i in
      let rest = compare_bytes rounds (i + 1) cnt dest src m in
      let ih = compare_bytes-zero rounds (i + 1) cnt in
      let split = verdict-zero (load8 m (dest + at)) (load8 m (src + at)) rest in
      (
        λ e k lo hi. elim (dec_lt at k) [
          | yes above ↦ ih.0 (split.0 e).1 k (omega arith) (omega arith)
          | no here ↦ ground (arith, (split.0 e).0)
        ],
        λ h.
            split.1
              (h at (omega arith) (omega arith), ih.1 (λ k lo hi. h k (omega arith) (omega arith))),
      )

  compare_words-zero :
      (rounds i : ℕ) (rest : ℤ)
      → (compare_words rounds i dest src rest m ≡ pos 0)
        ↔ ((rest ≡ pos 0) × IsSameRun (8 * i) (8 * (i + rounds)))
  unfolding compare_words
  compare_words-zero zero i rest = (λ e. (e, λ k lo hi. absurd (omega arith)), λ h. h.0)
  compare_words-zero (suc rounds) i rest =
      let at = 8 * i in
      let later = compare_words rounds (i + 1) dest src rest m in
      let ih = compare_words-zero rounds (i + 1) rest in
      let split = verdict-zero (load64 m (dest + at)) (load64 m (src + at)) later in
      (
        λ e. (
          (ih.0 (split.0 e).1).0,
          λ k lo hi. elim (dec_lt k (8 * (i + 1))) [
            | yes here ↦ ground (arith, load8-eq m (dest + at) (src + at) (k - at) (split.0 e).0)
            | no above ↦ (ih.0 (split.0 e).1).1 k (omega arith) (omega arith)
          ],
        ),
        λ h. split.1 (
          load64-eq m (dest + at) (src + at) (λ k lt. ground (arith, h.1 (at + k))),
          ih.1 (h.0, λ k lo hi. h.1 k (omega arith) (omega arith)),
        ),
      )

  -- Memcmp gives 0 exactly where the two runs hold the same bytes.
  pub memcmp-zero :
      (n : ℕ)
      → (memcmp dest src n m ≡ pos 0) ↔ ((k : ℕ) → k < n → load8 m (dest + k) ≡ load8 m (src + k))
  unfolding memcmp
  memcmp-zero n =
      let cnt = n / 8 in
      let tail = compare_bytes (n % 8) 0 cnt dest src m in
      let words = compare_words-zero cnt 0 tail in
      let bytes = compare_bytes-zero (n % 8) 0 cnt in
      (
        λ e k lt. elim (dec_lt k (8 * cnt)) [
          | yes early ↦ (words.0 e).1 k (omega arith) (omega arith)
          | no late ↦ bytes.0 (words.0 e).0 k (omega arith) (omega arith)
        ],
        λ h. words.1 (bytes.1 (λ k lo hi. h k (omega arith)), λ k lo hi. h k (omega arith)),
      )

  first_word_last :
      (rounds : ℕ) (rest : ℤ)
      → 0 < rounds
      → load8 m (src + 7) < load8 m (dest + 7)
      → compare_words rounds 0 dest src rest m ≡ pos 1
  unfolding compare_words
  first_word_last zero rest some_round gt = absurd (omega arith)
  first_word_last (suc rounds) rest some_round gt = ground (arith, load64_top m src dest)

  -- The sign of Memcmp is not that of the first byte that differs: where the eighth byte is
  -- greater at `dest` the result is 1, whatever the seven bytes before it are.
  pub memcmp_last_byte :
      (n : ℕ) → 8 ≤ n → load8 m (src + 7) < load8 m (dest + 7) → memcmp dest src n m ≡ pos 1
  unfolding memcmp
  memcmp_last_byte n fits gt =
      first_word_last (n / 8) (compare_bytes (n % 8) 0 (n / 8) dest src m) (omega arith) gt
