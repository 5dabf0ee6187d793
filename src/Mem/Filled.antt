-- ===== src/Mem/Filled.antt =====
-- Memset writes its character to the whole run and nowhere else.
use go_dpdk.Base.{
  ℕ, zero, suc, ◌+◌, ◌-◌, ◌*◌, ◌/◌, ◌%◌, ◌≤◌, ◌≡◌, arith, ltb, leb, if◌then◌else◌, ◌&&◌, u8,
}
use go_dpdk.Memory.{Memory, load8, store8, load64, store64, load8-store8}
use go_dpdk.Mem.Chunk.{IsChunk, store64-IsChunk}
use go_dpdk.Mem.Fill.{fill_bytes, fill_words, memset}

module _ (m : Memory) (dest ch : ℕ) where
  -- Byte `b` once `n` bytes at `dest` are set.
  abbrev filled : ℕ → ℕ → ℕ
  filled n b = if leb dest b && ltb b (dest + n) then u8 ch else load8 m b

  abbrev IsFilled : Memory → ℕ → Type 0
  IsFilled m' n = (b : ℕ) → load8 m' b ≡ filled n b

  IsFilled-to : (m' : Memory) (n n' : ℕ) → n ≡ n' → IsFilled m' n → IsFilled m' n'
  IsFilled-to m' n n' e h b = ground (arith, h b)

  fill_bytes_lem :
      (rounds i : ℕ) (m' : Memory)
      → IsFilled m' i
      → IsFilled (fill_bytes rounds i dest ch m') (i + rounds)
  unfolding fill_bytes
  fill_bytes_lem zero i m' h = IsFilled-to m' i (i + 0) (omega arith) h
  fill_bytes_lem (suc rounds) i m' h =
      IsFilled-to (fill_bytes rounds (i + 1) dest ch (store8 m' (dest + i) ch)) (i + 1 + rounds)
        (i + suc rounds) (omega arith)
        (fill_bytes_lem rounds (i + 1) (store8 m' (dest + i) ch)
          (λ b. ground (arith, h b, load8-store8 m' (dest + i) b ch)))

  IsFilled-up :
      (m' m'' : Memory) (n : ℕ)
      → 8 ≤ n
      → IsFilled m' n
      → IsChunk m' m'' (dest + n) dest 8
      → IsFilled m'' (n + 8)
  IsFilled-up m' m'' n fits h chunk b =
      ground
        (arith, h b, h (dest + (b - (dest + n))), chunk.inside (b - (dest + n)), chunk.outside b)

  fill_words_lem :
      (rounds i left : ℕ) (m' : Memory)
      → 8 ≤ left
      → IsFilled m' (left + 8 * i)
      → IsFilled (fill_words rounds i left dest m') (left + 8 * (i + rounds))
  unfolding fill_words
  fill_words_lem zero i left m' fits h =
      IsFilled-to m' (left + 8 * i) (left + 8 * (i + 0)) (omega arith) h
  fill_words_lem (suc rounds) i left m' fits h =
      let at = left + 8 * i in
      let next = store64 m' (dest + at) (load64 m' dest) in
      IsFilled-to (fill_words rounds (i + 1) left dest next) (left + 8 * (i + 1 + rounds))
        (left + 8 * (i + suc rounds)) (omega arith)
        (fill_words_lem rounds (i + 1) left next fits (
          IsFilled-to next (at + 8) (left + 8 * (i + 1)) (omega arith)
            (IsFilled-up m' next at (omega arith) h (store64-IsChunk m' (dest + at) dest))))

  -- After Memset the `n` bytes at `dest` hold the character, and every other byte is as before.
  pub memset_lem :
      (n b : ℕ)
      → load8 (memset dest ch n m).1 b
        ≡ (if leb dest b && ltb b (dest + n) then u8 ch else load8 m b)
  unfolding memset
  memset_lem n b =
      let start : IsFilled m 0 = λ b'. ground arith in
      let short = fill_bytes_lem (n % 8) 0 m start in
      let long = fill_bytes_lem (n % 8 + 8) 0 m start in
      ground (
        arith,
        short b,
        long b,
        fill_words_lem (n / 8 - 1) 0 (n % 8 + 8) (fill_bytes (n % 8 + 8) 0 dest ch m) (omega arith)
            (IsFilled-to (fill_bytes (n % 8 + 8) 0 dest ch m) (0 + (n % 8 + 8)) (n % 8 + 8 + 8 * 0)
              (omega arith) long)
            b,
      )
