-- ===== src/Mem/Move.antt =====
-- The copying loops, forwards and backwards, and the three routines on top of them.
use go_dpdk.Base.{
  ℕ, zero, suc, ◌+◌, ◌-◌, ◌*◌, ◌/◌, ◌%◌, ◌≤◌, ◌≡◌, ◌⊎◌, refl, arith, ltb, leb, if◌then◌else◌, ◌&&◌,
}
use go_dpdk.Memory.{Memory, load8, store8, load64, store64}
use go_dpdk.Mem.Chunk.{IsCopied, IsCopied-up, IsCopied-down, store64-IsChunk, store8-IsChunk}
use go_dpdk.Mem.Copy.{
  copy_words, copy_bytes, memcpy, copy_words_down, copy_bytes_down, memcpy_h, memmove,
}

module _ (m : Memory) (dest src : ℕ) where
  IsCopied-to :
      (m' : Memory) (lo hi lo' hi' : ℕ)
      → lo ≡ lo'
      → hi ≡ hi'
      → IsCopied m m' dest src lo hi
      → IsCopied m m' dest src lo' hi'
  IsCopied-to m' lo hi lo' hi' p q h b = ground (arith, h b)

  IsCopied-none : (n : ℕ) → IsCopied m m dest src n n
  IsCopied-none n b = ground arith

  copy_words_lem :
      (rounds i : ℕ) (m' : Memory)
      → (dest ≤ src) ⊎ (src + 8 * (i + rounds) ≤ dest)
      → IsCopied m m' dest src 0 (8 * i)
      → IsCopied m (copy_words rounds i dest src m') dest src 0 (8 * (i + rounds))
  unfolding copy_words
  copy_words_lem zero i m' free h = IsCopied-to m' 0 (8 * i) 0 (8 * (i + 0)) refl (omega arith) h
  copy_words_lem (suc rounds) i m' free h =
      let next = store64 m' (dest + 8 * i) (load64 m' (src + 8 * i)) in
      IsCopied-to (copy_words rounds (i + 1) dest src next) 0 (8 * (i + 1 + rounds)) 0
        (8 * (i + suc rounds)) refl (omega arith)
        (copy_words_lem rounds (i + 1) next (omega arith) (
          IsCopied-to next 0 (8 * i + 8) 0 (8 * (i + 1)) refl (omega arith) (
            IsCopied-up m m' next dest src 0 (8 * i) 8 h (omega arith) (omega arith)
              (store64-IsChunk m' (dest + 8 * i) (src + 8 * i)))))

  copy_bytes_lem :
      (rounds i cnt : ℕ) (m' : Memory)
      → (dest ≤ src) ⊎ (src + (8 * cnt + (i + rounds)) ≤ dest)
      → IsCopied m m' dest src 0 (8 * cnt + i)
      → IsCopied m (copy_bytes rounds i cnt dest src m') dest src 0 (8 * cnt + (i + rounds))
  unfolding copy_bytes
  copy_bytes_lem zero i cnt m' free h =
      IsCopied-to m' 0 (8 * cnt + i) 0 (8 * cnt + (i + 0)) refl (omega arith) h
  copy_bytes_lem (suc rounds) i cnt m' free h =
      let at = 8 * cnt + i in
      let next = store8 m' (dest + at) (load8 m' (src + at)) in
      IsCopied-to (copy_bytes rounds (i + 1) cnt dest src next) 0 (8 * cnt + (i + 1 + rounds)) 0
        (8 * cnt + (i + suc rounds)) refl (omega arith)
        (copy_bytes_lem rounds (i + 1) cnt next (omega arith) (
          IsCopied-to next 0 (at + 1) 0 (8 * cnt + (i + 1)) refl (omega arith) (
            IsCopied-up m m' next dest src 0 at 1 h (omega arith) (omega arith)
              (store8-IsChunk m' (dest + at) (src + at)))))

  copy_words_down_lem :
      (rounds i n : ℕ) (m' : Memory)
      → src ≤ dest
      → 8 * (i + rounds) ≤ n
      → IsCopied m m' dest src (n - 8 * i) n
      → IsCopied m (copy_words_down rounds (i + 1) n dest src m') dest src (n - 8 * (i + rounds)) n
  unfolding copy_words_down
  copy_words_down_lem zero i n m' below fits h =
      IsCopied-to m' (n - 8 * i) n (n - 8 * (i + 0)) n (omega arith) refl h
  copy_words_down_lem (suc rounds) i n m' below fits h =
      let at = n - 8 * (i + 1) in
      let next = store64 m' (dest + at) (load64 m' (src + at)) in
      IsCopied-to (copy_words_down rounds (i + 1 + 1) n dest src next) (n - 8 * (i + 1 + rounds)) n
        (n - 8 * (i + suc rounds)) n (omega arith) refl
        (copy_words_down_lem rounds (i + 1) n next below (omega arith) (
          IsCopied-down m m' next dest src at n 8
            (IsCopied-to m' (n - 8 * i) n (at + 8) n (omega arith) refl h) (omega arith) below
            (store64-IsChunk m' (dest + at) (src + at))))

  copy_bytes_down_lem :
      (rounds i cnt n : ℕ) (m' : Memory)
      → src ≤ dest
      → 8 * cnt + (i + rounds) ≤ n
      → IsCopied m m' dest src (n - 8 * cnt - i) n
      → IsCopied m
          (copy_bytes_down rounds (i + 1) cnt n dest src m')
          dest
          src
          (n - 8 * cnt - (i + rounds))
          n
  unfolding copy_bytes_down
  copy_bytes_down_lem zero i cnt n m' below fits h =
      IsCopied-to m' (n - 8 * cnt - i) n (n - 8 * cnt - (i + 0)) n (omega arith) refl h
  copy_bytes_down_lem (suc rounds) i cnt n m' below fits h =
      let at = n - 8 * cnt - (i + 1) in
      let next = store8 m' (dest + at) (load8 m' (src + at)) in
      IsCopied-to (copy_bytes_down rounds (i + 1 + 1) cnt n dest src next)
        (n - 8 * cnt - (i + 1 + rounds)) n (n - 8 * cnt - (i + suc rounds)) n (omega arith) refl
        (copy_bytes_down_lem rounds (i + 1) cnt n next below (omega arith) (
          IsCopied-down m m' next dest src at n 1
            (IsCopied-to m' (n - 8 * cnt - i) n (at + 1) n (omega arith) refl h) (omega arith) below
            (store8-IsChunk m' (dest + at) (src + at))))

  -- Memcpy copies the run where the source is not overwritten before it is read.
  pub memcpy_lem :
      (n : ℕ) → (dest ≤ src) ⊎ (src + n ≤ dest) → IsCopied m (memcpy dest src n m).1 dest src 0 n
  unfolding memcpy
  memcpy_lem n free =
      let cnt = n / 8 in
      let words = copy_words cnt 0 dest src m in
      IsCopied-to (copy_bytes (n % 8) 0 cnt dest src words) 0 (8 * cnt + (0 + n % 8)) 0 n refl
        (omega arith)
        (copy_bytes_lem (n % 8) 0 cnt words (omega arith) (
          IsCopied-to words 0 (8 * (0 + cnt)) 0 (8 * cnt + 0) refl (omega arith)
            (copy_words_lem cnt 0 m (omega arith) (IsCopied-none 0))))

  memcpy_h_lem : (n : ℕ) → src ≤ dest → IsCopied m (memcpy_h dest src n m).1 dest src 0 n
  unfolding memcpy_h
  memcpy_h_lem n below =
      let cnt = n / 8 in
      let words = copy_words_down cnt (0 + 1) n dest src m in
      IsCopied-to (copy_bytes_down (n % 8) (0 + 1) cnt n dest src words) (n - 8 * cnt - (0 + n % 8))
        n 0 n (omega arith) refl
        (copy_bytes_down_lem (n % 8) 0 cnt n words below (omega arith) (
          IsCopied-to words (n - 8 * (0 + cnt)) n (n - 8 * cnt - 0) n (omega arith) refl (
            copy_words_down_lem cnt 0 n m below (omega arith)
              (IsCopied-to m n n (n - 8 * 0) n (omega arith) refl (IsCopied-none n)))))

  -- Memmove copies the `n` bytes at `src` to `dest`, however the two runs lie to one another, and
  -- changes no other byte.
  pub memmove_lem :
      (n b : ℕ)
      → load8 (memmove dest src n m).1 b
        ≡ (if leb dest b && ltb b (dest + n) then load8 m (src + (b - dest)) else load8 m b)
  unfolding memmove
  memmove_lem n b = ground (
    arith,
    λ (h : src ≤ dest). memcpy_h_lem n h b,
    λ (h : (dest ≤ src) ⊎ (src + n ≤ dest)). memcpy_lem n h b,
  )
