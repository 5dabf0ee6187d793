-- ===== src/Mem/Chunk.antt =====
-- One store that copies a chunk, and memory of which a run has been copied.
use go_dpdk.Base.{ℕ, ◌+◌, ◌-◌, ◌≤◌, ◌<◌, ◌≡◌, ◌⊎◌, arith, ltb, leb, if◌then◌else◌, ◌&&◌}
use go_dpdk.Memory.{
  Memory, load8, store8, load64, store64, load8-lt, load8-store8, load8-store64_out,
  load8-store64-load64,
}

-- `m'` is `m` with the `w` bytes at `s` copied to `d`.
pub record IsChunk (m m' : Memory) (d s w : ℕ) : Type 0 where
  pub inside : (k : ℕ) → k < w → load8 m' (d + k) ≡ load8 m (s + k)
  pub outside : (b : ℕ) → (b < d) ⊎ (d + w ≤ b) → load8 m' b ≡ load8 m b

pub store64-IsChunk : (m : Memory) (d s : ℕ) → IsChunk m (store64 m d (load64 m s)) d s 8
store64-IsChunk m d s = record {
  inside = λ k. load8-store64-load64 m m d s k;
  outside = λ b. load8-store64_out m d b (load64 m s);
}

pub store8-IsChunk : (m : Memory) (d s : ℕ) → IsChunk m (store8 m d (load8 m s)) d s 1
store8-IsChunk m d s = record {
  inside = λ k lt. ground (arith, load8-store8 m d (d + k) (load8 m s), load8-lt m s);
  outside = λ b h. ground (arith, load8-store8 m d b (load8 m s));
}

-- Byte `b` once the bytes `lo` to `hi` of the run at `src` are copied to `dest`.
abbrev pub copied : Memory → ℕ → ℕ → ℕ → ℕ → ℕ → ℕ
copied m dest src lo hi b =
    if leb (dest + lo) b && ltb b (dest + hi) then load8 m (src + (b - dest)) else load8 m b

abbrev pub IsCopied : Memory → Memory → ℕ → ℕ → ℕ → ℕ → Type 0
IsCopied m m' dest src lo hi = (b : ℕ) → load8 m' b ≡ copied m dest src lo hi b

module _ (m m' m'' : Memory) (dest src lo hi w : ℕ) where
  -- A chunk next above the run, read where nothing was written.
  pub IsCopied-up :
      IsCopied m m' dest src lo hi
      → lo ≤ hi
      → (dest ≤ src) ⊎ (src + hi + w ≤ dest)
      → IsChunk m' m'' (dest + hi) (src + hi) w
      → IsCopied m m'' dest src lo (hi + w)
  IsCopied-up h le free chunk b = ground (
    arith,
    h b,
    h (src + hi + (b - (dest + hi))),
    chunk.inside (b - (dest + hi)),
    chunk.outside b,
  )

  -- A chunk next below the run.
  pub IsCopied-down :
      IsCopied m m' dest src (lo + w) hi
      → lo + w ≤ hi
      → src ≤ dest
      → IsChunk m' m'' (dest + lo) (src + lo) w
      → IsCopied m m'' dest src lo hi
  IsCopied-down h le below chunk b = ground (
    arith,
    h b,
    h (src + lo + (b - (dest + lo))),
    chunk.inside (b - (dest + lo)),
    chunk.outside b,
  )
