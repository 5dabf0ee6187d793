-- ===== src/Memory/Runs.antt =====
-- A sequence of stored runs, and what it leaves of the runs that it does not touch.
use go_dpdk.Memory.Cell.{Memory, load8, load8-lt}
use go_dpdk.Memory.Block.{
  load_bytes, store_bytes, IsBytes, load8-store_bytes_out, load_bytes-store_bytes,
}
use go_dpdk.Base.{
  ℕ, zero, suc, ◌+◌, ◌≤◌, ◌<◌, ◌≡◌, ◌⊎◌, inl, inr, refl, ap, ◌∙◌, arith, List, [], ◌∷◌, length,
}

abbrev pub Stores : Type 0
Stores = List (ℕ × List ℕ)

-- The memory after the runs are stored, the first of the list last.
abbrev pub stores : Memory → Stores → Memory
stores m [] = m
stores m ((a, xs) ∷ ws) = store_bytes (stores m ws) a xs

-- No run of the sequence touches the `n` bytes at `b`.
abbrev pub IsApart : (b n : ℕ) → Stores → Type 0
IsApart b n [] = Unit
IsApart b n ((a, xs) ∷ ws) = ((b + n ≤ a) ⊎ (a + length xs ≤ b)) × IsApart b n ws

IsApart-within : (b n c : ℕ) (ws : Stores) → b ≤ c → c < b + n → IsApart b n ws → IsApart c 1 ws
IsApart-within b n c [] lo hi h = tt
IsApart-within b n c ((a, xs) ∷ ws) lo hi (inl e, h) =
    (inl (omega arith), IsApart-within b n c ws lo hi h)
IsApart-within b n c ((a, xs) ∷ ws) lo hi (inr e, h) =
    (inr (omega arith), IsApart-within b n c ws lo hi h)

module _ (m : Memory) where
  pub load8-stores : (b : ℕ) (ws : Stores) → IsApart b 1 ws → load8 (stores m ws) b ≡ load8 m b
  load8-stores b [] h = refl
  load8-stores b ((a, xs) ∷ ws) (inl e, h) =
      load8-store_bytes_out (stores m ws) a b xs (inl (omega arith)) ∙ load8-stores b ws h
  load8-stores b ((a, xs) ∷ ws) (inr e, h) =
      load8-store_bytes_out (stores m ws) a b xs (inr e) ∙ load8-stores b ws h

  pub load8-stores_within :
      (b n c : ℕ) (ws : Stores)
      → IsApart b n ws
      → b ≤ c
      → c < b + n
      → load8 (stores m ws) c ≡ load8 m c
  load8-stores_within b n c ws h lo hi = load8-stores c ws (IsApart-within b n c ws lo hi h)

-- Memories that agree on a run read the same bytes there.
pub load_bytes-same :
    (m m' : Memory) (a n : ℕ)
    → ((b : ℕ) → a ≤ b → b < a + n → load8 m' b ≡ load8 m b)
    → load_bytes m' a n ≡ load_bytes m a n
unfolding load_bytes
load_bytes-same m m' a zero h = refl
load_bytes-same m m' a (suc n) h = rw (h a (omega arith) (omega arith)) (
    ap (λ t. load8 m a ∷ t)
      (load_bytes-same m m' (a + 1) n (λ b lo hi. h b (omega arith) (omega arith))))

pub load_bytes-stores :
    (m : Memory) (b n : ℕ) (ws : Stores)
    → IsApart b n ws
    → load_bytes (stores m ws) b n ≡ load_bytes m b n
load_bytes-stores m b n ws h =
    load_bytes-same m (stores m ws) b n (λ c lo hi. load8-stores_within m b n c ws h lo hi)

-- The run just stored.
pub stored_run :
    (m : Memory) (a n : ℕ) (xs : List ℕ)
    → IsBytes xs
    → length xs ≡ n
    → load_bytes (store_bytes m a xs) a n ≡ xs
stored_run m a n xs h e = rw (← e) (load_bytes-store_bytes m a xs h)

pub load_bytes-IsBytes : (m : Memory) (a n : ℕ) → IsBytes (load_bytes m a n)
unfolding load_bytes
load_bytes-IsBytes m a zero = tt
load_bytes-IsBytes m a (suc n) = (load8-lt m a, load_bytes-IsBytes m (a + 1) n)
