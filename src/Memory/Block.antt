-- ===== src/Memory/Block.antt =====
-- Runs of bytes: what a slice over raw memory reads, and what `copy` writes.
use go_dpdk.Memory.Cell.{Memory, load8, store8, load8-store8}
use go_dpdk.Base.{ℕ, zero, suc, ◌+◌, ◌≤◌, ◌<◌, ◌≡◌, ◌⊎◌, refl, ap, arith, List, [], ◌∷◌, length}

unfoldable pub load_bytes : Memory → ℕ → ℕ → List ℕ
load_bytes m a zero = []
load_bytes m a (suc n) = load8 m a ∷ load_bytes m (a + 1) n

unfoldable pub store_bytes : Memory → ℕ → List ℕ → Memory
store_bytes m a [] = m
store_bytes m a (x ∷ xs) = store_bytes (store8 m a x) (a + 1) xs

abbrev pub IsBytes : List ℕ → Type 0
IsBytes [] = Unit
IsBytes (x ∷ xs) = (x < 256) × IsBytes xs

pub length-load_bytes : (m : Memory) (a n : ℕ) → length (load_bytes m a n) ≡ n
unfolding load_bytes
length-load_bytes m a zero = refl
length-load_bytes m a (suc n) = ap suc (length-load_bytes m (a + 1) n)

-- Bytes outside the run stay.
pub load8-store_bytes_out :
    (m : Memory) (a b : ℕ) (xs : List ℕ)
    → (b < a) ⊎ (a + length xs ≤ b)
    → load8 (store_bytes m a xs) b ≡ load8 m b
unfolding store_bytes
load8-store_bytes_out m a b [] h = refl
load8-store_bytes_out m a b (x ∷ xs) h =
    ground (arith, load8-store_bytes_out (store8 m a x) (a + 1) b xs, load8-store8 m a b x)

pub load_bytes-store_bytes :
    (m : Memory) (a : ℕ) (xs : List ℕ)
    → IsBytes xs
    → load_bytes (store_bytes m a xs) a (length xs) ≡ xs
unfolding store_bytes load_bytes
load_bytes-store_bytes m a [] h = refl
load_bytes-store_bytes m a (x ∷ xs) h = ground (
  arith,
  load8-store_bytes_out (store8 m a x) (a + 1) a xs,
  load8-store8 m a a x,
  load_bytes-store_bytes (store8 m a x) (a + 1) xs,
)
