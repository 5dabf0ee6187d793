-- ===== src/Memory/Wide.antt =====
-- A uint64 field: low byte first.
use go_dpdk.Memory.Cell.{Memory, load8, load16, store16, load32, store32, load8-lt, load8-store16}
use go_dpdk.Base.{
  ℕ, ◌+◌, ◌*◌, ◌/◌, ◌^◌, ◌≤◌, ◌<◌, ◌≡◌, ◌⊎◌, ap, arith, u8, ◌==◌, if◌then◌else◌, ◌>>>◌,
}

unfoldable pub load64 : Memory → ℕ → ℕ
load64 m a = load32 m a + load32 m (a + 4) * 2 ^ 32

unfoldable pub store64 : Memory → ℕ → ℕ → Memory
store64 m a v = store32 (store32 m a v) (a + 4) (v >>> 32)

-- Byte `k` of a number.
abbrev byte_of : ℕ → (k : ℕ) → ℕ
byte_of v k = u8 (v / 256 ^ k)

load8-store32 :
    (m : Memory) (a b v : ℕ)
    → load8 (store32 m a v) b ≡ (
        if b == a + 3
        then byte_of v 3
        else if b == a + 2
        then byte_of v 2
        else if b == a + 1
        then byte_of v 1
        else if b == a
        then byte_of v 0
        else load8 m b)
unfolding store32
load8-store32 m a b v =
    ground (arith, load8-store16 (store16 m a v) (a + 2) b (v >>> 16), load8-store16 m a b v)

pub load8-store64_out :
    (m : Memory) (a b v : ℕ) → (b < a) ⊎ (a + 8 ≤ b) → load8 (store64 m a v) b ≡ load8 m b
unfolding store64
load8-store64_out m a b v h =
    ground (arith, h, load8-store32 (store32 m a v) (a + 4) b (v >>> 32), load8-store32 m a b v)

same_cell : (m : Memory) (a b : ℕ) → a ≡ b → load8 m a ≡ load8 m b
same_cell m a b e = ap (load8 m) e

module _ (m : Memory) (a : ℕ) where
  load32_bytes :
      (byte_of (load32 m a) 0 ≡ load8 m a)
      × (byte_of (load32 m a) 1 ≡ load8 m (a + 1))
      × (byte_of (load32 m a) 2 ≡ load8 m (a + 2))
      × (byte_of (load32 m a) 3 ≡ load8 m (a + 3))
      × (load32 m a < 2 ^ 32)
  unfolding load32 load16
  load32_bytes = omega (
    arith,
    load8-lt m a,
    load8-lt m (a + 1),
    load8-lt m (a + 2),
    load8-lt m (a + 2 + 1),
    same_cell m (a + 2 + 1) (a + 3),
  )

pub load64_bytes :
    (m : Memory) (a : ℕ)
    → (byte_of (load64 m a) 0 ≡ load8 m a)
      × (byte_of (load64 m a) 1 ≡ load8 m (a + 1))
      × (byte_of (load64 m a) 2 ≡ load8 m (a + 2))
      × (byte_of (load64 m a) 3 ≡ load8 m (a + 3))
      × (byte_of (load64 m a) 4 ≡ load8 m (a + 4))
      × (byte_of (load64 m a) 5 ≡ load8 m (a + 5))
      × (byte_of (load64 m a) 6 ≡ load8 m (a + 6))
      × (byte_of (load64 m a) 7 ≡ load8 m (a + 7))
unfolding load64
load64_bytes m a = omega (
  arith,
  load32_bytes m a,
  load32_bytes m (a + 4),
  same_cell m (a + 4 + 1) (a + 5),
  same_cell m (a + 4 + 2) (a + 6),
  same_cell m (a + 4 + 3) (a + 7),
)

load8-store64 :
    (m : Memory) (a b v : ℕ)
    → load8 (store64 m a v) b ≡ (
        if b == a + 7
        then byte_of v 7
        else if b == a + 6
        then byte_of v 6
        else if b == a + 5
        then byte_of v 5
        else if b == a + 4
        then byte_of v 4
        else if b == a + 3
        then byte_of v 3
        else if b == a + 2
        then byte_of v 2
        else if b == a + 1
        then byte_of v 1
        else if b == a
        then byte_of v 0
        else load8 m b)
unfolding store64
load8-store64 m a b v =
    ground (arith, load8-store32 (store32 m a v) (a + 4) b (v >>> 32), load8-store32 m a b v)

-- A word that is copied is copied byte by byte.
pub load8-store64-load64 :
    (m m' : Memory) (a a' k : ℕ)
    → k < 8
    → load8 (store64 m a (load64 m' a')) (a + k) ≡ load8 m' (a' + k)
load8-store64-load64 m m' a a' k lt =
    ground (arith, load64_bytes m' a', load8-store64 m a (a + k) (load64 m' a'))

pub load64_sum :
    (m : Memory) (a : ℕ)
    → load64 m a
      ≡ load8 m a
        + load8 m (a + 1) * 2 ^ 8
        + load8 m (a + 2) * 2 ^ 16
        + load8 m (a + 3) * 2 ^ 24
        + load8 m (a + 4) * 2 ^ 32
        + load8 m (a + 5) * 2 ^ 40
        + load8 m (a + 6) * 2 ^ 48
        + load8 m (a + 7) * 2 ^ 56
unfolding load64
load64_sum m a =
    omega (arith, load64_bytes m a, load32_bytes m a, load32_bytes m (a + 4), load8-lt m (a + 7))
