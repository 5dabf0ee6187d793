-- ===== src/Common/Raw/Order.antt =====
-- What the stores of common/endian.go and the copies leave in memory.
use mathlib.Core.List.{append-nil}
use go_dpdk.Base.{
  some, get_elem?, ℕ, zero, suc, ◌+◌, ◌*◌, ◌^◌, ◌<◌, ◌≤◌, ◌≡◌, refl, ap, arith, ◌>>>◌, u8, min,
  List, [], ◌∷◌, length, take, drop, ltb, leb, if◌then◌else◌, ◌&&◌,
}
use go_dpdk.Memory.{
  Memory, load8, load16, load32, store8, load8-store8, load8-store_bytes_out, store_bytes, IsBytes,
  load_bytes-store_bytes,
}
use go_dpdk.Packet.Swap.{swap_bytes_uint32, swap32_as_sum}
use go_dpdk.Mem.Filled.{memset_lem}
use go_dpdk.Mem
use go_dpdk.Common.Raw.{
  big_endian, little_endian, put_uint16, put_uint32, be_u16, be_u32, le_u32, copy_from_bytes,
  copy_to_bytes, memset_loop, memset,
}

-- A cell of a run just stored.
cell_stored :
    (xs : List ℕ) (k v : ℕ) (m : Memory) (a b : ℕ)
    → get_elem? xs k ≡ some v
    → b ≡ a + k
    → load8 (store_bytes m a xs) b ≡ u8 v
unfolding store_bytes
cell_stored [] k v m a b e at = absurd cc
cell_stored (x ∷ xs) zero v m a b e at =
    ground (arith, load8-store_bytes_out (store8 m a x) (a + 1) b xs, load8-store8 m a b x)
cell_stored (x ∷ xs) (suc k) v m a b e at =
    cell_stored xs k v (store8 m a x) (a + 1) b e (omega arith)

module _ (m : Memory) (a w x y z : ℕ) where
  abbrev run : List ℕ
  run = w ∷ x ∷ y ∷ z ∷ []

  load32-run : load32 (store_bytes m a run) a ≡ u8 w + u8 x * 2 ^ 8 + u8 y * 2 ^ 16 + u8 z * 2 ^ 24
  unfolding load32 load16
  load32-run = omega (
    arith,
    cell_stored run 0 w m a a refl (omega arith),
    cell_stored run 1 x m a (a + 1) refl refl,
    cell_stored run 2 y m a (a + 2) refl refl,
    cell_stored run 3 z m a (a + 2 + 1) refl (omega arith),
  )

-- A uint32 stored in little-endian order is what the host loads, and one stored in big-endian order
-- is loaded as what SwapBytesUint32 makes of it.
pub load32-put_uint32 :
    (d a : ℕ) (m : Memory)
    → d < 2 ^ 32
    → (load32 (put_uint32 little_endian a d m) a ≡ d)
      × (load32 (put_uint32 big_endian a d m) a ≡ swap_bytes_uint32 d)
unfolding put_uint32
load32-put_uint32 d a m lt = (
  omega (arith, load32-run m a (u8 d) (u8 (d >>> 8)) (u8 (d >>> 16)) (u8 (d >>> 24))),
  omega (
    arith,
    load32-run m a (u8 (d >>> 24)) (u8 (d >>> 16)) (u8 (d >>> 8)) (u8 d),
    swap32_as_sum d lt,
  ),
)

-- The flow package's stores write what those of the package common do.
pub be_u32-put_uint32 :
    (n p : ℕ) (m : Memory)
    → (be_u16 n p m ≡ put_uint16 big_endian p n m)
      × (be_u32 n p m ≡ put_uint32 big_endian p n m)
      × (le_u32 n p m ≡ put_uint32 little_endian p n m)
unfolding be_u16 be_u32 le_u32 put_uint16 put_uint32
be_u32-put_uint32 n p m = (refl, refl, refl)

memset_loop_lem :
    (rounds i p init : ℕ) (m : Memory) (b : ℕ)
    → load8 (memset_loop rounds i p init m) b
      ≡ (if leb (p + i) b && ltb b (p + (i + rounds)) then u8 init else load8 m b)
unfolding memset_loop
memset_loop_lem zero i p init m b = ground arith
memset_loop_lem (suc rounds) i p init m b = ground (
  arith,
  memset_loop_lem rounds (i + 1) p init (store8 m (p + i) init) b,
  load8-store8 m (p + i) b init,
)

-- Memset of the package common, byte by byte, and Memset of the package mem, by words, leave the
-- same bytes everywhere.
pub memset-memset :
    (p init n b : ℕ) (m : Memory) → load8 (memset p init n m) b ≡ load8 (Mem.memset p init n m).1 b
unfolding memset
memset-memset p init n b m = ground (arith, memset_loop_lem n 0 p init m b, memset_lem m p init n b)

take-length : (xs : List ℕ) (n : ℕ) → length xs ≤ n → take n xs ≡ xs
take-length [] zero h = refl
take-length [] (suc n) h = refl
take-length (x ∷ xs) zero h = absurd (omega arith)
take-length (x ∷ xs) (suc n) h = ap (λ t. x ∷ t) (take-length xs n (omega arith))

drop-length : (xs : List ℕ) (n : ℕ) → length xs ≤ n → drop n xs ≡ []
drop-length [] zero h = refl
drop-length [] (suc n) h = refl
drop-length (x ∷ xs) zero h = absurd (omega arith)
drop-length (x ∷ xs) (suc n) h = drop-length xs n (omega arith)

-- Bytes that are copied to memory and back are the same, where both limits leave room for them.
pub copy_to_bytes-copy_from_bytes :
    (src dst : List ℕ) (a max : ℕ) (m : Memory)
    → length src ≤ max
    → length dst ≡ length src
    → IsBytes src
    → (copy_to_bytes dst a max (copy_from_bytes a src max m).1) ≡ (length src, src)
unfolding copy_to_bytes copy_from_bytes
copy_to_bytes-copy_from_bytes src dst a max m room same bytes =
    let all : take max src ≡ src = take-length src max room in
    let count : min (length dst) max ≡ length src = omega arith in
    let rest : drop (length src) dst ≡ [] = drop-length dst (length src) (omega arith) in
    rw (copy_to_bytes, all, count, load_bytes-store_bytes m a src bytes, rest)
      (ap (λ t. (length src, t)) (append-nil src))
