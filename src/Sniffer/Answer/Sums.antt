-- ===== src/Sniffer/Answer/Sums.antt =====
-- What the answers need of memory: sums, words and copies.
use go_dpdk.Base.{
  ℕ, zero, suc, ◌+◌, ◌-◌, ◌*◌, ◌/◌, ◌≤◌, ◌≡◌, refl, ap, arith, ◌==◌, if◌then◌else◌, ◌>>>◌, u8,
}
use go_dpdk.Memory.{
  Memory, load8, load16, load32, store16, store32, load_bytes, Stores, stores, IsApart,
  load8-stores_within, load8-lt, load8-store16,
}
use go_dpdk.Packet.Swap.{be16}
use go_dpdk.Packet.Init.Fill.{be16-same}
use go_dpdk.Packet.Checksum.Words.{words_sum, byte_sum}

-- Sums over bytes that no store touches.
pub words_sum-stores :
    (m : Memory) (b n k : ℕ) (ws : Stores)
    → IsApart b n ws
    → 2 * k ≤ n
    → words_sum (stores m ws) b k ≡ words_sum m b k
words_sum-stores m b n zero ws h le = refl
words_sum-stores m b n (suc k) ws h le = omega (
  arith,
  words_sum-stores m b n k ws h,
  be16-same m (stores m ws) (b + 2 * k)
      (load8-stores_within m b n (b + 2 * k) ws h (omega arith) (omega arith))
      (load8-stores_within m b n (b + 2 * k + 1) ws h (omega arith) (omega arith)),
)

pub byte_sum-stores :
    (m : Memory) (b n : ℕ) (ws : Stores)
    → IsApart b n ws
    → byte_sum (stores m ws) b n ≡ byte_sum m b n
unfolding byte_sum
byte_sum-stores m b n ws h =
    ground
      (arith, words_sum-stores m b n (n / 2) ws h, load8-stores_within m b n (b + (n - 1)) ws h)

-- The bytes of a uint32 field, and what a store of one puts there.
load32-bytes :
    (m : Memory) (a : ℕ)
    → (u8 (load32 m a) ≡ load8 m a)
      × (u8 (load32 m a >>> 8) ≡ load8 m (a + 1))
      × (u8 (load32 m a >>> 16) ≡ load8 m (a + 2))
      × (u8 (load32 m a >>> 16 >>> 8) ≡ load8 m (a + 2 + 1))
unfolding load32 load16
load32-bytes m a =
    omega (arith, load8-lt m a, load8-lt m (a + 1), load8-lt m (a + 2), load8-lt m (a + 2 + 1))

load8-store32 :
    (m : Memory) (a v b : ℕ)
    → load8 (store32 m a v) b ≡ (
        if b == a + 2 + 1
        then u8 (v >>> 16 >>> 8)
        else if b == a + 2
        then u8 (v >>> 16)
        else if b == a + 1
        then u8 (v >>> 8)
        else if b == a
        then u8 v
        else load8 m b)
unfolding store32
load8-store32 m a v b =
    ground (arith, load8-store16 (store16 m a v) (a + 2) b (v >>> 16), load8-store16 m a b v)

-- A uint32 that is copied keeps its bytes.
pub load_bytes-copy32 :
    (m n : Memory) (a b : ℕ) → load_bytes (store32 m a (load32 n b)) a 4 ≡ load_bytes n b 4
unfolding load_bytes
load_bytes-copy32 m n a b =
    let v = load32 n b in
    let bytes = load32-bytes n b in
    let e0 : load8 (store32 m a v) a ≡ load8 n b = ground (arith, load8-store32 m a v a) in
    let e1 : load8 (store32 m a v) (a + 1) ≡ load8 n (b + 1) =
      ground (arith, load8-store32 m a v (a + 1)) in
    let e2 : load8 (store32 m a v) (a + 1 + 1) ≡ load8 n (b + 1 + 1) = ground (
      arith,
      load8-store32 m a v (a + 1 + 1),
      ap (load8 n) {x = b + 2} {y = b + 1 + 1} (omega arith),
    ) in
    let e3 : load8 (store32 m a v) (a + 1 + 1 + 1) ≡ load8 n (b + 1 + 1 + 1) = ground (
      arith,
      load8-store32 m a v (a + 1 + 1 + 1),
      ap (load8 n) {x = b + 2 + 1} {y = b + 1 + 1 + 1} (omega arith),
    ) in
    rw (e0, e1, e2, e3) refl

-- A word that no run of the sequence touches.
pub be16-stores :
    (m : Memory) (a : ℕ) (ws : Stores) → IsApart a 2 ws → be16 (stores m ws) a ≡ be16 m a
be16-stores m a ws h =
    be16-same m (stores m ws) a (load8-stores_within m a 2 a ws h (omega arith) (omega arith))
      (load8-stores_within m a 2 (a + 1) ws h (omega arith) (omega arith))
