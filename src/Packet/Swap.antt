-- ===== src/Packet/Swap.antt =====
-- packet/packet.go: byte order. The host is little-endian and the wire big-endian.
use go_dpdk.Base.{
  ℕ, ◌+◌, ◌*◌, ◌/◌, ◌%◌, ◌^◌, ◌<◌, ◌≡◌, ◌⊎◌, sym, ap, ◌∙◌, arith, u16, u32, ◌<<<◌, ◌>>>◌, bit_and,
  bit_or,
}
use go_dpdk.Bits.{bit_or-eq-add, bit_and_high, bit_and_low}
use go_dpdk.Memory.{
  Memory, load8, load16, load32, store16, load8-lt, load16-lt, load8-store16, load16-store16,
}

unfoldable pub swap_bytes_uint16 : ℕ → ℕ
swap_bytes_uint16 x = bit_or (u16 (x <<< 8)) (x >>> 8)

unfoldable pub swap_bytes_uint32 : ℕ → ℕ
swap_bytes_uint32 x =
    bit_or
      (bit_or (bit_or (u32 (bit_and x 0x000000ff <<< 24)) (u32 (bit_and x 0x0000ff00 <<< 8)))
        (bit_and x 0x00ff0000 >>> 8))
      (bit_and x 0xff000000 >>> 24)

-- `SwapBytesIPv4Addr` has the same body at the type of addresses.
unfoldable pub swap_bytes_ipv4_addr : ℕ → ℕ
swap_bytes_ipv4_addr x =
    bit_or
      (bit_or (bit_or (u32 (bit_and x 0x000000ff <<< 24)) (u32 (bit_and x 0x0000ff00 <<< 8)))
        (bit_and x 0x00ff0000 >>> 8))
      (bit_and x 0xff000000 >>> 24)

-- A big-endian uint16 in memory.
unfoldable pub be16 : Memory → ℕ → ℕ
be16 m a = load8 m a * 256 + load8 m (a + 1)

pub be16_lem : (m : Memory) (a b : ℕ) → b ≡ a + 1 → be16 m a ≡ load8 m a * 256 + load8 m b
unfolding be16
be16_lem m a b e = rw e

pub be16-lt : (m : Memory) (a : ℕ) → be16 m a < 2 ^ 16
unfolding be16
be16-lt m a = omega (arith, load8-lt m a, load8-lt m (a + 1))

pub swap16_as_sum : (x : ℕ) → x < 2 ^ 16 → swap_bytes_uint16 x ≡ x % 256 * 256 + x / 256
unfolding swap_bytes_uint16
swap16_as_sum x h = ground (arith, bit_or-eq-add 8 (x % 256) (x / 256))

pub swap16-lt : (x : ℕ) → x < 2 ^ 16 → swap_bytes_uint16 x < 2 ^ 16
swap16-lt x h = omega (arith, swap16_as_sum x h)

-- Swapping the bytes of a uint16 twice gives it back.
pub swap16_involutive : (x : ℕ) → x < 2 ^ 16 → swap_bytes_uint16 (swap_bytes_uint16 x) ≡ x
swap16_involutive x h =
    omega (arith, swap16_as_sum x h, swap16_as_sum (swap_bytes_uint16 x) (swap16-lt x h))

-- A swapped load is the big-endian value.
pub swap16-load16 : (m : Memory) (a : ℕ) → swap_bytes_uint16 (load16 m a) ≡ be16 m a
unfolding load16 be16
swap16-load16 m a =
    omega
      (arith, swap16_as_sum (load8 m a + load8 m (a + 1) * 2 ^ 8), load8-lt m a, load8-lt m (a + 1))

pub swap32_as_sum :
    (x : ℕ)
    → x < 2 ^ 32
    → swap_bytes_uint32 x
      ≡ x % 256 * 2 ^ 24 + x / 256 % 256 * 2 ^ 16 + x / 2 ^ 16 % 256 * 256 + x / 2 ^ 24
unfolding swap_bytes_uint32
swap32_as_sum x h = ground (
  arith,
  bit_and_low 8 x,
  bit_and_high 8 x 255,
  bit_and_high 16 x 255,
  bit_and_high 24 x 255,
  bit_and_low 8 (x / 2 ^ 8),
  bit_and_low 8 (x / 2 ^ 16),
  bit_and_low 8 (x / 2 ^ 24),
  bit_or-eq-add 24 (x % 256) (x / 256 % 256 * 2 ^ 16),
  bit_or-eq-add 16 (x % 256 * 256 + x / 256 % 256) (x / 2 ^ 16 % 256 * 256),
  bit_or-eq-add 8 (x % 256 * 2 ^ 16 + x / 256 % 256 * 256 + x / 2 ^ 16 % 256) (x / 2 ^ 24),
)

-- Swapping the bytes of a uint32 twice gives it back.
pub swap32_involutive : (x : ℕ) → x < 2 ^ 32 → swap_bytes_uint32 (swap_bytes_uint32 x) ≡ x
swap32_involutive x h = omega (
  arith,
  swap32_as_sum x h,
  swap32_as_sum (swap_bytes_uint32 x) (omega (arith, swap32_as_sum x h)),
)

-- The halves of a uint32 in memory, swapped: its two big-endian words.
pub swap16_halves :
    (m : Memory) (p q : ℕ)
    → q ≡ p + 2
    → (swap_bytes_uint16 (u16 (load32 m p)) ≡ be16 m p)
      × (swap_bytes_uint16 (u16 (load32 m p / 2 ^ 16)) ≡ be16 m q)
unfolding load32
swap16_halves m p q e =
    let low : u16 (load16 m p + load16 m (p + 2) * 2 ^ 16) ≡ load16 m p =
      omega (arith, load16-lt m p) in
    let high : (load16 m p + load16 m (p + 2) * 2 ^ 16) / 2 ^ 16 ≡ load16 m (p + 2) =
      omega (arith, load16-lt m p) in
    let cut : u16 (load16 m (p + 2)) ≡ load16 m (p + 2) = omega (arith, load16-lt m (p + 2)) in
    (rw low (swap16-load16 m p), rw (high, cut, e) (swap16-load16 m (p + 2)))

-- A uint16 store leaves the big-endian words that it does not touch, and a swapped value is read
-- back big-endian.
pub be16-store16_ne :
    (m : Memory) (a v b : ℕ) → (b + 1 < a) ⊎ (a + 1 < b) → be16 (store16 m a v) b ≡ be16 m b
unfolding be16
be16-store16_ne m a v b h = ground (arith, load8-store16 m a b v, load8-store16 m a (b + 1) v)

pub be16-store16 :
    (m : Memory) (a v : ℕ) → v < 2 ^ 16 → be16 (store16 m a (swap_bytes_uint16 v)) a ≡ v
be16-store16 m a v h =
    sym (swap16-load16 (store16 m a (swap_bytes_uint16 v)) a)
    ∙ ap swap_bytes_uint16 (load16-store16 m a (swap_bytes_uint16 v) ∙ cut)
    ∙ swap16_involutive v h
  where
    cut : u16 (swap_bytes_uint16 v) ≡ swap_bytes_uint16 v
    cut = omega (arith, swap16-lt v h)
