-- ===== src/Memory/Cell.antt =====
-- Loads and stores of one field.
use go_dpdk.Base.{ℕ, ◌+◌, ◌*◌, ◌/◌, ◌^◌, ◌<◌, ◌≡◌, arith, u8, u16, ◌==◌, if◌then◌else◌, ◌>>>◌}

abbrev pub Memory : Type 0
Memory = ℕ → ℕ

unfoldable pub load8 : Memory → ℕ → ℕ
load8 m a = u8 (m a)

unfoldable pub store8 : Memory → ℕ → ℕ → Memory
store8 m a v b = if b == a then u8 v else m b

-- A uint16 field: low byte first.
unfoldable pub load16 : Memory → ℕ → ℕ
load16 m a = load8 m a + load8 m (a + 1) * 2 ^ 8

unfoldable pub store16 : Memory → ℕ → ℕ → Memory
store16 m a v = store8 (store8 m a v) (a + 1) (v >>> 8)

-- A uint32 field.
unfoldable pub load32 : Memory → ℕ → ℕ
load32 m a = load16 m a + load16 m (a + 2) * 2 ^ 16

unfoldable pub store32 : Memory → ℕ → ℕ → Memory
store32 m a v = store16 (store16 m a v) (a + 2) (v >>> 16)

pub load8-lt : (m : Memory) (a : ℕ) → load8 m a < 256
unfolding load8
load8-lt m a = omega arith

pub load16-lt : (m : Memory) (a : ℕ) → load16 m a < 2 ^ 16
unfolding load16
load16-lt m a = omega (arith, load8-lt m a, load8-lt m (a + 1))

pub load8-store8 :
    (m : Memory) (a b v : ℕ) → load8 (store8 m a v) b ≡ (if b == a then u8 v else load8 m b)
unfolding load8 store8
load8-store8 m a b v = ground arith

-- A uint16 store changes two bytes.
pub load8-store16 :
    (m : Memory) (a b v : ℕ)
    → load8 (store16 m a v) b
      ≡ (if b == a + 1 then u8 (v / 256) else if b == a then u8 v else load8 m b)
unfolding store16
load8-store16 m a b v =
    ground (arith, load8-store8 (store8 m a v) (a + 1) b (v >>> 8), load8-store8 m a b v)

pub load16-store16 : (m : Memory) (a v : ℕ) → load16 (store16 m a v) a ≡ u16 v
unfolding load16
load16-store16 m a v = ground (arith, load8-store16 m a a v, load8-store16 m a (a + 1) v)
