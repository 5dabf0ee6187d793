-- ===== src/Ethdev/TxBuffer.antt =====
-- ethdev/rxtx.go: the memory of a TxBuffer and the slice of packets in it. `sizeof` is the size of
-- the C structure, and rte_eth_tx_buffer_init gives the capacity that it is asked for. That
-- the program runs out of memory below the greatest allocation is not modelled.
pub mod Room
mod Tests
use go_dpdk.Base.{
  ℕ, ◌+◌, ◌*◌, ◌/◌, ◌≡◌, Bool, not, ◌||◌, Option, none, some, u16, u64, ltb, ◌==◌, if◌then◌else◌,
}

-- The size of a pointer.
abbrev pub ptr_size : ℕ
ptr_size = 8

-- A division by 0 panics. Both numbers are sizes and not negative.
unfoldable pub frac_ceil_round : (x y : ℕ) → Option ℕ
frac_ceil_round x y =
    if y == 0 then none else (let n = x / y in some (if not (y * n == x) then n + 1 else n))

-- The fields `length` and `size` of the C structure, its address, and the slots that were allocated.
pub record TxBuffer : Type 0 where
  pub length : ℕ
  pub size : ℕ
  pub address : ℕ
  pub slots : ℕ

-- A slice by its header.
pub record SliceHeader : Type 0 where
  pub start : ℕ
  pub count : ℕ
  pub cap : ℕ

module _ (sizeof : ℕ) where
  unfoldable pub tx_buffer_size : (mbuf_cnt : ℕ) → ℕ
  tx_buffer_size mbuf_cnt = u64 (sizeof + u64 mbuf_cnt * ptr_size)

  -- `rte_eth_tx_buffer_init` with C.uint16_t(cnt).
  unfoldable pub init : TxBuffer → (cnt : ℕ) → TxBuffer
  init buf cnt = record buf { length = 0; size = u16 cnt }

  -- `make` panics where the slots take more than `max_alloc` bytes, the greatest allocation of the
  -- Go run time; `address` is where it puts them; `&data[0]` panics where there is none.
  unfoldable pub new_tx_buffer : (max_alloc address cnt : ℕ) → Option TxBuffer
  new_tx_buffer max_alloc address cnt = elim (frac_ceil_round (tx_buffer_size cnt) ptr_size) [
    | none ↦ none
    | some slots ↦
        if ltb max_alloc (slots * ptr_size) || slots == 0
        then none
        else some (init (record { length = 0; size = 0; address = address; slots = slots }) cnt)
  ]

  unfoldable pub mbufs : TxBuffer → SliceHeader
  mbufs buf = record { start = u64 (buf.address + sizeof); count = buf.length; cap = buf.size }
