-- ===== src/Mem/Long.antt =====
-- Texts that are longer than the 64 bytes that Parse allows for them.
use go_dpdk.Base.{ℕ, ◌+◌, ◌-◌, ◌^◌, ◌<◌, ◌≡◌, arith, none, some, List, length, take}
use go_dpdk.Memory.{Memory, load16, store16, load8-store16, store_bytes, load8-store_bytes_out}
use go_dpdk.Mem.Flat.{Field, str_save, str_dump}

-- The bytes that strSave writes for the length stay when the text is copied behind them.
size_kept :
    (m : Memory) (a : ℕ) (n : ℕ) (xs : List ℕ)
    → n < 2 ^ 16
    → load16 (store_bytes (store16 m a n) (a + 2) xs) a ≡ n
unfolding load16
size_kept m a n xs lt = ground (
  arith,
  load8-store_bytes_out (store16 m a n) (a + 2) a xs,
  load8-store_bytes_out (store16 m a n) (a + 2) (a + 1) xs,
  load8-store16 m a a n,
  load8-store16 m a (a + 1) n,
)

-- A text of 65 bytes and more in the last field of a row is saved without an error, and the row
-- then panics when that field is dumped.
pub str_dump-str_save_long :
    (size : ℕ) (f : Field) (text : List ℕ) (m : Memory)
    → f.position + 66 ≡ size
    → 64 < length text
    → length text < 2 ^ 16
    → (m' : Memory) × (str_save size f text m ≡ some m') × (str_dump size f m' ≡ none)
unfolding str_save str_dump
str_dump-str_save_long size f text m last long short = (
  store_bytes (store16 m f.position (length text)) (f.position + 2)
      (take (size - (f.position + 2)) text),
  ground arith,
  ground (arith, size_kept m f.position (length text) (take (size - (f.position + 2)) text)),
)
