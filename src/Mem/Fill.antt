-- ===== src/Mem/Fill.antt =====
-- Memset of mem/mem.go. The character is the byte that an int8 is stored as.
use go_dpdk.Base.{ℕ, zero, suc, ◌+◌, ◌-◌, ◌*◌, ◌%◌, ltb, if◌then◌else◌, ◌>>>◌}
use go_dpdk.Memory.{Memory, store8, load64, store64}

unfoldable pub fill_bytes : ℕ → ℕ → ℕ → ℕ → Memory → Memory
fill_bytes zero i dest ch m = m
fill_bytes (suc rounds) i dest ch m = fill_bytes rounds (i + 1) dest ch (store8 m (dest + i) ch)

-- Each round reads the first word again.
unfoldable pub fill_words : ℕ → ℕ → ℕ → ℕ → Memory → Memory
fill_words zero i left dest m = m
fill_words (suc rounds) i left dest m =
    fill_words rounds (i + 1) left dest (store64 m (dest + (left + 8 * i)) (load64 m dest))

unfoldable pub memset : ℕ → ℕ → ℕ → Memory → ℕ × Memory
unfolding fill_bytes fill_words
memset dest ch length m =
    let cnt = length >>> 3 in
    let left = if ltb 0 cnt then length % 8 + 8 else length % 8 in
    let bytes = fill_bytes left 0 dest ch m in
    if ltb cnt 2 then (dest, bytes) else (dest, fill_words (cnt - 1) 0 left dest bytes)
