-- ===== src/Mem/Compare.antt =====
-- Memcmp of mem/mem.go. A negative result is `negsuc 0`.
use go_dpdk.Base.{ℕ, zero, suc, ◌+◌, ◌*◌, ◌%◌, ltb, if◌then◌else◌, ◌>>>◌, ℤ, pos, negsuc}
use go_dpdk.Memory.{Memory, load8, load64}

-- The second loop: rounds left, index, words already compared.
unfoldable pub compare_bytes : ℕ → ℕ → ℕ → ℕ → ℕ → Memory → ℤ
compare_bytes zero i cnt dest src m = pos 0
compare_bytes (suc rounds) i cnt dest src m =
    let d = load8 m (dest + (8 * cnt + i)) in
    let s = load8 m (src + (8 * cnt + i)) in
    if ltb d s
    then negsuc 0
    else if ltb s d
    then pos 1
    else compare_bytes rounds (i + 1) cnt dest src m

-- The first loop, and what follows it.
unfoldable pub compare_words : ℕ → ℕ → ℕ → ℕ → ℤ → Memory → ℤ
compare_words zero i dest src rest m = rest
compare_words (suc rounds) i dest src rest m =
    let d = load64 m (dest + 8 * i) in
    let s = load64 m (src + 8 * i) in
    if ltb d s
    then negsuc 0
    else if ltb s d
    then pos 1
    else compare_words rounds (i + 1) dest src rest m

unfoldable pub memcmp : ℕ → ℕ → ℕ → Memory → ℤ
unfolding compare_words compare_bytes
memcmp dest src length m =
    let cnt = length >>> 3 in
    let left = length % 8 in compare_words cnt 0 dest src (compare_bytes left 0 cnt dest src m) m
