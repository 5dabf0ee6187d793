-- ===== src/Mem/Copy.antt =====
-- Memcpy, memcpyH and Memmove of mem/mem.go. A result is the returned pointer and the memory.
use go_dpdk.Base.{ℕ, zero, suc, ◌+◌, ◌-◌, ◌*◌, ◌%◌, ◌==◌, ltb, leb, if◌then◌else◌, ◌&&◌, ◌>>>◌}
use go_dpdk.Memory.{Memory, load8, store8, load64, store64}

-- The first loop of Memcpy: rounds left, index, and the two pointers.
unfoldable pub copy_words : ℕ → ℕ → ℕ → ℕ → Memory → Memory
copy_words zero i dest src m = m
copy_words (suc rounds) i dest src m =
    copy_words rounds (i + 1) dest src (store64 m (dest + 8 * i) (load64 m (src + 8 * i)))

-- The second loop, over the bytes that are left past `cnt` words.
unfoldable pub copy_bytes : ℕ → ℕ → ℕ → ℕ → ℕ → Memory → Memory
copy_bytes zero i cnt dest src m = m
copy_bytes (suc rounds) i cnt dest src m =
    copy_bytes rounds (i + 1) cnt dest src
      (store8 m (dest + (8 * cnt + i)) (load8 m (src + (8 * cnt + i))))

-- `len & 7` is the remainder by 8.
unfoldable pub memcpy : ℕ → ℕ → ℕ → Memory → ℕ × Memory
unfolding copy_words copy_bytes
memcpy dest src length m =
    let cnt = length >>> 3 in
    let left = length % 8 in (dest, copy_bytes left 0 cnt dest src (copy_words cnt 0 dest src m))

-- The loops of memcpyH, whose index starts at 1, from the end downwards.
unfoldable pub copy_words_down : ℕ → ℕ → ℕ → ℕ → ℕ → Memory → Memory
copy_words_down zero i length dest src m = m
copy_words_down (suc rounds) i length dest src m =
    copy_words_down rounds (i + 1) length dest src
      (store64 m (dest + (length - 8 * i)) (load64 m (src + (length - 8 * i))))

unfoldable pub copy_bytes_down : ℕ → ℕ → ℕ → ℕ → ℕ → ℕ → Memory → Memory
copy_bytes_down zero i cnt length dest src m = m
copy_bytes_down (suc rounds) i cnt length dest src m =
    copy_bytes_down rounds (i + 1) cnt length dest src
      (store8 m (dest + (length - 8 * cnt - i)) (load8 m (src + (length - 8 * cnt - i))))

unfoldable pub memcpy_h : ℕ → ℕ → ℕ → Memory → ℕ × Memory
unfolding copy_words_down copy_bytes_down
memcpy_h dest src length m =
    let cnt = length >>> 3 in
    let left = length % 8 in
    (dest, copy_bytes_down left 1 cnt length dest src (copy_words_down cnt 1 length dest src m))

unfoldable pub memmove : ℕ → ℕ → ℕ → Memory → ℕ × Memory
unfolding memcpy memcpy_h
memmove dest src length m =
    if dest == src
    then (dest, m)
    else if ltb src dest && leb dest (src + length)
    then memcpy_h dest src length m
    else memcpy dest src length m
