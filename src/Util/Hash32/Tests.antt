-- ===== src/Util/Hash32/Tests.antt =====
-- Runs and instances for the hash.
use go_dpdk.Base.{ℕ, ◌+◌, ◌%◌, ◌^◌, ◌≡◌, refl, arith, true, List, [], ◌∷◌, ◌++◌}
use go_dpdk.Util.Hash32.{write, sum, crc_update, new_crc_hash, complement_func}
use go_dpdk.Util.Hash32.Laws.{IsStreaming}

abbrev total : List ℕ → ℕ
total [] = 0
total (x ∷ xs) = x + total xs

-- The sum of the bytes, in place of the CRC.
abbrev checksum : (bytes : List ℕ) (len acc : ℕ) → ℕ
checksum bytes len acc = (acc + total bytes) % 2 ^ 32

total-append : (p q : List ℕ) → total (p ++ q) ≡ total p + total q
total-append [] q = omega arith
total-append (x ∷ p) q = omega (arith, total-append p q)

checksum-IsStreaming : IsStreaming (crc_update checksum)
unfolding crc_update
checksum-IsStreaming = record {
  append = λ p q acc. omega (arith, total-append p q);
  low = λ p acc. omega arith;
}

sum_run :
    sum (write (new_crc_hash checksum 0x1020 true) (1 ∷ 2 ∷ [])).0 (9 ∷ [])
    ≡ 9 ∷ 0 ∷ 0 ∷ 16 ∷ 29 ∷ []
unfolding sum write new_crc_hash complement_func crc_update
sum_run = refl
