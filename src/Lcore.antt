-- ===== src/Lcore.antt =====
-- lcore/lcore.go: the map of processors that the kernel prints.
pub mod Map
pub mod Numa
mod Tests
use go_dpdk.Base.{
  ℕ, zero, suc, ◌+◌, ◌-◌, ◌*◌, Bool, true, false, not, List, [], ◌∷◌, ◌++◌, Option, none, some,
  length, get_or, bit_and, ◌==◌, if◌then◌else◌,
}

pub data Error : Type 0 where
  scan_failed : Error
  err_invalid_map : Error

pub data Result : Type 0 where
  ok : List ℕ → Result
  failed : Error → Result

-- The keys and the values of `hexMap`.
abbrev pub hex_map : List (ℕ × ℕ)
hex_map =
    (48, 0)
    ∷ (49, 1)
    ∷ (50, 2)
    ∷ (52, 4)
    ∷ (56, 8)
    ∷ (51, 3)
    ∷ (53, 5)
    ∷ (54, 6)
    ∷ (57, 9)
    ∷ (97, 10)
    ∷ (99, 12)
    ∷ (55, 7)
    ∷ (98, 11)
    ∷ (100, 13)
    ∷ (101, 14)
    ∷ (102, 15)
    ∷ []

unfoldable pub lookup : List (ℕ × ℕ) → ℕ → Option ℕ
lookup [] c = none
lookup ((k, v) ∷ rest) c = let later = lookup rest c in if k == c then some v else later

-- `if n&bit != 0 { cores = append(cores, core) }`
unfoldable pub append_if : (n bit : ℕ) → List ℕ → ℕ → List ℕ
append_if n bit cores core = if not (bit_and n bit == 0) then cores ++ (core ∷ []) else cores

-- What digit `i` appends.
unfoldable pub append_digit : (n i : ℕ) → List ℕ → List ℕ
append_digit n i cores =
    let cores = append_if n 1 cores (4 * i) in
    let cores = append_if n 2 cores (4 * i + 1) in
    let cores = append_if n 4 cores (4 * i + 2) in append_if n 8 cores (4 * i + 3)

-- What follows the lookup of a byte.
abbrev pub on_digit : Option ℕ → (ℕ → Result) → Result
on_digit none next = failed err_invalid_map
on_digit (some n) next = next n

-- The loop from `i` on, with `left` bytes to go.
unfoldable pub read_loop : (cpumap : List ℕ) → (left i : ℕ) → (cores : List ℕ) → Result
read_loop cpumap zero i cores = ok cores
read_loop cpumap (suc left) i cores =
    on_digit (lookup hex_map (get_or cpumap (length cpumap - i - 1) 0))
      (λ n. read_loop cpumap left (i + 1) (append_digit n i cores))

-- From the scanner's result on: its error, or the first word of the text.
unfoldable pub read_cpu_hex_map : Option (List ℕ) → Result
read_cpu_hex_map none = failed scan_failed
read_cpu_hex_map (some cpumap) = read_loop cpumap (length cpumap) 0 []
