-- ===== src/Common/Set/Hex.antt =====
-- common/set.go: the hexadecimal text of a set, `hex` and its helpers.
mod Tables
pub mod Digits
pub mod Read
mod Tests
use go_dpdk.Base.{
  ℕ, zero, suc, ◌+◌, ◌-◌, ◌/◌, ◌%◌, ◌^◌, Bool, true, false, List, [], ◌∷◌, ◌++◌, length, get_or,
  set, bit_or, bit_and, leb, ◌==◌, if◌then◌else◌,
}

abbrev pub hex_map : List ℕ
hex_map = 48 ∷ 49 ∷ 50 ∷ 51 ∷ 52 ∷ 53 ∷ 54 ∷ 55 ∷ 56 ∷ 57 ∷ 97 ∷ 98 ∷ 99 ∷ 100 ∷ 101 ∷ 102 ∷ []

unfoldable pub get_hex_byte : ℕ → ℕ
get_hex_byte n = get_or hex_map n 0

-- The loop of `getHexIndex` over what is left of the table, from index `i` on.
unfoldable pub hex_index_loop : List ℕ → (i c : ℕ) → ℕ
hex_index_loop [] i c = 0
hex_index_loop (x ∷ xs) i c = let rest = hex_index_loop xs (i + 1) c in if x == c then i else rest

unfoldable pub get_hex_index : ℕ → ℕ
get_hex_index c = hex_index_loop hex_map 0 c

-- `make([]byte, k)`, filled with '0'.
abbrev pub zeros : ℕ → List ℕ
zeros zero = []
zeros (suc k) = 48 ∷ zeros k

-- The digits with room for digit `i`.
unfoldable pub grow : List ℕ → (i : ℕ) → List ℕ
grow out i = if leb (length out) i then zeros (i - length out + 1) ++ out else out

-- The body of the loop of `hex`.
unfoldable pub add_number : List ℕ → ℕ → List ℕ
add_number out n =
    let i = n / 4 in
    let r = n % 4 in
    let out = grow out i in
    let i = length out - 1 - i in
    set out i (get_hex_byte (bit_or (get_hex_index (get_or out i 0)) (2 ^ r)))

unfoldable pub hex_loop : List ℕ → List ℕ → List ℕ
hex_loop out [] = out
hex_loop out (n ∷ a) = hex_loop (add_number out n) a

unfoldable pub hex : List ℕ → List ℕ
hex a = hex_loop [] a
