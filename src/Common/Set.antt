-- ===== src/Common/Set.antt =====
-- common/set.go: a set of numbers as an ascending slice. The numbers are not negative here.
pub mod Insert
pub mod Hex
mod Tests
use go_dpdk.Base.{
  ℕ, zero, suc, ◌+◌, ◌-◌, Bool, true, false, ◌&&◌, List, [], ◌∷◌, ◌++◌, Option, none, some, length,
  take, drop, get_or, ltb, ◌==◌, if◌then◌else◌,
}

-- `Map` has the one field `array`.
abbrev pub Map : Type 0
Map = List ℕ

-- `sort.SearchInts` on an ascending slice: the first index whose element is not below `n`.
unfoldable pub search_ints : List ℕ → ℕ → ℕ
search_ints [] n = 0
search_ints (x ∷ xs) n = let rest = search_ints xs n in if ltb x n then suc rest else 0

unfoldable pub find : Map → ℕ → ℕ × Bool
find m n = let k = search_ints m n in (k, ltb k (length m) && (get_or m k 0 == n))

-- `copy(s[k+1:], s[k:])`, which moves all but the last element of the tail up.
unfoldable pub copy_up : List ℕ → ℕ → List ℕ
copy_up s k = take (suc k) s ++ take (length s - suc k) (drop k s)

-- `s[k] = n`
unfoldable pub assign : List ℕ → ℕ → ℕ → List ℕ
assign s k n = take k s ++ (n ∷ drop (suc k) s)

unfoldable pub set : Map → ℕ → Map
set m n = let (k, ok) = find m n in if ok then m else assign (copy_up (m ++ (n ∷ [])) k) k n

unfoldable pub is_set : Map → ℕ → Bool
is_set m n = (find m n).1

unfoldable pub zero_out : Map → Map
zero_out m = take 0 m

unfoldable pub count : Map → ℕ
count m = length m
