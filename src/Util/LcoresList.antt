-- ===== src/Util/LcoresList.antt =====
-- util/lcores.go: a list of logical cores. `sort.Sort` is insertion by `Less`, and the decimal text
-- of a number is a parameter.
pub mod Sorted
pub mod Ranges
pub mod Same
mod Tests
use go_dpdk.Base.{
  ℕ, zero, suc, ◌+◌, ◌-◌, Bool, true, false, List, [], ◌∷◌, ◌++◌, map, length, get_or, ltb, not,
  sub64, ◌==◌, if◌then◌else◌,
}

abbrev pub LcoresList : Type 0
LcoresList = List ℕ

unfoldable pub less : LcoresList → (i j : ℕ) → Bool
less list i j = ltb (get_or list i 0) (get_or list j 0)

unfoldable pub insert : ℕ → LcoresList → LcoresList
insert x [] = x ∷ []
insert x (y ∷ ys) = let rest = insert x ys in if ltb y x then y ∷ rest else x ∷ y ∷ ys

unfoldable pub sort : LcoresList → LcoresList
sort [] = []
sort (x ∷ xs) = insert x (sort xs)

unfoldable pub dup : LcoresList → LcoresList
dup list = sort ([] ++ list)

-- What `rangeStr` prints: one number, or the two ends of a range.
pub data Range : Type 0 where
  single : ℕ → Range
  range : (first last : ℕ) → Range

abbrev pub range_of : LcoresList → (prev next : ℕ) → Range
range_of list prev next =
    if prev == next
    then single (get_or list prev 0)
    else range (get_or list prev 0) (get_or list next 0)

-- The loop of `String` from `i` on, with `left` steps to go, and its last call of `rangeStr`.
unfoldable pub ranges_loop : LcoresList → (left i prev next : ℕ) → List Range
ranges_loop list zero i prev next = range_of list prev next ∷ []
ranges_loop list (suc left) i prev next =
    let same = ranges_loop list left (i + 1) prev next in
    let longer = ranges_loop list left (i + 1) prev i in
    let fresh = ranges_loop list left (i + 1) i i in
    if get_or list i 0 == get_or list (i - 1) 0
    then same
    else if sub64 (get_or list i 0) (get_or list (i - 1) 0) == 1
    then longer
    else range_of list prev next ∷ fresh

-- The ranges that `String` joins.
unfoldable pub ranges : LcoresList → List Range
ranges list =
    if length list == 0
    then []
    else (let list = dup list in ranges_loop list (length list - 1) 1 0 0)

module _ (decimal : ℕ → List ℕ) where
  unfoldable pub range_str : Range → List ℕ
  range_str (single x) = decimal x
  range_str (range first last) = decimal first ++ (45 ∷ decimal last)

  -- strings.Join(s, ",")
  unfoldable pub join : List (List ℕ) → List ℕ
  join [] = []
  join (s ∷ []) = s
  join (s ∷ t ∷ rest) = s ++ (44 ∷ join (t ∷ rest))

  unfoldable pub string : LcoresList → List ℕ
  string list = join (map range_str (ranges list))

-- The comparison of the elements from `i` on.
unfoldable pub equal_loop : (list other : LcoresList) → (left i : ℕ) → Bool
equal_loop list other zero i = true
equal_loop list other (suc left) i =
    let rest = equal_loop list other left (i + 1) in
    if not (get_or list i 0 == get_or other i 0) then false else rest

unfoldable pub equal : (list other : LcoresList) → Bool
equal list other =
    let list = dup list in
    let other = dup other in
    if not (length list == length other) then false else equal_loop list other (length list) 0
