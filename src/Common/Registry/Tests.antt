-- ===== src/Common/Registry/Tests.antt =====
-- Runs and instances for the registries.
use go_dpdk.Base.{ℕ, ◌≡◌, refl, arith, [], ◌∷◌, none, some}
use go_dpdk.Common.Registry.{ObjTable, ObjArray, array_delete}
use go_dpdk.Common.Registry.Table.{IsFresh}
use go_dpdk.Common.Registry.Array.{IsCounted, live}

abbrev empty_table : ObjTable ℕ
empty_table = record { hash = λ _. none; id = 0 }

empty_table-IsFresh : IsFresh empty_table
empty_table-IsFresh = record { unused = λ j h. refl; narrow = omega arith }

-- Two objects, and the array after the first was deleted.
abbrev two : ObjArray ℕ
two = record { array = some 7 ∷ some 8 ∷ []; cnt = 2 }

abbrev one : ObjArray ℕ
one = record { array = none ∷ some 8 ∷ []; cnt = 1 }

two-IsCounted : IsCounted two
unfolding live
two-IsCounted = record { counted = refl; narrow = omega arith }

one-IsCounted : IsCounted one
unfolding live
one-IsCounted = record { counted = refl; narrow = omega arith }

delete_first : array_delete two 0 ≡ some one
unfolding array_delete
delete_first = refl
