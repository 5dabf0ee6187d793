-- ===== src/Memzone/Tests.antt =====
-- Reserve with a C library that has no memory, and Walk over two zones, which are numbers.
use go_dpdk.Base.{ℕ, ◌+◌, ◌≡◌, refl, none, some, List, [], ◌∷◌}
use go_dpdk.Common.Registry.{ObjArray, array_create, array_read, array_delete, array_read}
use go_dpdk.Memzone.{ReserveOption, opt_flag, opt_bounded, Rte, panicked, reserve, walk}

abbrev full : Rte ℕ
full = record {
  reserve = λ size socket flags. none;
  reserve_aligned = λ size socket flags align. none;
  reserve_bounded = λ size socket flags align bound. none;
}

abbrev bounded : List ReserveOption
bounded = opt_flag 1 ∷ opt_bounded 4096 ∷ []

reserve_panics : reserve full 100 bounded ≡ panicked
unfolding reserve
reserve_panics = refl

abbrev total : ℕ → ℕ → ℕ
total mz s = s + mz

abbrev registered : ObjArray (ℕ → ℕ → ℕ)
registered = record { array = some total ∷ []; cnt = 1 }

-- Walk adds the numbers of both zones, and leaves the registry with one object.
walked :
    walk registered total (4 ∷ 5 ∷ []) 1
    ≡ some (record { array = some total ∷ none ∷ []; cnt = 1 }, 10)
unfolding walk array_create array_read array_delete
walked = refl
