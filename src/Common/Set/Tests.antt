-- ===== src/Common/Set/Tests.antt =====
-- Runs and instances for the set of numbers.
use go_dpdk.Base.{◌≡◌, refl, [], ◌∷◌, arith}
use go_dpdk.Common.Set.{Map, set, find, search_ints, assign, copy_up}
use go_dpdk.Common.Set.Insert.{IsAscending}

abbrev cores : Map
cores = 1 ∷ 4 ∷ 9 ∷ []

cores-IsAscending : IsAscending cores
cores-IsAscending = ground arith

between_cores : set cores 5 ≡ 1 ∷ 4 ∷ 5 ∷ 9 ∷ []
unfolding set find search_ints assign copy_up
between_cores = refl

behind_cores : set cores 12 ≡ 1 ∷ 4 ∷ 9 ∷ 12 ∷ []
unfolding set find search_ints assign copy_up
behind_cores = refl
