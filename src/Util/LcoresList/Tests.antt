-- ===== src/Util/LcoresList/Tests.antt =====
-- Runs and instances for the lists of cores.
use go_dpdk.Base.{ℕ, ◌+◌, ◌≡◌, refl, arith, false, List, [], ◌∷◌}
use go_dpdk.Common.Set.Insert.{member}
use go_dpdk.Util.LcoresList.{
  single, range, ranges, ranges_loop, dup, sort, insert, string, range_str, join, equal, equal_loop,
}
use go_dpdk.Util.LcoresList.Ranges.{contains, ranges-contains}

abbrev cores : List ℕ
cores = 7 ∷ 2 ∷ 1 ∷ 2 ∷ 3 ∷ 9 ∷ 8 ∷ 5 ∷ []

ranges_run : ranges cores ≡ range 1 3 ∷ single 5 ∷ range 7 9 ∷ []
unfolding ranges ranges_loop dup sort insert
ranges_run = refl

-- Numbers of one digit.
string_run : string (λ x. (48 + x) ∷ []) cores ≡ 49 ∷ 45 ∷ 51 ∷ 44 ∷ 53 ∷ 44 ∷ 55 ∷ 45 ∷ 57 ∷ []
unfolding string range_str join ranges ranges_loop dup sort insert
string_run = refl

equal_run : equal (1 ∷ 2 ∷ 2 ∷ []) (2 ∷ 1 ∷ 1 ∷ []) ≡ false
unfolding equal equal_loop dup sort insert
equal_run = refl

ranges-contains_example : contains (ranges cores) 6 ≡ member cores 6
ranges-contains_example =
    ranges-contains cores
      (
        omega arith,
        (
          omega arith,
          (
            omega arith,
            (omega arith, (omega arith, (omega arith, (omega arith, (omega arith, tt))))),
          ),
        ),
      )
      6
