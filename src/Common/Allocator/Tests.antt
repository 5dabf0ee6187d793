-- ===== src/Common/Allocator/Tests.antt =====
-- Runs and instances for the session of an allocator.
use go_dpdk.Base.{ℕ, ◌≡◌, refl, arith, true, inl, inr, List, [], ◌∷◌}
use go_dpdk.Common.Set.Insert.{member}
use go_dpdk.Common.Allocator.Counter.{Counter, live, counter, counter-IsAllocator}
use go_dpdk.Common.Allocator.{
  Allocator, plain, session, root_alloc, add_ptr, delete_ptr, malloc, free, realloc, flush,
  new_allocator_session,
}
use go_dpdk.Common.Allocator.Session.{
  Call, to_malloc, to_free, to_realloc, run, AreProper, flush-live,
}

-- One block is there before the session.
abbrev start : Counter
start = (1, λ x. true)

abbrev calls : List Call
calls = to_malloc 8 ∷ to_malloc 8 ∷ to_realloc 2 16 ∷ to_malloc 8 ∷ to_realloc 5 0 ∷ to_free 3 ∷ []

run_ptrs : (run counter (new_allocator_session counter start) calls).ptrs ≡ 0 ∷ 4 ∷ []
unfolding new_allocator_session malloc free realloc add_ptr delete_ptr member
run_ptrs = refl

abbrev nested : Allocator ℕ
nested = session (session (plain 7))

root_run : root_alloc nested ≡ 7
unfolding root_alloc
root_run = refl

proper : AreProper counter (new_allocator_session counter start) calls
unfolding new_allocator_session malloc free realloc add_ptr delete_ptr member
proper = (
  tt,
  (tt, ((refl, omega arith, inl (omega arith)), (tt, ((refl, omega arith, inr refl), (refl, tt))))),
)

flush-live_example :
    ((x : ℕ)
      → live (flush counter (run counter (new_allocator_session counter start) calls)).mem x
        ≡ live start x)
    × ((flush counter (run counter (new_allocator_session counter start) calls)).ptrs ≡ [])
flush-live_example = flush-live counter live counter-IsAllocator start calls proper
