-- ===== src/Eal/Tests.antt =====
-- Runs and instances for the loop of a core.
use go_dpdk.Base.{
  ℕ, suc, ◌≡◌, refl, arith, Bool, true, false, List, [], ◌∷◌, none, some, ◌==◌, if◌then◌else◌,
}
use go_dpdk.Eal.{
  lcore_invalid, LcoreCtx, Ended, returned, panicked, LcoreJob, panic_catcher, run_job,
  lcore_func_listener, Channels, exec_on_lcore_async, Replies, stop_lcores, receive_all,
}
use go_dpdk.Eal.Stop.{count_on, AreReady, AllEnd, stop_takes, stop_lcores-ends}
use go_dpdk.Eal.Listener.{AreGoing}

-- One that counts, and one that counts and panics.
abbrev counts : LcoreCtx ℕ → Ended ℕ
counts ctx = returned (record ctx { value = suc ctx.value })

abbrev fails : LcoreCtx ℕ → Ended ℕ
fails ctx = panicked (record ctx { value = suc ctx.value })

abbrev jobs : List (LcoreJob ℕ)
jobs = record { fn = counts; ret = some 5 } ∷ record { fn = fails; ret = some 6 } ∷ []

abbrev begin : LcoreCtx ℕ
begin = record { value = 0; done = false }

abbrev chans : Channels ℕ
chans x = if x == 3 then some jobs else none

abbrev all : ℕ → Bool
all ch = true

abbrev nobody : ℕ → Bool
nobody ch = false

-- The first function is run, and its result is not taken.
hang_run :
    lcore_func_listener true nobody begin jobs
    ≡ some (record {
      ctx = record { value = 1; done = false };
      waiting = record { fn = fails; ret = some 6 } ∷ [];
      replies = [];
      ended = false;
      hangs = true;
    })
unfolding lcore_func_listener run_job panic_catcher
hang_run = refl

crash_run : lcore_func_listener false all begin jobs ≡ none
unfolding lcore_func_listener run_job
crash_run = refl

invalid_run :
    exec_on_lcore_async all chans 4 (some 9) counts ≡ some (chans, (9, lcore_invalid) ∷ [])
unfolding exec_on_lcore_async
invalid_run = refl

going : AreGoing begin jobs
unfolding panic_catcher
going = (refl, (refl, tt))

-- Two cores, of which one has functions that wait.
abbrev two_chans : Channels ℕ
two_chans x = if x == 3 then some jobs else if x == 4 then some [] else none

abbrev contexts : ℕ → LcoreCtx ℕ
contexts x = begin

two_ready : AreReady 7 all two_chans contexts (3 ∷ 4 ∷ [])
two_ready = (
  jobs,
  refl,
  omega arith,
  going,
  ((λ e. cc, (λ e. cc, tt))),
  (refl, (refl, tt)),
  (λ e. omega arith, tt),
  ([], refl, omega arith, tt, tt, tt, tt, tt),
)

stop_lcores-ends_example :
    (chans' : Channels ℕ) × (sent : Replies) × (stop_lcores
        (stop_takes 7 (3 ∷ 4 ∷ []) all)
        7
        (3 ∷ 4 ∷ [])
        two_chans
      ≡ some (chans', []))
    × AllEnd 7 (stop_takes 7 (3 ∷ 4 ∷ []) all) chans' contexts (3 ∷ 4 ∷ []) sent
    × (count_on 7 sent ≡ 2)
    × ((arrived : Replies)
        → count_on 7 arrived ≡ count_on 7 sent
        → (left : Replies) × (receive_all 7 2 arrived ≡ some left))
stop_lcores-ends_example = stop_lcores-ends 7 all (3 ∷ 4 ∷ []) two_chans contexts two_ready
