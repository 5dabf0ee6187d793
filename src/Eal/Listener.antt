-- ===== src/Eal/Listener.antt =====
-- The loop of a core runs what was sent before the stop, in order.
use go_dpdk.Base.{
  ℕ, Bool, ◌<◌, ◌≡◌, refl, sym, ap, ◌∙◌, arith, true, false, List, [], ◌∷◌, ◌++◌, some, length, ltb,
  ◌==◌, if◌then◌else◌,
}
use mathlib.Core.List.{append_assoc}
use go_dpdk.Eal.{
  no_error, LcoreCtx, LcoreJob, Replies, lcore_jobs_buffer, reply, panic_catcher, run_job, before,
  lcore_func_listener, Channels, exec_on_lcore_async, stop_job, can_reply,
}

module _ {V : Type 0} where
  -- The context after functions have run, and what they have sent.
  abbrev pub context_after : LcoreCtx V → List (LcoreJob V) → LcoreCtx V
  context_after ctx [] = ctx
  context_after ctx (job ∷ jobs) = context_after (panic_catcher job.fn ctx).0 jobs

  abbrev pub replies_of : LcoreCtx V → List (LcoreJob V) → Replies
  replies_of ctx [] = []
  replies_of ctx (job ∷ jobs) =
      reply job.ret (panic_catcher job.fn ctx).1 ++ replies_of (panic_catcher job.fn ctx).0 jobs

  -- None of the functions gives the signal to end.
  abbrev pub AreGoing : LcoreCtx V → List (LcoreJob V) → Type 0
  AreGoing ctx [] = Unit
  AreGoing ctx (job ∷ jobs) =
      ((panic_catcher job.fn ctx).0.done ≡ false) × AreGoing (panic_catcher job.fn ctx).0 jobs

  -- The results that the functions send are taken.
  abbrev pub AreTaken : (takes : ℕ → Bool) → List (LcoreJob V) → Type 0
  AreTaken takes [] = Unit
  AreTaken takes (job ∷ jobs) = (can_reply takes job.ret ≡ true) × AreTaken takes jobs

  stop_last :
      (takes : ℕ → Bool) (ctx : LcoreCtx V) (later : List (LcoreJob V)) (ch : ℕ)
      → takes ch ≡ true
      → lcore_func_listener true takes ctx (stop_job ch ∷ later)
        ≡ some (record {
          ctx = record ctx { done = true };
          waiting = later;
          replies = (ch, no_error) ∷ [];
          ended = true;
          hangs = false;
        })
  unfolding lcore_func_listener run_job stop_job panic_catcher
  stop_last takes ctx later ch free = rw free refl

  pub listener_stop :
      (takes : ℕ → Bool) (ctx : LcoreCtx V) (jobs later : List (LcoreJob V)) (ch : ℕ)
      → AreGoing ctx jobs
      → AreTaken takes jobs
      → takes ch ≡ true
      → lcore_func_listener true takes ctx (jobs ++ (stop_job ch ∷ later))
        ≡ some (record {
          ctx = record (context_after ctx jobs) { done = true };
          waiting = later;
          replies = replies_of ctx jobs ++ ((ch, no_error) ∷ []);
          ended = true;
          hangs = false;
        })
  unfolding lcore_func_listener run_job stop_job
  listener_stop takes ctx [] later ch going taken free = stop_last takes ctx later ch free
  listener_stop takes ctx (job ∷ jobs) later ch (goes, going) (now, taken) free =
      let sent = reply job.ret (panic_catcher job.fn ctx).1 in
      let next = (panic_catcher job.fn ctx).0 in
      let rest = listener_stop takes next jobs later ch going taken free in
      let end : LcoreCtx V = record (context_after next jobs) { done = true } in
      rw (now, goes)
        (ap (before sent) rest
          ∙ ap
              (λ r.
                some
                  (record { ctx = end; waiting = later; replies = r; ended = true; hangs = false }))
              (sym (append_assoc sent (replies_of next jobs) ((ch, no_error) ∷ []))))

  -- With `PanicAsErr`: when the stop is sent to a core whose channel has room and whose waiting
  -- functions do not give the signal to end, and every result is taken by its channel, its loop runs them all, in the order in which they
  -- were sent, sends each result, panics included, then ends and answers on the channel of the
  -- stop.
  pub exec_on_lcore_async-stop :
      (takes : ℕ → Bool) (chans : Channels V) (id ch : ℕ) (ctx : LcoreCtx V)
      (jobs : List (LcoreJob V))
      → chans id ≡ some jobs
      → length jobs < lcore_jobs_buffer
      → AreGoing ctx jobs
      → AreTaken takes jobs
      → takes ch ≡ true
      → (chans' : Channels V) × (waiting : List (LcoreJob V)) × (exec_on_lcore_async takes chans id
            (some ch)
            (stop_job ch).fn
          ≡ some (chans', []))
        × (chans' id ≡ some waiting)
        × (lcore_func_listener true takes ctx waiting
            ≡ some (record {
              ctx = record (context_after ctx jobs) { done = true };
              waiting = [];
              replies = replies_of ctx jobs ++ ((ch, no_error) ∷ []);
              ended = true;
              hangs = false;
            }))
  unfolding exec_on_lcore_async stop_job
  exec_on_lcore_async-stop takes chans id ch ctx jobs at room going taken free =
      let fits : ltb (length jobs) lcore_jobs_buffer ≡ true = ground (arith, room) in
      let here : (id == id) ≡ true = ground arith in
      let waiting = jobs ++ (stop_job ch ∷ []) in
      (
        λ x. if x == id then some waiting else chans x,
        waiting,
        rw (at, fits) refl,
        rw here refl,
        listener_stop takes ctx jobs [] ch going taken free,
      )
