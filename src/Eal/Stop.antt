-- ===== src/Eal/Stop.antt =====
-- StopLcores ends every core and returns.
use go_dpdk.Base.{
  ℕ, zero, suc, ◌+◌, ◌-◌, ◌<◌, ◌≡◌, ◌≢◌, refl, ap, ◌∙◌, arith, Bool, true, false, Option, some,
  none, List, [], ◌∷◌, ◌++◌, length, ltb, ◌==◌, if◌then◌else◌, Bool-cases, inl, inr,
}
use go_dpdk.Eal.{
  Error, no_error, LcoreCtx, LcoreJob, Replies, reply, Loop, Channels, lcore_jobs_buffer,
  exec_on_lcore_async, stop_job, stop_lcores, receive_all, lcore_func_listener, panic_catcher,
  and_send, stop_capacity, can_reply,
}
use go_dpdk.Eal.Listener.{context_after, replies_of, AreGoing, listener_stop, AreTaken}

-- How many of the replies are on the channel.
pub count_on : ℕ → Replies → ℕ
count_on ch [] = 0
count_on ch ((c, e) ∷ rs) = if c == ch then suc (count_on ch rs) else count_on ch rs

count_on-append :
    (ch : ℕ) (rs ts : Replies) → count_on ch (rs ++ ts) ≡ count_on ch rs + count_on ch ts
unfolding count_on
count_on-append ch [] ts = omega arith
count_on-append ch ((c, e) ∷ rs) ts = ground (arith, count_on-append ch rs ts)

-- The loop that receives ends where as many replies have arrived as it waits for.
receive_all-count_on :
    (ch rounds : ℕ) (rs : Replies)
    → count_on ch rs ≡ rounds
    → (left : Replies) × (receive_all ch rounds rs ≡ some left)
unfolding receive_all count_on
receive_all-count_on ch zero rs e = (rs, refl)
receive_all-count_on ch (suc rounds) [] e = absurd (omega arith)
receive_all-count_on ch (suc rounds) ((c, e') ∷ rs) e = elim (Bool-cases (c == ch)) [
  | inl ours ↦ rw (receive_all, ours) (receive_all-count_on ch rounds rs (ground (arith, ours)))
  | inr other ↦
      rw (receive_all, other) (receive_all-count_on ch (suc rounds) rs (ground (arith, other)))
]

-- The core is not in the list.
abbrev pub IsAbsent : ℕ → List ℕ → Type 0
IsAbsent id [] = Unit
IsAbsent id (x ∷ xs) = (id ≢ x) × IsAbsent id xs

fresh_reply : (ch : ℕ) (ret : Option ℕ) (e : Error) → ret ≢ some ch → count_on ch (reply ret e) ≡ 0
unfolding count_on
fresh_reply ch none e other = refl
fresh_reply ch (some c) e other = elim (Bool-cases (c == ch)) [
  | inl ours ↦ absurd (other (ap some (ground (arith, ours))))
  | inr off ↦ rw off refl
]

stop_counted : (ch : ℕ) → count_on ch ((ch, no_error) ∷ []) ≡ 1
unfolding count_on
stop_counted ch = ground arith

module _ (ch : ℕ) where
  -- Which channels take a result: that of the stop, where there is room after the answers of all
  -- other cores, and what `takes` says of the others.
  abbrev pub stop_takes : (lcores : List ℕ) → (takes : ℕ → Bool) → ℕ → Bool
  stop_takes lcores takes c =
      if c == ch then ltb (length lcores - 1) (stop_capacity lcores) else takes c

  other_taken :
      (lcores : List ℕ) (takes : ℕ → Bool) (ret : Option ℕ)
      → ret ≢ some ch
      → can_reply takes ret ≡ true
      → can_reply (stop_takes lcores takes) ret ≡ true
  other_taken lcores takes none other h = refl
  other_taken lcores takes (some c) other h =
      let off : (c == ch) ≡ false = elim (Bool-cases (c == ch)) [
        | inl ours ↦ absurd (other (ap some (ground (arith, ours))))
        | inr off ↦ off
      ] in
      rw off h

  stop_free :
      (lcores : List ℕ) (takes : ℕ → Bool) → 0 < length lcores → stop_takes lcores takes ch ≡ true
  unfolding stop_capacity
  stop_free lcores takes some_core =
      let ours : (ch == ch) ≡ true = ground arith in
      let room : ltb (length lcores - 1) (length lcores) ≡ true = ground (arith, some_core) in
      rw (ours, room) refl

module _ {V : Type 0} (ch : ℕ) where
  -- The functions that wait answer on other channels.
  abbrev pub IsFresh : List (LcoreJob V) → Type 0
  IsFresh [] = Unit
  IsFresh (job ∷ jobs) = (job.ret ≢ some ch) × IsFresh jobs

  fresh_replies :
      (ctx : LcoreCtx V) (jobs : List (LcoreJob V))
      → IsFresh jobs
      → count_on ch (replies_of ctx jobs) ≡ 0
  unfolding count_on
  fresh_replies ctx [] h = refl
  fresh_replies ctx (job ∷ jobs) (other, h) =
      count_on-append ch (reply job.ret (panic_catcher job.fn ctx).1)
        (replies_of (panic_catcher job.fn ctx).0 jobs)
      ∙ omega (
        arith,
        fresh_reply ch job.ret (panic_catcher job.fn ctx).1 other,
        fresh_replies (panic_catcher job.fn ctx).0 jobs h,
      )

  -- Each core is there once, its channel has room, and what waits there neither ends the loop nor
  -- answers on the channel of the stop, and answers only where the answer is taken.
  abbrev pub AreReady : (takes : ℕ → Bool) → Channels V → (ℕ → LcoreCtx V) → List ℕ → Type 0
  AreReady takes chans ctxs [] = Unit
  AreReady takes chans ctxs (id ∷ ids) =
      (jobs : List (LcoreJob V)) × (chans id ≡ some jobs)
      × (length jobs < lcore_jobs_buffer)
      × AreGoing (ctxs id) jobs
      × IsFresh jobs
      × AreTaken takes jobs
      × IsAbsent id ids
      × AreReady takes chans ctxs ids

  -- The loop of each core ends, with nothing left in its channel, having sent `sent` in all.
  abbrev pub AllEnd : (takes : ℕ → Bool) → Channels V → (ℕ → LcoreCtx V) → List ℕ → Replies → Type 0
  AllEnd takes chans ctxs [] sent = sent ≡ []
  AllEnd takes chans ctxs (id ∷ ids) sent =
      (waiting : List (LcoreJob V)) × (l : Loop V) × (rest : Replies) × (chans id ≡ some waiting)
      × (lcore_func_listener true takes (ctxs id) waiting ≡ some l)
      × (l.ended ≡ true)
      × (l.waiting ≡ [])
      × (l.hangs ≡ false)
      × (sent ≡ l.replies ++ rest)
      × AllEnd takes chans ctxs ids rest

  abbrev put : Channels V → ℕ → List (LcoreJob V) → Channels V
  put chans id jobs x = if x == id then some jobs else chans x

  sent_to :
      (takes : ℕ → Bool) (chans : Channels V) (id : ℕ) (jobs : List (LcoreJob V))
      → chans id ≡ some jobs
      → length jobs < lcore_jobs_buffer
      → exec_on_lcore_async takes chans id (some ch) (stop_job ch).fn
        ≡ some (put chans id (jobs ++ (stop_job ch ∷ [])), [])
  unfolding exec_on_lcore_async stop_job
  sent_to takes chans id jobs at room =
      let fits : ltb (length jobs) lcore_jobs_buffer ≡ true = ground (arith, room) in
      rw (at, fits) refl

  put-AreReady :
      (takes : ℕ → Bool) (chans : Channels V) (ctxs : ℕ → LcoreCtx V) (id : ℕ)
      (new : List (LcoreJob V)) (ids : List ℕ)
      → IsAbsent id ids
      → AreReady takes chans ctxs ids
      → AreReady takes (put chans id new) ctxs ids
  put-AreReady takes chans ctxs id new [] absent h = tt
  put-AreReady takes chans ctxs id new (x ∷ ids) (other, absent)
        (jobs, at, room, going, fresh, taken, once, h) =
      (
        jobs,
        ground (arith, at),
        room,
        going,
        fresh,
        taken,
        once,
        put-AreReady takes chans ctxs id new ids absent h,
      )

  both_sent :
      (next : Channels V → Option (Channels V × Replies)) (o : Option (Channels V × Replies))
      (chans chans' : Channels V)
      → o ≡ some (chans, [])
      → next chans ≡ some (chans', [])
      → and_send next o ≡ some (chans', [])
  both_sent next o chans chans' p q = ap (and_send next) p ∙ rw (and_send, q) refl

  put_ne :
      (chans : Channels V) (id x : ℕ) (new : List (LcoreJob V))
      → id ≢ x
      → put chans x new id ≡ chans id
  put_ne chans id x new other = ground arith

  put_self : (chans : Channels V) (x : ℕ) (new : List (LcoreJob V)) → put chans x new x ≡ some new
  put_self chans x new = ground arith

  all_sent :
      (takes : ℕ → Bool) (lcores : List ℕ) (chans : Channels V) (ctxs : ℕ → LcoreCtx V)
      → (0 < length lcores → takes ch ≡ true)
      → AreReady takes chans ctxs lcores
      → (chans' : Channels V) × (sent : Replies) × (stop_lcores takes ch lcores chans
          ≡ some (chans', []))
        × ((id : ℕ) → IsAbsent id lcores → chans' id ≡ chans id)
        × AllEnd takes chans' ctxs lcores sent
        × (count_on ch sent ≡ length lcores)
  unfolding stop_lcores count_on
  all_sent takes [] chans ctxs free ready = (chans, [], refl, λ id absent. refl, refl, refl)
  all_sent takes (x ∷ lcores) chans ctxs free (jobs, at, room, going, fresh, taken, once, ready) =
      let room_left = free (omega arith) in
      let waiting = jobs ++ (stop_job ch ∷ []) in
      let chans1 = put chans x waiting in
      let replies = replies_of (ctxs x) jobs ++ ((ch, no_error) ∷ []) in
      let (chans2, rest, sends, keeps, ends, count) =
        all_sent takes lcores chans1 ctxs (λ more. room_left)
          (put-AreReady takes chans ctxs x waiting lcores once ready) in
      (
        chans2,
        replies ++ rest,
        both_sent (stop_lcores takes ch lcores)
            (exec_on_lcore_async takes chans x (some ch) (stop_job ch).fn) chans1 chans2
            (sent_to takes chans x jobs at room) sends,
        λ id absent. keeps id absent.1 ∙ put_ne chans id x waiting absent.0,
        (
          waiting,
          record {
            ctx = record (context_after (ctxs x) jobs) { done = true };
            waiting = [];
            replies = replies;
            ended = true;
            hangs = false;
          },
          rest,
          keeps x once ∙ put_self chans x waiting,
          listener_stop takes (ctxs x) jobs [] ch going taken room_left,
          refl,
          refl,
          refl,
          refl,
          ends,
        ),
        count_on-append ch replies rest
            ∙ omega (
              arith,
              count,
              count_on-append ch (replies_of (ctxs x) jobs) ((ch, no_error) ∷ []),
              fresh_replies (ctxs x) jobs fresh,
              stop_counted ch,
            ),
      )

  AreTaken-stop :
      (lcores : List ℕ) (takes : ℕ → Bool) (jobs : List (LcoreJob V))
      → IsFresh jobs
      → AreTaken takes jobs
      → AreTaken (stop_takes ch lcores takes) jobs
  AreTaken-stop lcores takes [] fresh h = tt
  AreTaken-stop lcores takes (job ∷ jobs) (other, fresh) (now, h) =
      (other_taken ch lcores takes job.ret other now, AreTaken-stop lcores takes jobs fresh h)

  AreReady-stop :
      (lcores : List ℕ) (takes : ℕ → Bool) (chans : Channels V) (ctxs : ℕ → LcoreCtx V)
      (ids : List ℕ)
      → AreReady takes chans ctxs ids
      → AreReady (stop_takes ch lcores takes) chans ctxs ids
  AreReady-stop lcores takes chans ctxs [] h = tt
  AreReady-stop lcores takes chans ctxs (x ∷ ids) (jobs, at, room, going, fresh, taken, once, h) = (
    jobs,
    at,
    room,
    going,
    fresh,
    AreTaken-stop lcores takes jobs fresh taken,
    once,
    AreReady-stop lcores takes chans ctxs ids h,
  )

  -- With `PanicAsErr`, where every core is there once, its channel has room, and what waits there
  -- neither ends its loop nor answers on the channel of the stop, and answers only on channels that
  -- take the answer, by their room or by a receiver: StopLcores sends a stop to each core; the loop
  -- of each core ends, without hanging in a send and with nothing left in its channel, even where
  -- the answers of all other cores to the stop have arrived before its own; and in whatever order
  -- the answers of the cores arrive, StopLcores receives as many as there are cores and returns.
  pub stop_lcores-ends :
      (takes : ℕ → Bool) (lcores : List ℕ) (chans : Channels V) (ctxs : ℕ → LcoreCtx V)
      → AreReady takes chans ctxs lcores
      → (chans' : Channels V) × (sent : Replies) × (stop_lcores
            (stop_takes ch lcores takes)
            ch
            lcores
            chans
          ≡ some (chans', []))
        × AllEnd (stop_takes ch lcores takes) chans' ctxs lcores sent
        × (count_on ch sent ≡ length lcores)
        × ((arrived : Replies)
            → count_on ch arrived ≡ count_on ch sent
            → (left : Replies) × (receive_all ch (length lcores) arrived ≡ some left))
  stop_lcores-ends takes lcores chans ctxs ready =
      let (chans', sent, sends, keeps, ends, count) =
        all_sent (stop_takes ch lcores takes) lcores chans ctxs (stop_free ch lcores takes)
          (AreReady-stop lcores takes chans ctxs lcores ready) in
      (
        chans',
        sent,
        sends,
        ends,
        count,
        λ arrived same. receive_all-count_on ch (length lcores) arrived (same ∙ count),
      )
