-- ===== src/Eal.antt =====
-- eal/eal.go and eal/init.go: functions that run on logical cores.
pub mod Listener
pub mod Stop
mod Tests
use go_dpdk.Base.{
  ℕ, zero, suc, Bool, true, false, not, List, [], ◌∷◌, ◌++◌, Option, none, some, length, ltb, ◌==◌,
  if◌then◌else◌,
}

-- What a channel for results carries: nil, ErrLcorePanic or ErrLcoreInvalid.
pub data Error : Type 0 where
  no_error : Error
  lcore_panic : Error
  lcore_invalid : Error

-- The context of a core: the value of the user, of type `V`, and the signal to end.
pub record LcoreCtx (V : Type 0) : Type 0 where
  pub value : V
  pub done : Bool

-- A function returns or panics; either way it may have changed the context.
pub data Ended (V : Type 0) : Type 0 where
  returned : LcoreCtx V → Ended V
  panicked : LcoreCtx V → Ended V

-- A function to run, and the channel for its result, which may be nil.
pub record LcoreJob (V : Type 0) : Type 0 where
  pub fn : LcoreCtx V → Ended V
  pub ret : Option ℕ

-- What was sent on which channel.
abbrev pub Replies : Type 0
Replies = List (ℕ × Error)

abbrev pub lcore_jobs_buffer : ℕ
lcore_jobs_buffer = 32

-- `ret <- err`, unless the channel is nil.
abbrev pub reply : Option ℕ → Error → Replies
reply none e = []
reply (some ch) e = (ch, e) ∷ []

-- Whether the send of a result comes to an end: `takes` says of a channel that it has room for it,
-- or is received from. Without either, the sender hangs.
abbrev pub can_reply : (takes : ℕ → Bool) → Option ℕ → Bool
can_reply takes none = true
can_reply takes (some ch) = takes ch

-- Where the loop of a core is: its context, the functions that wait in its channel, what it has
-- sent, whether the loop has ended, and whether it hangs in the send of a result.
pub record Loop (V : Type 0) : Type 0 where
  pub ctx : LcoreCtx V
  pub waiting : List (LcoreJob V)
  pub replies : Replies
  pub ended : Bool
  pub hangs : Bool

-- What waits in the channels of the cores that are there.
abbrev pub Channels : Type 0 → Type 0
Channels V = ℕ → Option (List (LcoreJob V))

module _ {V : Type 0} where
  abbrev caught : Ended V → LcoreCtx V × Error
  caught (returned ctx) = (ctx, no_error)
  caught (panicked ctx) = (ctx, lcore_panic)

  unfoldable pub panic_catcher : (LcoreCtx V → Ended V) → LcoreCtx V → LcoreCtx V × Error
  panic_catcher fn ctx = caught (fn ctx)

  -- Without `PanicAsErr` a panic is the end of the process, `none`.
  abbrev uncaught : Ended V → Option (LcoreCtx V × Error)
  uncaught (returned ctx) = some (ctx, no_error)
  uncaught (panicked ctx) = none

  unfoldable pub run_job :
      (panic_as_err : Bool) → LcoreJob V → LcoreCtx V → Option (LcoreCtx V × Error)
  run_job true job ctx = some (panic_catcher job.fn ctx)
  run_job false job ctx = uncaught (job.fn ctx)

  abbrev pub before : Replies → Option (Loop V) → Option (Loop V)
  before sent none = none
  before sent (some l) = some (record l { replies = sent ++ l.replies })

  -- After a function: what it sends comes first, and the loop goes on unless it is to end, or hangs
  -- in the send.
  abbrev pub after_job :
      (takes : ℕ → Bool)
      → LcoreJob V
      → List (LcoreJob V)
      → Option (LcoreCtx V × Error)
      → (LcoreCtx V → Option (Loop V))
      → Option (Loop V)
  after_job takes job jobs none next = none
  after_job takes job jobs (some (ctx, e)) next =
      let sent = reply job.ret e in
      if not (can_reply takes job.ret)
      then some (record { ctx = ctx; waiting = jobs; replies = []; ended = false; hangs = true })
      else if ctx.done
      then some (record { ctx = ctx; waiting = jobs; replies = sent; ended = true; hangs = false })
      else before sent (next ctx)

  -- `lcoreFuncListener` on the functions that wait, until its channel is empty, or it ends or hangs.
  unfoldable pub lcore_func_listener :
      (panic_as_err : Bool) → (takes : ℕ → Bool) → LcoreCtx V → List (LcoreJob V) → Option (Loop V)
  lcore_func_listener flag takes ctx [] =
      some (record { ctx = ctx; waiting = []; replies = []; ended = false; hangs = false })
  lcore_func_listener flag takes ctx (job ∷ jobs) =
      after_job takes job jobs (run_job flag job ctx)
        (λ ctx. lcore_func_listener flag takes ctx jobs)

  -- A send on the channel of a core, which blocks (`none`) when the buffer is full; without such a
  -- core, the send of the error, which may block too.
  abbrev pub send :
      (takes : ℕ → Bool)
      → Channels V
      → ℕ
      → LcoreJob V
      → Option (List (LcoreJob V))
      → Option (Channels V × Replies)
  send takes chans id job none =
      if can_reply takes job.ret then some (chans, reply job.ret lcore_invalid) else none
  send takes chans id job (some waiting) =
      if ltb (length waiting) lcore_jobs_buffer
      then some ((λ x. if x == id then some (waiting ++ (job ∷ [])) else chans x), [])
      else none

  unfoldable pub exec_on_lcore_async :
      (takes : ℕ → Bool)
      → Channels V
      → (lcore_id : ℕ) → Option ℕ
      → (LcoreCtx V → Ended V)
      → Option (Channels V × Replies)
  exec_on_lcore_async takes chans lcore_id ret fn =
      send takes chans lcore_id (record { fn = fn; ret = ret }) (chans lcore_id)

  -- The function that `StopLcores` sends, with its channel.
  unfoldable pub stop_job : (ch : ℕ) → LcoreJob V
  stop_job ch = record { fn = λ ctx. returned (record ctx { done = true }); ret = some ch }

  abbrev pub and_send :
      (Channels V → Option (Channels V × Replies))
      → Option (Channels V × Replies)
      → Option (Channels V × Replies)
  and_send next none = none
  and_send next (some (chans, sent)) = elim (next chans) [
    | none ↦ none
    | some more ↦ some (more.0, sent ++ more.1)
  ]

  -- The first loop of `StopLcores`: the stop is sent to one core after the other.
  unfoldable pub stop_lcores :
      (takes : ℕ → Bool) → (ch : ℕ) → List ℕ → Channels V → Option (Channels V × Replies)
  stop_lcores takes ch [] chans = some (chans, [])
  stop_lcores takes ch (id ∷ lcores) chans =
      and_send (stop_lcores takes ch lcores)
        (exec_on_lcore_async takes chans id (some ch) (stop_job ch).fn)

-- The room in the channel that `StopLcores` makes.
unfoldable pub stop_capacity : (lcores : List ℕ) → ℕ
stop_capacity lcores = length lcores

-- The second loop of `StopLcores`: the rounds left, and what has arrived on all channels. `none` if
-- it still waits.
unfoldable pub receive_all : (ch : ℕ) → ℕ → Replies → Option Replies
receive_all ch zero arrived = some arrived
receive_all ch (suc rounds) [] = none
receive_all ch (suc rounds) ((c, e) ∷ arrived) =
    receive_all ch (if c == ch then rounds else suc rounds) arrived
