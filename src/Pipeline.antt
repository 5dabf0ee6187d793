-- ===== src/Pipeline.antt =====
-- RunLoop and SimpleController of pipeline/pipeline_loop.go, and the loop of
-- pipeline/pipeline_loop.h under them.
pub mod Flush
pub mod Stopped
mod Tests
use go_dpdk.Base.{
  ℕ, zero, suc, ◌+◌, bit_and, ◌==◌, leb, u32, sub32, if◌then◌else◌, not, ◌||◌, Option, none, some,
  ℤ, pos, negsuc,
}

-- What the controller answers when it is asked in a round; `none` where it is nil.
abbrev pub Control : Type 0
Control = Option (ℕ → ℤ)

-- What the answer makes of the loop: its result, or another round.
abbrev pub after_answer : ℤ → Option ℤ
after_answer (pos zero) = none
after_answer (pos (suc rc)) = some (pos 0)
after_answer (negsuc rc) = some (negsuc rc)

abbrev pub ask : Control → ℕ → Option ℤ
ask none t = none
ask (some ctrl) t = after_answer (ctrl t)

-- One round of run_pipeline_loop with the counter `n`, a uint32, in round `t`.
unfoldable pub loop_round : ℕ → Control → ℕ → ℕ → Option ℤ
loop_round flush ctrl n t =
    if flush == 0 || not (bit_and n (sub32 flush 1) == 0) then none else ask ctrl t

-- The loop, for a number of rounds; `none` if it is still running then.
unfoldable pub pipeline_loop : ℕ → ℕ → Control → ℕ → ℕ → Option ℤ
unfolding loop_round
pipeline_loop zero flush ctrl n t = none
pipeline_loop (suc rounds) flush ctrl n t = elim (loop_round flush ctrl n t) [
  | none ↦ pipeline_loop rounds flush ctrl (u32 (n + 1)) (t + 1)
  | some rc ↦ some rc
]

pub data Run : Type 0 where
  panicked : Run
  running : Run
  returned : ℤ → Run

abbrev pub run_of : Option ℤ → Run
run_of none = running
run_of (some rc) = returned rc

-- RunLoop, looked at after a number of rounds.
unfoldable pub run_loop : ℕ → ℕ → Control → Run
unfolding pipeline_loop
run_loop rounds flush ctrl =
    if not (bit_and flush (sub32 flush 1) == 0)
    then panicked
    else run_of (pipeline_loop rounds flush ctrl 0 0)

-- SimpleController, whose Stop is called before round `stop`: the byte that is read is 1 from
-- there on.
unfoldable pub simple_control : ℕ → Control
simple_control stop = some (λ t. if leb stop t then pos 1 else pos 0)
