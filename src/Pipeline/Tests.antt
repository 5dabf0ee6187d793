-- ===== src/Pipeline/Tests.antt =====
-- Runs of the pipeline loop.
use go_dpdk.Base.{suc, ◌+◌, ◌^◌, ◌≡◌, arith, pos}
use go_dpdk.Pipeline.{run_loop, simple_control, returned}
use go_dpdk.Pipeline.Stopped.{run_loop_stops}

run_loop_stops_example :
    run_loop (suc (5 + 2 ^ 2 + 1)) (2 ^ 2) (simple_control 5) ≡ returned (pos 0)
run_loop_stops_example = run_loop_stops 2 5 1 (omega arith)
