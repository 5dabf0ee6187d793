-- ===== src/Sniffer/Queues/Tests.antt =====
-- Runs and instances for the assignment of queues.
use go_dpdk.Base.{
  ℕ, ◌≡◌, ◌⊎◌, refl, arith, Option, some, none, List, [], ◌∷◌, ◌==◌, if◌then◌else◌, ℤ, pos, negsuc,
}
use go_dpdk.Sniffer.Queues.{
  Error, Result, ok, failed, PortQueue, Table, dissect_lcores, dissect_loop, distribute_loop,
  distribute_queues, distribute_queues_port, distribute_at, distribute_on, assign_loop,
}
use go_dpdk.Sniffer.Queues.Ready.{IsDistinct}
use go_dpdk.Sniffer.Queues.Assigned.{ArePortsServed, distribute_queues-ArePortsServed}

-- Cores 0, 2 and 3 on socket 0, core 1 on socket 1.
abbrev socket_of : ℕ → ℕ
socket_of x = if x == 1 then 1 else 0

abbrev cores : List ℕ
cores = 0 ∷ 1 ∷ 2 ∷ 3 ∷ []

-- Port 0 has two queues on socket 0, the others one; port 2 is on no socket.
abbrev queues_of : ℕ → Option ℕ
queues_of pid = if pid == 0 then some 2 else some 1

abbrev socket_id : ℕ → ℤ
socket_id pid = if pid == 2 then negsuc 0 else pos pid

abbrev at_core : Result (Option Table) → ℕ → Option PortQueue
at_core (ok (some table)) x = table x
at_core _ x = none

abbrev run : List ℕ → Result (Option Table)
run ports = distribute_queues queues_of socket_id socket_of ports cores

two_ports : at_core (run (0 ∷ 1 ∷ [])) 2 ≡ some (record { pid = 0; rx_qid = 1; tx_qid = 0 })
unfolding dissect_lcores dissect_loop distribute_loop distribute_queues distribute_queues_port
    distribute_at distribute_on assign_loop
two_ports = refl

no_socket : run (0 ∷ 2 ∷ []) ≡ failed Error.err_invalid
unfolding dissect_lcores dissect_loop distribute_loop distribute_queues distribute_queues_port
    distribute_at distribute_on assign_loop
no_socket = refl

too_many : run (0 ∷ 0 ∷ []) ≡ failed Error.cannot_run
unfolding dissect_lcores dissect_loop distribute_loop distribute_queues distribute_queues_port
    distribute_at distribute_on assign_loop
too_many = refl

distinct : IsDistinct cores
distinct = (
  (omega arith, (omega arith, (omega arith, tt))),
  ((omega arith, (omega arith, tt)), ((omega arith, tt), (tt, tt))),
)

distribute_queues-ArePortsServed_example :
    ((e : Error) × (run (0 ∷ 1 ∷ []) ≡ failed e))
    ⊎ ((table : Table) × (run (0 ∷ 1 ∷ []) ≡ ok (some table))
        × ArePortsServed socket_of queues_of socket_id (0 ∷ 1 ∷ []) table)
distribute_queues-ArePortsServed_example =
    distribute_queues-ArePortsServed socket_of queues_of socket_id (0 ∷ 1 ∷ []) cores distinct
