-- ===== src/Sniffer/Queues.antt =====
-- app/test-sniffer/lcores.go: the assignment of receive queues to logical cores. What DPDK says of
-- ports and cores is a parameter.
pub mod Ready
mod Dissected
pub mod Assigned
mod Tests
use go_dpdk.Base.{
  ℕ, zero, suc, ◌+◌, Bool, true, false, List, [], ◌∷◌, ◌++◌, Option, none, some, length, ltb, ◌==◌,
  if◌then◌else◌, ℤ, pos, negsuc,
}

-- The errors: what `InfoGet` returns, os.ErrInvalid, os.ErrNotExist, os.ErrClosed, and the one that
-- is made for too few cores.
pub data Error : Type 0 where
  info_failed : Error
  err_invalid : Error
  err_not_exist : Error
  err_closed : Error
  cannot_run : Error

pub data Result {ℓ} (A : Type ℓ) : Type ℓ where
  ok : A → Result A
  failed : Error → Result A

pub record PortQueue : Type 0 where
  pub pid : ℕ
  pub rx_qid : ℕ
  pub tx_qid : ℕ

-- Maps from cores to queues, and from sockets to cores.
abbrev pub Table : Type 0
Table = ℕ → Option PortQueue

abbrev pub LcoreMap : Type 0
LcoreMap = ℕ → Option (List ℕ)

abbrev pub put {ℓ} : {A : Type ℓ} → (ℕ → Option A) → ℕ → A → (ℕ → Option A)
put map key value k = if k == key then some value else map k

-- The cores of a socket that gets another.
abbrev pub affine_with : Option (List ℕ) → ℕ → List ℕ
affine_with none lcore = lcore ∷ []
affine_with (some affine) lcore = affine ++ (lcore ∷ [])

-- `eal.LcoreToSocket` is the parameter.
module _ (lcore_to_socket : ℕ → ℕ) where
  -- The body of the loop of `dissectLcores`.
  abbrev pub add_lcore : LcoreMap → ℕ → LcoreMap
  add_lcore table lcore =
      let socket = lcore_to_socket lcore in put table socket (affine_with (table socket) lcore)

  unfoldable pub dissect_loop : LcoreMap → List ℕ → LcoreMap
  dissect_loop table [] = table
  dissect_loop table (lcore ∷ lcores) = dissect_loop (add_lcore table lcore) lcores

  unfoldable pub dissect_lcores : List ℕ → LcoreMap
  dissect_lcores lcores = dissect_loop (λ _. none) lcores

-- The loop over the queues from `i` on, with `left` to go; `none` is the panic of `lcores[0]`.
unfoldable pub assign_loop :
    (pid socket left i : ℕ) → List ℕ → LcoreMap → Table → Option (LcoreMap × Table)
assign_loop pid socket zero i lcores map table = some (map, table)
assign_loop pid socket (suc left) i [] map table = none
assign_loop pid socket (suc left) i (lcore ∷ lcores) map table =
    assign_loop pid socket left (i + 1) lcores (put map socket lcores)
      (put table lcore (record { pid = pid; rx_qid = i; tx_qid = 0 }))

-- `distributeQueuesPort` from the lookup of the socket's cores on.
unfoldable pub distribute_on :
    (pid socket nrx : ℕ) → LcoreMap → Table → Option (List ℕ) → Result (Option (LcoreMap × Table))
distribute_on pid socket nrx map table none = failed err_not_exist
distribute_on pid socket nrx map table (some lcores) =
    if nrx == 0
    then failed err_closed
    else if ltb (length lcores) nrx
    then failed cannot_run
    else ok (assign_loop pid socket nrx 0 lcores map table)

-- The same from the test of the socket on.
unfoldable pub distribute_at :
    (pid nrx : ℕ) → LcoreMap → Table → (socket : ℤ) → Result (Option (LcoreMap × Table))
distribute_at pid nrx map table (negsuc _) = failed err_invalid
distribute_at pid nrx map table (pos socket) = distribute_on pid socket nrx map table (map socket)

-- `distributeQueuesPort`, from the result of `InfoGet` on; `socket` is what `SocketID` returns.
unfoldable pub distribute_queues_port :
    (info : Option ℕ) (socket : ℤ) (pid : ℕ) → LcoreMap → Table → Result (Option (LcoreMap × Table))
distribute_queues_port none socket pid map table = failed info_failed
distribute_queues_port (some nrx) socket pid map table = distribute_at pid nrx map table socket

-- What follows a step that neither fails nor panics.
abbrev pub and_then {ℓ ℓ'} :
    {A : Type ℓ} {B : Type ℓ'} → Result (Option A) → (A → Result (Option B)) → Result (Option B)
and_then (failed e) f = failed e
and_then (ok none) f = ok none
and_then (ok (some x)) f = f x

-- The number of receive queues that `InfoGet` reports (`none` where it fails), and `SocketID`.
module _ (nb_rx_queues : ℕ → Option ℕ) (socket_id : ℕ → ℤ) where
  -- The loop over the ports. A panic is `ok none`.
  unfoldable pub distribute_loop : List ℕ → LcoreMap → Table → Result (Option Table)
  distribute_loop [] map table = ok (some table)
  distribute_loop (pid ∷ ports) map table =
      and_then (distribute_queues_port (nb_rx_queues pid) (socket_id pid) pid map table)
        (λ next. distribute_loop ports next.0 next.1)

  unfoldable pub distribute_queues :
      (lcore_to_socket : ℕ → ℕ) → (ports lcores : List ℕ) → Result (Option Table)
  distribute_queues lcore_to_socket ports lcores =
      distribute_loop ports (dissect_lcores lcore_to_socket lcores) (λ _. none)
