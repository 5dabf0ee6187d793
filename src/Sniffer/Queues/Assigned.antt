-- ===== src/Sniffer/Queues/Assigned.antt =====
-- Every queue has a core.
use go_dpdk.Base.{
  ℕ, ◌≤◌, ◌≡◌, ◌⊎◌, inl, inr, refl, arith, Bool-cases, List, [], ◌∷◌, Option, none, some, length,
  ltb, ◌==◌, ℤ, pos, negsuc,
}
use go_dpdk.Sniffer.Queues.{
  Error, Result, ok, failed, Table, LcoreMap, dissect_lcores, distribute_on, distribute_at,
  distribute_queues_port, distribute_loop, distribute_queues,
}
use go_dpdk.Sniffer.Queues.Ready.{IsDistinct, IsReady, IsKept, IsServed, assign_loop-IsServed}
use go_dpdk.Sniffer.Queues.Dissected.{dissect_lcores-IsReady}

module _ (lcore_to_socket : ℕ → ℕ) where
  module _ (nb_rx_queues : ℕ → Option ℕ) (socket_id : ℕ → ℤ) where
    -- All receive queues of the port have cores on the port's socket.
    abbrev pub IsPortServed : ℕ → Table → Type 0
    IsPortServed pid table =
        (socket nrx : ℕ) × (nb_rx_queues pid ≡ some nrx)
        × (socket_id pid ≡ pos socket)
        × IsServed lcore_to_socket pid socket 0 nrx table

    -- What a port's turn comes to.
    abbrev IsTurn : (pid : ℕ) → Table → Result (Option (LcoreMap × Table)) → Type 0
    IsTurn pid table r =
        ((e : Error) × (r ≡ failed e))
        ⊎ ((map' : LcoreMap) × (table' : Table) × (r ≡ ok (some (map', table')))
            × IsReady lcore_to_socket map' table'
            × IsKept table table'
            × IsPortServed pid table')

    distribute_on-IsTurn :
        (pid socket nrx : ℕ) (map : LcoreMap) (table : Table) (lcores : Option (List ℕ))
        → nb_rx_queues pid ≡ some nrx
        → socket_id pid ≡ pos socket
        → map socket ≡ lcores
        → IsReady lcore_to_socket map table
        → IsTurn pid table (distribute_on pid socket nrx map table lcores)
    unfolding distribute_on
    distribute_on-IsTurn pid socket nrx map table none info at here r =
        inl (Error.err_not_exist, refl)
    distribute_on-IsTurn pid socket nrx map table (some l) info at here r =
        elim (Bool-cases (nrx == 0)) [
          | inl closed ↦ inl (Error.err_closed, rw closed)
          | inr open_port ↦ elim (Bool-cases (ltb (length l) nrx)) [
            | inl few ↦ inl (Error.cannot_run, rw (open_port, few))
            | inr enough ↦
                let le : nrx ≤ length l = ground arith in
                let (map', table', run, ready, kept, served) =
                  assign_loop-IsServed lcore_to_socket pid socket nrx 0 l map table here r le in
                inr (
                  map',
                  table',
                  rw (open_port, enough, run),
                  ready,
                  kept,
                  (socket, nrx, info, at, λ q lo hi. served q lo (omega arith)),
                )
          ]
        ]

    distribute_at-IsTurn :
        (pid nrx : ℕ) (map : LcoreMap) (table : Table) (socket : ℤ)
        → nb_rx_queues pid ≡ some nrx
        → socket_id pid ≡ socket
        → IsReady lcore_to_socket map table
        → IsTurn pid table (distribute_at pid nrx map table socket)
    unfolding distribute_at
    distribute_at-IsTurn pid nrx map table (negsuc k) info at r = inl (Error.err_invalid, refl)
    distribute_at-IsTurn pid nrx map table (pos socket) info at r =
        distribute_on-IsTurn pid socket nrx map table (map socket) info at refl r

    distribute_queues_port-IsTurn :
        (pid : ℕ) (info : Option ℕ) (map : LcoreMap) (table : Table)
        → nb_rx_queues pid ≡ info
        → IsReady lcore_to_socket map table
        → IsTurn pid table (distribute_queues_port info (socket_id pid) pid map table)
    unfolding distribute_queues_port
    distribute_queues_port-IsTurn pid none map table info r = inl (Error.info_failed, refl)
    distribute_queues_port-IsTurn pid (some nrx) map table info r =
        distribute_at-IsTurn pid nrx map table (socket_id pid) info refl r

    -- All ports of a list are served.
    abbrev pub ArePortsServed : List ℕ → Table → Type 0
    ArePortsServed [] table = Unit
    ArePortsServed (pid ∷ ports) table = IsPortServed pid table × ArePortsServed ports table

    IsPortServed-kept :
        (pid : ℕ) (table table' : Table)
        → IsKept table table'
        → IsPortServed pid table
        → IsPortServed pid table'
    IsPortServed-kept pid table table' kept (socket, nrx, info, at, served) = (
      socket,
      nrx,
      info,
      at,
      λ q lo hi. let (x, on, has) = served q lo hi in (x, on, kept x _ has),
    )

    -- What the loop over the ports comes to.
    abbrev IsLoop : List ℕ → Table → Result (Option Table) → Type 0
    IsLoop ports table r =
        ((e : Error) × (r ≡ failed e))
        ⊎ ((table' : Table) × (r ≡ ok (some table'))
            × IsKept table table'
            × ArePortsServed ports table')

    distribute_loop-IsLoop :
        (ports : List ℕ) (map : LcoreMap) (table : Table)
        → IsReady lcore_to_socket map table
        → IsLoop ports table (distribute_loop nb_rx_queues socket_id ports map table)
    unfolding distribute_loop
    distribute_loop-IsLoop [] map table r = inr (table, refl, λ x q e. e, tt)
    distribute_loop-IsLoop (pid ∷ ports) map table r =
        elim (distribute_queues_port-IsTurn pid (nb_rx_queues pid) map table refl r) [
          | inl (e, run) ↦ inl (e, rw run)
          | inr (map', table', run, ready, kept, served) ↦
              elim (distribute_loop-IsLoop ports map' table' ready) [
                | inl (e, rest) ↦ inl (e, rw (run, rest))
                | inr (table'', rest, kept', served') ↦ inr (
                  table'',
                  rw (run, rest),
                  λ x q e. kept' x q (kept x q e),
                  (IsPortServed-kept pid table' table'' kept' served, served'),
                )
              ]
        ]

  module _ (nb_rx_queues : ℕ → Option ℕ) (socket_id : ℕ → ℤ) where
    -- Where the cores are distinct, `DistributeQueues` returns an error or a table in which every
    -- receive queue of every port has a core on the socket of the port; it never panics.
    pub distribute_queues-ArePortsServed :
        (ports lcores : List ℕ)
        → IsDistinct lcores
        → ((e : Error) × (distribute_queues nb_rx_queues socket_id lcore_to_socket ports lcores
              ≡ failed e))
          ⊎ ((table : Table) × (distribute_queues nb_rx_queues socket_id lcore_to_socket ports
                  lcores
                ≡ ok (some table))
              × ArePortsServed nb_rx_queues socket_id ports table)
    unfolding distribute_queues
    distribute_queues-ArePortsServed ports lcores distinct =
        elim (distribute_loop-IsLoop nb_rx_queues socket_id ports
          (dissect_lcores lcore_to_socket lcores) (λ _. none)
          (dissect_lcores-IsReady lcore_to_socket lcores distinct)) [
            | inl failure ↦ inl failure
            | inr (table, run, kept, served) ↦ inr (table, run, served)
          ]
