-- ===== src/Sniffer/Port/Plan.antt =====
-- The calls that Configure makes, listed beforehand.
use go_dpdk.Base.{
  ℕ, zero, suc, ◌+◌, ◌≡◌, refl, sym, ap, ◌∙◌, arith, ltb, u16, if◌then◌else◌, Bool, true, false,
  none, some, List, [], ◌∷◌, ◌++◌,
}
use mathlib.Core.Path.{fun_ext}
use mathlib.Core.List.{append_assoc, append-nil}
use go_dpdk.Sniffer.Port.{
  Call, info_get, register_callback_lsc, dev_configure, promisc_enable, get_rx_mempool, rxq_setup,
  txq_setup, hairpin_queue_setup, ethdev_call, Answers, EthdevConfig, Trace, rx_loop, tx_loop,
  hook_loop, configure_hairpin, configure,
}

unfoldable pub rx_plan : ℕ → ℕ → List Call
rx_plan zero qid = []
rx_plan (suc rounds) qid = get_rx_mempool qid ∷ rxq_setup qid ∷ rx_plan rounds (qid + 1)

unfoldable pub tx_plan : ℕ → ℕ → List Call
tx_plan zero qid = []
tx_plan (suc rounds) qid = txq_setup qid ∷ tx_plan rounds (qid + 1)

unfoldable pub hook_plan : ℕ → ℕ → List Call
hook_plan zero i = []
hook_plan (suc rounds) i = ethdev_call i ∷ hook_plan rounds (i + 1)

-- The calls of Configure where none fails that is checked.
unfoldable pub plan : EthdevConfig → Bool → List Call
unfolding rx_plan tx_plan hook_plan
plan conf is_lsc =
    info_get ∷ (if is_lsc then register_callback_lsc ∷ [] else [])
    ++ (dev_configure (u16 (conf.rx_queues + conf.hairpin_queues))
          (u16 (conf.tx_queues + conf.hairpin_queues)) is_lsc
        ∷ promisc_enable
        ∷ (rx_plan conf.rx_queues 0
            ++ (tx_plan conf.tx_queues 0
                ++ ((if ltb 0 conf.hairpin_queues
                      then hairpin_queue_setup conf.rx_queues conf.tx_queues conf.hairpin_queues
                        ∷ []
                      else [])
                    ++ hook_plan conf.hooks 0))))

-- Configure heeds the error of the call.
abbrev pub is_heeded : Call → Bool
is_heeded register_callback_lsc = false
is_heeded (hairpin_queue_setup a b c) = false
is_heeded _ = true

module _ (answers : Answers) where
  -- Make the calls of a plan until one fails that is heeded.
  unfoldable pub run : List Call → (List Call → Trace) → List Call → Trace
  run [] next made = next made
  run (c ∷ cs) next made =
      let rest = run cs next (made ++ c ∷ []) in
      elim (answers c) [
        | none ↦ rest
        | some e ↦ if is_heeded c then (made ++ c ∷ [], some e) else rest
      ]

  run-append :
      (xs ys : List Call) (next : List Call → Trace) (made : List Call)
      → run (xs ++ ys) next made ≡ run xs (run ys next) made
  unfolding run
  run-append [] ys next made = refl
  run-append (c ∷ xs) ys next made = ground (arith, run-append xs ys next (made ++ c ∷ []))

  rx_loop-run :
      (rounds qid : ℕ) (next : List Call → Trace) (made : List Call)
      → rx_loop answers rounds qid next made ≡ run (rx_plan rounds qid) next made
  unfolding rx_loop run rx_plan
  rx_loop-run zero qid next made = refl
  rx_loop-run (suc rounds) qid next made = ground (
    arith,
    rx_loop-run rounds (qid + 1) next ((made ++ get_rx_mempool qid ∷ []) ++ rxq_setup qid ∷ []),
  )

  tx_loop-run :
      (rounds qid : ℕ) (next : List Call → Trace) (made : List Call)
      → tx_loop answers rounds qid next made ≡ run (tx_plan rounds qid) next made
  unfolding tx_loop run tx_plan
  tx_loop-run zero qid next made = refl
  tx_loop-run (suc rounds) qid next made =
      ground (arith, tx_loop-run rounds (qid + 1) next (made ++ txq_setup qid ∷ []))

  hook_loop-run :
      (rounds i : ℕ) (made : List Call)
      → hook_loop answers rounds i made ≡ run (hook_plan rounds i) (λ done. (done, none)) made
  unfolding hook_loop run hook_plan
  hook_loop-run zero i made = refl
  hook_loop-run (suc rounds) i made =
      ground (arith, hook_loop-run rounds (i + 1) (made ++ ethdev_call i ∷ []))

  abbrev finished : List Call → Trace
  finished made = (made, none)

  tail_plan : EthdevConfig → List Call
  tail_plan conf =
      (if ltb 0 conf.hairpin_queues
        then hairpin_queue_setup conf.rx_queues conf.tx_queues conf.hairpin_queues ∷ []
        else [])
      ++ hook_plan conf.hooks 0

  hairpin-run :
      (conf : EthdevConfig) (made : List Call)
      → configure_hairpin answers conf made ≡ run (tail_plan conf) finished made
  unfolding configure_hairpin run tail_plan
  hairpin-run conf made = ground (
    arith,
    hook_loop-run conf.hooks 0 made,
    hook_loop-run conf.hooks 0
        (made ++ hairpin_queue_setup conf.rx_queues conf.tx_queues conf.hairpin_queues ∷ []),
  )

  queues_plan : EthdevConfig → List Call
  unfolding tail_plan
  queues_plan conf = rx_plan conf.rx_queues 0 ++ (tx_plan conf.tx_queues 0 ++ tail_plan conf)

  transmit-run :
      (conf : EthdevConfig) (made : List Call)
      → tx_loop answers conf.tx_queues 0 (configure_hairpin answers conf) made
        ≡ run (tx_plan conf.tx_queues 0 ++ tail_plan conf) finished made
  transmit-run conf made =
      tx_loop-run conf.tx_queues 0 (configure_hairpin answers conf) made
      ∙ ap (λ (next : List Call → Trace). run (tx_plan conf.tx_queues 0) next made)
          (fun_ext (λ m. hairpin-run conf m))
      ∙ sym (run-append (tx_plan conf.tx_queues 0) (tail_plan conf) finished made)

  queues-run :
      (conf : EthdevConfig) (made : List Call)
      → rx_loop answers conf.rx_queues 0
          (tx_loop answers conf.tx_queues 0 (configure_hairpin answers conf))
          made
        ≡ run (queues_plan conf) finished made
  unfolding queues_plan
  queues-run conf made =
      rx_loop-run conf.rx_queues 0
        (tx_loop answers conf.tx_queues 0 (configure_hairpin answers conf)) made
      ∙ ap (λ (next : List Call → Trace). run (rx_plan conf.rx_queues 0) next made)
          (fun_ext (λ m. transmit-run conf m))
      ∙ sym (
          run-append (rx_plan conf.rx_queues 0) (tx_plan conf.tx_queues 0 ++ tail_plan conf)
            finished made)

  configure-run :
      (conf : EthdevConfig) (is_lsc : Bool)
      → configure answers conf is_lsc ≡ run (plan conf is_lsc) finished []
  unfolding configure run plan queues_plan tail_plan
  configure-run conf true = ground (
    arith,
    queues-run conf (
        ((([] ++ info_get ∷ []) ++ register_callback_lsc ∷ [])
          ++ dev_configure (u16 (conf.rx_queues + conf.hairpin_queues))
              (u16 (conf.tx_queues + conf.hairpin_queues)) true
            ∷ [])
        ++ promisc_enable ∷ []),
  )
  configure-run conf false = ground (
    arith,
    queues-run conf (
        (([] ++ info_get ∷ [])
          ++ dev_configure (u16 (conf.rx_queues + conf.hairpin_queues))
              (u16 (conf.tx_queues + conf.hairpin_queues)) false
            ∷ [])
        ++ promisc_enable ∷ []),
  )

  -- No call of the list fails that is heeded.
  abbrev pub NoneFails : List Call → Type 0
  NoneFails [] = Unit
  NoneFails (c ∷ cs) = (is_heeded c ≡ true → answers c ≡ none) × NoneFails cs

  run-round :
      (c : Call) (cs made : List Call)
      → (run (c ∷ cs) finished made).1 ≡ none
      → (is_heeded c ≡ true → answers c ≡ none)
        × (run (c ∷ cs) finished made ≡ run cs finished (made ++ c ∷ []))
  unfolding run
  run-round c cs made e = (λ h. ground arith, ground arith)

  run-none :
      (cs made : List Call)
      → (run cs finished made).1 ≡ none
      → NoneFails cs × ((run cs finished made).0 ≡ made ++ cs)
  unfolding run
  run-none [] made e = (tt, sym (append-nil made))
  run-none (c ∷ cs) made e =
      let (quiet, same) = run-round c cs made e in
      let (later, all) = run-none cs (made ++ c ∷ []) (sym (ap (λ (t : Trace). t.1) same) ∙ e) in
      ((quiet, later), ap (λ (t : Trace). t.0) same ∙ all ∙ append_assoc made (c ∷ []) cs)

  run-all : (cs made : List Call) → NoneFails cs → (run cs finished made).1 ≡ none
  unfolding run
  run-all [] made h = refl
  run-all (c ∷ cs) made h = ground (arith, h.0, run-all cs (made ++ c ∷ []) h.1)

  -- Configure returns nil exactly when every call of the plan succeeds, but for the registration
  -- of the LSC callback and the hairpin setup, and then it has made the calls of the plan, in
  -- order: each receive queue after its mempool, then the transmit queues, then the hooks.
  pub configure-plan :
      (conf : EthdevConfig) (is_lsc : Bool)
      → ((configure answers conf is_lsc).1 ≡ none
          → NoneFails (plan conf is_lsc) × ((configure answers conf is_lsc).0 ≡ plan conf is_lsc))
        × (NoneFails (plan conf is_lsc) → (configure answers conf is_lsc).1 ≡ none)
  configure-plan conf is_lsc =
      rw (configure-run conf is_lsc) (run-none (plan conf is_lsc) [], run-all (plan conf is_lsc) [])
