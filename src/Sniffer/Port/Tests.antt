-- ===== src/Sniffer/Port/Tests.antt =====
-- A port on which the hairpin setup fails.
use go_dpdk.Base.{◌≡◌, refl, true, none, some}
use go_dpdk.Sniffer.Port.{hairpin_queue_setup, Answers, EthdevConfig, configure}
use go_dpdk.Sniffer.Port.Plan.{plan, NoneFails, configure-plan}

abbrev answers : Answers
answers (hairpin_queue_setup a b c) = some 22
answers _ = none

abbrev conf : EthdevConfig
conf = record { rx_queues = 2; tx_queues = 1; hairpin_queues = 1; hooks = 1 }

configure-plan_example :
    ((configure answers conf true).1 ≡ none
      → NoneFails answers (plan conf true) × ((configure answers conf true).0 ≡ plan conf true))
    × (NoneFails answers (plan conf true) → (configure answers conf true).1 ≡ none)
configure-plan_example = configure-plan answers conf true

hairpin_dropped : (configure answers conf true).1 ≡ none
unfolding configure
hairpin_dropped = refl
