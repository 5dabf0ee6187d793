-- ===== src/Ethdev/Flow/Rss/Tests.antt =====
-- Runs and instances for the RSS action.
use go_dpdk.Base.{ℕ, ◌≡◌, refl, true, Option, none, some, List, [], ◌∷◌}
use go_dpdk.Common.Allocator.Counter.{Counter, live, counter, counter-IsAllocator, counter_filled}
use go_dpdk.Ethdev.Flow.Rss.{
  Settings, ActionRss, RssConf, zero_conf, World, c_free, allocate, replace, set_queues, set_key,
  set_rest, load_conf, reload, free,
}
use go_dpdk.Ethdev.Flow.Rss.Reloaded.{shown, unset, new_action, reloads}
use go_dpdk.Ethdev.Flow.Rss.Freed.{IsShown, reloads-free}

-- One block is there.
abbrev start : World Counter
start = record { heap = (1, λ x. true); structs = λ p. zero_conf; cells = λ p. [] }

abbrev two_queues : Settings
two_queues = record { func = 0; queues = 3 ∷ 5 ∷ []; key = 7 ∷ []; level = 0; types = 4 }

-- Of no queues, and a longer key.
abbrev no_queues : Settings
no_queues = record { func = 1; queues = []; key = 8 ∷ 9 ∷ []; level = 2; types = 4 }

abbrev conf_after : Option (World Counter × ActionRss) → Option (RssConf × List ℕ)
conf_after none = none
conf_after (some (w, action)) = let c = w.structs action.cptr in some (c, w.cells c.queue)

-- The queues of before are still there.
reloads_run :
    conf_after (reloads counter live 32 start new_action (two_queues ∷ no_queues ∷ []))
    ≡ some (
      record { func = 1; level = 2; types = 4; queue_num = 2; queue = 3; key_len = 2; key = 5 },
      3 ∷ 5 ∷ [],
    )
unfolding reloads reload load_conf allocate set_queues set_key set_rest replace c_free
reloads_run = refl

reloads-free_example :
    (w' : World Counter) × (action : ActionRss) × (w'' : World Counter) × (reloads counter live 32
        start new_action
        (two_queues ∷ no_queues ∷ [])
      ≡ some (w', action))
    × IsShown counter live 32 start.heap w' action.cptr (shown unset (two_queues ∷ no_queues ∷ []))
    × (free counter live 32 w' action ≡ some w'')
    × ((x : ℕ) → live w''.heap x ≡ live start.heap x)
reloads-free_example =
    reloads-free counter live 32 counter-IsAllocator counter_filled start two_queues
      (no_queues ∷ [])
