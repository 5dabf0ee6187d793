-- ===== src/Ethdev/Flow/Rss/Freed.antt =====
-- Any number of reloads of one action, and its finalizer.
use go_dpdk.Base.{
  put, put_same, ℕ, ◌≡◌, ◌≢◌, refl, ap, ◌∙◌, arith, Bool, false, some, List, [], ◌∷◌, ◌==◌,
}
use go_dpdk.Common.Allocator.{Ops}
use go_dpdk.Common.Allocator.Session.{IsAllocator}
use go_dpdk.Ethdev.Flow.Rss.{
  Settings, ActionRss, RssConf, zero_conf, World, allocate, set_queues, set_key, set_rest,
  load_conf, reload, free,
}
use go_dpdk.Ethdev.Flow.Rss.Owned.{allocated, released}
use go_dpdk.Ethdev.Flow.Rss.Reloaded.{
  IsArrays, kept, shown, unset, new_action, reloads, of_conf, set_queues_lem, set_key_lem,
  c_free_lem,
}

module _ {S : Type 0} (ops : Ops S) (live : S → ℕ → Bool) (sizeof_conf : ℕ) where
  -- The structure of an action says what `s` says.
  pub record IsShown (start : S) (w : World S) (cptr : ℕ) (s : Settings) : Type 0 where
    pub arrays : IsArrays ops live sizeof_conf start w cptr s.queues s.key
    pub func : (w.structs cptr).func ≡ s.func
    pub level : (w.structs cptr).level ≡ s.level
    pub types : (w.structs cptr).types ≡ s.types

  module _ (a : IsAllocator ops live)
      (filled : (s : S) (size : ℕ) → (ops.malloc s size).1 ≢ 0) where
    set_rest_lem :
        (start : S) (w : World S) (cptr : ℕ) (s t : Settings)
        → IsArrays ops live sizeof_conf start w cptr (kept t.queues s.queues) (kept t.key s.key)
        → IsShown start
            (set_rest ops live sizeof_conf w cptr t)
            cptr
            (record t { queues = kept t.queues s.queues; key = kept t.key s.key })
    unfolding set_rest
    set_rest_lem start w cptr s t h =
        let c = record (w.structs cptr) { level = t.level; types = t.types; func = t.func } in
        let w' : World S = record w { structs = put w.structs cptr c } in
        let e = put_same w.structs cptr c in
        record {
          arrays =
              of_conf ops live sizeof_conf start w' cptr c (kept t.queues s.queues)
                (kept t.key s.key) e h.owned h.is_queues h.is_key;
          func = ap (λ (c : RssConf). c.func) e;
          level = ap (λ (c : RssConf). c.level) e;
          types = ap (λ (c : RssConf). c.types) e;
        }

    load_conf_eq :
        (w1 w2 w3 : World S) (cptr : ℕ) (s : Settings)
        → set_queues ops live sizeof_conf w1 cptr s.queues ≡ some w2
        → set_key ops live sizeof_conf w2 cptr s.key ≡ some w3
        → load_conf ops live sizeof_conf w1 cptr s
          ≡ some (set_rest ops live sizeof_conf w3 cptr s, record { settings = s; cptr = cptr })
    unfolding load_conf
    load_conf_eq w1 w2 w3 cptr s q r = rw (load_conf, q, r) refl

    reload_eq :
        (w w1 : World S) (cptr before : ℕ) (s : Settings)
        → allocate ops live sizeof_conf w before ≡ (w1, cptr)
        → reload ops live sizeof_conf w (record { settings = s; cptr = before })
          ≡ load_conf ops live sizeof_conf w1 cptr s
    unfolding reload
    reload_eq w w1 cptr before s p = rw p refl

    reload_lem :
        (start : S) (w w1 : World S) (cptr before : ℕ) (s t : Settings)
        → allocate ops live sizeof_conf w before ≡ (w1, cptr)
        → IsArrays ops live sizeof_conf start w1 cptr s.queues s.key
        → (w' : World S) × (reload ops live sizeof_conf w (record { settings = t; cptr = before })
            ≡ some (w', record { settings = t; cptr = cptr }))
          × IsShown start w' cptr
              (record t { queues = kept t.queues s.queues; key = kept t.key s.key })
    reload_lem start w w1 cptr before s t e h =
        let (w2, q, h2) =
          set_queues_lem ops live sizeof_conf a filled start w1 cptr t.queues s.queues s.key h in
        let (w3, k, h3) =
          set_key_lem ops live sizeof_conf a filled start w2 cptr t.key (kept t.queues s.queues)
            s.key h2 in
        (
          set_rest ops live sizeof_conf w3 cptr t,
          reload_eq w w1 cptr before t e ∙ load_conf_eq w1 w2 w3 cptr t q k,
          set_rest_lem start w3 cptr s t h3,
        )

    allocate_again :
        (w : World S) (cptr : ℕ) → cptr ≢ 0 → allocate ops live sizeof_conf w cptr ≡ (w, cptr)
    unfolding allocate
    allocate_again w cptr some_cptr =
        let test : (cptr == 0) ≡ false = ground (arith, some_cptr) in rw test refl

    -- The first Reload allocates a structure with no arrays.
    allocate_first :
        (w : World S)
        → (w1 : World S) × (cptr : ℕ) × (allocate ops live sizeof_conf w 0 ≡ (w1, cptr))
          × IsArrays ops live sizeof_conf w.heap w1 cptr [] []
    unfolding allocate
    allocate_first w =
        let p = (ops.malloc w.heap sizeof_conf).1 in
        let w1 : World S = record w {
          heap = (ops.malloc w.heap sizeof_conf).0;
          structs = put w.structs p zero_conf;
        } in
        (
          w1,
          p,
          refl,
          of_conf ops live sizeof_conf w.heap w1 p zero_conf [] [] (put_same w.structs p zero_conf)
              (allocated ops live a filled w.heap sizeof_conf) (refl, refl) (refl, refl),
        )

    reloads-IsShown :
        (start : S) (w : World S) (cptr : ℕ) (s now : Settings) (settings : List Settings)
        → IsShown start w cptr s
        → (w' : World S) × (action' : ActionRss) × (reloads ops live sizeof_conf w
              (record { settings = now; cptr = cptr })
              settings
            ≡ some (w', action'))
          × IsShown start w' action'.cptr (shown s settings)
    unfolding reloads shown
    reloads-IsShown start w cptr s now [] h = (w, record { settings = now; cptr = cptr }, refl, h)
    reloads-IsShown start w cptr s now (t ∷ settings) h =
        let (w1, e, h1) =
          reload_lem start w w cptr cptr s t (allocate_again w cptr h.arrays.owned.some_cptr)
            h.arrays in
        let (w', action', e', h') =
          reloads-IsShown start w1 cptr
            (record t { queues = kept t.queues s.queues; key = kept t.key s.key }) t settings h1 in
        (w', action', rw (reloads, e) e', h')

    free-live :
        (start : S) (w : World S) (action : ActionRss) (s : Settings)
        → IsShown start w action.cptr s
        → (w' : World S) × (free ops live sizeof_conf w action ≡ some w')
          × ((x : ℕ) → live w'.heap x ≡ live start x)
    unfolding free
    free-live start w action s h =
        let c = w.structs action.cptr in
        let (k, q, p, back) =
          released ops live a filled start w.heap action.cptr c.queue c.key h.arrays.owned in
        let w1 : World S = record w { heap = ops.free w.heap c.key } in
        let w2 : World S = record w1 { heap = ops.free w1.heap c.queue } in
        let freed = c_free_lem ops live sizeof_conf a filled in
        (
          record w2 { heap = ops.free w2.heap action.cptr },
          rw (free, freed w c.key k, freed w1 c.queue q) (freed w2 action.cptr p),
          back,
        )

    -- Where malloc does not fail and the allocator behaves as documented: after any number of
    -- settings, each followed by Reload, no address was freed that held no block, the C structure
    -- says what the last settings say, but for a list of queues or a key that is empty in them,
    -- in place of which it has the last one that was not, each array in a block of its own
    -- that is live and holds it; and then the finalizer frees no address that holds no block and
    -- leaves the blocks that were there at the start.
    pub reloads-free :
        (w : World S) (first : Settings) (settings : List Settings)
        → (w' : World S) × (action : ActionRss) × (w'' : World S) × (reloads ops live sizeof_conf w
              new_action
              (first ∷ settings)
            ≡ some (w', action))
          × IsShown w.heap w' action.cptr (shown unset (first ∷ settings))
          × (free ops live sizeof_conf w' action ≡ some w'')
          × ((x : ℕ) → live w''.heap x ≡ live w.heap x)
    unfolding reloads shown
    reloads-free w first settings =
        let (w0, cptr, e0, h0) = allocate_first w in
        let (w1, e1, h1) = reload_lem w.heap w w0 cptr 0 unset first e0 h0 in
        let (w', action, e', h') =
          reloads-IsShown w.heap w1 cptr
            (record first { queues = kept first.queues []; key = kept first.key [] }) first settings
            h1 in
        let (w'', e'', back) =
          free-live w.heap w' action
            (shown (record first { queues = kept first.queues []; key = kept first.key [] })
              settings)
            h' in
        (w', action, w'', rw (reloads, e1) e', h', e'', back)
