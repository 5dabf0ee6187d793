-- ===== src/Ethdev/Flow/Rss.antt =====
-- ethdev/flow/action_rss.go: the C structure behind an action, and the two arrays that it owns. The
-- allocator of C is a parameter.
pub mod Owned
pub mod Reloaded
pub mod Freed
mod Tests
use go_dpdk.Base.{
  put, ℕ, ◌*◌, Bool, ◌||◌, Option, none, some, List, [], ◌∷◌, length, u32, ◌==◌, if◌then◌else◌,
}
use go_dpdk.Common.Allocator.{Ops}

-- The exported fields of ActionRSS.
pub record Settings : Type 0 where
  pub func : ℕ
  pub queues : List ℕ
  pub key : List ℕ
  pub level : ℕ
  pub types : ℕ

-- `cptr` is nil before the first Reload.
pub record ActionRss : Type 0 where
  pub settings : Settings
  pub cptr : ℕ

-- The fields of `struct rte_flow_action_rss` that the Go code writes.
pub record RssConf : Type 0 where
  pub func : ℕ
  pub level : ℕ
  pub types : ℕ
  pub queue_num : ℕ
  pub queue : ℕ
  pub key_len : ℕ
  pub key : ℕ

abbrev pub zero_conf : RssConf
zero_conf = record {
  func = 0;
  level = 0;
  types = 0;
  queue_num = 0;
  queue = 0;
  key_len = 0;
  key = 0;
}

-- The heap of C: the allocator's own state, the structures and the arrays by their addresses.
pub record World (S : Type 0) : Type 0 where
  pub heap : S
  pub structs : ℕ → RssConf
  pub cells : ℕ → List ℕ

-- A pointer to the first element of an array of uint16 takes two bytes for each.
abbrev pub sizeof_queue : ℕ
sizeof_queue = 2

module _ {S : Type 0} (ops : Ops S) (live : S → ℕ → Bool) (sizeof_conf : ℕ) where
  -- `free`: nil is left alone; to free an address that holds no block is undefined, `none`.
  unfoldable pub c_free : World S → ℕ → Option (World S)
  c_free w p =
      if (p == 0) || live w.heap p then some (record w { heap = ops.free w.heap p }) else none

  -- "allocate if needed"
  unfoldable pub allocate : World S → ℕ → World S × ℕ
  allocate w cptr =
      if cptr == 0
      then (let (heap, p) = ops.malloc w.heap sizeof_conf in
          (record w { heap = heap; structs = put w.structs p zero_conf }, p))
      else (w, cptr)

  -- A copy of `xs` in a new array, and the old array is freed.
  unfoldable pub replace : World S → (old size : ℕ) → List ℕ → Option (World S × ℕ)
  unfolding c_free
  replace w old size xs =
      let (heap, p) = ops.malloc w.heap size in
      elim (c_free (record w { heap = heap; cells = put w.cells p xs }) old) [
        | none ↦ none
        | some w' ↦ some (w', p)
      ]

  -- "set queues"
  unfoldable pub set_queues : World S → (cptr : ℕ) → List ℕ → Option (World S)
  unfolding replace
  set_queues w cptr [] = some w
  set_queues w cptr (q ∷ qs) =
      elim (replace w (w.structs cptr).queue (length (q ∷ qs) * sizeof_queue) (q ∷ qs)) [
        | none ↦ none
        | some (w', c_queues) ↦ some (record w' {
          structs =
              put w'.structs cptr
                (record (w'.structs cptr) { queue_num = u32 (length (q ∷ qs)); queue = c_queues });
        })
      ]

  -- "set key"
  unfoldable pub set_key : World S → (cptr : ℕ) → List ℕ → Option (World S)
  unfolding replace
  set_key w cptr [] = some w
  set_key w cptr (b ∷ bs) = elim (replace w (w.structs cptr).key (length (b ∷ bs)) (b ∷ bs)) [
    | none ↦ none
    | some (w', c_key) ↦ some (record w' {
      structs =
          put w'.structs cptr
            (record (w'.structs cptr) { key_len = u32 (length (b ∷ bs)); key = c_key });
    })
  ]

  -- The three assignments after them.
  unfoldable pub set_rest : World S → (cptr : ℕ) → Settings → World S
  set_rest w cptr s = record w {
    structs =
        put w.structs cptr
          (record (w.structs cptr) { level = s.level; types = s.types; func = s.func });
  }

  -- What follows the allocation.
  unfoldable pub load_conf : World S → (cptr : ℕ) → Settings → Option (World S × ActionRss)
  load_conf w cptr s = elim (set_queues w cptr s.queues) [
    | none ↦ none
    | some w' ↦ elim (set_key w' cptr s.key) [
      | none ↦ none
      | some w'' ↦ some (set_rest w'' cptr s, record { settings = s; cptr = cptr })
    ]
  ]

  unfoldable pub reload : World S → ActionRss → Option (World S × ActionRss)
  unfolding load_conf
  reload w action = let (w', cptr) = allocate w action.cptr in load_conf w' cptr action.settings

  -- The finalizer, which is the method `free`.
  unfoldable pub free : World S → ActionRss → Option (World S)
  unfolding c_free
  free w action =
      let conf = w.structs action.cptr in
      elim (c_free w conf.key) [
        | none ↦ none
        | some w1 ↦ elim (c_free w1 conf.queue) [ none ↦ none | some w2 ↦ c_free w2 action.cptr ]
      ]
