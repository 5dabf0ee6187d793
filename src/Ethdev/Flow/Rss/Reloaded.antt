-- ===== src/Ethdev/Flow/Rss/Reloaded.antt =====
-- What the C structure of an action shows after reloads, and that the heap is left as it was.
use go_dpdk.Base.{
  put, put_same, put_other, ℕ, ◌*◌, ◌≡◌, ◌≢◌, refl, sym, ap, ◌∙◌, arith, Bool, true, false, not,
  ◌||◌, ℕ_discrete, Option, none, some, List, [], ◌∷◌, length, u32, ◌==◌,
}
use mathlib.Core.Path.{subst}
use go_dpdk.Common.Allocator.{Ops}
use go_dpdk.Common.Allocator.Session.{IsAllocator}
use go_dpdk.Ethdev.Flow.Rss.{
  Settings, ActionRss, RssConf, World, sizeof_queue, c_free, replace, set_queues, set_key, reload,
}
use go_dpdk.Ethdev.Flow.Rss.Owned.{owns, IsOwned, swapped, replaced, freeable}

-- The list that was set last and is not empty.
abbrev pub kept : (new old : List ℕ) → List ℕ
kept [] old = old
kept (x ∷ xs) old = x ∷ xs

-- The settings that reloads leave: the last ones, but for empty arrays.
unfoldable pub shown : Settings → List Settings → Settings
shown s [] = s
shown s (t ∷ ts) = shown (record t { queues = kept t.queues s.queues; key = kept t.key s.key }) ts

abbrev pub unset : Settings
unset = record { func = 0; queues = []; key = []; level = 0; types = 0 }

-- What is at a pointer with a number of elements: nothing, or these elements in a live block.
abbrev pub IsArray : (ℕ → Bool) → (ℕ → List ℕ) → (num p : ℕ) → List ℕ → Type 0
IsArray live cells num p [] = (num ≡ 0) × (p ≡ 0)
IsArray live cells num p (x ∷ xs) =
    (num ≡ u32 (length (x ∷ xs))) × (live p ≡ true) × (cells p ≡ x ∷ xs)

not_both : true ≢ false
not_both e = cc

stays :
    (old other : ℕ) (live : ℕ → Bool)
    → (old ≡ other → old ≡ 0)
    → live other ≡ true
    → live 0 ≡ false
    → not (old == other) ≡ true
stays old other live differ l nil = elim (ℕ_discrete old other) [
  | yes e ↦
      let at_nil : other ≡ 0 = sym e ∙ differ e in absurd (not_both (sym l ∙ ap live at_nil ∙ nil))
  | no ne ↦ ground (arith, ne)
]

away :
    (p other : ℕ) (live : ℕ → Bool)
    → live p ≡ false
    → live other ≡ true
    → (cells : ℕ → List ℕ) (xs : List ℕ) → put cells p xs other ≡ cells other
away p other live fresh l cells xs =
    put_other cells p xs other (λ e. not_both (sym l ∙ ap live (sym e) ∙ fresh))

owned_block : (before : Bool) (cptr p key : ℕ) → p ≢ 0 → before || owns cptr p key p ≡ true
owned_block true cptr p key some_p = refl
owned_block false cptr p key some_p = ground (arith, some_p)

abbrev pub new_action : ActionRss
new_action = record { settings = unset; cptr = 0 }

module _ {S : Type 0} (ops : Ops S) (live : S → ℕ → Bool) (sizeof_conf : ℕ) where
  -- The settings are set and reloaded, one after the other.
  unfoldable pub reloads : World S → ActionRss → List Settings → Option (World S × ActionRss)
  unfolding reload
  reloads w action [] = some (w, action)
  reloads w action (s ∷ settings) =
      elim (reload ops live sizeof_conf w (record action { settings = s })) [
        | none ↦ none
        | some (w', action') ↦ reloads w' action' settings
      ]

  -- The arrays of a structure at `cptr`, and to whom the blocks belong.
  pub record IsArrays (start : S) (w : World S) (cptr : ℕ) (queues key : List ℕ) : Type 0 where
    pub owned : IsOwned ops live start w.heap cptr (w.structs cptr).queue (w.structs cptr).key
    pub is_queues :
        IsArray (live w.heap) w.cells (w.structs cptr).queue_num (w.structs cptr).queue queues
    pub is_key : IsArray (live w.heap) w.cells (w.structs cptr).key_len (w.structs cptr).key key

  pub of_conf :
      (start : S) (w : World S) (cptr : ℕ) (c : RssConf) (queues key : List ℕ)
      → w.structs cptr ≡ c
      → IsOwned ops live start w.heap cptr c.queue c.key
      → IsArray (live w.heap) w.cells c.queue_num c.queue queues
      → IsArray (live w.heap) w.cells c.key_len c.key key
      → IsArrays start w cptr queues key
  of_conf start w cptr c queues key e o q k = record {
    owned = subst (λ c. IsOwned ops live start w.heap cptr c.queue c.key) (sym e) o;
    is_queues = subst (λ c. IsArray (live w.heap) w.cells c.queue_num c.queue queues) (sym e) q;
    is_key = subst (λ c. IsArray (live w.heap) w.cells c.key_len c.key key) (sym e) k;
  }

  module _ (a : IsAllocator ops live)
      (filled : (s : S) (size : ℕ) → (ops.malloc s size).1 ≢ 0) where
    pub c_free_lem :
        (w : World S) (p : ℕ)
        → (p == 0) || live w.heap p ≡ true
        → c_free ops live sizeof_conf w p ≡ some (record w { heap = ops.free w.heap p })
    unfolding c_free
    c_free_lem w p e = rw e refl

    -- `replace` with its test decided.
    abbrev placed : World S → (old size : ℕ) → List ℕ → World S
    placed w old size xs = record w {
      heap = ops.free (ops.malloc w.heap size).0 old;
      cells = put w.cells (ops.malloc w.heap size).1 xs;
    }

    replace_lem :
        (w : World S) (old size : ℕ) (xs : List ℕ)
        → (old == 0) || live (ops.malloc w.heap size).0 old ≡ true
        → replace ops live sizeof_conf w old size xs
          ≡ some (placed w old size xs, (ops.malloc w.heap size).1)
    unfolding replace
    replace_lem w old size xs e =
        rw
          (
            replace,
            c_free_lem
                (record w {
                  heap = (ops.malloc w.heap size).0;
                  cells = put w.cells (ops.malloc w.heap size).1 xs;
                })
                old e,
          )
          refl

    IsArray-kept :
        (start : S) (w : World S) (cptr old other size num : ℕ) (xs ys : List ℕ)
        → IsOwned ops live start w.heap cptr old other
        → IsArray (live w.heap) w.cells num other ys
        → IsArray (live (placed w old size xs).heap) (placed w old size xs).cells num other ys
    IsArray-kept start w cptr old other size num xs [] o h = h
    IsArray-kept start w cptr old other size num xs (y ∷ ys) o (n, l, c) =
        let p = (ops.malloc w.heap size).1 in
        let nil : live w.heap 0 ≡ false = a.nil_dead w.heap in
        (
          n,
          a.free_live (ops.malloc w.heap size).0 old other
              ∙ rw (a.malloc_live w.heap size other, l)
                  (stays old other (live w.heap) o.differ l nil),
          away p other (live w.heap) (a.malloc_fresh w.heap size) l w.cells xs ∙ c,
        )

    IsArray-placed :
        (start : S) (w : World S) (cptr old other size : ℕ) (x : ℕ) (xs : List ℕ)
        → IsOwned ops live start w.heap cptr old other
        → IsArray
            (live (placed w old size (x ∷ xs)).heap)
            (placed w old size (x ∷ xs)).cells
            (u32 (length (x ∷ xs)))
            (ops.malloc w.heap size).1
            (x ∷ xs)
    IsArray-placed start w cptr old other size x xs o =
        let p = (ops.malloc w.heap size).1 in
        let o' = replaced ops live a filled start w.heap cptr old other size o in
        (
          refl,
          o'.blocks p ∙ owned_block (live start p) cptr p other (filled w.heap size),
          put_same w.cells p (x ∷ xs),
        )

    pub set_queues_lem :
        (start : S) (w : World S) (cptr : ℕ) (new queues key : List ℕ)
        → IsArrays start w cptr queues key
        → (w' : World S) × (set_queues ops live sizeof_conf w cptr new ≡ some w')
          × IsArrays start w' cptr (kept new queues) key
    unfolding set_queues
    set_queues_lem start w cptr [] queues key h = (w, refl, h)
    set_queues_lem start w cptr (x ∷ xs) queues key h =
        let c = w.structs cptr in
        let size = length (x ∷ xs) * sizeof_queue in
        let w0 = placed w c.queue size (x ∷ xs) in
        let p = (ops.malloc w.heap size).1 in
        let c' = record (c) { queue_num = u32 (length (x ∷ xs)); queue = p } in
        let w' : World S = record w0 { structs = put w.structs cptr c' } in
        (
          w',
          rw
              (
                set_queues,
                replace_lem w c.queue size (x ∷ xs)
                    (freeable ops live a filled start w.heap cptr c.queue c.key size h.owned),
              )
              refl,
          of_conf start w' cptr c' (x ∷ xs) key (put_same w.structs cptr c')
              (replaced ops live a filled start w.heap cptr c.queue c.key size h.owned)
              (IsArray-placed start w cptr c.queue c.key size x xs h.owned)
              (IsArray-kept start w cptr c.queue c.key size c.key_len (x ∷ xs) key h.owned
                h.is_key),
        )

    pub set_key_lem :
        (start : S) (w : World S) (cptr : ℕ) (new queues key : List ℕ)
        → IsArrays start w cptr queues key
        → (w' : World S) × (set_key ops live sizeof_conf w cptr new ≡ some w')
          × IsArrays start w' cptr queues (kept new key)
    unfolding set_key
    set_key_lem start w cptr [] queues key h = (w, refl, h)
    set_key_lem start w cptr (x ∷ xs) queues key h =
        let c = w.structs cptr in
        let size = length (x ∷ xs) in
        let w0 = placed w c.key size (x ∷ xs) in
        let p = (ops.malloc w.heap size).1 in
        let c' = record (c) { key_len = u32 (length (x ∷ xs)); key = p } in
        let w' : World S = record w0 { structs = put w.structs cptr c' } in
        let o = swapped ops live h.owned in
        (
          w',
          rw
              (
                set_key,
                replace_lem w c.key size (x ∷ xs)
                    (freeable ops live a filled start w.heap cptr c.key c.queue size o),
              )
              refl,
          of_conf start w' cptr c' queues (x ∷ xs) (put_same w.structs cptr c')
              (swapped ops live (replaced ops live a filled start w.heap cptr c.key c.queue size o))
              (IsArray-kept start w cptr c.key c.queue size c.queue_num (x ∷ xs) queues o
                h.is_queues)
              (IsArray-placed start w cptr c.key c.queue size x xs o),
        )
