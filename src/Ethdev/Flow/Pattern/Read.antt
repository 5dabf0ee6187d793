-- ===== src/Ethdev/Flow/Pattern/Read.antt =====
-- What the C library reads in the arrays of cPattern and cActions.
use go_dpdk.Base.{
  ℕ, ◌≡◌, ◌≢◌, refl, sym, ap, ◌∙◌, arith, false, Option, none, some, List, [], ◌∷◌, map, ◌==◌,
  if◌then◌else◌,
}
use go_dpdk.Ethdev.Flow.Pattern.{
  ItemOps, Item, CItem, CAction, c_part, c_item, c_pattern, c_actions,
}

-- What the implementations of the interface promise: in a good state Reload makes the C structure
-- show the value, and leaves every other structure that shows its value, and its pointer.
pub record IsItems {S I : Type 0} (ops : ItemOps S I) (good : S → Type 0) (shows : S → I → Type 0)
    : Type 0 where
  pub reload_good : (s : S) (i : I) → good s → good (ops.reload s i)
  pub reload_shows : (s : S) (i : I) → good s → shows (ops.reload s i) i
  pub reload_keeps : (s : S) (i j : I) → good s → shows s j → shows (ops.reload s i) j
  pub reload_pointer :
      (s : S) (i j : I) → good s → shows s j → ops.pointer (ops.reload s i) j ≡ ops.pointer s j

-- The C library reads up to the first item, or action, of the type END.
unfoldable pub items_until_end : List CItem → List CItem
items_until_end [] = []
items_until_end (c ∷ cs) = let rest = items_until_end cs in if c.type == 0 then [] else c ∷ rest

unfoldable pub actions_until_end : List CAction → List CAction
actions_until_end [] = []
actions_until_end (c ∷ cs) = let rest = actions_until_end cs in if c.type == 0 then [] else c ∷ rest

module _ {S I : Type 0} (ops : ItemOps S I) where
  abbrev pub part_of : S → Option I → ℕ
  part_of s none = 0
  part_of s (some i) = ops.pointer s i

  -- An item by the pointers of a state.
  abbrev pub item_of : S → Item I → CItem
  item_of s item = record {
    type = ops.type_of item.spec;
    spec = ops.pointer s item.spec;
    last = part_of s item.last;
    mask = part_of s item.mask;
  }

  abbrev pub action_of : S → I → CAction
  action_of s a = record { type = ops.type_of a; conf = ops.pointer s a }

  -- None of the items is END.
  abbrev pub NoEnd : List (Item I) → Type 0
  NoEnd [] = Unit
  NoEnd (item ∷ pattern) = (ops.type_of item.spec ≢ 0) × NoEnd pattern

  abbrev pub NoEndAction : List I → Type 0
  NoEndAction [] = Unit
  NoEndAction (a ∷ actions) = (ops.type_of a ≢ 0) × NoEndAction actions

module _ {S I : Type 0} (shows : S → I → Type 0) where
  abbrev pub PartShows : S → Option I → Type 0
  PartShows s none = Unit
  PartShows s (some i) = shows s i

  abbrev pub AllShow : S → List (Item I) → Type 0
  AllShow s [] = Unit
  AllShow s (item ∷ pattern) =
      (shows s item.spec × PartShows s item.last × PartShows s item.mask) × AllShow s pattern

  abbrev pub ActionsShow : S → List I → Type 0
  ActionsShow s [] = Unit
  ActionsShow s (a ∷ actions) = shows s a × ActionsShow s actions

module _ {S I : Type 0} (ops : ItemOps S I) (good : S → Type 0) (shows : S → I → Type 0) where
  -- A later state, in which what was shown is shown at the same pointer.
  pub record IsLater (s s' : S) : Type 0 where
    pub kept : (j : I) → shows s j → shows s' j
    pub fixed : (j : I) → shows s j → ops.pointer s' j ≡ ops.pointer s j

  same : (s : S) → IsLater s s
  same s = record { kept = λ j h. h; fixed = λ j h. refl }

  chain : (s s1 s2 : S) → IsLater s s1 → IsLater s1 s2 → IsLater s s2
  chain s s1 s2 p q = record {
    kept = λ j h. q.kept j (p.kept j h);
    fixed = λ j h. q.fixed j (p.kept j h) ∙ p.fixed j h;
  }

  part_later :
      (s s' : S) (o : Option I)
      → IsLater s s'
      → PartShows shows s o
      → PartShows shows s' o × (part_of ops s' o ≡ part_of ops s o)
  part_later s s' none l h = (h, refl)
  part_later s s' (some i) l h = (l.kept i h, l.fixed i h)

  module _ (laws : IsItems ops good shows) where
    reload_later : (s : S) (i : I) → good s → IsLater s (ops.reload s i)
    reload_later s i g = record {
      kept = λ j h. laws.reload_keeps s i j g h;
      fixed = λ j h. laws.reload_pointer s i j g h;
    }

    c_part_lem :
        (s : S) (o : Option I)
        → good s
        → good (c_part ops s o).0
          × IsLater s (c_part ops s o).0
          × PartShows shows (c_part ops s o).0 o
          × ((c_part ops s o).1 ≡ part_of ops (c_part ops s o).0 o)
    unfolding c_part
    c_part_lem s none g = (g, same s, tt, refl)
    c_part_lem s (some i) g =
        (laws.reload_good s i g, reload_later s i g, laws.reload_shows s i g, refl)

    c_item_lem :
        (s : S) (item : Item I)
        → good s
        → good (c_item ops s item).0
          × IsLater s (c_item ops s item).0
          × (shows (c_item ops s item).0 item.spec
              × PartShows shows (c_item ops s item).0 item.last
              × PartShows shows (c_item ops s item).0 item.mask)
          × ((c_item ops s item).1 ≡ item_of ops (c_item ops s item).0 item)
    unfolding c_item
    c_item_lem s item g =
        let s1 = ops.reload s item.spec in
        let (g2, l2, m2, e2) = c_part_lem s1 item.mask (laws.reload_good s item.spec g) in
        let s2 = (c_part ops s1 item.mask).0 in
        let (g3, l3, m3, e3) = c_part_lem s2 item.last g2 in
        let s3 = (c_part ops s2 item.last).0 in
        let l13 = chain s1 s2 s3 l2 l3 in
        let spec_shown = laws.reload_shows s item.spec g in
        let (mask_shown, mask_fixed) = part_later s2 s3 item.mask l3 m2 in
        (
          g3,
          chain s s1 s3 (reload_later s item.spec g) l13,
          (l13.kept item.spec spec_shown, m3, mask_shown),
          rw (sym (l13.fixed item.spec spec_shown), e3, e2, sym mask_fixed) refl,
        )

    c_pattern_later :
        (s : S) (pattern : List (Item I))
        → good s
        → good (c_pattern ops s pattern).0 × IsLater s (c_pattern ops s pattern).0
    unfolding c_pattern
    c_pattern_later s [] g = (g, same s)
    c_pattern_later s (item ∷ pattern) g =
        let (g1, l1, shown, e) = c_item_lem s item g in
        let s1 = (c_item ops s item).0 in
        let (g2, l2) = c_pattern_later s1 pattern g1 in
        (g2, chain s s1 (c_pattern ops s1 pattern).0 l1 l2)

    item_fixed :
        (s s' : S) (item : Item I)
        → IsLater s s'
        → shows s item.spec × PartShows shows s item.last × PartShows shows s item.mask
        → (shows s' item.spec × PartShows shows s' item.last × PartShows shows s' item.mask)
          × (item_of ops s item ≡ item_of ops s' item)
    item_fixed s s' item l (a, b, c) =
        let (b', eb) = part_later s s' item.last l b in
        let (c', ec) = part_later s s' item.mask l c in
        ((l.kept item.spec a, b', c'), rw (l.fixed item.spec a, eb, ec) refl)

    go_on :
        (c : CItem) (cs : List CItem)
        → c.type ≢ 0
        → items_until_end (c ∷ cs) ≡ c ∷ items_until_end cs
    unfolding items_until_end
    go_on c cs some_type =
        let test : (c.type == 0) ≡ false = ground (arith, some_type) in rw test refl

    -- With items that keep the promises of the interface, none of them END, in a good state: the
    -- C library reads in the array of cPattern one element for each item, in order, with the type
    -- of its Spec, and with the pointers of its Spec, Last and Mask, nil where there is none, as
    -- they are after cPattern; and every one of these then shows its value.
    pub c_pattern_lem :
        (s : S) (pattern : List (Item I))
        → good s
        → NoEnd ops pattern
        → (items_until_end (c_pattern ops s pattern).1
            ≡ map (item_of ops (c_pattern ops s pattern).0) pattern)
          × AllShow shows (c_pattern ops s pattern).0 pattern
    unfolding c_pattern items_until_end
    c_pattern_lem s [] g no_end = (refl, tt)
    c_pattern_lem s (item ∷ pattern) g (now, later) =
        let (g1, l1, shown, e) = c_item_lem s item g in
        let s1 = (c_item ops s item).0 in
        let s' = (c_pattern ops s1 pattern).0 in
        let (read, all) = c_pattern_lem s1 pattern g1 later in
        let (g2, l2) = c_pattern_later s1 pattern g1 in
        let (shown', fixed) = item_fixed s1 s' item l2 shown in
        (
          go_on (c_item ops s item).1 (c_pattern ops s1 pattern).1
                (λ z. now (sym (ap (λ (c : CItem). c.type) e) ∙ z))
              ∙ ap (λ c. c ∷ items_until_end (c_pattern ops s1 pattern).1) (e ∙ fixed)
              ∙ ap (λ cs. item_of ops s' item ∷ cs) read,
          (shown', all),
        )

    c_actions_later :
        (s : S) (actions : List I)
        → good s
        → good (c_actions ops s actions).0 × IsLater s (c_actions ops s actions).0
    unfolding c_actions
    c_actions_later s [] g = (g, same s)
    c_actions_later s (a ∷ actions) g =
        let s1 = ops.reload s a in
        let (g2, l2) = c_actions_later s1 actions (laws.reload_good s a g) in
        (g2, chain s s1 (c_actions ops s1 actions).0 (reload_later s a g) l2)

    act_on :
        (c : CAction) (cs : List CAction)
        → c.type ≢ 0
        → actions_until_end (c ∷ cs) ≡ c ∷ actions_until_end cs
    unfolding actions_until_end
    act_on c cs some_type =
        let test : (c.type == 0) ≡ false = ground (arith, some_type) in rw test refl

    -- With actions that keep the promises of the interface, none of them END, in a good state: the
    -- C library reads in the array of cActions one element for each action, in order, with its type
    -- and with its pointer as it is after cActions; and every action then shows its value.
    pub c_actions_lem :
        (s : S) (actions : List I)
        → good s
        → NoEndAction ops actions
        → (actions_until_end (c_actions ops s actions).1
            ≡ map (action_of ops (c_actions ops s actions).0) actions)
          × ActionsShow shows (c_actions ops s actions).0 actions
    unfolding c_actions actions_until_end
    c_actions_lem s [] g no_end = (refl, tt)
    c_actions_lem s (a ∷ actions) g (now, later) =
        let s1 = ops.reload s a in
        let s' = (c_actions ops s1 actions).0 in
        let g1 = laws.reload_good s a g in
        let shown = laws.reload_shows s a g in
        let (read, all) = c_actions_lem s1 actions g1 later in
        let (g2, l2) = c_actions_later s1 actions g1 in
        (
          act_on (action_of ops s1 a) (c_actions ops s1 actions).1 now
              ∙ ap
                  (λ p.
                    record { type = ops.type_of a; conf = p }
                    ∷ actions_until_end (c_actions ops s1 actions).1)
                  (sym (l2.fixed a shown))
              ∙ ap (λ cs. action_of ops s' a ∷ cs) read,
          (l2.kept a shown, all),
        )
