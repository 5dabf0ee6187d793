-- ===== src/Ethdev/Flow/Item/Kept.antt =====
-- The items keep the promises of the interface, each with a block of its own.
use go_dpdk.Base.{
  put, put_same, put_other, ℕ, ◌≡◌, ◌≢◌, refl, sym, ap, ◌∙◌, arith, Bool, true, false, not, ◌&&◌,
  ◌||◌, Bool-cases, inl, inr, ◌==◌, ℕ_discrete,
}
use mathlib.Core.Path.{subst}
use go_dpdk.Common.Allocator.{Ops}
use go_dpdk.Common.Allocator.Session.{IsAllocator}
use go_dpdk.Ethdev.Flow.Pattern.Read.{IsItems}
use go_dpdk.Ethdev.Flow.Item.{
  GoItem, is_type, zeros, written, Store, ItemTypes, create_or_ret, reload_fields, items,
}
use go_dpdk.Ethdev.Flow.Item.Shown.{ShownBy, written-ShownBy, type_shown}

given : (before : Bool) (p : ℕ) → p ≢ 0 → before || ((p == p) && not (p == 0)) ≡ true
given true p h = refl
given false p h = ground (arith, h)

not_type : (b : Bool) → b ≡ true → b ≢ false
not_type b h e = cc

dead_live : (b : Bool) → b ≡ false → b ≢ true
dead_live b h e = cc

module _ {S : Type 0} (ops : Ops S) (live : S → ℕ → Bool) (sizeof : GoItem → ℕ) where
  -- The blocks of the items are live, and no two items have the same.
  pub record IsGood (s : Store S) : Type 0 where
    pub alive : (i : ℕ) → s.cptr i ≢ 0 → live s.heap (s.cptr i) ≡ true
    pub apart : (i j : ℕ) → s.cptr i ≢ 0 → s.cptr i ≡ s.cptr j → i ≡ j

  -- Item `i` has a block, unless it is an ItemType, and the block says what the item does.
  pub record Shows (go : ℕ → GoItem) (s : Store S) (i : ℕ) : Type 0 where
    pub block : is_type (go i) ≡ false → s.cptr i ≢ 0
    pub says : ShownBy (go i) (s.structs (s.cptr i))

  module _ (a : IsAllocator ops live)
      (filled : (s : S) (size : ℕ) → (ops.malloc s size).1 ≢ 0) where
    -- What `create_or_ret` does, for item `i`.
    record IsCreated (s s' : Store S) (i : ℕ) : Type 0 where
      good : IsGood s'
      some_block : s'.cptr i ≢ 0
      same_cptr : (j : ℕ) → s.cptr j ≢ 0 → s'.cptr j ≡ s.cptr j
      same_struct : (j : ℕ) → s.cptr j ≢ 0 → s'.structs (s.cptr j) ≡ s.structs (s.cptr j)

    still_live :
        (s : Store S) (size x : ℕ) → live s.heap x ≡ true → live (ops.malloc s.heap size).0 x ≡ true
    still_live s size x h = a.malloc_live s.heap size x ∙ rw h refl

    new_live : (s : S) (size : ℕ) → live (ops.malloc s size).0 (ops.malloc s size).1 ≡ true
    new_live s size =
        a.malloc_live s size (ops.malloc s size).1
        ∙ given (live s (ops.malloc s size).1) (ops.malloc s size).1 (filled s size)

    fresh_block :
        (s : Store S) (size j : ℕ) → IsGood s → s.cptr j ≢ 0 → (ops.malloc s.heap size).1 ≢ s.cptr j
    fresh_block s size j g some_j e =
        let is_live : live s.heap (ops.malloc s.heap size).1 ≡ true =
          ap (live s.heap) e ∙ g.alive j some_j in
        dead_live (live s.heap (ops.malloc s.heap size).1) (a.malloc_fresh s.heap size) is_live

    -- A new block for item `i`.
    placed :
        (s : Store S) (i size : ℕ)
        → IsGood s
        → IsGood (record {
          heap = (ops.malloc s.heap size).0;
          cptr = put s.cptr i (ops.malloc s.heap size).1;
          structs = put s.structs (ops.malloc s.heap size).1 zeros;
        })
    placed s i size g =
        let p = (ops.malloc s.heap size).1 in
        let here : put s.cptr i p i ≡ p = put_same s.cptr i p in
        let there : (j : ℕ) → i ≢ j → put s.cptr i p j ≡ s.cptr j = put_other s.cptr i p in
        let taken : (k : ℕ) → i ≢ k → p ≢ put s.cptr i p k = λ k ne e.
          fresh_block s size k g (λ z. filled s.heap size (e ∙ there k ne ∙ z)) (e ∙ there k ne) in
        record {
          alive = λ j some_j. elim (ℕ_discrete i j) [
            | yes e ↦
                ap (live (ops.malloc s.heap size).0) (ap (put s.cptr i p) (sym e) ∙ here)
                ∙ new_live s.heap size
            | no ne ↦
                ap (live (ops.malloc s.heap size).0) (there j ne)
                ∙ still_live s size (s.cptr j) (g.alive j (λ z. some_j (there j ne ∙ z)))
          ];
          apart = λ j k some_j e. elim (ℕ_discrete i j) [
            | yes ij ↦ elim (ℕ_discrete i k) [
              | yes ik ↦ sym ij ∙ ik
              | no nk ↦ absurd (taken k nk (sym (ap (put s.cptr i p) (sym ij) ∙ here) ∙ e))
            ]
            | no nj ↦ elim (ℕ_discrete i k) [
              | yes ik ↦ absurd (taken j nj (sym (ap (put s.cptr i p) (sym ik) ∙ here) ∙ sym e))
              | no nk ↦
                  g.apart j k (λ z. some_j (there j nj ∙ z)) (sym (there j nj) ∙ e ∙ there k nk)
            ]
          ];
        }

    create_lem :
        (s : Store S) (i size : ℕ) → IsGood s → IsCreated s (create_or_ret ops sizeof s i size) i
    unfolding create_or_ret
    create_lem s i size g = elim (ℕ_discrete (s.cptr i) 0) [
      | no some_i ↦
          let test : (s.cptr i == 0) ≡ false = ground (arith, some_i) in
          rw test (record {
            good = g;
            some_block = some_i;
            same_cptr = λ j h. refl;
            same_struct = λ j h. refl;
          })
      | yes nil ↦
          let test : (s.cptr i == 0) ≡ true = ground (arith, nil) in
          let p = (ops.malloc s.heap size).1 in
          let other : (j : ℕ) → s.cptr j ≢ 0 → i ≢ j =
            λ j some_j e. some_j (sym (ap s.cptr e) ∙ nil) in
          rw test (record {
            good = placed s i size g;
            some_block = λ e. filled s.heap size (sym (put_same s.cptr i p) ∙ e);
            same_cptr = λ j some_j. put_other s.cptr i p j (other j some_j);
            same_struct =
                λ j some_j. put_other s.structs p zeros (s.cptr j) (fresh_block s size j g some_j);
          })
    ]

    -- Where item `i` has a block, `reload_fields` writes to it, and to no other.
    reload_fields-IsGood :
        (s : Store S) (i : ℕ) (item : GoItem)
        → IsGood s
        → IsGood (reload_fields ops sizeof s i item)
    unfolding reload_fields
    reload_fields-IsGood s i item g =
        let c = create_lem s i (sizeof item) g in
        record { alive = c.good.alive; apart = c.good.apart }

    reload_fields-struct :
        (s : Store S) (i : ℕ) (item : GoItem)
        → IsGood s
        → ((reload_fields ops sizeof s i item).cptr i ≢ 0)
          × ShownBy item (
              (reload_fields ops sizeof s i item).structs
                ((reload_fields ops sizeof s i item).cptr i))
    unfolding reload_fields
    reload_fields-struct s i item g =
        let s1 = create_or_ret ops sizeof s i (sizeof item) in
        let c = create_lem s i (sizeof item) g in
        (
          c.some_block,
          subst (ShownBy item)
              (sym (put_same s1.structs (s1.cptr i) (written item (s1.structs (s1.cptr i)))))
              (written-ShownBy item (s1.structs (s1.cptr i))),
        )

    reload_fields-other :
        (s : Store S) (i j : ℕ) (item : GoItem)
        → IsGood s
        → s.cptr j ≢ 0
        → ((reload_fields ops sizeof s i item).cptr j ≡ s.cptr j)
          × (i ≢ j → (reload_fields ops sizeof s i item).structs (s.cptr j) ≡ s.structs (s.cptr j))
    unfolding reload_fields
    reload_fields-other s i j item g some_j =
        let s1 = create_or_ret ops sizeof s i (sizeof item) in
        let c = create_lem s i (sizeof item) g in
        (
          c.same_cptr j some_j,
          λ ne.
              put_other s1.structs (s1.cptr i) (written item (s1.structs (s1.cptr i))) (s.cptr j)
                (λ e. ne (c.good.apart i j c.some_block (e ∙ sym (c.same_cptr j some_j))))
              ∙ c.same_struct j some_j,
        )

    module _ (types : ItemTypes) (go : ℕ → GoItem) where
      Shows-type : (s : Store S) (i : ℕ) → is_type (go i) ≡ true → Shows go s i
      Shows-type s i e = record {
        block = λ z. absurd (not_type (is_type (go i)) e z);
        says = type_shown (go i) (s.structs (s.cptr i)) e;
      }

      Shows-self :
          (s : Store S) (i : ℕ) → IsGood s → Shows go (reload_fields ops sizeof s i (go i)) i
      Shows-self s i g =
          let (some_block, says) = reload_fields-struct s i (go i) g in
          record { block = λ e. some_block; says = says }

      Shows-other :
          (s : Store S) (i j : ℕ)
          → IsGood s
          → Shows go s j
          → Shows go (reload_fields ops sizeof s i (go i)) j
      Shows-other s i j g h = elim (Bool-cases (is_type (go j))) [
        | inl e ↦ Shows-type (reload_fields ops sizeof s i (go i)) j e
        | inr e ↦ elim (ℕ_discrete i j) [
          | yes ij ↦ subst (Shows go (reload_fields ops sizeof s i (go i))) ij (Shows-self s i g)
          | no ne ↦
              let s' = reload_fields ops sizeof s i (go i) in
              let (p, q) = reload_fields-other s i j (go i) g (h.block e) in
              record {
                block = λ z w. h.block e (sym p ∙ w);
                says = subst (ShownBy (go j)) (sym (ap s'.structs p ∙ q ne)) h.says;
              }
        ]
      ]

      pointer_other :
          (s : Store S) (i j : ℕ)
          → IsGood s
          → Shows go s j
          → (items ops sizeof types go).pointer (reload_fields ops sizeof s i (go i)) j
            ≡ (items ops sizeof types go).pointer s j
      pointer_other s i j g h = elim (Bool-cases (is_type (go j))) [
        | inl e ↦ rw e refl
        | inr e ↦ rw e (reload_fields-other s i j (go i) g (h.block e)).0
      ]

      -- With an allocator that behaves as documented and does not fail, the items keep the promises
      -- of their interface: in a good state, where the blocks of the items are live and no two
      -- items share one, Reload leads to a good state in which the item has a block that says
      -- what its fields do, and no other item that has been reloaded changes its block, or what it says.
      pub items-IsItems : IsItems (items ops sizeof types go) IsGood (Shows go)
      items-IsItems = record {
        reload_good = λ s i g. elim (Bool-cases (is_type (go i))) [
          | inl e ↦ rw e g
          | inr e ↦ rw e (reload_fields-IsGood s i (go i) g)
        ];
        reload_shows = λ s i g. elim (Bool-cases (is_type (go i))) [
          | inl e ↦ rw e (Shows-type s i e)
          | inr e ↦ rw e (Shows-self s i g)
        ];
        reload_keeps = λ s i j g h. elim (Bool-cases (is_type (go i))) [
          | inl e ↦ rw e h
          | inr e ↦ rw e (Shows-other s i j g h)
        ];
        reload_pointer = λ s i j g h. elim (Bool-cases (is_type (go i))) [
          | inl e ↦ rw e refl
          | inr e ↦ rw e (pointer_other s i j g h)
        ];
      }
