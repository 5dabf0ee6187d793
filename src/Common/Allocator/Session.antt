-- ===== src/Common/Allocator/Session.antt =====
-- A session gives back what it has taken.
use go_dpdk.Base.{
  ℕ, ◌≡◌, ◌≢◌, refl, sym, ap, ◌∙◌, arith, Bool, true, false, not, ◌&&◌, ◌||◌, List, [], ◌∷◌, ◌==◌,
  ℕ_discrete, ◌⊎◌, inl, inr,
}
use go_dpdk.Common.Set.Insert.{member}
use go_dpdk.Common.Allocator.{
  Ops, AllocatorSession, add_ptr, delete_ptr, malloc, free, realloc, free_all, flush,
  new_allocator_session,
}
use go_dpdk.Common.Allocator.Ptrs.{
  member-add_ptr, member-delete_ptr, and_true, all_freed, or_false, or_true, and_not, both_added,
  one_removed, moved, nil_added,
}

-- What is documented of an allocator: `live` says which addresses hold a block. A block that is
-- allocated was not live, and 0 is none; nothing else changes. `realloc` moves the block, or keeps
-- it where it is; or it returns 0, and has freed the block if the size is 0, and otherwise failed
-- and left everything.
pub record IsAllocator {S : Type 0} (ops : Ops S) (live : S → ℕ → Bool) : Type 0 where
  pub nil_dead : (s : S) → live s 0 ≡ false
  pub malloc_live :
      (s : S) (size x : ℕ)
      → live (ops.malloc s size).0 x
        ≡ live s x || (((ops.malloc s size).1 == x) && not ((ops.malloc s size).1 == 0))
  pub malloc_fresh : (s : S) (size : ℕ) → live s (ops.malloc s size).1 ≡ false
  pub free_live : (s : S) (p x : ℕ) → live (ops.free s p) x ≡ live s x && not (p == x)
  pub realloc_live :
      (s : S) (p size x : ℕ)
      → live s p ≡ true
      → (ops.realloc s p size).1 ≢ 0
      → live (ops.realloc s p size).0 x
        ≡ ((ops.realloc s p size).1 == x) || (live s x && not (p == x))
  pub realloc_fresh :
      (s : S) (p size : ℕ)
      → live s p ≡ true
      → (ops.realloc s p size).1 ≢ p
      → live s (ops.realloc s p size).1 ≡ false
  pub realloc_fails :
      (s : S) (p size x : ℕ)
      → live s p ≡ true
      → size ≢ 0
      → (ops.realloc s p size).1 ≡ 0
      → live (ops.realloc s p size).0 x ≡ live s x
  pub realloc_frees :
      (s : S) (p size x : ℕ)
      → live s p ≡ true
      → size ≡ 0
      → (ops.realloc s p size).1 ≡ 0
      → live (ops.realloc s p size).0 x ≡ live s x && not (p == x)

-- Calls of a session.
pub data Call : Type 0 where
  to_malloc : (size : ℕ) → Call
  to_free : (p : ℕ) → Call
  to_realloc : (p size : ℕ) → Call

module _ {S : Type 0} (ops : Ops S) where
  abbrev pub step : AllocatorSession S → Call → AllocatorSession S
  step s (to_malloc size) = (malloc ops s size).0
  step s (to_free p) = free ops s p
  step s (to_realloc p size) = (realloc ops s p size).0

  abbrev pub run : AllocatorSession S → List Call → AllocatorSession S
  run s [] = s
  run s (c ∷ calls) = run (step s c) calls

  -- What is freed or resized is a block of the session, and resizing does not fail: it returns 0
  -- only for a size of 0.
  abbrev pub IsProper : AllocatorSession S → Call → Type 0
  IsProper s (to_malloc size) = Unit
  IsProper s (to_free p) = member s.ptrs p ≡ true
  IsProper s (to_realloc p size) =
      (member s.ptrs p ≡ true) × (p ≢ 0) × (((realloc ops s p size).1 ≢ 0) ⊎ (size ≡ 0))

  abbrev pub AreProper : AllocatorSession S → List Call → Type 0
  AreProper s [] = Unit
  AreProper s (c ∷ calls) = IsProper s c × AreProper (step s c) calls

  module _ (live : S → ℕ → Bool) (a : IsAllocator ops live) (start : S) where
    -- The blocks are those of the start and those of the session, and none is of both.
    record IsOwned (s : AllocatorSession S) : Type 0 where
      blocks : (x : ℕ) → live s.mem x ≡ live start x || (member s.ptrs x && not (0 == x))
      apart : (x : ℕ) → member s.ptrs x ≡ true → live start x ≡ false

    stay :
        (s : AllocatorSession S) (p p1 x : ℕ)
        → p ≡ p1
        → live s.mem p ≡ true
        → (p1 == x) || (live s.mem x && not (p == x)) ≡ live s.mem x
    stay s p p1 x same lives = elim (ℕ_discrete p x) [
      | yes here ↦
          let test : (p1 == x) ≡ true = ground (arith, same, here) in
          rw test (sym (ap (live s.mem) (sym here) ∙ lives))
      | no there ↦
          let test : (p1 == x) ≡ false = ground (arith, same, there) in
          let test' : (p == x) ≡ false = ground (arith, there) in
          rw (test, test') (sym (and_true (live s.mem x)))
    ]

    moved_away :
        (s : AllocatorSession S) (p p1 : ℕ) (mem : S)
        → IsOwned s
        → member s.ptrs p ≡ true
        → p ≢ p1
        → live s.mem p1 ≡ false
        → p1 ≢ 0
        → ((x : ℕ) → live mem x ≡ (p1 == x) || (live s.mem x && not (p == x)))
        → IsOwned (record { mem = mem; ptrs = delete_ptr p (add_ptr p1 s.ptrs) })
    moved_away s p p1 mem o has moves fresh some_p1 lives = record {
      blocks = λ x.
          let of_ptrs : member (delete_ptr p (add_ptr p1 s.ptrs)) x
              ≡ ((p1 == x) || member s.ptrs x) && not (p == x) =
            member-delete_ptr p (add_ptr p1 s.ptrs) x
            ∙ ap (λ b. b && not (p == x)) (member-add_ptr p1 s.ptrs x) in
          rw (lives x, o.blocks x, of_ptrs)
            (moved (p1 == x) (p == x) (0 == x) (live start x) (member s.ptrs x)
              (λ e.
                let same : p ≡ x = ground (arith, e) in ap (live start) (sym same) ∙ o.apart p has)
              (λ e. ground (arith, e, moves)) (λ e. ground (arith, e, some_p1)));
      apart = λ x in_new. elim (ℕ_discrete p1 x) [
        | yes new ↦
            let none_here : live s.mem x ≡ false = ap (live s.mem) (sym new) ∙ fresh in
            ground (arith, o.blocks x, none_here)
        | no old ↦
            let differs : (p1 == x) ≡ false = ground (arith, old) in
            let added : member (add_ptr p1 s.ptrs) x ≡ true =
              ground (arith, sym (member-delete_ptr p (add_ptr p1 s.ptrs) x) ∙ in_new) in
            o.apart x (sym (member-add_ptr p1 s.ptrs x ∙ rw differs refl) ∙ added)
      ];
    }

    -- Resizing to nothing has freed the block.
    resized_to_nothing :
        (s : AllocatorSession S) (p : ℕ) (mem : S)
        → IsOwned s
        → member s.ptrs p ≡ true
        → ((x : ℕ) → live mem x ≡ live s.mem x && not (p == x))
        → IsOwned (record { mem = mem; ptrs = delete_ptr p (add_ptr 0 s.ptrs) })
    resized_to_nothing s p mem o has lives = record {
      blocks = λ x.
          let of_ptrs : member (delete_ptr p (add_ptr 0 s.ptrs)) x
              ≡ ((0 == x) || member s.ptrs x) && not (p == x) =
            member-delete_ptr p (add_ptr 0 s.ptrs) x
            ∙ ap (λ b. b && not (p == x)) (member-add_ptr 0 s.ptrs x) in
          rw (lives x, o.blocks x, of_ptrs)
            (nil_added (p == x) (0 == x) (live start x) (member s.ptrs x) (λ e.
              let same : p ≡ x = ground (arith, e) in ap (live start) (sym same) ∙ o.apart p has));
      apart = λ x in_new. elim (ℕ_discrete 0 x) [
        | yes nil ↦ ap (live start) (sym nil) ∙ a.nil_dead start
        | no old ↦
            let differs : (0 == x) ≡ false = ground (arith, old) in
            let added : member (add_ptr 0 s.ptrs) x ≡ true =
              ground (arith, sym (member-delete_ptr p (add_ptr 0 s.ptrs) x) ∙ in_new) in
            o.apart x (sym (member-add_ptr 0 s.ptrs x ∙ rw differs refl) ∙ added)
      ];
    }

    resized :
        (s : AllocatorSession S) (p size : ℕ)
        → member s.ptrs p ≡ true
        → live s.mem p ≡ true
        → (ops.realloc s.mem p size).1 ≢ 0
        → IsOwned s
        → IsOwned (realloc ops s p size).0
    unfolding realloc
    resized s p size has lives done o =
        let p1 = (ops.realloc s.mem p size).1 in
        elim (ℕ_discrete p p1) [
          | yes stays ↦
              let test : (p == p1) ≡ true = ground (arith, stays) in
              let kept : (x : ℕ) → live (ops.realloc s.mem p size).0 x ≡ live s.mem x =
                λ x. a.realloc_live s.mem p size x lives done ∙ stay s p p1 x stays lives in
              rw test (record { blocks = λ x. kept x ∙ o.blocks x; apart = o.apart })
          | no moves ↦
              let test : (p == p1) ≡ false = ground (arith, moves) in
              let fresh = a.realloc_fresh s.mem p size lives (λ e. moves (sym e)) in
              rw test (
                moved_away s p p1 (ops.realloc s.mem p size).0 o has moves fresh done
                  (λ x. a.realloc_live s.mem p size x lives done))
        ]

    dropped :
        (s : AllocatorSession S) (p size : ℕ)
        → member s.ptrs p ≡ true
        → p ≢ 0
        → live s.mem p ≡ true
        → size ≡ 0
        → (ops.realloc s.mem p size).1 ≡ 0
        → IsOwned s
        → IsOwned (realloc ops s p size).0
    unfolding realloc
    dropped s p size has some_p lives empty nil o =
        let test : (p == 0) ≡ false = ground (arith, some_p) in
        rw (nil, test)
          (resized_to_nothing s p (ops.realloc s.mem p size).0 o has
            (λ x. a.realloc_frees s.mem p size x lives empty nil))

    step-IsOwned :
        (s : AllocatorSession S) (c : Call) → IsProper s c → IsOwned s → IsOwned (step s c)
    unfolding malloc free realloc
    step-IsOwned s (to_malloc size) proper o =
        let p = (ops.malloc s.mem size).1 in
        record {
          blocks = λ x.
              rw (a.malloc_live s.mem size x, o.blocks x, member-add_ptr p s.ptrs x)
                (both_added (p == x) (p == 0) (0 == x) (live start x) (member s.ptrs x)
                  (λ e. ground (arith, e)));
          apart = λ x has. elim (ℕ_discrete p x) [
            | yes same ↦
                let none_here : live s.mem x ≡ false =
                  ap (live s.mem) (sym same) ∙ a.malloc_fresh s.mem size in
                ground (arith, o.blocks x, none_here)
            | no other ↦
                let differs : (p == x) ≡ false = ground (arith, other) in
                o.apart x (sym (member-add_ptr p s.ptrs x ∙ rw differs refl) ∙ has)
          ];
        }
    step-IsOwned s (to_free p) proper o = record {
      blocks = λ x.
          rw (a.free_live s.mem p x, o.blocks x, member-delete_ptr p s.ptrs x)
            (one_removed (p == x) (0 == x) (live start x) (member s.ptrs x) (λ e.
              let same : p ≡ x = ground (arith, e) in
              ap (live start) (sym same) ∙ o.apart p proper));
      apart = λ x has. o.apart x (ground (arith, sym (member-delete_ptr p s.ptrs x) ∙ has));
    }
    step-IsOwned s (to_realloc p size) (has, some_p, done) o =
        let no_nil : (0 == p) ≡ false = ground (arith, some_p) in
        let lives : live s.mem p ≡ true = o.blocks p ∙ rw (has, no_nil) (or_true (live start p)) in
        elim done [
          | inl some_p1 ↦ resized s p size has lives some_p1 o
          | inr empty ↦ elim (ℕ_discrete (ops.realloc s.mem p size).1 0) [
            | yes nil ↦ dropped s p size has some_p lives empty nil o
            | no some_p1 ↦ resized s p size has lives some_p1 o
          ]
        ]

    free_all-live :
        (mem : S) (ptrs : List ℕ) (x : ℕ)
        → live (free_all ops mem ptrs) x ≡ live mem x && not (member ptrs x)
    unfolding free_all member
    free_all-live mem [] x = and_true (live mem x)
    free_all-live mem (p ∷ ptrs) x =
        free_all-live (ops.free mem p) ptrs x
        ∙ ap (λ b. b && not (member ptrs x)) (a.free_live mem p x)
        ∙ and_not (live mem x) (p == x) (member ptrs x)

    run-IsOwned :
        (s : AllocatorSession S) (calls : List Call)
        → AreProper s calls
        → IsOwned s
        → IsOwned (run s calls)
    run-IsOwned s [] proper o = o
    run-IsOwned s (c ∷ calls) (now, later) o =
        run-IsOwned (step s c) calls later (step-IsOwned s c now o)

    flushed : (s : AllocatorSession S) (x : ℕ) → IsOwned s → live (flush ops s).mem x ≡ live start x
    unfolding flush
    flushed s x o =
        free_all-live s.mem s.ptrs x
        ∙ ap (λ b. b && not (member s.ptrs x)) (o.blocks x)
        ∙ all_freed (member s.ptrs x) (0 == x) (live start x) (o.apart x)

    -- With an allocator that behaves as documented: after any calls of a new session that free and
    -- resize only blocks of the session, and whose resizing does not fail, where to resize to 0 may
    -- free the block and return nil, Flush leaves the blocks that were there before the session, and
    -- the session has none.
    pub flush-live :
        (calls : List Call)
        → AreProper (new_allocator_session ops start) calls
        → ((x : ℕ)
            → live (flush ops (run (new_allocator_session ops start) calls)).mem x ≡ live start x)
          × ((flush ops (run (new_allocator_session ops start) calls)).ptrs ≡ [])
    unfolding flush new_allocator_session member
    flush-live calls proper =
        let s = run (new_allocator_session ops start) calls in
        let o =
          run-IsOwned (new_allocator_session ops start) calls proper
            (record { blocks = λ x. or_false (live start x); apart = λ x has. cc }) in
        ((λ x. flushed s x o), refl)

    -- With an allocator that behaves as documented: when resizing a live block to a size that is
    -- not 0 fails, the session forgets the block, which is still live after Flush.
    pub realloc_leak :
        (s : AllocatorSession S) (p size : ℕ)
        → p ≢ 0
        → size ≢ 0
        → live s.mem p ≡ true
        → (realloc ops s p size).1 ≡ 0
        → live (flush ops (realloc ops s p size).0).mem p ≡ true
    unfolding realloc flush
    realloc_leak s p size some_p some_size lives fails =
        let moves : (p == (ops.realloc s.mem p size).1) ≡ false = ground (arith, some_p, fails) in
        let left = delete_ptr p (add_ptr (ops.realloc s.mem p size).1 s.ptrs) in
        let same : (p == p) ≡ true = ground arith in
        let forgotten : member left p ≡ false =
          member-delete_ptr p (add_ptr (ops.realloc s.mem p size).1 s.ptrs) p
          ∙ rw same (ground arith) in
        rw moves (
          free_all-live (ops.realloc s.mem p size).0 left p
          ∙ rw (forgotten, a.realloc_fails s.mem p size p lives some_size fails, lives) refl)
