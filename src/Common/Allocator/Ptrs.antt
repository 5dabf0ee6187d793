-- ===== src/Common/Allocator/Ptrs.antt =====
-- The set of pointers of a session, and the Boolean facts about what is live.
use go_dpdk.Base.{
  ℕ, ◌≡◌, refl, sym, ap, ◌∙◌, inl, inr, arith, Bool, true, false, not, ◌&&◌, ◌||◌, List, [], ◌∷◌,
  ◌==◌, Bool-cases,
}
use go_dpdk.Common.Set.Insert.{member}
use go_dpdk.Common.Allocator.{add_ptr, delete_ptr}

pub member-add_ptr :
    (p : ℕ) (ptrs : List ℕ) (x : ℕ) → member (add_ptr p ptrs) x ≡ (p == x) || member ptrs x
unfolding add_ptr member
member-add_ptr p ptrs x = elim (Bool-cases (member ptrs p)) [
  | inl there ↦ elim (Bool-cases (p == x)) [
    | inl same ↦
        let e : p ≡ x = ground (arith, same) in
        let has : member ptrs x ≡ true = ap (member ptrs) (sym e) ∙ there in rw (there, same) has
    | inr other ↦ rw (there, other) refl
  ]
  | inr new ↦ rw new refl
]

pub member-delete_ptr :
    (p : ℕ) (ptrs : List ℕ) (x : ℕ) → member (delete_ptr p ptrs) x ≡ member ptrs x && not (p == x)
unfolding delete_ptr member
member-delete_ptr p [] x = refl
member-delete_ptr p (y ∷ ptrs) x = ground (arith, member-delete_ptr p ptrs x)

pub and_true : (b : Bool) → b ≡ b && true
and_true true = refl
and_true false = refl

pub all_freed :
    (in_session at_nil before : Bool)
    → (in_session ≡ true → before ≡ false)
    → (before || (in_session && not at_nil)) && not in_session ≡ before
all_freed true at_nil before h = ground (arith, h refl)
all_freed false at_nil before h = ground arith

pub or_false : (b : Bool) → b ≡ b || false
or_false true = refl
or_false false = refl

pub or_true : (b : Bool) → b || true ≡ true
or_true true = refl
or_true false = refl

pub and_not : (b c d : Bool) → (b && not c) && not d ≡ b && not (c || d)
and_not true true d = refl
and_not true false d = refl
and_not false c d = refl

pub both_added :
    (same nil at_nil before in_session : Bool)
    → (same ≡ true → nil ≡ at_nil)
    → (before || (in_session && not at_nil)) || (same && not nil)
      ≡ before || ((same || in_session) && not at_nil)
both_added same nil at_nil true in_session h = refl
both_added true nil at_nil false true h = ground (arith, h refl)
both_added true nil at_nil false false h = ground (arith, h refl)
both_added false nil at_nil false true h = ground (arith, h)
both_added false nil at_nil false false h = refl

pub one_removed :
    (same at_nil before in_session : Bool)
    → (same ≡ true → before ≡ false)
    → (before || (in_session && not at_nil)) && not same
      ≡ before || ((in_session && not same) && not at_nil)
one_removed true at_nil before in_session h = ground (arith, h refl)
one_removed false at_nil before in_session h = ground arith

pub moved :
    (new same at_nil before in_session : Bool)
    → (same ≡ true → before ≡ false)
    → (new ≡ true → same ≡ false)
    → (new ≡ true → at_nil ≡ false)
    → new || ((before || (in_session && not at_nil)) && not same)
      ≡ before || (((new || in_session) && not same) && not at_nil)
moved true same at_nil before in_session h k l = ground (arith, k refl, l refl)
moved false true at_nil before in_session h k l = ground (arith, h refl)
moved false false at_nil before in_session h k l = ground arith

pub nil_added :
    (same at_nil before in_session : Bool)
    → (same ≡ true → before ≡ false)
    → (before || (in_session && not at_nil)) && not same
      ≡ before || (((at_nil || in_session) && not same) && not at_nil)
nil_added true at_nil before in_session h = ground (arith, h refl)
nil_added false true before true h = ground arith
nil_added false true before false h = ground arith
nil_added false false before in_session h = ground arith
