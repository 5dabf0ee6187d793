-- ===== src/Ring/Lifecycle.antt =====
-- Who owns the memory of a ring, from NewEAL or Create to Free.
use go_dpdk.Base.{
  ℕ, ◌≡◌, ◌≢◌, refl, sym, ap, ◌∙◌, arith, Bool, true, false, not, ◌&&◌, ◌||◌, List, ◌==◌, u32, ℤ,
  pos, ℕ_discrete,
}
use go_dpdk.Common.Errno.{Error, Codes, int_err, rte_errno, errno-no_error}
use go_dpdk.Ring.{RingOption, make_opts, Rte, Made, is_nil, create, free}

-- What is documented of the C library: `live` says at which addresses there is memory that it has
-- given. What it gives was not live, and 0 is none; nothing else changes. A ring that is
-- initialized in memory of the caller's has no memory zone, and one that is created has one.
pub record IsRte {S : Type 0} (rte : Rte S) (live : S → ℕ → Bool) : Type 0 where
  pub nil_dead : (s : S) → live s 0 ≡ false
  pub zmalloc_live :
      (s : S) (size align socket x : ℕ)
      → live (rte.zmalloc s size align socket).0 x
        ≡ live s x
          || (((rte.zmalloc s size align socket).1 == x)
              && not ((rte.zmalloc s size align socket).1 == 0))
  pub zmalloc_fresh :
      (s : S) (size align socket : ℕ) → live s (rte.zmalloc s size align socket).1 ≡ false
  pub free_live : (s : S) (p x : ℕ) → live (rte.rte_free s p) x ≡ live s x && not (p == x)
  pub init_live :
      (s : S) (r count flags x : ℕ) → live (rte.ring_init s r count flags).0 x ≡ live s x
  pub init_memzone :
      (s : S) (r count flags : ℕ)
      → (rte.ring_init s r count flags).1 ≡ pos 0
      → rte.memzone (rte.ring_init s r count flags).0 r ≡ 0
  pub create_live :
      (s : S) (count socket flags x : ℕ)
      → live (rte.ring_create s count socket flags).0 x
        ≡ live s x
          || (((rte.ring_create s count socket flags).1 == x)
              && not ((rte.ring_create s count socket flags).1 == 0))
  pub create_fresh :
      (s : S) (count socket flags : ℕ) → live s (rte.ring_create s count socket flags).1 ≡ false
  pub create_memzone :
      (s : S) (count socket flags : ℕ)
      → (rte.ring_create s count socket flags).1 ≢ 0
      → rte.memzone
          (rte.ring_create s count socket flags).0
          (rte.ring_create s count socket flags).1
        ≢ 0
  pub create_errno :
      (s : S) (count socket flags : ℕ)
      → (rte.ring_create s count socket flags).1 ≡ 0
      → rte.errno_of (rte.ring_create s count socket flags).0 ≢ pos 0
  pub ring_free_live :
      (s : S) (r x : ℕ)
      → rte.memzone s r ≢ 0
      → live (rte.ring_free s r) x ≡ live s x && not (r == x)

pub nil-no_error : (e : Error) → is_nil e ≡ true → e ≡ Error.no_error
nil-no_error Error.no_error h = refl
nil-no_error Error.err_no_config h = absurd cc
nil-no_error Error.err_secondary h = absurd cc
nil-no_error Error.err_max_errno h = absurd cc
nil-no_error Error.err_min_errno h = absurd cc
nil-no_error (Error.not_match n) h = absurd cc
nil-no_error (Error.syscall_errno n) h = absurd cc

pub some_error : (e : Error) → is_nil e ≡ false → e ≢ Error.no_error
some_error e h p = let nil : is_nil e ≡ true = ap is_nil p in cc

rte_errno-some : (codes : Codes) (n : ℤ) → n ≢ pos 0 → rte_errno codes n ≢ Error.no_error
unfolding rte_errno int_err
rte_errno-some codes n h e = h ((errno-no_error codes n).0 e)

pub given_back :
    (before here nil : Bool)
    → (here ≡ true → before ≡ false)
    → nil ≡ false
    → (before || (here && not nil)) && not here ≡ before
given_back true true nil h n = absurd (ground (arith, h refl))
given_back true false nil h n = refl
given_back false here nil h n = ground arith

pub not_given : (before here : Bool) → before || (here && not true) ≡ before
not_given true here = refl
not_given false here = ground arith

pub given : (before here : Bool) → before || (here && not false) ≡ before || here
given before true = refl
given before false = refl

pub dead : (live : ℕ → Bool) (r x : ℕ) → live r ≡ false → (r == x) ≡ true → live x ≡ false
dead live r x fresh h = let e : r ≡ x = ground (arith, h) in ap live (sym e) ∙ fresh

module _ {S : Type 0} (rte : Rte S) (codes : Codes) (live : S → ℕ → Bool) where
  -- A function that has made a ring, or failed: a ring is in memory that was not live before, which
  -- Free gives back; without one the memory is as before.
  pub record IsMade (s : S) (made : S × Made) : Type 0 where
    pub success :
        made.1.err ≡ Error.no_error
        → (made.1.r ≢ 0)
          × (live s made.1.r ≡ false)
          × ((x : ℕ) → live made.0 x ≡ live s x || (made.1.r == x))
          × ((x : ℕ) → live (free rte codes made.0 made.1.r) x ≡ live s x)
    pub failure :
        made.1.err ≢ Error.no_error → (made.1.r ≡ 0) × ((x : ℕ) → live made.0 x ≡ live s x)

  module _ (a : IsRte rte live) where
    pub free_eal :
        (s : S) (r x : ℕ)
        → rte.memzone s r ≡ 0
        → live (free rte codes s r) x ≡ live s x && not (r == x)
    unfolding free
    free_eal s r x e =
        let test : (not (r == 0) && not (rte.memzone s r == 0)) ≡ false = ground (arith, e) in
        rw test (a.free_live s r x)

    free_created :
        (s : S) (r x : ℕ)
        → r ≢ 0
        → rte.memzone s r ≢ 0
        → live (free rte codes s r) x ≡ live s x && not (r == x)
    unfolding free
    free_created s r x some_r e =
        let test : (not (r == 0) && not (rte.memzone s r == 0)) ≡ true =
          ground (arith, some_r, e) in
        rw test (a.ring_free_live s r x e)

    pub create-IsMade :
        (s : S) (count : ℕ) (opts : List RingOption) → IsMade s (create rte codes s count opts)
    unfolding create
    create-IsMade s count opts =
        let rc = make_opts opts in
        let s' = (rte.ring_create s (u32 count) rc.socket rc.flags).0 in
        let r = (rte.ring_create s (u32 count) rc.socket rc.flags).1 in
        let lives = a.create_live s (u32 count) rc.socket rc.flags in
        elim (ℕ_discrete r 0) [
          | yes nil ↦
              let test : (r == 0) ≡ true = ground (arith, nil) in
              rw test (record {
                success = λ e. absurd (
                    rte_errno-some codes (rte.errno_of s')
                      (a.create_errno s (u32 count) rc.socket rc.flags nil) e);
                failure = λ e. (refl, λ x. lives x ∙ rw test (not_given (live s x) (r == x)));
              })
          | no some_r ↦
              let test : (r == 0) ≡ false = ground (arith, some_r) in
              let fresh = a.create_fresh s (u32 count) rc.socket rc.flags in
              rw test (record {
                success = λ e. (
                  some_r,
                  fresh,
                  λ x. lives x ∙ rw test (given (live s x) (r == x)),
                  λ x.
                      free_created s' r x some_r
                        (a.create_memzone s (u32 count) rc.socket rc.flags some_r)
                      ∙ ap (λ b. b && not (r == x)) (lives x)
                      ∙ given_back (live s x) (r == x) (r == 0) (λ h. dead (live s) r x fresh h)
                          test,
                );
                failure = λ e. absurd (e refl);
              })
        ]
