-- ===== src/Ring/Eal.antt =====
-- NewEAL: a ring in memory of the EAL, or no memory taken.
use go_dpdk.Base.{
  ℕ, ◌≡◌, ◌≢◌, ◌↔◌, refl, sym, ap, ◌∙◌, arith, Bool, true, false, not, ◌&&◌, ◌||◌, Bool-cases, inl,
  inr, List, ◌==◌, u32, ℕ_discrete,
}
use go_dpdk.Common.Errno.{Error, Codes, int_err, int_to_err, errno-no_error}
use go_dpdk.Ring.{RingOption, make_opts, Rte, is_nil, enomem, get_mem_size, init, new_eal, free}
use go_dpdk.Ring.Lifecycle.{
  IsRte, IsMade, nil-no_error, some_error, given, given_back, not_given, dead, free_eal,
}

-- The three steps of NewEAL: the size, the memory, and the ring in it.
module _ {S : Type 0} (rte : Rte S) (codes : Codes) where
  abbrev pub eal_size : (count : ℕ) → ℕ × Error
  eal_size count = get_mem_size rte codes count

  abbrev pub eal_block : S → (count : ℕ) → List RingOption → S × ℕ
  eal_block s count opts =
      rte.zmalloc s (eal_size count).0 (make_opts opts).align (make_opts opts).socket

  abbrev pub eal_inited : S → (count : ℕ) → List RingOption → S × Error
  eal_inited s count opts =
      init rte codes (eal_block s count opts).0 (eal_block s count opts).1 count opts

module _ {S : Type 0} (rte : Rte S) (codes : Codes) (live : S → ℕ → Bool) (a : IsRte rte live) where
  init_fine :
      (s : S) (r count : ℕ) (opts : List RingOption)
      → (init rte codes s r count opts).1 ≡ Error.no_error
      → rte.memzone (init rte codes s r count opts).0 r ≡ 0
  unfolding init int_to_err int_err
  init_fine s r count opts e =
      a.init_memzone s r (u32 count) (make_opts opts).flags ((errno-no_error codes _).0 e)

  init_kept :
      (s : S) (r count : ℕ) (opts : List RingOption) (x : ℕ)
      → live (init rte codes s r count opts).0 x ≡ live s x
  unfolding init
  init_kept s r count opts x = a.init_live s r (u32 count) (make_opts opts).flags x

  module _ (s : S) (count : ℕ) (opts : List RingOption) where
    abbrev size : ℕ × Error
    size = eal_size rte codes count

    abbrev block : S × ℕ
    block = eal_block rte codes s count opts

    abbrev inited : S × Error
    inited = eal_inited rte codes s count opts

    block_live : (x : ℕ) → live block.0 x ≡ live s x || ((block.1 == x) && not (block.1 == 0))
    block_live x = a.zmalloc_live s size.0 (make_opts opts).align (make_opts opts).socket x

    block_fresh : live s block.1 ≡ false
    block_fresh = a.zmalloc_fresh s size.0 (make_opts opts).align (make_opts opts).socket

    inited_live :
        block.1 ≢ 0 → (x : ℕ) → live inited.0 x ≡ live s x || ((block.1 == x) && not false)
    inited_live some_r x =
        let test : (block.1 == 0) ≡ false = ground (arith, some_r) in
        init_kept block.0 block.1 count opts x ∙ block_live x ∙ rw test refl

    freed :
        block.1 ≢ 0
        → (s' : S) (x : ℕ) → live s' x ≡ live inited.0 x && not (block.1 == x)
        → live s' x ≡ live s x
    freed some_r s' x e =
        e
        ∙ ap (λ b. b && not (block.1 == x)) (inited_live some_r x)
        ∙ given_back (live s x) (block.1 == x) false (λ h. dead (live s) block.1 x block_fresh h)
            refl

    no_size : is_nil size.1 ≡ false → IsMade rte codes live s (new_eal rte codes s count opts)
    unfolding new_eal
    no_size e =
        rw e (record {
          success = λ h. absurd (some_error size.1 e h);
          failure = λ h. (refl, λ x. refl);
        })

    no_block :
        is_nil size.1 ≡ true
        → block.1 ≡ 0
        → IsMade rte codes live s (new_eal rte codes s count opts)
    unfolding new_eal
    no_block e nil =
        let test : (block.1 == 0) ≡ true = ground (arith, nil) in
        rw (e, test)
          (record {
            success = λ h. absurd cc;
            failure =
                λ h. (refl, λ x. block_live x ∙ rw test (not_given (live s x) (block.1 == x)));
          })

    with_block :
        is_nil size.1 ≡ true
        → block.1 ≢ 0
        → IsMade rte codes live s (new_eal rte codes s count opts)
    unfolding new_eal
    with_block e some_r =
        let test : (block.1 == 0) ≡ false = ground (arith, some_r) in
        elim (Bool-cases (is_nil inited.1)) [
          | inl fine ↦
              let no_err = nil-no_error inited.1 fine in
              rw (e, test, fine)
                (record {
                  success = λ h. (
                    some_r,
                    block_fresh,
                    λ x. inited_live some_r x ∙ given (live s x) (block.1 == x),
                    λ x. freed some_r (free rte codes inited.0 block.1) x (
                        free_eal rte codes live a inited.0 block.1 x
                          (init_fine block.0 block.1 count opts no_err)),
                  );
                  failure = λ h. absurd (h refl);
                })
          | inr wrong ↦
              rw (e, test, wrong)
                (record {
                  success = λ h. absurd (some_error inited.1 wrong h);
                  failure = λ h. (
                    refl,
                    λ x.
                        freed some_r (rte.rte_free inited.0 block.1) x
                          (a.free_live inited.0 block.1 x),
                  );
                })
        ]

    fails_size : is_nil size.1 ≡ false → (new_eal rte codes s count opts).1.err ≡ Error.no_error → ⊥
    unfolding new_eal
    fails_size e = rw e (λ h. some_error size.1 e h)

    fails_block :
        is_nil size.1 ≡ true
        → (block.1 == 0) ≡ true
        → (new_eal rte codes s count opts).1.err ≡ Error.no_error
        → ⊥
    unfolding new_eal
    fails_block e nil = rw (e, nil) (λ h. some_error enomem refl h)

    ends_init :
        is_nil size.1 ≡ true
        → (block.1 == 0) ≡ false
        → (new_eal rte codes s count opts).1.err ≡ inited.1
    unfolding new_eal
    ends_init e some_r = elim (Bool-cases (is_nil inited.1)) [
      | inl fine ↦ rw (e, some_r, fine) (sym (nil-no_error inited.1 fine))
      | inr wrong ↦ rw (e, some_r, wrong) refl
    ]

    succeeds :
        (new_eal rte codes s count opts).1.err ≡ Error.no_error
        → (size.1 ≡ Error.no_error) × (block.1 ≢ 0) × (inited.1 ≡ Error.no_error)
    succeeds h = elim (Bool-cases (is_nil size.1)) [
      | inr wrong ↦ absurd (fails_size wrong h)
      | inl fine ↦ elim (Bool-cases (block.1 == 0)) [
        | inl nil ↦ absurd (fails_block fine nil h)
        | inr some_r ↦ (
          nil-no_error size.1 fine,
          λ e. ground (arith, some_r, e),
          sym (ends_init fine some_r) ∙ h,
        )
      ]
    ]

    -- With a C library that behaves as documented, NewEAL either returns no error and a ring in
    -- memory that was not live before, which is all that it took and which Free gives back, or an
    -- error, no ring and the memory as before; it returns no error exactly where the size is known,
    -- there is memory, and the ring is initialized.
    pub new_eal-IsMade :
        IsMade rte codes live s (new_eal rte codes s count opts)
        × (((new_eal rte codes s count opts).1.err ≡ Error.no_error) ↔ (
            ((eal_size rte codes count).1 ≡ Error.no_error)
            × ((eal_block rte codes s count opts).1 ≢ 0)
            × ((eal_inited rte codes s count opts).1 ≡ Error.no_error)))
    new_eal-IsMade = (
      elim (Bool-cases (is_nil size.1)) [
        | inr wrong ↦ no_size wrong
        | inl fine ↦ elim (ℕ_discrete block.1 0) [
          | yes nil ↦ no_block fine nil
          | no some_r ↦ with_block fine some_r
        ]
      ],
      (succeeds, λ (p, q, r). ends_init (ap is_nil p) (ground (arith, q)) ∙ r),
    )
