-- ===== src/Memzone/Reserved.antt =====
-- Which call Reserve makes, by its options.
use go_dpdk.Base.{
  ℕ, ◌≡◌, ◌↔◌, arith, Bool, true, false, ◌||◌, ◌&&◌, not, Option, none, some, List, [], ◌∷◌,
}
use go_dpdk.Memzone.{
  ReserveOption, opt_socket, opt_flag, opt_aligned, opt_bounded, Conf, apply_option, apply_options,
  Rte, panicked, checked, do_reserve, initial, reserve,
}

is_some : Option ℕ → Bool
is_some none = false
is_some (some x) = true

-- An option of the kind is among them.
pub has_aligned : List ReserveOption → Bool
has_aligned [] = false
has_aligned (opt_aligned align ∷ opts) = true
has_aligned (opt_socket n ∷ opts) = has_aligned opts
has_aligned (opt_flag n ∷ opts) = has_aligned opts
has_aligned (opt_bounded n ∷ opts) = has_aligned opts

pub has_bounded : List ReserveOption → Bool
has_bounded [] = false
has_bounded (opt_bounded bound ∷ opts) = true
has_bounded (opt_socket n ∷ opts) = has_bounded opts
has_bounded (opt_flag n ∷ opts) = has_bounded opts
has_bounded (opt_aligned n ∷ opts) = has_bounded opts

options_present :
    (opts : List ReserveOption) (rc : Conf)
    → (is_some (apply_options opts rc).aligned ≡ (is_some rc.aligned || has_aligned opts))
      × (is_some (apply_options opts rc).bound ≡ (is_some rc.bound || has_bounded opts))
unfolding apply_options apply_option is_some has_aligned has_bounded
options_present [] rc = ground arith
options_present (opt_socket n ∷ opts) rc = options_present opts (apply_option (opt_socket n) rc)
options_present (opt_flag n ∷ opts) rc = options_present opts (apply_option (opt_flag n) rc)
options_present (opt_aligned n ∷ opts) rc =
    ground (arith, options_present opts (apply_option (opt_aligned n) rc))
options_present (opt_bounded n ∷ opts) rc =
    ground (arith, options_present opts (apply_option (opt_bounded n) rc))

module _ {ℓ} {Z : Type ℓ} (rte : Rte Z) where
  do_reserve-panicked :
      (rc : Conf) (bound aligned : Option ℕ)
      → (do_reserve rte rc bound aligned ≡ panicked)
        ↔ ((is_some bound && not (is_some aligned)) ≡ true)
  unfolding do_reserve checked is_some
  do_reserve-panicked rc bound aligned = (λ e. ground arith, λ e. ground arith)

  -- Reserve panics exactly when its options hold an OptBounded and no OptAligned, in any order and
  -- whatever the C library answers.
  pub reserve-panicked :
      (size : ℕ) (opts : List ReserveOption)
      → (reserve rte size opts ≡ panicked) ↔ ((has_bounded opts && not (has_aligned opts)) ≡ true)
  unfolding reserve is_some
  reserve-panicked size opts =
      let rc = apply_options opts (initial size) in
      let present = options_present opts (initial size) in
      let panics = do_reserve-panicked rc rc.bound rc.aligned in
      (λ e. ground (arith, present, panics.0 e), λ e. panics.1 (ground (arith, present)))
