-- ===== src/Ring/Tests.antt =====
-- Rings in a small C library: memory is counted, and a ring of no objects is not initialized.
use go_dpdk.Base.{
  ℕ, suc, ◌+◌, ◌*◌, ◌≡◌, ◌≢◌, ◌↔◌, refl, arith, Bool, true, not, ◌&&◌, List, [], ◌∷◌, ◌==◌, pos,
  negsuc, if◌then◌else◌,
}
use go_dpdk.Common.Errno.{Error, Codes, int_or_err, int_to_err, errno}
use go_dpdk.Common.Allocator.Counter.{Counter, live, moved}
use go_dpdk.Ring.{
  RingOption, opt_align, opt_flag, make_opts, apply_options, apply_option, Rte, get_mem_size, init,
  create, new_eal,
}
use go_dpdk.Ring.Lifecycle.{IsRte, IsMade, create-IsMade}
use go_dpdk.Ring.Eal.{eal_size, eal_block, eal_inited, new_eal-IsMade}

abbrev Library : Type 0
Library = Counter × (ℕ → ℕ)

abbrev zone_put : (ℕ → ℕ) → ℕ → ℕ → (ℕ → ℕ)
zone_put zones r z x = if r == x then z else zones x

abbrev small : Rte Library
small = record {
  memsize = λ count. pos (64 + 8 * count);
  zmalloc = λ s size align socket. ((moved s.0 0, s.1), suc s.0.0);
  rte_free = λ s p. ((s.0.0, λ x. s.0.1 x && not (p == x)), s.1);
  ring_init = λ s r count flags. ((s.0, zone_put s.1 r 0), if count == 0 then negsuc 21 else pos 0);
  ring_create = λ s count socket flags. ((moved s.0 0, zone_put s.1 (suc s.0.0) 1), suc s.0.0);
  ring_free = λ s r. ((s.0.0, λ x. s.0.1 x && not (r == x)), s.1);
  memzone = λ s r. s.1 r;
  errno_of = λ s. pos 12;
  go_make = λ s size. (s, 1);
}

abbrev live_in : Library → ℕ → Bool
live_in s x = live s.0 x

abbrev codes : Codes
codes = record { no_config = 1001; secondary = 1002; max_errno = 1003; min_errno = 1000 }

zone_lem : (zones : ℕ → ℕ) (r z : ℕ) → zone_put zones r z r ≡ z
zone_lem zones r z = ground arith

small-IsRte : IsRte small live_in
small-IsRte = record {
  nil_dead = λ s. refl;
  zmalloc_live = λ s size align socket x. ground arith;
  zmalloc_fresh = λ s size align socket. ground arith;
  free_live = λ s p x. ground arith;
  init_live = λ s r count flags x. refl;
  init_memzone = λ s r count flags e. zone_lem s.1 r 0;
  create_live = λ s count socket flags x. ground arith;
  create_fresh = λ s count socket flags. ground arith;
  create_memzone = λ s count socket flags some_r e.
      let one : zone_put s.1 (suc s.0.0) 1 (suc s.0.0) ≡ 1 = zone_lem s.1 (suc s.0.0) 1 in
      omega (arith, one, e);
  create_errno = λ s count socket flags nil. absurd (omega (arith, nil));
  ring_free_live = λ s r x e. ground arith;
}

abbrev start : Library
start = ((1, λ x. true), λ r. 0)

abbrev opts : List RingOption
opts = opt_align 64 ∷ opt_flag 1 ∷ opt_flag 2 ∷ []

made : (new_eal small codes start 8 opts).1 ≡ record { r = 2; err = Error.no_error }
unfolding new_eal get_mem_size int_or_err make_opts apply_options apply_option init int_to_err errno
made = refl

not_made : (new_eal small codes start 0 opts).1.r ≡ 0
unfolding new_eal get_mem_size int_or_err make_opts apply_options apply_option init int_to_err errno
not_made = refl

new_eal-IsMade_example :
    IsMade small codes live_in start (new_eal small codes start 8 opts)
    × (((new_eal small codes start 8 opts).1.err ≡ Error.no_error) ↔ (
        ((eal_size small codes 8).1 ≡ Error.no_error)
        × ((eal_block small codes start 8 opts).1 ≢ 0)
        × ((eal_inited small codes start 8 opts).1 ≡ Error.no_error)))
new_eal-IsMade_example = new_eal-IsMade small codes live_in small-IsRte start 8 opts

created_ring : IsMade small codes live_in start (create small codes start 8 opts)
created_ring = create-IsMade small codes live_in small-IsRte start 8 opts
