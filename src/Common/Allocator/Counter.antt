-- ===== src/Common/Allocator/Counter.antt =====
-- An allocator that behaves as documented, to run clients of an allocator on.
use go_dpdk.Base.{ℕ, suc, ◌≡◌, ◌≢◌, refl, arith, Bool, true, false, not, ◌&&◌, ◌||◌, ltb, ◌==◌}
use go_dpdk.Common.Allocator.{Ops}
use go_dpdk.Common.Allocator.Session.{IsAllocator}

-- An allocator that counts: the last address, and which addresses up to it are blocks.
abbrev pub Counter : Type 0
Counter = ℕ × (ℕ → Bool)

abbrev pub live : Counter → ℕ → Bool
live s x = ltb 0 x && (ltb x (suc s.0) && s.1 x)

-- The state with the next address in place of `p`.
abbrev pub moved : Counter → ℕ → Counter
moved s p = (suc s.0, λ x. (suc s.0 == x) || (ltb x (suc s.0) && (s.1 x && not (p == x))))

-- The state without `p`.
abbrev pub freed : Counter → ℕ → Counter
freed s p = (s.0, λ x. s.1 x && not (p == x))

-- To resize to no bytes frees the block.
abbrev pub resize : Counter → (p : ℕ) → (to_nothing : Bool) → Counter × ℕ
resize s p true = (freed s p, 0)
resize s p false = (moved s p, suc s.0)

abbrev pub counter : Ops Counter
counter = record {
  malloc = λ s size. (moved s 0, suc s.0);
  free = freed;
  realloc = λ s p size. resize s p (size == 0);
}

resize-live :
    (s : Counter) (p x : ℕ) (b : Bool)
    → (resize s p b).1 ≢ 0
    → live (resize s p b).0 x ≡ ((resize s p b).1 == x) || (live s x && not (p == x))
resize-live s p x true done = absurd (done refl)
resize-live s p x false done = ground arith

resize_fresh : (s : Counter) (p : ℕ) (b : Bool) → live s (resize s p b).1 ≡ false
resize_fresh s p true = refl
resize_fresh s p false = ground arith

resize_fails :
    (s : Counter) (p x : ℕ) (b : Bool)
    → b ≡ false
    → (resize s p b).1 ≡ 0
    → live (resize s p b).0 x ≡ live s x
resize_fails s p x true large e = cc
resize_fails s p x false same e = absurd (omega (arith, e))

resize_frees :
    (s : Counter) (p x : ℕ) (b : Bool)
    → (resize s p b).1 ≡ 0
    → live (resize s p b).0 x ≡ live s x && not (p == x)
resize_frees s p x true e = ground arith
resize_frees s p x false e = absurd (omega (arith, e))

pub counter-IsAllocator : IsAllocator counter live
counter-IsAllocator = record {
  nil_dead = λ s. refl;
  malloc_live = λ s size x. ground arith;
  malloc_fresh = λ s size. ground arith;
  free_live = λ s p x. ground arith;
  realloc_live = λ s p size x lives done. resize-live s p x (size == 0) done;
  realloc_fresh = λ s p size lives moves. resize_fresh s p (size == 0);
  realloc_fails = λ s p size x lives some_size fails.
      resize_fails s p x (size == 0) (ground (arith, some_size)) fails;
  realloc_frees = λ s p size x lives empty nil. resize_frees s p x (size == 0) nil;
}

pub counter_filled : (s : Counter) (size : ℕ) → (counter.malloc s size).1 ≢ 0
counter_filled s size e = omega (arith, e)
