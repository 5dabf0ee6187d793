-- ===== src/Ethdev/Flow/Rss/Owned.antt =====
-- Which blocks of the heap belong to an action: its structure and its two arrays.
use go_dpdk.Base.{
  ℕ, ◌≡◌, ◌≢◌, refl, sym, ap, ◌∙◌, arith, Bool, true, false, not, ◌&&◌, ◌||◌, ◌==◌, ℕ_discrete,
}
use go_dpdk.Common.Allocator.{Ops}
use go_dpdk.Common.Allocator.Session.{IsAllocator}

abbrev pub owns : (cptr queue key : ℕ) → ℕ → Bool
owns cptr queue key x = not (0 == x) && ((cptr == x) || ((queue == x) || (key == x)))

-- `some b` is one of the alternatives.
or_swap : (n c q k : Bool) → n && (c || (q || k)) ≡ n && (c || (k || q))
or_swap n c true true = refl
or_swap n c true false = refl
or_swap n c false true = refl
or_swap n c false false = refl

new_block :
    (before : Bool) (p x : ℕ)
    → p ≢ 0
    → before || ((p == x) && not (p == 0)) ≡ before || owns p 0 0 x
new_block true p x some_p = refl
new_block false p x some_p = ground (arith, some_p)

owned_one : (p x : ℕ) → owns p 0 0 x ≡ true → p ≡ x
owned_one p x h = ground (arith, h)

unowned :
    (before : Bool) (cptr queue key p : ℕ)
    → before || owns cptr queue key p ≡ false
    → p ≢ 0
    → (p ≢ cptr) × (p ≢ queue) × (p ≢ key)
unowned true cptr queue key p h some_p = absurd cc
unowned false cptr queue key p h some_p = (
  λ e. ground (arith, h, some_p, e),
  λ e. ground (arith, h, some_p, e),
  λ e. ground (arith, h, some_p, e),
)

before_fresh :
    (before : Bool) (cptr queue key p : ℕ)
    → before || owns cptr queue key p ≡ false
    → before ≡ false
before_fresh true cptr queue key p h = h
before_fresh false cptr queue key p h = refl

still_owned :
    (cptr queue key p x : ℕ) → p ≢ x → owns cptr p key x ≡ true → owns cptr queue key x ≡ true
still_owned cptr queue key p x there h = ground (arith, there, h)

in_place :
    (before : Bool) (cptr queue key p x : ℕ)
    → p ≢ 0
    → p ≢ queue
    → queue ≢ cptr
    → (queue ≡ key → queue ≡ 0)
    → (owns cptr queue key x ≡ true → before ≡ false)
    → (x ≡ 0 → before ≡ false)
    → ((before || owns cptr queue key x) || ((p == x) && not (p == 0))) && not (queue == x)
      ≡ before || owns cptr p key x
in_place true cptr queue key p x some_p off off' differ apart nil = ground arith
in_place false cptr queue key p x some_p off off' differ apart nil = ground arith

is_block :
    (before : Bool) (cptr queue key : ℕ) (more : Bool)
    → (queue == 0) || ((before || owns cptr queue key queue) || more) ≡ true
is_block before cptr queue key more = ground arith

is_block' :
    (before : Bool) (cptr queue key : ℕ)
    → (queue == 0) || (before || owns cptr queue key queue) ≡ true
is_block' before cptr queue key = ground arith

second :
    (before : Bool) (cptr queue key : ℕ)
    → (queue ≡ key → queue ≡ 0)
    → (queue == 0) || ((before || owns cptr queue key queue) && not (key == queue)) ≡ true
second before cptr queue key differ = ground (arith, differ)

third :
    (before : Bool) (cptr queue key : ℕ)
    → queue ≢ cptr
    → key ≢ cptr
    → (cptr == 0)
        || (((before || owns cptr queue key cptr) && not (key == cptr)) && not (queue == cptr))
      ≡ true
third before cptr queue key q k = ground (arith, q, k)

all_freed :
    (before : Bool) (cptr queue key x : ℕ)
    → (owns cptr queue key x ≡ true → before ≡ false)
    → (x ≡ 0 → before ≡ false)
    → ((((before || owns cptr queue key x) && not (key == x)) && not (queue == x))
        && not (cptr == x))
      ≡ before
all_freed true cptr queue key x apart nil = ground arith
all_freed false cptr queue key x apart nil = ground arith

module _ {S : Type 0} (ops : Ops S) (live : S → ℕ → Bool) where
  -- The blocks of `heap` are those of `start` and the three, and none is of both.
  pub record IsOwned (start heap : S) (cptr queue key : ℕ) : Type 0 where
    pub some_cptr : cptr ≢ 0
    pub blocks : (x : ℕ) → live heap x ≡ live start x || owns cptr queue key x
    pub apart : (x : ℕ) → owns cptr queue key x ≡ true → live start x ≡ false
    pub queue_off : queue ≢ cptr
    pub key_off : key ≢ cptr
    pub differ : queue ≡ key → queue ≡ 0

  pub swapped :
      {start heap : S} {cptr queue key : ℕ}
      → IsOwned start heap cptr queue key
      → IsOwned start heap cptr key queue
  swapped {start} {heap} {cptr} {queue} {key} o = record {
    some_cptr = o.some_cptr;
    blocks = λ x.
        o.blocks x
        ∙ ap (λ b. live start x || b) (or_swap (not (0 == x)) (cptr == x) (queue == x) (key == x));
    apart = λ x h. o.apart x (or_swap (not (0 == x)) (cptr == x) (queue == x) (key == x) ∙ h);
    queue_off = o.key_off;
    key_off = o.queue_off;
    differ = λ e. e ∙ o.differ (sym e);
  }

  module _ (a : IsAllocator ops live)
      (filled : (s : S) (size : ℕ) → (ops.malloc s size).1 ≢ 0) where
    -- The first block.
    pub allocated :
        (start : S) (size : ℕ)
        → IsOwned start (ops.malloc start size).0 (ops.malloc start size).1 0 0
    allocated start size =
        let p = (ops.malloc start size).1 in
        record {
          some_cptr = filled start size;
          blocks =
              λ x. a.malloc_live start size x ∙ new_block (live start x) p x (filled start size);
          apart = λ x h.
              let here : p ≡ x = owned_one p x h in
              ap (live start) (sym here) ∙ a.malloc_fresh start size;
          queue_off = λ e. filled start size (sym e);
          key_off = λ e. filled start size (sym e);
          differ = λ e. refl;
        }

    -- An array in the place of another, which is freed.
    pub replaced :
        (start heap : S) (cptr queue key size : ℕ)
        → IsOwned start heap cptr queue key
        → IsOwned start (ops.free (ops.malloc heap size).0 queue) cptr (ops.malloc heap size).1 key
    replaced start heap cptr queue key size o =
        let p = (ops.malloc heap size).1 in
        let h1 = (ops.malloc heap size).0 in
        let fresh = sym (o.blocks p) ∙ a.malloc_fresh heap size in
        let (off_cptr, off_queue, off_key) =
          unowned (live start p) cptr queue key p fresh (filled heap size) in
        record {
          some_cptr = o.some_cptr;
          blocks = λ x.
              a.free_live h1 queue x
              ∙ rw (a.malloc_live heap size x, o.blocks x)
                  (in_place (live start x) cptr queue key p x (filled heap size) off_queue
                    o.queue_off o.differ (o.apart x) (λ e. ap (live start) e ∙ a.nil_dead start));
          apart = λ x h. elim (ℕ_discrete p x) [
            | yes here ↦
                ap (live start) (sym here) ∙ before_fresh (live start p) cptr queue key p fresh
            | no there ↦ o.apart x (still_owned cptr queue key p x there h)
          ];
          queue_off = off_cptr;
          key_off = o.key_off;
          differ = λ e. absurd (off_key e);
        }

    -- The old array may be freed.
    pub freeable :
        (start heap : S) (cptr queue key size : ℕ)
        → IsOwned start heap cptr queue key
        → (queue == 0) || live (ops.malloc heap size).0 queue ≡ true
    freeable start heap cptr queue key size o =
        let p = (ops.malloc heap size).1 in
        rw (a.malloc_live heap size queue, o.blocks queue)
          (is_block (live start queue) cptr queue key ((p == queue) && not (p == 0)))

    -- Freeing the three leaves what was there at the start.
    pub released :
        (start heap : S) (cptr queue key : ℕ)
        → IsOwned start heap cptr queue key
        → ((key == 0) || live heap key ≡ true)
          × ((queue == 0) || live (ops.free heap key) queue ≡ true)
          × ((cptr == 0) || live (ops.free (ops.free heap key) queue) cptr ≡ true)
          × ((x : ℕ) → live (ops.free (ops.free (ops.free heap key) queue) cptr) x ≡ live start x)
    released start heap cptr queue key o =
        let o' = swapped o in
        (
          rw (o.blocks key, or_swap (not (0 == key)) (cptr == key) (queue == key) (key == key))
              (is_block' (live start key) cptr key queue),
          rw (a.free_live heap key queue, o.blocks queue)
              (second (live start queue) cptr queue key o.differ),
          rw (a.free_live (ops.free heap key) queue cptr, a.free_live heap key cptr, o.blocks cptr)
              (third (live start cptr) cptr queue key o.queue_off o.key_off),
          λ x.
              a.free_live (ops.free (ops.free heap key) queue) cptr x
              ∙ rw (a.free_live (ops.free heap key) queue x, a.free_live heap key x, o.blocks x)
                  (all_freed (live start x) cptr queue key x (o.apart x)
                    (λ e. ap (live start) e ∙ a.nil_dead start)),
        )
