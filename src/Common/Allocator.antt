-- ===== src/Common/Allocator.antt =====
-- common/allocator.go: the session that frees at once what it has allocated. The allocator that it
-- wraps is a parameter.
mod Ptrs
pub mod Session
pub mod Counter
mod Tests
use go_dpdk.Base.{ℕ, Bool, true, false, not, List, [], ◌∷◌, ◌==◌, if◌then◌else◌}
use go_dpdk.Common.Set.Insert.{member}

-- An allocator is a session around another, or one that is none.
pub data Allocator {ℓ} (A : Type ℓ) : Type ℓ where
  plain : A → Allocator A
  session : Allocator A → Allocator A

unfoldable pub root_alloc {ℓ} : {A : Type ℓ} → Allocator A → A
root_alloc (plain a) = a
root_alloc (session mem) = root_alloc mem

-- The keys of the map `ptrs`.
unfoldable pub add_ptr : ℕ → List ℕ → List ℕ
add_ptr p ptrs = if member ptrs p then ptrs else p ∷ ptrs

unfoldable pub delete_ptr : ℕ → List ℕ → List ℕ
delete_ptr p [] = []
delete_ptr p (x ∷ xs) = let rest = delete_ptr p xs in if x == p then rest else x ∷ rest

-- The operations of an allocator whose state is `S`.
pub record Ops (S : Type 0) : Type 0 where
  pub malloc : S → (size : ℕ) → S × ℕ
  pub free : S → (p : ℕ) → S
  pub realloc : S → (p size : ℕ) → S × ℕ

-- The state of the allocator and the pointers of the session.
pub record AllocatorSession (S : Type 0) : Type 0 where
  pub mem : S
  pub ptrs : List ℕ

module _ {S : Type 0} (ops : Ops S) where
  unfoldable pub malloc : AllocatorSession S → (size : ℕ) → AllocatorSession S × ℕ
  malloc s size =
      let (mem, p) = ops.malloc s.mem size in (record { mem = mem; ptrs = add_ptr p s.ptrs }, p)

  unfoldable pub free : AllocatorSession S → (p : ℕ) → AllocatorSession S
  free s p = record { mem = ops.free s.mem p; ptrs = delete_ptr p s.ptrs }

  unfoldable pub realloc : AllocatorSession S → (p size : ℕ) → AllocatorSession S × ℕ
  realloc s p size =
      let (mem, p1) = ops.realloc s.mem p size in
      let ptrs = if not (p == p1) then delete_ptr p (add_ptr p1 s.ptrs) else s.ptrs in
      (record { mem = mem; ptrs = ptrs }, p1)

  unfoldable pub free_all : S → List ℕ → S
  free_all mem [] = mem
  free_all mem (p ∷ ptrs) = free_all (ops.free mem p) ptrs

  unfoldable pub flush : AllocatorSession S → AllocatorSession S
  flush s = record { mem = free_all s.mem s.ptrs; ptrs = [] }

  unfoldable pub new_allocator_session : S → AllocatorSession S
  new_allocator_session mem = record { mem = mem; ptrs = [] }
