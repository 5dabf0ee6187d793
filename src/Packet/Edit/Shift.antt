-- ===== src/Packet/Edit/Shift.antt =====
-- What the two shifting loops do to each byte.
use go_dpdk.Base.{
  ℕ, zero, suc, ◌+◌, ◌≤◌, ◌<◌, ◌≡◌, ◌≢◌, ◌⊎◌, inl, inr, refl, ap, ◌∙◌, arith, dec_lt,
}
use go_dpdk.Memory.{Memory, load8, store8, load8-store8, load8-lt}
use go_dpdk.Packet.Edit.{shift_up, shift_down}

-- A copied byte, read back at the place of the copy and elsewhere.
pub copy_here : (m : Memory) (a b : ℕ) → load8 (store8 m a (load8 m b)) a ≡ load8 m b
copy_here m a b = ground (arith, load8-store8 m a a (load8 m b), load8-lt m b)

pub copy_ne : (m : Memory) (a b c : ℕ) → c ≢ a → load8 (store8 m a (load8 m b)) c ≡ load8 m c
copy_ne m a b c h = ground (arith, load8-store8 m a c (load8 m b))

module _ (base len : ℕ) where
  -- One round of either loop.
  abbrev copy_down : Memory → ℕ → Memory
  copy_down m i = store8 m (base + i) (load8 m (base + (i + len)))

  abbrev copy_up : Memory → ℕ → Memory
  copy_up m i = store8 m (base + (i + len)) (load8 m (base + i))

  pub shift_down_out :
      (m : Memory) (left i a : ℕ)
      → (a < base + i) ⊎ (base + i + left ≤ a)
      → load8 (shift_down m base len left i) a ≡ load8 m a
  unfolding shift_down
  shift_down_out m zero i a h = refl
  shift_down_out m (suc left) i a h =
      shift_down_out (copy_down m i) left (i + 1) a (ground arith)
      ∙ copy_ne m (base + i) (base + (i + len)) a (ground arith)

  pub shift_down_in :
      (m : Memory) (left i a : ℕ)
      → base + i ≤ a
      → a < base + i + left
      → load8 (shift_down m base len left i) a ≡ load8 m (a + len)
  unfolding shift_down
  shift_down_in m zero i a h k = absurd (omega arith)
  shift_down_in m (suc left) i a h k = elim (dec_lt (base + i) a) [
    | yes later ↦
        shift_down_in (copy_down m i) left (i + 1) a (omega arith) (omega arith)
        ∙ copy_ne m (base + i) (base + (i + len)) (a + len) (omega arith)
    | no here ↦
        let at : a ≡ base + i = omega arith in
        rw at (
          shift_down_out (copy_down m i) left (i + 1) (base + i) (inl (omega arith))
          ∙ copy_here m (base + i) (base + (i + len))
          ∙ ap (load8 m) (omega arith))
  ]

  pub shift_up_out :
      (m : Memory) (low left a : ℕ)
      → (a < base + low + len) ⊎ (base + low + len + left ≤ a)
      → load8 (shift_up m base len low left) a ≡ load8 m a
  unfolding shift_up
  shift_up_out m low zero a h = refl
  shift_up_out m low (suc left) a h =
      shift_up_out (copy_up m (low + left)) low left a (ground arith)
      ∙ copy_ne m (base + (low + left + len)) (base + (low + left)) a (ground arith)

  pub shift_up_in :
      (m : Memory) (low left a : ℕ)
      → base + low ≤ a
      → a < base + low + left
      → load8 (shift_up m base len low left) (a + len) ≡ load8 m a
  unfolding shift_up
  shift_up_in m low zero a h k = absurd (omega arith)
  shift_up_in m low (suc left) a h k = elim (dec_lt a (base + (low + left))) [
    | yes earlier ↦
        shift_up_in (copy_up m (low + left)) low left a (omega arith) (omega arith)
        ∙ copy_ne m (base + (low + left + len)) (base + (low + left)) a (omega arith)
    | no here ↦
        let at : a ≡ base + (low + left) = omega arith in
        let to : base + (low + left) + len ≡ base + (low + left + len) = omega arith in
        rw (at, to)
          (shift_up_out (copy_up m (low + left)) low left (base + (low + left + len))
              (inr (omega arith))
            ∙ copy_here m (base + (low + left + len)) (base + (low + left)))
  ]
