-- ===== src/Base/Store.antt =====
-- A store as a function of addresses, and the writing of one cell.
use Prim.Native.Nat.{ℕ}
use mathlib.Core.Path.{◌≡◌, refl}
use mathlib.Core.Logic.{◌≢◌}
use mathlib.Core.Bool.{true, false}
use native.Mathlib.Omega.{arith}
use go_dpdk.Base.Tests.{◌==◌, if◌then◌else◌}

abbrev pub put {ℓ} : {A : Type ℓ} → (ℕ → A) → ℕ → A → (ℕ → A)
put store p a x = if p == x then a else store x

pub put_same {ℓ} : {A : Type ℓ} (store : ℕ → A) (p : ℕ) (a : A) → put store p a p ≡ a
put_same store p a = let here : (p == p) ≡ true = ground arith in rw here refl

pub put_other {ℓ} :
    {A : Type ℓ} (store : ℕ → A) (p : ℕ) (a : A) (q : ℕ) → p ≢ q → put store p a q ≡ store q
put_other store p a q ne = let there : (p == q) ≡ false = ground (arith, ne) in rw there refl
