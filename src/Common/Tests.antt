-- ===== src/Common/Tests.antt =====
-- Boolean tests on the native numbers, and the conditional.
use Prim.Native.Nat.{ℕ, zero, suc, ◌<◌, compare, Ordering}
use mathlib.Core.Path.{◌≡◌, refl}
use mathlib.Core.Logic.{◌↔◌, ◌⊎◌, inl, inr}
use mathlib.Core.Bool.{Bool, true, false, ◌&&◌}
use native.Mathlib.Omega.{arith}

abbrev pub ltb : ℕ → ℕ → Bool
ltb a b = elim (compare a b) [ Ordering.lt ↦ true | _ ↦ false ]

abbrev pub leb : ℕ → ℕ → Bool
leb a b = elim (compare a b) [ Ordering.gt ↦ false | _ ↦ true ]

infix 50 ◌==◌
abbrev pub ◌==◌ : ℕ → ℕ → Bool
a == b = elim (compare a b) [ Ordering.eq ↦ true | _ ↦ false ]

infix 1 if◌then◌else◌
abbrev pub if◌then◌else◌ {ℓ} : {A : Type ℓ} → Bool → A → A → A
if true then x else y = x
if false then x else y = y

==_iff : (a b : ℕ) → ((a == b) ≡ true) ↔ (a ≡ b)
==_iff a b = ground arith

pub Bool-cases : (b : Bool) → (b ≡ true) ⊎ (b ≡ false)
Bool-cases true = inl refl
Bool-cases false = inr refl

-- A test that every number below `top` passes, run from `top` down.
unfoldable pub all_below : (ℕ → Bool) → ℕ → Bool
all_below test zero = true
all_below test (suc top) = test top && all_below test top

passes : (test : ℕ → Bool) (top i : ℕ) → i < top → all_below test top ≡ true → test i ≡ true
unfolding all_below
passes test (suc top) i below all = ground (arith, passes test top i)
passes test zero i below all = absurd (omega arith)

-- Two functions that give the same below a bound, checked by evaluation.
pub agree_below :
    (top : ℕ) (f g : ℕ → ℕ) → all_below (λ i. f i == g i) top ≡ true → (i : ℕ) → i < top → f i ≡ g i
agree_below top f g all i below = (==_iff (f i) (g i)).0 (passes (λ i. f i == g i) top i below all)
