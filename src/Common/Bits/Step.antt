-- ===== src/Common/Bits/Step.antt =====
-- One equation for the lowest digit of each bit operation.
use Prim.Native.Nat.{min, max, digits, differ, bit_xor-bitwise, bit_and-bitwise, bit_or-bitwise}
use Prim.Native.Nat.{ℕ, zero, suc, bit_and, bit_or, bit_xor, ◌+◌, ◌-◌, ◌*◌, ◌/◌, ◌%◌, ◌≤◌, ◌<◌}
use native.Mathlib.Nat.{suc-add, zero-add}
use native.Mathlib.Omega.{arith}
use mathlib.Core.Path.{◌≡◌, refl, ap, ◌∙◌, sym}

module _ (low : ℕ → ℕ → ℕ) (rest : ℕ → ℕ) where
  -- A count that is as large as the first number can be raised by one,
  one_more :
      (count x y : ℕ) → x ≤ count → digits rest low (suc count) x y ≡ digits rest low count x y
  one_more zero zero y h = refl
  one_more zero (suc x) y h = absurd (omega arith)
  one_more (suc count) zero y h = refl
  one_more (suc count) (suc x) y h = rw (one_more count (suc x / 2) (y / 2) (omega arith)) refl

  -- and so by any number.
  many_more :
      (k count x y : ℕ) → x ≤ count → digits rest low (k + count) x y ≡ digits rest low count x y
  many_more zero count x y h = rw zero-add refl
  many_more (suc k) count x y h =
      rw suc-add (one_more (k + count) x y (omega arith) ∙ many_more k count x y h)

  lowest :
      (x y : ℕ)
      → digits rest low (suc x) (suc x) y
        ≡ digits rest low (suc x / 2) (suc x / 2) (y / 2) * 2 + low (suc x % 2) (y % 2)
  lowest x y =
      let half = suc x / 2 in
      let spare : x - half + half ≡ x = omega arith in
      let same : digits rest low x half (y / 2) ≡ digits rest low half half (y / 2) =
        ap (λ (count : ℕ). digits rest low count half (y / 2)) (sym spare)
        ∙ many_more (x - half) half half (y / 2) (omega arith) in
      rw same refl

differ_digits : (x y : ℕ) → x < 2 → y < 2 → differ x y ≡ (x + y) % 2
differ_digits zero y p q = omega arith
differ_digits (suc zero) zero p q = refl
differ_digits (suc zero) (suc zero) p q = refl
differ_digits (suc zero) (suc (suc y)) p q = absurd (omega arith)
differ_digits (suc (suc x)) y p q = absurd (omega arith)

differ-mod : (a b : ℕ) → differ (a % 2) (b % 2) ≡ (a + b) % 2
differ-mod a b = omega (arith, differ_digits (a % 2) (b % 2) (omega arith) (omega arith))

pub bit_xor_step : (x y : ℕ) → bit_xor x y ≡ bit_xor (x / 2) (y / 2) * 2 + (x + y) % 2
bit_xor_step zero y = simp bit_xor-bitwise (omega arith)
bit_xor_step (suc x) y = simp (bit_xor-bitwise, ← differ-mod) (lowest differ (λ y. y) x y)

pub bit_and_step : (x y : ℕ) → bit_and x y ≡ bit_and (x / 2) (y / 2) * 2 + min (x % 2) (y % 2)
bit_and_step zero y = simp bit_and-bitwise (omega arith)
bit_and_step (suc x) y = simp bit_and-bitwise (lowest min (λ _. 0) x y)

pub bit_or_step : (x y : ℕ) → bit_or x y ≡ bit_or (x / 2) (y / 2) * 2 + max (x % 2) (y % 2)
bit_or_step zero y = simp bit_or-bitwise (omega arith)
bit_or_step (suc x) y = simp bit_or-bitwise (lowest max (λ y. y) x y)
