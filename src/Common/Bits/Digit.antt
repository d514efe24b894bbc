-- ===== src/Common/Bits/Digit.antt =====
-- The digits of a number, and what the bit operations do to each.
use opemu_linux.Common.{
  ℕ, zero, suc, ◌+◌, ◌-◌, ◌*◌, ◌/◌, ◌%◌, ◌^◌, ◌≤◌, ◌<◌, ◌≡◌, refl, sym, ◌∙◌, arith,
}
use opemu_linux.Common.{min, max, bit_and, bit_or, bit_xor, lt_wf, ltb, ◌==◌, if◌then◌else◌}
use opemu_linux.Common.Bits.Step.{bit_and_step, bit_or_step, bit_xor_step}
use mathlib.Core.WellFounded
use native.Mathlib.Nat.{
  pow-suc, pow-succ', div-div-eq-div-mul, div-one, zero-add, suc-add, add-zero, mod-one, one-le-pow,
}

-- Bit `i` of `x`.
unfoldable pub bit : ℕ → ℕ → ℕ
bit zero x = x % 2
bit (suc i) x = bit i (x / 2)

pub bit-lt : (i x : ℕ) → bit i x < 2
unfolding bit
bit-lt zero x = omega arith
bit-lt (suc i) x = bit-lt i (x / 2)

pub bit-zero : (i : ℕ) → bit i 0 ≡ 0
unfolding bit
bit-zero zero = refl
bit-zero (suc i) = bit-zero i

-- Two numbers with the same digits are the same.
pub bit_ext : (x y : ℕ) → ((i : ℕ) → bit i x ≡ bit i y) → x ≡ y
unfolding bit
bit_ext x =
    WellFounded.induction lt_wf {C = λ x. (y : ℕ) → ((i : ℕ) → bit i x ≡ bit i y) → x ≡ y} x step
  where
    zeros : (k y : ℕ) → y ≤ k → ((i : ℕ) → 0 ≡ bit i y) → 0 ≡ y
    zeros zero y p h = omega arith
    zeros (suc k) zero p h = refl
    zeros (suc k) (suc y) p h =
        omega (arith, h 0, zeros k (suc y / 2) (omega arith) (λ i. h (suc i)))

    step :
        (x : ℕ)
        → ((m : ℕ) → m < x → (y : ℕ) → ((i : ℕ) → bit i m ≡ bit i y) → m ≡ y)
        → (y : ℕ) → ((i : ℕ) → bit i x ≡ bit i y)
        → x ≡ y
    step zero ih y h = zeros y y (omega arith) (λ i. sym (bit-zero i) ∙ h i)
    step (suc x) ih y h = omega (arith, h 0, ih (suc x / 2) (omega arith) (y / 2) (λ i. h (suc i)))

pub bit-bit_and : (i a b : ℕ) → bit i (bit_and a b) ≡ min (bit i a) (bit i b)
unfolding bit
bit-bit_and zero a b = omega (arith, bit_and_step a b)
bit-bit_and (suc i) a b = rw (half_and a b) (bit-bit_and i (a / 2) (b / 2))
  where
    half_and : (a b : ℕ) → bit_and a b / 2 ≡ bit_and (a / 2) (b / 2)
    half_and a b = omega (arith, bit_and_step a b)

pub bit-bit_or : (i a b : ℕ) → bit i (bit_or a b) ≡ max (bit i a) (bit i b)
unfolding bit
bit-bit_or zero a b = omega (arith, bit_or_step a b)
bit-bit_or (suc i) a b = rw (half_or a b) (bit-bit_or i (a / 2) (b / 2))
  where
    half_or : (a b : ℕ) → bit_or a b / 2 ≡ bit_or (a / 2) (b / 2)
    half_or a b = omega (arith, bit_or_step a b)

pub bit-bit_xor : (i a b : ℕ) → bit i (bit_xor a b) ≡ (bit i a + bit i b) % 2
unfolding bit
bit-bit_xor zero a b = omega (arith, bit_xor_step a b)
bit-bit_xor (suc i) a b = rw (half_xor a b) (bit-bit_xor i (a / 2) (b / 2))
  where
    half_xor : (a b : ℕ) → bit_xor a b / 2 ≡ bit_xor (a / 2) (b / 2)
    half_xor a b = omega (arith, bit_xor_step a b)

-- A number below `2 ^ k` has no digit from `k` on.
pub bit-high : (k i x : ℕ) → x < 2 ^ k → k ≤ i → bit i x ≡ 0
unfolding bit
bit-high zero i x h p = let e : x ≡ 0 = omega arith in rw e (bit-zero i)
bit-high (suc k) zero x h p = absurd (omega arith)
bit-high (suc k) (suc i) x h p = bit-high k i (x / 2) (omega (arith, pow-suc 2 k)) (omega arith)

-- Digits from `k` on are those of `x / 2 ^ k`.
pub bit-div : (k i x : ℕ) → bit i (x / 2 ^ k) ≡ bit (k + i) x
unfolding bit
bit-div zero i x = rw (div-one, zero-add)
bit-div (suc k) i x = rw (suc-add, pow-succ', ← div-div-eq-div-mul) (bit-div k i (x / 2))

pub bit-eq-div-mod : (i x : ℕ) → bit i x ≡ x / 2 ^ i % 2
unfolding bit
bit-eq-div-mod i x = rw add-zero at (sym (bit-div i 0 x))

-- The remainder by `2 * p` in terms of the half.
pub mod_double : (p x : ℕ) → 0 < p → x % (2 * p) ≡ x / 2 % p * 2 + x % 2
mod_double p x h = grind arith

pub bit-mod : (k i x : ℕ) → bit i (x % 2 ^ k) ≡ (if ltb i k then bit i x else 0)
unfolding bit
bit-mod zero i x = ground (arith, mod-one x, bit-zero i)
bit-mod (suc k) zero x = ground (arith, mod_double (2 ^ k) x, one-le-pow k 2, pow-succ' 2 k)
bit-mod (suc k) (suc i) x =
    ground (arith, mod_double (2 ^ k) x, one-le-pow k 2, pow-succ' 2 k, bit-mod k i (x / 2))

-- A power of two has one digit.
pub bit-pow : (k i : ℕ) → bit i (2 ^ k) ≡ (if i == k then 1 else 0)
unfolding bit
bit-pow zero zero = refl
bit-pow zero (suc i) = ground (arith, bit-zero i)
bit-pow (suc k) zero = ground (arith, pow-succ' 2 k)
bit-pow (suc k) (suc i) = ground (arith, pow-succ' 2 k, bit-pow k i)

-- The complement has the other digit at each place of the word.
pub bit-compl : (w i q : ℕ) → q < 2 ^ w → i < w → bit i (2 ^ w - 1 - q) ≡ 1 - bit i q
unfolding bit
bit-compl zero i q h p = absurd (omega arith)
bit-compl (suc w) zero q h p = omega (arith, pow-succ' 2 w)
bit-compl (suc w) (suc i) q h p = ground (arith, bit-compl w i (q / 2), pow-succ' 2 w)
