-- ===== src/Bmi/Deposit.antt =====
-- `pdep` and `pext` against recursions on the digits of the mask, and against each other.
use opemu_linux.Common.{
  ℕ, zero, suc, ◌+◌, ◌*◌, ◌/◌, ◌%◌, ◌^◌, ◌≤◌, ◌<◌, ◌≡◌, ap, ◌∙◌, arith, true, false,
}
use opemu_linux.Common.{bit_and, bit_or, trunc, ◌==◌, inl, inr}
use opemu_linux.Common.Bits.Digit.{bit, bit-lt, bit-eq-div-mod}
use opemu_linux.Common.Bits.Laws.{bit_and_pow, bit_or_fields, bit_or_comm}
use opemu_linux.Bmi.Words.{pdep_loop, pext_loop, pdep, pext}
use native.Mathlib.Nat.{
  pow-suc, pow-succ', one-le-pow, div-div-eq-div-mul, mod-eq_of_lt, pow-le-pow_right,
  mul-div_cancel, div-one,
}
use native.Mathlib.Numerals.{add-one}
use opemu_linux.Bmi.Scatter.{
  gather, scatter, ones, mod-two-cases, gather-even, gather-odd, scatter-even, scatter-odd,
  gather-scatter, scatter-gather,
}

pow_next : (i : ℕ) → 2 ^ (i + 1) ≡ 2 * 2 ^ i
pow_next i = rw add-one (pow-succ' 2 i)

div_next : (x i : ℕ) → x / 2 ^ (i + 1) ≡ x / 2 ^ i / 2
div_next x i = rw (add-one, pow-suc, ← div-div-eq-div-mul)

-- Bit `i` of the mask, as the loops test it.
mask_test : (mask i : ℕ) → (bit_and mask (2 ^ i) == 0) ≡ (mask / 2 ^ i % 2 == 0)
mask_test mask i =
    ground (arith, bit_and_pow i mask, bit-eq-div-mod i mask, bit-lt i mask, one-le-pow i 2)

digit-lt : (b k w : ℕ) → b < 2 → k < w → b * 2 ^ k < 2 ^ w
digit-lt b k w hb h =
    let room : 2 ^ suc k ≤ 2 ^ w = pow-le-pow_right (omega arith) h in
    grind (arith, one-le-pow k 2, pow-succ' 2 k)

-- Moving bit `i` of `temp` to place `k` of a number that ends below it.
moved_bit :
    (w i k temp dest : ℕ)
    → k < w
    → dest < 2 ^ k
    → bit_or dest (trunc w (bit_and temp (2 ^ i) / 2 ^ i * 2 ^ k)) ≡ dest + temp / 2 ^ i % 2 * 2 ^ k
moved_bit w i k temp dest h fits = rw (one_bit, no_wrap) (rw bit_or_comm placed)
  where
    one_bit : bit_and temp (2 ^ i) / 2 ^ i ≡ temp / 2 ^ i % 2
    one_bit =
        rw (bit_and_pow, ← bit-eq-div-mod)
          (mul-div_cancel (bit i temp) (one-le-pow i 2 (omega arith)))

    no_wrap : (temp / 2 ^ i % 2 * 2 ^ k) % 2 ^ w ≡ temp / 2 ^ i % 2 * 2 ^ k
    no_wrap = mod-eq_of_lt (digit-lt (temp / 2 ^ i % 2) k w (omega arith) h)

    placed : bit_or (temp / 2 ^ i % 2 * 2 ^ k) dest ≡ dest + temp / 2 ^ i % 2 * 2 ^ k
    placed = omega (arith, bit_or_fields k (temp / 2 ^ i % 2) dest fits)

-- One round of each loop, by the bit of the mask.
module _ (w mask temp left i k dest : ℕ) where
  test_even : mask / 2 ^ i % 2 ≡ 0 → (bit_and mask (2 ^ i) == 0) ≡ true
  test_even e = ground (arith, mask_test mask i)

  test_odd : mask / 2 ^ i % 2 ≡ 1 → (bit_and mask (2 ^ i) == 0) ≡ false
  test_odd e = ground (arith, mask_test mask i)

  pext_loop-even :
      mask / 2 ^ i % 2 ≡ 0
      → pext_loop w mask temp (suc left) i k dest ≡ pext_loop w mask temp left (i + 1) k dest
  unfolding pext_loop
  pext_loop-even e = rw (test_even e)

  pext_loop-odd :
      mask / 2 ^ i % 2 ≡ 1
      → k < w
      → dest < 2 ^ k
      → pext_loop w mask temp (suc left) i k dest
        ≡ pext_loop w mask temp left (i + 1) (k + 1) (dest + temp / 2 ^ i % 2 * 2 ^ k)
  unfolding pext_loop
  pext_loop-odd e h fits =
      rw (test_odd e)
        (ap (pext_loop w mask temp left (i + 1) (k + 1)) (moved_bit w i k temp dest h fits))

  pdep_loop-even :
      mask / 2 ^ i % 2 ≡ 0
      → pdep_loop w mask temp (suc left) i k dest ≡ pdep_loop w mask temp left (i + 1) k dest
  unfolding pdep_loop
  pdep_loop-even e = rw (test_even e)

  pdep_loop-odd :
      mask / 2 ^ i % 2 ≡ 1
      → i < w
      → dest < 2 ^ i
      → pdep_loop w mask temp (suc left) i k dest
        ≡ pdep_loop w mask temp left (i + 1) (k + 1) (dest + temp / 2 ^ k % 2 * 2 ^ i)
  unfolding pdep_loop
  pdep_loop-odd e h fits =
      rw (test_odd e)
        (ap (pdep_loop w mask temp left (i + 1) (k + 1)) (moved_bit w k i temp dest h fits))

-- A digit more still fits.
with_digit : (d b k : ℕ) → d < 2 ^ k → b < 2 → d + b * 2 ^ k < 2 ^ (k + 1)
with_digit d b k h hb = rw pow_next (grind arith)

-- Each loop has the digits below its index done, and the rest of the words ahead of it.
pext_loop_lem :
    (w mask temp left i k dest : ℕ)
    → i + left ≤ w
    → k ≤ i
    → dest < 2 ^ k
    → pext_loop w mask temp left i k dest ≡ dest + gather left (mask / 2 ^ i) (temp / 2 ^ i) * 2 ^ k
pext_loop_lem w mask temp zero i k dest h hk fits = unfold pext_loop gather in omega arith
pext_loop_lem w mask temp (suc left) i k dest h hk fits = elim (mod-two-cases (mask / 2 ^ i)) [
  | inl e ↦
      pext_loop-even w mask temp left i k dest e
      ∙ pext_loop_lem w mask temp left (i + 1) k dest (omega arith) (omega arith) fits
      ∙ rw (div_next mask i, div_next temp i, gather-even left (mask / 2 ^ i) (temp / 2 ^ i) e)
  | inr e ↦
      pext_loop-odd w mask temp left i k dest e (omega arith) fits
      ∙ pext_loop_lem w mask temp left (i + 1) (k + 1) _ (omega arith) (omega arith)
          (with_digit dest (temp / 2 ^ i % 2) k fits (omega arith))
      ∙ rw
          (
            div_next mask i,
            div_next temp i,
            gather-odd left (mask / 2 ^ i) (temp / 2 ^ i) e,
            pow_next k,
          )
          (omega arith)
]

pdep_loop_lem :
    (w mask temp left i k dest : ℕ)
    → i + left ≤ w
    → dest < 2 ^ i
    → pdep_loop w mask temp left i k dest
      ≡ dest + scatter left (mask / 2 ^ i) (temp / 2 ^ k) * 2 ^ i
pdep_loop_lem w mask temp zero i k dest h fits = unfold pdep_loop scatter in omega arith
pdep_loop_lem w mask temp (suc left) i k dest h fits = elim (mod-two-cases (mask / 2 ^ i)) [
  | inl e ↦
      pdep_loop-even w mask temp left i k dest e
      ∙ pdep_loop_lem w mask temp left (i + 1) k dest (omega arith) (omega (arith, pow_next i))
      ∙ rw (div_next mask i, scatter-even left (mask / 2 ^ i) (temp / 2 ^ k) e, pow_next i)
          (omega arith)
  | inr e ↦
      pdep_loop-odd w mask temp left i k dest e (omega arith) fits
      ∙ pdep_loop_lem w mask temp left (i + 1) (k + 1) _ (omega arith)
          (with_digit dest (temp / 2 ^ k % 2) i fits (omega arith))
      ∙ rw
          (
            div_next mask i,
            div_next temp k,
            scatter-odd left (mask / 2 ^ i) (temp / 2 ^ k) e,
            pow_next i,
          )
          (omega arith)
]

-- `pext` packs the bits of its source that the mask selects.
pub pext-eq-gather : (w mask temp : ℕ) → pext w mask temp ≡ gather w mask temp
unfolding pext
pext-eq-gather w mask temp =
    pext_loop_lem w mask temp w 0 0 0 (omega arith) (omega arith) (omega arith)
    ∙ rw (div-one, div-one) (omega arith)

-- `pdep` puts the low bits of its source at the places that the mask selects.
pub pdep-eq-scatter : (w mask temp : ℕ) → pdep w mask temp ≡ scatter w mask temp
unfolding pdep
pdep-eq-scatter w mask temp =
    pdep_loop_lem w mask temp w 0 0 0 (omega arith) (omega arith)
    ∙ rw (div-one, div-one) (omega arith)

-- Depositing under a mask and extracting under the same mask gives back the low bits of the source,
-- as many as the mask has ones.
pub pext-pdep : (w mask temp : ℕ) → pext w mask (pdep w mask temp) ≡ temp % 2 ^ ones w mask
pext-pdep w mask temp = rw (pext-eq-gather, pdep-eq-scatter) (gather-scatter w mask temp)

-- Extracting and depositing under one mask of the word's width clears the bits outside the mask.
pub pdep-pext :
    (w mask temp : ℕ) → mask < 2 ^ w → pdep w mask (pext w mask temp) ≡ bit_and mask temp
pdep-pext w mask temp h =
    rw (pdep-eq-scatter, pext-eq-gather)
      (scatter-gather w mask temp ∙ ap (λ (x : ℕ). bit_and x temp) (mod-eq_of_lt h))
