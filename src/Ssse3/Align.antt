-- ===== src/Ssse3/Align.antt =====
-- vpalignr_128 as one shift of the two operands side by side.
use opemu_linux.Common.{
  ℕ, zero, suc, ◌+◌, ◌-◌, ◌*◌, ◌/◌, ◌%◌, ◌^◌, ◌<◌, ◌≤◌, ◌≡◌, arith, sym, ap, ◌∙◌, inl, inr,
  Bool-cases,
}
use opemu_linux.Common.{trunc, bit_or, ◌>>>◌, ◌<<<◌, ltb}
use opemu_linux.Common.Bits.Laws.{bit_or_fields}
use opemu_linux.Ssse3.{vpalignr_128}
use native.Mathlib.Nat.{
  one-le-pow, pow-suc, pow-zero, add-zero, mod-lt, mod-eq_of_lt, mul-add-mod_self_right,
  mul-add-div_right, div-div-eq-div-mul, div-add-mod, div-eq_of_lt, div-le_self, div-lt_iff_lt-mul,
  mul_assoc, add-mul, mul-le-mul_right, pow-le-pow_right, mul_comm,
}

pow_add : (s t : ℕ) → 2 ^ (s + t) ≡ 2 ^ s * 2 ^ t
pow_add s zero = rw (pow-zero 2) (ap (λ (n : ℕ). 2 ^ n) (add-zero s) ∙ omega arith)
pow_add s (suc t) =
    ap (λ (n : ℕ). 2 ^ n) (omega arith)
    ∙ pow-suc 2 (s + t)
    ∙ rw (pow_add s t, pow-suc 2 t) (mul_assoc (2 ^ s) (2 ^ t) 2)

-- A word of two digits, the low one below `q` and the high one cut to below `p`.
two_digits : (v r p q : ℕ) → 0 < p → r < q → (v * q + r) % (p * q) ≡ v % p * q + r
two_digits v r p q hp hr =
    let whole : v * q + r ≡ v / p * (p * q) + (v % p * q + r) =
      ap (λ (n : ℕ). n * q + r) (sym (div-add-mod v p))
      ∙ grind (arith, add-mul, mul_assoc, mul_comm) in
    rw (whole, mul-add-mod_self_right (v / p) (p * q) (v % p * q + r))
      (mod-eq_of_lt (omega (arith, mul-le-mul_right q (mod-lt v hp), add-mul (v % p) 1 q)))

module _ (s t w v x : ℕ) (sum : s + t ≡ w) (hx : x < 2 ^ w) where
  power : 2 ^ w ≡ 2 ^ s * 2 ^ t
  power = ap (λ (n : ℕ). 2 ^ n) (sym sum) ∙ pow_add s t

  low_part : x / 2 ^ s < 2 ^ t
  low_part =
      (div-lt_iff_lt-mul (one-le-pow s 2 (omega arith))).1
        (omega (arith, power, mul_comm (2 ^ t) (2 ^ s)))

  -- A shift by at most as many bits as the low operand has.
  shift_low : bit_or (trunc w (v <<< t)) (x >>> s) ≡ trunc w ((v * 2 ^ w + x) >>> s)
  shift_low =
      let p = 2 ^ s in
      let q = 2 ^ t in
      let both : (v * (p * q) + x) / p ≡ v * q + x / p =
        rw (mul_comm p q, ← mul_assoc v q p)
          (mul-add-div_right (one-le-pow s 2 (omega arith)) (v * q) x) in
      let cut : v * q % (p * q) ≡ v % p * q =
        ap (λ (n : ℕ). n % (p * q)) (omega arith)
        ∙ two_digits v 0 p q (one-le-pow s 2 (omega arith)) (one-le-pow t 2 (omega arith))
        ∙ omega arith in
      rw (power, both, cut)
        (bit_or_fields t (v % p) (x / p) low_part
          ∙ sym (two_digits v (x / p) p q (one-le-pow s 2 (omega arith)) low_part))

-- A shift by all of the low operand, and more.
shift_high : (w v x k : ℕ) → x < 2 ^ w → (v * 2 ^ w + x) >>> (w + k) ≡ v >>> k
shift_high w v x k hx =
    rw
      (
        pow_add w k,
        ← div-div-eq-div-mul (v * 2 ^ w + x) (2 ^ w) (2 ^ k),
        mul-add-div_right (one-le-pow w 2 (omega arith)) v x,
        div-eq_of_lt hx,
      )
      (ap (λ (n : ℕ). n / 2 ^ k) (omega arith))

module _ (src vsrc : ℕ) (hs : src < 2 ^ 128) (hv : vsrc < 2 ^ 128) where
  high_bytes : (s : ℕ) → 128 ≤ s → trunc 128 ((vsrc * 2 ^ 128 + src) >>> s) ≡ vsrc >>> (s - 128)
  high_bytes s h =
      ap (λ (n : ℕ). trunc 128 ((vsrc * 2 ^ 128 + src) >>> n)) (omega arith)
      ∙ ap (trunc 128) (shift_high 128 vsrc src (s - 128) hs)
      ∙ mod-eq_of_lt (omega (arith, div-le_self vsrc (2 ^ (s - 128))))

  all_gone : (s : ℕ) → 128 ≤ s → vsrc >>> s ≡ 0
  all_gone s h = div-eq_of_lt (omega (arith, pow-le-pow_right {n = 2} (omega arith) h))

  -- vpalignr_128 is a shift of the two operands side by side, by whole bytes, for every immediate.
  pub vpalignr_128-shift :
      (imm : ℕ) → vpalignr_128 src vsrc imm ≡ trunc 128 ((vsrc * 2 ^ 128 + src) >>> (8 * imm))
  unfolding vpalignr_128
  vpalignr_128-shift imm = elim (Bool-cases (ltb imm 16)) [
    | inl low ↦
        ground (
          arith,
          shift_low (imm * 8) (128 - imm * 8) 128 vsrc src (ground arith) hs,
          mul_comm imm 8,
        )
    | inr high ↦ ground (arith, high_bytes (8 * imm) (ground arith), all_gone (8 * imm - 128))
  ]
