-- ===== src/Half/Rounding.antt =====
-- The rounding in `FloatToHalf` of half.c.
use opemu_linux.Common.{
  ℕ, ◌+◌, ◌-◌, ◌*◌, ◌/◌, ◌%◌, ◌^◌, ◌<◌, ◌≤◌, ◌≡◌, ◌≢◌, arith, false, sym, ap, ◌∙◌, min,
}
use opemu_linux.Common.{bit_and, bit_or, ◌<<<◌, ◌>>>◌, ◌==◌, ltb, leb, ◌&&◌, ◌||◌, if◌then◌else◌}
use opemu_linux.Common.Bits.Laws.{bit_or_comm, bit_and_mask, bit_or_fields, bit_and_pow}
use opemu_linux.Common.Bits.Digit.{bit-eq-div-mod}
use opemu_linux.Half.{round_denormal, round_normal, float_to_half}
use native.Mathlib.Nat.{
  pow-le-pow_right, div-le_of_le-mul, mul-add-div, div-eq_of_lt, div-add-mod, mod-lt, one-le-pow,
  pow-succ', div-add-mod,
}

-- `x / d`, rounded to the nearest, and to the even one of two.
abbrev divide_even : ℕ → ℕ → ℕ
divide_even d x =
    let q = x / d in
    let twice = 2 * (x % d) in if ltb d twice || (twice == d && q % 2 == 1) then q + 1 else q

-- Half a unit, less one, and one more where the quotient is odd, carry as rounding does.
carry_rounds :
    (p q r : ℕ)
    → 0 < p
    → r < 2 * p
    → (2 * p * q + r + (p - 1) + q % 2) / (2 * p)
      ≡ (if ltb (2 * p) (2 * r) || (2 * r == 2 * p && q % 2 == 1) then q + 1 else q)
carry_rounds p q r hp hr =
    let s = r + (p - 1) + q % 2 in
    let d = 2 * p in
    let split : (2 * p * q + r + (p - 1) + q % 2) / (2 * p) ≡ q + s / d =
      ap (λ (n : ℕ). n / d) (omega arith) ∙ mul-add-div (omega arith) q s in
    let small : s < d → s / d ≡ 0 = λ l. div-eq_of_lt l in
    let large : d ≤ s → s / d ≡ 1 = λ l.
      ap (λ (n : ℕ). n / d) (omega arith)
      ∙ mul-add-div (omega arith) 1 (s - d)
      ∙ ap (λ (n : ℕ). 1 + n) (div-eq_of_lt (omega arith)) in
    ground arith

round_by_adding :
    (p x : ℕ) → 0 < p → (x + (p - 1) + x / (2 * p) % 2) / (2 * p) ≡ divide_even (2 * p) x
round_by_adding p x hp =
    let d = 2 * p in
    ap (λ (n : ℕ). (n + (p - 1) + x / d % 2) / d) (sym (div-add-mod x d))
    ∙ carry_rounds p (x / d) (x % d) hp (mod-lt x (omega arith))

module _ (sign : ℕ) (hs : sign < 2) (m : ℕ) (hm : m < 2 ^ 23) where
  join : (v : ℕ) → v < 2 ^ 15 → bit_or (sign * 2 ^ 15) v ≡ sign * 2 ^ 15 + v
  join v hv = bit_or_fields 15 sign v hv

  leading : bit_or m 0x00800000 ≡ 2 ^ 23 + m
  leading = bit_or_comm m 0x00800000 ∙ bit_or_fields 23 1 m hm

  denormal_fits :
      (ex : ℕ) → 102 ≤ ex → ex ≤ 112 → divide_even (2 ^ (126 - ex)) (2 ^ 23 + m) < 2 ^ 15
  denormal_fits ex lo hi =
      let d = 2 ^ (126 - ex) in
      let far : 14 ≤ 126 - ex = omega arith in
      let big : 2 ^ 14 ≤ d = pow-le-pow_right {n = 2} (omega arith) far in
      let q : (2 ^ 23 + m) / d ≤ 1024 = div-le_of_le-mul d (omega arith) in ground arith

  join3 :
      (e w : ℕ)
      → e < 32
      → w < 1024
      → bit_or (bit_or (sign * 2 ^ 15) (e * 2 ^ 10)) w ≡ sign * 2 ^ 15 + e * 1024 + w
  join3 e w he hw = rw (join (e * 2 ^ 10) (omega arith)) (
      ap (λ (n : ℕ). bit_or n w) (omega arith)
      ∙ bit_or_fields 10 (sign * 32 + e) w hw
      ∙ omega arith)

  round_denormal-rounds :
      (ex : ℕ)
      → 102 ≤ ex
      → ex ≤ 112
      → round_denormal (sign * 2 ^ 15) ex m
        ≡ sign * 2 ^ 15 + divide_even (2 ^ (126 - ex)) (2 ^ 23 + m)
  unfolding round_denormal
  round_denormal-rounds ex lo hi =
      let t : ℕ = 125 - ex in
      let p : ℕ = 2 ^ t in
      let positive = one-le-pow t 2 (omega arith) in
      let unit : 2 ^ (126 - ex) ≡ 2 * p = ap (λ (n : ℕ). 2 ^ n) (omega arith) ∙ pow-succ' 2 t in
      let full = 2 ^ 23 + m in
      let odd : bit_and (full / 2 ^ (126 - ex)) 1 ≡ full / 2 ^ (126 - ex) % 2 =
        bit_and_mask 1 (full / 2 ^ (126 - ex)) in
      let rounded = round_by_adding p full positive in
      let near : ltb ex 102 ≡ false = ground arith in
      let fits = denormal_fits ex lo hi in
      let step : 1 <<< (126 - ex - 1) ≡ p =
        (let less : 126 - ex - 1 ≡ t = omega arith in
          let one : 1 * p ≡ p = omega arith in ap (λ (n : ℕ). 1 * 2 ^ n) less ∙ one) in
      let inner : (full + (1 <<< (126 - ex - 1) - 1) + full / 2 ^ (126 - ex) % 2) / 2 ^ (126 - ex)
          ≡ divide_even (2 ^ (126 - ex)) full =
        rw (step, unit) rounded in
      rw (near, leading, odd) (ap (bit_or (sign * 2 ^ 15)) inner ∙ join _ fits)

  round_normal-rounds :
      (ex : ℕ)
      → 113 ≤ ex
      → ex < 255
      → round_normal (sign * 2 ^ 15) ex m
        ≡ sign * 2 ^ 15 + min 0x7c00 ((ex - 112) * 1024 + divide_even 8192 m)
  unfolding round_normal
  round_normal-rounds ex lo hi =
      let sum = m + 0x00000fff + m / 2 ^ 13 % 2 in
      let odd : bit_and (m / 2 ^ 13) 1 ≡ m / 2 ^ 13 % 2 = bit_and_mask 1 (m / 2 ^ 13) in
      let carry : bit_and sum 0x00800000 ≡ sum / 2 ^ 23 % 2 * 2 ^ 23 =
        bit_and_pow 23 sum ∙ ap (λ (b : ℕ). b * 2 ^ 23) (bit-eq-div-mod 23 sum) in
      let rounded : sum / 8192 ≡ divide_even 8192 m = round_by_adding 4096 m (omega arith) in
      let whole : bit_or (sign * 2 ^ 15) 0x7c00 ≡ sign * 2 ^ 15 + 0x7c00 =
        join 0x7c00 (omega arith) in
      let plain = λ (h : sum < 2 ^ 23) (k : ex < 143).
        join3 (ex - 112) (sum / 8192) (omega arith) (omega arith) in
      let next = λ (k : ex < 142). join3 (ex + 1 - 112) 0 (omega arith) (omega arith) in
      ground arith

-- The magnitude of the result: the exponent field counts as 1024 times what it says, so a
-- mantissa that is rounded up to the next power of two carries into it.
unfoldable pub rounded_half : ℕ → ℕ → ℕ
rounded_half ex m =
    if ltb ex 102
    then 0
    else (if leb ex 112
        then divide_even (2 ^ (126 - ex)) (2 ^ 23 + m)
        else min 0x7c00 ((ex - 112) * 1024 + divide_even (2 ^ 13) m))

-- Every float that is finite is converted to its sign and its magnitude rounded to the nearest
-- half, to the even one of two: from a zero below 2 ^ -25 over the denormalized halves to
-- infinity for what is too large.
pub float_to_half-rounds :
    (i : ℕ)
    → i < 2 ^ 32
    → i / 2 ^ 23 % 256 ≢ 255
    → float_to_half i ≡ i / 2 ^ 31 * 2 ^ 15 + rounded_half (i / 2 ^ 23 % 256) (i % 2 ^ 23)
unfolding float_to_half rounded_half round_denormal
float_to_half-rounds i h finite =
    let sign = i / 2 ^ 31 in
    let ex = i / 2 ^ 23 % 256 in
    let m = i % 2 ^ 23 in
    let s_eq : bit_and (i >>> 16) 0x00008000 ≡ sign * 2 ^ 15 =
      bit_and_pow 15 (i / 2 ^ 16)
      ∙ ap (λ (b : ℕ). b * 2 ^ 15) (bit-eq-div-mod 15 (i / 2 ^ 16) ∙ omega arith) in
    let ex_eq : bit_and (i >>> 23) 0x000000ff ≡ ex = bit_and_mask 8 (i / 2 ^ 23) in
    let m_eq : bit_and i 0x007fffff ≡ m = bit_and_mask 23 i in
    let low = round_denormal-rounds sign (omega arith) m (omega arith) ex in
    let high = round_normal-rounds sign (omega arith) m (omega arith) ex in
    rw (s_eq, ex_eq, m_eq) (ground arith)
