-- ===== src/Fpins/Laws.antt =====
-- What the rounding functions of fpins.c do with infinities and NaNs.
use opemu_linux.Common.{
  ℕ, ◌<◌, ◌≡◌, ◌∙◌, refl, sym, ap, arith, Bool, true, false, bit_and, bit_or, ◌==◌, if◌then◌else◌,
}
use opemu_linux.Common.Bits.Digit.{bit, bit-lt, bit_ext, bit-bit_and, bit-bit_or}
use opemu_linux.Fpins.{
  FloatOps, is_valid_number_f32, is_valid_number_f64, snan_to_qnan_f32, snan_to_qnan_f64,
  by_sign_f32, by_sign_f64, round_sf, floor_sf, ceil_sf, trunc_sf, round_fp32, round_df, floor_df,
  ceil_df, trunc_df, round_fp64,
}

-- All digits of `m` are set in `x`.
bit_or_subset : (x m : ℕ) → bit_and x m ≡ m → bit_or x m ≡ x
bit_or_subset x m h = bit_ext _ _ λ i.
    omega (arith, ap (λ y. bit i y) h, bit-bit_and i x m, bit-bit_or i x m, bit-lt i x, bit-lt i m)

-- `x` has all digits of `m` and no other.
bits_between : (x m : ℕ) → bit_and x m ≡ m → bit_or x m ≡ m → x ≡ m
bits_between x m all only = sym (bit_or_subset x m all) ∙ only

-- A signalling NaN or the negative infinity gets the digit of a quiet NaN, whichever way the tests go.
module _ (x e q : ℕ) (exponent : bit_and x e ≡ e) (apart : (bit_and e q == q) ≡ false)
    (same : bit_or e e ≡ e) where
  quieted :
      (if bit_and x q == q then x else (if bit_or x e == e then x else bit_or x q))
      ≡ (if x == e then x else bit_or x q)
  quieted = by_tests (bit_and x q == q) (bit_or x e == e) (x == e) refl refl refl
    where
      by_tests :
          (a b c : Bool)
          → (bit_and x q == q) ≡ a
          → (bit_or x e == e) ≡ b
          → (x == e) ≡ c
          → (if a then x else (if b then x else bit_or x q)) ≡ (if c then x else bit_or x q)
      by_tests true b true ea eb ec = refl
      by_tests true b false ea eb ec = sym (bit_or_subset x q (ground arith))
      by_tests false true true ea eb ec = refl
      by_tests false true false ea eb ec =
          let equal : x ≡ e = bits_between x e exponent (ground arith) in ground arith
      by_tests false false true ea eb ec =
          let equal : x ≡ e = ground arith in
          let or_same : bit_or x e ≡ e = rw equal same in ground arith
      by_tests false false false ea eb ec = refl

-- Whatever the rounding control, an infinity or a NaN becomes a quiet NaN, but for the positive
-- infinity, which is kept: the negative infinity becomes a NaN too.
pub round_fp32-no_number :
    (fp : FloatOps) (rc x : ℕ)
    → rc < 4
    → is_valid_number_f32 x ≡ false
    → round_fp32 fp rc x ≡ (if x == 0x7F800000 then x else bit_or x 0x00400000)
unfolding round_fp32 round_sf floor_sf ceil_sf trunc_sf by_sign_f32 snan_to_qnan_f32
    is_valid_number_f32
round_fp32-no_number fp rc x h invalid =
    let exponent : bit_and x 0x7F800000 ≡ 0x7F800000 = ground arith in
    let quiet = quieted x 0x7F800000 0x00400000 exponent refl refl in ground arith

round_fp64-no_number :
    (fp : FloatOps) (rc x : ℕ)
    → rc < 4
    → is_valid_number_f64 x ≡ false
    → round_fp64 fp rc x ≡ (if x == 0x7FF0000000000000 then x else bit_or x 0x0008000000000000)
unfolding round_fp64 round_df floor_df ceil_df trunc_df by_sign_f64 snan_to_qnan_f64
    is_valid_number_f64
round_fp64-no_number fp rc x h invalid =
    let exponent : bit_and x 0x7FF0000000000000 ≡ 0x7FF0000000000000 = ground arith in
    let quiet = quieted x 0x7FF0000000000000 0x0008000000000000 exponent refl refl in ground arith
