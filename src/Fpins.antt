-- ===== src/Fpins.antt =====
-- fpins.c over the operations that the compiler makes of those of C on doubles and floats: the
-- rounding functions, the square roots, and the tests on the patterns that they use.
use opemu_linux.Common.{ℕ, zero, suc, Bool, not, bit_and, bit_or, ◌==◌, if◌then◌else◌}
use opemu_linux.Sse2.Compare.{lt_f64}
use opemu_linux.Sse.Compare.{lt_f32}
pub mod Laws

-- Operations on the patterns of doubles, floats and integers: `+`, `-`, `*` and `/` of doubles and of
-- floats, their negation, the conversions that a cast or an assignment makes, the approximations that
-- the processor computes for `rcp_sf` and `rsqrt_sf`, MXCSR and its rounding control, and what a
-- shift by the full width gives, or one by a count that is larger.
pub record FloatOps : Type 0 where
  pub add : ℕ → ℕ → ℕ
  pub sub : ℕ → ℕ → ℕ
  pub mul : ℕ → ℕ → ℕ
  pub div : ℕ → ℕ → ℕ
  pub mul_f32 : ℕ → ℕ → ℕ
  pub add_f32 : ℕ → ℕ → ℕ
  pub sub_f32 : ℕ → ℕ → ℕ
  pub div_f32 : ℕ → ℕ → ℕ
  pub neg_f64 : ℕ → ℕ
  pub neg_f32 : ℕ → ℕ
  pub rcp_sf : ℕ → ℕ
  pub rsqrt_sf : ℕ → ℕ
  pub double_of_int32 : ℕ → ℕ
  pub double_of_int64 : ℕ → ℕ
  pub float_of_int32 : ℕ → ℕ
  pub float_of_int64 : ℕ → ℕ
  pub int32_of_double : ℕ → ℕ
  pub int64_of_double : ℕ → ℕ
  pub int32_of_float : ℕ → ℕ
  pub float_of_double : ℕ → ℕ
  pub double_of_float : ℕ → ℕ
  pub mxcsr : ℕ
  pub mxcsr_rc : ℕ
  pub wide_shift : ℕ → ℕ
  pub shift_beyond : ℕ → ℕ → ℕ

unfoldable pub is_valid_number_f32 : ℕ → Bool
is_valid_number_f32 val = not (bit_and val 0x7F800000 == 0x7F800000)

unfoldable pub is_valid_number_f64 : ℕ → Bool
is_valid_number_f64 val = not (bit_and val 0x7FF0000000000000 == 0x7FF0000000000000)

unfoldable pub snan_to_qnan_f32 : ℕ → ℕ
snan_to_qnan_f32 val =
    if bit_and val 0x00400000 == 0x00400000
    then val
    else (if bit_or val 0x7F800000 == 0x7F800000 then val else bit_or val 0x00400000)

unfoldable pub snan_to_qnan_f64 : ℕ → ℕ
snan_to_qnan_f64 val =
    if bit_and val 0x0008000000000000 == 0x0008000000000000
    then val
    else (if bit_or val 0x7FF0000000000000 == 0x7FF0000000000000
        then val
        else bit_or val 0x0008000000000000)

-- What the four rounding functions share: a number is rounded by its sign, and what is no number is
-- made a quiet NaN.
unfoldable pub by_sign_f32 : ℕ → ℕ → ℕ → ℕ
unfolding is_valid_number_f32 snan_to_qnan_f32
by_sign_f32 fp32 above below =
    if is_valid_number_f32 fp32
    then (if lt_f32 0 fp32 then above else below)
    else snan_to_qnan_f32 fp32

unfoldable pub by_sign_f64 : ℕ → ℕ → ℕ → ℕ
unfolding is_valid_number_f64 snan_to_qnan_f64
by_sign_f64 fp64 above below =
    if is_valid_number_f64 fp64
    then (if lt_f64 0 fp64 then above else below)
    else snan_to_qnan_f64 fp64

-- `while(i--) x = step(x);`
unfoldable pub repeated : ℕ → (ℕ → ℕ) → ℕ → ℕ
repeated zero step x = x
repeated (suc i) step x = repeated i step (step x)

module _ (fp : FloatOps) where
  -- `(float)((int32_t)fp32)` and `(double)((int64_t)fp64)`
  abbrev cut_f32 : ℕ → ℕ
  cut_f32 x = fp.float_of_int32 (fp.int32_of_float x)

  abbrev cut_f64 : ℕ → ℕ
  cut_f64 x = fp.double_of_int64 (fp.int64_of_double x)

  -- The constant 0.5 is a double, so the sum and the difference are computed as doubles.
  unfoldable pub round_sf : ℕ → ℕ
  unfolding by_sign_f32
  round_sf fp32 =
      let wide = fp.double_of_float fp32 in
      by_sign_f32 fp32 (cut_f32 (fp.float_of_double (fp.add wide 0x3FE0000000000000)))
        (cut_f32 (fp.float_of_double (fp.sub wide 0x3FE0000000000000)))

  unfoldable pub floor_sf : ℕ → ℕ
  unfolding by_sign_f32
  floor_sf fp32 = by_sign_f32 fp32 (cut_f32 fp32) (cut_f32 (fp.sub_f32 fp32 0x3F800000))

  unfoldable pub ceil_sf : ℕ → ℕ
  unfolding by_sign_f32
  ceil_sf fp32 = by_sign_f32 fp32 (cut_f32 (fp.add_f32 fp32 0x3F800000)) (cut_f32 fp32)

  unfoldable pub trunc_sf : ℕ → ℕ
  unfolding by_sign_f32
  trunc_sf fp32 = by_sign_f32 fp32 (cut_f32 fp32) (cut_f32 fp32)

  unfoldable pub round_df : ℕ → ℕ
  unfolding by_sign_f64
  round_df fp64 =
      by_sign_f64 fp64 (cut_f64 (fp.add fp64 0x3FE0000000000000))
        (cut_f64 (fp.sub fp64 0x3FE0000000000000))

  unfoldable pub floor_df : ℕ → ℕ
  unfolding by_sign_f64
  floor_df fp64 = by_sign_f64 fp64 (cut_f64 fp64) (cut_f64 (fp.sub fp64 0x3FF0000000000000))

  unfoldable pub ceil_df : ℕ → ℕ
  unfolding by_sign_f64
  ceil_df fp64 = by_sign_f64 fp64 (cut_f64 (fp.add fp64 0x3FF0000000000000)) (cut_f64 fp64)

  unfoldable pub trunc_df : ℕ → ℕ
  unfolding by_sign_f64
  trunc_df fp64 = by_sign_f64 fp64 (cut_f64 fp64) (cut_f64 fp64)

  -- The switch has no default: any other rounding control leaves the number as it is.
  unfoldable pub round_fp32 : ℕ → ℕ → ℕ
  unfolding round_sf floor_sf ceil_sf trunc_sf
  round_fp32 rc x =
      if rc == 0
      then round_sf x
      else (if rc == 1
          then floor_sf x
          else (if rc == 2 then ceil_sf x else (if rc == 3 then trunc_sf x else x)))

  unfoldable pub round_fp64 : ℕ → ℕ → ℕ
  unfolding round_df floor_df ceil_df trunc_df
  round_fp64 rc x =
      if rc == 0
      then round_df x
      else (if rc == 1
          then floor_df x
          else (if rc == 2 then ceil_df x else (if rc == 3 then trunc_df x else x)))

  -- A hundred turns of `x = (x + a / x) / 2`, from `a / 2`.
  unfoldable pub sqrt_sf : ℕ → ℕ
  unfolding repeated
  sqrt_sf a =
      repeated 100 (λ x. fp.div_f32 (fp.add_f32 x (fp.div_f32 a x)) 0x40000000)
        (fp.div_f32 a 0x40000000)

  unfoldable pub sqrt_df : ℕ → ℕ
  unfolding repeated
  sqrt_df a =
      repeated 100 (λ x. fp.div (fp.add x (fp.div a x)) 0x4000000000000000)
        (fp.div a 0x4000000000000000)
