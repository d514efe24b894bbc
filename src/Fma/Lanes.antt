-- ===== src/Fma/Lanes.antt =====
-- The functions of fma.h. A product and a sum are two operations of the C language, and the result is
-- rounded once more to an integer by `round_fp64` or `round_fp32`.
use opemu_linux.Common.{ℕ, ◌%◌, ◌^◌, Bool, true, false, not, ◌==◌, if◌then◌else◌}
use opemu_linux.Common.Lanes.{lane, pack, tabulate}
use opemu_linux.Operand.{set_low}
use opemu_linux.Fpins.{FloatOps, round_fp32, round_fp64}

-- The digits in a function's name: which two operands are multiplied, and which one is added.
pub data Form : Type 0 where
  f132 : Form
  f213 : Form
  f231 : Form

pub record Terms : Type 0 where
  pub left : ℕ
  pub right : ℕ
  pub summand : ℕ

unfoldable pub arranged : Form → ℕ → ℕ → ℕ → Terms
arranged Form.f132 src3 src2 src1 = record { left = src1; right = src3; summand = src2 }
arranged Form.f213 src3 src2 src1 = record { left = src2; right = src1; summand = src3 }
arranged Form.f231 src3 src2 src1 = record { left = src2; right = src3; summand = src1 }

abbrev is_even : ℕ → Bool
is_even i = i % 2 == 0

abbrev is_odd : ℕ → Bool
is_odd i = not (i % 2 == 0)

module _ (fp : FloatOps) where
  -- `round(±(x * y) ± z)`
  unfoldable pub fused_f64 : Bool → Bool → ℕ → ℕ → ℕ → ℕ → ℕ
  fused_f64 negate subtract rc x y z =
      let product = fp.mul x y in
      let signed = if negate then fp.neg_f64 product else product in
      round_fp64 fp rc (if subtract then fp.sub signed z else fp.add signed z)

  unfoldable pub fused_f32 : Bool → Bool → ℕ → ℕ → ℕ → ℕ → ℕ
  fused_f32 negate subtract rc x y z =
      let product = fp.mul_f32 x y in
      let signed = if negate then fp.neg_f32 product else product in
      round_fp32 fp rc (if subtract then fp.sub_f32 signed z else fp.add_f32 signed z)

  -- The loops: `subtract` tells for each lane which of `+` and `-` stands there.
  unfoldable pub packed_f64 : Bool → (ℕ → Bool) → ℕ → Form → ℕ → ℕ → ℕ → ℕ → ℕ
  unfolding fused_f64 arranged
  packed_f64 negate subtract n form src3 src2 src1 rc =
      let t = arranged form src3 src2 src1 in
      pack 64 (
        tabulate n (λ i.
          fused_f64 negate (subtract i) rc (lane 64 i t.left) (lane 64 i t.right)
            (lane 64 i t.summand)))

  unfoldable pub packed_f32 : Bool → (ℕ → Bool) → ℕ → Form → ℕ → ℕ → ℕ → ℕ → ℕ
  unfolding fused_f32 arranged
  packed_f32 negate subtract n form src3 src2 src1 rc =
      let t = arranged form src3 src2 src1 in
      pack 32 (
        tabulate n (λ i.
          fused_f32 negate (subtract i) rc (lane 32 i t.left) (lane 32 i t.right)
            (lane 32 i t.summand)))

  -- The scalar forms keep the upper lanes of src1.
  unfoldable pub scalar_f64 : Bool → Bool → Form → ℕ → ℕ → ℕ → ℕ → ℕ
  unfolding fused_f64 arranged
  scalar_f64 negate subtract form src3 src2 src1 rc =
      let t = arranged form src3 src2 src1 in
      set_low 64 src1 (
        fused_f64 negate subtract rc (lane 64 0 t.left) (lane 64 0 t.right) (lane 64 0 t.summand)
        % 2 ^ 64)

  unfoldable pub scalar_f32 : Bool → Bool → Form → ℕ → ℕ → ℕ → ℕ → ℕ
  unfolding fused_f32 arranged
  scalar_f32 negate subtract form src3 src2 src1 rc =
      let t = arranged form src3 src2 src1 in
      set_low 32 src1 (
        fused_f32 negate subtract rc (lane 32 0 t.left) (lane 32 0 t.right) (lane 32 0 t.summand)
        % 2 ^ 32)

  unfoldable pub vfmadd_pd : ℕ → Form → ℕ → ℕ → ℕ → ℕ → ℕ
  unfolding packed_f64
  vfmadd_pd n form src3 src2 src1 rc = packed_f64 false (λ i. false) n form src3 src2 src1 rc

  unfoldable pub vfmadd_ps : ℕ → Form → ℕ → ℕ → ℕ → ℕ → ℕ
  unfolding packed_f32
  vfmadd_ps n form src3 src2 src1 rc = packed_f32 false (λ i. false) n form src3 src2 src1 rc

  unfoldable pub vfmadd_sd : Form → ℕ → ℕ → ℕ → ℕ → ℕ
  unfolding scalar_f64
  vfmadd_sd form src3 src2 src1 rc = scalar_f64 false false form src3 src2 src1 rc

  unfoldable pub vfmadd_ss : Form → ℕ → ℕ → ℕ → ℕ → ℕ
  unfolding scalar_f32
  vfmadd_ss form src3 src2 src1 rc = scalar_f32 false false form src3 src2 src1 rc

  unfoldable pub vfmaddsub_pd : ℕ → Form → ℕ → ℕ → ℕ → ℕ → ℕ
  unfolding packed_f64
  vfmaddsub_pd n form src3 src2 src1 rc = packed_f64 false is_even n form src3 src2 src1 rc

  unfoldable pub vfmaddsub_ps : ℕ → Form → ℕ → ℕ → ℕ → ℕ → ℕ
  unfolding packed_f32
  vfmaddsub_ps n form src3 src2 src1 rc = packed_f32 false is_even n form src3 src2 src1 rc

  unfoldable pub vfmsub_pd : ℕ → Form → ℕ → ℕ → ℕ → ℕ → ℕ
  unfolding packed_f64
  vfmsub_pd n form src3 src2 src1 rc = packed_f64 false (λ i. true) n form src3 src2 src1 rc

  unfoldable pub vfmsub_ps : ℕ → Form → ℕ → ℕ → ℕ → ℕ → ℕ
  unfolding packed_f32
  vfmsub_ps n form src3 src2 src1 rc = packed_f32 false (λ i. true) n form src3 src2 src1 rc

  unfoldable pub vfmsub_sd : Form → ℕ → ℕ → ℕ → ℕ → ℕ
  unfolding scalar_f64
  vfmsub_sd form src3 src2 src1 rc = scalar_f64 false true form src3 src2 src1 rc

  unfoldable pub vfmsub_ss : Form → ℕ → ℕ → ℕ → ℕ → ℕ
  unfolding scalar_f32
  vfmsub_ss form src3 src2 src1 rc = scalar_f32 false true form src3 src2 src1 rc

  unfoldable pub vfmsubadd_pd : ℕ → Form → ℕ → ℕ → ℕ → ℕ → ℕ
  unfolding packed_f64
  vfmsubadd_pd n form src3 src2 src1 rc = packed_f64 false is_odd n form src3 src2 src1 rc

  unfoldable pub vfmsubadd_ps : ℕ → Form → ℕ → ℕ → ℕ → ℕ → ℕ
  unfolding packed_f32
  vfmsubadd_ps n form src3 src2 src1 rc = packed_f32 false is_odd n form src3 src2 src1 rc

  unfoldable pub vfnmadd_pd : ℕ → Form → ℕ → ℕ → ℕ → ℕ → ℕ
  unfolding packed_f64
  vfnmadd_pd n form src3 src2 src1 rc = packed_f64 true (λ i. false) n form src3 src2 src1 rc

  unfoldable pub vfnmadd_ps : ℕ → Form → ℕ → ℕ → ℕ → ℕ → ℕ
  unfolding packed_f32
  vfnmadd_ps n form src3 src2 src1 rc = packed_f32 true (λ i. false) n form src3 src2 src1 rc

  unfoldable pub vfnmadd_sd : Form → ℕ → ℕ → ℕ → ℕ → ℕ
  unfolding scalar_f64
  vfnmadd_sd form src3 src2 src1 rc = scalar_f64 true false form src3 src2 src1 rc

  unfoldable pub vfnmadd_ss : Form → ℕ → ℕ → ℕ → ℕ → ℕ
  unfolding scalar_f32
  vfnmadd_ss form src3 src2 src1 rc = scalar_f32 true false form src3 src2 src1 rc

  unfoldable pub vfnmsub_pd : ℕ → Form → ℕ → ℕ → ℕ → ℕ → ℕ
  unfolding packed_f64
  vfnmsub_pd n form src3 src2 src1 rc = packed_f64 true (λ i. true) n form src3 src2 src1 rc

  unfoldable pub vfnmsub_ps : ℕ → Form → ℕ → ℕ → ℕ → ℕ → ℕ
  unfolding packed_f32
  vfnmsub_ps n form src3 src2 src1 rc = packed_f32 true (λ i. true) n form src3 src2 src1 rc

  unfoldable pub vfnmsub_sd : Form → ℕ → ℕ → ℕ → ℕ → ℕ
  unfolding scalar_f64
  vfnmsub_sd form src3 src2 src1 rc = scalar_f64 true true form src3 src2 src1 rc

  unfoldable pub vfnmsub_ss : Form → ℕ → ℕ → ℕ → ℕ → ℕ
  unfolding scalar_f32
  vfnmsub_ss form src3 src2 src1 rc = scalar_f32 true true form src3 src2 src1 rc
