-- ===== src/Sse2/Floats.antt =====
-- The arithmetic and the conversions of doubles and floats in vsse2.h, over the operations that the
-- compiler makes of C's.
use opemu_linux.Common.{ℕ, ◌*◌, ◌%◌, ◌^◌, [], ◌∷◌}
use opemu_linux.Common.{◌==◌, if◌then◌else◌}
use opemu_linux.Common.Lanes.{lane, pack, tabulate}
use opemu_linux.Simd.Loops.{each_lane, zip_lanes}
use opemu_linux.Operand.{set_low}
use opemu_linux.Fpins.{FloatOps, round_fp32, round_fp64, sqrt_df}

-- vsubpd, vmulpd and vdivpd by the operation; the scalar forms keep the high half of vsrc.
unfoldable pub packed_double : (ℕ → ℕ → ℕ) → ℕ → ℕ → ℕ → ℕ
unfolding zip_lanes
packed_double op n src vsrc = zip_lanes 64 n op src vsrc

unfoldable pub scalar_double : (ℕ → ℕ → ℕ) → ℕ → ℕ → ℕ
scalar_double op src vsrc = pack 64 (op (lane 64 0 vsrc) (lane 64 0 src) ∷ lane 64 1 vsrc ∷ [])

module _ (fp : FloatOps) where
  unfoldable pub vsqrtpd : ℕ → ℕ → ℕ
  unfolding each_lane
  vsqrtpd n src = each_lane 64 n (sqrt_df fp) src

  unfoldable pub vsqrtsd : ℕ → ℕ → ℕ
  vsqrtsd src vsrc = pack 64 (sqrt_df fp (lane 64 0 src) ∷ lane 64 1 vsrc ∷ [])

  unfoldable pub vcvtdq2pd : ℕ → ℕ → ℕ
  vcvtdq2pd n src = pack 64 (tabulate n (λ i. fp.double_of_int32 (lane 32 i src)))

  unfoldable pub vcvtdq2ps : ℕ → ℕ → ℕ
  unfolding each_lane
  vcvtdq2ps n src = each_lane 32 n fp.float_of_int32 src

  -- The `n` results are half as wide as the sources; `old` is what the result held above them.
  unfoldable pub vcvtpd2dq : ℕ → ℕ → ℕ → ℕ → ℕ
  vcvtpd2dq n src old rc =
      set_low (32 * n) old
        (pack 32 (tabulate n (λ i. fp.int32_of_double (round_fp64 fp rc (lane 64 i src)))))

  unfoldable pub vcvtpd2ps : ℕ → ℕ → ℕ → ℕ
  vcvtpd2ps n src old =
      set_low (32 * n) old (pack 32 (tabulate n (λ i. fp.float_of_double (lane 64 i src))))

  unfoldable pub vcvtps2dq : ℕ → ℕ → ℕ → ℕ
  unfolding each_lane
  vcvtps2dq n src rc = each_lane 32 n (λ x. fp.int32_of_float (round_fp32 fp rc x)) src

  unfoldable pub vcvtps2pd : ℕ → ℕ → ℕ
  vcvtps2pd n src = pack 64 (tabulate n (λ i. fp.double_of_float (lane 32 i src)))

  -- The low 64 bits of the result: with a 32-bit operand 0 in the high half of them.
  unfoldable pub vcvtsd2si : ℕ → ℕ → ℕ → ℕ
  vcvtsd2si src rc operand_size =
      let rounded = round_fp64 fp rc (lane 64 0 src) in
      if operand_size == 64
      then fp.int64_of_double rounded
      else pack 32 (fp.int32_of_double rounded ∷ 0 ∷ [])

  unfoldable pub vcvtsd2ss : ℕ → ℕ → ℕ
  vcvtsd2ss src vsrc = set_low 32 vsrc (fp.float_of_double (lane 64 0 src) % 2 ^ 32)

  unfoldable pub vcvtsi2sd : ℕ → ℕ → ℕ → ℕ
  vcvtsi2sd src vsrc operand_size = set_low 64 vsrc (
      (if operand_size == 64
        then fp.double_of_int64 (lane 64 0 src)
        else fp.double_of_int32 (lane 32 0 src))
      % 2 ^ 64)

  unfoldable pub vcvtss2sd : ℕ → ℕ → ℕ
  vcvtss2sd src vsrc = set_low 64 vsrc (fp.double_of_float (lane 32 0 src) % 2 ^ 64)
