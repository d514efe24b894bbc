-- ===== src/Sse/Floats.antt =====
-- The arithmetic, the conversions and the computations of floats in vsse.h.
use opemu_linux.Common.{ℕ, ◌%◌, ◌^◌, [], ◌∷◌, bit_and, bit_or, bit_xor, compl, ◌==◌, if◌then◌else◌}
use opemu_linux.Common.Lanes.{lane, pack}
use opemu_linux.Simd.Loops.{each_lane, zip_lanes}
use opemu_linux.Operand.{set_low}
use opemu_linux.Fpins.{FloatOps, round_fp32}

-- vaddps, vsubps, vmulps and vdivps by the operation; the scalar forms keep the other lanes of vsrc.
unfoldable pub packed_float : (ℕ → ℕ → ℕ) → ℕ → ℕ → ℕ → ℕ
unfolding zip_lanes
packed_float op n src vsrc = zip_lanes 32 n op src vsrc

unfoldable pub scalar_float : (ℕ → ℕ → ℕ) → ℕ → ℕ → ℕ
scalar_float op src vsrc = set_low 32 vsrc (op (lane 32 0 vsrc) (lane 32 0 src) % 2 ^ 32)

-- vrcpps, vrsqrtps and vsqrtps by the operation, and their scalar forms.
unfoldable pub packed_root : (ℕ → ℕ) → ℕ → ℕ → ℕ
unfolding each_lane
packed_root op n src = each_lane 32 n op src

unfoldable pub scalar_root : (ℕ → ℕ) → ℕ → ℕ → ℕ
scalar_root op src vsrc = set_low 32 vsrc (op (lane 32 0 src) % 2 ^ 32)

-- The logical operations, on the bits of each lane.
unfoldable pub vandps : ℕ → ℕ → ℕ → ℕ
unfolding zip_lanes
vandps n src vsrc = zip_lanes 32 n bit_and src vsrc

unfoldable pub vandnps : ℕ → ℕ → ℕ → ℕ
unfolding zip_lanes
vandnps n src vsrc = zip_lanes 32 n (λ x y. bit_and (compl 32 x) y) src vsrc

unfoldable pub vorps : ℕ → ℕ → ℕ → ℕ
unfolding zip_lanes
vorps n src vsrc = zip_lanes 32 n bit_or src vsrc

unfoldable pub vxorps : ℕ → ℕ → ℕ → ℕ
unfolding zip_lanes
vxorps n src vsrc = zip_lanes 32 n bit_xor src vsrc

module _ (fp : FloatOps) where
  unfoldable pub vcvtsi2ss : ℕ → ℕ → ℕ → ℕ
  vcvtsi2ss src vsrc operand_size = set_low 32 vsrc (
      (if operand_size == 64
        then fp.float_of_int64 (lane 64 0 src)
        else fp.float_of_int32 (lane 32 0 src))
      % 2 ^ 32)

  -- The low 64 bits of the result. The rounded float goes through a double.
  unfoldable pub vcvtss2si : ℕ → ℕ → ℕ → ℕ
  vcvtss2si src rc operand_size =
      let df = fp.double_of_float (round_fp32 fp rc (lane 32 0 src)) in
      if operand_size == 64 then fp.int64_of_double df else pack 32 (fp.int32_of_double df ∷ 0 ∷ [])

  -- What STMXCSR stores, in the low 32 bits of the result.
  unfoldable pub vstmxcsr : ℕ → ℕ
  vstmxcsr old = set_low 32 old (fp.mxcsr % 2 ^ 32)
