-- ===== src/Sse41/Floats.antt =====
-- The products and roundings of doubles and floats in vsse41.h, over `FloatOps`.
use opemu_linux.Common.{ℕ, bit_and, ◌>>>◌, ltb, ◌==◌, if◌then◌else◌, [], ◌∷◌}
use opemu_linux.Common.Lanes.{lane, pack, tabulate}
use opemu_linux.Simd.Loops.{each_lane}
use opemu_linux.Fpins.{FloatOps, round_fp32, round_fp64}

-- `immvar = (immN > i) & 1`: a comparison, where a shift is meant.
unfoldable pub chosen_lane : ℕ → ℕ → ℕ → ℕ
chosen_lane bits i x = if ltb i bits then x else 0

module _ (fp : FloatOps) where
  -- temp4 of vdpps, on 128 bits.
  unfoldable pub dot_floats : ℕ → ℕ → ℕ → ℕ
  unfolding chosen_lane
  dot_floats src1 src2 imm =
      let temp1 =
        λ (i : ℕ). chosen_lane (imm >>> 4) i (fp.mul_f32 (lane 32 i src1) (lane 32 i src2)) in
      fp.add_f32 (fp.add_f32 (temp1 0) (temp1 1)) (fp.add_f32 (temp1 2) (temp1 3))

  unfoldable pub vdpps_128 : ℕ → ℕ → ℕ → ℕ
  unfolding dot_floats chosen_lane
  vdpps_128 src vsrc imm =
      let temp4 = dot_floats vsrc src imm in
      pack 32 (tabulate 4 (λ i. chosen_lane (bit_and imm 15) i temp4))

  unfoldable pub vdpps_256 : ℕ → ℕ → ℕ → ℕ
  unfolding vdpps_128
  vdpps_256 src vsrc imm = pack 128 (
      vdpps_128 (lane 128 0 src) (lane 128 0 vsrc) imm
      ∷ vdpps_128 (lane 128 1 src) (lane 128 1 vsrc) imm
      ∷ [])

  unfoldable pub vdppd : ℕ → ℕ → ℕ → ℕ
  unfolding chosen_lane
  vdppd src vsrc imm =
      let temp1 = λ (i : ℕ). chosen_lane (imm >>> 4) i (fp.mul (lane 64 i vsrc) (lane 64 i src)) in
      let temp2 = fp.add (temp1 0) (temp1 1) in
      pack 64 (tabulate 2 (λ i. chosen_lane (bit_and imm 15) i temp2))

  -- The rounding control: of the immediate, or of MXCSR.
  unfoldable pub rounding : ℕ → ℕ
  rounding imm = if bit_and (imm >>> 2) 1 == 0 then bit_and imm 3 else fp.mxcsr_rc

  unfoldable pub vroundps : ℕ → ℕ → ℕ → ℕ
  unfolding each_lane rounding
  vroundps n src imm = each_lane 32 n (round_fp32 fp (rounding imm)) src

  unfoldable pub vroundpd : ℕ → ℕ → ℕ → ℕ
  unfolding each_lane rounding
  vroundpd n src imm = each_lane 64 n (round_fp64 fp (rounding imm)) src

  unfoldable pub vroundss : ℕ → ℕ → ℕ → ℕ
  unfolding rounding
  vroundss src vsrc imm = pack 32 (
      round_fp32 fp (rounding imm) (lane 32 0 src)
      ∷ lane 32 1 vsrc
      ∷ lane 32 2 vsrc
      ∷ lane 32 3 vsrc
      ∷ [])

  unfoldable pub vroundsd : ℕ → ℕ → ℕ → ℕ
  unfolding rounding
  vroundsd src vsrc imm =
      pack 64 (round_fp64 fp (rounding imm) (lane 64 0 src) ∷ lane 64 1 vsrc ∷ [])
