-- ===== src/Tests/Lanes.antt =====
-- The vector instructions on concrete inputs.
use opemu_linux.Common.{min}
use opemu_linux.Common.{
  ℕ, ◌+◌, ◌-◌, ◌*◌, ◌/◌, ◌%◌, ◌^◌, ◌<◌, ◌≤◌, ◌≡◌, ◌⊎◌, refl, arith, true, not, ◌&&◌, ◌||◌, min,
  trunc, bit_and, ◌>>>◌, ◌==◌, ltb, if◌then◌else◌, [],
}
use opemu_linux.Common.Bits.Digit.{bit}
use opemu_linux.Common.Lanes.{lane, pack, tabulate}
use opemu_linux.Decode.Length.{get_consumed}
use opemu_linux.Decode.Rex.{Insn}
use opemu_linux.Half.{renormalize}
use opemu_linux.Half.Renormalize.{is_done, renormalize-ends}
use opemu_linux.F16c.{vcvtph2ps, vcvtps2ph128, vcvtps2ph256}
use opemu_linux.F16c.Laws.{vcvtps2ph-vcvtph2ps}
use opemu_linux.Pcmpstr.{
  dim, pcmpstr_calc_res, cmp_indexed, index_of, first_from, polarity, aggregate, calc_matrix,
}
use opemu_linux.Pcmpstr.Matrix.{digit, combined}
use opemu_linux.Pcmpstr.Laws.{counted, compared, bit-pcmpstr_calc_res}
use opemu_linux.Pcmpstr.Index.{IsIndex, cmp_indexed-IsIndex}
use opemu_linux.Sse42.{vsse42_instruction}
use opemu_linux.Sse42.Errors.{is_vsse42_opcode, vsse42_instruction-foreign}
use opemu_linux.Ssse3.{vpalignr_128, vphaddw_128}
use opemu_linux.Ssse3.Align.{vpalignr_128-shift}
use opemu_linux.Sse2.Integer.{vpadds, vpaddus, vpsubs}
use opemu_linux.Sse2.Laws.{lifted, vpadds-lane}
use opemu_linux.Sse41.Other.{last_smaller, vphminposuw}
use opemu_linux.Sse41.Laws.{vphminposuw-last}
use opemu_linux.Tests.{cpu_of, empty_frame}
use opemu_linux.Tests.Decoding.{andn_insn, registers}

-- "hello, world", and the set of characters "low".
abbrev greeting : ℕ
greeting = 0x646c726f77202c6f6c6c6568

abbrev letters : ℕ
letters = 0x776f6c

-- PCMPISTRI looks for the first character of the greeting that is in the set: it is the l at 2.
index_run : (cmp_indexed letters 3 greeting 12 0).0 ≡ 2
unfolding cmp_indexed pcmpstr_calc_res index_of first_from dim polarity aggregate calc_matrix lane
index_run = refl

bit-pcmpstr_calc_res_example :
    let rows = counted (compared letters greeting 0) (min 3 (dim 0)) (min 12 (dim 0)) 0 in
    let negative = bit_and 0 0x30 == 0x10 in
    let masked = bit_and 0 0x30 == 0x30 && ltb 2 (min 12 (dim 0)) in
    let hit = combined rows 0 2 in
    bit 2 (pcmpstr_calc_res letters 3 greeting 12 0)
    ≡ digit (ltb 2 (dim 0) && (if negative || masked then not hit else hit))
bit-pcmpstr_calc_res_example = bit-pcmpstr_calc_res letters 3 greeting 12 0 2 (omega arith)

cmp_indexed-IsIndex_example :
    let r = cmp_indexed letters 3 greeting 12 0x40 in
    IsIndex (bit_and 0x40 0x40 == 0) (dim 0x40) r.1 r.0
cmp_indexed-IsIndex_example = cmp_indexed-IsIndex letters 3 greeting 12 0x40

-- An instruction with an opcode of the switch, but the leading opcode 0F.
abbrev interleave_insn : Insn
interleave_insn = record andn_insn {
  opcode = 0x60;
  simd_prefix = 1;
  leading_opcode = 1;
  reg_size = 128;
}

vsse42_instruction-foreign_example :
    vsse42_instruction empty_frame (cpu_of registers []) interleave_insn ≡ (
      cpu_of registers [],
      if is_vsse42_opcode interleave_insn.reg_size interleave_insn.opcode
          then trunc 8 (trunc 8 (interleave_insn.ins_size + get_consumed interleave_insn.modrm))
          else 0,
    )
vsse42_instruction-foreign_example =
    vsse42_instruction-foreign empty_frame (cpu_of registers []) interleave_insn refl

vpalignr_128-shift_example :
    vpalignr_128 greeting letters 3 ≡ trunc 128 ((letters * 2 ^ 128 + greeting) >>> (8 * 3))
vpalignr_128-shift_example = vpalignr_128-shift greeting letters (omega arith) (omega arith) 3

-- The lanes 1 and 2 of `x`, and then twice the lanes 0 and 1.
haddw_run : vphaddw_128 0 0x00010000001000030002000100050004 % 2 ^ 48 ≡ 0x000900090006
unfolding vphaddw_128 lane pack tabulate
haddw_run = refl

-- The least word of 5, 3, 4 is 3, but the place of 4 comes out.
last_smaller_run : last_smaller 0x00ff00ff00ff00ff00ff000400030005 7 ≡ 2
unfolding last_smaller lane
last_smaller_run = refl

vphminposuw-last_example :
    let r = lane 16 1 (vphminposuw letters) in
    (r ≤ 7)
    × (vphminposuw letters ≡ lane 16 r letters + r * 2 ^ 16)
    × ((r ≡ 0) ⊎ (lane 16 r letters < lane 16 0 letters))
    × ((j : ℕ) → r < j → j ≤ 7 → lane 16 0 letters ≤ lane 16 j letters)
vphminposuw-last_example = vphminposuw-last letters

vcvtps2ph-vcvtph2ps_example :
    (vcvtps2ph256 (vcvtph2ps 8 greeting) ≡ greeting)
    × (vcvtps2ph128 (vcvtph2ps 4 (greeting % 2 ^ 64)) letters
        ≡ letters / 2 ^ 64 * 2 ^ 64 + greeting % 2 ^ 64)
vcvtps2ph-vcvtph2ps_example = vcvtps2ph-vcvtph2ps greeting letters (omega arith)

-- 127 and 1 saturate to 127; -128 less 1 wraps around to 127.
saturation_run : (vpadds 8 2 0x7F01 0x017F ≡ 0x7F7F) × (vpsubs 8 1 0x01 0x80 ≡ 0x7F)
unfolding vpadds vpsubs lane pack tabulate
saturation_run = (refl, refl)

vpadds-lane_example :
    (lane 8 1 (vpaddus 8 8 greeting letters)
      ≡ min (lane 8 1 letters + lane 8 1 greeting) (2 ^ 8 - 1))
    × (lane 16 1 (vpaddus 16 8 greeting letters)
        ≡ min (lane 16 1 letters + lane 16 1 greeting) (2 ^ 16 - 1))
    × (lifted 8 (lane 8 1 (vpadds 8 8 greeting letters))
        ≡ min (lifted 8 (lane 8 1 letters) + lifted 8 (lane 8 1 greeting) - 2 ^ 7) (2 ^ 8 - 1))
    × (lifted 16 (lane 16 1 (vpadds 16 8 greeting letters))
        ≡ min
            (lifted 16 (lane 16 1 letters) + lifted 16 (lane 16 1 greeting) - 2 ^ 15)
            (2 ^ 16 - 1))
vpadds-lane_example = vpadds-lane 8 greeting letters 1 (omega arith)

renormalize-ends_example :
    let r = renormalize 10 3 0 in
    (renormalize (10 + 90) 3 0 ≡ r) × (is_done r ≡ true) × (r.0 ≡ 3 * 2 ^ r.1)
renormalize-ends_example = renormalize-ends 3 90 (λ h. absurd (omega (arith, h))) (omega arith)
