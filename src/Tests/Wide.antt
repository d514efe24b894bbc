-- ===== src/Tests/Wide.antt =====
-- The SSE, AVX and gather instructions, and fpins.c, on concrete inputs.
use opemu_linux.Common.{
  ◌/◌, trunc, ltb, false, ℕ, ◌+◌, ◌*◌, ◌^◌, ◌≡◌, inl, refl, arith, ◌==◌, if◌then◌else◌, [], ◌∷◌,
}
use opemu_linux.Common.Lanes.{lane}
use opemu_linux.Machine.{Cpu, ObjectFile, place, is_saved_state64, store_ymm}
use opemu_linux.Decode.Rex.{Insn}
use opemu_linux.Simd.{perform}
use opemu_linux.Fpins.{is_valid_number_f32, round_fp32}
use opemu_linux.Fpins.Laws.{round_fp32-no_number}
use opemu_linux.Sse.Dispatch.{vsse_instruction}
use opemu_linux.Sse.Laws.{form, copied, vsse_instruction-falls_through}
use opemu_linux.Avx.Moves.{vzeroupper, vzeroall}
use opemu_linux.Avx.Permute.{vperm2f128, vperm2i128}
use opemu_linux.Avx.Laws.{documented_perm, vperm2f128-documented}
use opemu_linux.Avx.Zero.{vzeroupper-store_ymm}
use opemu_linux.Gather.Lanes.{vpgatherdq}
use opemu_linux.Gather.Dispatch.{data_addr}
use opemu_linux.Gather.Laws.{documented, extra, vpgatherdq-lane}
use opemu_linux.Tests.{cpu_of, empty_frame, code_of}
use opemu_linux.Tests.Decoding.{andn_insn, registers}
use opemu_linux.Tests.Traps.{no_floats}

abbrev cpu : Cpu
cpu = cpu_of registers (1 ∷ 2 ∷ 3 ∷ [])

vsse_instruction-falls_through_example :
    let run = λ (opcode : ℕ). vsse_instruction no_floats empty_frame cpu (form opcode andn_insn) in
    let result = copied empty_frame cpu andn_insn in
    (run 0x28 ≡ result)
    × (run 0x12 ≡ result)
    × (run 0x13 ≡ result)
    × (run 0x16 ≡ result)
    × (run 0x17 ≡ result)
vsse_instruction-falls_through_example =
    vsse_instruction-falls_through no_floats empty_frame cpu andn_insn

-- Four lanes, of which the second and the fourth are masked.
abbrev mask : ℕ
mask = 0x80000000000000008000000000000000

abbrev words : ℕ
words = 0x44444444333333332222222211111111

vzeroupper-store_ymm_example :
    let changed = ltb 2 (if is_saved_state64 registers then 16 else 8) in
    let p = ObjectFile.optrap in
    let before = store_ymm p 2 0 cpu in
    let upper = if place p == place ObjectFile.avx then 0 else cpu.vymm p 2 / 2 ^ 128 in
    (store_ymm p 2 0 (perform ObjectFile.avx (vzeroupper registers) cpu)
      ≡ (if changed then upper * 2 ^ 128 + cpu.xmm 2 else before))
    × (store_ymm p 2 0 (perform ObjectFile.avx (vzeroall registers) cpu)
        ≡ (if changed then upper * 2 ^ 128 else before))
vzeroupper-store_ymm_example = vzeroupper-store_ymm registers ObjectFile.optrap cpu 2 (omega arith)

-- The negative infinity becomes a NaN.
negative_infinity : is_valid_number_f32 0xFF800000 ≡ false
unfolding is_valid_number_f32
negative_infinity = refl

round_fp32-no_number_example : round_fp32 no_floats 1 0xFF800000 ≡ 0xFFC00000
round_fp32-no_number_example =
    round_fp32-no_number no_floats 1 0xFF800000 (omega arith) negative_infinity

vperm2f128-documented_example :
    (vperm2f128 (7 * 2 ^ 128 + 5) 3 0x01 9 ≡ documented_perm (7 * 2 ^ 128 + 5) 3 0x01)
    × (vperm2i128 (7 * 2 ^ 128 + 5) 3 0x01 9 ≡ documented_perm (7 * 2 ^ 128 + 5) 3 0x01)
vperm2f128-documented_example = vperm2f128-documented (7 * 2 ^ 128 + 5) 3 0x01 9 (inl refl)

-- `vpgatherdq xmm0, [rax + 4 * xmm2], xmm1`, from ModRM on.
abbrev gather_insn : Insn
gather_insn = record andn_insn { modrm = code_of (0x04 ∷ 0x90 ∷ []) }

vpgatherdq-lane_example :
    let x = lane 32 1 (6 * 2 ^ 32) in
    lane 64 1 (vpgatherdq (data_addr cpu gather_insn) 2 (2 ^ 127) (6 * 2 ^ 32)) ≡ (
      if lane 64 1 (2 ^ 127) / 2 ^ 63 == 1
      then trunc 64 (documented cpu gather_insn x + extra cpu gather_insn x)
      else 0)
vpgatherdq-lane_example =
    vpgatherdq-lane cpu gather_insn (omega arith) (omega arith) 2 (2 ^ 127) (6 * 2 ^ 32) 1
      (omega arith)
