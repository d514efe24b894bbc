-- ===== src/Tests/Decoding.antt =====
-- Decoding, addresses and registers on concrete instructions.
use opemu_linux.Common.{
  ◌+◌, ◌*◌, ◌%◌, ◌^◌, ◌≤◌, ◌≡◌, refl, arith, [], ◌∷◌, some, ◌==◌, if◌then◌else◌, trunc,
}
use opemu_linux.Machine.{Regs, Bytes}
use opemu_linux.Decode.Rex.{Insn}
use opemu_linux.Decode.Vex.{vex_decode}
use opemu_linux.Decode.Laws.{IsFramed, vex_decode-IsFramed}
use opemu_linux.Address.{addressing64, addressing32}
use opemu_linux.Address.Spec.{effective_address}
use opemu_linux.Address.Laws.{addressing64-mod2, addressing32-eq}
use opemu_linux.Decode.Vex.{VexFields, vex3_fields}
use opemu_linux.Decode.Laws.{vex_byte1, vex_byte2, vex3_fields-bytes}
use opemu_linux.Tests.{regs64, code_of}

-- `andn rax, rcx, rdx`, and `andn rax, rcx, [rsi + 4 * rdi + 0x10]`.
abbrev pub andn_code : Bytes
andn_code = code_of (0xC4 ∷ 0xE2 ∷ 0xF0 ∷ 0xF2 ∷ 0xC2 ∷ [])

abbrev pub andn_insn : Insn
andn_insn = record {
  opcode = 0xF2;
  modrm = λ i. andn_code (4 + i);
  bytep = λ i. andn_code (4 + i);
  ins_size = 4;
  modbyte = 4;
  reg_size = 128;
  operand_size = 64;
  leading_opcode = 2;
  simd_prefix = 0;
  high_reg = 0;
  high_index = 0;
  high_base = 0;
  vexreg = 1;
}

pub andn_decoded : vex_decode andn_code ≡ some andn_insn
unfolding vex_decode
andn_decoded = refl

abbrev memory_modrm : Bytes
memory_modrm = code_of (0x44 ∷ 0xBE ∷ 0x10 ∷ [])

abbrev pub registers : Regs
registers = regs64 (1 ∷ 2 ∷ 3 ∷ 4 ∷ 5 ∷ 6 ∷ 7 ∷ 8 ∷ [])

vex_decode-IsFramed_example : IsFramed andn_code 5 andn_insn × (3 ≤ 4)
vex_decode-IsFramed_example = vex_decode-IsFramed andn_code andn_insn andn_decoded

addressing64-mod2_example :
    addressing64 registers memory_modrm 2 (4 + 0 * 8) 0 0 4
    ≡ (effective_address registers memory_modrm 2 (4 + 0 * 8) (0 * 8) (0 * 8) 64 0
        + (registers.ip + 4 + (if 4 == 4 then 5 else 4)))
      % 2 ^ 64
addressing64-mod2_example =
    addressing64-mod2 memory_modrm 0 0 (omega arith) (omega arith) (omega arith) registers 4 4
      (omega arith) 0 (omega arith)

addressing32-eq_example :
    addressing32 (λ _. 0) registers memory_modrm 1 4
    ≡ effective_address
        (record registers { gpr = λ n. trunc 32 (registers.gpr n) })
        memory_modrm
        1
        4
        0
        0
        32
        0
addressing32-eq_example =
    addressing32-eq (λ _. 0) registers memory_modrm 4 (omega arith) (omega arith) 1 (omega arith)

abbrev long_form : VexFields
long_form = record {
  vex_r = 1;
  vex_x = 1;
  vex_b = 0;
  vex_m = 2;
  vex_w = 1;
  vex_v = 13;
  vex_l = 1;
  vex_p = 1;
}

vex3_fields-bytes_example : vex3_fields (vex_byte1 long_form) (vex_byte2 long_form) ≡ long_form
vex3_fields-bytes_example = vex3_fields-bytes long_form (
  omega arith,
  omega arith,
  omega arith,
  omega arith,
  omega arith,
  omega arith,
  omega arith,
  omega arith,
)
