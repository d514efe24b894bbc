-- ===== src/Decode/Vex.antt =====
-- The first half of `vex_ins` of optrap.c: the 0x67 prefix, a VEX prefix of two or three bytes and
-- the opcode. `none` is the early `return 0` when no VEX prefix stands there.
use opemu_linux.Common.{ℕ, ◌+◌, trunc, bit_and, ◌>>>◌, ◌==◌, if◌then◌else◌, Option, none, some}
use mathlib.Core.Option
use opemu_linux.Machine.{Bytes}
use opemu_linux.Decode.Rex.{Decoder, Insn, take_opcode}

-- The fields of the prefix.
pub record VexFields : Type 0 where
  pub vex_r : ℕ
  pub vex_x : ℕ
  pub vex_b : ℕ
  pub vex_m : ℕ
  pub vex_w : ℕ
  pub vex_v : ℕ
  pub vex_l : ℕ
  pub vex_p : ℕ

unfoldable pub vex3_fields : ℕ → ℕ → VexFields
vex3_fields byte1 byte2 = record {
  vex_r = byte1 >>> 7;
  vex_x = bit_and (byte1 >>> 6) 0x1;
  vex_b = bit_and (byte1 >>> 5) 0x1;
  vex_m = bit_and byte1 0x1F;
  vex_w = byte2 >>> 7;
  vex_v = bit_and (byte2 >>> 3) 0xF;
  vex_l = bit_and (byte2 >>> 2) 0x1;
  vex_p = bit_and byte2 0x3;
}

-- The two-byte form sets VEX.X and VEX.B, and leaves mmmmm and W at 0.
unfoldable pub vex2_fields : ℕ → VexFields
vex2_fields byte1 = record {
  vex_r = byte1 >>> 7;
  vex_x = 1;
  vex_b = 1;
  vex_m = 0;
  vex_w = 0;
  vex_v = bit_and (byte1 >>> 3) 0xF;
  vex_l = bit_and (byte1 >>> 2) 0x1;
  vex_p = bit_and byte1 0x3;
}

-- The ladder of tests on VEX.vvvv; `vexreg` starts at 0.
unfoldable pub vvvv_register : ℕ → ℕ
vvvv_register v =
    if v == 15
    then 0
    else (if v == 14
        then 1
        else (if v == 13
            then 2
            else (if v == 12
                then 3
                else (if v == 11
                    then 4
                    else (if v == 10
                        then 5
                        else (if v == 9
                            then 6
                            else (if v == 8
                                then 7
                                else (if v == 7
                                    then 8
                                    else (if v == 6
                                        then 9
                                        else (if v == 5
                                            then 10
                                            else (if v == 4
                                                then 11
                                                else (if v == 3
                                                    then 12
                                                    else (if v == 2
                                                        then 13
                                                        else (if v == 1
                                                            then 14
                                                            else (if v == 0
                                                            then 15
                                                            else 0)))))))))))))))

unfoldable pub vex_settings : VexFields → ℕ → ℕ → ℕ → Decoder
unfolding vvvv_register
vex_settings f bytep ins_size modbyte = record {
  bytep = bytep;
  ins_size = ins_size;
  modbyte = modbyte;
  reg_size = if f.vex_l == 1 then 256 else 128;
  operand_size = if f.vex_w == 1 then 64 else 32;
  leading_opcode =
      if f.vex_m == 1 then 1 else (if f.vex_m == 2 then 2 else (if f.vex_m == 3 then 3 else 1));
  simd_prefix =
      if f.vex_p == 1 then 1 else (if f.vex_p == 2 then 2 else (if f.vex_p == 3 then 3 else 0));
  high_reg = if f.vex_r == 0 then 1 else 0;
  high_index = if f.vex_x == 0 then 1 else 0;
  high_base = if f.vex_b == 0 then 1 else 0;
  vexreg = vvvv_register f.vex_v;
}

unfoldable pub vex_prefix : Bytes → Option Decoder
unfolding vex_settings vex3_fields vex2_fields
vex_prefix code =
    let start : ℕ = if code 0 == 0x67 then 1 else 0 in
    let b = code start in
    if b == 0xC4
    then some (
        vex_settings (vex3_fields (code (start + 1)) (code (start + 2))) (start + 3)
          (trunc 8 (start + 3)) (trunc 8 (start + 3)))
    else (if b == 0xC5
        then some (
            vex_settings (vex2_fields (code (start + 1))) (start + 2) (trunc 8 (start + 2))
              (trunc 8 (start + 2)))
        else none)

-- Everything before the call of `vaes_instruction`.
unfoldable pub vex_decode : Bytes → Option Insn
unfolding vex_prefix take_opcode
vex_decode code = Option.map (take_opcode code) (vex_prefix code)
