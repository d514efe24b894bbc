-- ===== src/Decode/Rex.antt =====
-- The first half of `rex_ins` of optrap.c: legacy prefix, REX prefix, leading opcode and opcode.
-- `bytep`, `ins_size` and `modbyte` are three counters in the source, and here too; `bytep` is the
-- distance from `instruction`. `addrs32`, which nothing reads, is left out.
use opemu_linux.Common.{ℕ, ◌+◌, Bool, ◌||◌, ◌&&◌, trunc, bit_and, ◌>>>◌, ◌==◌, if◌then◌else◌}
use opemu_linux.Machine.{Bytes}

-- The local variables that the two decoders share.
pub record Decoder : Type 0 where
  pub bytep : ℕ
  pub ins_size : ℕ
  pub modbyte : ℕ
  pub reg_size : ℕ
  pub operand_size : ℕ
  pub leading_opcode : ℕ
  pub simd_prefix : ℕ
  pub high_reg : ℕ
  pub high_index : ℕ
  pub high_base : ℕ
  pub vexreg : ℕ

-- `bytep += n; ins_size += n; modbyte += n`, where the last two are bytes.
unfoldable pub advance : ℕ → Decoder → Decoder
advance n d = record d {
  bytep = d.bytep + n;
  ins_size = trunc 8 (d.ins_size + n);
  modbyte = trunc 8 (d.modbyte + n);
}

abbrev pub rex_start : Decoder
rex_start = record {
  bytep = 0;
  ins_size = 0;
  modbyte = 0;
  reg_size = 64;
  operand_size = 0;
  leading_opcode = 0;
  simd_prefix = 0;
  high_reg = 0;
  high_index = 0;
  high_base = 0;
  vexreg = 0;
}

abbrev pub is_segment : ℕ → Bool
is_segment b = b == 0x26 || b == 0x2E || b == 0x36 || b == 0x3E || b == 0x64 || b == 0x65

unfoldable pub legacy_prefix : Bytes → Decoder → Decoder
unfolding advance
legacy_prefix code d =
    let b = code d.bytep in
    if b == 0x66
    then advance 1 (record d { reg_size = 128; simd_prefix = 1 })
    else (if b == 0xF3
        then advance 1 (record d { reg_size = 128; simd_prefix = 2 })
        else (if b == 0xF2
            then advance 1 (record d { reg_size = 128; simd_prefix = 3 })
            else (if b == 0x67 || is_segment b then advance 1 d else d)))

-- REX.R counts only with a 128-bit operand; REX.X and REX.B always.
unfoldable pub rex_prefix : Bytes → Decoder → Decoder
unfolding advance
rex_prefix code d =
    let b = code d.bytep in
    let present = bit_and b 0xF0 == 0x40 in
    let rex_w = if present then bit_and (b >>> 3) 1 else 0 in
    let rex_r = if present then bit_and (b >>> 2) 1 else 0 in
    let rex_x = if present then bit_and (b >>> 1) 1 else 0 in
    let rex_b = if present then bit_and b 1 else 0 in
    let d' = if present then advance 1 d else d in
    record d' {
      operand_size = if rex_w == 1 then 64 else 32;
      high_reg = if rex_r == 1 && d.reg_size == 128 then 1 else d.high_reg;
      high_index = if rex_x == 1 then 1 else d.high_index;
      high_base = if rex_b == 1 then 1 else d.high_base;
    }

unfoldable pub leading_bytes : Bytes → Decoder → Decoder
unfolding advance
leading_bytes code d =
    let b0 = code d.bytep in
    let b1 = code (d.bytep + 1) in
    if b0 == 0x0F && b1 == 0x3A
    then advance 2 (record d { leading_opcode = 3 })
    else (if b0 == 0x0F && b1 == 0x38
        then advance 2 (record d { leading_opcode = 2 })
        else (if b0 == 0x0F then advance 1 (record d { leading_opcode = 1 }) else d))

-- What the handlers are called with: the last counter is past the opcode.
pub record Insn : Type 0 where
  pub opcode : ℕ
  pub modrm : Bytes
  pub bytep : Bytes
  pub ins_size : ℕ
  pub modbyte : ℕ
  pub reg_size : ℕ
  pub operand_size : ℕ
  pub leading_opcode : ℕ
  pub simd_prefix : ℕ
  pub high_reg : ℕ
  pub high_index : ℕ
  pub high_base : ℕ
  pub vexreg : ℕ

unfoldable pub take_opcode : Bytes → Decoder → Insn
unfolding advance
take_opcode code d =
    let d' = advance 1 d in
    record {
      opcode = code d.bytep;
      modrm = λ i. code (d.bytep + 1 + i);
      bytep = λ i. code (d'.bytep + i);
      ins_size = d'.ins_size;
      modbyte = d'.modbyte;
      reg_size = d'.reg_size;
      operand_size = d'.operand_size;
      leading_opcode = d'.leading_opcode;
      simd_prefix = d'.simd_prefix;
      high_reg = d'.high_reg;
      high_index = d'.high_index;
      high_base = d'.high_base;
      vexreg = d'.vexreg;
    }

-- Everything before the call of `aes_instruction`.
unfoldable pub rex_decode : Bytes → Insn
unfolding legacy_prefix rex_prefix leading_bytes take_opcode
rex_decode code =
    take_opcode code (leading_bytes code (rex_prefix code (legacy_prefix code rex_start)))
