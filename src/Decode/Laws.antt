-- ===== src/Decode/Laws.antt =====
-- What the two decoders tell the handlers.
use opemu_linux.Common.{ℕ, ◌+◌, ◌-◌, ◌*◌, ◌/◌, ◌≤◌, ◌<◌, ◌≡◌, ◌≢◌, ◌↔◌, refl, arith}
use opemu_linux.Common.{◌==◌, if◌then◌else◌, Option, none, some, ap}
use opemu_linux.Common.Bits.Laws.{bit_and_mask}
use mathlib.Core.Option
use opemu_linux.Machine.{Bytes}
use opemu_linux.Decode.Rex.{
  Decoder, rex_start, advance, Insn, legacy_prefix, rex_prefix, leading_bytes, take_opcode,
  rex_decode,
}
use opemu_linux.Decode.Vex.{VexFields, vex3_fields, vvvv_register, vex_prefix, vex_decode}

-- The three counters stand at one value.
record IsAligned (n : ℕ) (d : Decoder) : Type 0 where
  at_bytep : d.bytep ≤ n
  size : d.ins_size ≡ d.bytep
  modb : d.modbyte ≡ d.bytep

advance-IsAligned :
    (k n : ℕ) (d : Decoder) → n + k < 256 → IsAligned n d → IsAligned (n + k) (advance k d)
unfolding advance
advance-IsAligned k n d h a = ground arith

legacy_prefix-IsAligned : (code : Bytes) → IsAligned 1 (legacy_prefix code rex_start)
unfolding legacy_prefix
legacy_prefix-IsAligned code = ground arith

rex_prefix-IsAligned :
    (code : Bytes) (d : Decoder) → IsAligned 1 d → IsAligned 2 (rex_prefix code d)
unfolding rex_prefix
rex_prefix-IsAligned code d a = ground arith

leading_bytes-IsAligned :
    (code : Bytes) (d : Decoder) → IsAligned 2 d → IsAligned 4 (leading_bytes code d)
unfolding leading_bytes
leading_bytes-IsAligned code d a = ground arith

-- The operand bytes begin right behind the bytes that were counted.
pub record IsFramed (code : Bytes) (most : ℕ) (i : Insn) : Type 0 where
  pub size_low : 1 ≤ i.ins_size
  pub size_high : i.ins_size ≤ most
  pub size_modbyte : i.modbyte ≡ i.ins_size
  pub operand : (k : ℕ) → i.bytep k ≡ code (i.ins_size + k)
  pub same : (k : ℕ) → i.modrm k ≡ i.bytep k

take_opcode-IsFramed :
    (code : Bytes) (n : ℕ) (d : Decoder)
    → n < 255
    → IsAligned n d
    → IsFramed code (n + 1) (take_opcode code d)
unfolding take_opcode
take_opcode-IsFramed code n d h a = record {
  size_low = ground arith;
  size_high = ground arith;
  size_modbyte = ground arith;
  operand = λ k. ap code (ground arith);
  same = λ k. ap code (ground arith);
}

-- On every input the prefix, REX, escape and opcode bytes are counted alike by the three counters,
-- there are 1 to 5 of them, and the operand's bytes are those that follow.
pub rex_decode-IsFramed : (code : Bytes) → IsFramed code 5 (rex_decode code)
unfolding rex_decode
rex_decode-IsFramed code =
    take_opcode-IsFramed code 4 _ (omega arith)
      (leading_bytes-IsAligned code _ (rex_prefix-IsAligned code _ (legacy_prefix-IsAligned code)))

vex_prefix-IsAligned :
    (code : Bytes) (d : Decoder) → vex_prefix code ≡ some d → IsAligned 4 d × (2 ≤ d.bytep)
unfolding vex_prefix
vex_prefix-IsAligned code d h = ground arith

-- The same of the VEX decoder, with 3 to 5 bytes, when it finds a VEX prefix.
pub vex_decode-IsFramed :
    (code : Bytes) (i : Insn) → vex_decode code ≡ some i → IsFramed code 5 i × (3 ≤ i.ins_size)
unfolding vex_decode
vex_decode-IsFramed code i h = from (vex_prefix code) (vex_prefix-IsAligned code) h
  where
    from :
        (o : Option Decoder)
        → ((d : Decoder) → o ≡ some d → IsAligned 4 d × (2 ≤ d.bytep))
        → Option.map (take_opcode code) o ≡ some i
        → IsFramed code 5 i × (3 ≤ i.ins_size)
    from none al e = cc
    from (some d) al e =
        let eq : take_opcode code d ≡ i = cc in
        let a = al d refl in
        rw (← eq)
          (take_opcode-IsFramed code 4 d (omega arith) a.0, unfold take_opcode in ground arith)

-- A VEX prefix is found exactly at 0xC4 and 0xC5, with or without a 0x67 in front.
vex_decode-none_iff :
    (code : Bytes)
    → (vex_decode code ≡ none)
      ↔ (let b = code (if code 0 == 0x67 then 1 else 0) in (b ≢ 0xC4) × (b ≢ 0xC5))
unfolding vex_decode vex_prefix
vex_decode-none_iff code = ground arith

-- VEX.vvvv holds the register in complement.
vvvv_register-eq-sub : (v : ℕ) → v < 16 → vvvv_register v ≡ 15 - v
unfolding vvvv_register
vvvv_register-eq-sub v h = ground arith

-- The two bytes behind 0xC4, as the encoding defines them.
abbrev IsVexFields : VexFields → Type 0
IsVexFields f =
    (f.vex_r < 2)
    × (f.vex_x < 2)
    × (f.vex_b < 2)
    × (f.vex_m < 32)
    × (f.vex_w < 2)
    × (f.vex_v < 16)
    × (f.vex_l < 2)
    × (f.vex_p < 4)

abbrev pub vex_byte1 : VexFields → ℕ
vex_byte1 f = f.vex_r * 128 + f.vex_x * 64 + f.vex_b * 32 + f.vex_m

abbrev pub vex_byte2 : VexFields → ℕ
vex_byte2 f = f.vex_w * 128 + f.vex_v * 8 + f.vex_l * 4 + f.vex_p

-- Every set of fields that fit their widths, written out as the two bytes that follow 0xC4, is read
-- back.
pub vex3_fields-bytes :
    (f : VexFields) → IsVexFields f → vex3_fields (vex_byte1 f) (vex_byte2 f) ≡ f
unfolding vex3_fields
vex3_fields-bytes f h = ground (
  arith,
  bit_and_mask 1 (vex_byte1 f / 64),
  bit_and_mask 1 (vex_byte1 f / 32),
  bit_and_mask 5 (vex_byte1 f),
  bit_and_mask 4 (vex_byte2 f / 8),
  bit_and_mask 1 (vex_byte2 f / 4),
  bit_and_mask 2 (vex_byte2 f),
)
