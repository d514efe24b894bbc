-- ===== src/Simd/Encodings.antt =====
-- What a switch knows of an instruction: the opcodes of its cases, and their prefixes and leading
-- opcodes.
use opemu_linux.Common.{
  ℕ, ◌+◌, ◌≡◌, ◌∙◌, ◌&&◌, ◌||◌, arith, refl, trunc, ◌==◌, if◌then◌else◌, Bool, true, false, List,
  [], ◌∷◌, none,
}
use opemu_linux.Machine.{Cpu, ObjectFile}
use opemu_linux.Decode.Length.{get_consumed}
use opemu_linux.Decode.Rex.{Insn}
use opemu_linux.Simd.{Case, run_switch, by_size}
use opemu_linux.Simd.Laws.{has_opcode, chosen, run_switch-chosen}

pub record Encoding : Type 0 where
  pub opcode : ℕ
  pub prefix : ℕ
  pub leading : ℕ

-- Behind 0F without a prefix, and behind 0F38 and 0F3A with the prefix 66.
abbrev pub map_0f : ℕ → Encoding
map_0f opcode = record { opcode = opcode; prefix = 0; leading = 1 }

abbrev pub map_38 : ℕ → Encoding
map_38 opcode = record { opcode = opcode; prefix = 1; leading = 2 }

abbrev pub map_3a : ℕ → Encoding
map_3a opcode = record { opcode = opcode; prefix = 1; leading = 3 }

abbrev pub encodings : List Case → List Encoding
encodings [] = []
encodings (c ∷ cs) =
    record { opcode = c.opcode; prefix = c.prefix; leading = c.leading } ∷ encodings cs

-- One of them has the opcode, and one is the instruction's.
abbrev pub knows : List Encoding → ℕ → Bool
knows [] opcode = false
knows (e ∷ es) opcode = opcode == e.opcode || knows es opcode

abbrev pub fits : List Encoding → ℕ → ℕ → ℕ → Bool
fits [] opcode prefix leading = false
fits (e ∷ es) opcode prefix leading =
    (opcode == e.opcode && prefix == e.prefix && leading == e.leading)
    || fits es opcode prefix leading

-- Those of the switch that the operands' size selects.
abbrev pub by_size_encodings : ℕ → List Encoding → List Encoding → List Encoding
by_size_encodings reg_size xmm ymm =
    if reg_size == 128 then xmm else (if reg_size == 256 then ymm else [])

has_opcode-knows :
    (opcode : ℕ) (cs : List Case) → has_opcode opcode cs ≡ knows (encodings cs) opcode
has_opcode-knows opcode [] = refl
has_opcode-knows opcode (c ∷ cs) = rw (has_opcode-knows opcode cs) refl

chosen-fits :
    (i : Insn) (cs : List Case)
    → fits (encodings cs) i.opcode i.simd_prefix i.leading_opcode ≡ false
    → chosen i cs ≡ none
chosen-fits i [] h = refl
chosen-fits i (c ∷ cs) h = ground (arith, chosen-fits i cs)

run_switch-skips :
    (o : ObjectFile) (cpu : Cpu) (i : Insn) (cs : List Case)
    → knows (encodings cs) i.opcode ≡ true
    → fits (encodings cs) i.opcode i.simd_prefix i.leading_opcode ≡ false
    → run_switch o cpu i cs ≡ (cpu, trunc 8 (trunc 8 (i.ins_size + get_consumed i.modrm)))
run_switch-skips o cpu i cs known other =
    run_switch-chosen o cpu i cs
    ∙ rw (chosen-fits i cs other, has_opcode-knows i.opcode cs, known) refl

-- An opcode of the switch without one of its encodings is skipped: nothing is written, and the size
-- is that of the bytes read so far and of the operand.
pub by_size-skips :
    (o : ObjectFile) (cpu : Cpu) (i : Insn) (xmm_cases ymm_cases : List Case)
    → let es = by_size_encodings i.reg_size (encodings xmm_cases) (encodings ymm_cases) in
      knows es i.opcode ≡ true
      → fits es i.opcode i.simd_prefix i.leading_opcode ≡ false
      → by_size o cpu i xmm_cases ymm_cases
        ≡ (cpu, trunc 8 (trunc 8 (i.ins_size + get_consumed i.modrm)))
unfolding by_size
by_size-skips o cpu i xmm_cases ymm_cases = branch (i.reg_size == 128) (i.reg_size == 256)
  where
    branch :
        (b c : Bool)
        → let es : List Encoding =
            if b then encodings xmm_cases else (if c then encodings ymm_cases else []) in
          knows es i.opcode ≡ true
          → fits es i.opcode i.simd_prefix i.leading_opcode ≡ false
          → (if b
              then run_switch o cpu i xmm_cases
              else (if c then run_switch o cpu i ymm_cases else (cpu, 0)))
            ≡ (cpu, trunc 8 (trunc 8 (i.ins_size + get_consumed i.modrm)))
    branch true c known other = run_switch-skips o cpu i xmm_cases known other
    branch false true known other = run_switch-skips o cpu i ymm_cases known other
    branch false false known other = cc
