-- ===== src/Bmi/Laws.antt =====
-- `bmi_instruction` as a whole: when it handles an opcode, its length, and what it leaves alone.
use opemu_linux.Common.{ℕ, ◌+◌, ◌≡◌, arith, refl, Option, some, none, Bool, true, false}
use opemu_linux.Common.{trunc, bit_and, ◌>>>◌, ◌&&◌, ◌||◌, ◌==◌, if◌then◌else◌}
use opemu_linux.Machine.{Regs, is_saved_state64, load_m64, load_m32}
use opemu_linux.Decode.Length.{get_consumed}
use opemu_linux.Decode.Rex.{Insn}
use opemu_linux.Operand.{Frame, Operands, get_x64regs}
use opemu_linux.Bmi.{bmi_instruction, finish}
use opemu_linux.Bmi.Ops64.{andn64, bextr64, blsr64, blsmsk64, blsi64, bzhi64}
use opemu_linux.Bmi.Ops32.{andn32, bextr32, blsr32, blsmsk32, blsi32, bzhi32}
use opemu_linux.Bmi.Dispatch64.{
  Effect, case64_rorx, case64_andn, case64_bls, case64_bzhi, case64_mulx, case64_bextr, switch64,
}
use opemu_linux.Bmi.Dispatch32.{
  case32_rorx, case32_andn, case32_bls, case32_bzhi, case32_mulx, case32_bextr, switch32,
}

-- The opcodes of the switch.
abbrev pub is_bmi_opcode : ℕ → Bool
is_bmi_opcode b = b == 0xF0 || b == 0xF2 || b == 0xF3 || b == 0xF5 || b == 0xF6 || b == 0xF7

-- Whether the case takes an immediate.
abbrev pub takes_imm : Insn → Bool
takes_imm i = i.opcode == 0xF0 && i.simd_prefix == 3 && i.leading_opcode == 3

-- What one case may do: `ip` and `cs` stay.
record IsCase (regs : Regs) (extra : ℕ) (e : Effect) : Type 0 where
  same_ip : e.0.ip ≡ regs.ip
  same_cs : e.0.cs ≡ regs.cs
  size : e.1 ≡ extra

abbrev IsSwitch : Regs → Insn → Option Effect → Type 0
IsSwitch regs i none = is_bmi_opcode i.opcode ≡ false
IsSwitch regs i (some e) =
    (is_bmi_opcode i.opcode ≡ true) × IsCase regs (if takes_imm i then 1 else 0) e

module _ (wide : ℕ → ℕ) (fr : Frame) (regs : Regs) (i : Insn) (ops : Operands) where
  rorx64-IsCase :
      (imm : ℕ)
      → i.opcode ≡ 0xF0
      → IsCase regs (if takes_imm i then 1 else 0) (case64_rorx wide fr regs i ops imm)
  unfolding case64_rorx load_m64
  rorx64-IsCase imm h = ground arith

  andn64-IsCase : IsCase regs 0 (case64_andn wide fr regs i ops)
  unfolding case64_andn andn64 load_m64
  andn64-IsCase = ground arith

  bls64-IsCase : (m : ℕ) → IsCase regs 0 (case64_bls wide fr regs i ops m)
  unfolding case64_bls blsr64 blsmsk64 blsi64 load_m64
  bls64-IsCase m = ground arith

  bzhi64-IsCase : IsCase regs 0 (case64_bzhi wide fr regs i ops)
  unfolding case64_bzhi bzhi64 load_m64
  bzhi64-IsCase = ground arith

  mulx64-IsCase : IsCase regs 0 (case64_mulx wide fr regs i ops)
  unfolding case64_mulx load_m64
  mulx64-IsCase = ground arith

  bextr64-IsCase : IsCase regs 0 (case64_bextr wide fr regs i ops)
  unfolding case64_bextr bextr64 load_m64
  bextr64-IsCase = ground arith

  switch64-IsSwitch : (m imm : ℕ) → IsSwitch regs i (switch64 wide fr regs i ops m imm)
  unfolding switch64
  switch64-IsSwitch m imm = ground (
    arith,
    rorx64-IsCase imm,
    andn64-IsCase,
    bls64-IsCase m,
    bzhi64-IsCase,
    mulx64-IsCase,
    bextr64-IsCase,
  )

module _ (wide : ℕ → ℕ) (regs : Regs) (i : Insn) (ops : Operands) where
  rorx32-IsCase :
      (imm : ℕ)
      → i.opcode ≡ 0xF0
      → IsCase regs (if takes_imm i then 1 else 0) (case32_rorx wide regs i ops imm)
  unfolding case32_rorx load_m32
  rorx32-IsCase imm h = ground arith

  andn32-IsCase : IsCase regs 0 (case32_andn wide regs i ops)
  unfolding case32_andn andn32 load_m32
  andn32-IsCase = ground arith

  bls32-IsCase : (m : ℕ) → IsCase regs 0 (case32_bls wide regs i ops m)
  unfolding case32_bls blsr32 blsmsk32 blsi32 load_m32
  bls32-IsCase m = ground arith

  bzhi32-IsCase : IsCase regs 0 (case32_bzhi wide regs i ops)
  unfolding case32_bzhi bzhi32 load_m32
  bzhi32-IsCase = ground arith

  mulx32-IsCase : IsCase regs 0 (case32_mulx wide regs i ops)
  unfolding case32_mulx load_m32
  mulx32-IsCase = ground arith

  bextr32-IsCase : IsCase regs 0 (case32_bextr wide regs i ops)
  unfolding case32_bextr bextr32 load_m32
  bextr32-IsCase = ground arith

  switch32-IsSwitch : (m imm : ℕ) → IsSwitch regs i (switch32 wide regs i ops m imm)
  unfolding switch32
  switch32-IsSwitch m imm = ground (
    arith,
    rorx32-IsCase imm,
    andn32-IsCase,
    bls32-IsCase m,
    bzhi32-IsCase,
    mulx32-IsCase,
    bextr32-IsCase,
  )

IsSwitch-if :
    (regs : Regs) (i : Insn) (b : Bool) (x y : Option Effect)
    → IsSwitch regs i x
    → IsSwitch regs i y
    → IsSwitch regs i (if b then x else y)
IsSwitch-if regs i true x y p q = p
IsSwitch-if regs i false x y p q = q

finish-IsSwitch :
    (regs : Regs) (i : Insn) (size : ℕ) (o : Option Effect)
    → IsSwitch regs i o
    → let r = finish regs size o in
      (if is_bmi_opcode i.opcode
        then r.1 ≡ trunc 8 (size + (if takes_imm i then 1 else 0))
        else r ≡ (regs, 0))
      × (r.0.ip ≡ regs.ip)
      × (r.0.cs ≡ regs.cs)
unfolding finish
finish-IsSwitch regs i size none h = rw h (refl, refl, refl)
finish-IsSwitch regs i size (some e) h = rw h.0 (rw h.1.size refl, h.1.same_ip, h.1.same_cs)

-- In both modes: an opcode of the switch is handled whatever its prefixes say, and its length is
-- that of the bytes before the operand, of the operand, and one more for the immediate of `rorx`.
-- Any other opcode is refused with length 0 and every register as it was. Instruction pointer and
-- code segment are never written.
pub bmi_instruction-handles :
    (wide : ℕ → ℕ) (fr : Frame) (regs : Regs) (i : Insn)
    → let r = bmi_instruction wide fr regs i in
      (if is_bmi_opcode i.opcode
        then r.1
          ≡ trunc 8 (trunc 8 (i.ins_size + get_consumed i.modrm) + (if takes_imm i then 1 else 0))
        else r ≡ (regs, 0))
      × (r.0.ip ≡ regs.ip)
      × (r.0.cs ≡ regs.cs)
unfolding bmi_instruction
bmi_instruction-handles wide fr regs i =
    let modreg = bit_and (i.modrm 0 >>> 3) 0x7 in
    let ops = get_x64regs fr regs i in
    let imm = i.bytep (get_consumed i.modrm) in
    finish-IsSwitch regs i _ _ (
      IsSwitch-if regs i (is_saved_state64 regs) _ _
        (switch64-IsSwitch wide fr regs i ops modreg imm)
        (switch32-IsSwitch wide regs i ops modreg imm))
