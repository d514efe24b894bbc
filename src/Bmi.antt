-- ===== src/Bmi.antt =====
-- BMI1 and BMI2: bmi.h and bmi.c.
pub mod Words
pub mod Flags
pub mod Ops64
pub mod Ops32
pub mod Dispatch64
pub mod Dispatch32
pub mod Bits
pub mod Scatter
pub mod Deposit
pub mod Shifts
pub mod FlagLaws
pub mod Laws
pub mod Registers
use opemu_linux.Common.{ℕ, ◌+◌, trunc, bit_and, ◌>>>◌, if◌then◌else◌, Option, none, some}
use opemu_linux.Machine.{Regs, is_saved_state64}
use opemu_linux.Decode.Length.{get_consumed}
use opemu_linux.Decode.Rex.{Insn}
use opemu_linux.Operand.{Frame, get_x64regs}
use opemu_linux.Bmi.Dispatch64.{Effect, switch64}
use opemu_linux.Bmi.Dispatch32.{switch32}

-- `ins_size` at the end; the default case returns 0 and changes nothing.
unfoldable pub finish : Regs → ℕ → Option Effect → Regs × ℕ
finish regs size none = (regs, 0)
finish regs size (some e) = (e.0, trunc 8 (size + e.1))

-- `wide` is the value of a shift of 1 that is too wide for its type, which C leaves undefined.
unfoldable pub bmi_instruction : (ℕ → ℕ) → Frame → Regs → Insn → Regs × ℕ
unfolding finish
bmi_instruction wide fr regs i =
    let modreg = bit_and (i.modrm 0 >>> 3) 0x7 in
    let ops = get_x64regs fr regs i in
    let consumed = get_consumed i.modrm in
    let imm = i.bytep consumed in
    let size = trunc 8 (i.ins_size + consumed) in
    finish regs size (
      if is_saved_state64 regs
      then switch64 wide fr regs i ops modreg imm
      else switch32 wide regs i ops modreg imm)
