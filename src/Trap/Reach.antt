-- ===== src/Trap/Reach.antt =====
-- The states that a machine with the emulator can be in, and what `get_vexregs` finds in them.
use opemu_linux.Common.{ℕ, ◌^◌, ◌<◌, ◌≡◌, arith}
use opemu_linux.Machine.{Regs, Cpu, store_ymm, store_xmm}
use opemu_linux.Machine.Copies.{IsUntouched}
use opemu_linux.Decode.Length.{mod_of}
use opemu_linux.Decode.Rex.{Insn}
use opemu_linux.Operand.{Frame, num_src, num_dst, get_vexregs, store_sized}
use opemu_linux.Trap.{Emulator, opemu_utrap}
use opemu_linux.Trap.Invariant.{opemu_utrap-IsUntouched}

-- The module is loaded with its VYMM variables 0. Then programs run, which set the processor's
-- registers in any way and no VYMM variable, and traps are emulated, one after the other.
pub data Reachable (em : Emulator) : Cpu → Type 0 where
  loaded :
      (regs : Regs) (xmm mmx : ℕ → ℕ)
      → Reachable em (record { regs = regs; xmm = xmm; mmx = mmx; vymm = λ o n. 0 })
  ran :
      {before : Cpu} (regs : Regs) (xmm mmx : ℕ → ℕ)
      → Reachable em before
      → Reachable em (record { regs = regs; xmm = xmm; mmx = mmx; vymm = before.vymm })
  trapped :
      {before : Cpu} (memory : ℕ → ℕ)
      → Reachable em before
      → Reachable em (opemu_utrap em memory before).0

Reachable-IsUntouched : {em : Emulator} (cpu : Cpu) → Reachable em cpu → IsUntouched cpu
Reachable-IsUntouched {em} cpu (loaded regs xmm mmx) = record { still_zero = λ n. ground arith }
Reachable-IsUntouched {em} cpu (ran {before} regs xmm mmx h) =
    let is = Reachable-IsUntouched before h in record { still_zero = is.still_zero }
Reachable-IsUntouched {em} cpu (trapped {before} memory h) =
    opemu_utrap-IsUntouched em memory before (Reachable-IsUntouched before h)

upper_half :
    (cpu : Cpu) (n old : ℕ)
    → IsUntouched cpu
    → n < 16
    → cpu.xmm n < 2 ^ 128
    → store_sized 256 n old cpu ≡ cpu.xmm n
unfolding store_sized store_ymm store_xmm
upper_half cpu n old is h word = ground (arith, is.still_zero n)

-- In every such state a 256-bit register operand, as `get_vexregs` fetches it, has only the 128 bits
-- of the XMM register: its upper half is 0, whatever 256-bit instruction wrote the register before.
pub Reachable-get_vexregs :
    (em : Emulator) (cpu : Cpu) (fr : Frame) (i : Insn)
    → Reachable em cpu
    → ((n : ℕ) → cpu.xmm n < 2 ^ 128)
    → mod_of (i.modrm 0) ≡ 3
    → i.reg_size ≡ 256
    → num_src i < 16
    → num_dst i < 16
    → i.vexreg < 16
    → let ops = get_vexregs fr cpu i 256 in
      (ops.src ≡ cpu.xmm (num_src i))
      × (ops.vsrc ≡ cpu.xmm i.vexreg)
      × (ops.dst ≡ cpu.xmm (num_dst i))
unfolding get_vexregs
Reachable-get_vexregs em cpu fr i reach words register size hs hd hv =
    let is = Reachable-IsUntouched cpu reach in
    ground (
      arith,
      upper_half cpu (num_src i) fr.src is hs (words (num_src i)),
      upper_half cpu i.vexreg fr.vsrc is hv (words i.vexreg),
      upper_half cpu (num_dst i) fr.dst is hd (words (num_dst i)),
    )
