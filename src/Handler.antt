-- ===== src/Handler.antt =====
-- What `vex_ins` of optrap.c relies on in every `_instruction` function that it calls.
use opemu_linux.Common.{ℕ, ◌<◌, ◌≡◌}
use opemu_linux.Machine.{Cpu}
use opemu_linux.Decode.Rex.{Insn}

-- A `_instruction` function: the registers it leaves and the size it returns.
abbrev pub Handler : Type 0
Handler = Cpu → Insn → Cpu × ℕ

-- A result: position and mode stay, a size of 0 means that nothing was done, a size is a byte.
pub record IsResult (cpu : Cpu) (r : Cpu × ℕ) : Type 0 where
  pub same_ip : r.0.regs.ip ≡ cpu.regs.ip
  pub same_cs : r.0.regs.cs ≡ cpu.regs.cs
  pub idle : r.1 ≡ 0 → r.0 ≡ cpu
  pub byte : r.1 < 256

-- For every instruction that the decoders can hand over.
abbrev pub IsHandler : Handler → Type 0
IsHandler h = (cpu : Cpu) (i : Insn) → i.ins_size < 6 → IsResult cpu (h cpu i)
