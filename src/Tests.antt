-- ===== src/Tests.antt =====
-- Runs of the definitions on concrete inputs, and instances of the theorems.
mod Words
mod Vectors
mod Decoding
mod Traps
mod Hooks
mod Lanes
mod Wide
use opemu_linux.Common.{ℕ, List, get_or, Bool, if◌then◌else◌, ltb, ◌-◌}
use opemu_linux.Machine.{Regs, Cpu, Bytes}
use opemu_linux.Operand.{Frame}

-- 64-bit user mode with the given general registers, from rax on; the others are 0.
abbrev pub regs64 : List ℕ → Regs
regs64 gprs = record { gpr = λ n. get_or gprs n 0; ip = 0x400000; flags = 0x202; cs = 0x33 }

-- 32-bit user mode.
abbrev pub regs32 : List ℕ → Regs
regs32 gprs = record { gpr = λ n. get_or gprs n 0; ip = 0x8048000; flags = 0x202; cs = 0x23 }

abbrev pub cpu_of : Regs → List ℕ → Cpu
cpu_of regs xmms = record { regs = regs; xmm = λ n. get_or xmms n 0; mmx = λ n. 0; vymm = λ o n. 0 }

abbrev pub empty_frame : Frame
empty_frame = record { src = 0; vsrc = 0; dst = 0; res = 0; dres = 0; beyond = 0; outside = λ n. 0 }

abbrev pub code_of : List ℕ → Bytes
code_of bytes i = get_or bytes i 0
