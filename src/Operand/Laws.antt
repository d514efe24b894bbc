-- ===== src/Operand/Laws.antt =====
-- Where an operand comes from.
use opemu_linux.Common.{◌≡◌, arith, true, ◌==◌, if◌then◌else◌}
use opemu_linux.Machine.{Regs, is_saved_state64, store_m64}
use opemu_linux.Decode.Length.{mod_of}
use opemu_linux.Decode.Rex.{Insn}
use opemu_linux.Operand.{Frame, num_src, address64}
use opemu_linux.Operand.{get_x64regs}

-- A register operand is the register that the ModRM byte names, in 64-bit mode with the extension
-- bits. Of a memory operand the source takes the address: the memory there is never read.
get_x64regs-src :
    (fr : Frame) (regs : Regs) (i : Insn)
    → is_saved_state64 regs ≡ true
    → if mod_of (i.modrm 0) == 3
      then (get_x64regs fr regs i).src ≡ store_m64 (num_src i) regs
      else ((get_x64regs fr regs i).src ≡ address64 regs i)
        × ((get_x64regs fr regs i).rmaddrs ≡ (get_x64regs fr regs i).src)
unfolding get_x64regs
get_x64regs-src fr regs i h = ground arith
