-- ===== src/Simd.antt =====
-- The handlers of the vector instructions in VEX form: each is a `switch` on the opcode, whose
-- cases test the SIMD prefix and the leading opcode and then compute a result and write it.
-- Here a `switch` is the list of its cases in the order of the source.
pub mod Laws
pub mod Loops
pub mod Contract
pub mod Copies
pub mod Encodings
use opemu_linux.Common.{ℕ, zero, suc, ◌+◌, ◌%◌, ◌^◌, ◌&&◌, trunc, ◌==◌, if◌then◌else◌}
use opemu_linux.Common.{Bool, true, false, List, [], ◌∷◌}
use opemu_linux.Machine.{Regs, Cpu, ObjectFile, load_xmm, load_ymm, store_ymm, load_m64, load_m32}
use opemu_linux.Decode.Length.{get_consumed}
use opemu_linux.Decode.Rex.{Insn}

-- What a case writes. `to_memory` is `_load_maddr_from_xmm` or `_load_maddr_from_ymm`: they assign
-- to their own parameter, so no register and no byte of the user's memory changes.
pub data Write : Type 0 where
  to_xmm : ℕ → ℕ → Write
  to_ymm : ℕ → ℕ → Write
  to_memory : ℕ → Write
  to_m64 : ℕ → ℕ → Write
  to_m32 : ℕ → ℕ → Write
  to_flags : ℕ → Write
  nothing : Write
  -- `regs->cx` or xmm0, with the bits of `regs->flags` that are cleared, and those that are set.
  to_count : ℕ → ℕ → Write
  to_mask : ℕ → ℕ → Write
  -- One write and then another, where a case has two or falls into the next one.
  both : Write → Write → Write
  -- The first `n` YMM registers, each by a function of what it holds.
  each_ymm : ℕ → (ℕ → ℕ) → Write

-- A case of the switch: `case opcode: if (simd_prefix == prefix) if (leading_opcode == leading)`.
-- `takes_imm` is true where the case ends in `ins_size++`.
pub record Case : Type 0 where
  pub opcode : ℕ
  pub prefix : ℕ
  pub leading : ℕ
  pub takes_imm : Bool
  pub write : Write

unfoldable pub set_flags : ℕ → Regs → Regs
set_flags flags regs = record regs { flags = flags }

-- `for (i = 0; i < n; ++i) { _store_ymm(i, &ymm); ...; _load_ymm(i, &ymm); }`
unfoldable pub update_ymms : ObjectFile → ℕ → (ℕ → ℕ) → Cpu → Cpu
unfolding load_ymm
update_ymms o zero f cpu = cpu
update_ymms o (suc n) f cpu =
    let rest = update_ymms o n f cpu in load_ymm o n (f (store_ymm o n 0 rest) % 2 ^ 256) rest

-- The writes, as the object `o` makes them.
unfoldable pub perform : ObjectFile → Write → Cpu → Cpu
unfolding load_xmm load_ymm load_m64 load_m32 set_flags update_ymms
perform o (Write.to_xmm n v) cpu = load_xmm n (v % 2 ^ 128) cpu
perform o (Write.to_ymm n v) cpu = load_ymm o n (v % 2 ^ 256) cpu
perform o (Write.to_memory v) cpu = cpu
perform o (Write.to_m64 n v) cpu = record cpu { regs = load_m64 n (v % 2 ^ 64) cpu.regs }
perform o (Write.to_m32 n v) cpu = record cpu { regs = load_m32 n (v % 2 ^ 32) cpu.regs }
perform o (Write.to_flags flags) cpu = record cpu { regs = set_flags flags cpu.regs }
perform o Write.nothing cpu = cpu
perform o (Write.to_count index flags) cpu = record cpu {
  regs = set_flags flags (load_m64 1 index cpu.regs);
}
perform o (Write.to_mask mask flags) cpu =
    load_xmm 0 (mask % 2 ^ 128) (record cpu { regs = set_flags flags cpu.regs })
perform o (Write.both first second) cpu = perform o second (perform o first cpu)
perform o (Write.each_ymm n f) cpu = update_ymms o n f cpu

-- The switch, at a case whose opcode has (`known`) or has not been seen: the default returns 0, and a
-- case whose tests fail breaks with nothing written.
unfoldable pub switch_from : ObjectFile → Cpu → Insn → ℕ → Bool → List Case → Cpu × ℕ
unfolding perform
switch_from o cpu i size known [] = (cpu, if known then trunc 8 size else 0)
switch_from o cpu i size known (c ∷ cs) =
    let rest = switch_from o cpu i size known cs in
    let next = switch_from o cpu i size true cs in
    if i.opcode == c.opcode
    then (if i.simd_prefix == c.prefix && i.leading_opcode == c.leading
        then (perform o c.write cpu, trunc 8 (size + (if c.takes_imm then 1 else 0)))
        else next)
    else rest

-- `ins_size += consumed` and the switch.
unfoldable pub run_switch : ObjectFile → Cpu → Insn → List Case → Cpu × ℕ
unfolding switch_from
run_switch o cpu i cs = switch_from o cpu i (trunc 8 (i.ins_size + get_consumed i.modrm)) false cs

-- `if (reg_size == 128) { ... } else if (reg_size == 256) { ... } else return 0;`
unfoldable pub by_size : ObjectFile → Cpu → Insn → List Case → List Case → Cpu × ℕ
by_size o cpu i xmm_cases ymm_cases =
    if i.reg_size == 128
    then run_switch o cpu i xmm_cases
    else (if i.reg_size == 256 then run_switch o cpu i ymm_cases else (cpu, 0))

-- `imm = bytep[consumed]`
unfoldable pub immediate : Insn → ℕ
immediate i = i.bytep (get_consumed i.modrm)

-- A case behind 0F, with an immediate byte or not, and those with the prefix 66 and none.
abbrev pub case_0f : ℕ → ℕ → Bool → Write → Case
case_0f prefix opcode takes_imm write = record {
  opcode = opcode;
  prefix = prefix;
  leading = 1;
  takes_imm = takes_imm;
  write = write;
}

abbrev pub case_66 : ℕ → Write → Case
case_66 opcode write = case_0f 1 opcode false write

-- Cases with the prefix 66: behind 0F38, and behind 0F3A with an immediate byte.
abbrev pub case_38 : ℕ → Write → Case
case_38 opcode write = record {
  opcode = opcode;
  prefix = 1;
  leading = 2;
  takes_imm = false;
  write = write;
}

abbrev pub case_3a : ℕ → Write → Case
case_3a opcode write = record {
  opcode = opcode;
  prefix = 1;
  leading = 3;
  takes_imm = true;
  write = write;
}
