-- ===== src/Simd/Laws.antt =====
-- What every `switch` of a vector handler does.
use opemu_linux.Common.{
  ◌≤◌, ltb, ℕ, zero, suc, ◌+◌, ◌≡◌, ◌∙◌, ◌&&◌, ◌||◌, arith, refl, trunc, ◌==◌, if◌then◌else◌, Bool,
  true, false, List, [], ◌∷◌, Option, none, some,
}
use opemu_linux.Machine.{Cpu, ObjectFile}
use opemu_linux.Decode.Length.{get_consumed}
use opemu_linux.Decode.Rex.{Insn}
use opemu_linux.Simd.{Write, Case, perform, update_ymms, switch_from, run_switch, by_size}

-- The opcodes of a switch.
abbrev pub has_opcode : ℕ → List Case → Bool
has_opcode opcode [] = false
has_opcode opcode (c ∷ cs) = opcode == c.opcode || has_opcode opcode cs

update_ymms-ip :
    (o : ObjectFile) (n : ℕ) (f : ℕ → ℕ) (cpu : Cpu) → (update_ymms o n f cpu).regs.ip ≡ cpu.regs.ip
unfolding update_ymms
update_ymms-ip o zero f cpu = refl
update_ymms-ip o (suc n) f cpu = ground (arith, update_ymms-ip o n f cpu)

pub perform-ip : (o : ObjectFile) (w : Write) (cpu : Cpu) → (perform o w cpu).regs.ip ≡ cpu.regs.ip
unfolding perform
perform-ip o (Write.to_xmm n v) cpu = ground arith
perform-ip o (Write.to_ymm n v) cpu = ground arith
perform-ip o (Write.to_memory v) cpu = refl
perform-ip o (Write.to_m64 n v) cpu = ground arith
perform-ip o (Write.to_m32 n v) cpu = ground arith
perform-ip o (Write.to_flags v) cpu = refl
perform-ip o Write.nothing cpu = refl
perform-ip o (Write.to_count n v) cpu = ground arith
perform-ip o (Write.to_mask n v) cpu = ground arith
perform-ip o (Write.both v w) cpu = perform-ip o w (perform o v cpu) ∙ perform-ip o v cpu
perform-ip o (Write.each_ymm n f) cpu = update_ymms-ip o n f cpu

update_ymms-cs :
    (o : ObjectFile) (n : ℕ) (f : ℕ → ℕ) (cpu : Cpu) → (update_ymms o n f cpu).regs.cs ≡ cpu.regs.cs
unfolding update_ymms
update_ymms-cs o zero f cpu = refl
update_ymms-cs o (suc n) f cpu = ground (arith, update_ymms-cs o n f cpu)

pub perform-cs : (o : ObjectFile) (w : Write) (cpu : Cpu) → (perform o w cpu).regs.cs ≡ cpu.regs.cs
unfolding perform
perform-cs o (Write.to_xmm n v) cpu = ground arith
perform-cs o (Write.to_ymm n v) cpu = ground arith
perform-cs o (Write.to_memory v) cpu = refl
perform-cs o (Write.to_m64 n v) cpu = ground arith
perform-cs o (Write.to_m32 n v) cpu = ground arith
perform-cs o (Write.to_flags v) cpu = refl
perform-cs o Write.nothing cpu = refl
perform-cs o (Write.to_count n v) cpu = ground arith
perform-cs o (Write.to_mask n v) cpu = ground arith
perform-cs o (Write.both v w) cpu = perform-cs o w (perform o v cpu) ∙ perform-cs o v cpu
perform-cs o (Write.each_ymm n f) cpu = update_ymms-cs o n f cpu

-- The first case whose opcode, prefix and leading opcode are the instruction's.
abbrev pub chosen : Insn → List Case → Option Case
chosen i [] = none
chosen i (c ∷ cs) =
    if i.opcode == c.opcode && i.simd_prefix == c.prefix && i.leading_opcode == c.leading
    then some c
    else chosen i cs

abbrev pub outcome : ObjectFile → Cpu → ℕ → Bool → Option Case → Cpu × ℕ
outcome o cpu size known none = (cpu, if known then trunc 8 size else 0)
outcome o cpu size known (some c) =
    (perform o c.write cpu, trunc 8 (size + (if c.takes_imm then 1 else 0)))

switch_from-chosen :
    (o : ObjectFile) (cpu : Cpu) (i : Insn) (size : ℕ) (known : Bool) (cs : List Case)
    → switch_from o cpu i size known cs
      ≡ outcome o cpu size (known || has_opcode i.opcode cs) (chosen i cs)
unfolding switch_from
switch_from-chosen o cpu i size known [] = ground arith
switch_from-chosen o cpu i size known (c ∷ cs) =
    ground
      (arith, switch_from-chosen o cpu i size known cs, switch_from-chosen o cpu i size true cs)

-- A switch runs the first case that fits; without one, a known opcode is skipped and any other
-- refused.
pub run_switch-chosen :
    (o : ObjectFile) (cpu : Cpu) (i : Insn) (cs : List Case)
    → run_switch o cpu i cs
      ≡ outcome o cpu
          (trunc 8 (i.ins_size + get_consumed i.modrm))
          (has_opcode i.opcode cs)
          (chosen i cs)
unfolding run_switch
run_switch-chosen o cpu i cs =
    switch_from-chosen o cpu i (trunc 8 (i.ins_size + get_consumed i.modrm)) false cs

chosen-none : (i : Insn) (cs : List Case) → has_opcode i.opcode cs ≡ false → chosen i cs ≡ none
chosen-none i [] h = refl
chosen-none i (c ∷ cs) h = ground (arith, chosen-none i cs)

-- An opcode that the switch does not have is refused.
pub run_switch-refuses :
    (o : ObjectFile) (cpu : Cpu) (i : Insn) (cs : List Case)
    → has_opcode i.opcode cs ≡ false
    → run_switch o cpu i cs ≡ (cpu, 0)
run_switch-refuses o cpu i cs h = run_switch-chosen o cpu i cs ∙ rw (h, chosen-none i cs h) refl

-- Such is one above all its opcodes.
abbrev opcodes_below : ℕ → List Case → Bool
opcodes_below bound [] = true
opcodes_below bound (c ∷ cs) = ltb c.opcode bound && opcodes_below bound cs

pub has_opcode-above :
    (bound opcode : ℕ) (cs : List Case)
    → opcodes_below bound cs ≡ true
    → bound ≤ opcode
    → has_opcode opcode cs ≡ false
has_opcode-above bound opcode [] h high = refl
has_opcode-above bound opcode (c ∷ cs) h high =
    let rest = has_opcode-above bound opcode cs in ground arith

-- An opcode of neither switch is refused.
pub by_size-refuses :
    (o : ObjectFile) (cpu : Cpu) (i : Insn) (xmm_cases ymm_cases : List Case)
    → has_opcode i.opcode xmm_cases ≡ false
    → has_opcode i.opcode ymm_cases ≡ false
    → by_size o cpu i xmm_cases ymm_cases ≡ (cpu, 0)
unfolding by_size
by_size-refuses o cpu i xmm_cases ymm_cases hx hy =
    rw (run_switch-refuses o cpu i xmm_cases hx, run_switch-refuses o cpu i ymm_cases hy)
      (same_branches (i.reg_size == 128) (i.reg_size == 256) (cpu, 0))
  where
    same_branches : (b c : Bool) (r : Cpu × ℕ) → (if b then r else (if c then r else r)) ≡ r
    same_branches true c r = refl
    same_branches false true r = refl
    same_branches false false r = refl

-- So is one above all opcodes of both.
pub by_size-above :
    (o : ObjectFile) (bound : ℕ) (cpu : Cpu) (i : Insn) (xmm_cases ymm_cases : List Case)
    → opcodes_below bound xmm_cases ≡ true
    → opcodes_below bound ymm_cases ≡ true
    → bound ≤ i.opcode
    → by_size o cpu i xmm_cases ymm_cases ≡ (cpu, 0)
by_size-above o bound cpu i xmm_cases ymm_cases hx hy high =
    by_size-refuses o cpu i xmm_cases ymm_cases (has_opcode-above bound i.opcode xmm_cases hx high)
      (has_opcode-above bound i.opcode ymm_cases hy high)
