-- ===== src/Aes/DispatchLaws.antt =====
-- `aes_instruction` and `vaes_instruction` as a whole.
use opemu_linux.Common.{ℕ, ◌+◌, ◌≡◌, ap, arith, refl, Option, some, none, Bool, true, false}
use opemu_linux.Common.{trunc, not, ◌&&◌, ◌||◌, ◌==◌, if◌then◌else◌}
use opemu_linux.Machine.{Cpu, load_xmm, load_ymm}
use opemu_linux.Decode.Length.{get_consumed}
use opemu_linux.Decode.Rex.{Insn}
use opemu_linux.Operand.{Frame}
use opemu_linux.Aes.Rounds.{aesimc, aesenc, aesenclast, aesdec, aesdeclast, aeskeygenassist}
use opemu_linux.Aes.Dispatch.{
  Effect, round_case, last_case, product_case, switch_aes, finish_aes, aes_instruction,
  vaes_instruction,
}

-- The opcodes of the switch, and the instructions that are really meant by them.
abbrev pub is_aes_opcode : ℕ → Bool
is_aes_opcode b = b == 0xDB || b == 0xDC || b == 0xDD || b == 0xDE || b == 0xDF || b == 0x44

abbrev has_aes_imm : Insn → Bool
has_aes_imm i =
    i.simd_prefix == 1 && i.leading_opcode == 3 && (i.opcode == 0xDF || i.opcode == 0x44)

abbrev pub is_aes_insn : Insn → Bool
is_aes_insn i =
    has_aes_imm i
    || (i.simd_prefix == 1
        && i.leading_opcode == 2
        && is_aes_opcode i.opcode
        && not (i.opcode == 0x44))

if-true : {b : Bool} {P : Type 0} (Q : Type 0) → b ≡ true → P → if b then P else Q
if-true Q h p = rw h p

if-false : {b : Bool} {Q : Type 0} (P : Type 0) → b ≡ false → Q → if b then P else Q
if-false P h q = rw h q

idle_or : (b : Bool) {P Q : Type 0} → P → (b ≡ false → Q) → if b then P else Q
idle_or true p q = p
idle_or false p q = q refl

-- What a case may do.
record IsCase (cpu : Cpu) (i : Insn) (e : Effect) : Type 0 where
  same_regs : e.0.regs ≡ cpu.regs
  idle : is_aes_insn i ≡ false → e.0 ≡ cpu
  size : e.1 ≡ (if has_aes_imm i then 1 else 0)

abbrev IsSwitch : Cpu → Insn → Option Effect → Type 0
IsSwitch cpu i none = is_aes_opcode i.opcode ≡ false
IsSwitch cpu i (some e) = (is_aes_opcode i.opcode ≡ true) × IsCase cpu i e

module _ (cpu : Cpu) (i : Insn) where
  round-IsCase :
      (res : ℕ)
      → is_aes_opcode i.opcode ≡ true
      → (i.opcode == 0xDF) ≡ false
      → (i.opcode == 0x44) ≡ false
      → IsCase cpu i (round_case cpu i res)
  unfolding round_case load_xmm
  round-IsCase res h p q = ground arith

  last-IsCase : (round keygen : ℕ) → i.opcode ≡ 0xDF → IsCase cpu i (last_case cpu i round keygen)
  unfolding last_case load_xmm
  last-IsCase round keygen h = ground arith

  product-IsCase :
      (written : Cpu)
      → written.regs ≡ cpu.regs
      → i.opcode ≡ 0x44
      → IsCase cpu i (product_case cpu i written)
  unfolding product_case
  product-IsCase written w h = ground arith

  switch_aes-IsSwitch :
      (src block imm : ℕ) (product : Cpu)
      → product.regs ≡ cpu.regs
      → IsSwitch cpu i (switch_aes cpu i src block imm product)
  unfolding switch_aes
  switch_aes-IsSwitch src block imm product w = ground (
    arith,
    round-IsCase (aesimc src),
    round-IsCase (aesenc src block),
    round-IsCase (aesenclast src block),
    round-IsCase (aesdec src block),
    last-IsCase (aesdeclast src block) (aeskeygenassist src imm),
    product-IsCase product w,
  )

  finish_aes-IsSwitch :
      (size : ℕ) (o : Option Effect)
      → IsSwitch cpu i o
      → let r = finish_aes cpu size o in
        (if is_aes_opcode i.opcode
          then r.1 ≡ trunc 8 (size + (if has_aes_imm i then 1 else 0))
          else r ≡ (cpu, 0))
        × (if is_aes_insn i then r.0.regs ≡ cpu.regs else r.0 ≡ cpu)
  unfolding finish_aes
  finish_aes-IsSwitch size none h = (if-false _ h refl, idle_or (is_aes_insn i) refl (λ _. refl))
  finish_aes-IsSwitch size (some e) h = (
    if-true _ h.0 (ap (λ (n : ℕ). trunc 8 (size + n)) h.1.size),
    idle_or (is_aes_insn i) h.1.same_regs h.1.idle,
  )

-- In any state, an opcode of the switch is handled whatever its prefixes say: the length is that of
-- the bytes before the operand, of the operand, and one more for an immediate. Any other opcode is
-- refused. If prefix and leading opcode are not those of an AES instruction the state stays as it
-- was, and the general registers always do.
pub aes_instruction-handles :
    (fr : Frame) (cpu : Cpu) (i : Insn)
    → let r = aes_instruction fr cpu i in
      (if is_aes_opcode i.opcode
        then r.1
          ≡ trunc 8 (trunc 8 (i.ins_size + get_consumed i.modrm) + (if has_aes_imm i then 1 else 0))
        else r ≡ (cpu, 0))
      × (if is_aes_insn i then r.0.regs ≡ cpu.regs else r.0 ≡ cpu)
unfolding aes_instruction load_xmm
aes_instruction-handles fr cpu i =
    finish_aes-IsSwitch cpu i _ _ (switch_aes-IsSwitch cpu i _ _ _ _ (ground arith))

-- The same for the VEX forms.
pub vaes_instruction-handles :
    (fr wide : Frame) (cpu : Cpu) (i : Insn)
    → let r = vaes_instruction fr wide cpu i in
      (if is_aes_opcode i.opcode
        then r.1
          ≡ trunc 8 (trunc 8 (i.ins_size + get_consumed i.modrm) + (if has_aes_imm i then 1 else 0))
        else r ≡ (cpu, 0))
      × (if is_aes_insn i then r.0.regs ≡ cpu.regs else r.0 ≡ cpu)
unfolding vaes_instruction load_xmm load_ymm
vaes_instruction-handles fr wide cpu i =
    finish_aes-IsSwitch cpu i _ _ (switch_aes-IsSwitch cpu i _ _ _ _ (ground arith))
