-- ===== src/Aes/Copies.antt =====
-- The AES and carry-less instructions do not write to the VYMM variables of optrap.o.
use opemu_linux.Common.{ℕ, refl, Option, none, some, Bool, true, false, arith}
use opemu_linux.Common.{if◌then◌else◌}
use opemu_linux.Machine.{Cpu, ObjectFile, load_xmm}
use opemu_linux.Machine.Copies.{IsUntouched, load_xmm-IsUntouched, load_ymm-IsUntouched}
use opemu_linux.Decode.Rex.{Insn}
use opemu_linux.Operand.{Frame, num_dst}
use opemu_linux.Aes.Rounds.{aesimc, aesenc, aesenclast, aesdec, aesdeclast, aeskeygenassist}
use opemu_linux.Aes.Dispatch.{
  Effect, round_case, last_case, product_case, switch_aes, finish_aes, aes_instruction,
  vaes_instruction,
}

either :
    (b : Bool) (x y : Effect)
    → IsUntouched x.0
    → IsUntouched y.0
    → let e : Effect = if b then x else y in IsUntouched e.0
either true x y hx hy = hx
either false x y hx hy = hy

either_cpu :
    (b : Bool) (x y : Cpu) → IsUntouched x → IsUntouched y → IsUntouched (if b then x else y)
either_cpu true x y hx hy = hx
either_cpu false x y hx hy = hy

-- The effect of a switch, if it has one.
abbrev Kept : Option Effect → Type 0
Kept none = Unit {0}
Kept (some e) = IsUntouched e.0

module _ (cpu : Cpu) (i : Insn) (is : IsUntouched cpu) where
  written : (res : ℕ) → IsUntouched (load_xmm (num_dst i) res cpu)
  written res = load_xmm-IsUntouched (num_dst i) res cpu is

  round_case-Kept : (res : ℕ) → Kept (some (round_case cpu i res))
  unfolding round_case
  round_case-Kept res = either _ _ _ (written res) is

  last_case-Kept : (round keygen : ℕ) → Kept (some (last_case cpu i round keygen))
  unfolding last_case
  last_case-Kept round keygen =
      either _ _ _ (either _ _ _ (written round) (either _ _ _ (written keygen) is)) is

  product_case-Kept :
      (product : Cpu) → IsUntouched product → Kept (some (product_case cpu i product))
  unfolding product_case
  product_case-Kept product h = either _ _ _ h is

  switch_aes-Kept :
      (src block imm : ℕ) (product : Cpu)
      → IsUntouched product
      → Kept (switch_aes cpu i src block imm product)
  unfolding switch_aes
  switch_aes-Kept src block imm product hp = ground (
    arith,
    round_case-Kept (aesimc src),
    round_case-Kept (aesenc src block),
    round_case-Kept (aesenclast src block),
    round_case-Kept (aesdec src block),
    last_case-Kept (aesdeclast src block) (aeskeygenassist src imm),
    product_case-Kept product hp,
  )

  finish_aes-Kept : (size : ℕ) (o : Option Effect) → Kept o → IsUntouched (finish_aes cpu size o).0
  unfolding finish_aes
  finish_aes-Kept size none h = is
  finish_aes-Kept size (some e) h = h

pub aes_instruction-IsUntouched :
    (fr : Frame) (cpu : Cpu) (i : Insn) → IsUntouched cpu → IsUntouched (aes_instruction fr cpu i).0
unfolding aes_instruction
aes_instruction-IsUntouched fr cpu i is =
    finish_aes-Kept cpu i is _ _ (switch_aes-Kept cpu i is _ _ _ _ (written cpu i is _))

pub vaes_instruction-IsUntouched :
    (fr wide : Frame) (cpu : Cpu) (i : Insn)
    → IsUntouched cpu
    → IsUntouched (vaes_instruction fr wide cpu i).0
unfolding vaes_instruction
vaes_instruction-IsUntouched fr wide cpu i is = finish_aes-Kept cpu i is _ _ (
    switch_aes-Kept cpu i is _ _ _ _ (
      either_cpu _ _ _ (written cpu i is _)
        (load_ymm-IsUntouched ObjectFile.aes refl (num_dst i) _ cpu is)))
