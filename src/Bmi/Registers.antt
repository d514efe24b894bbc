-- ===== src/Bmi/Registers.antt =====
-- What single BMI instructions leave in the registers, in 64-bit mode with register operands.
use opemu_linux.Common.{ℕ, ◌*◌, ◌/◌, ◌^◌, ◌<◌, ◌≡◌, ◌+◌, arith, refl, ◌∙◌, true}
use opemu_linux.Common.{◌==◌, if◌then◌else◌}
use opemu_linux.Machine.{Regs, is_saved_state64, store_m64, load_m64}
use opemu_linux.Machine.Laws.{store_m64-load_m64}
use opemu_linux.Decode.Length.{mod_of}
use opemu_linux.Decode.Rex.{Insn}
use opemu_linux.Operand.{Frame, num_dst, num_src, get_x64regs, set_low}
use opemu_linux.Bmi.{bmi_instruction}
use opemu_linux.Bmi.Words.{andn, rorx, bzhi}
use opemu_linux.Bmi.Flags.{andn_flags, bzhi_flags}
use opemu_linux.Bmi.Ops64.{andn64, rorx64, bzhi64, low32, byte0, with_flags}
use opemu_linux.Bmi.Dispatch64.{case64_andn, case64_rorx, case64_bzhi, switch64}

-- A decoded instruction with a register operand, in 64-bit mode.
pub record IsRegisterForm (regs : Regs) (i : Insn) (opcode prefix leading size : ℕ) : Type 0 where
  pub mode : is_saved_state64 regs ≡ true
  pub form : mod_of (i.modrm 0) ≡ 3
  pub is_opcode : i.opcode ≡ opcode
  pub is_prefix : i.simd_prefix ≡ prefix
  pub is_leading : i.leading_opcode ≡ leading
  pub is_size : i.operand_size ≡ size
  pub dst_in_range : num_dst i < 16

module _ (wide : ℕ → ℕ) (fr : Frame) (regs : Regs) (i : Insn) where
  -- The operands are registers.
  register_operands :
      {opcode prefix leading size : ℕ}
      → IsRegisterForm regs i opcode prefix leading size
      → let ops = get_x64regs fr regs i in
        (ops.src ≡ store_m64 (num_src i) regs) × (ops.vsrc ≡ store_m64 i.vexreg regs)
  unfolding get_x64regs
  register_operands h = ground arith

  andn_effect :
      IsRegisterForm regs i 0xF2 0 2 64
      → (bmi_instruction wide fr regs i).0 ≡ (
          let dest = andn 64 (store_m64 i.vexreg regs) (store_m64 (num_src i) regs) in
          load_m64 (num_dst i) dest (with_flags regs (andn_flags 64 dest regs.flags)))
  unfolding bmi_instruction switch64 case64_andn andn64
  andn_effect h = ground (arith, register_operands h)

  rorx_effect :
      IsRegisterForm regs i 0xF0 3 3 64
      → (bmi_instruction wide fr regs i).0 ≡ load_m64 (num_dst i) (store_m64 (num_src i) regs) regs
  unfolding bmi_instruction switch64 case64_rorx rorx64 rorx
  rorx_effect h = ground (arith, register_operands h)

  -- ANDN with a 64-bit operand writes the destination with `~vvvv & rm`, sets SF and ZF by it, and
  -- leaves every other register.
  bmi_instruction-andn :
      IsRegisterForm regs i 0xF2 0 2 64
      → let r = (bmi_instruction wide fr regs i).0 in
        let dest = andn 64 (store_m64 i.vexreg regs) (store_m64 (num_src i) regs) in
        ((n : ℕ) → store_m64 n r ≡ (if n == num_dst i then dest else store_m64 n regs))
        × (r.flags ≡ andn_flags 64 dest regs.flags)
  bmi_instruction-andn h = rw (andn_effect h) (
    λ n. store_m64-load_m64 (num_dst i) n _ _ h.dst_in_range ∙ unfold store_m64 in refl,
    unfold load_m64 in ground arith,
  )

  -- RORX with a 64-bit operand copies its source unrotated, whatever the immediate says, and changes
  -- no other register and no flag.
  bmi_instruction-rorx :
      IsRegisterForm regs i 0xF0 3 3 64
      → let r = (bmi_instruction wide fr regs i).0 in
        ((n : ℕ)
          → store_m64 n r
            ≡ (if n == num_dst i then store_m64 (num_src i) regs else store_m64 n regs))
        × (r.flags ≡ regs.flags)
  bmi_instruction-rorx h =
      rw (rorx_effect h)
        (λ n. store_m64-load_m64 (num_dst i) n _ _ h.dst_in_range, unfold load_m64 in ground arith)

  -- With a 32-bit operand BZHI writes the low half of the destination alone: the high half becomes
  -- what the local variable of the handler happened to hold.
  bmi_instruction-bzhi32 :
      IsRegisterForm regs i 0xF5 0 2 32
      → let r = (bmi_instruction wide fr regs i).0 in
        store_m64 (num_dst i) r
        ≡ fr.res / 2 ^ 32 * 2 ^ 32
          + bzhi 32 (byte0 (store_m64 i.vexreg regs)) (low32 (store_m64 (num_src i) regs))
  unfolding bmi_instruction switch64 case64_bzhi bzhi64
  bmi_instruction-bzhi32 h = ground (
    arith,
    register_operands h,
    store_m64-load_m64 (num_dst i) (num_dst i)
        (set_low 32 fr.res
          (bzhi 32 (byte0 (store_m64 i.vexreg regs)) (low32 (store_m64 (num_src i) regs))))
        (with_flags regs (bzhi_flags 32 (byte0 (store_m64 i.vexreg regs)) regs.flags)),
  )
