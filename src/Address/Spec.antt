-- ===== src/Address/Spec.antt =====
-- The processor's own rule for an effective address: the sum of a base, a scaled index and a
-- displacement, each of which may be absent.
use opemu_linux.Common.{ℕ, ◌+◌, ◌*◌, ◌^◌, Bool, ◌||◌, ◌&&◌, trunc, ◌>>>◌, ◌%◌}
use opemu_linux.Common.{◌==◌, if◌then◌else◌, sign_extend}
use opemu_linux.Machine.{Regs, Bytes}

-- `rm` is the ModRM.rm field with its extension bit, `ext_x` and `ext_b` are 0 or 8.
module _ (regs : Regs) (modrm : Bytes) (m rm ext_x ext_b : ℕ) where
  abbrev with_sib : Bool
  with_sib = rm % 8 == 4

  abbrev base_field : ℕ
  base_field = modrm 1 % 8

  abbrev no_base : Bool
  no_base = m == 0 && with_sib && base_field == 5

  abbrev ip_relative : Bool
  ip_relative = m == 0 && rm % 8 == 5

  unfoldable pub base_part : ℕ → ℕ
  base_part next =
      if no_base
      then 0
      else (if ip_relative
          then next
          else (if with_sib then regs.gpr (base_field + ext_b) else regs.gpr rm))

  abbrev index_register : ℕ
  index_register = (modrm 1 >>> 3) % 8 + ext_x

  unfoldable pub index_part : ℕ
  index_part =
      if with_sib
      then (if index_register == 4 then 0 else regs.gpr index_register * 2 ^ (modrm 1 >>> 6))
      else 0

  abbrev disp_offset : ℕ
  disp_offset = if with_sib then 2 else 1

  unfoldable pub disp_part : ℕ → ℕ
  disp_part w =
      let o = disp_offset in
      let disp32 =
        sign_extend 32 w
          (modrm o + modrm (o + 1) * 2 ^ 8 + modrm (o + 2) * 2 ^ 16 + modrm (o + 3) * 2 ^ 24) in
      if m == 1
      then sign_extend 8 w (modrm o)
      else (if m == 2 || no_base || ip_relative then disp32 else 0)

  -- `next` is the address of the instruction that follows.
  unfoldable pub effective_address : ℕ → ℕ → ℕ
  unfolding base_part index_part disp_part
  effective_address w next = trunc w (base_part next + index_part + disp_part w)
