-- ===== src/Address/Laws.antt =====
-- `addressing64` and `addressing32` against the processor's rule.
use opemu_linux.Common.{ℕ, zero, suc, ◌+◌, ◌*◌, ◌/◌, ◌%◌, ◌^◌, ◌<◌, ◌≡◌, arith, refl, trunc}
use opemu_linux.Common.{◌==◌, if◌then◌else◌, Bool-cases, inl, inr, agree_below, all_below, ◌&&◌}
use opemu_linux.Common.Bits.Laws.{bit_and_mask}
use opemu_linux.Machine.{Regs, Bytes}
use opemu_linux.Address.{scale_factor, read_sib, addressing64, addressing32}
use opemu_linux.Address.Spec.{effective_address}

pub scale_factor-eq-pow : (s : ℕ) → s < 4 → scale_factor s ≡ 2 ^ s
unfolding scale_factor all_below
scale_factor-eq-pow = agree_below 4 _ _ refl

module _ (modrm : Bytes) (hx hb : ℕ) (byte : modrm 1 < 256) (hx-lt : hx < 2) (hb-lt : hb < 2) where
  read_sib-factor : (read_sib modrm hx hb).factor ≡ 2 ^ (modrm 1 / 64)
  unfolding read_sib
  read_sib-factor = scale_factor-eq-pow (modrm 1 / 64) (omega arith)

  read_sib-index : (read_sib modrm hx hb).index ≡ modrm 1 / 8 % 8 + hx * 8
  unfolding read_sib
  read_sib-index = ground (arith, bit_and_mask 3 (modrm 1 / 8))

  read_sib-base : (read_sib modrm hx hb).base ≡ modrm 1 % 8 + hb * 8
  unfolding read_sib
  read_sib-base = ground (arith, bit_and_mask 3 (modrm 1))

  module _ (regs : Regs) (rm modbyte : ℕ) (rm-lt : rm < 8) where
    -- With an 8-bit displacement the address is the processor's.
    addressing64-mod1 :
        (next : ℕ)
        → addressing64 regs modrm 1 (rm + hb * 8) hx hb modbyte
          ≡ effective_address regs modrm 1 (rm + hb * 8) (hx * 8) (hb * 8) 64 next
    unfolding addressing64 effective_address
    addressing64-mod1 next = ground (arith, read_sib-factor, read_sib-index, read_sib-base)

    -- In 64-bit mode with a 32-bit displacement and fewer than 250 bytes before the ModRM byte the
    -- address exceeds the processor's by `regs->ip`, the count of those bytes, and 4, or 5 with a SIB
    -- byte.
    pub addressing64-mod2 :
        (next : ℕ)
        → modbyte < 250
        → addressing64 regs modrm 2 (rm + hb * 8) hx hb modbyte
          ≡ (effective_address regs modrm 2 (rm + hb * 8) (hx * 8) (hb * 8) 64 next
              + (regs.ip + modbyte + (if rm == 4 then 5 else 4)))
            % 2 ^ 64
    unfolding addressing64 effective_address
    addressing64-mod2 next h = ground (arith, read_sib-factor, read_sib-index, read_sib-base)

    -- Without a displacement the address is the processor's, except for the two forms of `mod` 0
    -- that carry one: relative to `ip` it falls short by one byte, and absolute with an index it
    -- has `ip` and the length in it.
    addressing64-mod0 :
        modbyte < 250
        → let ea =
            effective_address regs modrm 0
              (rm + hb * 8)
              (hx * 8)
              (hb * 8)
              64
              (regs.ip + modbyte + 5) in
          let got = addressing64 regs modrm 0 (rm + hb * 8) hx hb modbyte in
          if rm == 5
          then (got + 1) % 2 ^ 64 ≡ ea
          else (if (rm == 4) && (modrm 1 % 8 == 5)
              then got ≡ (ea + (regs.ip + modbyte + 5)) % 2 ^ 64
              else got ≡ ea)
    unfolding addressing64 effective_address
    addressing64-mod0 h = ground (arith, read_sib-factor, read_sib-index, read_sib-base)

module _ (outside : ℕ → ℕ) (regs : Regs) (modrm : Bytes) (rm : ℕ) (rm-lt : rm < 8)
    (byte : modrm 1 < 256) where
  abbrev regs32 : Regs
  regs32 = record regs { gpr = λ n. trunc 32 (regs.gpr n) }

  abbrev ea32 : ℕ → ℕ
  ea32 m = effective_address regs32 modrm m rm 0 0 32 0

  sib32_parts :
      let sib = read_sib modrm 0 0 in
      (sib.factor ≡ 2 ^ (modrm 1 / 64)) × (sib.index ≡ modrm 1 / 8 % 8) × (sib.base ≡ modrm 1 % 8)
  sib32_parts = (
    read_sib-factor modrm 0 0 byte (omega arith) (omega arith),
    omega (arith, read_sib-index modrm 0 0 byte (omega arith) (omega arith)),
    omega (arith, read_sib-base modrm 0 0 byte (omega arith) (omega arith)),
  )

  addressing32-mod0 : addressing32 outside regs modrm 0 rm ≡ ea32 0
  unfolding addressing32 effective_address
  addressing32-mod0 = elim (Bool-cases (rm == 4)) [
    | inl e ↦ elim (Bool-cases (modrm 1 / 8 % 8 == 4)) [
      | inl p ↦ elim (Bool-cases (modrm 1 % 8 == 5)) [
        | inl q ↦ ground (arith, sib32_parts)
        | inr q ↦ ground (arith, sib32_parts)
      ]
      | inr p ↦ elim (Bool-cases (modrm 1 % 8 == 5)) [
        | inl q ↦ ground (arith, sib32_parts)
        | inr q ↦ ground (arith, sib32_parts)
      ]
    ]
    | inr e ↦ ground (arith, sib32_parts)
  ]

  addressing32-mod1 : addressing32 outside regs modrm 1 rm ≡ ea32 1
  unfolding addressing32 effective_address
  addressing32-mod1 = ground (arith, sib32_parts)

  addressing32-mod2 : addressing32 outside regs modrm 2 rm ≡ ea32 2
  unfolding addressing32 effective_address
  addressing32-mod2 = ground (arith, sib32_parts)

  -- In 32-bit mode the address is the processor's on every form of a memory operand.
  pub addressing32-eq : (m : ℕ) → m < 3 → addressing32 outside regs modrm m rm ≡ ea32 m
  addressing32-eq zero h = addressing32-mod0
  addressing32-eq (suc zero) h = addressing32-mod1
  addressing32-eq (suc (suc zero)) h = addressing32-mod2
  addressing32-eq (suc (suc (suc m))) h = absurd (omega arith)
