-- ===== src/Gather/Laws.antt =====
-- The addresses of a gather with 32-bit indices.
use opemu_linux.Common.{
  ℕ, ◌+◌, ◌/◌, ◌||◌, ◌&&◌, ap, Bool-cases, inl, inr, ◌*◌, ◌%◌, ◌^◌, ◌<◌, ◌≡◌, ◌∙◌, refl, arith,
  trunc, ltb, sign_extend, ◌>>>◌, ◌==◌, if◌then◌else◌, Bool, true, false, bit_and,
}
use opemu_linux.Common.Lanes.{lane, lane-lt, lane-tabulate}
use opemu_linux.Machine.{Cpu, Regs, Bytes}
use opemu_linux.Address.{vmaddrs, read_sib}
use opemu_linux.Address.Spec.{base_part, disp_part}
use opemu_linux.Address.Laws.{scale_factor-eq-pow}
use opemu_linux.Common.Bits.Laws.{bit_and_mask}
use opemu_linux.Decode.Length.{get_consumed}
use opemu_linux.Decode.Rex.{Insn}
use opemu_linux.Gather.Lanes.{dword_index, gathered, vpgatherdq}
use opemu_linux.Gather.Dispatch.{data_addr}
use native.Mathlib.Nat.{add-mul, mod-eq_of_lt}

-- The documented address of an element: the base, which a displacement of 32 bits takes the place of
-- in mod 0 with the base field 5, the signed index times the scale, and the displacement.
module _ (regs : Regs) (modrm : Bytes) (high_base : ℕ) where
  abbrev mode : ℕ
  mode = modrm 0 / 64

  abbrev extension : ℕ
  extension = if high_base == 0 then 0 else 8

  abbrev vsib_address : ℕ → ℕ
  vsib_address index =
      base_part regs modrm mode 4 0 extension 0
      + index * 2 ^ (modrm 1 / 64)
      + disp_part regs modrm mode 4 0 extension 64

  -- Where a displacement of 32 bits stands `vmaddrs` adds `regs->ip` and the length so far.
  abbrev added_ip : ℕ → ℕ
  added_ip size = if mode == 2 || mode == 0 && modrm 1 % 8 == 5 then regs.ip + size else 0

  vmaddrs-vsib :
      (x size : ℕ)
      → modrm 0 < 192
      → modrm 1 < 256
      → vmaddrs regs modrm high_base x size ≡ trunc 64 (vsib_address (trunc 64 x) + added_ip size)
  unfolding vmaddrs base_part disp_part
  vmaddrs-vsib x size memory_operand byte = elim (Bool-cases (high_base == 0)) [
    | inl e ↦ ground (arith, sib-factor, sib-base)
    | inr e ↦ ground (arith, sib-factor, sib-base)
  ]
    where
      sib-factor : (read_sib modrm 0 high_base).factor ≡ 2 ^ (modrm 1 / 64)
      sib-factor = unfold read_sib in scale_factor-eq-pow (modrm 1 / 64) (omega arith)

      sib-base : (read_sib modrm 0 high_base).base ≡ modrm 1 % 8 + extension
      sib-base = unfold read_sib in ground (arith, bit_and_mask 3 (modrm 1))

-- What `vaddr.a32[1] = 0xffffffff` adds to an index that is not negative.
abbrev misread : ℕ → ℕ
misread x = if ltb x (2 ^ 31) then 0xFFFFFFFF * 2 ^ 32 else 0

dword_index-misread :
    (vindex k : ℕ)
    → let x = lane 32 k vindex in
      (dword_index vindex k ≡ sign_extend 32 64 x + misread x) × (dword_index vindex k < 2 ^ 64)
unfolding dword_index
dword_index-misread vindex k =
    let small : lane 32 k vindex < 2 ^ 32 = lane-lt 32 k vindex in by_value (lane 32 k vindex) small
  where
    by_value :
        (x : ℕ)
        → x < 2 ^ 32
        → (x + 0xFFFFFFFF * 2 ^ 32 ≡ sign_extend 32 64 x + misread x)
          × (x + 0xFFFFFFFF * 2 ^ 32 < 2 ^ 64)
    by_value x h = (ground arith, omega arith)

module _ (cpu : Cpu) (i : Insn) where
  abbrev pub documented : ℕ → ℕ
  documented x = vsib_address cpu.regs i.modrm i.high_base (sign_extend 32 64 x)

  abbrev pub extra : ℕ → ℕ
  extra x =
      misread x * 2 ^ (i.modrm 1 / 64)
      + added_ip cpu.regs i.modrm i.high_base (trunc 8 (i.ins_size + get_consumed i.modrm))

  data_addr-lt : (x : ℕ) → data_addr cpu i x < 2 ^ 64
  unfolding data_addr vmaddrs
  data_addr-lt x = omega arith

module _ (cpu : Cpu) (i : Insn) (memory_operand : i.modrm 0 < 192) (byte : i.modrm 1 < 256) where
  data_addr-dword_index :
      (vindex k : ℕ)
      → let x = lane 32 k vindex in
        data_addr cpu i (dword_index vindex k) ≡ trunc 64 (documented cpu i x + extra cpu i x)
  unfolding data_addr
  data_addr-dword_index vindex k =
      let x = lane 32 k vindex in
      let read = dword_index-misread vindex k in
      vmaddrs-vsib cpu.regs i.modrm i.high_base (dword_index vindex k) _ memory_operand byte
      ∙ ap (trunc 64) (
          split (sign_extend 32 64 x) (misread x) (dword_index vindex k) (2 ^ (i.modrm 1 / 64)) _ _
            _ read.0 read.1)
    where
      split :
          (s e d f b c p : ℕ)
          → d ≡ s + e
          → d < 2 ^ 64
          → b + trunc 64 d * f + c + p ≡ b + s * f + c + (e * f + p)
      split s e d f b c p sum small = ground (arith, add-mul s e f)

  -- For a memory operand: a lane of VPGATHERDQ is 0 where the mask's top bit is clear, and else the
  -- address of its element, not the element. It is the documented address, to which 0xFFFFFFFF00000000
  -- times the scale is added if the index is not negative, and the instruction pointer with the length
  -- so far if a displacement of 32 bits stands in the instruction.
  pub vpgatherdq-lane :
      (n vsrc vindex k : ℕ)
      → k < n
      → let x = lane 32 k vindex in
        lane 64 k (vpgatherdq (data_addr cpu i) n vsrc vindex) ≡ (
          if lane 64 k vsrc / 2 ^ 63 == 1 then trunc 64 (documented cpu i x + extra cpu i x) else 0)
  unfolding vpgatherdq gathered
  vpgatherdq-lane n vsrc vindex k h =
      lane-tabulate 64 n k (gathered (data_addr cpu i) 64 vsrc (dword_index vindex)) h
      ∙ ap (λ x. (if x == 1 then data_addr cpu i (dword_index vindex k) else 0) % 2 ^ 64) top
      ∙ by_mask (lane 64 k vsrc / 2 ^ 63 == 1)
    where
      top : bit_and (lane 64 k vsrc >>> 63) 1 ≡ lane 64 k vsrc / 2 ^ 63
      top = omega (arith, bit_and_mask 1 (lane 64 k vsrc / 2 ^ 63), lane-lt 64 k vsrc)

      by_mask :
          (b : Bool)
          → (if b then data_addr cpu i (dword_index vindex k) else 0) % 2 ^ 64 ≡ (
              let x = lane 32 k vindex in
              if b then trunc 64 (documented cpu i x + extra cpu i x) else 0)
      by_mask true =
          mod-eq_of_lt (data_addr-lt cpu i (dword_index vindex k)) ∙ data_addr-dword_index vindex k
      by_mask false = refl
