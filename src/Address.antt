-- ===== src/Address.antt =====
-- The effective address of a memory operand: `addressing64`, `addressing32` and `vmaddrs` of optrap.c.
pub mod Spec
pub mod Laws
use opemu_linux.Common.{ℕ, ◌+◌, ◌*◌, ◌^◌, Bool, ◌||◌, trunc, bit_and, ◌>>>◌, sign_extend}
use opemu_linux.Common.{ltb, ◌==◌, if◌then◌else◌}
use opemu_linux.Machine.{Regs, Bytes}

-- `*((int8_t*)&modrm[k])` and `*((int32_t*)&modrm[k])` as `w`-bit patterns, `*((uint32_t*)&modrm[k])`.
abbrev le32 : Bytes → ℕ → ℕ
le32 m k = m k + m (k + 1) * 2 ^ 8 + m (k + 2) * 2 ^ 16 + m (k + 3) * 2 ^ 24

abbrev int8_at : ℕ → Bytes → ℕ → ℕ
int8_at w m k = sign_extend 8 w (m k)

abbrev int32_at : ℕ → Bytes → ℕ → ℕ
int32_at w m k = sign_extend 32 w (le32 m k)

-- The scaling factor starts at 0 and is set by a ladder over the scale field.
unfoldable pub scale_factor : ℕ → ℕ
scale_factor scale =
    if scale == 0
    then 1
    else (if scale == 1 then 2 else (if scale == 2 then 4 else (if scale == 3 then 8 else 0)))

-- The SIB byte; `index` and `base` take the REX or VEX extension bits in 64-bit mode.
pub record Sib : Type 0 where
  pub factor : ℕ
  pub index : ℕ
  pub base : ℕ

unfoldable pub read_sib : Bytes → ℕ → ℕ → Sib
read_sib modrm high_index high_base =
    let sib = modrm 1 in
    record {
      factor = scale_factor (sib >>> 6);
      index = bit_and (sib >>> 3) 0x7 + (if high_index == 0 then 0 else 8);
      base = bit_and sib 0x7 + (if high_base == 0 then 0 else 8);
    }

module _ (regs : Regs) (modrm : Bytes) (num_src high_index high_base modbyte : ℕ) where
  -- `regs->ip + bytelen + *((int32_t*)&modrm[k])`, where `bytelen` is a byte.
  abbrev ip_disp32 : ℕ → ℕ → ℕ
  ip_disp32 len k = regs.ip + trunc 8 (modbyte + len) + int32_at 64 modrm k

  abbrev sib64 : Sib
  sib64 = read_sib modrm high_index high_base

  abbrev scaled64 : ℕ
  scaled64 = regs.gpr sib64.index * sib64.factor

  -- The three branches on `mod`, before the sum is cut to 64 bits.
  unfoldable pub address_mod0 : ℕ
  address_mod0 =
      if num_src == 4 || num_src == 12
      then (if sib64.index == 4
          then (if sib64.base == 5 || sib64.base == 13 then ip_disp32 5 2 else regs.gpr sib64.base)
          else (if sib64.base == 5 || sib64.base == 13
              then ip_disp32 5 2 + scaled64
              else regs.gpr sib64.base + scaled64))
      else (if num_src == 5 || num_src == 13 then ip_disp32 4 1 else regs.gpr num_src)

  unfoldable pub address_mod1 : ℕ
  address_mod1 =
      if num_src == 4 || num_src == 12
      then (if sib64.index == 4
          then regs.gpr sib64.base + int8_at 64 modrm 2
          else regs.gpr sib64.base + scaled64 + int8_at 64 modrm 2)
      else regs.gpr num_src + int8_at 64 modrm 1

  unfoldable pub address_mod2 : ℕ
  address_mod2 =
      if num_src == 4 || num_src == 12
      then (if sib64.index == 4
          then regs.gpr sib64.base + ip_disp32 5 2
          else regs.gpr sib64.base + scaled64 + ip_disp32 5 2)
      else regs.gpr num_src + ip_disp32 4 1

-- With `mod` 3, where the operand is a register, the address stays 0.
unfoldable pub addressing64 : Regs → Bytes → ℕ → ℕ → ℕ → ℕ → ℕ → ℕ
unfolding address_mod0 address_mod1 address_mod2
addressing64 regs modrm m num_src high_index high_base modbyte = trunc 64 (
    if m == 0
    then address_mod0 regs modrm num_src high_index high_base modbyte
    else (if m == 1
        then address_mod1 regs modrm num_src high_index high_base modbyte
        else (if m == 2 then address_mod2 regs modrm num_src high_index high_base modbyte else 0)))

-- The 32-bit address: registers are cut to 32 bits, nothing is relative to `ip`, and the extension
-- bits are not read. `reg_sel` has eight entries: `outside` is what stands in memory behind them.
module _ (outside : ℕ → ℕ) (regs : Regs) (modrm : Bytes) (num_src : ℕ) where
  abbrev sel32 : ℕ → ℕ
  sel32 n = trunc 32 (if ltb n 8 then regs.gpr n else outside n)

  abbrev sib32 : Sib
  sib32 = read_sib modrm 0 0

  abbrev scaled32 : ℕ
  scaled32 = sel32 sib32.index * sib32.factor

  unfoldable pub address32_mod0 : ℕ
  address32_mod0 =
      if num_src == 4
      then (if sib32.index == 4
          then (if sib32.base == 5 then le32 modrm 2 else sel32 sib32.base)
          else (if sib32.base == 5
              then int32_at 32 modrm 2 + scaled32
              else sel32 sib32.base + scaled32))
      else (if num_src == 5 then le32 modrm 1 else sel32 num_src)

  -- `mod` 1 and 2 differ in the width of the displacement alone.
  unfoldable pub address32_disp : (ℕ → ℕ) → ℕ
  address32_disp disp =
      if num_src == 4
      then (if sib32.index == 4
          then sel32 sib32.base + disp 2
          else sel32 sib32.base + scaled32 + disp 2)
      else sel32 num_src + disp 1

unfoldable pub addressing32 : (ℕ → ℕ) → Regs → Bytes → ℕ → ℕ → ℕ
unfolding address32_mod0 address32_disp
addressing32 outside regs modrm m num_src = trunc 32 (
    if m == 0
    then address32_mod0 outside regs modrm num_src
    else (if m == 1
        then address32_disp outside regs modrm num_src (int8_at 32 modrm)
        else (if m == 2 then address32_disp outside regs modrm num_src (int32_at 32 modrm) else 0)))

-- The address of one element of a gather. `vaddr` is the index, a signed 64-bit pattern.
unfoldable pub vmaddrs : Regs → Bytes → ℕ → ℕ → ℕ → ℕ
vmaddrs regs modrm high_base vaddr ins_size =
    let sib = read_sib modrm 0 high_base in
    let m = modrm 0 >>> 6 in
    let scaled = trunc 64 vaddr * sib.factor in
    let ip_disp = regs.ip + ins_size + int32_at 64 modrm 2 in
    trunc 64 (
      if m == 0
      then (if sib.base == 5 || sib.base == 13
          then ip_disp + scaled
          else regs.gpr sib.base + scaled)
      else (if m == 1
          then regs.gpr sib.base + scaled + int8_at 64 modrm 2
          else (if m == 2 then regs.gpr sib.base + scaled + ip_disp else 0)))
