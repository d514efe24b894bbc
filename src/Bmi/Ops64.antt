-- ===== src/Bmi/Ops64.antt =====
-- The instructions of bmi.h on an M64 in 64-bit mode, with a 64-bit or a 32-bit operand. `res` is
-- what `*res` held: with a 32-bit operand only its low half is written.
use opemu_linux.Common.{ℕ, ◌*◌, ◌/◌, ◌%◌, ◌^◌, trunc, ltb, ◌==◌, ◌>>>◌, if◌then◌else◌}
use opemu_linux.Machine.{Regs}
use opemu_linux.Operand.{set_low}
use opemu_linux.Bmi.Words.{
  andn, blsr, blsmsk, blsi, bextr, bzhi, pdep, pext, rorx, shlx, shrx, sarx,
}
use opemu_linux.Bmi.Flags.{andn_flags, blsr_flags, blsmsk_flags, blsi_flags, zero_flag, bzhi_flags}

-- `src.u32[0]`, `vsrc.u8[0]`, `vsrc.u8[1]`
abbrev pub low32 : ℕ → ℕ
low32 x = x % 2 ^ 32

abbrev pub byte0 : ℕ → ℕ
byte0 x = x % 2 ^ 8

abbrev pub byte1 : ℕ → ℕ
byte1 x = x / 2 ^ 8 % 2 ^ 8

abbrev pub with_flags : Regs → ℕ → Regs
with_flags regs flags = record regs { flags = flags }

unfoldable pub andn64 : ℕ → ℕ → ℕ → ℕ → Regs → ℕ × Regs
andn64 src vsrc res operand_size regs =
    if operand_size == 64
    then (let dest = andn 64 vsrc src in (dest, with_flags regs (andn_flags 64 dest regs.flags)))
    else (let dest = andn 32 (low32 vsrc) (low32 src) in
        (set_low 32 res dest, with_flags regs (andn_flags 32 dest regs.flags)))

-- `*res` is left alone when `start` is out of range; ZF is then set.
unfoldable pub bextr64 : (ℕ → ℕ) → ℕ → ℕ → ℕ → ℕ → Regs → ℕ × Regs
bextr64 wide src vsrc res operand_size regs =
    let start = byte0 vsrc in
    let len = byte1 vsrc in
    if operand_size == 64
    then (let dest = bextr 64 wide start len src in
        (if ltb start 64 then dest else res, with_flags regs (zero_flag dest regs.flags)))
    else (let dest = bextr 32 wide start len (low32 src) in
        (
          if ltb start 32 then set_low 32 res dest else res,
          with_flags regs (zero_flag dest regs.flags),
        ))

unfoldable pub blsr64 : ℕ → ℕ → ℕ → Regs → ℕ × Regs
blsr64 src res operand_size regs =
    if operand_size == 64
    then (let dest = blsr 64 src in (dest, with_flags regs (blsr_flags 64 src dest regs.flags)))
    else (let dest = blsr 32 (low32 src) in
        (set_low 32 res dest, with_flags regs (blsr_flags 32 (low32 src) dest regs.flags)))

unfoldable pub blsmsk64 : ℕ → ℕ → ℕ → Regs → ℕ × Regs
blsmsk64 src res operand_size regs =
    if operand_size == 64
    then (let dest = blsmsk 64 src in (dest, with_flags regs (blsmsk_flags 64 src dest regs.flags)))
    else (let dest = blsmsk 32 (low32 src) in
        (set_low 32 res dest, with_flags regs (blsmsk_flags 32 (low32 src) dest regs.flags)))

unfoldable pub blsi64 : ℕ → ℕ → ℕ → Regs → ℕ × Regs
blsi64 src res operand_size regs =
    if operand_size == 64
    then (let dest = blsi 64 src in (dest, with_flags regs (blsi_flags 64 src dest regs.flags)))
    else (let dest = blsi 32 (low32 src) in
        (set_low 32 res dest, with_flags regs (blsi_flags 32 (low32 src) dest regs.flags)))

unfoldable pub bzhi64 : ℕ → ℕ → ℕ → ℕ → Regs → ℕ × Regs
bzhi64 src vsrc res operand_size regs =
    let index = byte0 vsrc in
    if operand_size == 64
    then (bzhi 64 index src, with_flags regs (bzhi_flags 64 index regs.flags))
    else (
      set_low 32 res (bzhi 32 index (low32 src)),
      with_flags regs (bzhi_flags 32 index regs.flags),
    )

-- The two results: the high word, and the low word.
unfoldable pub mulx64 : ℕ → ℕ → ℕ → ℕ → ℕ → ℕ × ℕ
mulx64 src res dres dx operand_size =
    if operand_size == 64
    then (let tmp = trunc 128 (dx * src) in (tmp >>> 64, trunc 64 tmp))
    else (let tmp = trunc 64 (low32 dx * low32 src) in
        (set_low 32 res (tmp >>> 32), set_low 32 dres (trunc 32 tmp)))

unfoldable pub pdep64 : ℕ → ℕ → ℕ → ℕ → ℕ
pdep64 src vsrc res operand_size =
    if operand_size == 64
    then pdep 64 src vsrc
    else set_low 32 res (pdep 32 (low32 src) (low32 vsrc))

unfoldable pub pext64 : ℕ → ℕ → ℕ → ℕ → ℕ
pext64 src vsrc res operand_size =
    if operand_size == 64
    then pext 64 src vsrc
    else set_low 32 res (pext 32 (low32 src) (low32 vsrc))

unfoldable pub rorx64 : (ℕ → ℕ) → ℕ → ℕ → ℕ → ℕ → ℕ
rorx64 wide src res imm operand_size =
    if operand_size == 64
    then rorx 64 wide src imm
    else set_low 32 res (rorx 32 wide (low32 src) imm)

unfoldable pub shlx64 : ℕ → ℕ → ℕ → ℕ → ℕ
shlx64 src vsrc res operand_size =
    if operand_size == 64
    then shlx 64 src (byte0 vsrc)
    else set_low 32 res (shlx 32 (low32 src) (byte0 vsrc))

unfoldable pub sarx64 : ℕ → ℕ → ℕ → ℕ → ℕ
sarx64 src vsrc res operand_size =
    if operand_size == 64
    then sarx 64 src (byte0 vsrc)
    else set_low 32 res (sarx 32 (low32 src) (byte0 vsrc))

unfoldable pub shrx64 : ℕ → ℕ → ℕ → ℕ → ℕ
shrx64 src vsrc res operand_size =
    if operand_size == 64
    then shrx 64 src (byte0 vsrc)
    else set_low 32 res (shrx 32 (low32 src) (byte0 vsrc))
