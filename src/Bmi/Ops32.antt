-- ===== src/Bmi/Ops32.antt =====
-- The instructions of bmi.h on an M32, in 32-bit mode.
use opemu_linux.Common.{ℕ, ◌*◌, trunc, ltb, ◌>>>◌, if◌then◌else◌}
use opemu_linux.Machine.{Regs}
use opemu_linux.Bmi.Words.{
  andn, blsr, blsmsk, blsi, bextr, bzhi, pdep, pext, rorx, shlx, shrx, sarx,
}
use opemu_linux.Bmi.Flags.{andn_flags, blsr_flags, blsmsk_flags, blsi_flags, zero_flag, bzhi_flags}
use opemu_linux.Bmi.Ops64.{byte0, byte1, with_flags}

unfoldable pub andn32 : ℕ → ℕ → Regs → ℕ × Regs
andn32 src vsrc regs =
    let dest = andn 32 vsrc src in (dest, with_flags regs (andn_flags 32 dest regs.flags))

unfoldable pub bextr32 : (ℕ → ℕ) → ℕ → ℕ → ℕ → Regs → ℕ × Regs
bextr32 wide src vsrc res regs =
    let dest = bextr 32 wide (byte0 vsrc) (byte1 vsrc) src in
    (if ltb (byte0 vsrc) 32 then dest else res, with_flags regs (zero_flag dest regs.flags))

unfoldable pub blsr32 : ℕ → Regs → ℕ × Regs
blsr32 src regs =
    let dest = blsr 32 src in (dest, with_flags regs (blsr_flags 32 src dest regs.flags))

unfoldable pub blsmsk32 : ℕ → Regs → ℕ × Regs
blsmsk32 src regs =
    let dest = blsmsk 32 src in (dest, with_flags regs (blsmsk_flags 32 src dest regs.flags))

unfoldable pub blsi32 : ℕ → Regs → ℕ × Regs
blsi32 src regs =
    let dest = blsi 32 src in (dest, with_flags regs (blsi_flags 32 src dest regs.flags))

unfoldable pub bzhi32 : ℕ → ℕ → Regs → ℕ × Regs
bzhi32 src vsrc regs =
    (bzhi 32 (byte0 vsrc) src, with_flags regs (bzhi_flags 32 (byte0 vsrc) regs.flags))

unfoldable pub mulx32 : ℕ → ℕ → ℕ × ℕ
mulx32 src dx = let tmp = trunc 64 (trunc 32 dx * src) in (trunc 32 (tmp >>> 32), trunc 32 tmp)

unfoldable pub pdep32 : ℕ → ℕ → ℕ
pdep32 src vsrc = pdep 32 src vsrc

unfoldable pub pext32 : ℕ → ℕ → ℕ
pext32 src vsrc = pext 32 src vsrc

unfoldable pub rorx32 : (ℕ → ℕ) → ℕ → ℕ → ℕ
rorx32 wide src imm = rorx 32 wide src imm

unfoldable pub shlx32 : ℕ → ℕ → ℕ
shlx32 src vsrc = shlx 32 src (byte0 vsrc)

unfoldable pub sarx32 : ℕ → ℕ → ℕ
sarx32 src vsrc = sarx 32 src (byte0 vsrc)

unfoldable pub shrx32 : ℕ → ℕ → ℕ
shrx32 src vsrc = shrx 32 src (byte0 vsrc)
