-- ===== src/Machine.antt =====
-- The register state that the emulator works on: `struct pt_regs`, the xmm and mm registers of the
-- processor, and VYMM0 .. VYMM15. These are `static` variables of the header optrap.h, so every object
-- file that the Makefile lists has its own copy of them, which starts at 0.
-- Modelled for an x86_64 kernel, so both the 64-bit and the 32-bit branch of each function stand.
-- The numbering of `gpr` is that of every `reg_sel` table and of every `switch (n)` in the source:
-- 0 ax, 1 cx, 2 dx, 3 bx, 4 sp, 5 bp, 6 si, 7 di, 8 r8 and so on up to 15 r15.
-- A union (XMM, YMM, M64, M32, MM) is the unsigned number that its bytes make, lowest byte first.
pub mod Laws
pub mod Copies
use opemu_linux.Common.{ℕ, ◌+◌, ◌*◌, ◌/◌, ◌%◌, ◌^◌, Bool, bit_and, trunc}
use opemu_linux.Common.{◌<◌, ltb, ◌==◌, if◌then◌else◌}

pub record Regs : Type 0 where
  pub gpr : ℕ → ℕ
  pub ip : ℕ
  pub flags : ℕ
  pub cs : ℕ

-- The object files whose code reads or writes a VYMM variable.
pub data ObjectFile : Type 0 where
  optrap : ObjectFile
  aes : ObjectFile
  avx : ObjectFile
  vgather : ObjectFile
  fma : ObjectFile
  f16c : ObjectFile
  vsse : ObjectFile
  vsse2 : ObjectFile
  vsse3 : ObjectFile
  vssse3 : ObjectFile
  vsse41 : ObjectFile
  vsse42 : ObjectFile

-- Its place in the Makefile's list.
abbrev pub place : ObjectFile → ℕ
place ObjectFile.optrap = 1
place ObjectFile.aes = 6
place ObjectFile.avx = 7
place ObjectFile.vgather = 8
place ObjectFile.fma = 9
place ObjectFile.f16c = 10
place ObjectFile.vsse = 12
place ObjectFile.vsse2 = 13
place ObjectFile.vsse3 = 14
place ObjectFile.vssse3 = 15
place ObjectFile.vsse41 = 16
place ObjectFile.vsse42 = 17

pub record Cpu : Type 0 where
  pub regs : Regs
  pub xmm : ℕ → ℕ
  pub mmx : ℕ → ℕ
  pub vymm : ObjectFile → ℕ → ℕ

-- The code at an address, by the distance from it.
abbrev pub Bytes : Type 0
Bytes = ℕ → ℕ

abbrev pub IsBytes : Bytes → Type 0
IsBytes code = (i : ℕ) → code i < 256

abbrev pub update : (ℕ → ℕ) → ℕ → ℕ → ℕ → ℕ
update f n v m = if m == n then v else f m

-- The copy of one object alone is changed.
abbrev pub update_copy : (ObjectFile → ℕ → ℕ) → ObjectFile → ℕ → ℕ → ObjectFile → ℕ → ℕ
update_copy f o n v p m = if place p == place o then (if m == n then v else f p m) else f p m

-- `REG_CS` is a uint16_t.
unfoldable pub is_saved_state64 : Regs → Bool
is_saved_state64 regs = bit_and (trunc 16 regs.cs) 0x10 == 0x10

unfoldable pub is_saved_state32 : Regs → Bool
is_saved_state32 regs = bit_and (trunc 16 regs.cs) 0x10 == 0x0

-- The `_store_` functions read a register; outside the switch's cases the local stays 0, and
-- for the vector registers `*where` keeps what it held.
unfoldable pub store_m64 : ℕ → Regs → ℕ
store_m64 n regs = if ltb n 16 then regs.gpr n else 0

unfoldable pub load_m64 : ℕ → ℕ → Regs → Regs
load_m64 n v regs = if ltb n 16 then record regs { gpr = update regs.gpr n v } else regs

unfoldable pub store_m32 : ℕ → Regs → ℕ
store_m32 n regs = if ltb n 8 then trunc 32 (regs.gpr n) else 0

unfoldable pub load_m32 : ℕ → ℕ → Regs → Regs
load_m32 n v regs = if ltb n 8 then record regs { gpr = update regs.gpr n v } else regs

unfoldable pub store_xmm : ℕ → ℕ → Cpu → ℕ
store_xmm n old cpu = if ltb n 16 then cpu.xmm n else old

unfoldable pub load_xmm : ℕ → ℕ → Cpu → Cpu
load_xmm n v cpu = if ltb n 16 then record cpu { xmm = update cpu.xmm n v } else cpu

unfoldable pub store_mmx : ℕ → ℕ → Cpu → ℕ
store_mmx n old cpu = if ltb n 8 then cpu.mmx n else old

unfoldable pub load_mmx : ℕ → ℕ → Cpu → Cpu
load_mmx n v cpu = if ltb n 8 then record cpu { mmx = update cpu.mmx n v } else cpu

-- `_store_ymm` and `_load_ymm` as the object `o` has them. The low half comes from the processor's
-- register, the high half from VYMMn. `old` stands for
-- the locals `vymmres` and `lowymm`, which no case sets when `n` is 16 or more.
unfoldable pub store_ymm : ObjectFile → ℕ → ℕ → Cpu → ℕ
unfolding store_xmm
store_ymm o n old cpu =
    let vymmres = if ltb n 16 then cpu.vymm o n else old in
    let lowymm = store_xmm n (old % 2 ^ 128) cpu in vymmres / 2 ^ 128 * 2 ^ 128 + lowymm

unfoldable pub load_ymm : ObjectFile → ℕ → ℕ → Cpu → Cpu
unfolding load_xmm
load_ymm o n v cpu =
    let cpu' = if ltb n 16 then record cpu { vymm = update_copy cpu.vymm o n v } else cpu in
    load_xmm n (v % 2 ^ 128) cpu'
