-- ===== src/Operand.antt =====
-- The operands of an instruction: `get_x64regs`, `get_rexregs` and `get_vexregs` of optrap.c.
-- Where the operand is in memory the source copies bytes from the local variable that holds its
-- address. A copy that is wider than the variable takes what stands behind it on the stack.
pub mod Laws
use opemu_linux.Common.{
  ℕ, ◌+◌, ◌*◌, ◌/◌, ◌%◌, ◌^◌, ◌||◌, trunc, bit_and, ◌>>>◌, ◌==◌, if◌then◌else◌,
}
use opemu_linux.Machine.{Regs, Cpu, Bytes, is_saved_state64}
use opemu_linux.Machine.{ObjectFile, store_m64, store_m32, store_xmm, store_mmx, store_ymm}
use opemu_linux.Decode.Length.{mod_of, rm_of}
use opemu_linux.Decode.Rex.{Insn}
use opemu_linux.Address.{addressing64, addressing32}

-- What the source leaves undetermined: the old contents of locals, and the memory behind two of
-- them (behind `maddr`, and behind the table `reg_sel` of `addressing32`).
pub record Frame : Type 0 where
  pub src : ℕ
  pub vsrc : ℕ
  pub dst : ℕ
  pub res : ℕ
  pub dres : ℕ
  pub beyond : ℕ
  pub outside : ℕ → ℕ

pub record Operands : Type 0 where
  pub src : ℕ
  pub vsrc : ℕ
  pub dst : ℕ
  pub rmaddrs : ℕ

-- A write of the low `w` bits of a union.
abbrev pub set_low : ℕ → ℕ → ℕ → ℕ
set_low w old v = old / 2 ^ w * 2 ^ w + v

-- An operand in a variable of type XMM: its 16 bytes.
abbrev pub xmm_of : ℕ → ℕ
xmm_of v = v % 2 ^ 128

-- `w` bits read at a variable of `have` bits that holds `maddr`.
abbrev pub window : ℕ → ℕ → ℕ → ℕ → ℕ
window w have maddr beyond = trunc w (maddr + beyond * 2 ^ have)

-- `(*modrm >> 3) & 0x7` and `*modrm & 0x7`, 8 more with the extension bit.
unfoldable pub num_dst : Insn → ℕ
num_dst i = bit_and (i.modrm 0 >>> 3) 0x7 + (if i.high_reg == 0 then 0 else 8)

unfoldable pub num_src : Insn → ℕ
num_src i = bit_and (i.modrm 0) 0x7 + (if i.high_base == 0 then 0 else 8)

unfoldable pub address64 : Regs → Insn → ℕ
address64 regs i =
    addressing64 regs i.modrm (mod_of (i.modrm 0)) (num_src i) i.high_index i.high_base i.modbyte

unfoldable pub address32 : Frame → Regs → Insn → ℕ → ℕ
address32 fr regs i src = addressing32 fr.outside regs i.modrm (mod_of (i.modrm 0)) src

-- General registers. Only the 64-bit branch uses the extension bits.
unfoldable pub get_x64regs : Frame → Regs → Insn → Operands
get_x64regs fr regs i =
    if is_saved_state64 regs
    then record {
      src = if mod_of (i.modrm 0) == 3 then store_m64 (num_src i) regs else address64 regs i;
      vsrc = store_m64 i.vexreg regs;
      dst = store_m64 (num_dst i) regs;
      rmaddrs = if mod_of (i.modrm 0) == 3 then 0 else address64 regs i;
    }
    else record {
      src =
          if mod_of (i.modrm 0) == 3
          then store_m32 (rm_of (i.modrm 0)) regs
          else address32 fr regs i (rm_of (i.modrm 0));
      vsrc = store_m32 i.vexreg regs;
      dst = store_m32 (bit_and (i.modrm 0 >>> 3) 0x7) regs;
      rmaddrs = if mod_of (i.modrm 0) == 3 then 0 else address32 fr regs i (rm_of (i.modrm 0));
    }

-- The address in either mode, with the extension bits, and the width of the variable.
unfoldable pub vector_address : Frame → Regs → Insn → ℕ
vector_address fr regs i =
    if is_saved_state64 regs then address64 regs i else address32 fr regs i (num_src i)

abbrev address_width : Regs → ℕ
address_width regs = if is_saved_state64 regs then 64 else 32

-- `_store_ymm`, `_store_xmm` or `_store_mmx` by the size, into a union that holds `old`. The VYMM
-- variables are those of optrap.o.
unfoldable pub store_sized : ℕ → ℕ → ℕ → Cpu → ℕ
store_sized size n old cpu =
    if size == 256
    then store_ymm ObjectFile.optrap n old cpu
    else (if size == 128
        then set_low 128 old (store_xmm n (old % 2 ^ 128) cpu)
        else set_low 64 old (store_mmx n (old % 2 ^ 64) cpu))

unfoldable pub get_rexregs : Frame → Cpu → Insn → ℕ → Operands
get_rexregs fr cpu i rm_size =
    let m = mod_of (i.modrm 0) in
    let maddr = vector_address fr cpu.regs i in
    let have = address_width cpu.regs in
    record {
      src =
          if m == 3
          then store_sized (if rm_size == 128 then 128 else 64) (num_src i) fr.src cpu
          else (if rm_size == 128
              then set_low 128 fr.src (window 128 have maddr fr.beyond)
              else set_low 64 fr.src (window 64 have maddr fr.beyond));
      vsrc = fr.vsrc;
      dst = store_sized (if i.reg_size == 128 then 128 else 64) (num_dst i) fr.dst cpu;
      rmaddrs = if m == 3 then 0 else maddr;
    }

unfoldable pub get_vexregs : Frame → Cpu → Insn → ℕ → Operands
get_vexregs fr cpu i rm_size =
    let m = mod_of (i.modrm 0) in
    let maddr = vector_address fr cpu.regs i in
    let have = address_width cpu.regs in
    record {
      src =
          if m == 3
          then store_sized rm_size (num_src i) fr.src cpu
          else (if rm_size == 256
              then window 256 have maddr fr.beyond
              else (if rm_size == 128
                  then set_low 128 fr.src (window 128 have maddr fr.beyond)
                  else (if rm_size == 64 || rm_size == 32
                      then set_low 64 fr.src (window 64 have maddr fr.beyond)
                      else fr.src)));
      vsrc = store_sized i.reg_size i.vexreg fr.vsrc cpu;
      dst = store_sized i.reg_size (num_dst i) fr.dst cpu;
      rmaddrs = if m == 3 then 0 else maddr;
    }
