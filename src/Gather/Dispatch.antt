-- ===== src/Gather/Dispatch.antt =====
-- `vgather_instruction` of vgather.c.
use opemu_linux.Common.{ℕ, ◌+◌, ◌%◌, ◌^◌, List, [], ◌∷◌, trunc, bit_and, ◌>>>◌, ◌==◌, if◌then◌else◌}
use opemu_linux.Machine.{Cpu, store_xmm, store_ymm, ObjectFile}
use opemu_linux.Decode.Length.{get_consumed}
use opemu_linux.Decode.Rex.{Insn}
use opemu_linux.Address.{vmaddrs}
use opemu_linux.Operand.{Frame, num_dst}
use opemu_linux.Handler.{Handler, IsHandler}
use opemu_linux.Simd.{Write, Case, case_38, run_switch}
use opemu_linux.Simd.Contract.{run_switch-IsResult}
use opemu_linux.Gather.Lanes.{
  vpgatherdq, vpgatherdd, vpgatherqq, vpgatherqd128, vpgatherqd256, vgatherdpd, vgatherdps,
  vgatherqpd, vgatherqps128, vgatherqps256,
}

-- The index register: that of the SIB byte, with the extension bit.
unfoldable pub vindex_of : Insn → ℕ
vindex_of i = bit_and (i.modrm 1 >>> 3) 0x7 + (if i.high_index == 0 then 0 else 8)

-- The address of an element. `ins_size` has the operand's bytes by then.
unfoldable pub data_addr : Cpu → Insn → ℕ → ℕ
data_addr cpu i vaddr =
    vmaddrs cpu.regs i.modrm i.high_base vaddr (trunc 8 (i.ins_size + get_consumed i.modrm))

unfoldable pub vgather_cases : Frame → Cpu → Insn → List Case
unfolding vindex_of data_addr
vgather_cases fr cpu i =
    let addr = data_addr cpu i in
    let xvsrc = store_xmm i.vexreg (fr.vsrc % 2 ^ 128) cpu in
    let yvsrc = store_ymm ObjectFile.vgather i.vexreg fr.vsrc cpu in
    let xindex = store_xmm (vindex_of i) (fr.src % 2 ^ 128) cpu in
    let yindex = store_ymm ObjectFile.vgather (vindex_of i) fr.src cpu in
    let to_xmm = Write.to_xmm (num_dst i) in
    let to_ymm = Write.to_ymm (num_dst i) in
    case_38 0x90 (
      if i.operand_size == 64
      then (if i.reg_size == 128
          then to_xmm (vpgatherdq addr 2 xvsrc xindex)
          else to_ymm (vpgatherdq addr 4 yvsrc xindex))
      else (if i.reg_size == 128
          then to_xmm (vpgatherdd addr 4 xvsrc xindex)
          else to_ymm (vpgatherdd addr 8 yvsrc yindex)))
    ∷ case_38 0x91 (
        if i.operand_size == 64
        then (if i.reg_size == 128
            then to_xmm (vpgatherqq addr 2 xvsrc xindex)
            else to_ymm (vpgatherqq addr 4 yvsrc yindex))
        else (if i.reg_size == 128
            then to_xmm (vpgatherqd128 addr xvsrc xindex fr.res)
            else to_xmm (vpgatherqd256 addr xvsrc yindex)))
    ∷ case_38 0x92 (
        if i.operand_size == 64
        then (if i.reg_size == 128
            then to_xmm (vgatherdpd addr 2 xvsrc xindex)
            else to_ymm (vgatherdpd addr 4 yvsrc xindex))
        else (if i.reg_size == 128
            then to_xmm (vgatherdps addr 4 xvsrc xindex)
            else to_ymm (vgatherdps addr 8 yvsrc yindex)))
    ∷ case_38 0x93 (
        if i.operand_size == 64
        then (if i.reg_size == 128
            then to_xmm (vgatherqpd addr 2 xvsrc xindex)
            else to_ymm (vgatherqpd addr 4 yvsrc yindex))
        else (if i.reg_size == 128
            then to_xmm (vgatherqps128 addr xvsrc xindex fr.res)
            else to_xmm (vgatherqps256 addr xvsrc yindex)))
    ∷ []

unfoldable pub vgather_instruction : Frame → Handler
unfolding run_switch vgather_cases
vgather_instruction fr cpu i = run_switch ObjectFile.vgather cpu i (vgather_cases fr cpu i)

pub vgather_instruction-IsHandler : (fr : Frame) → IsHandler (vgather_instruction fr)
unfolding vgather_instruction
vgather_instruction-IsHandler fr cpu i h =
    run_switch-IsResult ObjectFile.vgather cpu i (vgather_cases fr cpu i) h
