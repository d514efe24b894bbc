-- ===== src/Simd/Contract.antt =====
-- Every switch of a vector handler keeps the contract of the handlers.
use opemu_linux.Common.{ℕ, ◌+◌, ◌<◌, ◌≤◌, arith, trunc, Bool, List, Option, none, some}
use opemu_linux.Machine.{Cpu, ObjectFile}
use opemu_linux.Decode.Length.{get_consumed, get_consumed_bounds}
use opemu_linux.Decode.Rex.{Insn}
use opemu_linux.Handler.{IsResult}
use opemu_linux.Simd.{Case, run_switch, by_size}
use opemu_linux.Simd.Laws.{has_opcode, chosen, outcome, perform-ip, perform-cs, run_switch-chosen}

outcome-IsResult :
    (o : ObjectFile) (cpu : Cpu) (size : ℕ) (known : Bool) (choice : Option Case)
    → 1 ≤ size
    → size < 255
    → IsResult cpu (outcome o cpu size known choice)
outcome-IsResult o cpu size known none lo hi = ground arith
outcome-IsResult o cpu size known (some c) lo hi =
    ground (arith, perform-ip o c.write cpu, perform-cs o c.write cpu)

pub run_switch-IsResult :
    (o : ObjectFile) (cpu : Cpu) (i : Insn) (cs : List Case)
    → i.ins_size < 6
    → IsResult cpu (run_switch o cpu i cs)
run_switch-IsResult o cpu i cs h =
    let bounds = get_consumed_bounds i.modrm in
    rw (run_switch-chosen o cpu i cs) (
      outcome-IsResult o cpu (trunc 8 (i.ins_size + get_consumed i.modrm)) (has_opcode i.opcode cs)
        (chosen i cs) (ground arith) (ground arith))

pub by_size-IsResult :
    (o : ObjectFile) (cpu : Cpu) (i : Insn) (xmm_cases ymm_cases : List Case)
    → i.ins_size < 6
    → IsResult cpu (by_size o cpu i xmm_cases ymm_cases)
unfolding by_size
by_size-IsResult o cpu i xmm_cases ymm_cases h =
    ground (arith, run_switch-IsResult o cpu i xmm_cases h, run_switch-IsResult o cpu i ymm_cases h)
