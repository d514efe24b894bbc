-- ===== src/Simd/Copies.antt =====
-- No switch of a vector handler writes to the VYMM variables of optrap.o.
use opemu_linux.Common.{
  ℕ, zero, suc, ◌≡◌, Option, none, some, Bool, true, false, List, ◌==◌, if◌then◌else◌, ◌%◌, ◌^◌,
}
use opemu_linux.Machine.{Regs, Cpu, ObjectFile, place, store_ymm}
use opemu_linux.Machine.Copies.{IsUntouched, load_xmm-IsUntouched, load_ymm-IsUntouched}
use opemu_linux.Decode.Rex.{Insn}
use opemu_linux.Simd.{Write, Case, perform, update_ymms, run_switch, by_size}
use opemu_linux.Simd.Laws.{chosen, outcome, run_switch-chosen}

with_regs-IsUntouched :
    (cpu : Cpu) (regs : Regs) → IsUntouched cpu → IsUntouched (record cpu { regs = regs })
with_regs-IsUntouched cpu regs is = record { still_zero = is.still_zero }

module _ (o : ObjectFile) (other : (place ObjectFile.optrap == place o) ≡ false) where
  update_ymms-IsUntouched :
      (n : ℕ) (f : ℕ → ℕ) (cpu : Cpu) → IsUntouched cpu → IsUntouched (update_ymms o n f cpu)
  unfolding update_ymms
  update_ymms-IsUntouched zero f cpu is = is
  update_ymms-IsUntouched (suc n) f cpu is =
      let rest = update_ymms o n f cpu in
      load_ymm-IsUntouched o other n (f (store_ymm o n 0 rest) % 2 ^ 256) rest
        (update_ymms-IsUntouched n f cpu is)

  perform-IsUntouched : (w : Write) (cpu : Cpu) → IsUntouched cpu → IsUntouched (perform o w cpu)
  unfolding perform
  perform-IsUntouched (Write.to_xmm n v) cpu is = load_xmm-IsUntouched n (v % 2 ^ 128) cpu is
  perform-IsUntouched (Write.to_ymm n v) cpu is =
      load_ymm-IsUntouched o other n (v % 2 ^ 256) cpu is
  perform-IsUntouched (Write.to_memory v) cpu is = is
  perform-IsUntouched (Write.to_m64 n v) cpu is = with_regs-IsUntouched cpu _ is
  perform-IsUntouched (Write.to_m32 n v) cpu is = with_regs-IsUntouched cpu _ is
  perform-IsUntouched (Write.to_flags v) cpu is = with_regs-IsUntouched cpu _ is
  perform-IsUntouched Write.nothing cpu is = is
  perform-IsUntouched (Write.to_count n v) cpu is = with_regs-IsUntouched cpu _ is
  perform-IsUntouched (Write.to_mask n v) cpu is =
      load_xmm-IsUntouched 0 (n % 2 ^ 128) _ (with_regs-IsUntouched cpu _ is)
  perform-IsUntouched (Write.both v w) cpu is =
      perform-IsUntouched w (perform o v cpu) (perform-IsUntouched v cpu is)
  perform-IsUntouched (Write.each_ymm n f) cpu is = update_ymms-IsUntouched n f cpu is

  outcome-IsUntouched :
      (cpu : Cpu) (size : ℕ) (known : Bool) (choice : Option Case)
      → IsUntouched cpu
      → IsUntouched (outcome o cpu size known choice).0
  outcome-IsUntouched cpu size known none is = is
  outcome-IsUntouched cpu size known (some c) is = perform-IsUntouched c.write cpu is

  pub run_switch-IsUntouched :
      (cpu : Cpu) (i : Insn) (cs : List Case)
      → IsUntouched cpu
      → IsUntouched (run_switch o cpu i cs).0
  run_switch-IsUntouched cpu i cs is =
      rw (run_switch-chosen o cpu i cs) (outcome-IsUntouched cpu _ _ (chosen i cs) is)

  pub by_size-IsUntouched :
      (cpu : Cpu) (i : Insn) (xmm_cases ymm_cases : List Case)
      → IsUntouched cpu
      → IsUntouched (by_size o cpu i xmm_cases ymm_cases).0
  unfolding by_size
  by_size-IsUntouched cpu i xmm_cases ymm_cases is =
      branch (i.reg_size == 128) (i.reg_size == 256) _ _ (run_switch-IsUntouched cpu i xmm_cases is)
        (run_switch-IsUntouched cpu i ymm_cases is)
    where
      branch :
          (b c : Bool) (r s : Cpu × ℕ)
          → IsUntouched r.0
          → IsUntouched s.0
          → IsUntouched (if b then r else (if c then s else (cpu, 0))).0
      branch true c r s hr hs = hr
      branch false true r s hr hs = hs
      branch false false r s hr hs = is
