-- ===== src/Hook/Trap.antt =====
-- The handlers of trap_hook.c that run in place of the kernel's `do_error_trap`.
use opemu_linux.Common.{ℕ, ◌^◌, ◌<◌, ◌≡◌, arith, ◌==◌, if◌then◌else◌, Bool, ◌&&◌}
use opemu_linux.Machine.{Regs, Cpu}
use opemu_linux.Trap.{Emulator, opemu_utrap}
use opemu_linux.Trap.Laws.{opemu_utrap-outcome}

-- The arguments that are only handed on.
pub record TrapArgs : Type 0 where
  pub error_code : ℕ
  pub str : ℕ
  pub trapnr : ℕ
  pub signr : ℕ

unfoldable pub kernel_trap : Cpu → ℕ → Cpu × ℕ
kernel_trap cpu trapnr = (cpu, 0)

unfoldable pub user_trap : Emulator → (ℕ → ℕ) → Cpu → ℕ → Cpu × ℕ
user_trap em memory cpu trapnr =
    if trapnr == 6
    then (let r = opemu_utrap em memory cpu in if r.1 == 0 then (r.0, 0) else (r.0, 1))
    else (cpu, 0)

-- The kernel's test of the mode and its own handler are parameters.
module _ (user_mode : Regs → Bool) (orig_do_error_trap : Cpu → TrapArgs → Cpu) (em : Emulator)
    (memory : ℕ → ℕ) where
  unfoldable pub fh_do_error_trap : Cpu → TrapArgs → Cpu
  unfolding user_trap kernel_trap
  fh_do_error_trap cpu args =
      let r =
        if user_mode cpu.regs
        then user_trap em memory cpu args.trapnr
        else kernel_trap cpu args.trapnr in
      if r.1 == 0 then orig_do_error_trap r.0 args else r.0

  -- The kernel's handler sees every trap that is not an emulated invalid opcode of user code, with
  -- the registers as the trap left them. An emulated one it never sees.
  pub fh_do_error_trap-passes_on :
      (cpu : Cpu) (args : TrapArgs)
      → cpu.regs.ip < 2 ^ 64
      → let e = opemu_utrap em memory cpu in
        fh_do_error_trap cpu args ≡ (
          if user_mode cpu.regs && args.trapnr == 6 && e.1 == 1
          then e.0
          else orig_do_error_trap cpu args)
  unfolding fh_do_error_trap
  fh_do_error_trap-passes_on cpu args h =
      let outcome = opemu_utrap-outcome em memory cpu h in ground arith
