-- ===== src/Machine/Copies.antt =====
-- The VYMM variables of optrap.o, the copy that `get_vexregs` reads.
use opemu_linux.Common.{ℕ, ◌≡◌, ◌==◌, arith, false}
use opemu_linux.Machine.{Cpu, ObjectFile, place, load_xmm, load_ymm}

-- It holds what it held when the module was loaded.
pub record IsUntouched (cpu : Cpu) : Type 0 where
  pub still_zero : (n : ℕ) → cpu.vymm ObjectFile.optrap n ≡ 0

pub load_xmm-IsUntouched : (n v : ℕ) (cpu : Cpu) → IsUntouched cpu → IsUntouched (load_xmm n v cpu)
unfolding load_xmm
load_xmm-IsUntouched n v cpu is = record { still_zero = λ m. ground (arith, is.still_zero m) }

-- A write by another object goes to that object's copy.
pub load_ymm-IsUntouched :
    (o : ObjectFile)
    → (place ObjectFile.optrap == place o) ≡ false
    → (n v : ℕ) (cpu : Cpu) → IsUntouched cpu
    → IsUntouched (load_ymm o n v cpu)
unfolding load_ymm
load_ymm-IsUntouched o other n v cpu is = record {
  still_zero = λ m. ground (arith, is.still_zero m);
}
