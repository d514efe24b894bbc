-- ===== src/Machine/Laws.antt =====
-- Reading a register after a write, for every register file.
use opemu_linux.Common.{ℕ, ◌+◌, ◌*◌, ◌/◌, ◌%◌, ◌^◌, ◌<◌, ◌≡◌, arith, not, trunc}
use opemu_linux.Common.{ltb, ◌==◌, if◌then◌else◌}
use opemu_linux.Common.Bits.Laws.{bit_and_pow}
use opemu_linux.Common.Bits.Digit.{bit-lt}
use opemu_linux.Machine.{Regs, Cpu, ObjectFile, place, is_saved_state64, is_saved_state32}
use opemu_linux.Machine.{store_m64, load_m64, store_m32, load_m32, store_ymm, load_ymm}

-- Exactly one of the two modes holds, whatever the code segment.
pub is_saved_state-not : (regs : Regs) → is_saved_state32 regs ≡ not (is_saved_state64 regs)
unfolding is_saved_state32 is_saved_state64
is_saved_state-not regs =
    ground (arith, bit_and_pow 4 (trunc 16 regs.cs), bit-lt 4 (trunc 16 regs.cs))

-- A 64-bit register that was written is read back, and the others keep their values.
pub store_m64-load_m64 :
    (n m v : ℕ) (regs : Regs)
    → n < 16
    → store_m64 m (load_m64 n v regs) ≡ (if m == n then v else store_m64 m regs)
unfolding store_m64 load_m64
store_m64-load_m64 n m v regs h = ground arith

-- In 32-bit mode only the first eight registers exist: a write to another one is dropped.
store_m32-load_m32 :
    (n m v : ℕ) (regs : Regs)
    → store_m32 m (load_m32 n v regs)
      ≡ (if ltb n 8 then (if m == n then trunc 32 v else store_m32 m regs) else store_m32 m regs)
unfolding store_m32 load_m32
store_m32-load_m32 n m v regs = ground arith

-- A 256-bit register that an object wrote is read back whole by that object, from its two halves in two
-- places; for another object the low half alone is changed. The other registers keep their values.
pub store_ymm-load_ymm :
    (o p : ObjectFile) (n m v old : ℕ) (cpu : Cpu)
    → n < 16
    → store_ymm p m old (load_ymm o n v cpu) ≡ (
        if m == n
        then (if place p == place o then v else cpu.vymm p n / 2 ^ 128 * 2 ^ 128 + v % 2 ^ 128)
        else store_ymm p m old cpu)
unfolding store_ymm load_ymm
store_ymm-load_ymm o p n m v old cpu h = ground arith
