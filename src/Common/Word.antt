-- ===== src/Common/Word.antt =====
-- Machine words are native numbers. `trunc w` is the conversion to an unsigned type of `w` bits.
use Prim.Native.Nat.{ℕ, ◌+◌, ◌-◌, ◌*◌, ◌/◌, ◌%◌, ◌^◌}
use opemu_linux.Common.Tests.{ltb, if◌then◌else◌}

abbrev pub trunc : ℕ → ℕ → ℕ
trunc w x = x % 2 ^ w

-- `~x` of a `w`-bit word.
abbrev pub compl : ℕ → ℕ → ℕ
compl w x = 2 ^ w - 1 - x % 2 ^ w

-- `-x` of a `w`-bit word.
abbrev pub neg : ℕ → ℕ → ℕ
neg w x = (2 ^ w - x % 2 ^ w) % 2 ^ w

-- `x - 1` of a `w`-bit word.
abbrev pub dec : ℕ → ℕ → ℕ
dec w x = (x + 2 ^ w - 1) % 2 ^ w

-- A `v`-bit pattern read as signed and extended to `w` bits.
abbrev pub sign_extend : ℕ → ℕ → ℕ → ℕ
sign_extend v w x = if ltb (x % 2 ^ v) (2 ^ (v - 1)) then x % 2 ^ v else x % 2 ^ v + 2 ^ w - 2 ^ v

-- `x >> k` and `x << k` before any truncation.
infixl 75 ◌>>>◌ ◌<<<◌
abbrev pub ◌>>>◌ : ℕ → ℕ → ℕ
x >>> k = x / 2 ^ k

abbrev pub ◌<<<◌ : ℕ → ℕ → ℕ
x <<< k = x * 2 ^ k
