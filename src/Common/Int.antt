-- ===== src/Common/Int.antt =====
-- The signed integers of C: a value, and its `w`-bit pattern in two's complement.
use Prim.Native.Nat.{ℕ, zero, suc, ◌+◌, ◌-◌, ◌*◌, ◌/◌, ◌%◌, ◌^◌, ◌≤◌, ◌<◌}
use mathlib.Core.Path.{◌≡◌, refl, ap, ◌∙◌}
use mathlib.Core.Bool.{Bool, true, false}
use opemu_linux.Common.Tests.{ltb, leb, if◌then◌else◌}
use native.Mathlib.Omega.{arith}
use native.Mathlib.Nat.{one-le-pow, mod-lt, mod-mod, pow-succ', mod-eq_of_lt}

pub data ℤ : Type 0 where
  pos : ℕ → ℤ
  negsuc : ℕ → ℤ

-- The difference of two natural numbers.
abbrev pub diff : ℕ → ℕ → ℤ
diff a b = if leb b a then pos (a - b) else negsuc (b - a - 1)

infixl 65 ◌+ℤ◌ ◌-ℤ◌
abbrev pub ◌+ℤ◌ : ℤ → ℤ → ℤ
pos a +ℤ pos b = pos (a + b)
pos a +ℤ negsuc b = diff a (b + 1)
negsuc a +ℤ pos b = diff b (a + 1)
negsuc a +ℤ negsuc b = negsuc (a + b + 1)

abbrev negℤ : ℤ → ℤ
negℤ (pos a) = diff 0 a
negℤ (negsuc a) = pos (a + 1)

abbrev pub ◌-ℤ◌ : ℤ → ℤ → ℤ
a -ℤ b = a +ℤ negℤ b

infixl 70 ◌*ℤ◌
abbrev pub ◌*ℤ◌ : ℤ → ℤ → ℤ
pos a *ℤ pos b = pos (a * b)
pos a *ℤ negsuc b = diff 0 (a * (b + 1))
negsuc a *ℤ pos b = diff 0 ((a + 1) * b)
negsuc a *ℤ negsuc b = pos ((a + 1) * (b + 1))

-- `a < b`
abbrev pub ltℤ : ℤ → ℤ → Bool
ltℤ (pos a) (pos b) = ltb a b
ltℤ (pos a) (negsuc b) = false
ltℤ (negsuc a) (pos b) = true
ltℤ (negsuc a) (negsuc b) = ltb b a

-- `z >> k` keeps the sign.
abbrev pub shiftℤ : ℕ → ℤ → ℤ
shiftℤ k (pos a) = pos (a / 2 ^ k)
shiftℤ k (negsuc a) = negsuc (a / 2 ^ k)

-- A `w`-bit pattern read as a signed number, and the pattern of a number cut to `w` bits.
abbrev pub signed : ℕ → ℕ → ℤ
signed w x =
    if ltb (x % 2 ^ w) (2 ^ (w - 1)) then pos (x % 2 ^ w) else negsuc (2 ^ w - 1 - x % 2 ^ w)

abbrev pub wrap : ℕ → ℤ → ℕ
wrap w (pos a) = a % 2 ^ w
wrap w (negsuc a) = 2 ^ w - 1 - a % 2 ^ w

-- The macros of optrap.h: ABS, and STSB, STSW, STUB, STUW by their bounds.
abbrev pub absℤ : ℤ → ℤ
absℤ z = if ltℤ z (pos 0) then negℤ z else z

abbrev pub clampℤ : ℤ → ℤ → ℤ → ℤ
clampℤ lo hi x = if ltℤ hi x then hi else if ltℤ x lo then lo else x

-- `lo ≤ z ≤ hi`
abbrev pub Within : ℤ → ℤ → ℤ → Type 0
Within lo hi z = (ltℤ z lo ≡ false) × (ltℤ hi z ≡ false)

mod_reflect : (w r : ℕ) → r < 2 ^ w → (2 ^ w - 1 - r) % 2 ^ w ≡ 2 ^ w - 1 - r
mod_reflect w r h = mod-eq_of_lt (omega arith)

pub wrap-signed : (w x : ℕ) → wrap w (signed w x) ≡ x % 2 ^ w
wrap-signed w x = ground (
  arith,
  one-le-pow w 2,
  mod-lt x (one-le-pow w 2 (omega arith)),
  mod-mod x (2 ^ w),
  mod_reflect w (x % 2 ^ w),
)

pub wrap-lt : (w : ℕ) (z : ℤ) → wrap w z < 2 ^ w
wrap-lt w (pos a) = mod-lt a (one-le-pow w 2 (omega arith))
wrap-lt w (negsuc a) = omega (arith, one-le-pow w 2)

-- Clamping keeps a value in range.
pub clampℤ_id : (lo hi x : ℤ) → Within lo hi x → clampℤ lo hi x ≡ x
clampℤ_id lo hi x h = rw (h.1, h.0) refl

half_word : (w : ℕ) → 1 ≤ w → 2 ^ w ≡ 2 * 2 ^ (w - 1)
half_word (suc w) h = pow-succ' 2 w ∙ ap (λ (k : ℕ). 2 * 2 ^ k) (omega arith)
half_word zero h = absurd (omega arith)

-- A number in the range of a signed type is read back from its pattern.
pub signed-wrap :
    (w : ℕ) (z : ℤ)
    → 1 ≤ w
    → Within (negsuc (2 ^ (w - 1) - 1)) (pos (2 ^ (w - 1) - 1)) z
    → signed w (wrap w z) ≡ z
signed-wrap w (pos a) h r =
    let double = half_word w h in
    let small : a % 2 ^ w ≡ a = mod-eq_of_lt (ground (arith, one-le-pow (w - 1) 2)) in
    ground (arith, mod-mod a (2 ^ w), one-le-pow (w - 1) 2)
signed-wrap w (negsuc a) h r =
    let double = half_word w h in
    let small : a % 2 ^ w ≡ a = mod-eq_of_lt (ground (arith, one-le-pow (w - 1) 2)) in
    ground (arith, mod_reflect w a, one-le-pow (w - 1) 2)

-- What a pattern is read as lies in the range of the signed type.
pub signed-Within :
    (w x : ℕ) → 1 ≤ w → Within (negsuc (2 ^ (w - 1) - 1)) (pos (2 ^ (w - 1) - 1)) (signed w x)
signed-Within w x h =
    ground (arith, half_word w h, one-le-pow (w - 1) 2, mod-lt x (one-le-pow w 2 (omega arith)))
