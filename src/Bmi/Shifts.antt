-- ===== src/Bmi/Shifts.antt =====
-- `shlx`, `shrx`, `sarx`, `mulx` and `rorx`.
use opemu_linux.Common.{ℕ, ◌+◌, ◌-◌, ◌*◌, ◌/◌, ◌%◌, ◌^◌, ◌<◌, ◌≡◌, refl, arith, ltb, if◌then◌else◌}
use opemu_linux.Common.Bits.Laws.{bit_and_mask}
use opemu_linux.Bmi.Words.{rorx, shlx, shrx, sarx}
use opemu_linux.Bmi.Ops64.{mulx64}
use native.Mathlib.Nat.{mul-le-mul_left, mul-le-mul_right}

-- The shifts multiply and divide by a power of two; the count is taken modulo the width, and a
-- negative word is filled with ones from the left.
shifts64 :
    (src count : ℕ)
    → src < 2 ^ 64
    → (shlx 64 src count ≡ src * 2 ^ (count % 64) % 2 ^ 64)
      × (shrx 64 src count ≡ src / 2 ^ (count % 64))
      × (sarx 64 src count ≡ (
          if ltb src (2 ^ 63)
          then src / 2 ^ (count % 64)
          else (src + 2 ^ 128 - 2 ^ 64) / 2 ^ (count % 64) % 2 ^ 64))
unfolding shlx shrx sarx
shifts64 src count h = ground (arith, bit_and_mask 6 count)

product-lt : (p a b : ℕ) → a < p → b < p → a * b < p * p
product-lt p a b ha hb = grind (arith, mul-le-mul_left, mul-le-mul_right)

-- The two results of the multiplication make the whole product.
mulx64-product :
    (src res dres dx : ℕ)
    → src < 2 ^ 64
    → dx < 2 ^ 64
    → let r = mulx64 src res dres dx 64 in
      (r.0 * 2 ^ 64 + r.1 ≡ dx * src) × (r.0 < 2 ^ 64) × (r.1 < 2 ^ 64)
unfolding mulx64
mulx64-product src res dres dx hs hd = omega (arith, product-lt (2 ^ 64) dx src hd hs)

-- `rorx` gives its source back unrotated, for every count.
rorx-eq-src : (w : ℕ) (wide : ℕ → ℕ) (src imm : ℕ) → rorx w wide src imm ≡ src
unfolding rorx
rorx-eq-src w wide src imm = refl
