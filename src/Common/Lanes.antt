-- ===== src/Common/Lanes.antt =====
-- The views of a union: lane `i` of `w` bits of a number, and the number that lanes make.
use opemu_linux.Common.{ℕ, zero, suc, ◌+◌, ◌*◌, ◌/◌, ◌%◌, ◌^◌, ◌<◌, ◌≡◌, refl, sym, ap, ◌∙◌, arith}
use opemu_linux.Common.{List, [], ◌∷◌, length, get_or, ltb, if◌then◌else◌}
use opemu_linux.Common.{bit_xor}
use opemu_linux.Common.Bits.Laws.{bit_xor-mod, bit_xor-div}
use native.Mathlib.Nat.{
  one-le-pow, pow-succ', zero-mod, zero-div, mul-add-mod_self_left, mul-add-div, mod-lt, mod-mod,
  div-eq_of_lt, div-lt_iff_lt-mul, div-add-mod, pow-zero, pow-suc, mul-suc, mul-le-mul_left,
}

unfoldable pub lane : ℕ → ℕ → ℕ → ℕ
lane w zero x = x % 2 ^ w
lane w (suc i) x = lane w i (x / 2 ^ w)

unfoldable pub pack : ℕ → List ℕ → ℕ
pack w [] = 0
pack w (x ∷ xs) = 2 ^ w * pack w xs + x % 2 ^ w

unfoldable pub tabulate : ℕ → (ℕ → ℕ) → List ℕ
tabulate zero f = []
tabulate (suc n) f = f 0 ∷ tabulate n (λ i. f (suc i))

pub get_or-tabulate :
    (n i : ℕ) (f : ℕ → ℕ) → get_or (tabulate n f) i 0 ≡ (if ltb i n then f i else 0)
unfolding tabulate
get_or-tabulate zero i f = ground arith
get_or-tabulate (suc n) zero f = ground arith
get_or-tabulate (suc n) (suc i) f = ground (arith, get_or-tabulate n i (λ j. f (suc j)))

length-tabulate : (n : ℕ) (f : ℕ → ℕ) → length (tabulate n f) ≡ n
unfolding tabulate
length-tabulate zero f = refl
length-tabulate (suc n) f = ap suc (length-tabulate n (λ i. f (suc i)))

lane-zero : (w i : ℕ) → lane w i 0 ≡ 0
unfolding lane
lane-zero w zero = zero-mod (2 ^ w)
lane-zero w (suc i) = rw zero-div (lane-zero w i)

pub lane-lt : (w i x : ℕ) → lane w i x < 2 ^ w
unfolding lane
lane-lt w zero x = mod-lt x (one-le-pow w 2 (omega arith))
lane-lt w (suc i) x = lane-lt w i (x / 2 ^ w)

module _ (w r q : ℕ) where
  pack_mod : (2 ^ w * q + r % 2 ^ w) % 2 ^ w ≡ r % 2 ^ w
  pack_mod = mul-add-mod_self_left (2 ^ w) q (r % 2 ^ w) ∙ mod-mod r (2 ^ w)

  pack_div : (2 ^ w * q + r % 2 ^ w) / 2 ^ w ≡ q
  pack_div = grind (arith, mul-add-div, div-eq_of_lt, mod-lt, one-le-pow w 2)

-- What was stored in a lane is read from it, cut to the lane's width.
pub lane-pack : (w i : ℕ) (xs : List ℕ) → lane w i (pack w xs) ≡ get_or xs i 0 % 2 ^ w
unfolding lane pack
lane-pack w i [] = rw zero-mod (lane-zero w i)
lane-pack w zero (x ∷ xs) = pack_mod w x (pack w xs)
lane-pack w (suc i) (x ∷ xs) = rw pack_div (lane-pack w i xs)

-- A loop over the lanes of a result.
pub lane-tabulate : (w n i : ℕ) (f : ℕ → ℕ) → i < n → lane w i (pack w (tabulate n f)) ≡ f i % 2 ^ w
lane-tabulate w n i f h = ground (arith, lane-pack w i (tabulate n f), get_or-tabulate n i f)

pub pack-lt : (w : ℕ) (xs : List ℕ) → pack w xs < (2 ^ w) ^ length xs
unfolding pack
pack-lt w [] = omega (arith, pow-zero (2 ^ w))
pack-lt w (x ∷ xs) = omega (
  arith,
  pow-succ' (2 ^ w) (length xs),
  mul-le-mul_left (2 ^ w) (pack-lt w xs),
  mod-lt x (one-le-pow w 2 (omega arith)),
  mul-suc (2 ^ w) (pack w xs),
)

pub pack-tabulate-lt : (w n : ℕ) (f : ℕ → ℕ) → pack w (tabulate n f) < (2 ^ w) ^ n
pack-tabulate-lt w n f = rw (length-tabulate n f) at (pack-lt w (tabulate n f))

-- Two words of `n` lanes with the same lanes are the same.
pub lane_ext :
    (w n x y : ℕ)
    → x < (2 ^ w) ^ n
    → y < (2 ^ w) ^ n
    → ((i : ℕ) → i < n → lane w i x ≡ lane w i y)
    → x ≡ y
unfolding lane
lane_ext w zero x y hx hy h = omega (arith, pow-zero (2 ^ w))
lane_ext w (suc n) x y hx hy h =
    let below = λ (z : ℕ) (hz : z < (2 ^ w) ^ suc n).
      (div-lt_iff_lt-mul (one-le-pow w 2 (omega arith))).1 (rw pow-suc at hz) in
    let rest : x / 2 ^ w ≡ y / 2 ^ w =
      lane_ext w n (x / 2 ^ w) (y / 2 ^ w) (below x hx) (below y hy)
        (λ i p. h (suc i) (omega arith)) in
    sym (div-add-mod x (2 ^ w)) ∙ rw (rest, h 0 (omega arith)) (div-add-mod y (2 ^ w))

pub lane-bit_xor : (w i x y : ℕ) → lane w i (bit_xor x y) ≡ bit_xor (lane w i x) (lane w i y)
unfolding lane
lane-bit_xor w zero x y = bit_xor-mod w x y
lane-bit_xor w (suc i) x y = rw bit_xor-div (lane-bit_xor w i (x / 2 ^ w) (y / 2 ^ w))
