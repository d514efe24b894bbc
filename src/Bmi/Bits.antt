-- ===== src/Bmi/Bits.antt =====
-- What `blsr`, `blsmsk`, `blsi`, `andn`, `bzhi` and `bextr` compute, at every width.
use opemu_linux.Common.{
  ℕ, zero, suc, ◌+◌, ◌-◌, ◌*◌, ◌/◌, ◌%◌, ◌^◌, ◌≤◌, ◌<◌, ◌≡◌, ap, ◌∙◌, arith, lt_wf, ◌==◌,
}
use opemu_linux.Common.{compl, neg, dec, bit_and, bit_xor, ltb, if◌then◌else◌}
use opemu_linux.Common.Bits.Step.{bit_and_step, bit_xor_step}
use opemu_linux.Common.Bits.Digit.{bit-compl, bit, bit-lt, bit-bit_and}
use opemu_linux.Common.Bits.Laws.{
  bit_and_mask, bit_and-zero, bit_and_self, bit_xor-zero, bit_xor_self,
}
use opemu_linux.Bmi.Words.{andn, blsr, blsmsk, blsi, bextr, bzhi}
use mathlib.Core.WellFounded
use native.Mathlib.Decide.{dec_lt}
use native.Mathlib.Nat.{
  mul-div_cancel, mul-mod_left, pow-succ', one-le-pow, mod-eq_of_lt, pow-le-pow_right,
}

-- A positive number is an odd number with zeros behind it; these are its parts one step down.
module _ (k q : ℕ) where
  odd_shift : (2 * q + 1) * 2 ^ suc k ≡ 2 * ((2 * q + 1) * 2 ^ k)
  odd_shift = omega (arith, ap (λ (t : ℕ). (2 * q + 1) * t) (pow-succ' 2 k))

  odd_pos : 1 ≤ (2 * q + 1) * 2 ^ k
  odd_pos = grind (arith, one-le-pow k 2)

-- `y - 1` and `y` share the digits above the lowest 1 of `y`.
and_pred : (k q : ℕ) → let y = (2 * q + 1) * 2 ^ k in bit_and (y - 1) y ≡ 2 * q * 2 ^ k
and_pred zero q =
    ground (arith, bit_and_step ((2 * q + 1) * 2 ^ 0 - 1) ((2 * q + 1) * 2 ^ 0), bit_and_self q)
and_pred (suc k) q = rw (odd_shift k q) (
    ground (
      arith,
      bit_and_step (2 * ((2 * q + 1) * 2 ^ k) - 1) (2 * ((2 * q + 1) * 2 ^ k)),
      and_pred k q,
      odd_pos k q,
      ap (λ (t : ℕ). 2 * q * t) (pow-succ' 2 k),
    ))

-- They differ from the lowest 1 down.
xor_pred : (k q : ℕ) → let y = (2 * q + 1) * 2 ^ k in bit_xor (y - 1) y ≡ 2 ^ suc k - 1
xor_pred zero q =
    ground (arith, bit_xor_step ((2 * q + 1) * 2 ^ 0 - 1) ((2 * q + 1) * 2 ^ 0), bit_xor_self q)
xor_pred (suc k) q = rw (odd_shift k q) (
    ground (
      arith,
      bit_xor_step (2 * ((2 * q + 1) * 2 ^ k) - 1) (2 * ((2 * q + 1) * 2 ^ k)),
      xor_pred k q,
      odd_pos k q,
      pow-succ' 2 (suc k),
      one-le-pow (suc k) 2,
    ))

compl_disjoint : (w q : ℕ) → q < 2 ^ w → bit_and (2 ^ w - 1 - q) q ≡ 0
compl_disjoint zero q h = ground (arith, bit_and-zero (2 ^ 0 - 1 - q))
compl_disjoint (suc w) q h =
    ground (arith, bit_and_step (2 ^ suc w - 1 - q) q, compl_disjoint w (q / 2), pow-succ' 2 w)

-- `-y` and `y` share the lowest 1 of `y` alone.
and_neg : (w k q : ℕ) → let y = (2 * q + 1) * 2 ^ k in y < 2 ^ w → bit_and (2 ^ w - y) y ≡ 2 ^ k
and_neg zero k q h = absurd (omega (arith, odd_pos k q))
and_neg (suc w) zero q h = ground (
  arith,
  bit_and_step (2 ^ suc w - (2 * q + 1) * 2 ^ 0) ((2 * q + 1) * 2 ^ 0),
  compl_disjoint w q,
  pow-succ' 2 w,
)
and_neg (suc w) (suc k) q h =
    let h' : 2 * ((2 * q + 1) * 2 ^ k) < 2 ^ suc w = rw (odd_shift k q) at h in
    rw (odd_shift k q) (
      ground (
        arith,
        bit_and_step (2 ^ suc w - 2 * ((2 * q + 1) * 2 ^ k)) (2 * ((2 * q + 1) * 2 ^ k)),
        and_neg w k q,
        pow-succ' 2 w,
        pow-succ' 2 k,
      ))

-- `(1 << k) - 1` does not wrap.
dec_pow : (w k : ℕ) → k < w → dec w (2 ^ k) ≡ 2 ^ k - 1
dec_pow w k h =
    let fits : 2 ^ suc k ≤ 2 ^ w = pow-le-pow_right (omega arith) h in
    grind (arith, one-le-pow k 2, pow-succ' 2 k)

module _ (w k q : ℕ) (fits : (2 * q + 1) * 2 ^ k < 2 ^ w) where
  dec-eq : dec w ((2 * q + 1) * 2 ^ k) ≡ (2 * q + 1) * 2 ^ k - 1
  dec-eq = grind (arith, odd_pos k q)

  neg-eq : neg w ((2 * q + 1) * 2 ^ k) ≡ 2 ^ w - (2 * q + 1) * 2 ^ k
  neg-eq = grind (arith, odd_pos k q)

  -- `blsr` clears the lowest 1 and nothing else.
  blsr-lowest : blsr w ((2 * q + 1) * 2 ^ k) ≡ 2 * q * 2 ^ k
  unfolding blsr
  blsr-lowest = rw dec-eq (and_pred k q)

  -- `blsmsk` has ones up to the lowest 1.
  blsmsk-lowest : blsmsk w ((2 * q + 1) * 2 ^ k) ≡ 2 ^ suc k - 1
  unfolding blsmsk
  blsmsk-lowest = rw dec-eq (xor_pred k q)

  -- `blsi` keeps the lowest 1 alone.
  blsi-lowest : blsi w ((2 * q + 1) * 2 ^ k) ≡ 2 ^ k
  unfolding blsi
  blsi-lowest = rw neg-eq (and_neg w k q fits)

  -- The lowest 1 and the rest make the word.
  blsi-add-blsr : blsi w ((2 * q + 1) * 2 ^ k) + blsr w ((2 * q + 1) * 2 ^ k) ≡ (2 * q + 1) * 2 ^ k
  blsi-add-blsr = rw (blsi-lowest, blsr-lowest) (grind arith)

-- Every positive number has a lowest 1.
lowest_one : (x : ℕ) → 0 < x → (k : ℕ) × (q : ℕ) × (x ≡ (2 * q + 1) * 2 ^ k)
lowest_one x = WellFounded.induction lt_wf {C = λ x. 0 < x → Shape x} x step
  where
    Shape : ℕ → Type 0
    Shape x = (k : ℕ) × (q : ℕ) × (x ≡ (2 * q + 1) * 2 ^ k)

    step : (x : ℕ) → ((m : ℕ) → m < x → 0 < m → Shape m) → 0 < x → Shape x
    step x ih pos = elim (dec_lt 0 (x % 2)) [
      | yes odd ↦ (0, x / 2, omega arith)
      | no even ↦
          let (k, q, e) = ih (x / 2) (omega arith) (omega arith) in
          (suc k, q, omega (arith, odd_shift k q))
    ]

-- At 0 the wrap-around shows: nothing to clear, all ones, nothing to keep.
lowest-zero : (w : ℕ) → (blsr w 0 ≡ 0) × (blsmsk w 0 ≡ 2 ^ w - 1) × (blsi w 0 ≡ 0)
unfolding blsr blsmsk blsi
lowest-zero w = (
  bit_and-zero (dec w 0),
  ground (arith, bit_xor-zero (dec w 0), mod-eq_of_lt {n = 2 ^ w - 1} {m = 2 ^ w}, one-le-pow w 2),
  bit_and-zero (neg w 0),
)

-- Every word that is not 0 has a lowest 1, at some place k with only 0 below it, and `blsi` gives that
-- 1 alone, `blsr` the word without it, and `blsmsk` ones up to and including its place.
pub bls-lowest :
    (w x : ℕ)
    → 0 < x
    → x < 2 ^ w
    → (k : ℕ) × (x / 2 ^ k % 2 ≡ 1)
      × (x % 2 ^ k ≡ 0)
      × (blsi w x ≡ 2 ^ k)
      × (blsr w x + 2 ^ k ≡ x)
      × (blsmsk w x ≡ 2 ^ (k + 1) - 1)
bls-lowest w x pos fits =
    let (k, q, e) = lowest_one x pos in
    let below : (2 * q + 1) * 2 ^ k < 2 ^ w = ground arith in
    (
      k,
      rw e (
          ap (λ y. y % 2) (mul-div_cancel (2 * q + 1) (one-le-pow k 2 (omega arith)))
          ∙ omega arith),
      rw e (mul-mod_left (2 * q + 1) (2 ^ k)),
      rw e (blsi-lowest w k q below),
      rw e (rw (blsr-lowest w k q below) (grind arith)),
      rw e (blsmsk-lowest w k q below ∙ ap (λ (j : ℕ). 2 ^ j - 1) (omega arith)),
    )

-- Bit by bit, `andn` is the second word where the first has a 0.
bit-andn :
    (w i a b : ℕ) → a < 2 ^ w → i < w → bit i (andn w a b) ≡ (if bit i a == 1 then 0 else bit i b)
unfolding andn
bit-andn w i a b h p = ground (
  arith,
  bit-bit_and i (compl w a) b,
  bit-compl w i a,
  mod-eq_of_lt {n = a} {m = 2 ^ w},
  bit-lt i b,
  bit-lt i a,
)

-- `bzhi` keeps the low `index` bits, and all of them when `index` is out of range.
bzhi-eq-mod : (w index src : ℕ) → bzhi w index src ≡ (if ltb index w then src % 2 ^ index else src)
unfolding bzhi
bzhi-eq-mod w index src = ground (arith, dec_pow w index, bit_and_mask index src)

-- `bextr` cuts out one bit more than `len`: the field of `len + 1` bits from `start` on.
bextr-eq-field :
    (w start len src : ℕ) (wide : ℕ → ℕ)
    → start < w
    → len + 1 < w
    → bextr w wide start len src ≡ src / 2 ^ start % 2 ^ (len + 1)
unfolding bextr
bextr-eq-field w start len src wide h k =
    ground (arith, dec_pow w (len + 1), bit_and_mask (len + 1) (src / 2 ^ start))
