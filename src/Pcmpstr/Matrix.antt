-- ===== src/Pcmpstr/Matrix.antt =====
-- The digits that the loops over the matrix set.
use opemu_linux.Common.{
  ℕ, zero, suc, ◌+◌, ◌-◌, ◌*◌, ◌/◌, ◌%◌, ◌^◌, ◌<◌, ◌≤◌, ◌≡◌, arith, ap, ◌∙◌, Bool, true, false,
  ◌&&◌, ◌||◌, all_below,
}
use opemu_linux.Common.{compl, bit_and, bit_or, ltb, ◌==◌, if◌then◌else◌}
use opemu_linux.Common.Bits.Digit.{
  bit, bit-lt, bit-zero, bit-bit_or, bit-bit_and, bit-pow, bit-mod, bit-compl,
}
use opemu_linux.Common.Bits.Laws.{bit_and_pow}
use native.Mathlib.Nat.{one-le-pow, mod-eq_of_lt}
use opemu_linux.Pcmpstr.{
  Matrix, dim, set_bits, range_bits, any_below, diagonal, aggregate, toggle_bits, polarity,
}

abbrev pub digit : Bool → ℕ
digit b = if b then 1 else 0

at_same : (test : ℕ → Bool) (k n : ℕ) → k ≡ n → test k ≡ test n
at_same test k n h = ap test h

bit-set_bits :
    (test : ℕ → Bool) (n res k : ℕ)
    → bit k (set_bits test n res) ≡ (if ltb k n && test k then 1 else bit k res)
unfolding set_bits
bit-set_bits test zero res k = ground arith
bit-set_bits test (suc n) res k =
    let before = set_bits test n res in
    ground (
      arith,
      bit-set_bits test n res k,
      bit-bit_or k before (2 ^ n),
      bit-pow n k,
      bit-lt k before,
      bit-lt k res,
      at_same test k n,
    )

bit-range_bits :
    (mtx : Matrix) (rows n k : ℕ)
    → bit k (range_bits mtx rows n)
      ≡ digit (ltb k rows && any_below (λ p. mtx k (2 * p) && mtx k (2 * p + 1)) n)
unfolding range_bits
bit-range_bits mtx rows zero k = ground (arith, bit-zero k)
bit-range_bits mtx rows (suc n) k = ground (
  arith,
  bit-set_bits (λ j. mtx j (2 * n) && mtx j (2 * n + 1)) rows (range_bits mtx rows n) k,
  bit-range_bits mtx rows n k,
)

-- The four ways to combine the comparisons in one row, as documented: some element is equal, some
-- pair of bounds encloses it, the elements in one place are equal, the rest of the string begins
-- with the other one.
unfoldable pub combined : Matrix → ℕ → ℕ → Bool
combined mtx mode k =
    let n = dim mode in
    let agg = bit_and mode 0x0C in
    if agg == 0
    then any_below (λ i. mtx k i) n
    else (if agg == 4
        then any_below (λ p. mtx k (2 * p) && mtx k (2 * p + 1)) (n / 2)
        else (if agg == 8 then mtx k k else all_below (λ j. mtx (k + j) j) (n - k)))

from_nothing : (test : ℕ → Bool) (n k : ℕ) → bit k (set_bits test n 0) ≡ digit (ltb k n && test k)
from_nothing test n k = ground (arith, bit-set_bits test n 0 k, bit-zero k)

four_ways :
    (k : ℕ) (inside any ranges each : Bool) (x0 x4 x8 x12 : ℕ) (t0 t4 t8 t12 : Bool)
    → bit k x0 ≡ digit (inside && t0)
    → bit k x4 ≡ digit (inside && t4)
    → bit k x8 ≡ digit (inside && t8)
    → bit k x12 ≡ digit (inside && t12)
    → bit k (if any then x0 else (if ranges then x4 else (if each then x8 else x12)))
      ≡ digit (inside && (if any then t0 else (if ranges then t4 else (if each then t8 else t12))))
four_ways k inside true ranges each x0 x4 x8 x12 t0 t4 t8 t12 h0 h4 h8 h12 = h0
four_ways k inside false true each x0 x4 x8 x12 t0 t4 t8 t12 h0 h4 h8 h12 = h4
four_ways k inside false false true x0 x4 x8 x12 t0 t4 t8 t12 h0 h4 h8 h12 = h8
four_ways k inside false false false x0 x4 x8 x12 t0 t4 t8 t12 h0 h4 h8 h12 = h12

pub bit-aggregate :
    (mtx : Matrix) (mode k : ℕ)
    → bit k (aggregate mtx mode) ≡ digit (ltb k (dim mode) && combined mtx mode k)
unfolding aggregate combined diagonal
bit-aggregate mtx mode k =
    let n = dim mode in
    let agg = bit_and mode 0x0C in
    four_ways k (ltb k n) (agg == 0) (agg == 4) (agg == 8) _ _ _ _ _ _ _ _
      (from_nothing (λ i. any_below (λ j. mtx i j) n) n k) (bit-range_bits mtx n (n / 2) k)
      (from_nothing (λ i. mtx i i) n k) (from_nothing (diagonal mtx n) n k)

pub is_clear : (n x : ℕ) → (bit_and x (2 ^ n) == 0) ≡ (bit n x == 0)
is_clear n x = rw (bit_and_pow n x) (by_digit (bit n x) (bit-lt n x) (one-le-pow n 2 (omega arith)))
  where
    by_digit : (b : ℕ) {p : ℕ} → b < 2 → 1 ≤ p → (b * p == 0) ≡ (b == 0)
    by_digit zero h q = ground arith
    by_digit (suc zero) h q = ground arith
    by_digit (suc (suc b)) h q = absurd (omega arith)

pub same_bit : (x k n : ℕ) → k ≡ n → bit k x ≡ bit n x
same_bit x k n h = ap (λ (i : ℕ). bit i x) h

-- One digit is turned over.
toggle_step :
    (n x k : ℕ)
    → n < 32
    → k < 32
    → bit k (if bit_and x (2 ^ n) == 0 then bit_or x (2 ^ n) else bit_and x (compl 32 (2 ^ n)))
      ≡ (if k == n then 1 - bit k x else bit k x)
toggle_step n x k h p =
    let word = 2 ^ n % 2 ^ 32 in
    let other : bit k (compl 32 (2 ^ n)) ≡ 1 - (if k == n then 1 else 0) =
      ground (arith, bit-compl 32 k word (omega arith) p, bit-mod 32 k (2 ^ n), bit-pow n k) in
    rw (is_clear n x) (
      ground (
        arith,
        bit-bit_or k x (2 ^ n),
        bit-bit_and k x (compl 32 (2 ^ n)),
        other,
        bit-pow n k,
        bit-lt k x,
        same_bit x k n,
      ))

-- Up to 32 digits are turned over.
bit-toggle_bits :
    (n res k : ℕ)
    → n ≤ 32
    → k < 32
    → bit k (toggle_bits n res) ≡ (if ltb k n then 1 - bit k res else bit k res)
unfolding toggle_bits
bit-toggle_bits zero res k h p = ground arith
bit-toggle_bits (suc n) res k h p =
    toggle_step n (toggle_bits n res) k h p
    ∙ ground (arith, bit-toggle_bits n res k (omega arith) p)

pub bit-polarity :
    (mode lb res k : ℕ)
    → lb ≤ 16
    → res < 2 ^ 32
    → k < 16
    → bit k (polarity mode lb res) ≡ (
        if bit_and mode 0x30 == 0x10 || bit_and mode 0x30 == 0x30 && ltb k lb
        then 1 - bit k res
        else bit k res)
unfolding polarity
bit-polarity mode lb res k hb hr p =
    let small : res % 2 ^ 32 ≡ res = mod-eq_of_lt hr in
    ground (arith, bit-compl 32 k res hr, bit-toggle_bits lb res k)
