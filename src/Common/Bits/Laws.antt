-- ===== src/Common/Bits/Laws.antt =====
-- What the bit operations are in arithmetic, and their algebra.
use opemu_linux.Common.{ℕ, zero, suc, ◌+◌, ◌-◌, ◌*◌, ◌/◌, ◌%◌, ◌^◌, ◌≤◌, ◌<◌, ◌≡◌, ap, arith}
use opemu_linux.Common.{bit_and, bit_or, bit_xor}
use opemu_linux.Common.Bits.Step.{bit_and_step, bit_or_step, bit_xor_step}
use opemu_linux.Common.Bits.Digit.{
  bit, bit-lt, bit-zero, bit_ext, bit-bit_and, bit-bit_or, bit-bit_xor, bit-high, bit-mod, bit-div,
  mod_double,
}
use native.Mathlib.Nat.{pow-succ', one-le-pow, mul_left_comm}

bit_xor_comm : (a b : ℕ) → bit_xor a b ≡ bit_xor b a
bit_xor_comm a b = bit_ext _ _ λ i. omega (arith, bit-bit_xor i a b, bit-bit_xor i b a)

pub bit_xor_self : (a : ℕ) → bit_xor a a ≡ 0
bit_xor_self a = bit_ext _ _ λ i. omega (arith, bit-bit_xor i a a, bit-zero i)

pub bit_xor-zero : (a : ℕ) → bit_xor a 0 ≡ a
bit_xor-zero a = bit_ext _ _ λ i. omega (arith, bit-bit_xor i a 0, bit-zero i, bit-lt i a)

-- Adding a key twice gives the word back.
pub bit_xor_undo : (a k : ℕ) → bit_xor (bit_xor a k) k ≡ a
bit_xor_undo a k =
    bit_ext _ _ λ i. omega (arith, bit-bit_xor i (bit_xor a k) k, bit-bit_xor i a k, bit-lt i a)

pub bit_and_comm : (a b : ℕ) → bit_and a b ≡ bit_and b a
bit_and_comm a b = bit_ext _ _ λ i. omega (arith, bit-bit_and i a b, bit-bit_and i b a)

pub bit_and_self : (a : ℕ) → bit_and a a ≡ a
bit_and_self a = bit_ext _ _ λ i. omega (arith, bit-bit_and i a a)

pub bit_and-zero : (a : ℕ) → bit_and a 0 ≡ 0
bit_and-zero a = bit_ext _ _ λ i. omega (arith, bit-bit_and i a 0, bit-zero i)

pub bit_or_comm : (a b : ℕ) → bit_or a b ≡ bit_or b a
bit_or_comm a b = bit_ext _ _ λ i. omega (arith, bit-bit_or i a b, bit-bit_or i b a)

bit_or-zero : (a : ℕ) → bit_or a 0 ≡ a
bit_or-zero a = bit_ext _ _ λ i. omega (arith, bit-bit_or i a 0, bit-zero i)

-- Digits that vanish from `k` on make a number below `2 ^ k`.
pub lt_of_bits : (k x : ℕ) → ((i : ℕ) → k ≤ i → bit i x ≡ 0) → x < 2 ^ k
lt_of_bits k x h =
    let e : x % 2 ^ k ≡ x = bit_ext _ _ λ i. ground (arith, bit-mod k i x, h i) in
    grind (arith, one-le-pow k 2)

module _ (k a b : ℕ) (ha : a < 2 ^ k) (hb : b < 2 ^ k) where
  bit_and-lt : bit_and a b < 2 ^ k
  bit_and-lt = lt_of_bits k _ λ i p. omega (arith, bit-bit_and i a b, bit-high k i a ha p)

  bit_or-lt : bit_or a b < 2 ^ k
  bit_or-lt =
      lt_of_bits k _
        λ i p. omega (arith, bit-bit_or i a b, bit-high k i a ha p, bit-high k i b hb p)

  pub bit_xor-lt : bit_xor a b < 2 ^ k
  bit_xor-lt =
      lt_of_bits k _
        λ i p. omega (arith, bit-bit_xor i a b, bit-high k i a ha p, bit-high k i b hb p)

-- A mask of `k` ones is the remainder by `2 ^ k`.
pub bit_and_mask : (k a : ℕ) → bit_and a (2 ^ k - 1) ≡ a % 2 ^ k
bit_and_mask zero a = ground (arith, bit_and-zero a)
bit_and_mask (suc k) a = rw (pow-succ' 2 k) (
    ground (
      arith,
      bit_and_step a (2 * 2 ^ k - 1),
      bit_and_mask k (a / 2),
      mod_double (2 ^ k) a,
      one-le-pow k 2,
    ))

-- A mask of one bit picks that digit.
pub bit_and_pow : (k a : ℕ) → bit_and a (2 ^ k) ≡ bit k a * 2 ^ k
unfolding bit
bit_and_pow zero a = omega (arith, bit_and_step a 1, bit_and-zero (a / 2))
bit_and_pow (suc k) a = rw (pow-succ' 2 k) (
    ground (
      arith,
      bit_and_step a (2 * 2 ^ k),
      bit_and_pow k (a / 2),
      mul_left_comm (bit k (a / 2)) 2 (2 ^ k),
    ))

-- `|` of a field of `k` bits and a word above it is a sum.
pub bit_or_fields : (k q r : ℕ) → r < 2 ^ k → bit_or (q * 2 ^ k) r ≡ q * 2 ^ k + r
bit_or_fields zero q r h = ground (arith, bit_or-zero q)
bit_or_fields (suc k) q r h = ground (
  arith,
  bit_or_step (q * 2 ^ suc k) r,
  bit_or_fields k q (r / 2),
  ap (λ (t : ℕ). q * t) (pow-succ' 2 k),
  mul_left_comm q 2 (2 ^ k),
  pow-succ' 2 k,
)

-- Sums of sums can be taken in either order.
pub bit_xor_shuffle :
    (a b c d : ℕ) → bit_xor (bit_xor a b) (bit_xor c d) ≡ bit_xor (bit_xor a c) (bit_xor b d)
bit_xor_shuffle a b c d = bit_ext _ _ λ i. omega (
  arith,
  bit-bit_xor i (bit_xor a b) (bit_xor c d),
  bit-bit_xor i a b,
  bit-bit_xor i c d,
  bit-bit_xor i (bit_xor a c) (bit_xor b d),
  bit-bit_xor i a c,
  bit-bit_xor i b d,
)

pub bit_xor-mod : (k a b : ℕ) → bit_xor a b % 2 ^ k ≡ bit_xor (a % 2 ^ k) (b % 2 ^ k)
bit_xor-mod k a b = bit_ext _ _ λ i. ground (
  arith,
  bit-mod k i (bit_xor a b),
  bit-bit_xor i a b,
  bit-bit_xor i (a % 2 ^ k) (b % 2 ^ k),
  bit-mod k i a,
  bit-mod k i b,
)

pub bit_xor-div : (k a b : ℕ) → bit_xor a b / 2 ^ k ≡ bit_xor (a / 2 ^ k) (b / 2 ^ k)
bit_xor-div k a b = bit_ext _ _ λ i. omega (
  arith,
  bit-div k i (bit_xor a b),
  bit-bit_xor (k + i) a b,
  bit-bit_xor i (a / 2 ^ k) (b / 2 ^ k),
  bit-div k i a,
  bit-div k i b,
)

pub bit_xor-double : (a b : ℕ) → bit_xor (2 * a) (2 * b) ≡ 2 * bit_xor a b
bit_xor-double a b = ground (arith, bit_xor_step (2 * a) (2 * b))
