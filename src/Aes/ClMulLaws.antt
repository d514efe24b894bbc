-- ===== src/Aes/ClMulLaws.antt =====
-- The digits of `cl_mul` of aes.c.
use opemu_linux.Common.{ℕ, zero, suc, ◌+◌, ◌-◌, ◌*◌, ◌/◌, ◌%◌, ◌^◌, ◌<◌, ◌≡◌, ap₂, ◌∙◌, refl, arith}
use opemu_linux.Common.{trunc, bit_and, bit_xor, leb, ◌==◌, if◌then◌else◌}
use opemu_linux.Common.Bits.Digit.{bit, bit-lt, bit-zero, bit-mod, bit-bit_xor}
use opemu_linux.Common.Bits.Laws.{bit_and_mask}
use opemu_linux.Aes.ClMul.{cl_loop, cl_mul}
use native.Mathlib.Nat.{zero-mul, pow-suc, suc-add}

-- The sum of `f 0` up to `f (n - 1)`.
unfoldable pub total : ℕ → (ℕ → ℕ) → ℕ
total zero f = 0
total (suc n) f = f 0 + total n (λ i. f (suc i))

total_ext : (n : ℕ) (f g : ℕ → ℕ) → ((i : ℕ) → f i ≡ g i) → total n f ≡ total n g
unfolding total
total_ext zero f g h = refl
total_ext (suc n) f g h =
    ap₂ ◌+◌ (h 0) (total_ext n (λ i. f (suc i)) (λ i. g (suc i)) (λ i. h (suc i)))

total_zero : (n : ℕ) (f : ℕ → ℕ) → ((i : ℕ) → f i ≡ 0) → total n f ≡ 0
unfolding total
total_zero zero f h = refl
total_zero (suc n) f h = omega (arith, h 0, total_zero n (λ i. f (suc i)) (λ i. h (suc i)))

-- What digit `i` of `b` gives to digit `k` of the product.
abbrev pub product_digit : ℕ → ℕ → ℕ → ℕ → ℕ
product_digit a b k i = bit i b * (if leb i k then bit (k - i) a else 0)

bit_and_one : (b : ℕ) → bit_and b 1 ≡ b % 2
bit_and_one b = bit_and_mask 1 b

bit-double : (j a : ℕ) → j < 128 → bit j (trunc 128 (a * 2)) ≡ (if j == 0 then 0 else bit (j - 1) a)
unfolding bit
bit-double zero a h = omega arith
bit-double (suc j) a h =
    bit-mod 128 (suc j) (a * 2) ∙ (let half : a * 2 / 2 ≡ a = omega arith in rw half (ground arith))

shifted_digit :
    (a b k i : ℕ)
    → k < 128
    → product_digit (trunc 128 (a * 2)) (b / 2) k i ≡ product_digit a b k (suc i)
unfolding bit
shifted_digit a b k i h = ground (arith, bit-double (k - i) a (omega arith))

-- The sum after one round.
next_sum :
    (k r a b : ℕ)
    → bit k (if bit_and b 1 == 0 then r else bit_xor r a) ≡ (bit k r + b % 2 * bit k a) % 2
next_sum k r a b = ground (arith, bit_and_one b, bit-bit_xor k r a, bit-lt k r)

product_zero : (x y : ℕ) → x ≡ 0 → x * y ≡ 0
product_zero x y h = rw h (zero-mul y)

no_digits : (n a b k : ℕ) → b ≡ 0 → total n (product_digit a b k) ≡ 0
no_digits n a b k z =
    total_zero n (product_digit a b k)
      (λ i. product_zero (bit i b) (if leb i k then bit (k - i) a else 0) (rw z (bit-zero i)))

cl_loop-bits :
    (n r a b k : ℕ)
    → b < 2 ^ n
    → k < 128
    → bit k (cl_loop n r a b) ≡ (bit k r + total n (product_digit a b k)) % 2
unfolding cl_loop total
cl_loop-bits zero r a b k hb hk = omega (arith, bit-lt k r)
cl_loop-bits (suc n) r a b k hb hk =
    let r' = if bit_and b 1 == 0 then r else bit_xor r a in
    let a' = trunc 128 (a * 2) in
    let below : b / 2 < 2 ^ n = omega (arith, pow-suc 2 n) in
    let rest = cl_loop-bits n r' a' (b / 2) k below hk in
    let same =
      total_ext n (product_digit a' (b / 2) k) (λ i. product_digit a b k (suc i))
        (λ i. shifted_digit a b k i hk) in
    let empty = no_digits (suc n) a b k in
    let sum = next_sum k r a b in
    let first : product_digit a b k 0 ≡ b % 2 * bit k a = unfold bit in ground arith in
    let whole : bit k (cl_loop n r' a' (b / 2))
        ≡ (bit k r + total (suc n) (product_digit a b k)) % 2 =
      omega arith in
    ground (arith, bit-lt k r)

-- Digit `k` of the product is the parity of the pairs of digits of the factors whose places sum
-- to `k`.
pub cl_mul-bits :
    (a b k : ℕ) → b < 2 ^ 128 → k < 128 → bit k (cl_mul a b) ≡ total 128 (product_digit a b k) % 2
unfolding cl_mul
cl_mul-bits a b k hb hk = cl_loop-bits 128 0 a b k hb hk ∙ omega (arith, bit-zero k)

ended : (n r a b : ℕ) → b ≡ 0 → cl_loop n r a b ≡ r
unfolding cl_loop
ended zero r a b z = refl
ended (suc n) r a b z = rw z refl

-- A count above the number of digits changes nothing: the loop has ended before.
cl_loop-enough : (n m r a b : ℕ) → b < 2 ^ n → cl_loop (n + m) r a b ≡ cl_loop n r a b
unfolding cl_loop
cl_loop-enough zero m r a b h = ended (0 + m) r a b (omega arith)
cl_loop-enough (suc n) m r a b h =
    let below : b / 2 < 2 ^ n = omega (arith, pow-suc 2 n) in
    let r' = if bit_and b 1 == 0 then r else bit_xor r a in
    rw (suc-add, cl_loop-enough n m r' (trunc 128 (a * 2)) (b / 2) below) refl
