-- ===== src/Pcmpstr/Index.antt =====
-- Where the searches end: string lengths, and the index of a result.
use opemu_linux.Common.{
  ℕ, zero, suc, ◌+◌, ◌%◌, ◌^◌, ◌<◌, ◌≡◌, ◌⊎◌, inl, inr, arith, refl, ap, sym, ◌∙◌, Bool, true,
  false, not, all_below, Bool-cases,
}
use opemu_linux.Common.{bit_and, ◌==◌, if◌then◌else◌}
use opemu_linux.Common.Bits.Digit.{bit, bit-lt, bit-zero, bit-mod, bit-high, bit_ext}
use opemu_linux.Common.Bits.Laws.{lt_of_bits}
use native.Mathlib.Nat.{pow-zero, mod-eq_of_lt}
use mathlib.Core.Path.{subst}
use opemu_linux.Pcmpstr.{
  dim, element, calc_str_len, first_from, last_below, is_set, index_of, cmp_indexed,
  pcmpstr_calc_res,
}
use opemu_linux.Pcmpstr.Matrix.{is_clear, same_bit}
use opemu_linux.Pcmpstr.Laws.{pcmpstr_calc_res-lt}

-- Every test below `n` fails.
abbrev none_below : (ℕ → Bool) → ℕ → Bool
none_below test n = all_below (λ i. not (test i)) n

-- A search finds the first number that passes, or there is none.
abbrev Found : (ℕ → Bool) → ℕ → ℕ → ℕ → Type 0
Found test end default r =
    ((r < end) × (test r ≡ true) × (none_below test r ≡ true))
    ⊎ ((r ≡ default) × (none_below test end ≡ true))

one_more :
    (test : ℕ → Bool) (n : ℕ)
    → test n ≡ false
    → none_below test n ≡ true
    → none_below test (n + 1) ≡ true
unfolding all_below
one_more test n miss h = ap (none_below test) {y = suc n} (omega arith) ∙ next
  where
    next : none_below test (suc n) ≡ true
    next = rw (miss, h) refl

first_from-Found :
    (test : ℕ → Bool) (default count from : ℕ)
    → none_below test from ≡ true
    → Found test (from + count) default (first_from test default count from)
unfolding first_from all_below
first_from-Found test default zero from h = inr (refl, ap (none_below test) (omega arith) ∙ h)
first_from-Found test default (suc count) from h = elim (Bool-cases (test from)) [
  | inl hit ↦ rw hit (inl (omega arith, hit, h))
  | inr miss ↦ rw miss (
      subst (λ (e : ℕ). Found test e default (first_from test default count (from + 1)))
        (omega arith) (first_from-Found test default count (from + 1) (one_more test from miss h)))
]

-- A search from 0 on.
search-Found :
    (test : ℕ → Bool) (default count : ℕ)
    → Found test count default (first_from test default count 0)
unfolding all_below
search-Found test default count =
    subst (λ (e : ℕ). Found test e default (first_from test default count 0)) (omega arith)
      (first_from-Found test default count 0 refl)

-- The length of a string without a given one: the place of its first null element, or the number
-- of elements if none is null.
calc_str_len-Found :
    (val mode : ℕ)
    → Found (λ i. element mode i val == 0) (dim mode) (dim mode) (calc_str_len val mode)
unfolding calc_str_len
calc_str_len-Found val mode = search-Found (λ i. element mode i val == 0) (dim mode) (dim mode)

-- Digits that are all clear make a multiple of the power above them.
clear_next : (x n : ℕ) → x % 2 ^ n ≡ 0 → is_set x n ≡ false → x % 2 ^ suc n ≡ 0
clear_next x n h miss = bit_ext _ 0 λ i. ground (
  arith,
  bit-mod (suc n) i x,
  bit-mod n i x,
  is_clear n x,
  bit-zero i,
  ap (bit i) h,
  same_bit x i n,
)

all_clear : (x n : ℕ) → none_below (is_set x) n ≡ true → x % 2 ^ n ≡ 0
unfolding all_below
all_clear x zero h = omega (arith, pow-zero 2)
all_clear x (suc n) h = ground (arith, all_clear x n, clear_next x n)

set_digit : (x n : ℕ) → is_set x n ≡ true → bit n x ≡ 1
set_digit x n h = ground (arith, is_clear n x, bit-lt n x)

-- What an index of a number below `2 ^ n` is, seen from below or from above.
abbrev pub IsIndex : Bool → ℕ → ℕ → ℕ → Type 0
IsIndex lowest n x r =
    ((r ≡ n) × (x ≡ 0))
    ⊎ ((r < n) × (bit r x ≡ 1) × (if lowest then x % 2 ^ r ≡ 0 else x < 2 ^ (r + 1)))

lowest-IsIndex : (n x : ℕ) → x < 2 ^ n → IsIndex true n x (first_from (is_set x) n n 0)
lowest-IsIndex n x h = elim (search-Found (is_set x) n n) [
  | inl (below, hit, clear) ↦ inr (below, set_digit x _ hit, all_clear x _ clear)
  | inr (end, clear) ↦ inl (end, sym (mod-eq_of_lt h) ∙ all_clear x n clear)
]

top_clear : (n x : ℕ) → x < 2 ^ suc n → is_set x n ≡ false → x < 2 ^ n
top_clear n x h miss = lt_of_bits n x λ i p. elim (Bool-cases (i == n)) [
  | inl e ↦ ground (arith, is_clear n x, bit-lt n x, same_bit x i n)
  | inr e ↦ bit-high (suc n) i x h (ground arith)
]

plus_one : (n : ℕ) → n + 1 ≡ suc n
plus_one n = omega arith

highest :
    (default n x : ℕ)
    → x < 2 ^ n
    → let r = last_below (is_set x) default n in
      ((r ≡ default) × (x ≡ 0)) ⊎ ((r < n) × (bit r x ≡ 1) × (x < 2 ^ (r + 1)))
unfolding last_below
highest default zero x h = inl (refl, omega (arith, pow-zero 2))
highest default (suc n) x h = elim (Bool-cases (is_set x n)) [
  | inl hit ↦
      rw hit
        (inr (omega arith, set_digit x n hit, omega (arith, h, ap (λ (k : ℕ). 2 ^ k) (plus_one n))))
  | inr miss ↦ ground (arith, highest default n x (top_clear n x h miss))
]

index_of-IsIndex :
    (mode x : ℕ)
    → x < 2 ^ dim mode
    → IsIndex (bit_and mode 0x40 == 0) (dim mode) x (index_of mode x)
unfolding index_of
index_of-IsIndex mode x h = elim (Bool-cases (bit_and mode 0x40 == 0)) [
  | inl low ↦ rw low (lowest-IsIndex (dim mode) x h)
  | inr high ↦ rw high (highest (dim mode) (dim mode) x h)
]

-- The index of a comparison is that of the lowest or of the highest digit that its result has, as
-- bit 6 of the mode asks; a result of 0 has the number of elements as its index.
pub cmp_indexed-IsIndex :
    (a la b lb mode : ℕ)
    → let r = cmp_indexed a la b lb mode in IsIndex (bit_and mode 0x40 == 0) (dim mode) r.1 r.0
unfolding cmp_indexed
cmp_indexed-IsIndex a la b lb mode =
    index_of-IsIndex mode (pcmpstr_calc_res a la b lb mode) (pcmpstr_calc_res-lt a la b lb mode)
