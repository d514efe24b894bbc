-- ===== src/Sse2/Predicates.antt =====
-- The comparisons of doubles against the relation of their operands.
use opemu_linux.Common.{
  ℕ, ◌%◌, ◌<◌, ◌≡◌, arith, refl, ap, ◌∙◌, Bool, true, false, not, List, ◌++◌, ◌&&◌, ◌||◌, [], ◌∷◌,
  get_or, agree_below, all_below,
}
use opemu_linux.Common.{bit_and, ◌==◌, if◌then◌else◌}
use opemu_linux.Common.Int.{ℤ, pos, negsuc, ltℤ}
use opemu_linux.Sse2.Compare.{eqℤ, is_nan_f64, rank, lt_f64, eq_f64, maxdf, mindf}

-- How two doubles stand to each other: less, equal, greater or unordered, as 1, 2, 4 or 8.
unfoldable pub relation : ℕ → ℕ → ℕ
relation a b =
    if is_nan_f64 a || is_nan_f64 b
    then 8
    else (if ltℤ (rank a) (rank b) then 1 else (if ltℤ (rank b) (rank a) then 4 else 2))

-- The documented truth table of the predicates, as the sum of the relations for which each is true:
-- EQ, LT, LE, UNORD, NEQ, NLT, NLE, ORD, EQ_UQ, NGE, NGT, FALSE, NEQ_OQ, GE, GT, TRUE.
abbrev pub true_for : ℕ → ℕ
true_for predicate =
    get_or (2 ∷ 1 ∷ 3 ∷ 8 ∷ 13 ∷ 14 ∷ 12 ∷ 7 ∷ 10 ∷ 9 ∷ 11 ∷ 0 ∷ 5 ∷ 6 ∷ 4 ∷ 15 ∷ []) predicate 0

ltℤ-asym : (x y : ℤ) → ltℤ x y ≡ true → ltℤ y x ≡ false
ltℤ-asym (pos x) (pos y) h = ground arith
ltℤ-asym (pos x) (negsuc y) h = ground arith
ltℤ-asym (negsuc x) (pos y) h = ground arith
ltℤ-asym (negsuc x) (negsuc y) h = ground arith

-- The code's 32 cases over the four tests that they are made of.
abbrev cases_of : Bool → Bool → Bool → Bool → List Bool
cases_of na nb l g =
    let lt = not na && not nb && l in
    let gt = not nb && not na && g in
    let eq = not na && not nb && (not l && not g) in
    let le = lt || eq in
    let ge = gt || (not nb && not na && (not g && not l)) in
    let nan = λ (opt : Bool). if nb then true else (if na then true else opt) in
    let ord = λ (opt : Bool). if nb then false else (if na then false else opt) in
    let below_11 =
      eq
      ∷ lt
      ∷ le
      ∷ nan false
      ∷ nan (not eq)
      ∷ nan ge
      ∷ nan gt
      ∷ ord true
      ∷ nan eq
      ∷ nan lt
      ∷ nan le
      ∷ false
      ∷ ord (not eq)
      ∷ ge
      ∷ gt
      ∷ true
      ∷ [] in
    below_11 ++ below_11

abbrev relation_of : Bool → Bool → Bool → Bool → ℕ
relation_of na nb l g = if na || nb then 8 else (if l then 1 else (if g then 4 else 2))

abbrev digit : Bool → ℕ
digit b = if b then 1 else 0

digit-inj : (b c : Bool) → digit b ≡ digit c → b ≡ c
digit-inj true true h = refl
digit-inj true false h = absurd (omega arith)
digit-inj false true h = absurd (omega arith)
digit-inj false false h = refl

abbrev pub documented : ℕ → ℕ → Bool
documented r immvar = not (bit_and (true_for (immvar % 16)) r == 0)

-- All cases at once, for given outcomes of the tests.
module _ (immvar : ℕ) (h : immvar < 32) where
  checked :
      (na nb l g : Bool)
      → all_below
          (λ k.
            digit (get_or (cases_of na nb l g) k false)
            == digit (documented (relation_of na nb l g) k))
          32
        ≡ true
      → get_or (cases_of na nb l g) immvar false ≡ documented (relation_of na nb l g) immvar
  checked na nb l g all = digit-inj _ _ (
      agree_below 32 (λ k. digit (get_or (cases_of na nb l g) k false))
        (λ k. digit (documented (relation_of na nb l g) k)) all immvar h)

  pub every_case :
      (na nb l g : Bool)
      → (l && g) ≡ false
      → get_or (cases_of na nb l g) immvar false ≡ documented (relation_of na nb l g) immvar
  unfolding all_below
  every_case na nb true true both = cc
  every_case true true true false ok = checked true true true false refl
  every_case true true false true ok = checked true true false true refl
  every_case true true false false ok = checked true true false false refl
  every_case true false true false ok = checked true false true false refl
  every_case true false false true ok = checked true false false true refl
  every_case true false false false ok = checked true false false false refl
  every_case false true true false ok = checked false true true false refl
  every_case false true false true ok = checked false true false true refl
  every_case false true false false ok = checked false true false false refl
  every_case false false true false ok = checked false false true false refl
  every_case false false false true ok = checked false false false true refl
  every_case false false false false ok = checked false false false false refl

pub never_both : (x y : ℤ) → (ltℤ x y && ltℤ y x) ≡ false
never_both x y = ground (arith, ltℤ-asym x y)

zeros_tie : (x y : ℤ) → eqℤ x (pos 0) ≡ true → eqℤ y (pos 0) ≡ true → ltℤ x y ≡ false
zeros_tie (pos x) (pos y) hx hy = ground arith
zeros_tie (pos x) (negsuc y) hx hy = ground arith
zeros_tie (negsuc x) (pos y) hx hy = ground arith
zeros_tie (negsuc x) (negsuc y) hx hy = ground arith

both_zero :
    (a b : ℕ)
    → (eq_f64 a 0 && eq_f64 b 0) ≡ true
    → (ltℤ (rank a) (rank b) ≡ false) × (ltℤ (rank b) (rank a) ≡ false)
both_zero a b h =
    let zero_a : eqℤ (rank a) (pos 0) ≡ true = unfold eq_f64 in ground arith in
    let zero_b : eqℤ (rank b) (pos 0) ≡ true = unfold eq_f64 in ground arith in
    (zeros_tie (rank a) (rank b) zero_a zero_b, zeros_tie (rank b) (rank a) zero_b zero_a)

-- An early return that the last test would make too.
redundant :
    (z na nb l : Bool)
    → (z ≡ true → l ≡ false)
    → (if z then false else (if na then false else (if nb then false else not na && not nb && l)))
      ≡ (not na && not nb && l)
redundant true true nb l h = refl
redundant true false true l h = refl
redundant true false false l h = rw (h refl) refl
redundant false true nb l h = refl
redundant false false true l h = refl
redundant false false false l h = refl

swapped : (na nb l : Bool) → (not na && not nb && l) ≡ (not nb && not na && l)
swapped true true l = refl
swapped true false l = refl
swapped false true l = refl
swapped false false l = refl

-- maxdf and mindf are the two orders: their test on zeros changes nothing, since zeros are equal.
maxdf-lt_f64 : (a b : ℕ) → (maxdf a b ≡ lt_f64 b a) × (mindf a b ≡ lt_f64 a b)
unfolding maxdf mindf lt_f64
maxdf-lt_f64 a b = (
  ap
        (λ (t : Bool).
          if eq_f64 a 0 && eq_f64 b 0
          then false
          else (if is_nan_f64 a then false else (if is_nan_f64 b then false else t)))
        (swapped (is_nan_f64 b) (is_nan_f64 a) (ltℤ (rank b) (rank a)))
      ∙ redundant (eq_f64 a 0 && eq_f64 b 0) (is_nan_f64 a) (is_nan_f64 b) (ltℤ (rank b) (rank a))
          (λ z. (both_zero a b z).1)
      ∙ swapped (is_nan_f64 a) (is_nan_f64 b) (ltℤ (rank b) (rank a)),
  redundant (eq_f64 a 0 && eq_f64 b 0) (is_nan_f64 a) (is_nan_f64 b) (ltℤ (rank a) (rank b))
      (λ z. (both_zero a b z).0),
)
