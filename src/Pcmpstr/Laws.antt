-- ===== src/Pcmpstr/Laws.antt =====
-- The result of a string comparison, digit by digit.
use opemu_linux.Common.{ℕ, ◌%◌, ◌^◌, ◌<◌, ◌≤◌, ◌≡◌, arith, fun_ext, not, ◌&&◌, ◌||◌, min}
use opemu_linux.Common.{bit_and, ltb, leb, ◌==◌, if◌then◌else◌}
use opemu_linux.Common.Bits.Digit.{bit, bit-mod}
use opemu_linux.Common.Bits.Laws.{bit_and_mask, lt_of_bits}
use opemu_linux.Pcmpstr.{
  Matrix, dim, pcmpstr_eq, pcmpstr_rng, override_invalid, calc_matrix, aggregate, polarity,
  pcmpstr_calc_res,
}
use native.Mathlib.Nat.{mod-lt, one-le-pow}
use opemu_linux.Pcmpstr.Matrix.{digit, combined, bit-aggregate, bit-polarity}

-- A comparison of elements counts as documented: where one of the two lies behind the end of its
-- string it fails; but two elements behind the ends are equal in place, and what lies behind the
-- end of the string that is looked for fits anything.
unfoldable pub counted : Matrix → ℕ → ℕ → ℕ → Matrix
counted cmp la lb mode j i =
    let both = ltb i la && ltb j lb && cmp j i in
    let agg = bit_and mode 0x0C in
    if agg == 8
    then both || leb la i && leb lb j
    else (if agg == 12 then both || leb la i else both)

override_invalid-counted :
    (cmp : Matrix) (la lb mode j i : ℕ)
    → override_invalid cmp la lb mode j i ≡ counted cmp la lb mode j i
unfolding override_invalid counted
override_invalid-counted cmp la lb mode j i = ground arith

-- The comparison of two elements that the mode asks for.
abbrev pub compared : ℕ → ℕ → ℕ → Matrix
compared a b mode = if bit_and mode 0x0C == 0x04 then pcmpstr_rng mode a b else pcmpstr_eq mode a b

calc_matrix-counted :
    (a la b lb mode : ℕ) → calc_matrix a la b lb mode ≡ counted (compared a b mode) la lb mode
unfolding calc_matrix
calc_matrix-counted a la b lb mode =
    fun_ext λ j. fun_ext λ i. override_invalid-counted (compared a b mode) la lb mode j i

aggregate-lt : (mtx : Matrix) (mode : ℕ) → aggregate mtx mode < 2 ^ 32
unfolding dim
aggregate-lt mtx mode = lt_of_bits 32 _ λ i h. ground (arith, bit-aggregate mtx mode i)

-- The mask at the end keeps one digit for each element.
final_mask : (mode x : ℕ) → bit_and x (if dim mode == 8 then 0xFF else 0xFFFF) ≡ x % 2 ^ dim mode
unfolding dim
final_mask mode x = ground (arith, bit_and_mask 8 x, bit_and_mask 16 x)

dim-le : (mode : ℕ) → dim mode ≤ 16
unfolding dim
dim-le mode = ground arith

clamp_min : (n l : ℕ) → (if ltb n l then n else l) ≡ min l n
clamp_min n l = ground arith

-- The digit of each element is set if the comparisons in its row combine, and turned over where the
-- polarity asks for it: of every element, or of those in the second string. Lengths above the
-- number of elements count as that number. No other digit is set.
pub bit-pcmpstr_calc_res :
    (a la b lb mode k : ℕ)
    → k < 16
    → let n = dim mode in
      let rows = counted (compared a b mode) (min la n) (min lb n) mode in
      let negative = bit_and mode 0x30 == 0x10 in
      let masked = bit_and mode 0x30 == 0x30 && ltb k (min lb n) in
      let hit = combined rows mode k in
      bit k (pcmpstr_calc_res a la b lb mode)
      ≡ digit (ltb k n && (if negative || masked then not hit else hit))
unfolding pcmpstr_calc_res
bit-pcmpstr_calc_res a la b lb mode k h =
    let n = dim mode in
    let rows = counted (compared a b mode) (min la n) (min lb n) mode in
    let agg = aggregate rows mode in
    let bound = dim-le mode in
    rw
      (
        clamp_min n la,
        clamp_min n lb,
        calc_matrix-counted a (min la n) b (min lb n) mode,
        final_mask mode (polarity mode (min lb n) agg),
        bit-mod n k (polarity mode (min lb n) agg),
      )
      (ground (
        arith,
        bit-polarity mode (min lb n) agg k (omega arith) (aggregate-lt rows mode) h,
        bit-aggregate rows mode k,
      ))

pub pcmpstr_calc_res-lt : (a la b lb mode : ℕ) → pcmpstr_calc_res a la b lb mode < 2 ^ dim mode
unfolding pcmpstr_calc_res
pcmpstr_calc_res-lt a la b lb mode =
    rw (final_mask mode) (mod-lt _ (one-le-pow (dim mode) 2 (omega arith)))
