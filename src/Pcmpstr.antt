-- ===== src/Pcmpstr.antt =====
-- The string comparisons: pcmpstr.c. `a` and `b` are the 128-bit operands, `la` and `lb` the lengths
-- of the strings in them. Every caller passes a 16-bit register or a result of `calc_str_len`, so
-- they are not negative and the source's `if (la < 0) la = -la` changes nothing.
pub mod Matrix
pub mod Laws
pub mod Index
use opemu_linux.Common.{ℕ, zero, suc, ◌+◌, ◌-◌, ◌*◌, ◌%◌, ◌/◌, ◌^◌, min}
use opemu_linux.Common.{Bool, true, false, not, ◌&&◌, ◌||◌, all_below}
use opemu_linux.Common.{trunc, compl, bit_and, bit_or, ltb, leb, ◌==◌, if◌then◌else◌}
use opemu_linux.Common.Int.{ℤ, pos, ltℤ, signed}
use opemu_linux.Common.Lanes.{lane, pack, tabulate}

-- `mode & 1` picks words over bytes, `mode & 2` signed over unsigned.
unfoldable pub dim : ℕ → ℕ
dim mode = if bit_and mode 1 == 0 then 16 else 8

unfoldable pub width : ℕ → ℕ
width mode = if bit_and mode 1 == 0 then 8 else 16

unfoldable pub element : ℕ → ℕ → ℕ → ℕ
unfolding width
element mode i x = lane (width mode) i x

unfoldable pub value : ℕ → ℕ → ℕ → ℤ
unfolding element
value mode i x =
    if bit_and mode 2 == 0 then pos (element mode i x) else signed (width mode) (element mode i x)

-- `for (i = from; i < from + count; i++) if (test(i)) break;`, and `last` when no test is passed.
unfoldable pub first_from : (ℕ → Bool) → ℕ → ℕ → ℕ → ℕ
first_from test last zero from = last
first_from test last (suc count) from =
    let rest = first_from test last count (from + 1) in if test from then from else rest

unfoldable pub calc_str_len : ℕ → ℕ → ℕ
calc_str_len val mode = first_from (λ i. element mode i val == 0) (dim mode) (dim mode) 0

-- A matrix is read at a row `j` and a column `i`.
abbrev pub Matrix : Type 0
Matrix = ℕ → ℕ → Bool

-- PCMPSTR_EQ: two elements of the same type are the same value if they have the same bits.
unfoldable pub pcmpstr_eq : ℕ → ℕ → ℕ → Matrix
unfolding element
pcmpstr_eq mode x y j i = element mode i x == element mode j y

-- PCMPSTR_RNG: even columns are lower bounds, odd ones upper bounds.
unfoldable pub pcmpstr_rng : ℕ → ℕ → ℕ → Matrix
unfolding value
pcmpstr_rng mode x y j i =
    if i % 2 == 0
    then not (ltℤ (value mode j y) (value mode i x))
    else not (ltℤ (value mode i x) (value mode j y))

unfoldable pub override_invalid : Matrix → ℕ → ℕ → ℕ → Matrix
override_invalid res la lb mode j i =
    if ltb i la && leb lb j
    then false
    else (if leb la i
        then (if bit_and mode 0x0C == 0x08
            then leb lb j
            else (if bit_and mode 0x0C == 0x0C then true else false))
        else res j i)

unfoldable pub calc_matrix : ℕ → ℕ → ℕ → ℕ → ℕ → Matrix
unfolding override_invalid pcmpstr_rng pcmpstr_eq
calc_matrix a la b lb mode =
    override_invalid
      (if bit_and mode 0x0C == 0x04 then pcmpstr_rng mode a b else pcmpstr_eq mode a b) la lb mode

-- `for (i = 0; i < n; i++) if (test(i)) res |= 1 << i;`
unfoldable pub set_bits : (ℕ → Bool) → ℕ → ℕ → ℕ
set_bits test zero res = res
set_bits test (suc n) res =
    let before = set_bits test n res in if test n then bit_or before (2 ^ n) else before

-- Whether a test below `n` is passed.
abbrev pub any_below : (ℕ → Bool) → ℕ → Bool
any_below test zero = false
any_below test (suc n) = test n || any_below test n

-- The loop over the pairs of columns, `n` of them.
unfoldable pub range_bits : Matrix → ℕ → ℕ → ℕ
unfolding set_bits
range_bits mtx rows zero = 0
range_bits mtx rows (suc n) =
    set_bits (λ j. mtx j (2 * n) && mtx j (2 * n + 1)) rows (range_bits mtx rows n)

-- The diagonal from row `i` on. Where it is broken the bit stays clear.
unfoldable pub diagonal : Matrix → ℕ → ℕ → Bool
unfolding all_below
diagonal mtx n i = all_below (λ j. mtx (i + j) j) (n - i)

unfoldable pub aggregate : Matrix → ℕ → ℕ
unfolding dim set_bits range_bits diagonal
aggregate mtx mode =
    let n = dim mode in
    let agg = bit_and mode 0x0C in
    if agg == 0
    then set_bits (λ i. any_below (λ j. mtx i j) n) n 0
    else (if agg == 4
        then range_bits mtx n (n / 2)
        else (if agg == 8 then set_bits (λ i. mtx i i) n 0 else set_bits (diagonal mtx n) n 0))

-- `for (i = 0; i < n; i++)` the bit `i` is turned over.
unfoldable pub toggle_bits : ℕ → ℕ → ℕ
toggle_bits zero res = res
toggle_bits (suc n) res =
    let before = toggle_bits n res in
    if bit_and before (2 ^ n) == 0 then bit_or before (2 ^ n) else bit_and before (compl 32 (2 ^ n))

unfoldable pub polarity : ℕ → ℕ → ℕ → ℕ
unfolding toggle_bits
polarity mode lb res =
    if bit_and mode 0x30 == 0x10
    then compl 32 res
    else (if bit_and mode 0x30 == 0x30 then toggle_bits lb res else res)

unfoldable pub pcmpstr_calc_res : ℕ → ℕ → ℕ → ℕ → ℕ → ℕ
pcmpstr_calc_res a la b lb mode =
    let n = dim mode in
    let la' = if ltb n la then n else la in
    let lb' = if ltb n lb then n else lb in
    bit_and (polarity mode lb' (aggregate (calc_matrix a la' b lb' mode) mode))
      (if n == 8 then 0xFF else 0xFFFF)

-- `for (i = n - 1; i >= 0; i--) if (test(i)) break;`
unfoldable pub last_below : (ℕ → Bool) → ℕ → ℕ → ℕ
last_below test none_found zero = none_found
last_below test none_found (suc i) =
    let rest = last_below test none_found i in if test i then i else rest

abbrev pub is_set : ℕ → ℕ → Bool
is_set r i = not (bit_and r (2 ^ i) == 0)

-- The index in `r2`, which `cmp_indexed` also hands back.
unfoldable pub index_of : ℕ → ℕ → ℕ
index_of mode r2 =
    if bit_and mode 0x40 == 0
    then first_from (is_set r2) (dim mode) (dim mode) 0
    else last_below (is_set r2) (dim mode) (dim mode)

unfoldable pub cmp_indexed : ℕ → ℕ → ℕ → ℕ → ℕ → ℕ × ℕ
cmp_indexed a la b lb mode = let r2 = pcmpstr_calc_res a la b lb mode in (index_of mode r2, r2)

-- The codes of the flags in this file.
abbrev pub c_flag : ℕ
c_flag = 0x1

abbrev pub z_flag : ℕ
z_flag = 0x2

abbrev pub s_flag : ℕ
s_flag = 0x4

abbrev pub o_flag : ℕ
o_flag = 0x8

unfoldable pub has_null : ℕ → ℕ → Bool
unfolding element dim
has_null mode x = any_below (λ i. element mode i x == 0) (dim mode)

unfoldable pub cmp_flags : ℕ → ℕ → ℕ → ℕ → ℕ → ℕ → Bool → ℕ
unfolding has_null dim
cmp_flags a la b lb mode res2 is_implicit =
    let zero_test = if is_implicit then has_null mode b else ltb lb (dim mode) in
    let sign_test = if is_implicit then has_null mode a else ltb la (dim mode) in
    (if res2 == 0 then 0 else c_flag)
    + (if zero_test then z_flag else 0)
    + (if sign_test then s_flag else 0)
    + (if bit_and res2 1 == 0 then 0 else o_flag)

-- The mask made of `r2`: ones in the elements whose bit is set, or the bits themselves.
unfoldable pub mask_of : ℕ → ℕ → ℕ
mask_of mode r2 =
    if bit_and mode 0x40 == 0
    then trunc (dim mode) r2
    else pack (width mode)
        (tabulate (dim mode) (λ i. if is_set r2 i then 2 ^ width mode - 1 else 0))

unfoldable pub cmp_masked : ℕ → ℕ → ℕ → ℕ → ℕ → ℕ × ℕ
cmp_masked a la b lb mode = let r2 = pcmpstr_calc_res a la b lb mode in (mask_of mode r2, r2)

-- Index and flags, mask and flags; with the lengths given, or those of the strings.
unfoldable pub cmp_ei : ℕ → ℕ → ℕ → ℕ → ℕ → ℕ × ℕ
cmp_ei a la b lb mode =
    let r = cmp_indexed a la b lb mode in (r.0, cmp_flags a la b lb mode r.1 false)

unfoldable pub cmp_ii : ℕ → ℕ → ℕ → ℕ × ℕ
cmp_ii a b mode =
    let la = calc_str_len a mode in
    let lb = calc_str_len b mode in
    let r = cmp_indexed a la b lb mode in (r.0, cmp_flags a la b lb mode r.1 true)

unfoldable pub cmp_em : ℕ → ℕ → ℕ → ℕ → ℕ → ℕ × ℕ
cmp_em a la b lb mode =
    let r = cmp_masked a la b lb mode in (r.0, cmp_flags a la b lb mode r.1 false)

unfoldable pub cmp_im : ℕ → ℕ → ℕ → ℕ × ℕ
cmp_im a b mode =
    let la = calc_str_len a mode in
    let lb = calc_str_len b mode in
    let r = cmp_masked a la b lb mode in (r.0, cmp_flags a la b lb mode r.1 true)
