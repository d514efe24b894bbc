-- ===== src/Sse2/Compare.antt =====
-- Doubles as their 64-bit patterns: `isNaN_f64` of fpins.c, the comparisons of vsse2.c, and what
-- vsse2.h makes of them. `<` and `==` on doubles are those of the C language: false on a NaN, the two
-- zeros equal, and else the order of the numbers.
use opemu_linux.Common.{ℕ, ◌-◌, ◌^◌, Bool, true, false, not, ◌&&◌, ◌||◌, [], ◌∷◌, get_or}
use opemu_linux.Common.{bit_and, bit_or, bit_xor, ltb, ◌==◌, if◌then◌else◌}
use opemu_linux.Common.Int.{ℤ, pos, diff, ltℤ}
use opemu_linux.Common.Lanes.{lane, pack}
use opemu_linux.Simd.Loops.{zip_lanes}

unfoldable pub is_nan_f64 : ℕ → Bool
is_nan_f64 val =
    bit_and val 0x7FF0000000000000 == 0x7FF0000000000000 && not (bit_and val 0xFFFFFFFFFFFFF == 0)

-- The place of a double among the others: its magnitude bits with its sign.
unfoldable pub rank : ℕ → ℤ
rank x = if ltb x (2 ^ 63) then pos x else diff 0 (x - 2 ^ 63)

abbrev pub eqℤ : ℤ → ℤ → Bool
eqℤ a b = not (ltℤ a b) && not (ltℤ b a)

-- `SRC1 < SRC2` and `SRC1 == SRC2`
unfoldable pub lt_f64 : ℕ → ℕ → Bool
unfolding is_nan_f64 rank
lt_f64 a b = not (is_nan_f64 a) && not (is_nan_f64 b) && ltℤ (rank a) (rank b)

unfoldable pub eq_f64 : ℕ → ℕ → Bool
unfolding is_nan_f64 rank
eq_f64 a b = not (is_nan_f64 a) && not (is_nan_f64 b) && eqℤ (rank a) (rank b)

-- `SRC1 <= SRC2`
unfoldable pub le_f64 : ℕ → ℕ → Bool
unfolding lt_f64 eq_f64
le_f64 a b = lt_f64 a b || eq_f64 a b

unfoldable pub maxdf : ℕ → ℕ → Bool
unfolding lt_f64 eq_f64
maxdf a b =
    if eq_f64 a 0 && eq_f64 b 0
    then false
    else (if is_nan_f64 a then false else (if is_nan_f64 b then false else lt_f64 b a))

unfoldable pub mindf : ℕ → ℕ → Bool
unfolding lt_f64 eq_f64
mindf a b =
    if eq_f64 a 0 && eq_f64 b 0
    then false
    else (if is_nan_f64 a then false else (if is_nan_f64 b then false else lt_f64 a b))

-- A test, and what two operands of which one is a NAN make of it: nothing, 1 or 0.
unfoldable pub or_nan : ℕ → ℕ → Bool → Bool
or_nan a b opt = if is_nan_f64 b then true else (if is_nan_f64 a then true else opt)

unfoldable pub unless_nan : ℕ → ℕ → Bool → Bool
unless_nan a b opt = if is_nan_f64 b then false else (if is_nan_f64 a then false else opt)

-- The switch of `cmpoptdf` on `immvar`: its 32 cases, and the default.
unfoldable pub cmpoptdf : ℕ → ℕ → ℕ → Bool
unfolding or_nan unless_nan le_f64
cmpoptdf a b immvar =
    get_or
      (eq_f64 a b
        ∷ lt_f64 a b
        ∷ le_f64 a b
        ∷ or_nan a b false
        ∷ or_nan a b (not (eq_f64 a b))
        ∷ or_nan a b (le_f64 b a)
        ∷ or_nan a b (lt_f64 b a)
        ∷ unless_nan a b true
        ∷ or_nan a b (eq_f64 a b)
        ∷ or_nan a b (lt_f64 a b)
        ∷ or_nan a b (le_f64 a b)
        ∷ false
        ∷ unless_nan a b (not (eq_f64 a b))
        ∷ le_f64 b a
        ∷ lt_f64 b a
        ∷ true
        ∷ eq_f64 a b
        ∷ lt_f64 a b
        ∷ le_f64 a b
        ∷ or_nan a b false
        ∷ or_nan a b (not (eq_f64 a b))
        ∷ or_nan a b (le_f64 b a)
        ∷ or_nan a b (lt_f64 b a)
        ∷ unless_nan a b true
        ∷ or_nan a b (eq_f64 a b)
        ∷ or_nan a b (lt_f64 a b)
        ∷ or_nan a b (le_f64 a b)
        ∷ false
        ∷ unless_nan a b (not (eq_f64 a b))
        ∷ le_f64 b a
        ∷ lt_f64 b a
        ∷ true
        ∷ [])
      immvar false

-- The smaller or the greater double of each pair: that of vsrc if the test says so.
unfoldable pub vminpd : ℕ → ℕ → ℕ → ℕ
unfolding zip_lanes
vminpd n src vsrc = zip_lanes 64 n (λ x y. if mindf x y then x else y) src vsrc

unfoldable pub vmaxpd : ℕ → ℕ → ℕ → ℕ
unfolding zip_lanes
vmaxpd n src vsrc = zip_lanes 64 n (λ x y. if maxdf x y then x else y) src vsrc

-- The scalar forms keep the high half of vsrc.
unfoldable pub vminsd : ℕ → ℕ → ℕ
vminsd src vsrc =
    let x = lane 64 0 vsrc in
    let y = lane 64 0 src in pack 64 ((if mindf x y then x else y) ∷ lane 64 1 vsrc ∷ [])

unfoldable pub vmaxsd : ℕ → ℕ → ℕ
vmaxsd src vsrc =
    let x = lane 64 0 vsrc in
    let y = lane 64 0 src in pack 64 ((if maxdf x y then x else y) ∷ lane 64 1 vsrc ∷ [])

unfoldable pub vcmppd : ℕ → ℕ → ℕ → ℕ → ℕ
unfolding zip_lanes
vcmppd n src vsrc imm =
    zip_lanes 64 n (λ x y. if cmpoptdf x y (bit_and imm 31) then 2 ^ 64 - 1 else 0) src vsrc

unfoldable pub vcmpsd : ℕ → ℕ → ℕ → ℕ
vcmpsd src vsrc imm =
    let test = cmpoptdf (lane 64 0 vsrc) (lane 64 0 src) (bit_and imm 31) in
    pack 64 ((if test then 2 ^ 64 - 1 else 0) ∷ lane 64 1 vsrc ∷ [])

-- `FLAGS |= m` and `FLAGS = (FLAGS | m) ^ m`
unfoldable pub clear_flag : ℕ → ℕ → ℕ
clear_flag flags m = bit_xor (bit_or flags m) m

-- The first test asks twice about SRC1, and never about SRC2.
unfoldable pub vucomusd : ℕ → ℕ → ℕ → ℕ
unfolding clear_flag
vucomusd src dst flags =
    let x = lane 64 0 dst in
    let y = lane 64 0 src in
    let f1 =
      if is_nan_f64 x || is_nan_f64 x
      then bit_or (bit_or (bit_or flags 0x40) 0x04) 0x01
      else flags in
    let f2 = if lt_f64 y x then clear_flag (clear_flag (clear_flag f1 0x40) 0x04) 0x01 else f1 in
    let f3 = if lt_f64 x y then bit_or (clear_flag (clear_flag f2 0x40) 0x04) 0x01 else f2 in
    let f4 = if eq_f64 x y then clear_flag (clear_flag (bit_or f3 0x40) 0x04) 0x01 else f3 in
    clear_flag (clear_flag (clear_flag f4 0x800) 0x10) 0x80
