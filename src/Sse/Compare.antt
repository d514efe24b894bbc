-- ===== src/Sse/Compare.antt =====
-- Floats as their 32-bit patterns: `isNaN_f32` of fpins.c, the comparisons of vsse.c, and what vsse.h
-- makes of them. `<` and `==` on floats are those of the C language: false on a NaN, the two zeros
-- equal, and else the order of the numbers.
use opemu_linux.Common.{ℕ, ◌-◌, ◌^◌, ◌*◌, Bool, true, false, not, ◌&&◌, ◌||◌, [], ◌∷◌, get_or}
use opemu_linux.Common.{bit_and, bit_or, ltb, ◌==◌, if◌then◌else◌}
use opemu_linux.Common.Int.{ℤ, pos, diff, ltℤ}
use opemu_linux.Common.Lanes.{lane}
use opemu_linux.Simd.Loops.{zip_lanes}
use opemu_linux.Operand.{set_low}
use opemu_linux.Sse2.Compare.{eqℤ, clear_flag}

unfoldable pub is_nan_f32 : ℕ → Bool
is_nan_f32 val = bit_and val 0x7F800000 == 0x7F800000 && not (bit_and val 0x7FFFFF == 0)

-- The place of a float among the others: its magnitude bits with its sign.
unfoldable pub rank_f32 : ℕ → ℤ
rank_f32 x = if ltb x (2 ^ 31) then pos x else diff 0 (x - 2 ^ 31)

-- `SRC1 < SRC2` and `SRC1 == SRC2`
unfoldable pub lt_f32 : ℕ → ℕ → Bool
unfolding is_nan_f32 rank_f32
lt_f32 a b = not (is_nan_f32 a) && not (is_nan_f32 b) && ltℤ (rank_f32 a) (rank_f32 b)

unfoldable pub eq_f32 : ℕ → ℕ → Bool
unfolding is_nan_f32 rank_f32
eq_f32 a b = not (is_nan_f32 a) && not (is_nan_f32 b) && eqℤ (rank_f32 a) (rank_f32 b)

-- `SRC1 <= SRC2`
unfoldable pub le_f32 : ℕ → ℕ → Bool
unfolding lt_f32 eq_f32
le_f32 a b = lt_f32 a b || eq_f32 a b

unfoldable pub maxsf : ℕ → ℕ → Bool
unfolding lt_f32 eq_f32
maxsf a b =
    if eq_f32 a 0 && eq_f32 b 0
    then false
    else (if is_nan_f32 a then false else (if is_nan_f32 b then false else lt_f32 b a))

unfoldable pub minsf : ℕ → ℕ → Bool
unfolding lt_f32 eq_f32
minsf a b =
    if eq_f32 a 0 && eq_f32 b 0
    then false
    else (if is_nan_f32 a then false else (if is_nan_f32 b then false else lt_f32 a b))

-- A test, and what two operands of which one is a NAN make of it: nothing, 1 or 0.
unfoldable pub or_nan_f32 : ℕ → ℕ → Bool → Bool
or_nan_f32 a b opt = if is_nan_f32 b then true else (if is_nan_f32 a then true else opt)

unfoldable pub unless_nan_f32 : ℕ → ℕ → Bool → Bool
unless_nan_f32 a b opt = if is_nan_f32 b then false else (if is_nan_f32 a then false else opt)

-- The switch of `cmpoptsf` on `immvar`: its 32 cases, and the default.
unfoldable pub cmpoptsf : ℕ → ℕ → ℕ → Bool
unfolding or_nan_f32 unless_nan_f32 le_f32
cmpoptsf a b immvar =
    get_or
      (eq_f32 a b
        ∷ lt_f32 a b
        ∷ le_f32 a b
        ∷ or_nan_f32 a b false
        ∷ or_nan_f32 a b (not (eq_f32 a b))
        ∷ or_nan_f32 a b (le_f32 b a)
        ∷ or_nan_f32 a b (lt_f32 b a)
        ∷ unless_nan_f32 a b true
        ∷ or_nan_f32 a b (eq_f32 a b)
        ∷ or_nan_f32 a b (lt_f32 a b)
        ∷ or_nan_f32 a b (le_f32 a b)
        ∷ false
        ∷ unless_nan_f32 a b (not (eq_f32 a b))
        ∷ le_f32 b a
        ∷ lt_f32 b a
        ∷ true
        ∷ eq_f32 a b
        ∷ lt_f32 a b
        ∷ le_f32 a b
        ∷ or_nan_f32 a b false
        ∷ or_nan_f32 a b (not (eq_f32 a b))
        ∷ or_nan_f32 a b (le_f32 b a)
        ∷ or_nan_f32 a b (lt_f32 b a)
        ∷ unless_nan_f32 a b true
        ∷ or_nan_f32 a b (eq_f32 a b)
        ∷ or_nan_f32 a b (lt_f32 a b)
        ∷ or_nan_f32 a b (le_f32 a b)
        ∷ false
        ∷ unless_nan_f32 a b (not (eq_f32 a b))
        ∷ le_f32 b a
        ∷ lt_f32 b a
        ∷ true
        ∷ [])
      immvar false

-- The smaller or the greater float of each pair, of the first `n` of them only: the loops of
-- vminps_128 and vmaxps_128 end at 2, and those for YMM at 4. `old` is what the result held.
unfoldable pub vminps : ℕ → ℕ → ℕ → ℕ → ℕ
unfolding zip_lanes
vminps n src vsrc old =
    set_low (32 * n) old (zip_lanes 32 n (λ x y. if minsf x y then x else y) src vsrc)

unfoldable pub vmaxps : ℕ → ℕ → ℕ → ℕ → ℕ
unfolding zip_lanes
vmaxps n src vsrc old =
    set_low (32 * n) old (zip_lanes 32 n (λ x y. if maxsf x y then x else y) src vsrc)

-- The scalar forms keep the other lanes of vsrc.
unfoldable pub vminss : ℕ → ℕ → ℕ
vminss src vsrc =
    let x = lane 32 0 vsrc in let y = lane 32 0 src in set_low 32 vsrc (if minsf x y then x else y)

unfoldable pub vmaxss : ℕ → ℕ → ℕ
vmaxss src vsrc =
    let x = lane 32 0 vsrc in let y = lane 32 0 src in set_low 32 vsrc (if maxsf x y then x else y)

unfoldable pub vcmpps : ℕ → ℕ → ℕ → ℕ → ℕ
unfolding zip_lanes
vcmpps n src vsrc imm =
    zip_lanes 32 n (λ x y. if cmpoptsf x y (bit_and imm 31) then 0xFFFFFFFF else 0) src vsrc

unfoldable pub vcmpss : ℕ → ℕ → ℕ → ℕ
vcmpss src vsrc imm =
    let test = cmpoptsf (lane 32 0 vsrc) (lane 32 0 src) (bit_and imm 31) in
    set_low 32 vsrc (if test then 0xFFFFFFFF else 0)

-- The first test asks twice about SRC1, and never about SRC2.
unfoldable pub vucomiss : ℕ → ℕ → ℕ → ℕ
unfolding clear_flag
vucomiss src dst flags =
    let x = lane 32 0 dst in
    let y = lane 32 0 src in
    let f1 =
      if is_nan_f32 x || is_nan_f32 x
      then bit_or (bit_or (bit_or flags 0x40) 0x04) 0x01
      else flags in
    let f2 = if lt_f32 y x then clear_flag (clear_flag (clear_flag f1 0x40) 0x04) 0x01 else f1 in
    let f3 = if lt_f32 x y then bit_or (clear_flag (clear_flag f2 0x40) 0x04) 0x01 else f2 in
    let f4 = if eq_f32 x y then clear_flag (clear_flag (bit_or f3 0x40) 0x04) 0x01 else f3 in
    clear_flag (clear_flag (clear_flag f4 0x800) 0x10) 0x80
