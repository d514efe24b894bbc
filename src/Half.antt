-- ===== src/Half.antt =====
-- The conversions between half and single precision: half.c.
-- Every intermediate is below 2 ^ 31 and not negative, but for the exponents: where the source
-- subtracts, `ex` is the exponent field and the source's `e` is `ex - 112`.
pub mod Laws
pub mod Rounding
pub mod Renormalize
use opemu_linux.Common.{
  ℕ, zero, suc, ◌+◌, ◌-◌, ◌*◌, ◌/◌, ◌%◌, ◌^◌, trunc, compl, bit_and, bit_or, ◌<<<◌, ◌>>>◌,
}
use opemu_linux.Common.{ltb, leb, ◌==◌, if◌then◌else◌}

-- `while (!(m & 0x00000400)) { m <<= 1; e -= 1; }`, at most as often as the first argument says.
-- Returned are `m` and how often `e` was lowered.
unfoldable pub renormalize : ℕ → ℕ → ℕ → ℕ × ℕ
renormalize zero m lowered = (m, lowered)
renormalize (suc n) m lowered =
    let rest = renormalize n (trunc 32 (m <<< 1)) (lowered + 1) in
    if bit_and m 0x400 == 0 then rest else (m, lowered)

-- `Assemble s, e and m`, with the bias of a float.
unfoldable pub assemble : ℕ → ℕ → ℕ → ℕ
assemble s e m = bit_or (bit_or (s <<< 31) (e <<< 23)) (m <<< 13)

-- A mantissa that is not 0 has its leading bit in place after 10 shifts.
unfoldable pub half_to_float : ℕ → ℕ
unfolding renormalize assemble
half_to_float y =
    let s = bit_and (y >>> 15) 0x1 in
    let e = bit_and (y >>> 10) 0x1f in
    let m = bit_and y 0x3ff in
    if e == 0
    then (if m == 0
        then s <<< 31
        else (let r = renormalize 10 m 0 in
            assemble s (112 + 1 - r.1) (bit_and r.0 (compl 32 0x400))))
    else (if e == 31
        then (if m == 0
            then bit_or (s <<< 31) 0x7f800000
            else bit_or (bit_or (s <<< 31) 0x7f800000) (m <<< 13))
        else assemble s (e + (127 - 15)) m)

-- `e <= 0`: a zero or a denormalized half.
unfoldable pub round_denormal : ℕ → ℕ → ℕ → ℕ
round_denormal s ex m =
    if ltb ex 102
    then s
    else (let full = bit_or m 0x00800000 in
        let t = 126 - ex in
        let a = (1 <<< (t - 1)) - 1 in
        let b = bit_and (full >>> t) 1 in bit_or s ((full + a + b) >>> t))

-- `e == 0xff - (127 - 15)`: an infinity or a NAN.
unfoldable pub keep_nan : ℕ → ℕ → ℕ
keep_nan s m =
    if m == 0
    then bit_or s 0x7c00
    else (let top = m >>> 13 in bit_or (bit_or (bit_or s 0x7c00) top) (if top == 0 then 1 else 0))

-- A normalized half, or an infinity where the exponent is above 30.
unfoldable pub round_normal : ℕ → ℕ → ℕ → ℕ
round_normal s ex m =
    let sum = m + 0x00000fff + bit_and (m >>> 13) 1 in
    let carry = bit_and sum 0x00800000 in
    let m' = if carry == 0 then sum else 0 in
    let ex' = if carry == 0 then ex else ex + 1 in
    if ltb 142 ex' then bit_or s 0x7c00 else bit_or (bit_or s ((ex' - 112) <<< 10)) (m' >>> 13)

unfoldable pub float_to_half : ℕ → ℕ
unfolding round_denormal keep_nan round_normal
float_to_half i =
    let s = bit_and (i >>> 16) 0x00008000 in
    let ex = bit_and (i >>> 23) 0x000000ff in
    let m = bit_and i 0x007fffff in
    if leb ex 112
    then round_denormal s ex m
    else (if ex == 255 then keep_nan s m else round_normal s ex m)
