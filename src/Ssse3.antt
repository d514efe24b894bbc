-- ===== src/Ssse3.antt =====
-- The SSSE3 instructions in VEX form: vssse3.h. Where the source has a function for XMM and one for
-- YMM with the same loop, `n` is the number of lanes.
pub mod Dispatch
pub mod Laws
pub mod Align
use opemu_linux.Common.{ℕ, ◌+◌, ◌-◌, ◌*◌, List, [], ◌∷◌, ◌++◌}
use opemu_linux.Common.{trunc, neg, bit_and, bit_or, ◌>>>◌, ◌<<<◌, ltb, ◌==◌, if◌then◌else◌}
use opemu_linux.Common.Int.{
  ℤ, pos, negsuc, ◌+ℤ◌, ◌-ℤ◌, ◌*ℤ◌, ltℤ, shiftℤ, signed, wrap, absℤ, clampℤ,
}
use opemu_linux.Common.Lanes.{lane, pack, tabulate}

-- `STSW(x)`
unfoldable pub stsw : ℤ → ℤ
stsw x = clampℤ (negsuc 32767) (pos 32767) x

-- A value of type int16_t.
abbrev int16 : ℤ → ℤ
int16 z = signed 16 (wrap 16 z)

-- In every lane the index stays in the low 128 bits.
unfoldable pub shuffled_byte : ℕ → ℕ → ℕ → ℕ
shuffled_byte src vsrc i =
    let mask = lane 8 i src in
    if bit_and (mask >>> 7) 1 == 0 then lane 8 (bit_and (lane 8 i src) 15) vsrc else 0

unfoldable pub vpshufb : ℕ → ℕ → ℕ → ℕ
unfolding shuffled_byte
vpshufb n src vsrc = pack 8 (tabulate n (shuffled_byte src vsrc))

-- `j = i < 1`, a comparison.
unfoldable pub pair_index : ℕ → ℕ
pair_index i = if ltb i 1 then 1 else 0

-- The `count` results of one operand, from the lanes at `base` on, and of both operands.
unfoldable pub pairs : ℕ → ℕ → (ℕ → ℕ → ℕ) → ℕ → ℕ → List ℕ
unfolding pair_index
pairs w count op base x =
    tabulate count (λ i. op (lane w (pair_index i + base) x) (lane w (pair_index i + 1 + base) x))

unfoldable pub horizontal : ℕ → ℕ → (ℕ → ℕ → ℕ) → ℕ → ℕ → ℕ → List ℕ
unfolding pairs
horizontal w count op base src vsrc = pairs w count op base vsrc ++ pairs w count op base src

-- The two loops of the functions for YMM.
unfoldable pub horizontal_256 : ℕ → ℕ → (ℕ → ℕ → ℕ) → ℕ → ℕ → List ℕ
unfolding horizontal
horizontal_256 w count op src vsrc =
    horizontal w count op 0 src vsrc ++ horizontal w count op (2 * count) src vsrc

-- What is done with a pair of lanes: the sum or difference, and with STSW on an int16_t.
unfoldable pub add_pair : ℕ → ℕ → ℕ
add_pair low high = high + low

unfoldable pub adds_pair : ℕ → ℕ → ℕ
unfolding stsw
adds_pair low high = wrap 16 (stsw (int16 (signed 16 high +ℤ signed 16 low)))

unfoldable pub sub_pair : ℕ → ℕ → ℕ → ℕ
sub_pair w low high = wrap w (signed w low -ℤ signed w high)

unfoldable pub subs_pair : ℕ → ℕ → ℕ
unfolding stsw
subs_pair low high = wrap 16 (stsw (int16 (signed 16 low -ℤ signed 16 high)))

unfoldable pub vphaddw_128 : ℕ → ℕ → ℕ
unfolding horizontal add_pair
vphaddw_128 src vsrc = pack 16 (horizontal 16 4 add_pair 0 src vsrc)

unfoldable pub vphaddw_256 : ℕ → ℕ → ℕ
unfolding horizontal_256 add_pair
vphaddw_256 src vsrc = pack 16 (horizontal_256 16 4 add_pair src vsrc)

unfoldable pub vphaddd_128 : ℕ → ℕ → ℕ
unfolding horizontal add_pair
vphaddd_128 src vsrc = pack 32 (horizontal 32 2 add_pair 0 src vsrc)

unfoldable pub vphaddd_256 : ℕ → ℕ → ℕ
unfolding horizontal_256 add_pair
vphaddd_256 src vsrc = pack 32 (horizontal_256 32 2 add_pair src vsrc)

unfoldable pub vphaddsw_128 : ℕ → ℕ → ℕ
unfolding horizontal adds_pair
vphaddsw_128 src vsrc = pack 16 (horizontal 16 4 adds_pair 0 src vsrc)

unfoldable pub vphaddsw_256 : ℕ → ℕ → ℕ
unfolding horizontal_256 adds_pair
vphaddsw_256 src vsrc = pack 16 (horizontal_256 16 4 adds_pair src vsrc)

unfoldable pub vphsubw_128 : ℕ → ℕ → ℕ
unfolding horizontal sub_pair
vphsubw_128 src vsrc = pack 16 (horizontal 16 4 (sub_pair 16) 0 src vsrc)

unfoldable pub vphsubw_256 : ℕ → ℕ → ℕ
unfolding horizontal_256 sub_pair
vphsubw_256 src vsrc = pack 16 (horizontal_256 16 4 (sub_pair 16) src vsrc)

unfoldable pub vphsubd_128 : ℕ → ℕ → ℕ
unfolding horizontal sub_pair
vphsubd_128 src vsrc = pack 32 (horizontal 32 2 (sub_pair 32) 0 src vsrc)

unfoldable pub vphsubd_256 : ℕ → ℕ → ℕ
unfolding horizontal_256 sub_pair
vphsubd_256 src vsrc = pack 32 (horizontal_256 32 2 (sub_pair 32) src vsrc)

unfoldable pub vphsubsw_128 : ℕ → ℕ → ℕ
unfolding horizontal subs_pair
vphsubsw_128 src vsrc = pack 16 (horizontal 16 4 subs_pair 0 src vsrc)

unfoldable pub vphsubsw_256 : ℕ → ℕ → ℕ
unfolding horizontal_256 subs_pair
vphsubsw_256 src vsrc = pack 16 (horizontal_256 16 4 subs_pair src vsrc)

-- Both operands are read as signed bytes.
unfoldable pub maddubs_lane : ℕ → ℕ → ℕ → ℕ
unfolding pair_index stsw
maddubs_lane src vsrc i =
    let j = pair_index i in
    let product = λ (k : ℕ). signed 8 (lane 8 k src) *ℤ signed 8 (lane 8 k vsrc) in
    wrap 16 (stsw (int16 (product (j + 1) +ℤ product j)))

unfoldable pub vpmaddubsw : ℕ → ℕ → ℕ → ℕ
unfolding maddubs_lane
vpmaddubsw n src vsrc = pack 16 (tabulate n (maddubs_lane src vsrc))

-- `old` is what the result held before: the handler copies the destination into it.
unfoldable pub sign_lane : ℕ → ℕ → ℕ → ℕ → ℕ → ℕ
sign_lane w src vsrc old i =
    let mask = signed w (lane w i src) in
    if ltℤ mask (pos 0)
    then neg w (lane w i vsrc)
    else (if ltℤ (pos 0) mask then lane w i old else 0)

unfoldable pub vpsign : ℕ → ℕ → ℕ → ℕ → ℕ → ℕ
unfolding sign_lane
vpsign w n src vsrc old = pack w (tabulate n (sign_lane w src vsrc old))

unfoldable pub mulhrs_lane : ℕ → ℕ → ℕ → ℕ
mulhrs_lane src vsrc i =
    wrap 16 (shiftℤ 15 (signed 16 (lane 16 i vsrc) *ℤ signed 16 (lane 16 i src) +ℤ pos 0x4000))

unfoldable pub vpmulhrsw : ℕ → ℕ → ℕ → ℕ
unfolding mulhrs_lane
vpmulhrsw n src vsrc = pack 16 (tabulate n (mulhrs_lane src vsrc))

unfoldable pub vpabs : ℕ → ℕ → ℕ → ℕ
vpabs w n src = pack w (tabulate n (λ i. wrap w (absℤ (signed w (lane w i src)))))

unfoldable pub vpalignr_128 : ℕ → ℕ → ℕ → ℕ
vpalignr_128 src vsrc imm =
    if imm == 0
    then src
    else (if ltb imm 16
        then bit_or (trunc 128 (vsrc <<< (128 - imm * 8))) (src >>> (imm * 8))
        else (if imm == 16 then vsrc else (if ltb imm 32 then vsrc >>> ((imm - 16) * 8) else 0)))

unfoldable pub vpalignr_256 : ℕ → ℕ → ℕ → ℕ
unfolding vpalignr_128
vpalignr_256 src vsrc imm = pack 128 (
    vpalignr_128 (lane 128 0 src) (lane 128 0 vsrc) imm
    ∷ vpalignr_128 (lane 128 1 src) (lane 128 1 vsrc) imm
    ∷ [])
