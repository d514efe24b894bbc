-- ===== src/Sse41/Other.antt =====
-- vphminposuw, vptest and vmpsadbw of vsse41.h.
use opemu_linux.Common.{ℕ, zero, suc, ◌+◌, ltb, ◌&&◌, Bool, ◌==◌, if◌then◌else◌, [], ◌∷◌}
use opemu_linux.Common.{bit_and, bit_or, compl, ◌>>>◌}
use opemu_linux.Common.Int.{◌-ℤ◌, absℤ, signed, wrap}
use opemu_linux.Common.Lanes.{lane, pack, tabulate}
use opemu_linux.Operand.{set_low}
use opemu_linux.Sse2.Compare.{clear_flag}

-- `for (i = 1; i <= n; ++i) if (src.u16[i] < min) index = i;`, where `min` stays the word 0.
unfoldable pub last_smaller : ℕ → ℕ → ℕ
last_smaller src zero = 0
last_smaller src (suc n) =
    let before = last_smaller src n in
    if ltb (lane 16 (suc n) src) (lane 16 0 src) then suc n else before

unfoldable pub vphminposuw : ℕ → ℕ
unfolding last_smaller
vphminposuw src = let index = last_smaller src 7 in pack 16 (lane 16 index src ∷ index ∷ [])

-- The flags of vptest, by whether its two products are 0.
unfoldable pub test_flags : Bool → Bool → ℕ → ℕ
unfolding clear_flag
test_flags no_and no_andn flags =
    let f1 = if no_and then bit_or flags 0x40 else clear_flag flags 0x40 in
    let f2 = if no_andn then bit_or f1 0x01 else clear_flag f1 0x01 in
    clear_flag (clear_flag (clear_flag (clear_flag f2 0x800) 0x10) 0x80) 0x04

unfoldable pub vptest_128 : ℕ → ℕ → ℕ → ℕ
unfolding test_flags
vptest_128 src dst flags =
    test_flags (bit_and src dst == 0) (bit_and src (compl 128 dst) == 0) flags

-- ZF looks at the low half alone, and CF at the high one.
unfoldable pub vptest_256 : ℕ → ℕ → ℕ → ℕ
unfolding test_flags
vptest_256 src dst flags =
    let and1 = bit_and (lane 128 0 src) (lane 128 0 dst) in
    let and2 = bit_and (lane 128 1 src) (compl 128 (lane 128 1 dst)) in
    test_flags (and1 == 0 && and1 == 0) (and2 == 0 && and2 == 0) flags

-- `X = a - b` in an int8_t, and `ABS(X)` in a uint8_t.
unfoldable pub gap : ℕ → ℕ → ℕ
gap a b = wrap 8 (absℤ (signed 8 (wrap 8 (signed 8 a -ℤ signed 8 b))))

-- Of the three words that are written one over the other the last one stays; the bytes above are
-- those of the local `src1_byte` that are never set, `unset`.
unfoldable pub block_sums : ℕ → ℕ → ℕ → ℕ → ℕ → ℕ
unfolding gap
block_sums unset src1 src2 blk1 blk2 =
    let a = set_low 32 unset (lane 32 (blk1 + 2) src1) in
    let b = lane 32 blk2 src2 in
    pack 16 (
      tabulate 8 (λ i.
        gap (lane 8 i a) (lane 8 0 b)
        + gap (lane 8 (i + 1) a) (lane 8 1 b)
        + gap (lane 8 (i + 2) a) (lane 8 2 b)
        + gap (lane 8 (i + 3) a) (lane 8 3 b)))

unfoldable pub vmpsadbw_128 : ℕ → ℕ → ℕ → ℕ → ℕ
unfolding block_sums
vmpsadbw_128 unset src vsrc imm = block_sums unset vsrc src (bit_and (imm >>> 2) 1) (bit_and imm 3)

unfoldable pub vmpsadbw_256 : ℕ → ℕ → ℕ → ℕ → ℕ
unfolding block_sums
vmpsadbw_256 unset src vsrc imm = pack 128 (
    block_sums unset (lane 128 0 vsrc) (lane 128 0 src) (bit_and (imm >>> 2) 1) (bit_and imm 3)
    ∷ block_sums unset (lane 128 1 vsrc) (lane 128 1 src) (bit_and (imm >>> 5) 1)
        (bit_and (imm >>> 3) 3)
    ∷ [])
