-- ===== src/Sse/Moves.antt =====
-- The moves, interleavings and selections of vsse.h. Floats are copied by their bits.
use opemu_linux.Common.{ℕ, ◌%◌, ◌^◌, List, [], ◌∷◌, ◌++◌, bit_and, ◌>>>◌}
use opemu_linux.Common.Lanes.{lane, pack}
use opemu_linux.Simd.Loops.{lanes_of}
use opemu_linux.Operand.{set_low}
use opemu_linux.Sse2.Moves.{top_bits}
use opemu_linux.Sse2.Shuffle.{interleaved}

unfoldable pub vmovups : ℕ → ℕ → ℕ
unfolding lanes_of
vmovups n src = pack 32 (lanes_of 32 n src)

-- A write of the lowest float alone.
unfoldable pub vmovss_128a : ℕ → ℕ → ℕ
vmovss_128a src vsrc = set_low 32 vsrc (lane 32 0 src)

unfoldable pub vmovss_128b : ℕ → ℕ
vmovss_128b src = lane 32 0 src

unfoldable pub vmovhlps : ℕ → ℕ → ℕ
vmovhlps src vsrc = pack 64 (lane 64 1 src ∷ lane 64 1 vsrc ∷ [])

unfoldable pub vmovlps_128a : ℕ → ℕ → ℕ
vmovlps_128a src vsrc = pack 64 (lane 64 0 src ∷ lane 64 1 vsrc ∷ [])

-- Only the low half of the result is written; `old` is what it held.
unfoldable pub vmovlps_128b : ℕ → ℕ → ℕ
vmovlps_128b src old = set_low 64 old (lane 64 0 src)

-- vmovlhps and vmovhps_128a have the same body.
unfoldable pub vmovlhps : ℕ → ℕ → ℕ
vmovlhps src vsrc = pack 64 (lane 64 0 vsrc ∷ lane 64 0 src ∷ [])

unfoldable pub vmovhps_128a : ℕ → ℕ → ℕ
vmovhps_128a src vsrc = pack 64 (lane 64 0 vsrc ∷ lane 64 0 src ∷ [])

-- The store takes the low half.
unfoldable pub vmovhps_128b : ℕ → ℕ → ℕ
vmovhps_128b src old = set_low 64 old (lane 64 0 src)

unfoldable pub vmovntps : ℕ → ℕ
vmovntps dst = dst

unfoldable pub vmovmskps : ℕ → ℕ → ℕ → ℕ
unfolding top_bits
vmovmskps n src old = set_low 32 old (top_bits 32 src n % 2 ^ 32)

-- The four floats of a shuffle: two of vsrc and two of src, by two bits of the immediate each.
unfoldable pub shuffled : ℕ → ℕ → ℕ → List ℕ
shuffled src vsrc imm =
    lane 32 (bit_and imm 3) vsrc
    ∷ lane 32 (bit_and (imm >>> 2) 3) vsrc
    ∷ lane 32 (bit_and (imm >>> 4) 3) src
    ∷ lane 32 (bit_and (imm >>> 6) 3) src
    ∷ []

unfoldable pub vshufps_128 : ℕ → ℕ → ℕ → ℕ
unfolding shuffled
vshufps_128 src vsrc imm = pack 32 (shuffled src vsrc imm)

-- The high half takes its floats from the low halves too.
unfoldable pub vshufps_256 : ℕ → ℕ → ℕ → ℕ
unfolding shuffled
vshufps_256 src vsrc imm = pack 32 (shuffled src vsrc imm ++ shuffled src vsrc imm)

unfoldable pub vunpcklps_128 : ℕ → ℕ → ℕ
unfolding interleaved
vunpcklps_128 src vsrc = pack 32 (interleaved 32 src vsrc 0 2)

unfoldable pub vunpcklps_256 : ℕ → ℕ → ℕ
unfolding interleaved
vunpcklps_256 src vsrc = pack 32 (interleaved 32 src vsrc 0 2 ++ interleaved 32 src vsrc 4 2)

unfoldable pub vunpckhps_128 : ℕ → ℕ → ℕ
unfolding interleaved
vunpckhps_128 src vsrc = pack 32 (interleaved 32 src vsrc 2 2)

unfoldable pub vunpckhps_256 : ℕ → ℕ → ℕ
unfolding interleaved
vunpckhps_256 src vsrc = pack 32 (interleaved 32 src vsrc 2 2 ++ interleaved 32 src vsrc 6 2)
