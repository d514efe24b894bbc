-- ===== src/Sse2/Shuffle.antt =====
-- The shuffles, shifts and interleavings of vsse2.h.
use opemu_linux.Common.{ℕ, zero, suc, ◌+◌, ◌-◌, ◌*◌, ◌/◌, ◌%◌, ◌^◌, List, [], ◌∷◌, ◌++◌}
use opemu_linux.Common.{bit_and, ◌>>>◌, leb, ltb, ◌==◌, if◌then◌else◌}
use opemu_linux.Common.Int.{shiftℤ, signed, wrap}
use opemu_linux.Common.Lanes.{lane, pack, tabulate}
use opemu_linux.Simd.Loops.{each_lane, shift_left, shift_right}

-- `order = (imm >> (i * 2)) & 3`, and the four lanes in that order.
unfoldable pub ordered : ℕ → ℕ → ℕ → List ℕ
ordered w src imm = tabulate 4 (λ i. lane w (bit_and (imm >>> (i * 2)) 3) src)

unfoldable pub vpshufd_128 : ℕ → ℕ → ℕ
unfolding ordered
vpshufd_128 src imm = pack 32 (ordered 32 src imm)

-- The high half takes its lanes from the low half too.
unfoldable pub vpshufd_256 : ℕ → ℕ → ℕ
unfolding ordered
vpshufd_256 src imm = pack 32 (ordered 32 src imm ++ ordered 32 src imm)

-- The words of 64 bits in order.
unfoldable pub ordered_words : ℕ → ℕ → ℕ
unfolding ordered
ordered_words x imm = pack 16 (ordered 16 x imm)

unfoldable pub vpshufhw_128 : ℕ → ℕ → ℕ
unfolding ordered_words
vpshufhw_128 src imm = pack 64 (lane 64 0 src ∷ ordered_words (lane 64 1 src) imm ∷ [])

unfoldable pub vpshufhw_256 : ℕ → ℕ → ℕ
unfolding ordered_words
vpshufhw_256 src imm = pack 64 (
    lane 64 0 src
    ∷ ordered_words (lane 64 1 src) imm
    ∷ lane 64 2 src
    ∷ ordered_words (lane 64 3 src) imm
    ∷ [])

unfoldable pub vpshuflw_128 : ℕ → ℕ → ℕ
unfolding ordered_words
vpshuflw_128 src imm = pack 64 (ordered_words (lane 64 0 src) imm ∷ lane 64 1 src ∷ [])

unfoldable pub vpshuflw_256 : ℕ → ℕ → ℕ
unfolding ordered_words
vpshuflw_256 src imm = pack 64 (
    ordered_words (lane 64 0 src) imm
    ∷ lane 64 1 src
    ∷ ordered_words (lane 64 2 src) imm
    ∷ lane 64 3 src
    ∷ [])

-- `if (count > top) count = top + 1;`
unfoldable pub limited : ℕ → ℕ → ℕ
limited top count = if ltb top count then top + 1 else count

-- A word is shifted as an int, so that 16 places are within the type.
unfoldable pub vpsllw : ℕ → ℕ → ℕ → ℕ
unfolding each_lane limited
vpsllw n src count = each_lane 16 n (λ x. x * 2 ^ limited 15 count) src

unfoldable pub vpsrlw : ℕ → ℕ → ℕ → ℕ
unfolding each_lane limited
vpsrlw n src count = each_lane 16 n (λ x. x / 2 ^ limited 15 count) src

unfoldable pub vpsraw : ℕ → ℕ → ℕ → ℕ
unfolding each_lane limited
vpsraw n src count = each_lane 16 n (λ x. wrap 16 (shiftℤ (limited 15 count) (signed 16 x))) src

-- The shifts of wider lanes: by the full width they are left to the compiler.
module _ (wide : ℕ → ℕ) where
  -- vpslld and vpsllq.
  unfoldable pub vpsll : ℕ → ℕ → ℕ → ℕ → ℕ
  unfolding each_lane limited shift_left
  vpsll w n src count = each_lane w n (shift_left w wide (limited (w - 1) count)) src

  -- vpsrld and vpsrlq.
  unfoldable pub vpsrl : ℕ → ℕ → ℕ → ℕ → ℕ
  unfolding each_lane limited shift_right
  vpsrl w n src count = each_lane w n (shift_right w wide (limited (w - 1) count)) src

  unfoldable pub vpsrad : ℕ → ℕ → ℕ → ℕ
  unfolding each_lane limited
  vpsrad n src count =
      let k = limited 31 count in
      each_lane 32 n (λ x. if leb 32 k then wide x % 2 ^ 32 else wrap 32 (shiftℤ k (signed 32 x)))
        src

  -- Whole bytes of 128 bits, in one half or in two.
  unfoldable pub vpslldq : ℕ → ℕ → ℕ → ℕ
  unfolding each_lane limited shift_left
  vpslldq n src count = each_lane 128 n (shift_left 128 wide (limited 15 count * 8)) src

  unfoldable pub vpsrldq : ℕ → ℕ → ℕ → ℕ
  unfolding each_lane limited shift_right
  vpsrldq n src count = each_lane 128 n (shift_right 128 wide (limited 15 count * 8)) src

-- One double of a pair, by a bit of the immediate.
unfoldable pub either_of : ℕ → ℕ → ℕ → ℕ → ℕ
either_of imm k base x = if bit_and (imm >>> k) 1 == 0 then lane 64 base x else lane 64 (base + 1) x

unfoldable pub vshufpd_128 : ℕ → ℕ → ℕ → ℕ
unfolding either_of
vshufpd_128 src vsrc imm = pack 64 (either_of imm 0 0 vsrc ∷ either_of imm 1 0 src ∷ [])

unfoldable pub vshufpd_256 : ℕ → ℕ → ℕ → ℕ
unfolding either_of
vshufpd_256 src vsrc imm = pack 64 (
    either_of imm 0 0 vsrc
    ∷ either_of imm 1 0 src
    ∷ either_of imm 2 2 vsrc
    ∷ either_of imm 3 2 src
    ∷ [])

-- The interleaved lanes of 128 bits that begin at lane `base`: `n` pairs from `from` on, the lane of
-- vsrc first.
unfoldable pub interleaved : ℕ → ℕ → ℕ → ℕ → ℕ → List ℕ
interleaved w src vsrc from zero = []
interleaved w src vsrc from (suc n) =
    lane w from vsrc ∷ lane w from src ∷ interleaved w src vsrc (from + 1) n

-- `n` is the number of lanes in 64 bits.
unfoldable pub vpunpckl_128 : ℕ → ℕ → ℕ → ℕ → ℕ
unfolding interleaved
vpunpckl_128 w n src vsrc = pack w (interleaved w src vsrc 0 n)

unfoldable pub vpunpckl_256 : ℕ → ℕ → ℕ → ℕ → ℕ
unfolding interleaved
vpunpckl_256 w n src vsrc = pack w (interleaved w src vsrc 0 n ++ interleaved w src vsrc (2 * n) n)

unfoldable pub vpunpckh_128 : ℕ → ℕ → ℕ → ℕ → ℕ
unfolding interleaved
vpunpckh_128 w n src vsrc = pack w (interleaved w src vsrc n n)

unfoldable pub vpunpckh_256 : ℕ → ℕ → ℕ → ℕ → ℕ
unfolding interleaved
vpunpckh_256 w n src vsrc = pack w (interleaved w src vsrc n n ++ interleaved w src vsrc (3 * n) n)
