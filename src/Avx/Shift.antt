-- ===== src/Avx/Shift.antt =====
-- The shifts of avx.h, each lane by a count of its own. A count from the width on is left to the
-- compiler: `beyond count x` is what it makes of it.
use opemu_linux.Common.{ℕ, ◌%◌, ◌^◌, leb, if◌then◌else◌}
use opemu_linux.Common.Int.{shiftℤ, signed, wrap}
use opemu_linux.Simd.Loops.{zip_lanes, shift_left, shift_right}

module _ (beyond : ℕ → ℕ → ℕ) where
  -- vpsllvd and vpsllvq.
  unfoldable pub vpsllv : ℕ → ℕ → ℕ → ℕ → ℕ
  unfolding zip_lanes shift_left
  vpsllv w n src vsrc = zip_lanes w n (λ x count. shift_left w (beyond count) count x) src vsrc

  -- vpsrlvd and vpsrlvq.
  unfoldable pub vpsrlv : ℕ → ℕ → ℕ → ℕ → ℕ
  unfolding zip_lanes shift_right
  vpsrlv w n src vsrc = zip_lanes w n (λ x count. shift_right w (beyond count) count x) src vsrc

  -- The form for XMM shifts to the left.
  unfoldable pub vpsravd_128 : ℕ → ℕ → ℕ
  unfolding zip_lanes shift_left
  vpsravd_128 src vsrc = zip_lanes 32 4 (λ x count. shift_left 32 (beyond count) count x) src vsrc

  unfoldable pub arithmetic_right : ℕ → ℕ → ℕ
  arithmetic_right count x =
      if leb 32 count then beyond count x % 2 ^ 32 else wrap 32 (shiftℤ count (signed 32 x))

  unfoldable pub vpsravd_256 : ℕ → ℕ → ℕ
  unfolding zip_lanes arithmetic_right
  vpsravd_256 src vsrc = zip_lanes 32 8 (λ x count. arithmetic_right count x) src vsrc
