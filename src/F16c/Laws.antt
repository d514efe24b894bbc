-- ===== src/F16c/Laws.antt =====
-- The conversions lane by lane, and one after the other.
use opemu_linux.Common.{ℕ, ◌*◌, ◌%◌, ◌/◌, ◌^◌, ◌<◌, ◌≡◌, arith, ap, ◌+◌, ◌∙◌}
use opemu_linux.Common.Lanes.{lane, lane-lt, lane-tabulate, lane_ext, pack-tabulate-lt}
use opemu_linux.Operand.{set_low}
use opemu_linux.Half.{half_to_float, float_to_half}
use opemu_linux.Half.Laws.{half_to_float-lt, float_to_half-half_to_float}
use opemu_linux.F16c.{vcvtph2ps, halves, vcvtps2ph256, vcvtps2ph128}
use native.Mathlib.Nat.{mod-eq_of_lt}

-- Each float is that of the half in its place.
vcvtph2ps-lane : (n src i : ℕ) → i < n → lane 32 i (vcvtph2ps n src) ≡ half_to_float (lane 16 i src)
unfolding vcvtph2ps
vcvtph2ps-lane n src i h =
    lane-tabulate 32 n i _ h ∙ mod-eq_of_lt (half_to_float-lt (lane 16 i src) (lane-lt 16 i src))

-- Converting back gives every half again, so the whole word.
halves-vcvtph2ps : (n src : ℕ) → src < (2 ^ 16) ^ n → halves n (vcvtph2ps n src) ≡ src
unfolding halves
halves-vcvtph2ps n src h =
    let f = λ (i : ℕ). float_to_half (lane 32 i (vcvtph2ps n src)) in
    lane_ext 16 n _ src (pack-tabulate-lt 16 n f) h (λ i p.
      lane-tabulate 16 n i f p
      ∙ rw
          (vcvtph2ps-lane n src i p, float_to_half-half_to_float (lane 16 i src) (lane-lt 16 i src))
          (mod-eq_of_lt (lane-lt 16 i src)))

-- vcvtps2ph of what vcvtph2ps made is the source: 8 halves in 128 bits, and 4 halves in 64, which
-- leave the high half of the result as it was before.
pub vcvtps2ph-vcvtph2ps :
    (src old : ℕ)
    → src < 2 ^ 128
    → (vcvtps2ph256 (vcvtph2ps 8 src) ≡ src)
      × (vcvtps2ph128 (vcvtph2ps 4 (src % 2 ^ 64)) old ≡ old / 2 ^ 64 * 2 ^ 64 + src % 2 ^ 64)
unfolding vcvtps2ph256 vcvtps2ph128
vcvtps2ph-vcvtph2ps src old h = (
  halves-vcvtph2ps 8 src h,
  ap (set_low 64 old) (halves-vcvtph2ps 4 (src % 2 ^ 64) (omega arith)),
)
