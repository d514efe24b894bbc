-- ===== src/Sse2/Laws.antt =====
-- The integer operations of vsse2.h lane by lane.
use opemu_linux.Common.{ℕ, ◌+◌, ◌-◌, ◌*◌, ◌%◌, ◌^◌, ◌<◌, ◌≤◌, ◌≡◌, arith, ap, ◌∙◌, min}
use opemu_linux.Common.Int.{
  pos, negsuc, ◌-ℤ◌, ◌*ℤ◌, signed, wrap, wrap-signed, wrap-lt, clampℤ_id, signed-Within,
}
use opemu_linux.Common.Lanes.{lane, lane-lt}
use opemu_linux.Simd.Loops.{saturate_signed, saturate_unsigned, lane-zip_lanes, zip_lanes_ext}
use opemu_linux.Sse2.Integer.{
  adds_lane, addus_lane, sub_lane, subs_lane, subus_lane, vpadds, vpaddus, vpsub, vpsubs, vpsubus,
  vpmulhw, vpmullw, signed_product,
}
use native.Mathlib.Nat.{one-le-pow, mod-eq_of_lt, mod-mod}

-- A pattern moved up by half the range, so that the order of signed values is that of the numbers.
abbrev pub lifted : ℕ → ℕ → ℕ
lifted w x = (x + 2 ^ (w - 1)) % 2 ^ w

adds_lane-8 :
    (x y : ℕ)
    → x < 2 ^ 8
    → y < 2 ^ 8
    → lifted 8 (adds_lane 8 x y % 2 ^ 8) ≡ min (lifted 8 x + lifted 8 y - 2 ^ 7) (2 ^ 8 - 1)
unfolding adds_lane saturate_signed
adds_lane-8 x y hx hy = ground arith

adds_lane-16 :
    (x y : ℕ)
    → x < 2 ^ 16
    → y < 2 ^ 16
    → lifted 16 (adds_lane 16 x y % 2 ^ 16) ≡ min (lifted 16 x + lifted 16 y - 2 ^ 15) (2 ^ 16 - 1)
unfolding adds_lane saturate_signed
adds_lane-16 x y hx hy = ground arith

addus_lane-min : (w x y : ℕ) → addus_lane w x y % 2 ^ w ≡ min (x + y) (2 ^ w - 1)
unfolding addus_lane
addus_lane-min w x y =
    let least = min (x + y) (2 ^ w - 1) in
    let small : least % 2 ^ w ≡ least = mod-eq_of_lt (omega (arith, one-le-pow w 2)) in
    let exact : saturate_unsigned w (pos (x + y)) ≡ pos least =
      (unfold saturate_unsigned in ground arith) in
    rw exact (mod-mod least (2 ^ w) ∙ small)

-- The saturating sums of bytes and of words. Unsigned, a lane is the sum of the two, or the greatest
-- number of its width if the sum is greater. Signed, it is the same in numbers that are moved up by
-- half the range: the sum, or the least or the greatest number if the sum is out of the range.
pub vpadds-lane :
    (n src vsrc i : ℕ)
    → i < n
    → (lane 8 i (vpaddus 8 n src vsrc) ≡ min (lane 8 i vsrc + lane 8 i src) (2 ^ 8 - 1))
      × (lane 16 i (vpaddus 16 n src vsrc) ≡ min (lane 16 i vsrc + lane 16 i src) (2 ^ 16 - 1))
      × (lifted 8 (lane 8 i (vpadds 8 n src vsrc))
          ≡ min (lifted 8 (lane 8 i vsrc) + lifted 8 (lane 8 i src) - 2 ^ 7) (2 ^ 8 - 1))
      × (lifted 16 (lane 16 i (vpadds 16 n src vsrc))
          ≡ min (lifted 16 (lane 16 i vsrc) + lifted 16 (lane 16 i src) - 2 ^ 15) (2 ^ 16 - 1))
unfolding vpadds vpaddus
vpadds-lane n src vsrc i h = (
  lane-zip_lanes 8 n (addus_lane 8) src vsrc i h ∙ addus_lane-min 8 (lane 8 i vsrc) (lane 8 i src),
  lane-zip_lanes 16 n (addus_lane 16) src vsrc i h
      ∙ addus_lane-min 16 (lane 16 i vsrc) (lane 16 i src),
  ap (lifted 8) (lane-zip_lanes 8 n (adds_lane 8) src vsrc i h)
      ∙ adds_lane-8 (lane 8 i vsrc) (lane 8 i src) (lane-lt 8 i vsrc) (lane-lt 8 i src),
  ap (lifted 16) (lane-zip_lanes 16 n (adds_lane 16) src vsrc i h)
      ∙ adds_lane-16 (lane 16 i vsrc) (lane 16 i src) (lane-lt 16 i vsrc) (lane-lt 16 i src),
)

-- The difference is cut to the narrow type before it is saturated, so it is in range already.
subs_lane-cut : (w x y : ℕ) → 1 ≤ w → subs_lane w x y ≡ sub_lane w x y
unfolding subs_lane sub_lane
subs_lane-cut w x y hw =
    let cut = wrap w (signed w x -ℤ signed w y) in
    ap (wrap w) (
      clampℤ_id (negsuc (2 ^ (w - 1) - 1)) (pos (2 ^ (w - 1) - 1)) (signed w cut)
        (signed-Within w cut hw))
    ∙ wrap-signed w cut
    ∙ mod-eq_of_lt (wrap-lt w (signed w x -ℤ signed w y))

subus_lane-cut :
    (x y : ℕ)
    → ((x < 2 ^ 8) → (y < 2 ^ 8) → subus_lane 8 x y ≡ sub_lane 8 x y)
      × ((x < 2 ^ 16) → (y < 2 ^ 16) → subus_lane 16 x y ≡ sub_lane 16 x y)
unfolding subus_lane sub_lane
subus_lane-cut x y = (λ hx hy. ground arith, λ hx hy. ground arith)

-- The saturating differences are the wrapping one, signed at any width and unsigned at the two that
-- there are: they never saturate.
vpsubs-vpsub :
    (w n src vsrc : ℕ)
    → 1 ≤ w
    → (vpsubs w n src vsrc ≡ vpsub w n src vsrc)
      × (vpsubus 8 n src vsrc ≡ vpsub 8 n src vsrc)
      × (vpsubus 16 n src vsrc ≡ vpsub 16 n src vsrc)
unfolding vpsubs vpsubus vpsub
vpsubs-vpsub w n src vsrc hw = (
  zip_lanes_ext w n (subs_lane w) (sub_lane w) src vsrc (λ x y hx hy. subs_lane-cut w x y hw),
  zip_lanes_ext 8 n (subus_lane 8) (sub_lane 8) src vsrc (λ x y. (subus_lane-cut x y).0),
  zip_lanes_ext 16 n (subus_lane 16) (sub_lane 16) src vsrc (λ x y. (subus_lane-cut x y).1),
)

-- The words of vpmulhw and vpmullw together are the whole signed product.
vpmulhw-vpmullw :
    (n src vsrc i : ℕ)
    → i < n
    → lane 16 i (vpmulhw n src vsrc) * 2 ^ 16 + lane 16 i (vpmullw n src vsrc)
      ≡ wrap 32 (signed 16 (lane 16 i vsrc) *ℤ signed 16 (lane 16 i src))
unfolding vpmulhw vpmullw
vpmulhw-vpmullw n src vsrc i h =
    let product = signed_product (lane 16 i vsrc) (lane 16 i src) in
    let whole = wrap-lt 32 (signed 16 (lane 16 i vsrc) *ℤ signed 16 (lane 16 i src)) in
    rw
      (
        lane-zip_lanes 16 n (λ x y. lane 16 1 (signed_product x y)) src vsrc i h,
        lane-zip_lanes 16 n (λ x y. lane 16 0 (signed_product x y)) src vsrc i h,
      )
      (unfold lane signed_product in omega (arith, whole))
