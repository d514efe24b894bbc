-- ===== src/Ssse3/Laws.antt =====
-- The SSSE3 operations lane by lane.
use opemu_linux.Common.{
  ℕ, zero, suc, ◌+◌, ◌-◌, ◌/◌, ◌%◌, ◌^◌, ◌<◌, ◌≡◌, arith, refl, ap, ◌∙◌, fun_ext, List, [], ◌∷◌,
  ◌++◌, map, sym, ap₂,
}
use opemu_linux.Common.{bit_and, ◌>>>◌, ltb, ◌==◌, if◌then◌else◌}
use opemu_linux.Common.Bits.Laws.{bit_and_mask}
use opemu_linux.Common.Int.{pos, negsuc, ◌+ℤ◌, ◌*ℤ◌, ℤ, shiftℤ, signed, wrap, wrap-lt, absℤ}
use opemu_linux.Common.Lanes.{lane, pack, tabulate, lane-lt, lane-tabulate, lane-pack}
use mathlib.Core.List.{map-append}
use native.Mathlib.Nat.{one-le-pow, mod-eq_of_lt, mod-mod}
use opemu_linux.Ssse3.{
  shuffled_byte, vpshufb, pairs, horizontal, add_pair, adds_pair, vphaddw_128, vphaddsw_128,
  mulhrs_lane, vpmulhrsw, vpabs,
}

byte_index : (x : ℕ) → bit_and x 15 ≡ x % 16
byte_index x = bit_and_mask 4 x

top_bit : (x : ℕ) → bit_and (x >>> 7) 1 ≡ x / 128 % 2
top_bit x = bit_and_mask 1 (x >>> 7)

-- Each byte of vpshufb is 0 if its index has the top bit set, and else the byte of vsrc at the
-- index modulo 16.
vpshufb-lane :
    (n src vsrc i : ℕ)
    → i < n
    → lane 8 i (vpshufb n src vsrc)
      ≡ (let index = lane 8 i src in if ltb index 128 then lane 8 (index % 16) vsrc else 0)
unfolding vpshufb
vpshufb-lane n src vsrc i h =
    let index = lane 8 i src in
    ground (
      arith,
      lane-tabulate 8 n i (shuffled_byte src vsrc) h,
      byte_index index,
      top_bit index,
      lane-lt 8 i src,
      lane-lt 8 (index % 16) vsrc,
    )

abs_pattern :
    (w x : ℕ)
    → x < 2 ^ w
    → wrap w (absℤ (signed w x)) % 2 ^ w ≡ (if ltb x (2 ^ (w - 1)) then x else 2 ^ w - x)
abs_pattern w x h =
    ground (
      arith,
      one-le-pow (w - 1) 2,
      mod-eq_of_lt h,
      mod-mod (2 ^ w - x) (2 ^ w),
      small w (2 ^ w - x),
    )
  where
    small : (w y : ℕ) → y < 2 ^ w → y % 2 ^ w ≡ y
    small w y p = mod-eq_of_lt p

-- Each lane of vpabs is the distance of its source, read as signed, from 0.
vpabs-lane :
    (w n src i : ℕ)
    → i < n
    → lane w i (vpabs w n src)
      ≡ (let x = lane w i src in if ltb x (2 ^ (w - 1)) then x else 2 ^ w - x)
unfolding vpabs
vpabs-lane w n src i h = lane-tabulate w n i _ h ∙ abs_pattern w (lane w i src) (lane-lt w i src)

rounded : (z : ℤ) → shiftℤ 15 (z +ℤ pos 0x4000) ≡ shiftℤ 1 (shiftℤ 14 z +ℤ pos 1)
rounded (pos a) = ground arith
rounded (negsuc a) = ground arith

-- vpmulhrsw rounds as documented: the product is shifted by 14, 1 is added, and it is halved.
vpmulhrsw-lane :
    (n src vsrc i : ℕ)
    → i < n
    → lane 16 i (vpmulhrsw n src vsrc) ≡ (
        let product = signed 16 (lane 16 i vsrc) *ℤ signed 16 (lane 16 i src) in
        wrap 16 (shiftℤ 1 (shiftℤ 14 product +ℤ pos 1)))
unfolding vpmulhrsw
vpmulhrsw-lane n src vsrc i h =
    let product = signed 16 (lane 16 i vsrc) *ℤ signed 16 (lane 16 i src) in
    lane-tabulate 16 n i (mulhrs_lane src vsrc) h
    ∙ rw (rounded product) (mod-eq_of_lt (wrap-lt 16 (shiftℤ 1 (shiftℤ 14 product +ℤ pos 1))))

-- A pack looks only at the low bits of what it is given.
pack-map : (w : ℕ) (xs : List ℕ) → pack w (map (λ x. x % 2 ^ w) xs) ≡ pack w xs
unfolding pack
pack-map w [] = refl
pack-map w (x ∷ xs) = rw (pack-map w xs, mod-mod x (2 ^ w)) refl

map-tabulate : (g : ℕ → ℕ) (n : ℕ) (f : ℕ → ℕ) → map g (tabulate n f) ≡ tabulate n (λ i. g (f i))
unfolding tabulate
map-tabulate g zero f = refl
map-tabulate g (suc n) f = ap (λ (xs : List ℕ). g (f 0) ∷ xs) (map-tabulate g n (λ i. f (suc i)))

-- STSW is applied to an int16_t, which is in its range already.
saturates_nothing : (low high : ℕ) → adds_pair low high % 2 ^ 16 ≡ (high + low) % 2 ^ 16
unfolding adds_pair
saturates_nothing low high = ground arith

module _ (w count base : ℕ) (f g : ℕ → ℕ → ℕ)
    (same : (low high : ℕ) → f low high % 2 ^ w ≡ g low high % 2 ^ w) where
  pairs_same :
      (x : ℕ)
      → map (λ v. v % 2 ^ w) (pairs w count f base x)
        ≡ map (λ v. v % 2 ^ w) (pairs w count g base x)
  unfolding pairs
  pairs_same x = rw (map-tabulate, map-tabulate) (ap (tabulate count) (fun_ext λ i. same _ _))

  horizontal_same :
      (src vsrc : ℕ)
      → pack w (horizontal w count f base src vsrc) ≡ pack w (horizontal w count g base src vsrc)
  unfolding horizontal
  horizontal_same src vsrc =
      sym (pack-map w (horizontal w count f base src vsrc))
      ∙ ap (pack w) (rw (map-append, map-append) (ap₂ ◌++◌ (pairs_same vsrc) (pairs_same src)))
      ∙ pack-map w (horizontal w count g base src vsrc)

-- The saturating sum is the wrapping one: it never saturates.
vphaddsw_128-eq : (src vsrc : ℕ) → vphaddsw_128 src vsrc ≡ vphaddw_128 src vsrc
unfolding vphaddsw_128 vphaddw_128
vphaddsw_128-eq src vsrc = horizontal_same 16 4 0 adds_pair add_pair saturates_nothing src vsrc

-- Only the first of the four sums of each operand has a pair of its own: the other three all are
-- the sum of the lanes 0 and 1.
vphaddw_128-lanes :
    (src vsrc i : ℕ)
    → i < 8
    → lane 16 i (vphaddw_128 src vsrc) ≡ (
        let x = if ltb i 4 then vsrc else src in
        let first = if i % 4 == 0 then 1 else 0 in
        (lane 16 first x + lane 16 (first + 1) x) % 2 ^ 16)
unfolding vphaddw_128 horizontal pairs tabulate
vphaddw_128-lanes src vsrc i h = lane-pack 16 i (horizontal 16 4 add_pair 0 src vsrc) ∙ ground arith
