-- ===== src/Sse2/Integer.antt =====
-- The integer operations of vsse2.h. `n` is the number of lanes, `w` their width; the functions for
-- XMM and YMM have the same loop. `x` is the lane of vsrc and `y` that of src.
use opemu_linux.Common.{ℕ, ◌+◌, ◌-◌, ◌*◌, ◌/◌, ◌%◌, ◌^◌, List, [], ◌∷◌}
use opemu_linux.Common.{compl, bit_and, bit_or, bit_xor, ◌>>>◌, ◌==◌, if◌then◌else◌}
use opemu_linux.Common.Int.{ℤ, pos, ◌+ℤ◌, ◌-ℤ◌, ◌*ℤ◌, ltℤ, signed, wrap, absℤ}
use opemu_linux.Common.Lanes.{lane, pack, tabulate}
use opemu_linux.Simd.Loops.{zip_lanes, saturate_signed, saturate_unsigned}

unfoldable pub vpadd : ℕ → ℕ → ℕ → ℕ → ℕ
unfolding zip_lanes
vpadd w n src vsrc = zip_lanes w n (λ x y. x + y) src vsrc

-- The sum is in a variable twice as wide as the lanes.
unfoldable pub adds_lane : ℕ → ℕ → ℕ → ℕ
unfolding saturate_signed
adds_lane w x y = wrap w (saturate_signed w (signed w x +ℤ signed w y))

unfoldable pub vpadds : ℕ → ℕ → ℕ → ℕ → ℕ
unfolding zip_lanes adds_lane
vpadds w n src vsrc = zip_lanes w n (adds_lane w) src vsrc

unfoldable pub addus_lane : ℕ → ℕ → ℕ → ℕ
unfolding saturate_unsigned
addus_lane w x y = wrap w (saturate_unsigned w (pos (x + y)))

unfoldable pub vpaddus : ℕ → ℕ → ℕ → ℕ → ℕ
unfolding zip_lanes addus_lane
vpaddus w n src vsrc = zip_lanes w n (addus_lane w) src vsrc

unfoldable pub sub_lane : ℕ → ℕ → ℕ → ℕ
sub_lane w x y = wrap w (signed w x -ℤ signed w y)

unfoldable pub vpsub : ℕ → ℕ → ℕ → ℕ → ℕ
unfolding zip_lanes sub_lane
vpsub w n src vsrc = zip_lanes w n (sub_lane w) src vsrc

-- The difference is in a variable of the lanes' own type.
unfoldable pub subs_lane : ℕ → ℕ → ℕ → ℕ
unfolding saturate_signed
subs_lane w x y = wrap w (saturate_signed w (signed w (wrap w (signed w x -ℤ signed w y))))

unfoldable pub vpsubs : ℕ → ℕ → ℕ → ℕ → ℕ
unfolding zip_lanes subs_lane
vpsubs w n src vsrc = zip_lanes w n (subs_lane w) src vsrc

unfoldable pub subus_lane : ℕ → ℕ → ℕ → ℕ
unfolding saturate_unsigned
subus_lane w x y = wrap w (saturate_unsigned w (pos (wrap w (pos x -ℤ pos y))))

unfoldable pub vpsubus : ℕ → ℕ → ℕ → ℕ → ℕ
unfolding zip_lanes subus_lane
vpsubus w n src vsrc = zip_lanes w n (subus_lane w) src vsrc

unfoldable pub vpavg : ℕ → ℕ → ℕ → ℕ → ℕ
unfolding zip_lanes
vpavg w n src vsrc = zip_lanes w n (λ x y. bit_and ((x + y + 1) >>> 1) (2 ^ w - 1)) src vsrc

-- The unsigned words are multiplied, also where the instruction multiplies signed ones.
unfoldable pub vpmaddwd : ℕ → ℕ → ℕ → ℕ
vpmaddwd n src vsrc =
    let product = λ (i : ℕ). lane 16 i vsrc * lane 16 i src in
    pack 32 (tabulate n (λ i. product (2 * i) + product (2 * i + 1)))

unfoldable pub vpmulhuw : ℕ → ℕ → ℕ → ℕ
unfolding zip_lanes
vpmulhuw n src vsrc = zip_lanes 16 n (λ x y. lane 16 1 (x * y % 2 ^ 32)) src vsrc

-- The signed product as 32 bits: its high word, or its low one.
unfoldable pub signed_product : ℕ → ℕ → ℕ
signed_product x y = wrap 32 (signed 16 x *ℤ signed 16 y)

unfoldable pub vpmulhw : ℕ → ℕ → ℕ → ℕ
unfolding zip_lanes signed_product
vpmulhw n src vsrc = zip_lanes 16 n (λ x y. lane 16 1 (signed_product x y)) src vsrc

unfoldable pub vpmullw : ℕ → ℕ → ℕ → ℕ
unfolding zip_lanes signed_product
vpmullw n src vsrc = zip_lanes 16 n (λ x y. lane 16 0 (signed_product x y)) src vsrc

-- A product of two uint32_t is one itself.
unfoldable pub vpmuludq : ℕ → ℕ → ℕ → ℕ
vpmuludq n src vsrc =
    pack 64 (tabulate n (λ i. lane 32 (2 * i) vsrc * lane 32 (2 * i) src % 2 ^ 32))

-- The logical operations, on 64 bits at a time in the forms for floats and on 128 in the others.
unfoldable pub vpand : ℕ → ℕ → ℕ → ℕ → ℕ
unfolding zip_lanes
vpand w n src vsrc = zip_lanes w n bit_and src vsrc

unfoldable pub vpandn : ℕ → ℕ → ℕ → ℕ → ℕ
unfolding zip_lanes
vpandn w n src vsrc = zip_lanes w n (λ x y. bit_and (compl w x) y) src vsrc

unfoldable pub vpor : ℕ → ℕ → ℕ → ℕ → ℕ
unfolding zip_lanes
vpor w n src vsrc = zip_lanes w n bit_or src vsrc

unfoldable pub vpxor : ℕ → ℕ → ℕ → ℕ → ℕ
unfolding zip_lanes
vpxor w n src vsrc = zip_lanes w n bit_xor src vsrc

unfoldable pub vpcmpgt : ℕ → ℕ → ℕ → ℕ → ℕ
unfolding zip_lanes
vpcmpgt w n src vsrc =
    zip_lanes w n (λ x y. if ltℤ (signed w y) (signed w x) then 2 ^ w - 1 else 0) src vsrc

unfoldable pub vpcmpeq : ℕ → ℕ → ℕ → ℕ → ℕ
unfolding zip_lanes
vpcmpeq w n src vsrc = zip_lanes w n (λ x y. if x == y then 2 ^ w - 1 else 0) src vsrc

-- `tmp.u8[i]`: the distance of two signed bytes, the difference first cut to an int8_t.
unfoldable pub byte_distance : ℕ → ℕ → ℕ → ℕ
byte_distance src vsrc i =
    wrap 8 (absℤ (signed 8 (wrap 8 (signed 8 (lane 8 i vsrc) -ℤ signed 8 (lane 8 i src)))))

unfoldable pub sum_of : (ℕ → ℕ) → List ℕ → ℕ
sum_of f [] = 0
sum_of f (i ∷ is) = f i + sum_of f is

unfoldable pub vpsadbw_128 : ℕ → ℕ → ℕ
unfolding sum_of byte_distance
vpsadbw_128 src vsrc =
    let tmp = byte_distance src vsrc in
    pack 64 (
      sum_of tmp (0 ∷ 1 ∷ 2 ∷ 3 ∷ 4 ∷ 5 ∷ 6 ∷ 7 ∷ [])
      ∷ sum_of tmp (8 ∷ 9 ∷ 10 ∷ 11 ∷ 12 ∷ 13 ∷ 14 ∷ 15 ∷ [])
      ∷ [])

-- The last sum takes byte 16 where byte 26 belongs.
unfoldable pub vpsadbw_256 : ℕ → ℕ → ℕ
unfolding sum_of byte_distance
vpsadbw_256 src vsrc =
    let tmp = byte_distance src vsrc in
    pack 64 (
      sum_of tmp (0 ∷ 1 ∷ 2 ∷ 3 ∷ 4 ∷ 5 ∷ 6 ∷ 7 ∷ [])
      ∷ sum_of tmp (8 ∷ 9 ∷ 10 ∷ 11 ∷ 12 ∷ 13 ∷ 14 ∷ 15 ∷ [])
      ∷ sum_of tmp (16 ∷ 17 ∷ 18 ∷ 19 ∷ 20 ∷ 21 ∷ 22 ∷ 23 ∷ [])
      ∷ sum_of tmp (24 ∷ 25 ∷ 16 ∷ 27 ∷ 28 ∷ 29 ∷ 30 ∷ 31 ∷ [])
      ∷ [])

-- The lanes of a word narrowed to half their width by a saturation.
unfoldable pub narrowed : ℕ → (ℤ → ℤ) → ℕ → ℕ → ℕ
narrowed w sat n x = pack (w / 2) (tabulate n (λ i. wrap (w / 2) (sat (signed w (lane w i x)))))

-- TEMP1 is made of vsrc and TEMP2 of src; the YMM form puts their halves in turn.
unfoldable pub pack_128 : ℕ → (ℤ → ℤ) → ℕ → ℕ → ℕ
unfolding narrowed
pack_128 w sat src vsrc =
    let n = 128 / w in pack 64 (narrowed w sat n vsrc ∷ narrowed w sat n src ∷ [])

unfoldable pub pack_256 : ℕ → (ℤ → ℤ) → ℕ → ℕ → ℕ
unfolding narrowed
pack_256 w sat src vsrc =
    let temp1 = narrowed w sat (256 / w) vsrc in
    let temp2 = narrowed w sat (256 / w) src in
    pack 64 (lane 64 0 temp1 ∷ lane 64 0 temp2 ∷ lane 64 1 temp1 ∷ lane 64 1 temp2 ∷ [])

unfoldable pub vpacksswb_128 : ℕ → ℕ → ℕ
unfolding pack_128 saturate_signed
vpacksswb_128 src vsrc = pack_128 16 (saturate_signed 8) src vsrc

unfoldable pub vpacksswb_256 : ℕ → ℕ → ℕ
unfolding pack_256 saturate_signed
vpacksswb_256 src vsrc = pack_256 16 (saturate_signed 8) src vsrc

unfoldable pub vpackuswb_128 : ℕ → ℕ → ℕ
unfolding pack_128 saturate_unsigned
vpackuswb_128 src vsrc = pack_128 16 (saturate_unsigned 8) src vsrc

unfoldable pub vpackuswb_256 : ℕ → ℕ → ℕ
unfolding pack_256 saturate_unsigned
vpackuswb_256 src vsrc = pack_256 16 (saturate_unsigned 8) src vsrc

unfoldable pub vpackssdw_128 : ℕ → ℕ → ℕ
unfolding pack_128 saturate_signed
vpackssdw_128 src vsrc = pack_128 32 (saturate_signed 16) src vsrc

unfoldable pub vpackssdw_256 : ℕ → ℕ → ℕ
unfolding pack_256 saturate_signed
vpackssdw_256 src vsrc = pack_256 32 (saturate_signed 16) src vsrc
