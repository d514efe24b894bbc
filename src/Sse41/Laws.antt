-- ===== src/Sse41/Laws.antt =====
-- What the SSE4.1 operations select.
use opemu_linux.Common.{
  ℕ, zero, suc, ◌-◌, ◌%◌, ◌^◌, ◌<◌, ◌≤◌, ◌≡◌, ◌∙◌, arith, refl, ap, ◌⊎◌, inl, inr, Bool-cases,
  false, min, max,
}
use opemu_linux.Common.{ltb, if◌then◌else◌, ◌+◌, ◌*◌, [], ◌∷◌}
use opemu_linux.Common.Int.{
  ℤ, pos, negsuc, Within, signed, wrap, signed-wrap, signed-Within, wrap-lt,
}
use opemu_linux.Common.Lanes.{lane, pack, lane-lt, lane-pack, lane-tabulate}
use native.Mathlib.Nat.{mod-eq_of_lt, pow-le-pow_right}
use opemu_linux.Simd.Loops.{lane-zip_lanes}
use opemu_linux.Sse41.Integer.{vpmaxu, vpminu, vpmovsx}
use opemu_linux.Sse41.Other.{last_smaller, vphminposuw}

greater : (b x y : ℕ) → x < b → y < b → (if ltb y x then x else y) % b ≡ max y x
greater b x y hx hy = mod-eq_of_lt (ground arith) ∙ ground arith

lesser : (b x y : ℕ) → x < b → y < b → (if ltb x y then x else y) % b ≡ min y x
lesser b x y hx hy = mod-eq_of_lt (ground arith) ∙ ground arith

-- Each lane of vpmaxu is the maximum of the two, and each lane of vpminu the minimum.
vpmaxu-vpminu :
    (w n src vsrc i : ℕ)
    → i < n
    → (lane w i (vpmaxu w n src vsrc) ≡ max (lane w i src) (lane w i vsrc))
      × (lane w i (vpminu w n src vsrc) ≡ min (lane w i src) (lane w i vsrc))
unfolding vpmaxu vpminu
vpmaxu-vpminu w n src vsrc i h = (
  lane-zip_lanes w n (λ x y. if ltb y x then x else y) src vsrc i h
      ∙ greater (2 ^ w) (lane w i vsrc) (lane w i src) (lane-lt w i vsrc) (lane-lt w i src),
  lane-zip_lanes w n (λ x y. if ltb x y then x else y) src vsrc i h
      ∙ lesser (2 ^ w) (lane w i vsrc) (lane w i src) (lane-lt w i vsrc) (lane-lt w i src),
)

wider : (a b : ℕ) (z : ℤ) → a ≤ b → Within (negsuc a) (pos a) z → Within (negsuc b) (pos b) z
wider a b (pos x) h r = ground arith
wider a b (negsuc x) h r = ground arith

-- Sign extension keeps the value of a lane.
vpmovsx-signed :
    (from to n src i : ℕ)
    → 1 ≤ from
    → from ≤ to
    → i < n
    → signed to (lane to i (vpmovsx from to n src)) ≡ signed from (lane from i src)
unfolding vpmovsx
vpmovsx-signed from to n src i low high h =
    let z = signed from (lane from i src) in
    let ranges : 2 ^ (from - 1) ≤ 2 ^ (to - 1) = pow-le-pow_right (omega arith) (omega arith) in
    ap (signed to) (
      lane-tabulate to n i (λ i. wrap to (signed from (lane from i src))) h
      ∙ mod-eq_of_lt (wrap-lt to z))
    ∙ signed-wrap to z (omega arith) (
        wider (2 ^ (from - 1) - 1) (2 ^ (to - 1) - 1) z (omega (arith, ranges))
          (signed-Within from (lane from i src) low))

one_more :
    (src n j : ℕ)
    → j ≤ suc n
    → ltb (lane 16 (suc n) src) (lane 16 0 src) ≡ false
    → (j ≤ n → lane 16 0 src ≤ lane 16 j src)
    → lane 16 0 src ≤ lane 16 j src
one_more src n j b miss below = elim (Bool-cases (ltb n j)) [
  | inl top ↦ let last : j ≡ suc n = ground arith in rw last (ground arith)
  | inr low ↦ below (ground arith)
]

-- `last_smaller` is the last place whose word is below word 0, and 0 if there is none.
last_smaller-last :
    (src n : ℕ)
    → let r = last_smaller src n in
      (r ≤ n)
      × ((r ≡ 0) ⊎ (lane 16 r src < lane 16 0 src))
      × ((j : ℕ) → r < j → j ≤ n → lane 16 0 src ≤ lane 16 j src)
unfolding last_smaller
last_smaller-last src zero = (omega arith, inl refl, λ j a b. absurd (omega (arith, a, b)))
last_smaller-last src (suc n) = elim (Bool-cases (ltb (lane 16 (suc n) src) (lane 16 0 src))) [
  | inl hit ↦ rw hit (omega arith, inr (ground arith), λ j a b. absurd (omega (arith, a, b)))
  | inr miss ↦
      let before = last_smaller-last src n in
      rw miss (omega (arith, before.0), before.1, λ j a b. one_more src n j b miss (before.2 j a))
]

-- Word 1 of the result of vphminposuw is the last of the places 0 to 7 whose word is below word 0, and
-- 0 if there is none: every word behind it is at least word 0. Word 0 of the result is the word at that
-- place, and the rest is 0.
pub vphminposuw-last :
    (src : ℕ)
    → let r = lane 16 1 (vphminposuw src) in
      (r ≤ 7)
      × (vphminposuw src ≡ lane 16 r src + r * 2 ^ 16)
      × ((r ≡ 0) ⊎ (lane 16 r src < lane 16 0 src))
      × ((j : ℕ) → r < j → j ≤ 7 → lane 16 0 src ≤ lane 16 j src)
unfolding vphminposuw pack
vphminposuw-last src =
    let last = last_smaller-last src 7 in
    let small : last_smaller src 7 % 2 ^ 16 ≡ last_smaller src 7 = omega (arith, last.0) in
    let index : lane 16 1 (vphminposuw src) ≡ last_smaller src 7 =
      lane-pack 16 1 (lane 16 (last_smaller src 7) src ∷ last_smaller src 7 ∷ []) ∙ small in
    rw index (
      last.0,
      packed (lane 16 (last_smaller src 7) src) (last_smaller src 7) (lane-lt 16 _ src) last.0,
      last.1,
      last.2,
    )
  where
    packed : (x y : ℕ) → x < 2 ^ 16 → y ≤ 7 → pack 16 (x ∷ y ∷ []) ≡ x + y * 2 ^ 16
    packed x y hx hy = omega arith
