-- ===== src/Half/Laws.antt =====
-- The two conversions of half.c against each other, on every half.
use opemu_linux.Common.{
  ℕ, ◌+◌, ◌*◌, ◌/◌, ◌%◌, ◌^◌, ◌<◌, ◌≡◌, ◌≢◌, arith, refl, all_below, agree_below, ◌==◌,
  if◌then◌else◌,
}
use opemu_linux.Half.{
  renormalize, assemble, half_to_float, round_denormal, keep_nan, round_normal, float_to_half,
}

-- Converting a half to a float and back gives the same half: every bit pattern, zeros,
-- denormalized numbers, infinities and NANs included.
pub float_to_half-half_to_float : (y : ℕ) → y < 2 ^ 16 → float_to_half (half_to_float y) ≡ y
unfolding half_to_float renormalize assemble float_to_half round_denormal keep_nan round_normal
    all_below
float_to_half-half_to_float y h =
    agree_below 65536 (λ y. float_to_half (half_to_float y)) (λ y. y) refl y h

-- The magnitudes that the formats mean: of a half in units of 2 ^ -24, of a float in units of
-- 2 ^ -149.
unfoldable pub half_magnitude : ℕ → ℕ
half_magnitude y =
    let e = y / 1024 % 32 in let m = y % 1024 in if e == 0 then m else (1024 + m) * 2 ^ e / 2

unfoldable pub float_magnitude : ℕ → ℕ
float_magnitude i =
    let e = i / 2 ^ 23 % 256 in let m = i % 2 ^ 23 in if e == 0 then m else (2 ^ 23 + m) * 2 ^ e / 2

abbrev exact_or_special : ℕ → ℕ
exact_or_special y =
    if y / 1024 % 32 == 31
    then 0
    else (if float_magnitude (half_to_float y) == half_magnitude y * 2 ^ 125 then 0 else 1)

exact_everywhere : (y : ℕ) → y < 2 ^ 16 → exact_or_special y ≡ 0
unfolding half_to_float renormalize assemble half_magnitude float_magnitude all_below
exact_everywhere y h = agree_below 65536 exact_or_special (λ y. 0) refl y h

sign_everywhere : (y : ℕ) → y < 2 ^ 16 → half_to_float y / 2 ^ 31 ≡ y / 2 ^ 15
unfolding half_to_float renormalize assemble all_below
sign_everywhere y h = agree_below 65536 (λ y. half_to_float y / 2 ^ 31) (λ y. y / 2 ^ 15) refl y h

-- The float of a finite half has its sign and exactly its magnitude.
half_to_float-exact :
    (y : ℕ)
    → y < 2 ^ 16
    → y / 1024 % 32 ≢ 31
    → (float_magnitude (half_to_float y) ≡ half_magnitude y * 2 ^ 125)
      × (half_to_float y / 2 ^ 31 ≡ y / 2 ^ 15)
half_to_float-exact y h finite =
    let checked = exact_everywhere y h in (ground arith, sign_everywhere y h)

pub half_to_float-lt : (y : ℕ) → y < 2 ^ 16 → half_to_float y < 2 ^ 32
half_to_float-lt y h = omega (arith, sign_everywhere y h)
