-- ===== src/Aes/Mix.antt =====
-- `MixColumns` and `InvMixColumns` of aesins.c on the bytes of one column.
use opemu_linux.Common.{ℕ, ◌<◌, ◌≡◌, ap, sym, ◌∙◌, refl, arith}
use opemu_linux.Common.{bit_xor, all_below, agree_below}
use opemu_linux.Common.Bits.Laws.{bit_xor_shuffle, bit_xor-lt, bit_xor-zero}
use opemu_linux.Common.Bits.Digit.{bit_ext, bit-bit_xor}
use opemu_linux.Aes.Block.{double, add_if, gf28_multi, mix_byte, inv_mix_byte}
use opemu_linux.Aes.Linear.{gf28_multi-bit_xor, gf28_multi-lt}

abbrev sum4 : ℕ → ℕ → ℕ → ℕ → ℕ
sum4 a b c d = bit_xor (bit_xor (bit_xor a b) c) d

abbrev scaled : ℕ → ℕ → ℕ
scaled p a = gf28_multi p a

-- What a byte that enters the four sums with the factors `p q r s` gives to the inverse.
abbrev contribution : ℕ → ℕ → ℕ → ℕ → ℕ → ℕ
contribution p q r s a =
    sum4 (scaled 0x0E (scaled p a)) (scaled 0x0B (scaled q a)) (scaled 0x0D (scaled r a))
      (scaled 0x09 (scaled s a))

-- It comes back at its own place, and cancels at the three others.
module _ (a : ℕ) (h : a < 256) where
  same_place : contribution 2 1 1 3 a ≡ a
  unfolding gf28_multi double add_if all_below
  same_place = agree_below 256 (contribution 2 1 1 3) (λ a. a) refl a h

  next_place : contribution 3 2 1 1 a ≡ 0
  unfolding gf28_multi double add_if all_below
  next_place = agree_below 256 (contribution 3 2 1 1) (λ _. 0) refl a h

  third_place : contribution 1 3 2 1 a ≡ 0
  unfolding gf28_multi double add_if all_below
  third_place = agree_below 256 (contribution 1 3 2 1) (λ _. 0) refl a h

  last_place : contribution 1 1 3 2 a ≡ 0
  unfolding gf28_multi double add_if all_below
  last_place = agree_below 256 (contribution 1 1 3 2) (λ _. 0) refl a h

pub bit_xor-sum4 :
    (a b c d a' b' c' d' : ℕ)
    → bit_xor (sum4 a b c d) (sum4 a' b' c' d')
      ≡ sum4 (bit_xor a a') (bit_xor b b') (bit_xor c c') (bit_xor d d')
bit_xor-sum4 a b c d a' b' c' d' = rw (
  bit_xor_shuffle (bit_xor (bit_xor a b) c) d (bit_xor (bit_xor a' b') c') d',
  bit_xor_shuffle (bit_xor a b) c (bit_xor a' b') c',
  bit_xor_shuffle a b a' b',
)

-- A square of summands can be summed by rows or by columns.
sum4_transpose :
    (a b c d a' b' c' d' a2 b2 c2 d2 a3 b3 c3 d3 : ℕ)
    → sum4 (sum4 a b c d) (sum4 a' b' c' d') (sum4 a2 b2 c2 d2) (sum4 a3 b3 c3 d3)
      ≡ sum4 (sum4 a a' a2 a3) (sum4 b b' b2 b3) (sum4 c c' c2 c3) (sum4 d d' d2 d3)
sum4_transpose a b c d a' b' c' d' a2 b2 c2 d2 a3 b3 c3 d3 =
    rw (bit_xor-sum4 a b c d a' b' c' d')
      (rw (bit_xor-sum4 _ _ _ _ a2 b2 c2 d2) (bit_xor-sum4 _ _ _ _ a3 b3 c3 d3))

sum4_rotate : (a b c d : ℕ) → sum4 b c d a ≡ sum4 a b c d
sum4_rotate a b c d = bit_ext _ _ λ i. omega (
  arith,
  bit-bit_xor i (bit_xor (bit_xor b c) d) a,
  bit-bit_xor i (bit_xor b c) d,
  bit-bit_xor i b c,
  bit-bit_xor i (bit_xor (bit_xor a b) c) d,
  bit-bit_xor i (bit_xor a b) c,
  bit-bit_xor i a b,
)

gf28_multi-sum4 :
    (p a b c d : ℕ)
    → a < 256
    → b < 256
    → c < 256
    → d < 256
    → gf28_multi p (sum4 a b c d)
      ≡ sum4 (gf28_multi p a) (gf28_multi p b) (gf28_multi p c) (gf28_multi p d)
gf28_multi-sum4 p a b c d ha hb hc hd =
    let ab = bit_xor-lt 8 a b ha hb in
    let abc = bit_xor-lt 8 (bit_xor a b) c ab hc in
    rw (
      gf28_multi-bit_xor p (bit_xor (bit_xor a b) c) d abc hd,
      gf28_multi-bit_xor p (bit_xor a b) c ab hc,
      gf28_multi-bit_xor p a b ha hb,
    )

module _ (a b c d : ℕ) (ha : a < 256) (hb : b < 256) (hc : c < 256) (hd : d < 256) where
  -- One factor of the inverse, over one sum.
  factor :
      (k p q r s : ℕ)
      → scaled k (sum4 (scaled p a) (scaled q b) (scaled r c) (scaled s d))
        ≡ sum4
            (scaled k (scaled p a))
            (scaled k (scaled q b))
            (scaled k (scaled r c))
            (scaled k (scaled s d))
  factor k p q r s =
      gf28_multi-sum4 k _ _ _ _ (gf28_multi-lt p a ha) (gf28_multi-lt q b hb) (gf28_multi-lt r c hc)
        (gf28_multi-lt s d hd)

  row0 :
      scaled 0x0E (mix_byte a b c d)
      ≡ sum4
          (scaled 0x0E (scaled 2 a))
          (scaled 0x0E (scaled 3 b))
          (scaled 0x0E (scaled 1 c))
          (scaled 0x0E (scaled 1 d))
  unfolding mix_byte
  row0 = factor 0x0E 2 3 1 1

  row1 :
      scaled 0x0B (mix_byte b c d a)
      ≡ sum4
          (scaled 0x0B (scaled 1 a))
          (scaled 0x0B (scaled 2 b))
          (scaled 0x0B (scaled 3 c))
          (scaled 0x0B (scaled 1 d))
  unfolding mix_byte
  row1 = ap (scaled 0x0B) (sum4_rotate _ _ _ _) ∙ factor 0x0B 1 2 3 1

  row2 :
      scaled 0x0D (mix_byte c d a b)
      ≡ sum4
          (scaled 0x0D (scaled 1 a))
          (scaled 0x0D (scaled 1 b))
          (scaled 0x0D (scaled 2 c))
          (scaled 0x0D (scaled 3 d))
  unfolding mix_byte
  row2 = ap (scaled 0x0D) (sum4_rotate _ _ _ _ ∙ sum4_rotate _ _ _ _) ∙ factor 0x0D 1 1 2 3

  row3 :
      scaled 0x09 (mix_byte d a b c)
      ≡ sum4
          (scaled 0x09 (scaled 3 a))
          (scaled 0x09 (scaled 1 b))
          (scaled 0x09 (scaled 1 c))
          (scaled 0x09 (scaled 2 d))
  unfolding mix_byte
  row3 = ap (scaled 0x09) (sym (sum4_rotate _ _ _ _)) ∙ factor 0x09 3 1 1 2

  pub mix_byte-lt : mix_byte a b c d < 256
  unfolding mix_byte
  mix_byte-lt =
      bit_xor-lt 8 _ _
        (bit_xor-lt 8 _ _ (bit_xor-lt 8 _ _ (gf28_multi-lt 2 a ha) (gf28_multi-lt 3 b hb))
          (gf28_multi-lt 1 c hc))
        (gf28_multi-lt 1 d hd)

  -- The inverse sum over the four mixed bytes of a column is the byte.
  pub inv_mix_byte-mix_byte :
      inv_mix_byte (mix_byte a b c d) (mix_byte b c d a) (mix_byte c d a b) (mix_byte d a b c) ≡ a
  unfolding inv_mix_byte
  inv_mix_byte-mix_byte =
      rw (row0, row1, row2, row3)
        (sum4_transpose _ _ _ _ _ _ _ _ _ _ _ _ _ _ _ _
          ∙ rw (same_place a ha, next_place b hb, third_place c hc, last_place d hd)
              (bit_xor-zero _ ∙ bit_xor-zero _ ∙ bit_xor-zero _))
