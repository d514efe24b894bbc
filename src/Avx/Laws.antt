-- ===== src/Avx/Laws.antt =====
-- Masked moves and halves of avx.h against each other.
use opemu_linux.Common.{
  ℕ, ◌-◌, ◌/◌, ◌%◌, ◌^◌, ◌<◌, ◌≡◌, ◌∙◌, refl, ap, ap₂, Bool, true, false, arith, [], ◌∷◌, ◌⊎◌, inl,
  inr, get_or,
}
use opemu_linux.Common.{bit_and, ◌>>>◌, ◌==◌, if◌then◌else◌}
use opemu_linux.Common.Lanes.{lane, pack, lane-pack, lane-lt}
use opemu_linux.Avx.Moves.{vextract128, vinsert128}
use opemu_linux.Common.Bits.Laws.{bit_and_mask}
use opemu_linux.Avx.Permute.{low_half, high_half, vperm2f128, vperm2i128}
use native.Mathlib.Nat.{mod-eq_of_lt}

lane-mod : (w i x : ℕ) → lane w i x % 2 ^ w ≡ lane w i x
lane-mod w i x = mod-eq_of_lt (lane-lt w i x)

-- The other half of the two.
abbrev other_half : ℕ → ℕ
other_half imm = if bit_and imm 1 == 1 then 0 else 1

-- What is inserted in a half is extracted from it, and the other half is that of the operand.
vextract128-vinsert128 :
    (src vsrc imm : ℕ)
    → (vextract128 (vinsert128 src vsrc imm) imm ≡ src % 2 ^ 128)
      × (vextract128 (vinsert128 src vsrc imm) (other_half imm) ≡ vextract128 vsrc (other_half imm))
unfolding vextract128 vinsert128
vextract128-vinsert128 src vsrc imm = by_bit (bit_and imm 1 == 1)
  where
    by_bit :
        (b : Bool)
        → ((if b
              then lane 128 1 (
                  if b
                  then pack 128 (lane 128 0 vsrc ∷ src ∷ [])
                  else pack 128 (src ∷ lane 128 1 vsrc ∷ []))
              else lane 128 0 (
                  if b
                  then pack 128 (lane 128 0 vsrc ∷ src ∷ [])
                  else pack 128 (src ∷ lane 128 1 vsrc ∷ [])))
            ≡ src % 2 ^ 128)
          × ((let o : ℕ = if b then 0 else 1 in
              let r : ℕ =
                (if b
                  then pack 128 (lane 128 0 vsrc ∷ src ∷ [])
                  else pack 128 (src ∷ lane 128 1 vsrc ∷ [])) in
              (if bit_and o 1 == 1 then lane 128 1 r else lane 128 0 r)
              ≡ (if bit_and o 1 == 1 then lane 128 1 vsrc else lane 128 0 vsrc)))
    by_bit true = (
      lane-pack 128 1 (lane 128 0 vsrc ∷ src ∷ []),
      lane-pack 128 0 (lane 128 0 vsrc ∷ src ∷ []) ∙ lane-mod 128 0 vsrc,
    )
    by_bit false = (
      lane-pack 128 0 (src ∷ lane 128 1 vsrc ∷ []),
      lane-pack 128 1 (src ∷ lane 128 1 vsrc ∷ []) ∙ lane-mod 128 1 vsrc,
    )

-- The top bit of a lane.
abbrev pub top_bit : ℕ → ℕ → ℕ
top_bit w x = x / 2 ^ (w - 1) % 2

-- The documented selection of a half by two bits of the immediate.
abbrev documented_half : ℕ → ℕ → ℕ → ℕ
documented_half src vsrc sel =
    get_or (lane 128 0 vsrc ∷ lane 128 1 vsrc ∷ lane 128 0 src ∷ lane 128 1 src ∷ []) sel 0

abbrev pub documented_perm : ℕ → ℕ → ℕ → ℕ
documented_perm src vsrc imm = pack 128 (
    (if bit_and (imm >>> 3) 1 == 1 then 0 else documented_half src vsrc (bit_and imm 3))
    ∷ (if bit_and (imm >>> 7) 1 == 1 then 0 else documented_half src vsrc (bit_and (imm >>> 4) 3))
    ∷ [])

-- A ladder over the four values of two bits.
ladder :
    (a x0 x1 x2 x3 : ℕ)
    → a < 4
    → (if a == 0 then x0 else (if a == 1 then x1 else (if a == 2 then x2 else x3)))
      ≡ get_or (x0 ∷ x1 ∷ x2 ∷ x3 ∷ []) a 0
ladder a x0 x1 x2 x3 h = ground arith

two_bits : (x : ℕ) → bit_and x 3 < 4
two_bits x = omega (arith, bit_and_mask 2 x)

mixed_ladder :
    (a b x0 x1 x2 x3 old : ℕ)
    → b < 4
    → (b ≡ 0) ⊎ (b ≡ a)
    → (if b == 0
        then x0
        else (if a == 1 then x1 else (if a == 2 then x2 else (if a == 3 then x3 else old))))
      ≡ get_or (x0 ∷ x1 ∷ x2 ∷ x3 ∷ []) b 0
mixed_ladder a b x0 x1 x2 x3 old h (inl e) = ground arith
mixed_ladder a b x0 x1 x2 x3 old h (inr e) = ground arith

-- vperm2f128 and vperm2i128 make the documented selection where bits 4 and 5 of the immediate are 0,
-- where they are bits 0 and 1, and where bit 7 clears the half that they are for.
pub vperm2f128-documented :
    (src vsrc imm old : ℕ)
    → (bit_and (imm >>> 4) 3 ≡ 0)
      ⊎ (bit_and (imm >>> 4) 3 ≡ bit_and imm 3)
      ⊎ (bit_and (imm >>> 7) 1 ≡ 1)
    → (vperm2f128 src vsrc imm old ≡ documented_perm src vsrc imm)
      × (vperm2i128 src vsrc imm old ≡ documented_perm src vsrc imm)
unfolding vperm2f128 vperm2i128 low_half high_half
vperm2f128-documented src vsrc imm old h =
    let low =
      ladder (bit_and imm 3) (lane 128 0 vsrc) (lane 128 1 vsrc) (lane 128 0 src) (lane 128 1 src)
        (two_bits imm) in
    let both =
      ap₂ (λ x y. pack 128 ((if bit_and (imm >>> 3) 1 == 1 then 0 else x) ∷ y ∷ [])) low (high h) in
    (both, both)
  where
    chosen :
        (bit_and (imm >>> 4) 3 ≡ 0) ⊎ (bit_and (imm >>> 4) 3 ≡ bit_and imm 3)
        → (if bit_and (imm >>> 7) 1 == 1 then 0 else high_half src vsrc imm old) ≡ (
            if bit_and (imm >>> 7) 1 == 1
            then 0
            else documented_half src vsrc (bit_and (imm >>> 4) 3))
    chosen e =
        ap (λ y. if bit_and (imm >>> 7) 1 == 1 then 0 else y)
          (mixed_ladder (bit_and imm 3) (bit_and (imm >>> 4) 3) (lane 128 0 vsrc) (lane 128 1 vsrc)
            (lane 128 0 src) (lane 128 1 src) (lane 128 1 old) (two_bits (imm >>> 4)) e)

    high :
        (bit_and (imm >>> 4) 3 ≡ 0)
          ⊎ (bit_and (imm >>> 4) 3 ≡ bit_and imm 3)
          ⊎ (bit_and (imm >>> 7) 1 ≡ 1)
        → (if bit_and (imm >>> 7) 1 == 1 then 0 else high_half src vsrc imm old) ≡ (
            if bit_and (imm >>> 7) 1 == 1
            then 0
            else documented_half src vsrc (bit_and (imm >>> 4) 3))
    high (inl e) = chosen (inl e)
    high (inr (inl e)) = chosen (inr e)
    high (inr (inr e)) = rw e refl
