-- ===== src/Aes/BlockLaws.antt =====
-- The transformations of a block in aesins.c and their inverses.
use opemu_linux.Common.{
  ℕ, zero, suc, ◌+◌, ◌*◌, ◌/◌, ◌%◌, ◌^◌, ◌<◌, ◌≡◌, ap, ◌∙◌, refl, arith, get_or,
}
use opemu_linux.Common.Lanes.{
  lane, pack, tabulate, lane-pack, lane-lt, lane_ext, pack-lt, get_or-tabulate,
}
use opemu_linux.Aes.Tables.{s_box, inv_s_box, inv_s_box-s_box, s_box-mod}
use opemu_linux.Aes.Block.{
  mix_byte, inv_mix_byte, columns, mix_columns, inv_mix_columns, sub_bytes, inv_sub_bytes,
  shift_rows, inv_shift_rows, shifted, inv_shifted,
}
use opemu_linux.Aes.Mix.{mix_byte-lt, inv_mix_byte-mix_byte}
use native.Mathlib.Nat.{mod-eq_of_lt}

-- The sixteen places of a block.
at_each :
    (P : ℕ → Type 0)
    → P 0
    → P 1
    → P 2
    → P 3
    → P 4
    → P 5
    → P 6
    → P 7
    → P 8
    → P 9
    → P 10
    → P 11
    → P 12
    → P 13
    → P 14
    → P 15
    → (i : ℕ) → i < 16
    → P i
at_each P p0 p1 p2 p3 p4 p5 p6 p7 p8 p9 pa pb pc pd pe pf i h = go i h
  where
    go : (i : ℕ) → i < 16 → P i
    go zero h = p0
    go (suc zero) h = p1
    go (suc (suc zero)) h = p2
    go (suc (suc (suc zero))) h = p3
    go (suc (suc (suc (suc zero)))) h = p4
    go (suc (suc (suc (suc (suc zero))))) h = p5
    go (suc (suc (suc (suc (suc (suc zero)))))) h = p6
    go (suc (suc (suc (suc (suc (suc (suc zero))))))) h = p7
    go (suc (suc (suc (suc (suc (suc (suc (suc zero)))))))) h = p8
    go (suc (suc (suc (suc (suc (suc (suc (suc (suc zero))))))))) h = p9
    go (suc (suc (suc (suc (suc (suc (suc (suc (suc (suc zero)))))))))) h = pa
    go (suc (suc (suc (suc (suc (suc (suc (suc (suc (suc (suc zero))))))))))) h = pb
    go (suc (suc (suc (suc (suc (suc (suc (suc (suc (suc (suc (suc zero)))))))))))) h = pc
    go (suc (suc (suc (suc (suc (suc (suc (suc (suc (suc (suc (suc (suc zero))))))))))))) h = pd
    go (suc (suc (suc (suc (suc (suc (suc (suc (suc (suc (suc (suc (suc (suc zero)))))))))))))) h =
        pe
    go
          (suc (
            suc (suc (suc (suc (suc (suc (suc (suc (suc (suc (suc (suc (suc (suc zero)))))))))))))))
          h =
        pf
    go
          (suc (
            suc (
              suc (suc (suc (suc (suc (suc (suc (suc (suc (suc (suc (suc (suc (suc i))))))))))))))))
          h =
        absurd (omega arith)

-- The place `k` further round in the column of `i`.
abbrev pub around : ℕ → ℕ → ℕ
around k i = i / 4 * 4 + (i + k) % 4

pub lane-columns :
    (f : ℕ → ℕ → ℕ → ℕ → ℕ) (u : ℕ → ℕ) (i : ℕ)
    → i < 16
    → lane 8 i (pack 8 (columns f u))
      ≡ f (u i) (u (around 1 i)) (u (around 2 i)) (u (around 3 i)) % 256
lane-columns f u i h =
    lane-pack 8 i (columns f u)
    ∙ ap (λ (x : ℕ). x % 256)
        (at_each
          (λ i.
            get_or (columns f u) i 0 ≡ f (u i) (u (around 1 i)) (u (around 2 i)) (u (around 3 i)))
          refl refl refl refl refl refl refl refl refl refl refl refl refl refl refl refl i h)

lane-mix_columns :
    (x i : ℕ)
    → i < 16
    → lane 8 i (mix_columns x)
      ≡ mix_byte
          (lane 8 i x)
          (lane 8 (around 1 i) x)
          (lane 8 (around 2 i) x)
          (lane 8 (around 3 i) x)
unfolding mix_columns
lane-mix_columns x i h =
    lane-columns mix_byte (λ j. lane 8 j x) i h
    ∙ mod-eq_of_lt (
        mix_byte-lt _ _ _ _ (lane-lt 8 i x) (lane-lt 8 (around 1 i) x) (lane-lt 8 (around 2 i) x)
          (lane-lt 8 (around 3 i) x))

around-around : (j k i : ℕ) → around j (around k i) ≡ around (j + k) i
around-around j k i = omega arith

-- The four mixed bytes of the column of `i`, each by the column's bytes from `i` round.
module _ (x i : ℕ) (p : i < 16) where
  abbrev u : ℕ → ℕ
  u k = lane 8 (around k i) x

  mixed :
      (k : ℕ)
      → lane 8 (around k i) (mix_columns x) ≡ mix_byte (u k) (u (1 + k)) (u (2 + k)) (u (3 + k))
  mixed k =
      rw (← around-around 1 k i, ← around-around 2 k i, ← around-around 3 k i)
        (lane-mix_columns x (around k i) (omega arith))

  round4 : (k : ℕ) → u (4 + k) ≡ u k
  round4 k = ap (λ (j : ℕ). lane 8 j x) (omega arith)

  start : (y : ℕ) → lane 8 i y ≡ lane 8 (around 0 i) y
  start y = ap (λ (j : ℕ). lane 8 j y) (omega arith)

  unmixed :
      inv_mix_byte
        (lane 8 i (mix_columns x))
        (lane 8 (around 1 i) (mix_columns x))
        (lane 8 (around 2 i) (mix_columns x))
        (lane 8 (around 3 i) (mix_columns x))
      ≡ lane 8 i x
  unmixed =
      rw (start (mix_columns x), start x, mixed 0, mixed 1, mixed 2, mixed 3)
        (rw (round4 0, round4 1, round4 2)
          (inv_mix_byte-mix_byte (u 0) (u 1) (u 2) (u 3) (lane-lt 8 _ x) (lane-lt 8 _ x)
            (lane-lt 8 _ x) (lane-lt 8 _ x)))

-- `InvMixColumns` undoes `MixColumns` on every 128-bit block.
pub inv_mix_columns-mix_columns : (x : ℕ) → x < 2 ^ 128 → inv_mix_columns (mix_columns x) ≡ x
unfolding inv_mix_columns
inv_mix_columns-mix_columns x h =
    lane_ext 8 16 _ x (pack-lt 8 (columns inv_mix_byte (λ j. lane 8 j (mix_columns x)))) h λ i p.
      lane-columns inv_mix_byte (λ j. lane 8 j (mix_columns x)) i p
      ∙ ap (λ (b : ℕ). b % 256) (unmixed x i p)
      ∙ mod-eq_of_lt (lane-lt 8 i x)

-- A substitution that has an inverse on bytes, over the block.
pub lane-table :
    (s : ℕ → ℕ) (x i : ℕ)
    → i < 16
    → lane 8 i (pack 8 (tabulate 16 (λ j. s (lane 8 j x)))) ≡ s (lane 8 i x) % 256
lane-table s x i h =
    lane-pack 8 i (tabulate 16 (λ j. s (lane 8 j x)))
    ∙ ap (λ (b : ℕ). b % 256) (ground (arith, get_or-tabulate 16 i (λ j. s (lane 8 j x))))

module _ (s t : ℕ → ℕ) (back : (b : ℕ) → b < 256 → t (s b) ≡ b)
    (fits : (b : ℕ) → b < 256 → s b % 256 ≡ s b) where
  table_undo :
      (x : ℕ)
      → x < 2 ^ 128
      → pack 8 (tabulate 16 (λ i. t (lane 8 i (pack 8 (tabulate 16 (λ j. s (lane 8 j x))))))) ≡ x
  unfolding tabulate
  table_undo x h =
      lane_ext 8 16 _ x
        (pack-lt 8 (tabulate 16 (λ i. t (lane 8 i (pack 8 (tabulate 16 (λ j. s (lane 8 j x)))))))) h
        λ i p.
          lane-table t (pack 8 (tabulate 16 (λ j. s (lane 8 j x)))) i p
          ∙ rw
              (
                lane-table s x i p,
                fits (lane 8 i x) (lane-lt 8 i x),
                back (lane 8 i x) (lane-lt 8 i x),
              )
              (mod-eq_of_lt (lane-lt 8 i x))

-- `InvSubBytes` undoes `SubBytes`.
pub inv_sub_bytes-sub_bytes : (x : ℕ) → x < 2 ^ 128 → inv_sub_bytes (sub_bytes x) ≡ x
unfolding inv_sub_bytes sub_bytes
inv_sub_bytes-sub_bytes = table_undo s_box inv_s_box inv_s_box-s_box s_box-mod

-- The shifts as formulas on the place.
lane-shift_rows : (x i : ℕ) → i < 16 → lane 8 i (shift_rows x) ≡ lane 8 (5 * i % 16) x
unfolding shift_rows
lane-shift_rows x i h =
    lane-pack 8 i _
    ∙ ap (λ (b : ℕ). b % 256)
        (at_each (λ i. get_or (shifted x) i 0 ≡ lane 8 (5 * i % 16) x) refl refl refl refl refl refl
          refl refl refl refl refl refl refl refl refl refl i h)
    ∙ mod-eq_of_lt (lane-lt 8 (5 * i % 16) x)

pub lane-inv_shift_rows : (x i : ℕ) → i < 16 → lane 8 i (inv_shift_rows x) ≡ lane 8 (13 * i % 16) x
unfolding inv_shift_rows
lane-inv_shift_rows x i h =
    lane-pack 8 i _
    ∙ ap (λ (b : ℕ). b % 256)
        (at_each (λ i. get_or (inv_shifted x) i 0 ≡ lane 8 (13 * i % 16) x) refl refl refl refl refl
          refl refl refl refl refl refl refl refl refl refl refl i h)
    ∙ mod-eq_of_lt (lane-lt 8 (13 * i % 16) x)

-- `InvShiftRows` undoes `ShiftRows`.
pub inv_shift_rows-shift_rows : (x : ℕ) → x < 2 ^ 128 → inv_shift_rows (shift_rows x) ≡ x
inv_shift_rows-shift_rows x h =
    lane_ext 8 16 _ x (unfold inv_shift_rows in pack-lt 8 (inv_shifted (shift_rows x))) h λ i p.
      lane-inv_shift_rows (shift_rows x) i p
      ∙ lane-shift_rows x (13 * i % 16) (omega arith)
      ∙ ap (λ (j : ℕ). lane 8 j x) (omega arith)
