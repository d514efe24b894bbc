-- ===== src/Aes/RoundLaws.antt =====
-- The decryption rounds of aes.h against the encryption rounds.
use opemu_linux.Common.{ℕ, ◌*◌, ◌%◌, ◌^◌, ◌<◌, ◌≡◌, sym, ap, ap₂, ◌∙◌, bit_xor, arith}
use opemu_linux.Common.Bits.Laws.{bit_xor_undo, bit_xor-lt, bit_xor-mod}
use opemu_linux.Common.Lanes.{lane, tabulate, lane_ext, lane-lt, lane-bit_xor, pack-lt}
use opemu_linux.Aes.Tables.{s_box}
use opemu_linux.Aes.Block.{
  mix_byte, inv_mix_byte, columns, shift_rows, shifted, inv_shift_rows, inv_shifted, sub_bytes,
  inv_sub_bytes, mix_columns, inv_mix_columns,
}
use opemu_linux.Aes.Linear.{gf28_multi-bit_xor}
use opemu_linux.Aes.Mix.{bit_xor-sum4}
use opemu_linux.Aes.BlockLaws.{
  around, lane-columns, lane-table, lane-inv_shift_rows, inv_mix_columns-mix_columns,
  inv_shift_rows-shift_rows, inv_sub_bytes-sub_bytes,
}
use opemu_linux.Aes.Rounds.{aesimc, aesenc, aesdec}

shift_rows-lt : (x : ℕ) → shift_rows x < 2 ^ 128
unfolding shift_rows
shift_rows-lt x = pack-lt 8 (shifted x)

pub mix_columns-lt : (x : ℕ) → mix_columns x < 2 ^ 128
unfolding mix_columns
mix_columns-lt x = pack-lt 8 (columns mix_byte (λ i. lane 8 i x))

inv_mix_columns-lt : (x : ℕ) → inv_mix_columns x < 2 ^ 128
unfolding inv_mix_columns
inv_mix_columns-lt x = pack-lt 8 (columns inv_mix_byte (λ i. lane 8 i x))

sub_bytes-lt : (x : ℕ) → sub_bytes x < 2 ^ 128
unfolding sub_bytes tabulate
sub_bytes-lt x = pack-lt 8 (tabulate 16 (λ i. s_box (lane 8 i x)))

inv_shift_rows-lt : (x : ℕ) → inv_shift_rows x < 2 ^ 128
unfolding inv_shift_rows
inv_shift_rows-lt x = pack-lt 8 (inv_shifted x)

lane-sub_bytes : (x i : ℕ) → i < 16 → lane 8 i (sub_bytes x) ≡ s_box (lane 8 i x) % 256
unfolding sub_bytes
lane-sub_bytes = lane-table s_box

-- The substitution works on each byte, so the order of the two does not matter.
inv_shift_rows-sub_bytes : (x : ℕ) → inv_shift_rows (sub_bytes x) ≡ sub_bytes (inv_shift_rows x)
inv_shift_rows-sub_bytes x =
    lane_ext 8 16 _ _ (inv_shift_rows-lt (sub_bytes x)) (sub_bytes-lt (inv_shift_rows x)) λ i p.
      lane-inv_shift_rows (sub_bytes x) i p
      ∙ lane-sub_bytes x (13 * i % 16) (omega arith)
      ∙ ap (λ (b : ℕ). s_box b % 256) (sym (lane-inv_shift_rows x i p))
      ∙ sym (lane-sub_bytes (inv_shift_rows x) i p)

-- The first two steps of a round, and of a round of decryption.
pub unsub : (x : ℕ) → x < 2 ^ 128 → inv_sub_bytes (inv_shift_rows (sub_bytes (shift_rows x))) ≡ x
unsub x h =
    rw (inv_shift_rows-sub_bytes (shift_rows x), inv_shift_rows-shift_rows x h)
      (inv_sub_bytes-sub_bytes x h)

inv_mix_byte-bit_xor :
    (a b c d a' b' c' d' : ℕ)
    → a < 256
    → b < 256
    → c < 256
    → d < 256
    → a' < 256
    → b' < 256
    → c' < 256
    → d' < 256
    → inv_mix_byte (bit_xor a a') (bit_xor b b') (bit_xor c c') (bit_xor d d')
      ≡ bit_xor (inv_mix_byte a b c d) (inv_mix_byte a' b' c' d')
unfolding inv_mix_byte
inv_mix_byte-bit_xor a b c d a' b' c' d' ha hb hc hd ha' hb' hc' hd' =
    rw
      (
        gf28_multi-bit_xor 0x0E a a' ha ha',
        gf28_multi-bit_xor 0x0B b b' hb hb',
        gf28_multi-bit_xor 0x0D c c' hc hc',
        gf28_multi-bit_xor 0x09 d d' hd hd',
      )
      (sym (bit_xor-sum4 _ _ _ _ _ _ _ _))

-- The inverse mixing distributes over the sum with a round key.
inv_mix_columns-bit_xor :
    (x y : ℕ) → inv_mix_columns (bit_xor x y) ≡ bit_xor (inv_mix_columns x) (inv_mix_columns y)
inv_mix_columns-bit_xor x y =
    lane_ext 8 16 _ _ (inv_mix_columns-lt (bit_xor x y))
      (bit_xor-lt 128 _ _ (inv_mix_columns-lt x) (inv_mix_columns-lt y))
      (unfold inv_mix_columns in
        λ i p.
          lane-columns inv_mix_byte (λ j. lane 8 j (bit_xor x y)) i p
          ∙ ap (λ (b : ℕ). b % 256)
              (rw
                (
                  lane-bit_xor 8 i x y,
                  lane-bit_xor 8 (around 1 i) x y,
                  lane-bit_xor 8 (around 2 i) x y,
                  lane-bit_xor 8 (around 3 i) x y,
                )
                (inv_mix_byte-bit_xor _ _ _ _ _ _ _ _ (lane-lt 8 _ x) (lane-lt 8 _ x)
                  (lane-lt 8 _ x) (lane-lt 8 _ x) (lane-lt 8 _ y) (lane-lt 8 _ y) (lane-lt 8 _ y)
                  (lane-lt 8 _ y)))
          ∙ bit_xor-mod 8 _ _
          ∙ ap₂ bit_xor (sym (lane-columns inv_mix_byte (λ j. lane 8 j x) i p))
              (sym (lane-columns inv_mix_byte (λ j. lane 8 j y) i p))
          ∙ sym (lane-bit_xor 8 i _ _))

-- One round of decryption, with the key that AESIMC makes, takes one round back.
pub unround :
    (k d : ℕ)
    → k < 2 ^ 128
    → aesdec (aesimc k) (sub_bytes (shift_rows (aesenc k d))) ≡ sub_bytes (shift_rows d)
unfolding aesdec aesimc aesenc
unround k d hk =
    let s = sub_bytes (shift_rows d) in
    rw
      (
        unsub (bit_xor (mix_columns s) k) (bit_xor-lt 128 _ _ (mix_columns-lt s) hk),
        inv_mix_columns-bit_xor (mix_columns s) k,
        inv_mix_columns-mix_columns s (sub_bytes-lt (shift_rows d)),
      )
      (bit_xor_undo s (inv_mix_columns k))
