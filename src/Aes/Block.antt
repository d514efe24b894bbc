-- ===== src/Aes/Block.antt =====
-- The transformations of an AES block in aesins.c. A block is an XMM; `u8[i]` is `lane 8 i`.
use opemu_linux.Common.{ℕ, ◌%◌, ◌^◌, ◌<<<◌, ◌>>>◌, bit_and, bit_xor, ◌==◌, if◌then◌else◌}
use opemu_linux.Common.{List, [], ◌∷◌}
use opemu_linux.Common.Lanes.{lane, pack, tabulate}
use opemu_linux.Aes.Tables.{s_box, inv_s_box}

-- `bw[i]` from `bw[i - 1]`
unfoldable pub double : ℕ → ℕ
double b =
    let shifted = (b <<< 1) % 2 ^ 8 in if bit_and b 0x80 == 0 then shifted else bit_xor shifted 0x1b

-- One round of the loop that sums the multiples; `pick` is `(a >> i) & 0x01`.
unfoldable pub add_if : ℕ → ℕ → ℕ → ℕ
add_if pick res bw = if pick == 0 then res else bit_xor res bw

unfoldable pub gf28_multi : ℕ → ℕ → ℕ
gf28_multi a b =
    let bw0 = b in
    let bw1 = double bw0 in
    let bw2 = double bw1 in
    let bw3 = double bw2 in
    add_if (bit_and (a >>> 3) 1)
      (add_if (bit_and (a >>> 2) 1)
        (add_if (bit_and (a >>> 1) 1) (add_if (bit_and (a >>> 0) 1) 0 bw0) bw1) bw2)
      bw3

-- One byte of `MixColumns` and of `InvMixColumns`, from the four of its column.
unfoldable pub mix_byte : ℕ → ℕ → ℕ → ℕ → ℕ
mix_byte a b c d =
    bit_xor (bit_xor (bit_xor (gf28_multi 0x02 a) (gf28_multi 0x03 b)) (gf28_multi 0x01 c))
      (gf28_multi 0x01 d)

unfoldable pub inv_mix_byte : ℕ → ℕ → ℕ → ℕ → ℕ
inv_mix_byte a b c d =
    bit_xor (bit_xor (bit_xor (gf28_multi 0x0E a) (gf28_multi 0x0B b)) (gf28_multi 0x0D c))
      (gf28_multi 0x09 d)

-- The sixteen assignments: byte `i` of a column takes the column's bytes from `i` round.
abbrev pub columns : (ℕ → ℕ → ℕ → ℕ → ℕ) → (ℕ → ℕ) → List ℕ
columns f u =
    f (u 0) (u 1) (u 2) (u 3)
    ∷ f (u 1) (u 2) (u 3) (u 0)
    ∷ f (u 2) (u 3) (u 0) (u 1)
    ∷ f (u 3) (u 0) (u 1) (u 2)
    ∷ f (u 4) (u 5) (u 6) (u 7)
    ∷ f (u 5) (u 6) (u 7) (u 4)
    ∷ f (u 6) (u 7) (u 4) (u 5)
    ∷ f (u 7) (u 4) (u 5) (u 6)
    ∷ f (u 8) (u 9) (u 10) (u 11)
    ∷ f (u 9) (u 10) (u 11) (u 8)
    ∷ f (u 10) (u 11) (u 8) (u 9)
    ∷ f (u 11) (u 8) (u 9) (u 10)
    ∷ f (u 12) (u 13) (u 14) (u 15)
    ∷ f (u 13) (u 14) (u 15) (u 12)
    ∷ f (u 14) (u 15) (u 12) (u 13)
    ∷ f (u 15) (u 12) (u 13) (u 14)
    ∷ []

unfoldable pub mix_columns : ℕ → ℕ
mix_columns block = pack 8 (columns mix_byte (λ i. lane 8 i block))

unfoldable pub inv_mix_columns : ℕ → ℕ
inv_mix_columns block = pack 8 (columns inv_mix_byte (λ i. lane 8 i block))

unfoldable pub sub_bytes : ℕ → ℕ
sub_bytes block = pack 8 (tabulate 16 (λ i. s_box (lane 8 i block)))

unfoldable pub inv_sub_bytes : ℕ → ℕ
inv_sub_bytes block = pack 8 (tabulate 16 (λ i. inv_s_box (lane 8 i block)))

-- The sixteen assignments of each shift.
abbrev pub shifted : ℕ → List ℕ
shifted block =
    let u : ℕ → ℕ = λ i. lane 8 i block in
    u 0
    ∷ u 5
    ∷ u 10
    ∷ u 15
    ∷ u 4
    ∷ u 9
    ∷ u 14
    ∷ u 3
    ∷ u 8
    ∷ u 13
    ∷ u 2
    ∷ u 7
    ∷ u 12
    ∷ u 1
    ∷ u 6
    ∷ u 11
    ∷ []

abbrev pub inv_shifted : ℕ → List ℕ
inv_shifted block =
    let u : ℕ → ℕ = λ i. lane 8 i block in
    u 0
    ∷ u 13
    ∷ u 10
    ∷ u 7
    ∷ u 4
    ∷ u 1
    ∷ u 14
    ∷ u 11
    ∷ u 8
    ∷ u 5
    ∷ u 2
    ∷ u 15
    ∷ u 12
    ∷ u 9
    ∷ u 6
    ∷ u 3
    ∷ []

unfoldable pub shift_rows : ℕ → ℕ
shift_rows block = pack 8 (shifted block)

unfoldable pub inv_shift_rows : ℕ → ℕ
inv_shift_rows block = pack 8 (inv_shifted block)

unfoldable pub sub_word : ℕ → ℕ
sub_word x = pack 8 (tabulate 4 (λ i. s_box (lane 8 i x)))

unfoldable pub rot_word : ℕ → ℕ
rot_word x = pack 8 (lane 8 1 x ∷ lane 8 2 x ∷ lane 8 3 x ∷ lane 8 0 x ∷ [])
