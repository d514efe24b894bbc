-- ===== src/Aes/Rounds.antt =====
-- The AES instructions of aes.h. Every operand and result is an XMM, a number below 2 ^ 128.
use opemu_linux.Common.{ℕ, bit_xor, [], ◌∷◌}
use opemu_linux.Common.Lanes.{lane, pack}
use opemu_linux.Aes.Block.{
  shift_rows, inv_shift_rows, sub_bytes, inv_sub_bytes, mix_columns, inv_mix_columns, sub_word,
  rot_word,
}

unfoldable pub aesimc : ℕ → ℕ
aesimc src = inv_mix_columns src

-- The round key stands first, the state second, as in the source.
unfoldable pub aesenc : ℕ → ℕ → ℕ
aesenc key block = bit_xor (mix_columns (sub_bytes (shift_rows block))) key

unfoldable pub aesenclast : ℕ → ℕ → ℕ
aesenclast key block = bit_xor (sub_bytes (shift_rows block)) key

unfoldable pub aesdec : ℕ → ℕ → ℕ
aesdec key block = bit_xor (inv_mix_columns (inv_sub_bytes (inv_shift_rows block))) key

unfoldable pub aesdeclast : ℕ → ℕ → ℕ
aesdeclast key block = bit_xor (inv_sub_bytes (inv_shift_rows block)) key

unfoldable pub aeskeygenassist : ℕ → ℕ → ℕ
aeskeygenassist src imm =
    let x1 = sub_word (lane 32 1 src) in
    let r2 = bit_xor (rot_word x1) imm in
    let x3 = sub_word (lane 32 3 src) in
    let r4 = bit_xor (rot_word x3) imm in pack 32 (x1 ∷ r2 ∷ x3 ∷ r4 ∷ [])
