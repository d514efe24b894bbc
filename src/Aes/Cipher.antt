-- ===== src/Aes/Cipher.antt =====
-- A whole encryption that runs on the instructions of aes.h, and its decryption.
use opemu_linux.Common.{ℕ, ◌^◌, ◌<◌, ◌≡◌, refl, bit_xor, List, [], ◌∷◌, All}
use opemu_linux.Common.Bits.Laws.{bit_xor_undo, bit_xor-lt}
use opemu_linux.Aes.Block.{sub_bytes, shift_rows, mix_columns}
use opemu_linux.Aes.Rounds.{aesimc, aesenc, aesenclast, aesdec, aesdeclast}
use opemu_linux.Aes.RoundLaws.{unround, unsub, mix_columns-lt}

-- The middle rounds, and the way back through them with the keys of AESIMC.
unfoldable pub encrypt_rounds : List ℕ → ℕ → ℕ
encrypt_rounds [] block = block
encrypt_rounds (k ∷ keys) block = encrypt_rounds keys (aesenc k block)

unfoldable pub decrypt_rounds : List ℕ → ℕ → ℕ
decrypt_rounds [] block = block
decrypt_rounds (k ∷ keys) block = aesdec (aesimc k) (decrypt_rounds keys block)

-- A program's cipher with the keys `first`, `keys` and `last`.
unfoldable pub encrypt : ℕ → List ℕ → ℕ → ℕ → ℕ
encrypt first keys last block = aesenclast last (encrypt_rounds keys (bit_xor block first))

unfoldable pub decrypt : ℕ → List ℕ → ℕ → ℕ → ℕ
decrypt first keys last block = aesdeclast first (decrypt_rounds keys (bit_xor block last))

abbrev AreKeys : List ℕ → Type 0
AreKeys keys = All (λ k. k < 2 ^ 128) keys

encrypt_rounds-lt :
    (keys : List ℕ) (d : ℕ) → AreKeys keys → d < 2 ^ 128 → encrypt_rounds keys d < 2 ^ 128
unfolding encrypt_rounds aesenc
encrypt_rounds-lt [] d hk hd = hd
encrypt_rounds-lt (k ∷ keys) d hk hd = encrypt_rounds-lt keys (aesenc k d) hk.1 (
    bit_xor-lt 128 (mix_columns (sub_bytes (shift_rows d))) k
      (mix_columns-lt (sub_bytes (shift_rows d))) hk.0)

decrypt_rounds-encrypt_rounds :
    (keys : List ℕ) (d : ℕ)
    → AreKeys keys
    → decrypt_rounds keys (sub_bytes (shift_rows (encrypt_rounds keys d)))
      ≡ sub_bytes (shift_rows d)
unfolding decrypt_rounds encrypt_rounds
decrypt_rounds-encrypt_rounds [] d hk = refl
decrypt_rounds-encrypt_rounds (k ∷ keys) d hk =
    rw (decrypt_rounds-encrypt_rounds keys (aesenc k d) hk.1) (unround k d hk.0)

-- Decryption with AESDEC, AESDECLAST and AESIMC undoes encryption with AESENC and AESENCLAST, for
-- any number of rounds, any 128-bit keys and any 128-bit block.
pub decrypt-encrypt :
    (first : ℕ) (keys : List ℕ) (last block : ℕ)
    → first < 2 ^ 128
    → AreKeys keys
    → block < 2 ^ 128
    → decrypt first keys last (encrypt first keys last block) ≡ block
unfolding decrypt encrypt aesenclast aesdeclast
decrypt-encrypt first keys last block hf hk hb =
    let start = bit_xor block first in
    rw
      (
        bit_xor_undo (sub_bytes (shift_rows (encrypt_rounds keys start))) last,
        decrypt_rounds-encrypt_rounds keys start hk,
        unsub start (bit_xor-lt 128 block first hb hf),
      )
      (bit_xor_undo block first)
