-- ===== src/Tests/Vectors.antt =====
-- AES, the carry-less product and the half format on concrete inputs.
use opemu_linux.Common.{ℕ, ◌+◌, ◌*◌, ◌/◌, ◌%◌, ◌^◌, ◌≡◌, refl, arith, [], ◌∷◌}
use opemu_linux.Common.Bits.Digit.{bit}
use opemu_linux.Common.Lanes.{lane, pack, tabulate}
use opemu_linux.Aes.Tables.{s_box}
use opemu_linux.Aes.Block.{double, add_if, gf28_multi, mix_byte, mix_columns, sub_bytes, shift_rows}
use opemu_linux.Aes.Rounds.{aesenc}
use opemu_linux.Aes.Cipher.{encrypt, decrypt, decrypt-encrypt}
use opemu_linux.Aes.ClMul.{cl_loop, cl_mul}
use opemu_linux.Aes.ClMulLaws.{total, product_digit, cl_mul-bits}
use opemu_linux.Half.{half_to_float, float_to_half, round_normal, renormalize, assemble}
use opemu_linux.Half.Laws.{float_to_half-half_to_float}
use opemu_linux.Half.Rounding.{rounded_half, float_to_half-rounds}

abbrev state : ℕ
state = 0x7b5b54657374566563746f725d53475d

abbrev round_key : ℕ
round_key = 0x48692853686179295b477565726f6e5d

-- The test vector of Intel's white paper on the instructions.
aesenc_run : aesenc round_key state ≡ 0xa8311c2f9fdba3c58b104b58ded7e595
unfolding aesenc mix_columns sub_bytes shift_rows lane pack tabulate mix_byte gf28_multi double
    add_if s_box
aesenc_run = refl

cl_mul_run :
    cl_mul 0x7b5b546573745665 0x48692853686179295 ≡ cl_mul 0x48692853686179295 0x7b5b546573745665
unfolding cl_mul cl_loop
cl_mul_run = refl

half_run :
    (half_to_float 0x3C00 ≡ 0x3F800000)
    × (float_to_half 0x3F800000 ≡ 0x3C00)
    × (half_to_float 0x0001 ≡ 0x33800000)
unfolding half_to_float float_to_half round_normal renormalize assemble
half_run = (refl, refl, refl)

decrypt-encrypt_example :
    decrypt round_key
      (state ∷ round_key ∷ [])
      7
      (encrypt round_key (state ∷ round_key ∷ []) 7 state)
    ≡ state
decrypt-encrypt_example =
    decrypt-encrypt round_key (state ∷ round_key ∷ []) 7 state (omega arith)
      (omega arith, (omega arith, tt)) (omega arith)

cl_mul-bits_example : bit 5 (cl_mul 0x1B 0x35) ≡ total 128 (product_digit 0x1B 0x35 5) % 2
cl_mul-bits_example = cl_mul-bits 0x1B 0x35 5 (omega arith) (omega arith)

float_to_half-half_to_float_example : float_to_half (half_to_float 0x7E01) ≡ 0x7E01
float_to_half-half_to_float_example = float_to_half-half_to_float 0x7E01 (omega arith)

-- 1 + 3 * 2 ^ -11, half way between two halves.
float_to_half-rounds_example :
    float_to_half 0x3F803000
    ≡ 0x3F803000 / 2 ^ 31 * 2 ^ 15 + rounded_half (0x3F803000 / 2 ^ 23 % 256) (0x3F803000 % 2 ^ 23)
float_to_half-rounds_example = float_to_half-rounds 0x3F803000 (omega arith) (omega arith)
