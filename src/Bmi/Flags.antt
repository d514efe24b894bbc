-- ===== src/Bmi/Flags.antt =====
-- The flag updates of bmi.h, on the number `FLAGS`.
use opemu_linux.Common.{
  ℕ, ◌-◌, Bool, not, bit_and, bit_or, bit_xor, ◌>>>◌, ◌==◌, ltb, if◌then◌else◌,
}

-- `FLAGS | m`, or `(FLAGS | m) ^ m`.
unfoldable pub set_flag : Bool → ℕ → ℕ → ℕ
set_flag b m flags = if b then bit_or flags m else bit_xor (bit_or flags m) m

abbrev carry_bit : ℕ
carry_bit = 0x0001

abbrev zero_bit : ℕ
zero_bit = 0x0040

abbrev sign_bit : ℕ
sign_bit = 0x0080

-- `(DEST >> (w - 1)) & 1` decides SF.
unfoldable pub sign_flag : ℕ → ℕ → ℕ → ℕ
unfolding set_flag
sign_flag w dest = set_flag (bit_and (dest >>> (w - 1)) 1 == 1) sign_bit

unfoldable pub zero_flag : ℕ → ℕ → ℕ
unfolding set_flag
zero_flag dest = set_flag (dest == 0) zero_bit

unfoldable pub andn_flags : ℕ → ℕ → ℕ → ℕ
unfolding sign_flag zero_flag
andn_flags w dest flags = zero_flag dest (sign_flag w dest flags)

unfoldable pub blsr_flags : ℕ → ℕ → ℕ → ℕ → ℕ
unfolding sign_flag zero_flag set_flag
blsr_flags w src dest flags =
    set_flag (src == 0) carry_bit (zero_flag dest (sign_flag w dest flags))

-- ZF is cleared whatever the result.
unfoldable pub blsmsk_flags : ℕ → ℕ → ℕ → ℕ → ℕ
unfolding sign_flag set_flag
blsmsk_flags w src dest flags =
    set_flag (src == 0) carry_bit (bit_xor (bit_or (sign_flag w dest flags) zero_bit) zero_bit)

unfoldable pub blsi_flags : ℕ → ℕ → ℕ → ℕ → ℕ
unfolding sign_flag zero_flag set_flag
blsi_flags w src dest flags =
    set_flag (not (src == 0)) carry_bit (zero_flag dest (sign_flag w dest flags))

unfoldable pub bzhi_flags : ℕ → ℕ → ℕ → ℕ
unfolding set_flag
bzhi_flags w index = set_flag (ltb (w - 1) index) carry_bit
