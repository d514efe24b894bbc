-- ===== src/Bmi/FlagLaws.antt =====
-- The flag updates, flag by flag: carry is bit 0, zero bit 6, sign bit 7.
use opemu_linux.Common.{ℕ, ◌-◌, ◌/◌, ◌^◌, ◌≡◌, arith, Bool, not, ◌==◌, if◌then◌else◌}
use opemu_linux.Common.{bit_and, bit_or, ◌>>>◌, false}
use opemu_linux.Common.Bits.Digit.{bit, bit-lt, bit-pow, bit-bit_or, bit-bit_xor, bit-eq-div-mod}
use opemu_linux.Common.Bits.Laws.{bit_and_mask}
use opemu_linux.Bmi.Flags.{
  set_flag, sign_flag, zero_flag, andn_flags, blsr_flags, blsmsk_flags, blsi_flags,
}

abbrev pub digit : Bool → ℕ
digit b = if b then 1 else 0

bit-set_flag :
    (b : Bool) (k j flags : ℕ)
    → bit j (set_flag b (2 ^ k) flags) ≡ (if j == k then digit b else bit j flags)
unfolding set_flag
bit-set_flag b k j flags = ground (
  arith,
  bit-bit_or j flags (2 ^ k),
  bit-bit_xor j (bit_or flags (2 ^ k)) (2 ^ k),
  bit-pow k j,
  bit-lt j flags,
)

module _ (w dest flags : ℕ) where
  bit-sign_flag :
      (j : ℕ) → bit j (sign_flag w dest flags) ≡ (if j == 7 then bit (w - 1) dest else bit j flags)
  unfolding sign_flag
  bit-sign_flag j = ground (
    arith,
    bit-set_flag (bit_and (dest >>> (w - 1)) 1 == 1) 7 j flags,
    bit_and_mask 1 (dest / 2 ^ (w - 1)),
    bit-eq-div-mod (w - 1) dest,
  )

  bit-zero_flag :
      (j : ℕ) → bit j (zero_flag dest flags) ≡ (if j == 6 then digit (dest == 0) else bit j flags)
  unfolding zero_flag
  bit-zero_flag j = bit-set_flag (dest == 0) 6 j flags

-- `andn` sets SF to the top bit of the result and ZF when the result is 0; no other flag changes.
bit-andn_flags :
    (w dest flags j : ℕ)
    → bit j (andn_flags w dest flags)
      ≡ (if j == 6 then digit (dest == 0) else (if j == 7 then bit (w - 1) dest else bit j flags))
unfolding andn_flags
bit-andn_flags w dest flags j =
    ground (arith, bit-zero_flag w dest (sign_flag w dest flags) j, bit-sign_flag w dest flags j)

-- `blsr` sets CF for a source 0, `blsi` for a source that is not 0, and both set ZF for a result 0 and
-- SF to the top bit of the result; `blsmsk` sets CF and SF as `blsr` does and clears ZF. The other
-- flags stay.
pub bit-bls_flags :
    (w src dest flags j : ℕ)
    → let by_result = λ (carry zero : ℕ).
      if j == 0
      then carry
      else (if j == 6 then zero else (if j == 7 then bit (w - 1) dest else bit j flags)) in
      (bit j (blsr_flags w src dest flags) ≡ by_result (digit (src == 0)) (digit (dest == 0)))
      × (bit j (blsi_flags w src dest flags)
          ≡ by_result (digit (not (src == 0))) (digit (dest == 0)))
      × (bit j (blsmsk_flags w src dest flags) ≡ by_result (digit (src == 0)) 0)
unfolding blsr_flags blsi_flags blsmsk_flags andn_flags
bit-bls_flags w src dest flags j = (
  ground (arith, bit-set_flag (src == 0) 0 j (andn_flags w dest flags), result),
  ground (arith, bit-set_flag (not (src == 0)) 0 j (andn_flags w dest flags), result),
  ground (
    arith,
    bit-set_flag (src == 0) 0 j (set_flag false (2 ^ 6) (sign_flag w dest flags)),
    bit-set_flag false 6 j (sign_flag w dest flags),
    bit-sign_flag w dest flags j,
  ),
)
  where
    result :
        bit j (andn_flags w dest flags)
        ≡ (if j == 6 then digit (dest == 0) else (if j == 7 then bit (w - 1) dest else bit j flags))
    result = bit-andn_flags w dest flags j
