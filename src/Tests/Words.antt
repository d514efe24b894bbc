-- ===== src/Tests/Words.antt =====
-- BMI on concrete words.
use opemu_linux.Common.{
  ℕ, ◌+◌, ◌/◌, ◌-◌, ◌%◌, ◌^◌, ◌≡◌, refl, arith, bit_and, ◌==◌, if◌then◌else◌, not,
}
use opemu_linux.Common.Bits.Digit.{bit}
use opemu_linux.Bmi.Bits.{bls-lowest}
use opemu_linux.Bmi.Words.{blsi, blsr, blsmsk, bextr, pdep_loop, pext_loop, pdep, pext}
use opemu_linux.Bmi.Flags.{blsr_flags, blsi_flags, blsmsk_flags}
use opemu_linux.Bmi.Scatter.{gather, scatter, ones}
use opemu_linux.Bmi.Deposit.{pext-eq-gather, pdep-eq-scatter, pext-pdep, pdep-pext}
use opemu_linux.Bmi.FlagLaws.{digit, bit-bls_flags}

pext_run : pext 32 0xFF00FFF0 0x12345678 ≡ 0x12567
unfolding pext pext_loop
pext_run = refl

pdep_run : pdep 32 0xFF00FFF0 0x00012567 ≡ 0x12005670
unfolding pdep pdep_loop
pdep_run = refl

bextr_run : bextr 32 (λ _. 0) 8 7 0x12345678 ≡ 0x56
unfolding bextr
bextr_run = refl

pext-eq-gather_example : pext 32 0xFF00FFF0 0x12345678 ≡ gather 32 0xFF00FFF0 0x12345678
pext-eq-gather_example = pext-eq-gather 32 0xFF00FFF0 0x12345678

pdep-eq-scatter_example : pdep 32 0xFF00FFF0 0x12567 ≡ scatter 32 0xFF00FFF0 0x12567
pdep-eq-scatter_example = pdep-eq-scatter 32 0xFF00FFF0 0x12567

pext-pdep_example :
    pext 32 0xFF00FFF0 (pdep 32 0xFF00FFF0 0x12567) ≡ 0x12567 % 2 ^ ones 32 0xFF00FFF0
pext-pdep_example = pext-pdep 32 0xFF00FFF0 0x12567

pdep-pext_example :
    pdep 32 0xFF00FFF0 (pext 32 0xFF00FFF0 0x12345678) ≡ bit_and 0xFF00FFF0 0x12345678
pdep-pext_example = pdep-pext 32 0xFF00FFF0 0x12345678 (omega arith)

bit-bls_flags_example :
    let by_result = λ (carry zero : ℕ).
      if 6 == 0
      then carry
      else (if 6 == 6 then zero else (if 6 == 7 then bit (64 - 1) 0 else bit 6 0x202)) in
    (bit 6 (blsr_flags 64 8 0 0x202) ≡ by_result (digit (8 == 0)) (digit (0 == 0)))
    × (bit 6 (blsi_flags 64 8 0 0x202) ≡ by_result (digit (not (8 == 0))) (digit (0 == 0)))
    × (bit 6 (blsmsk_flags 64 8 0 0x202) ≡ by_result (digit (8 == 0)) 0)
bit-bls_flags_example = bit-bls_flags 64 8 0 0x202 6

bls-lowest_example :
    (k : ℕ) × (0x58 / 2 ^ k % 2 ≡ 1)
    × (0x58 % 2 ^ k ≡ 0)
    × (blsi 64 0x58 ≡ 2 ^ k)
    × (blsr 64 0x58 + 2 ^ k ≡ 0x58)
    × (blsmsk 64 0x58 ≡ 2 ^ (k + 1) - 1)
bls-lowest_example = bls-lowest 64 0x58 (omega arith) (omega arith)
