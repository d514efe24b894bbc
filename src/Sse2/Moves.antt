-- ===== src/Sse2/Moves.antt =====
-- The moves and masks of vsse2.h. Floats are copied by their bits.
use opemu_linux.Common.{ℕ, zero, suc, ◌-◌, [], ◌∷◌}
use opemu_linux.Common.{bit_and, bit_or, sign_extend, ◌>>>◌, ◌<<<◌, ◌==◌, if◌then◌else◌}
use opemu_linux.Common.Lanes.{lane, pack, tabulate}
use opemu_linux.Simd.Loops.{lanes_of}
use opemu_linux.Operand.{set_low}

-- vmovdqu, vmovupd and vmovntdq: a whole operand, whichever the caller passes.
unfoldable pub vmovdqu : ℕ → ℕ
vmovdqu x = x

unfoldable pub vmovupd : ℕ → ℕ → ℕ
unfolding lanes_of
vmovupd n x = pack 64 (lanes_of 64 n x)

-- vmovda and vmovdb: the low 64 or 32 bits, and 0 above.
unfoldable pub vmovd : ℕ → ℕ → ℕ
vmovd x operand_size =
    if operand_size == 64
    then pack 64 (lane 64 0 x ∷ 0 ∷ [])
    else pack 32 (lane 32 0 x ∷ 0 ∷ 0 ∷ 0 ∷ [])

unfoldable pub vmovsd_128a : ℕ → ℕ → ℕ
vmovsd_128a src vsrc = pack 64 (lane 64 0 src ∷ lane 64 1 vsrc ∷ [])

unfoldable pub vmovsd_128b : ℕ → ℕ
vmovsd_128b src = pack 64 (lane 64 0 src ∷ 0 ∷ [])

unfoldable pub vmovlpd_128a : ℕ → ℕ → ℕ
vmovlpd_128a src vsrc = pack 64 (lane 64 0 src ∷ lane 64 1 vsrc ∷ [])

-- Only the low half of the result is written; `old` is what it held.
unfoldable pub vmovlpd_128b : ℕ → ℕ → ℕ
vmovlpd_128b dst old = set_low 64 old (lane 64 0 dst)

unfoldable pub vmovhpd_128a : ℕ → ℕ → ℕ
vmovhpd_128a src vsrc = pack 64 (lane 64 0 vsrc ∷ lane 64 0 src ∷ [])

unfoldable pub vmovhpd_128b : ℕ → ℕ → ℕ
vmovhpd_128b dst old = set_low 64 old (lane 64 1 dst)

-- The bytes of dst where the mask has its top bit, and those of `var` elsewhere.
unfoldable pub vmaskmovdqu : ℕ → ℕ → ℕ → ℕ
vmaskmovdqu src dst var =
    pack 8 (
      tabulate 16 (λ i. if bit_and (lane 8 i src >>> 7) 1 == 1 then lane 8 i dst else lane 8 i var))

-- `dest |= (xbit << i)`: `xbit << i` is an int, so at place 31 it is negative, and `dest` has 64 bits.
unfoldable pub mask_digit : ℕ → ℕ → ℕ
mask_digit xbit i = sign_extend 32 64 (xbit <<< i)

unfoldable pub top_bits : ℕ → ℕ → ℕ → ℕ
unfolding mask_digit
top_bits w src zero = 0
top_bits w src (suc i) =
    bit_or (top_bits w src i) (mask_digit (bit_and (lane w i src >>> (w - 1)) 1) i)

unfoldable pub vmovmskpd : ℕ → ℕ → ℕ
unfolding top_bits
vmovmskpd n src = top_bits 64 src n

unfoldable pub vpmovmskb : ℕ → ℕ → ℕ
unfolding top_bits
vpmovmskb n src = top_bits 8 src n

-- `res->u16[sel] = word`
unfoldable pub vpinsrw : ℕ → ℕ → ℕ → ℕ
vpinsrw src vsrc imm =
    pack 16 (tabulate 8 (λ i. if i == bit_and imm 7 then lane 16 0 src else lane 16 i vsrc))
