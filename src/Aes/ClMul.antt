-- ===== src/Aes/ClMul.antt =====
-- The carry-less product: `cl_mul` of aes.c and `pclmulqdq_128` and `pclmulqdq_256` of aes.h.
use opemu_linux.Common.{ℕ, zero, suc, ◌+◌}
use opemu_linux.Common.{trunc, bit_and, bit_xor, ◌<<<◌, ◌>>>◌, ◌==◌, if◌then◌else◌, [], ◌∷◌}
use opemu_linux.Common.Lanes.{lane, pack}

-- `while (b != 0)`, at most as often as the first argument says.
unfoldable pub cl_loop : ℕ → ℕ → ℕ → ℕ → ℕ
cl_loop zero r a b = r
cl_loop (suc n) r a b =
    let r' = if bit_and b 1 == 0 then r else bit_xor r a in
    let rest = cl_loop n r' (trunc 128 (a <<< 1)) (b >>> 1) in if b == 0 then r else rest

-- A number of 128 bits is 0 after 128 halvings.
unfoldable pub cl_mul : ℕ → ℕ → ℕ
cl_mul a b = cl_loop 128 0 a b

unfoldable pub pclmulqdq_128 : ℕ → ℕ → ℕ → ℕ
pclmulqdq_128 src2 src1 imm =
    cl_mul (lane 64 (bit_and imm 1) src1) (lane 64 (bit_and (imm >>> 4) 1) src2)

unfoldable pub pclmulqdq_256 : ℕ → ℕ → ℕ → ℕ
pclmulqdq_256 src2 src1 imm =
    let imm0 = bit_and imm 1 in
    let imm4 = bit_and (imm >>> 4) 1 in
    pack 128 (
      cl_mul (lane 64 imm0 src1) (lane 64 imm4 src2)
      ∷ cl_mul (lane 64 (imm0 + 2) src1) (lane 64 (imm4 + 2) src2)
      ∷ [])
