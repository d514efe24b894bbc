-- ===== src/Avx/Permute.antt =====
-- The permutations of avx.h.
use opemu_linux.Common.{ℕ, ◌+◌, ◌-◌, ◌*◌, ◌/◌, ◌%◌, ◌^◌, [], ◌∷◌}
use opemu_linux.Common.{bit_and, ◌>>>◌, ◌==◌, if◌then◌else◌}
use opemu_linux.Common.Lanes.{lane, pack, tabulate}

-- The selectors of vpermilpd_128a and vpermilpd_256a are in src; each pair keeps to its half.
unfoldable pub vpermilpd_a : ℕ → ℕ → ℕ → ℕ
vpermilpd_a n src vsrc =
    pack 64 (tabulate n (λ i. lane 64 (i / 2 * 2 + bit_and (lane 64 i src >>> 1) 1) vsrc))

-- Those of the forms `b` are in the immediate.
unfoldable pub vpermilpd_b : ℕ → ℕ → ℕ → ℕ
vpermilpd_b n src imm =
    let mask = bit_and imm (2 ^ n - 1) in
    pack 64 (tabulate n (λ i. lane 64 (i / 2 * 2 + bit_and (mask >>> i) 1) src))

unfoldable pub vpermilps_a : ℕ → ℕ → ℕ → ℕ
vpermilps_a n src vsrc =
    pack 32 (tabulate n (λ i. lane 32 (i / 4 * 4 + bit_and (lane 32 i src) 3) vsrc))

unfoldable pub vpermilps_b : ℕ → ℕ → ℕ → ℕ
vpermilps_b n src imm =
    pack 32 (tabulate n (λ i. lane 32 (i / 4 * 4 + bit_and (imm >>> (i % 4 * 2)) 3) src))

-- The low half by the two low bits of the immediate.
unfoldable pub low_half : ℕ → ℕ → ℕ → ℕ
low_half src vsrc imm =
    let imm1_0 = bit_and imm 3 in
    if imm1_0 == 0
    then lane 128 0 vsrc
    else (if imm1_0 == 1
        then lane 128 1 vsrc
        else (if imm1_0 == 2 then lane 128 0 src else lane 128 1 src))

-- The high half: bits 4 and 5 are asked whether they are 0, and the rest of the ladder asks bits 0 and
-- 1 again. `old` is what the half held.
unfoldable pub high_half : ℕ → ℕ → ℕ → ℕ → ℕ
high_half src vsrc imm old =
    let imm1_0 = bit_and imm 3 in
    let imm5_4 = bit_and (imm >>> 4) 3 in
    if imm5_4 == 0
    then lane 128 0 vsrc
    else (if imm1_0 == 1
        then lane 128 1 vsrc
        else (if imm1_0 == 2
            then lane 128 0 src
            else (if imm1_0 == 3 then lane 128 1 src else lane 128 1 old)))

unfoldable pub vperm2f128 : ℕ → ℕ → ℕ → ℕ → ℕ
unfolding low_half high_half
vperm2f128 src vsrc imm old = pack 128 (
    (if bit_and (imm >>> 3) 1 == 1 then 0 else low_half src vsrc imm)
    ∷ (if bit_and (imm >>> 7) 1 == 1 then 0 else high_half src vsrc imm old)
    ∷ [])

-- The same ladders, on the result itself.
unfoldable pub vperm2i128 : ℕ → ℕ → ℕ → ℕ → ℕ
unfolding low_half high_half
vperm2i128 src vsrc imm old = pack 128 (
    (if bit_and (imm >>> 3) 1 == 1 then 0 else low_half src vsrc imm)
    ∷ (if bit_and (imm >>> 7) 1 == 1 then 0 else high_half src vsrc imm old)
    ∷ [])

-- vpermd and vpermps: any lane of src, by the lanes of vsrc.
unfoldable pub vpermd : ℕ → ℕ → ℕ
vpermd src vsrc = pack 32 (tabulate 8 (λ i. lane 32 (bit_and (lane 32 i vsrc) 7) src))

-- vpermq and vpermpd.
unfoldable pub vpermq : ℕ → ℕ → ℕ
vpermq src imm = pack 64 (tabulate 4 (λ i. lane 64 (bit_and (imm >>> (i * 2)) 3) src))
