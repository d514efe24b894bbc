-- ===== src/Sse41/Select.antt =====
-- The selections, insertions and extractions of vsse41.h.
use opemu_linux.Common.{ℕ, ◌-◌, bit_and, ◌>>>◌, ◌==◌, if◌then◌else◌}
use opemu_linux.Common.Lanes.{lane, pack, tabulate}

-- Lane `i` is that of src if bit `i` of the immediate is set, and else that of vsrc.
unfoldable pub vblend : ℕ → ℕ → ℕ → ℕ → ℕ → ℕ
vblend w n src vsrc imm =
    pack w (tabulate n (λ i. if bit_and (imm >>> i) 1 == 0 then lane w i vsrc else lane w i src))

-- The same by the top bit of the lane in a register.
unfoldable pub vblendv : ℕ → ℕ → ℕ → ℕ → ℕ → ℕ
vblendv w n src vsrc immsrc = pack w (
    tabulate n
      (λ i. if bit_and (lane w i immsrc >>> (w - 1)) 1 == 0 then lane w i vsrc else lane w i src))

-- vpinsrb, vpinsrd and vpinsrq: the low lane of src in the place `sel` of vsrc.
unfoldable pub inserted : ℕ → ℕ → ℕ → ℕ → ℕ → ℕ
inserted w n src vsrc sel =
    pack w (tabulate n (λ i. if i == sel then lane w 0 src else lane w i vsrc))

unfoldable pub vpinsrb : ℕ → ℕ → ℕ → ℕ
unfolding inserted
vpinsrb src vsrc imm = inserted 8 16 src vsrc (bit_and imm 15)

unfoldable pub vpinsrd : ℕ → ℕ → ℕ → ℕ
unfolding inserted
vpinsrd src vsrc imm = inserted 32 4 src vsrc (bit_and imm 3)

unfoldable pub vpinsrq : ℕ → ℕ → ℕ → ℕ
unfolding inserted
vpinsrq src vsrc imm = inserted 64 2 src vsrc (bit_and imm 1)

unfoldable pub vinsertps : ℕ → ℕ → ℕ → ℕ
vinsertps src vsrc imm =
    let count_s = bit_and (imm >>> 6) 3 in
    let count_d = bit_and (imm >>> 4) 3 in
    pack 32 (
      tabulate 4 (λ i.
        if bit_and (bit_and imm 15 >>> i) 1 == 0
        then (if i == count_d then lane 32 count_s src else lane 32 i vsrc)
        else 0))

-- The lane in the low bits of a result that is 0 above.
unfoldable pub vpextrb : ℕ → ℕ → ℕ
vpextrb dst imm = lane 8 (bit_and imm 15) dst

unfoldable pub vpextrw : ℕ → ℕ → ℕ
vpextrw dst imm = lane 16 (bit_and imm 7) dst

unfoldable pub vpextrd : ℕ → ℕ → ℕ
vpextrd dst imm = lane 32 (bit_and imm 3) dst

unfoldable pub vpextrq : ℕ → ℕ → ℕ
vpextrq dst imm = lane 64 (bit_and imm 1) dst

unfoldable pub vextractps : ℕ → ℕ → ℕ
vextractps dst imm = lane 32 (bit_and imm 3) dst
