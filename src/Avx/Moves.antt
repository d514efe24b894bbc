-- ===== src/Avx/Moves.antt =====
-- The broadcasts, halves, masked moves, blends and tests of avx.h, and the instructions that clear the
-- vector registers. `n` is the number of lanes of `w` bits; the functions for XMM and YMM have the same
-- loop.
use opemu_linux.Common.{ℕ, zero, suc, ◌-◌, ◌%◌, ◌^◌, Bool, true, not, ◌&&◌, [], ◌∷◌}
use opemu_linux.Common.{bit_and, bit_or, ◌>>>◌, ◌==◌, if◌then◌else◌}
use opemu_linux.Common.Lanes.{lane, pack, tabulate}
use opemu_linux.Machine.{Regs, is_saved_state64}
use opemu_linux.Simd.{Write}
use opemu_linux.Sse2.Compare.{clear_flag}

-- vbroadcastss, vbroadcastsd, vbroadcastf128, vbroadcasti128 and vpbroadcastb, -w, -d and -q.
unfoldable pub vbroadcast : ℕ → ℕ → ℕ → ℕ
vbroadcast w n src = pack w (tabulate n (λ i. lane w 0 src))

-- vextractf128 and vextracti128.
unfoldable pub vextract128 : ℕ → ℕ → ℕ
vextract128 dst imm = if bit_and imm 1 == 1 then lane 128 1 dst else lane 128 0 dst

-- vinsertf128 and vinserti128.
unfoldable pub vinsert128 : ℕ → ℕ → ℕ → ℕ
vinsert128 src vsrc imm =
    if bit_and imm 1 == 1
    then pack 128 (lane 128 0 vsrc ∷ src ∷ [])
    else pack 128 (src ∷ lane 128 1 vsrc ∷ [])

-- `mask_bit >> 31 & 1` of the lane of vsrc.
unfoldable pub is_masked : ℕ → ℕ → ℕ → Bool
is_masked w vsrc i = bit_and (lane w i vsrc >>> (w - 1)) 1 == 1

unfoldable pub masked_load : ℕ → ℕ → ℕ → ℕ → ℕ
unfolding is_masked
masked_load w n src vsrc = pack w (tabulate n (λ i. if is_masked w vsrc i then lane w i src else 0))

-- A store leaves the other lanes as they are.
unfoldable pub masked_store : ℕ → ℕ → ℕ → ℕ → ℕ → ℕ
unfolding is_masked
masked_store w n src vsrc old =
    pack w (tabulate n (λ i. if is_masked w vsrc i then lane w i src else lane w i old))

unfoldable pub vmaskmovps_load : ℕ → ℕ → ℕ → ℕ
unfolding masked_load
vmaskmovps_load n src vsrc = masked_load 32 n src vsrc

unfoldable pub vmaskmovps_store : ℕ → ℕ → ℕ → ℕ → ℕ
unfolding masked_store
vmaskmovps_store n src vsrc old = masked_store 32 n src vsrc old

unfoldable pub vmaskmovpd_load : ℕ → ℕ → ℕ → ℕ
unfolding masked_load
vmaskmovpd_load n src vsrc = masked_load 64 n src vsrc

unfoldable pub vmaskmovpd_store : ℕ → ℕ → ℕ → ℕ → ℕ
unfolding masked_store
vmaskmovpd_store n src vsrc old = masked_store 64 n src vsrc old

unfoldable pub vpmaskmovd_load : ℕ → ℕ → ℕ → ℕ
unfolding masked_load
vpmaskmovd_load n src vsrc = masked_load 32 n src vsrc

unfoldable pub vpmaskmovd_store : ℕ → ℕ → ℕ → ℕ → ℕ
unfolding masked_store
vpmaskmovd_store n src vsrc old = masked_store 32 n src vsrc old

unfoldable pub vpmaskmovq_load : ℕ → ℕ → ℕ → ℕ
unfolding masked_load
vpmaskmovq_load n src vsrc = masked_load 64 n src vsrc

unfoldable pub vpmaskmovq_store : ℕ → ℕ → ℕ → ℕ → ℕ
unfolding masked_store
vpmaskmovq_store n src vsrc old = masked_store 64 n src vsrc old

unfoldable pub vpblendd : ℕ → ℕ → ℕ → ℕ → ℕ
vpblendd n src vsrc imm =
    pack 32 (tabulate n (λ i. if bit_and (imm >>> i) 1 == 1 then lane 32 i src else lane 32 i vsrc))

-- `(tmp = v)` as a condition: what is assigned is its value.
abbrev assigned : ℕ → Bool
assigned v = not (v == 0)

-- The `n` conditions of a test, joined by `&&`.
unfoldable pub all_assigned : ℕ → Bool
all_assigned zero = true
all_assigned (suc n) = assigned 0 && all_assigned n

-- vtestps and vtestpd of the flags. The variables that hold the sign bits are set to 0 in the
-- conditions (`=` for `==`), so the operands do not matter.
unfoldable pub vtest : ℕ → ℕ → ℕ
unfolding clear_flag all_assigned
vtest n flags =
    let f1 = if all_assigned n then bit_or flags 0x0040 else clear_flag flags 0x0040 in
    let f2 = if all_assigned n then bit_or f1 0x0001 else clear_flag f1 0x0001 in
    clear_flag (clear_flag (clear_flag (clear_flag f2 0x0010) 0x0800) 0x0004) 0x0080

-- `limit`: the registers of the mode.
abbrev register_limit : Regs → ℕ
register_limit regs = if is_saved_state64 regs then 16 else 8

unfoldable pub vzeroupper : Regs → Write
vzeroupper regs = Write.each_ymm (register_limit regs) (λ x. x % 2 ^ 128)

unfoldable pub vzeroall : Regs → Write
vzeroall regs = Write.each_ymm (register_limit regs) (λ x. 0)
