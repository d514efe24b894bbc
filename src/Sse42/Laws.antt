-- ===== src/Sse42/Laws.antt =====
-- What the SSE4.2 instructions compute and leave in the flags.
use opemu_linux.Common.{ℕ, ◌+◌, ◌-◌, ◌%◌, ◌^◌, ◌<◌, ◌≡◌, arith, ◌∙◌, Bool}
use opemu_linux.Common.{◌==◌, if◌then◌else◌, ltb, ◌||◌}
use opemu_linux.Common.Lanes.{lane, lane-lt, lane-tabulate}
use opemu_linux.Sse42.{vpcmpgtq}

-- Each lane is all ones if the lane of vsrc is the greater one, read as signed, and else 0. Signed
-- numbers compare as their patterns do with the top bit turned over.
vpcmpgtq-lane :
    (n src vsrc i : ℕ)
    → i < n
    → lane 64 i (vpcmpgtq n src vsrc) ≡ (
        let order = λ (x : ℕ). (lane 64 i x + 2 ^ 63) % 2 ^ 64 in
        if ltb (order src) (order vsrc) then 2 ^ 64 - 1 else 0)
unfolding vpcmpgtq
vpcmpgtq-lane n src vsrc i h =
    lane-tabulate 64 n i _ h ∙ ground (arith, lane-lt 64 i src, lane-lt 64 i vsrc)

-- The places of OF, SF, ZF, AF, PF and CF.
abbrev is_status : ℕ → Bool
is_status k = k == 0 || k == 2 || k == 4 || k == 6 || k == 7 || k == 11
