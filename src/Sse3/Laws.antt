-- ===== src/Sse3/Laws.antt =====
-- Which lanes the horizontal sums of floats take, on both halves of 256 bits.
use opemu_linux.Common.{ℕ, ◌+◌, ◌*◌, ◌/◌, ◌%◌, ◌^◌, ◌<◌, ◌≡◌, ◌∙◌, arith, ltb, if◌then◌else◌, ◌++◌}
use opemu_linux.Common.Lanes.{lane, lane-pack}
use opemu_linux.Fpins.{FloatOps}
use opemu_linux.Sse3.{neighbours, float_pairs, vhaddps_256}

-- In each half of 128 bits the two low lanes are the sums of the pairs of vsrc in that half, and the
-- two high lanes those of src.
vhaddps_256-lanes :
    (fp : FloatOps) (src vsrc i : ℕ)
    → i < 8
    → lane 32 i (vhaddps_256 fp src vsrc) ≡ (
        let x = if ltb (i % 4) 2 then vsrc else src in
        let j = i / 4 * 4 + i % 2 * 2 in fp.add_f32 (lane 32 j x) (lane 32 (j + 1) x) % 2 ^ 32)
unfolding vhaddps_256 float_pairs neighbours
vhaddps_256-lanes fp src vsrc i h =
    lane-pack 32 i (float_pairs fp.add_f32 0 src vsrc ++ float_pairs fp.add_f32 4 src vsrc)
    ∙ ground arith
