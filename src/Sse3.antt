-- ===== src/Sse3.antt =====
-- The SSE3 instructions in VEX form: vsse3.h. Doubles and floats are patterns, and their sums and
-- differences operations of `FloatOps`.
pub mod Dispatch
pub mod Laws
use opemu_linux.Common.{ℕ, ◌+◌, ◌*◌, ◌/◌, ◌%◌, ◌==◌, if◌then◌else◌, List, [], ◌∷◌, ◌++◌}
use opemu_linux.Common.Lanes.{lane, pack, tabulate}
use opemu_linux.Fpins.{FloatOps}

-- The even lanes twice, and the odd ones. `n` is the number of lanes.
unfoldable pub vmovsldup : ℕ → ℕ → ℕ
vmovsldup n src = pack 32 (tabulate n (λ i. lane 32 (i / 2 * 2) src))

unfoldable pub vmovddup : ℕ → ℕ → ℕ
vmovddup n src = pack 64 (tabulate n (λ i. lane 64 (i / 2 * 2) src))

unfoldable pub vmovshdup : ℕ → ℕ → ℕ
vmovshdup n src = pack 32 (tabulate n (λ i. lane 32 (i / 2 * 2 + 1) src))

unfoldable pub vlddqu : ℕ → ℕ
vlddqu src = src

-- An operation on the lanes `j` and `j + 1` of one operand.
unfoldable pub neighbours : (ℕ → ℕ → ℕ) → ℕ → ℕ → ℕ → ℕ
neighbours op w j x = op (lane w j x) (lane w (j + 1) x)

-- The pairs of 128 bits from the lane `base` on, first those of vsrc.
unfoldable pub double_pairs : (ℕ → ℕ → ℕ) → ℕ → ℕ → ℕ → List ℕ
unfolding neighbours
double_pairs op base src vsrc = neighbours op 64 base vsrc ∷ neighbours op 64 base src ∷ []

unfoldable pub float_pairs : (ℕ → ℕ → ℕ) → ℕ → ℕ → ℕ → List ℕ
unfolding neighbours
float_pairs op base src vsrc =
    neighbours op 32 base vsrc
    ∷ neighbours op 32 (base + 2) vsrc
    ∷ neighbours op 32 base src
    ∷ neighbours op 32 (base + 2) src
    ∷ []

module _ (fp : FloatOps) where
  unfoldable pub vhaddpd_128 : ℕ → ℕ → ℕ
  unfolding double_pairs
  vhaddpd_128 src vsrc = pack 64 (double_pairs fp.add 0 src vsrc)

  unfoldable pub vhaddpd_256 : ℕ → ℕ → ℕ
  unfolding double_pairs
  vhaddpd_256 src vsrc = pack 64 (double_pairs fp.add 0 src vsrc ++ double_pairs fp.add 2 src vsrc)

  unfoldable pub vhaddps_128 : ℕ → ℕ → ℕ
  unfolding float_pairs
  vhaddps_128 src vsrc = pack 32 (float_pairs fp.add_f32 0 src vsrc)

  unfoldable pub vhaddps_256 : ℕ → ℕ → ℕ
  unfolding float_pairs
  vhaddps_256 src vsrc =
      pack 32 (float_pairs fp.add_f32 0 src vsrc ++ float_pairs fp.add_f32 4 src vsrc)

  unfoldable pub vhsubpd_128 : ℕ → ℕ → ℕ
  unfolding double_pairs
  vhsubpd_128 src vsrc = pack 64 (double_pairs fp.sub 0 src vsrc)

  unfoldable pub vhsubpd_256 : ℕ → ℕ → ℕ
  unfolding double_pairs
  vhsubpd_256 src vsrc = pack 64 (double_pairs fp.sub 0 src vsrc ++ double_pairs fp.sub 2 src vsrc)

  unfoldable pub vhsubps_128 : ℕ → ℕ → ℕ
  unfolding float_pairs
  vhsubps_128 src vsrc = pack 32 (float_pairs fp.sub_f32 0 src vsrc)

  unfoldable pub vhsubps_256 : ℕ → ℕ → ℕ
  unfolding float_pairs
  vhsubps_256 src vsrc =
      pack 32 (float_pairs fp.sub_f32 0 src vsrc ++ float_pairs fp.sub_f32 4 src vsrc)

  -- Differences in the even lanes and sums in the odd ones.
  unfoldable pub vaddsubpd : ℕ → ℕ → ℕ → ℕ
  vaddsubpd n src vsrc = pack 64 (
      tabulate n (λ i.
        if i % 2 == 0
        then fp.sub (lane 64 i vsrc) (lane 64 i src)
        else fp.add (lane 64 i vsrc) (lane 64 i src)))

  unfoldable pub vaddsubps : ℕ → ℕ → ℕ → ℕ
  vaddsubps n src vsrc = pack 32 (
      tabulate n (λ i.
        if i % 2 == 0
        then fp.sub_f32 (lane 32 i vsrc) (lane 32 i src)
        else fp.add_f32 (lane 32 i vsrc) (lane 32 i src)))
