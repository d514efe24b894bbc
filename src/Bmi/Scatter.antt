-- ===== src/Bmi/Scatter.antt =====
-- Packing the digits of a number at the ones of a mask, and putting them back there: what PEXT and
-- PDEP are documented to do, and how the two undo each other.
use opemu_linux.Common.{ℕ, zero, suc, ◌+◌, ◌*◌, ◌/◌, ◌%◌, ◌^◌, ◌≡◌, sym, arith}
use opemu_linux.Common.{bit_and, ◌==◌, if◌then◌else◌, ◌⊎◌, inl, inr}
use opemu_linux.Common.Bits.Step.{bit_and_step}
use opemu_linux.Common.Bits.Digit.{mod_double}
use opemu_linux.Common.Bits.Laws.{bit_and_comm, bit_and-zero}
use native.Mathlib.Nat.{pow-succ', one-le-pow, mod-one}

-- The digits of `t` at the ones of the first `n` digits of `m`, packed to the right.
unfoldable pub gather : ℕ → ℕ → ℕ → ℕ
gather zero m t = 0
gather (suc n) m t =
    let rest = gather n (m / 2) (t / 2) in if m % 2 == 1 then t % 2 + 2 * rest else rest

-- The low digits of `t`, put one by one at those places.
unfoldable pub scatter : ℕ → ℕ → ℕ → ℕ
scatter zero m t = 0
scatter (suc n) m t =
    if m % 2 == 1 then t % 2 + 2 * scatter n (m / 2) (t / 2) else 2 * scatter n (m / 2) t

-- How many ones the first `n` digits have.
unfoldable pub ones : ℕ → ℕ → ℕ
ones zero m = 0
ones (suc n) m = m % 2 + ones n (m / 2)

pub mod-two-cases : (m : ℕ) → (m % 2 ≡ 0) ⊎ (m % 2 ≡ 1)
mod-two-cases m = ground arith

-- One digit of the recursions, by the lowest digit of the mask.
module _ (n m t : ℕ) where
  pub gather-even : m % 2 ≡ 0 → gather (suc n) m t ≡ gather n (m / 2) (t / 2)
  unfolding gather
  gather-even e = rw e

  pub gather-odd : m % 2 ≡ 1 → gather (suc n) m t ≡ t % 2 + 2 * gather n (m / 2) (t / 2)
  unfolding gather
  gather-odd e = rw e

  pub scatter-even : m % 2 ≡ 0 → scatter (suc n) m t ≡ 2 * scatter n (m / 2) t
  unfolding scatter
  scatter-even e = rw e

  pub scatter-odd : m % 2 ≡ 1 → scatter (suc n) m t ≡ t % 2 + 2 * scatter n (m / 2) (t / 2)
  unfolding scatter
  scatter-odd e = rw e

module _ (n m : ℕ) where
  ones-even : m % 2 ≡ 0 → ones (suc n) m ≡ ones n (m / 2)
  unfolding ones
  ones-even e = omega arith

  ones-odd : m % 2 ≡ 1 → ones (suc n) m ≡ suc (ones n (m / 2))
  unfolding ones
  ones-odd e = omega arith

pub gather-scatter : (n m t : ℕ) → gather n m (scatter n m t) ≡ t % 2 ^ ones n m
gather-scatter zero m t = unfold gather ones in omega arith
gather-scatter (suc n) m t = elim (mod-two-cases m) [
  | inl e ↦
      rw (gather-even n m (scatter (suc n) m t) e, scatter-even n m t e, ones-even n m e)
        (ground (arith, gather-scatter n (m / 2) t))
  | inr e ↦
      rw (gather-odd n m (scatter (suc n) m t) e, scatter-odd n m t e, ones-odd n m e)
        (ground (
          arith,
          gather-scatter n (m / 2) (t / 2),
          mod_double (2 ^ ones n (m / 2)) t,
          one-le-pow (ones n (m / 2)) 2,
          pow-succ' 2 (ones n (m / 2)),
        ))
]

pub scatter-gather : (n m t : ℕ) → scatter n m (gather n m t) ≡ bit_and (m % 2 ^ n) t
scatter-gather zero m t = unfold scatter gather in rw (mod-one, bit_and_comm) (sym (bit_and-zero t))
scatter-gather (suc n) m t = elim (mod-two-cases m) [
  | inl e ↦
      rw (scatter-even n m (gather (suc n) m t) e, gather-even n m t e)
        (ground (
          arith,
          scatter-gather n (m / 2) (t / 2),
          bit_and_step (m % 2 ^ suc n) t,
          mod_double (2 ^ n) m,
          one-le-pow n 2,
          pow-succ' 2 n,
        ))
  | inr e ↦
      rw (scatter-odd n m (gather (suc n) m t) e, gather-odd n m t e)
        (ground (
          arith,
          scatter-gather n (m / 2) (t / 2),
          bit_and_step (m % 2 ^ suc n) t,
          mod_double (2 ^ n) m,
          one-le-pow n 2,
          pow-succ' 2 n,
        ))
]
