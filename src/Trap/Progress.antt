-- ===== src/Trap/Progress.antt =====
-- Traps one after the other: a program that runs on emulated instructions moves on.
use opemu_linux.Common.{ℕ, suc, ◌+◌, ◌*◌, ◌^◌, ◌<◌, ◌≤◌, ◌≡◌, inl, inr, arith, refl, ◌∙◌, ap, trunc}
use opemu_linux.Machine.{Cpu}
use opemu_linux.Trap.{Emulator, opemu_utrap}
use opemu_linux.Trap.Laws.{opemu_utrap-outcome}

-- From one state to another by a number of traps that are all handled. The code does not change.
pub data Handled (em : Emulator) (memory : ℕ → ℕ) : ℕ → Cpu → Cpu → Type 0 where
  stay : {cpu : Cpu} → Handled em memory 0 cpu cpu
  trap :
      {n : ℕ} {cpu end : Cpu}
      → (opemu_utrap em memory cpu).1 ≡ 1
      → Handled em memory n (opemu_utrap em memory cpu).0 end
      → Handled em memory (suc n) cpu end

-- How far the instruction pointer has moved, within bounds, in the same mode.
pub record Advanced (n : ℕ) (cpu end : Cpu) : Type 0 where
  pub same_cs : end.regs.cs ≡ cpu.regs.cs
  pub distance : ℕ
  pub at_least : n ≤ distance
  pub at_most : distance ≤ 255 * n
  pub moved : end.regs.ip ≡ trunc 64 (cpu.regs.ip + distance)

module _ (em : Emulator) (memory : ℕ → ℕ) where
  -- One step in front of the others.
  extend :
      {n : ℕ} {cpu next end : Cpu} (d : ℕ)
      → next.regs.cs ≡ cpu.regs.cs
      → 1 ≤ d
      → d < 256
      → next.regs.ip ≡ trunc 64 (cpu.regs.ip + d)
      → Advanced n next end
      → Advanced (suc n) cpu end
  extend {cpu = cpu} {next = next} d same low high moved rest = record {
    same_cs = rest.same_cs ∙ same;
    distance = d + rest.distance;
    at_least = omega arith;
    at_most = omega arith;
    moved =
        rest.moved
        ∙ ap (λ x. trunc 64 (x + rest.distance)) moved
        ∙ trunc-trunc_add (cpu.regs.ip + d) rest.distance
        ∙ ap (trunc 64) (omega arith);
  }
    where
      trunc-trunc_add : (x y : ℕ) → trunc 64 (trunc 64 x + y) ≡ trunc 64 (x + y)
      trunc-trunc_add x y = omega arith

  moved_word : {x : ℕ} (y : ℕ) → x ≡ trunc 64 y → x < 2 ^ 64
  moved_word y h = omega arith

  zero_one : {x : ℕ} → x ≡ 0 → x ≡ 1 → ⊥
  zero_one p q = omega arith

  -- Every trap that is handled moves the instruction pointer on by 1 to 255 bytes: after `n` of them
  -- it has moved by at least `n`, so no program runs on them in place.
  pub Handled-Advanced :
      (n : ℕ) (cpu end : Cpu)
      → cpu.regs.ip < 2 ^ 64
      → Handled em memory n cpu end
      → Advanced n cpu end
  Handled-Advanced n cpu end h stay = record {
    same_cs = refl;
    distance = 0;
    at_least = omega arith;
    at_most = omega arith;
    moved = omega arith;
  }
  Handled-Advanced n cpu end h (trap {n = m} one rest) =
      elim (opemu_utrap-outcome em memory cpu h) as (λ _. Advanced (suc m) cpu end) [
        | inl s ↦ absurd (zero_one s.0 one)
        | inr t ↦ extend t.2 t.1 t.3 t.4 t.5 (
            Handled-Advanced m (opemu_utrap em memory cpu).0 end
              (moved_word (cpu.regs.ip + t.2) t.5) rest)
      ]
