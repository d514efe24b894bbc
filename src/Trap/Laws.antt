-- ===== src/Trap/Laws.antt =====
-- `opemu_utrap` as a whole.
use opemu_linux.Common.{
  ℕ, ◌+◌, ◌^◌, ◌<◌, ◌≤◌, ◌≡◌, ◌⊎◌, inl, inr, arith, refl, ap, trunc, bit_and, not, Bool, true,
  false, ◌∙◌,
}
use opemu_linux.Common.{◌==◌, if◌then◌else◌, some}
use opemu_linux.Machine.{Regs, Cpu, Bytes, is_saved_state64, is_saved_state32}
use opemu_linux.Machine.Laws.{is_saved_state-not}
use opemu_linux.Decode.Rex.{
  Decoder, Insn, rex_start, rex_decode, legacy_prefix, rex_prefix, leading_bytes, take_opcode,
}
use opemu_linux.Decode.Vex.{vex_decode, vex_prefix}
use opemu_linux.Aes.DispatchLaws.{is_aes_opcode, aes_instruction-handles}
use opemu_linux.Trap.{Emulator, rex_ins, emulate, skip_bytes, run_at, utrap32, opemu_utrap}
use opemu_linux.Handler.{IsResult}
use opemu_linux.Trap.Contract.{emulate-IsResult}

-- Where the emulator looks for code.
abbrev code_address : Regs → ℕ
code_address regs = if is_saved_state64 regs then regs.ip else trunc 32 regs.ip

abbrev pub code_at : (ℕ → ℕ) → Regs → Bytes
code_at memory regs d = memory (code_address regs + d)

-- The mode looks at the code segment alone.
mode_of_cs : (a b : Regs) → a.cs ≡ b.cs → is_saved_state64 a ≡ is_saved_state64 b
unfolding is_saved_state64
mode_of_cs a b h = rw h refl

-- What is returned for a number of bytes to skip.
abbrev pub verdict : ℕ → ℕ
verdict n = if n == 0 then 0 else 1

-- One emulation, and one advance, whatever the mode: the two blocks never both run.
pub opemu_utrap-runs_once :
    (em : Emulator) (memory : ℕ → ℕ) (cpu : Cpu)
    → let e = emulate em (code_at memory cpu.regs) cpu in
      opemu_utrap em memory cpu ≡ (skip_bytes e.1 e.0, verdict e.1)
unfolding opemu_utrap utrap32 run_at
opemu_utrap-runs_once em memory cpu = by_mode (is_saved_state64 cpu.regs) refl
  where
    by_mode :
        (b : Bool)
        → is_saved_state64 cpu.regs ≡ b
        → let e = emulate em (code_at memory cpu.regs) cpu in
          opemu_utrap em memory cpu ≡ (skip_bytes e.1 e.0, verdict e.1)
    by_mode true h =
        let e = emulate em (λ d. memory (cpu.regs.ip + d)) cpu in
        let kept = emulate-IsResult em (λ d. memory (cpu.regs.ip + d)) cpu in
        let mode = mode_of_cs e.0.regs cpu.regs kept.same_cs ∙ h in
        let late : is_saved_state32 (skip_bytes e.1 e.0).regs ≡ false =
          is_saved_state-not (skip_bytes e.1 e.0).regs
          ∙ ap not (mode_of_cs (skip_bytes e.1 e.0).regs e.0.regs refl ∙ mode) in
        rw h (ground arith)
    by_mode false h =
        let other : is_saved_state32 cpu.regs ≡ true = is_saved_state-not cpu.regs ∙ ap not h in
        rw h (ground arith)

-- Every trap ends in one of two ways. Either 0 is returned and no register of any kind has changed,
-- the instruction pointer included; or 1 is returned and the instruction pointer has moved
-- on by 1 to 255 bytes in the same mode.
pub opemu_utrap-outcome :
    (em : Emulator) (memory : ℕ → ℕ) (cpu : Cpu)
    → cpu.regs.ip < 2 ^ 64
    → let r = opemu_utrap em memory cpu in
      ((r.1 ≡ 0) × (r.0 ≡ cpu))
      ⊎ ((r.1 ≡ 1)
          × (r.0.regs.cs ≡ cpu.regs.cs)
          × (n : ℕ) × (1 ≤ n)
          × (n < 256)
          × (r.0.regs.ip ≡ trunc 64 (cpu.regs.ip + n)))
unfolding skip_bytes
opemu_utrap-outcome em memory cpu h =
    let e = emulate em (code_at memory cpu.regs) cpu in
    let kept = emulate-IsResult em (code_at memory cpu.regs) cpu in
    rw (opemu_utrap-runs_once em memory cpu) (by_size e kept (e.1 == 0) refl)
  where
    by_size :
        (e : Cpu × ℕ)
        → IsResult cpu e
        → (b : Bool) → (e.1 == 0) ≡ b
        → ((verdict e.1 ≡ 0) × (skip_bytes e.1 e.0 ≡ cpu))
          ⊎ ((verdict e.1 ≡ 1)
              × (e.0.regs.cs ≡ cpu.regs.cs)
              × (n : ℕ) × (1 ≤ n)
              × (n < 256)
              × (trunc 64 (e.0.regs.ip + e.1) ≡ trunc 64 (cpu.regs.ip + n)))
    by_size e kept true z =
        let unread : e.1 ≡ 0 = ground arith in
        inl (
          rw z refl,
          rw (unread, kept.idle unread)
              (ap (λ (n : ℕ). record cpu { regs = record cpu.regs { ip = n } }) (omega arith)),
        )
    by_size e kept false z =
        inr (rw z refl, kept.same_cs, e.1, ground arith, kept.byte, rw kept.same_ip refl)

vex_start :
    (code : Bytes) (i : Insn)
    → vex_decode code ≡ some i
    → let b = code (if code 0 == 0x67 then 1 else 0) in (b ≡ 0xC4) ⊎ (b ≡ 0xC5)
unfolding vex_decode vex_prefix
vex_start code i h = ground arith

-- No prefix of the first emulator begins at a VEX prefix.
module _ (code : Bytes) (d : Decoder) (h : (code d.bytep ≡ 0xC4) ⊎ (code d.bytep ≡ 0xC5)) where
  rex_prefix-stays : (rex_prefix code d).bytep ≡ d.bytep
  unfolding rex_prefix
  rex_prefix-stays =
      let absent : (bit_and (code d.bytep) 0xF0 == 0x40) ≡ false = elim h [
        | inl e ↦ rw e refl
        | inr e ↦ rw e refl
      ] in
      rw absent refl

  leading_bytes-stays : (leading_bytes code d).bytep ≡ d.bytep
  unfolding leading_bytes
  leading_bytes-stays = ground arith

legacy_prefix-start :
    (code : Bytes)
    → let b = code (if code 0 == 0x67 then 1 else 0) in
      (b ≡ 0xC4) ⊎ (b ≡ 0xC5)
      → (legacy_prefix code rex_start).bytep ≡ (if code 0 == 0x67 then 1 else 0)
unfolding legacy_prefix
legacy_prefix-start code h = ground arith

rex_opcode :
    (code : Bytes)
    → let b = code (if code 0 == 0x67 then 1 else 0) in
      (b ≡ 0xC4) ⊎ (b ≡ 0xC5) → (rex_decode code).opcode ≡ b
unfolding rex_decode take_opcode
rex_opcode code h =
    let d = legacy_prefix code rex_start in
    let start = legacy_prefix-start code h in
    let h1 : (code d.bytep ≡ 0xC4) ⊎ (code d.bytep ≡ 0xC5) = rw start h in
    let d2 = rex_prefix code d in
    let same = rex_prefix-stays code d h1 in
    let h2 : (code d2.bytep ≡ 0xC4) ⊎ (code d2.bytep ≡ 0xC5) = rw same h1 in
    ap code (leading_bytes-stays code d2 h2 ∙ same ∙ start)

-- The first emulator refuses every instruction that the second one reads.
pub rex_ins-vex :
    (em : Emulator) (code : Bytes) (cpu : Cpu) (i : Insn)
    → vex_decode code ≡ some i
    → rex_ins em code cpu ≡ (cpu, 0)
unfolding rex_ins
rex_ins-vex em code cpu i h =
    let refused : is_aes_opcode (rex_decode code).opcode ≡ false =
      (let start = vex_start code i h in let op = rex_opcode code start in ground arith) in
    ground (arith, aes_instruction-handles em.aes_frame cpu (rex_decode code))
