-- ===== src/Avx/Zero.antt =====
-- VZEROUPPER and VZEROALL: which registers they change.
use opemu_linux.Common.{
  ltb, ℕ, zero, suc, ◌+◌, ◌*◌, ◌/◌, ◌%◌, ◌^◌, ◌<◌, ◌≤◌, ◌≡◌, ◌∙◌, refl, ap, arith, Bool, true,
  false, ◌==◌, if◌then◌else◌,
}
use opemu_linux.Machine.{
  Regs, Cpu, ObjectFile, place, is_saved_state64, store_xmm, store_ymm, load_xmm, load_ymm,
}
use opemu_linux.Machine.Laws.{store_ymm-load_ymm}
use opemu_linux.Simd.{perform, update_ymms}
use opemu_linux.Avx.Moves.{vzeroupper, vzeroall}

-- The loop changes the registers below its bound, each by what the object's copy of it held before.
update_ymms-above :
    (o p : ObjectFile) (k m : ℕ) (f : ℕ → ℕ) (cpu : Cpu)
    → k ≤ m
    → k ≤ 16
    → store_ymm p m 0 (update_ymms o k f cpu) ≡ store_ymm p m 0 cpu
unfolding update_ymms
update_ymms-above o p zero m f cpu h top = refl
update_ymms-above o p (suc k) m f cpu h top =
    let other : (m == k) ≡ false = ground arith in
    store_ymm-load_ymm o p k m _ 0 (update_ymms o k f cpu) (omega arith)
    ∙ rw other (update_ymms-above o p k m f cpu (omega arith) (omega arith))

-- No copy but that of the object is changed.
update_ymms-other :
    (o p : ObjectFile) (k m : ℕ) (f : ℕ → ℕ) (cpu : Cpu)
    → (place p == place o) ≡ false
    → (update_ymms o k f cpu).vymm p m ≡ cpu.vymm p m
unfolding update_ymms load_ymm load_xmm
update_ymms-other o p zero m f cpu h = refl
update_ymms-other o p (suc k) m f cpu h = ground (arith, update_ymms-other o p k m f cpu h)

update_ymms-below :
    (o p : ObjectFile) (k m : ℕ) (f : ℕ → ℕ) (cpu : Cpu)
    → m < k
    → k ≤ 16
    → store_ymm p m 0 (update_ymms o k f cpu) ≡ (
        let v = f (store_ymm o m 0 cpu) % 2 ^ 256 in
        if place p == place o then v else cpu.vymm p m / 2 ^ 128 * 2 ^ 128 + v % 2 ^ 128)
unfolding update_ymms
update_ymms-below o p zero m f cpu h top = elim h [ ]
update_ymms-below o p (suc k) m f cpu h top =
    by_place (update_ymms-below o p k m f cpu) (m == k) refl
  where
    result : ℕ
    result =
        let v = f (store_ymm o m 0 cpu) % 2 ^ 256 in
        if place p == place o then v else cpu.vymm p m / 2 ^ 128 * 2 ^ 128 + v % 2 ^ 128

    by_copy :
        (b : Bool)
        → (place p == place o) ≡ b
        → (v : ℕ)
        → (if b then v else (update_ymms o k f cpu).vymm p k / 2 ^ 128 * 2 ^ 128 + v % 2 ^ 128)
          ≡ (if b then v else cpu.vymm p k / 2 ^ 128 * 2 ^ 128 + v % 2 ^ 128)
    by_copy true e v = refl
    by_copy false e v =
        ap (λ x. x / 2 ^ 128 * 2 ^ 128 + v % 2 ^ 128) (update_ymms-other o p k k f cpu e)

    by_place :
        (m < k → k ≤ 16 → store_ymm p m 0 (update_ymms o k f cpu) ≡ result)
        → (b : Bool) → (m == k) ≡ b
        → store_ymm p m 0 (update_ymms o (suc k) f cpu) ≡ result
    by_place rest true e =
        let same : m ≡ k = ground arith in
        store_ymm-load_ymm o p k m _ 0 (update_ymms o k f cpu) (omega arith)
        ∙ rw (e, same)
            (ap
                (λ x.
                  let v = f x % 2 ^ 256 in
                  if place p == place o
                  then v
                  else (update_ymms o k f cpu).vymm p k / 2 ^ 128 * 2 ^ 128 + v % 2 ^ 128)
                (update_ymms-above o o k k f cpu (omega arith) (omega arith))
              ∙ by_copy (place p == place o) refl (f (store_ymm o k 0 cpu) % 2 ^ 256))
    by_place rest false e =
        store_ymm-load_ymm o p k m _ 0 (update_ymms o k f cpu) (omega arith)
        ∙ rw e (rest (ground arith) (omega arith))

-- In 64-bit mode the registers 0 to 15 and else 0 to 7 are changed, and no other, and of the VYMM
-- variables the copy of avx.o alone: in that copy VZEROUPPER leaves the XMM register and 0 above it and
-- VZEROALL 0, and for every other object, optrap.o with `get_vexregs` among them, the upper half stays
-- what it was.
pub vzeroupper-store_ymm :
    (regs : Regs) (p : ObjectFile) (cpu : Cpu) (m : ℕ)
    → (cpu.xmm m < 2 ^ 128)
    → let changed = ltb m (if is_saved_state64 regs then 16 else 8) in
      let before = store_ymm p m 0 cpu in
      let upper = if place p == place ObjectFile.avx then 0 else cpu.vymm p m / 2 ^ 128 in
      (store_ymm p m 0 (perform ObjectFile.avx (vzeroupper regs) cpu)
        ≡ (if changed then upper * 2 ^ 128 + cpu.xmm m else before))
      × (store_ymm p m 0 (perform ObjectFile.avx (vzeroall regs) cpu)
          ≡ (if changed then upper * 2 ^ 128 else before))
unfolding vzeroupper vzeroall perform
vzeroupper-store_ymm regs p cpu m word = (
  by_place (λ x. x % 2 ^ 128) (cpu.xmm m) low_kept word (ltb m limit) refl,
  by_place (λ x. 0) 0 (λ h. refl) (omega arith) (ltb m limit) refl ∙ no_sum (ltb m limit),
)
  where
    o : ObjectFile
    o = ObjectFile.avx

    limit : ℕ
    limit = if is_saved_state64 regs then 16 else 8

    upper : ℕ
    upper = if place p == place o then 0 else cpu.vymm p m / 2 ^ 128

    top : limit ≤ 16
    top = ground arith

    no_sum :
        (b : Bool)
        → (if b then upper * 2 ^ 128 + 0 else store_ymm p m 0 cpu)
          ≡ (if b then upper * 2 ^ 128 else store_ymm p m 0 cpu)
    no_sum true = omega arith
    no_sum false = refl

    low_kept : m < 16 → store_ymm o m 0 cpu % 2 ^ 128 ≡ cpu.xmm m
    low_kept h = unfold store_ymm store_xmm in ground arith

    joined :
        (b : Bool) (w c : ℕ)
        → w < 2 ^ 128
        → (if b then w % 2 ^ 256 else c * 2 ^ 128 + w % 2 ^ 256 % 2 ^ 128)
          ≡ (if b then 0 else c) * 2 ^ 128 + w
    joined true w c h = omega arith
    joined false w c h = omega arith

    by_place :
        (f : ℕ → ℕ) (w : ℕ)
        → (m < 16 → f (store_ymm o m 0 cpu) ≡ w)
        → w < 2 ^ 128
        → (b : Bool) → ltb m limit ≡ b
        → store_ymm p m 0 (update_ymms o limit f cpu)
          ≡ (if b then upper * 2 ^ 128 + w else store_ymm p m 0 cpu)
    by_place f w h small true e =
        let below : m < limit = ground arith in
        update_ymms-below o p limit m f cpu below top
        ∙ rw (h (omega (arith, below, top)))
            (joined (place p == place o) w (cpu.vymm p m / 2 ^ 128) small)
    by_place f w h small false e = update_ymms-above o p limit m f cpu (ground arith) top
