-- ===== src/Half/Renormalize.antt =====
-- The loop that renormalizes a denormalized half ends.
use opemu_linux.Common.{
  ℕ, zero, suc, ◌+◌, ◌*◌, ◌^◌, ◌<◌, ◌≡◌, ◌≢◌, ◌∙◌, arith, refl, ap, agree_below, all_below, trunc,
  bit_and, ◌<<<◌, ◌==◌, ◌&&◌, Bool, true, false, if◌then◌else◌,
}
use opemu_linux.Half.{renormalize}

-- The loop has ended: its condition is false.
abbrev pub is_done : ℕ × ℕ → Bool
is_done r = if bit_and r.0 0x400 == 0 then false else true

renormalize-more :
    (n k m lowered : ℕ)
    → is_done (renormalize n m lowered) ≡ true
    → renormalize (n + k) m lowered ≡ renormalize n m lowered
unfolding renormalize
renormalize-more zero zero m lowered h = refl
renormalize-more zero (suc k) m lowered h =
    ap (λ n. renormalize n m lowered) {y = suc k} (omega arith) ∙ ground arith
renormalize-more (suc n) k m lowered h =
    ap (λ n. renormalize n m lowered) {y = suc (n + k)} (omega arith)
    ∙ ground (arith, renormalize-more n k (trunc 32 (m <<< 1)) (lowered + 1))

abbrev ends_right : ℕ → ℕ
ends_right m =
    let r = renormalize 10 m 0 in
    if m == 0 then 0 else (if is_done r && r.0 == m * 2 ^ r.1 then 0 else 1)

ends_everywhere : (m : ℕ) → m < 1024 → ends_right m ≡ 0
unfolding renormalize all_below
ends_everywhere m h = agree_below 1024 ends_right (λ m. 0) refl m h

-- For a mantissa of 10 bits that is not 0 the loop ends within 10 turns: allowing more makes no
-- difference. It leaves the mantissa with its leading bit in place, shifted as often as the exponent
-- was lowered.
pub renormalize-ends :
    (m k : ℕ)
    → m ≢ 0
    → m < 2 ^ 10
    → let r = renormalize 10 m 0 in
      (renormalize (10 + k) m 0 ≡ r) × (is_done r ≡ true) × (r.0 ≡ m * 2 ^ r.1)
renormalize-ends m k some h =
    let checked = ends_everywhere m h in
    let done : is_done (renormalize 10 m 0) ≡ true = ground arith in
    (renormalize-more 10 k m 0 done, done, ground arith)
