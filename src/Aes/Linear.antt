-- ===== src/Aes/Linear.antt =====
-- `GF28_Multi` of aesins.c and sums.
use opemu_linux.Common.{ℕ, zero, suc, ◌*◌, ◌/◌, ◌%◌, ◌<◌, ◌≡◌, ap, ap₂, sym, ◌∙◌, refl, arith}
use opemu_linux.Common.{bit_xor, all_below, agree_below}
use opemu_linux.Common.Bits.Laws.{
  bit_xor_shuffle, bit_xor-mod, bit_xor-div, bit_xor-double, bit_xor-lt,
}
use opemu_linux.Aes.Block.{double, add_if, gf28_multi}

-- The reduction by 0x1b, by the top digit.
double-eq : (b : ℕ) → b < 256 → double b ≡ bit_xor (2 * b % 256) (b / 128 * 27)
unfolding double all_below
double-eq = agree_below 256 _ _ refl

reduce_xor : (p q : ℕ) → p < 2 → q < 2 → bit_xor p q * 27 ≡ bit_xor (p * 27) (q * 27)
reduce_xor zero zero h k = refl
reduce_xor zero (suc zero) h k = refl
reduce_xor (suc zero) zero h k = refl
reduce_xor (suc zero) (suc zero) h k = refl
reduce_xor zero (suc (suc q)) h k = absurd (omega arith)
reduce_xor (suc zero) (suc (suc q)) h k = absurd (omega arith)
reduce_xor (suc (suc p)) q h k = absurd (omega arith)

double-lt : (b : ℕ) → b < 256 → double b < 256
double-lt b h =
    rw (double-eq b h) (bit_xor-lt 8 (2 * b % 256) (b / 128 * 27) (omega arith) (omega arith))

double-bit_xor :
    (x y : ℕ) → x < 256 → y < 256 → double (bit_xor x y) ≡ bit_xor (double x) (double y)
double-bit_xor x y hx hy =
    double-eq (bit_xor x y) (bit_xor-lt 8 x y hx hy)
    ∙ ap₂ bit_xor
        (ap (λ (t : ℕ). t % 256) (sym (bit_xor-double x y)) ∙ bit_xor-mod 8 (2 * x) (2 * y))
        (ap (λ (t : ℕ). t * 27) (bit_xor-div 7 x y)
          ∙ reduce_xor (x / 128) (y / 128) (omega arith) (omega arith))
    ∙ bit_xor_shuffle (2 * x % 256) (2 * y % 256) (x / 128 * 27) (y / 128 * 27)
    ∙ rw (double-eq x hx, double-eq y hy)

add_if-bit_xor :
    (p r r' v v' : ℕ)
    → add_if p (bit_xor r r') (bit_xor v v') ≡ bit_xor (add_if p r v) (add_if p r' v')
unfolding add_if
add_if-bit_xor p r r' v v' = ground (arith, bit_xor_shuffle r r' v v')

add_if-bit_xor_first :
    (p v v' : ℕ) → add_if p 0 (bit_xor v v') ≡ bit_xor (add_if p 0 v) (add_if p 0 v')
add_if-bit_xor_first p v v' = add_if-bit_xor p 0 0 v v'

add_if-lt : (p r v : ℕ) → r < 256 → v < 256 → add_if p r v < 256
unfolding add_if
add_if-lt p r v hr hv = ground (arith, bit_xor-lt 8 r v)

-- The product is linear in its second factor.
pub gf28_multi-bit_xor :
    (c x y : ℕ)
    → x < 256
    → y < 256
    → gf28_multi c (bit_xor x y) ≡ bit_xor (gf28_multi c x) (gf28_multi c y)
unfolding gf28_multi
gf28_multi-bit_xor c x y hx hy =
    let x1 = double-lt x hx in
    let y1 = double-lt y hy in
    let x2 = double-lt (double x) x1 in
    let y2 = double-lt (double y) y1 in
    rw (
      double-bit_xor x y hx hy,
      double-bit_xor (double x) (double y) x1 y1,
      double-bit_xor (double (double x)) (double (double y)) x2 y2,
      add_if-bit_xor_first,
      add_if-bit_xor,
      add_if-bit_xor,
      add_if-bit_xor,
    )

pub gf28_multi-lt : (c b : ℕ) → b < 256 → gf28_multi c b < 256
unfolding gf28_multi
gf28_multi-lt c b h =
    let b1 = double-lt b h in
    let b2 = double-lt (double b) b1 in
    let b3 = double-lt (double (double b)) b2 in
    add_if-lt _ _ _ (add_if-lt _ _ _ (add_if-lt _ _ _ (add_if-lt _ _ _ (omega arith) h) b1) b2) b3
