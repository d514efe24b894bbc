-- ===== src/Bmi/Words.antt =====
-- The computations of bmi.h on one word of `w` bits, without flags or registers. The source writes
-- each of them three times: for 64 bits, for 32 bits in 64-bit mode, and for 32-bit mode.
use opemu_linux.Common.{ℕ, zero, suc, ◌+◌, ◌-◌, ◌*◌, ◌^◌, trunc, compl, neg, dec, sign_extend}
use opemu_linux.Common.{bit_and, bit_or, bit_xor, ◌>>>◌, ◌<<<◌, ltb, ◌==◌, if◌then◌else◌}

-- `(~SRC1) & SRC2`
unfoldable pub andn : ℕ → ℕ → ℕ → ℕ
andn w src1 src2 = bit_and (compl w src1) src2

-- `(SRC1 - 1) & (SRC2)`
unfoldable pub blsr : ℕ → ℕ → ℕ
blsr w src = bit_and (dec w src) src

-- `(SRC1 - 1) ^ (SRC2)`
unfoldable pub blsmsk : ℕ → ℕ → ℕ
blsmsk w src = bit_xor (dec w src) src

-- `(-SRC1) & (SRC2)`
unfoldable pub blsi : ℕ → ℕ → ℕ
blsi w src = bit_and (neg w src) src

-- `1 << k` in a signed type of `w` bits. C leaves it undefined from `w` on: `wide` is its value.
abbrev one_shl : ℕ → (ℕ → ℕ) → ℕ → ℕ
one_shl w wide k = if ltb k w then 2 ^ k else trunc w (wide k)

-- `DEST`, 0 if `start` is out of range: `(SRC >> start) & ((1 << (len + 1)) - 1)`
unfoldable pub bextr : ℕ → (ℕ → ℕ) → ℕ → ℕ → ℕ → ℕ
bextr w wide start len src =
    if ltb start w then bit_and (src >>> start) (dec w (one_shl w wide (len + 1))) else 0

-- `if (INDEX < w) SRC &= (1 << INDEX) - 1`
unfoldable pub bzhi : ℕ → ℕ → ℕ → ℕ
bzhi w index src = if ltb index w then bit_and src (dec w (2 ^ index)) else src

-- The loops of `pdep` and `pext` at index `i`, with `left` rounds to go.
unfoldable pub pdep_loop : ℕ → ℕ → ℕ → ℕ → ℕ → ℕ → ℕ → ℕ
pdep_loop w mask temp zero i k dest = dest
pdep_loop w mask temp (suc left) i k dest =
    let taken =
      pdep_loop w mask temp left (i + 1) (k + 1)
        (bit_or dest (trunc w ((bit_and temp (2 ^ k) >>> k) <<< i))) in
    let skipped = pdep_loop w mask temp left (i + 1) k dest in
    if bit_and mask (2 ^ i) == 0 then skipped else taken

unfoldable pub pext_loop : ℕ → ℕ → ℕ → ℕ → ℕ → ℕ → ℕ → ℕ
pext_loop w mask temp zero i k dest = dest
pext_loop w mask temp (suc left) i k dest =
    let taken =
      pext_loop w mask temp left (i + 1) (k + 1)
        (bit_or dest (trunc w ((bit_and temp (2 ^ i) >>> i) <<< k))) in
    let skipped = pext_loop w mask temp left (i + 1) k dest in
    if bit_and mask (2 ^ i) == 0 then skipped else taken

unfoldable pub pdep : ℕ → ℕ → ℕ → ℕ
unfolding pdep_loop
pdep w mask temp = pdep_loop w mask temp w 0 0 0

unfoldable pub pext : ℕ → ℕ → ℕ → ℕ
unfolding pext_loop
pext w mask temp = pext_loop w mask temp w 0 0 0

-- The two assignments of `rorx`: the rotation, and then the source again.
unfoldable pub rorx : ℕ → (ℕ → ℕ) → ℕ → ℕ → ℕ
rorx w wide src imm =
    let y = bit_and imm (w - 1) in
    let rotated =
      bit_or (src >>> y) (if y == 0 then trunc w (wide w) else trunc w (src <<< (w - y))) in
    let res = rotated in let res' = src in res'

unfoldable pub shlx : ℕ → ℕ → ℕ → ℕ
shlx w src count = trunc w (src <<< bit_and count (w - 1))

unfoldable pub shrx : ℕ → ℕ → ℕ → ℕ
shrx w src count = src >>> bit_and count (w - 1)

-- The shift of a signed type copies the sign.
unfoldable pub sarx : ℕ → ℕ → ℕ → ℕ
sarx w src count = trunc w (sign_extend w (2 * w) src >>> bit_and count (w - 1))
