-- ===== src/Decode/Length.antt =====
-- `get_consumed` of optrap.c: how many bytes the ModRM byte, the SIB byte and the displacement take.
use opemu_linux.Common.{ℕ, ◌+◌, ◌≤◌, ◌≡◌, arith, ◌||◌, ◌&&◌}
use opemu_linux.Common.{Bool, not, bit_and, ◌>>>◌, ◌==◌, if◌then◌else◌}
use opemu_linux.Machine.{Bytes, IsBytes}

-- `*ModRM >> 6` and `*ModRM & 0x7`.
unfoldable pub mod_of : ℕ → ℕ
mod_of modrm = modrm >>> 6

unfoldable pub rm_of : ℕ → ℕ
rm_of modrm = bit_and modrm 0x7

unfoldable pub get_consumed : Bytes → ℕ
unfolding mod_of rm_of
get_consumed modrm =
    let m = mod_of (modrm 0) in
    let num_src = rm_of (modrm 0) in
    let base = bit_and (modrm 1) 0x7 in
    let consumed : ℕ = 1 in
    let consumed0 =
      if m == 0
      then (if num_src == 4
          then (if base == 5 then consumed + 5 else consumed + 1)
          else (if num_src == 5 then consumed + 4 else consumed))
      else consumed in
    let consumed1 =
      if m == 1 then (if num_src == 4 then consumed0 + 2 else consumed0 + 1) else consumed0 in
    if m == 2 then (if num_src == 4 then consumed1 + 5 else consumed1 + 4) else consumed1

-- The encoding's own account: one byte, a SIB byte, a displacement of 0, 1 or 4 bytes.
unfoldable pub has_sib : Bytes → Bool
unfolding mod_of rm_of
has_sib modrm = not (mod_of (modrm 0) == 3) && rm_of (modrm 0) == 4

unfoldable pub displacement : Bytes → ℕ
unfolding mod_of rm_of has_sib
displacement modrm =
    if mod_of (modrm 0) == 1
    then 1
    else (if mod_of (modrm 0) == 2
        then 4
        else (if mod_of (modrm 0) == 0
              && (rm_of (modrm 0) == 5 || has_sib modrm && bit_and (modrm 1) 0x7 == 5)
            then 4
            else 0))

-- On every ModRM and SIB byte the length is that of the three parts.
get_consumed_parts :
    (modrm : Bytes)
    → IsBytes modrm
    → get_consumed modrm ≡ 1 + (if has_sib modrm then 1 else 0) + displacement modrm
unfolding get_consumed displacement
get_consumed_parts modrm h = ground (arith, h 0)

pub get_consumed_bounds : (modrm : Bytes) → (1 ≤ get_consumed modrm) × (get_consumed modrm ≤ 6)
unfolding get_consumed
get_consumed_bounds modrm = ground arith
