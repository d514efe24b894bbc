-- ===== src/Simd/Loops.antt =====
-- The loops over lanes that the vector functions share, and the saturation macros of optrap.h.
use opemu_linux.Common.{ℕ, ◌-◌, ◌*◌, ◌/◌, ◌%◌, ◌^◌, ◌<◌, ◌≡◌, ap, fun_ext, List, if◌then◌else◌, leb}
use opemu_linux.Common.Int.{ℤ, pos, negsuc, clampℤ}
use opemu_linux.Common.Lanes.{lane, pack, tabulate, lane-tabulate, lane-lt}

-- `for (i = 0; i < n; ++i) res[i] = f(src[i]);` and `... = f(vsrc[i], src[i]);`
unfoldable pub each_lane : ℕ → ℕ → (ℕ → ℕ) → ℕ → ℕ
each_lane w n f src = pack w (tabulate n (λ i. f (lane w i src)))

unfoldable pub zip_lanes : ℕ → ℕ → (ℕ → ℕ → ℕ) → ℕ → ℕ → ℕ
zip_lanes w n f src vsrc = pack w (tabulate n (λ i. f (lane w i vsrc) (lane w i src)))

-- The `w` low lanes of a word, as a list.
unfoldable pub lanes_of : ℕ → ℕ → ℕ → List ℕ
lanes_of w n x = tabulate n (λ i. lane w i x)

-- STSB, STSW, STUB and STUW.
unfoldable pub saturate_signed : ℕ → ℤ → ℤ
saturate_signed w z = clampℤ (negsuc (2 ^ (w - 1) - 1)) (pos (2 ^ (w - 1) - 1)) z

unfoldable pub saturate_unsigned : ℕ → ℤ → ℤ
saturate_unsigned w z = clampℤ (pos 0) (pos (2 ^ w - 1)) z

-- A shift of a `w`-bit variable. C leaves it undefined from `w` on: `wide x` is its value.
unfoldable pub shift_left : ℕ → (ℕ → ℕ) → ℕ → ℕ → ℕ
shift_left w wide k x = if leb w k then wide x % 2 ^ w else x * 2 ^ k % 2 ^ w

unfoldable pub shift_right : ℕ → (ℕ → ℕ) → ℕ → ℕ → ℕ
shift_right w wide k x = if leb w k then wide x % 2 ^ w else x / 2 ^ k

pub lane-zip_lanes :
    (w n : ℕ) (f : ℕ → ℕ → ℕ) (src vsrc i : ℕ)
    → i < n
    → lane w i (zip_lanes w n f src vsrc) ≡ f (lane w i vsrc) (lane w i src) % 2 ^ w
unfolding zip_lanes
lane-zip_lanes w n f src vsrc i h = lane-tabulate w n i _ h

lane-each_lane :
    (w n : ℕ) (f : ℕ → ℕ) (src i : ℕ)
    → i < n
    → lane w i (each_lane w n f src) ≡ f (lane w i src) % 2 ^ w
unfolding each_lane
lane-each_lane w n f src i h = lane-tabulate w n i _ h

-- Two loops whose bodies agree on lanes.
pub zip_lanes_ext :
    (w n : ℕ) (f g : ℕ → ℕ → ℕ) (src vsrc : ℕ)
    → ((x y : ℕ) → x < 2 ^ w → y < 2 ^ w → f x y ≡ g x y)
    → zip_lanes w n f src vsrc ≡ zip_lanes w n g src vsrc
unfolding zip_lanes
zip_lanes_ext w n f g src vsrc h =
    ap (λ (k : ℕ → ℕ). pack w (tabulate n k))
      (fun_ext λ i. h (lane w i vsrc) (lane w i src) (lane-lt w i vsrc) (lane-lt w i src))
