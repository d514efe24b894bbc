-- ===== src/Sse41/Integer.antt =====
-- The integer operations of vsse41.h on lanes.
use opemu_linux.Common.{ℕ, ◌*◌, ltb, if◌then◌else◌}
use opemu_linux.Common.Int.{ltℤ, ◌*ℤ◌, signed, wrap}
use opemu_linux.Common.Lanes.{lane, pack, tabulate}
use opemu_linux.Simd.Loops.{zip_lanes, saturate_unsigned}
use opemu_linux.Sse2.Integer.{vpcmpeq, pack_128, pack_256}

unfoldable pub vmovntdqa : ℕ → ℕ
vmovntdqa src = src

-- vpmovsx and vpmovzx: `n` lanes of `from` bits become lanes of `to` bits.
unfoldable pub vpmovsx : ℕ → ℕ → ℕ → ℕ → ℕ
vpmovsx from to n src = pack to (tabulate n (λ i. wrap to (signed from (lane from i src))))

unfoldable pub vpmovzx : ℕ → ℕ → ℕ → ℕ → ℕ
vpmovzx from to n src = pack to (tabulate n (λ i. lane from i src))

unfoldable pub vpackusdw_128 : ℕ → ℕ → ℕ
unfolding pack_128 saturate_unsigned
vpackusdw_128 src vsrc = pack_128 32 (saturate_unsigned 16) src vsrc

unfoldable pub vpackusdw_256 : ℕ → ℕ → ℕ
unfolding pack_256 saturate_unsigned
vpackusdw_256 src vsrc = pack_256 32 (saturate_unsigned 16) src vsrc

unfoldable pub vpcmpeqq : ℕ → ℕ → ℕ → ℕ
unfolding vpcmpeq
vpcmpeqq n src vsrc = vpcmpeq 64 n src vsrc

-- The greater and the lesser lane, signed and unsigned.
unfoldable pub vpmaxs : ℕ → ℕ → ℕ → ℕ → ℕ
unfolding zip_lanes
vpmaxs w n src vsrc = zip_lanes w n (λ x y. if ltℤ (signed w y) (signed w x) then x else y) src vsrc

unfoldable pub vpmaxu : ℕ → ℕ → ℕ → ℕ → ℕ
unfolding zip_lanes
vpmaxu w n src vsrc = zip_lanes w n (λ x y. if ltb y x then x else y) src vsrc

unfoldable pub vpmins : ℕ → ℕ → ℕ → ℕ → ℕ
unfolding zip_lanes
vpmins w n src vsrc = zip_lanes w n (λ x y. if ltℤ (signed w x) (signed w y) then x else y) src vsrc

unfoldable pub vpminu : ℕ → ℕ → ℕ → ℕ → ℕ
unfolding zip_lanes
vpminu w n src vsrc = zip_lanes w n (λ x y. if ltb x y then x else y) src vsrc

-- A product of two int32_t is one itself, and is then extended to 64 bits.
unfoldable pub product32 : ℕ → ℕ → ℕ
product32 x y = wrap 32 (signed 32 x *ℤ signed 32 y)

unfoldable pub vpmuldq : ℕ → ℕ → ℕ → ℕ
unfolding product32
vpmuldq n src vsrc =
    pack 64 (
      tabulate n
        (λ i. wrap 64 (signed 32 (product32 (lane 32 (2 * i) vsrc) (lane 32 (2 * i) src)))))

unfoldable pub vpmulld : ℕ → ℕ → ℕ → ℕ
unfolding zip_lanes product32
vpmulld n src vsrc = zip_lanes 32 n product32 src vsrc
