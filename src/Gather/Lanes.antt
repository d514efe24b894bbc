-- ===== src/Gather/Lanes.antt =====
-- The functions of vgather.h. A lane whose mask has its top bit becomes the address of its element, and
-- any other lane 0: `*(uint64_t*)&data_addr` reads the variable, not the memory at the address.
use opemu_linux.Common.{ℕ, ◌+◌, ◌-◌, ◌*◌, ◌^◌, bit_and, ◌>>>◌, ◌==◌, if◌then◌else◌}
use opemu_linux.Common.Lanes.{lane, pack, tabulate}
use opemu_linux.Operand.{set_low}

-- `vaddr.a32[0] = vindex.a32[i]; vaddr.a32[1] = 0xffffffff;`, and `vaddr.a64[0] = vindex.a64[i];`
unfoldable pub dword_index : ℕ → ℕ → ℕ
dword_index vindex i = lane 32 i vindex + 0xFFFFFFFF * 2 ^ 32

unfoldable pub qword_index : ℕ → ℕ → ℕ
qword_index vindex i = lane 64 i vindex

-- The floats of a result are copied one by one, and for lane 2 lane 3 is taken.
unfoldable pub twisted : (ℕ → ℕ) → ℕ → ℕ
twisted tmp i = if i == 2 then tmp 3 else tmp i

-- `data_addr = vmaddrs(regs, modrm, high_base, vaddr, ins_size)` as a function of `vaddr`.
module _ (data_addr : ℕ → ℕ) where
  -- A lane of `w` bits, with the index that `index` gives it.
  unfoldable pub gathered : ℕ → ℕ → (ℕ → ℕ) → ℕ → ℕ
  gathered w vsrc index i =
      let cs = bit_and (lane w i vsrc >>> (w - 1)) 1 in if cs == 1 then data_addr (index i) else 0

  unfoldable pub vpgatherdq : ℕ → ℕ → ℕ → ℕ
  unfolding gathered dword_index
  vpgatherdq n vsrc vindex = pack 64 (tabulate n (gathered 64 vsrc (dword_index vindex)))

  unfoldable pub vpgatherdd : ℕ → ℕ → ℕ → ℕ
  unfolding gathered dword_index
  vpgatherdd n vsrc vindex = pack 32 (tabulate n (gathered 32 vsrc (dword_index vindex)))

  unfoldable pub vpgatherqq : ℕ → ℕ → ℕ → ℕ
  unfolding gathered qword_index
  vpgatherqq n vsrc vindex = pack 64 (tabulate n (gathered 64 vsrc (qword_index vindex)))

  unfoldable pub vpgatherqd128 : ℕ → ℕ → ℕ → ℕ
  unfolding gathered qword_index
  vpgatherqd128 vsrc vindex old =
      set_low 64 old (pack 32 (tabulate 2 (gathered 32 vsrc (qword_index vindex))))

  -- The loop over the mask runs to 8 in a union of 4: what it writes behind it is not read again.
  unfoldable pub vpgatherqd256 : ℕ → ℕ → ℕ
  unfolding gathered qword_index
  vpgatherqd256 vsrc vindex = pack 32 (tabulate 4 (gathered 32 vsrc (qword_index vindex)))

  unfoldable pub vgatherdpd : ℕ → ℕ → ℕ → ℕ
  unfolding gathered dword_index
  vgatherdpd n vsrc vindex = pack 64 (tabulate n (gathered 64 vsrc (dword_index vindex)))

  unfoldable pub vgatherdps : ℕ → ℕ → ℕ → ℕ
  unfolding gathered dword_index twisted
  vgatherdps n vsrc vindex = pack 32 (tabulate n (twisted (gathered 32 vsrc (dword_index vindex))))

  unfoldable pub vgatherqpd : ℕ → ℕ → ℕ → ℕ
  unfolding gathered qword_index
  vgatherqpd n vsrc vindex = pack 64 (tabulate n (gathered 64 vsrc (qword_index vindex)))

  unfoldable pub vgatherqps128 : ℕ → ℕ → ℕ → ℕ
  unfolding gathered qword_index
  vgatherqps128 vsrc vindex old =
      set_low 64 old (pack 32 (tabulate 2 (gathered 32 vsrc (qword_index vindex))))

  unfoldable pub vgatherqps256 : ℕ → ℕ → ℕ
  unfolding gathered qword_index twisted
  vgatherqps256 vsrc vindex = pack 32 (tabulate 4 (twisted (gathered 32 vsrc (qword_index vindex))))
