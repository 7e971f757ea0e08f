-- ===== src/Memory.antt =====
-- src/kernel/memory.c and src/bootloader/stage2/memory.c: `memcpy`, `memset`, `memcmp` and
-- `segoffset_to_linear`. A buffer is a list of bytes; `none` is an access past its end, which C
-- leaves undefined. The buffers of one call do not overlap.
pub mod Compare
pub mod Loops
mod Tests
use uami_os.Base.{
  ℕ, zero, suc, ◌+◌, ◌*◌, ◌%◌, ◌/◌, ◌^◌, bit_and, Option, none, some, List, ◌==◌, if◌then◌else◌,
  ◌>>=◌, get_elem?, set, u8, u16, u32, ◌>>>◌,
}

-- The loop at index `i` with `left` rounds to go.
pub memcpy_loop : ℕ → ℕ → List ℕ → List ℕ → Option (List ℕ)
memcpy_loop zero i dst src = some dst
memcpy_loop (suc left) i dst src = do
  x ← get_elem? src i
  old ← get_elem? dst i
  memcpy_loop left (i + 1) (set dst i x) src

-- `num` is a `uint16_t`, so a longer count is cut.
pub memcpy : List ℕ → List ℕ → ℕ → Option (List ℕ)
memcpy dst src num = memcpy_loop (u16 num) 0 dst src

pub memset_loop : ℕ → ℕ → List ℕ → ℕ → Option (List ℕ)
memset_loop zero i buf value = some buf
memset_loop (suc left) i buf value = do
  old ← get_elem? buf i
  memset_loop left (i + 1) (set buf i (u8 value)) value

pub memset : List ℕ → ℕ → ℕ → Option (List ℕ)
memset buf value num = memset_loop (u16 num) 0 buf value

pub memcmp_loop : ℕ → ℕ → List ℕ → List ℕ → Option ℕ
memcmp_loop zero i xs ys = some 0
memcmp_loop (suc left) i xs ys =
    let rest = memcmp_loop left (i + 1) xs ys in
    do x ← get_elem? xs i; y ← get_elem? ys i; if x == y then rest else some 1

pub memcmp : List ℕ → List ℕ → ℕ → Option ℕ
memcmp xs ys num = memcmp_loop (u16 num) 0 xs ys

-- The far pointer `segment:offset`, packed in 32 bits, as a linear address.
pub segoffset_to_linear : ℕ → ℕ
segoffset_to_linear addr = u32 (addr >>> 16 * 16 + bit_and addr 0xFFFF)
