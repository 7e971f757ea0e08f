-- ===== src/Pmm.antt =====
-- src/kernel/pmm.c: the physical page allocator, one bit of `g_Bitmap` for each page (0 is free).
-- `none` is an access outside the bitmap, which C leaves undefined. The log lines are left out.
pub mod Bitmap
pub mod Invariant
pub mod Alloc
pub mod Offer
pub mod Freed
pub mod Reserved
pub mod Init
pub mod Sample
mod Tests
use uami_os.Base.{
  ℕ, zero, suc, ◌+◌, ◌-◌, ◌*◌, ◌/◌, ◌%◌, ◌^◌, bit_and, bit_or, Bool, Option, some, List, [], ◌∷◌,
  ltb, ◌!=◌, if◌then◌else◌, ◌>>=◌, get_elem?, get_or, set, u8, u32, sub_u32, ◌<<<◌, not_u32,
}
use uami_os.Memory.{memset}

abbrev pub page_size : ℕ
page_size = 4096

abbrev pub max_pages : ℕ
max_pages = 32 * 1024

abbrev pub bitmap_size : ℕ
bitmap_size = max_pages / 8

abbrev pub null : ℕ
null = 0

-- The three globals.
pub record Pmm : Type 0 where
  pub bitmap : List ℕ
  pub total_pages : ℕ
  pub free_pages : ℕ

-- `g_Bitmap[page / 8] |= (1 << (page % 8))`. The callers have tested the page, so that it is in
-- range.
pub bitmap_set : List ℕ → ℕ → List ℕ
bitmap_set bm page = set bm (page / 8) (u8 (bit_or (get_or bm (page / 8) 0) (1 <<< (page % 8))))

pub bitmap_clear : List ℕ → ℕ → List ℕ
bitmap_clear bm page =
    set bm (page / 8) (u8 (bit_and (get_or bm (page / 8) 0) (not_u32 (1 <<< (page % 8)))))

pub bitmap_test : List ℕ → ℕ → Option Bool
bitmap_test bm page = do byte ← get_elem? bm (page / 8); some (bit_and byte (1 <<< (page % 8)) != 0)

-- `MemoryRegion`; the ACPI field is not read.
pub record Region : Type 0 where
  pub begin : ℕ
  pub size : ℕ
  pub kind : ℕ

-- `bitmap_clear(p); g_FreePages++; g_TotalPages++;`
pub add_page : Pmm → ℕ → Pmm
add_page s p = record {
  bitmap = bitmap_clear s.bitmap p;
  total_pages = u32 (s.total_pages + 1);
  free_pages = u32 (s.free_pages + 1);
}

-- `bitmap_set(p); g_FreePages--;`
pub take_page : Pmm → ℕ → Pmm
take_page s p = record s { bitmap = bitmap_set s.bitmap p; free_pages = sub_u32 s.free_pages 1 }

-- The loop over the pages of one usable region, at page `p` with `left` to go.
pub free_range : ℕ → ℕ → Pmm → Option Pmm
free_range zero p s = some s
free_range (suc left) p s = do
  used ← bitmap_test s.bitmap p
  free_range left (p + 1) (if used then add_page s p else s)

-- The loop over the pages of the kernel image.
pub reserve_range : ℕ → ℕ → Pmm → Option Pmm
reserve_range zero p s = some s
reserve_range (suc left) p s = do
  used ← bitmap_test s.bitmap p
  reserve_range left (p + 1) (if used then s else take_page s p)

-- The first page of a region, rounded up; sums are in `uint64_t`, the page number in `uint32_t`.
pub page_start : Region → ℕ
page_start r = u32 ((r.begin + page_size - 1) % 2 ^ 64 / page_size)

-- The page after its last whole one, cut at the end of the bitmap.
pub page_end : Region → ℕ
page_end r =
    let last = u32 ((r.begin + r.size) % 2 ^ 64 / page_size) in
    if ltb max_pages last then max_pages else last

pub free_regions : List Region → Pmm → Option Pmm
free_regions [] s = some s
free_regions (r ∷ rs) s = do
  s' ← (if r.kind != 1 then some s else free_range (page_end r - page_start r) (page_start r) s)
  free_regions rs s'

pub reserve_kernel : ℕ → ℕ → Pmm → Option Pmm
reserve_kernel kernel_start kernel_end s =
    let first = kernel_start / page_size in
    let after = u32 (kernel_end + page_size - 1) / page_size in
    reserve_range (after - first) first s

pub protect_null : Pmm → Option Pmm
protect_null s = do used ← bitmap_test s.bitmap 0; some (if used then s else take_page s 0)

pub initialize : List Region → ℕ → ℕ → Pmm → Option Pmm
initialize regions kernel_start kernel_end s = do
  bm ← memset s.bitmap 0xFF bitmap_size
  s' ← free_regions regions (record s { bitmap = bm })
  s'' ← reserve_kernel kernel_start kernel_end s'
  protect_null s''

-- The scan at page `i` with `left` pages to go: the address of the first free page, or `null`.
pub alloc_loop : ℕ → ℕ → Pmm → Option (ℕ × Pmm)
alloc_loop zero i s = some (null, s)
alloc_loop (suc left) i s =
    let rest = alloc_loop left (i + 1) s in
    do
      used ← bitmap_test s.bitmap i
      if used then rest else some (u32 (i * page_size), take_page s i)

pub alloc_page : Pmm → Option (ℕ × Pmm)
alloc_page s = alloc_loop max_pages 0 s

-- `page` is an address.
pub free_page : ℕ → Pmm → Option Pmm
free_page page s =
    let index = page / page_size in
    do
      used ← bitmap_test s.bitmap index
      some (
          if used
          then record s {
            bitmap = bitmap_clear s.bitmap index;
            free_pages = u32 (s.free_pages + 1);
          }
          else s)

pub get_free_pages : Pmm → ℕ
get_free_pages s = s.free_pages

pub get_total_pages : Pmm → ℕ
get_total_pages s = s.total_pages
