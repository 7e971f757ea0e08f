-- ===== src/Pmm/Tests.antt =====
-- The page allocator on a small memory map: pages 0 to 15, with the kernel in pages 2 to 4.
use uami_os.Base.{
  ℕ, ◌≡◌, refl, sym, ◌∙◌, ◌⊎◌, inl, inr, none, some, [], ◌∷◌, arith, ◌>>=◌, length-replicate,
}
use uami_os.Pmm.{
  Pmm, bitmap_size, bitmap_set, bitmap_clear, bitmap_test, initialize, alloc_page, free_page,
  page_start, page_end,
}
use mathlib.Core.Bool.{false≢true}
use uami_os.Pmm.Sample.{blank, low_memory, booted, booted-IsValid, page_one_free}
use uami_os.Pmm.Alloc.{Exhausted, Took, alloc_page_first_fit, free_page-alloc_page}
use uami_os.Pmm.Init.{Initialized, initialize-Initialized}

-- The first page of the region is not whole.
range_of_region :
    (page_start (record { begin = 0x100; size = 0xFF00; kind = 1 }) ≡ 1)
    × (page_end (record { begin = 0x100; size = 0xFF00; kind = 1 }) ≡ 16)
unfolding page_start page_end
range_of_region = (refl, refl)

set_page_nine : bitmap_set (0 ∷ 1 ∷ []) 9 ≡ 0 ∷ 3 ∷ []
unfolding bitmap_set
set_page_nine = refl

clear_page_nine : bitmap_clear (0 ∷ 3 ∷ []) 9 ≡ 0 ∷ 1 ∷ []
unfolding bitmap_clear
clear_page_nine = refl

-- A page outside the bitmap is a read that C leaves undefined.
test_out_of_range : bitmap_test (0 ∷ 3 ∷ []) 16 ≡ none
unfolding bitmap_test
test_out_of_range = refl

initialize-Initialized_example :
    (s' : Pmm) × (initialize low_memory 0x2000 0x4800 blank ≡ some s')
    × Initialized low_memory 0x2000 0x4800 s'
initialize-Initialized_example =
    initialize-Initialized low_memory 0x2000 0x4800 blank (length-replicate {A = ℕ} bitmap_size 0)
      refl refl (omega arith) (omega arith) (omega arith)

alloc_page_first_fit_example :
    Exhausted booted (alloc_page booted) ⊎ ((p : ℕ) × Took booted p (alloc_page booted))
alloc_page_first_fit_example = alloc_page_first_fit booted booted-IsValid

-- The state after the first allocation, and what was returned.
allocated : (p : ℕ) × Took booted p (alloc_page booted)
allocated = elim (alloc_page_first_fit booted booted-IsValid) [
  | inl x ↦ absurd (false≢true (sym page_one_free ∙ x.full 1 (omega arith)))
  | inr t ↦ t
]

free_page-alloc_page_example : (alloc_page booted >>= λ (a, s'). free_page a s') ≡ some booted
free_page-alloc_page_example =
    free_page-alloc_page booted 1 booted-IsValid (omega arith) page_one_free
