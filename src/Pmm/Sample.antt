-- ===== src/Pmm/Sample.antt =====
-- A page allocator as it is after boot, on a small memory map: pages 0 to 15, with the kernel in
-- pages 2 to 4.
use uami_os.Base.{
  ℕ, ◌*◌, ◌≡◌, refl, sym, ap, ◌∙◌, inl, inr, true, false, some, List, [], ◌∷◌, arith, not-eq_true,
  not-eq_false, replicate, length-replicate,
}
use native.Mathlib.Decide.{ℕ_discrete}
use uami_os.Pmm.{Pmm, Region, bitmap_size, initialize, alloc_page, take_page, page_size}
use mathlib.Core.Bool.{false≢true}
use uami_os.Pmm.Alloc.{alloc_page_first_fit}
use uami_os.Pmm.Bitmap.{is_used}
use uami_os.Pmm.Invariant.{IsValid}
use uami_os.Pmm.Offer.{offered, offers, in_kernel}
use uami_os.Pmm.Init.{Initialized, initialize-Initialized}

abbrev pub blank : Pmm
blank = record { bitmap = replicate bitmap_size 0; total_pages = 0; free_pages = 0 }

abbrev pub low_memory : List Region
low_memory =
    record { begin = 0x100; size = 0xFF00; kind = 1 }
    ∷ record { begin = 0; size = 0x100; kind = 2 }
    ∷ []

boot :
    (s' : Pmm) × (initialize low_memory 0x2000 0x4800 blank ≡ some s')
    × Initialized low_memory 0x2000 0x4800 s'
boot =
    initialize-Initialized low_memory 0x2000 0x4800 blank (length-replicate {A = ℕ} bitmap_size 0)
      refl refl (omega arith) (omega arith) (omega arith)

pub booted : Pmm
booted = boot.0

pub booted_lem : Initialized low_memory 0x2000 0x4800 booted
unfolding booted
booted_lem = boot.2

pub booted-IsValid : IsValid booted
booted-IsValid = booted_lem.valid

pub page_one_free : is_used booted.bitmap 1 ≡ false
page_one_free =
    not-eq_true _ (booted_lem.pages 1 (omega arith) ∙ (unfold offered offers in_kernel in refl))

pub page_two_used : is_used booted.bitmap 2 ≡ true
page_two_used =
    not-eq_false _ (booted_lem.pages 2 (omega arith) ∙ (unfold offered offers in_kernel in refl))

page_zero_used : is_used booted.bitmap 0 ≡ true
page_zero_used =
    not-eq_false _ (booted_lem.pages 0 (omega arith) ∙ (unfold offered offers in_kernel in refl))

-- The first allocation takes page 1.
pub alloc_page-booted : alloc_page booted ≡ some (0x1000, take_page booted 1)
alloc_page-booted = elim (alloc_page_first_fit booted booted-IsValid) [
  | inl x ↦ absurd (false≢true (sym page_one_free ∙ x.full 1 (omega arith)))
  | inr (p, t) ↦ elim (ℕ_discrete p 1) [
    | yes e ↦ t.result ∙ ap (λ p. some (p * page_size, take_page booted p)) e
    | no ne ↦ elim (ℕ_discrete p 0) [
      | yes z ↦ absurd (false≢true (sym t.was_free ∙ ap (is_used booted.bitmap) z ∙ page_zero_used))
      | no nz ↦ absurd (false≢true (sym page_one_free ∙ t.lowest 1 (omega arith)))
    ]
  ]
]
