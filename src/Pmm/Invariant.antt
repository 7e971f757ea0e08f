-- ===== src/Pmm/Invariant.antt =====
-- The counter `g_FreePages` is the number of clear bits; marking or clearing a page keeps it so.
use uami_os.Base.{ℕ, ◌+◌, ◌<◌, ◌≡◌, sym, ap, ◌≢◌, Bool, true, false, not, List, arith, u32}
use uami_os.Pmm.{Pmm, max_pages, bitmap_set, bitmap_clear, add_page, take_page}
use uami_os.Pmm.Bitmap.{
  IsBitmap, is_used, bitmap_set-IsBitmap, bitmap_clear-IsBitmap, is_used-bitmap_set_self,
  is_used-bitmap_set_ne, is_used-bitmap_clear_self, is_used-bitmap_clear_ne,
}
use uami_os.Base.Count.{count, count-le, count_add_one}

abbrev pub is_free : List ℕ → ℕ → Bool
is_free bm p = not (is_used bm p)

pub record IsValid (s : Pmm) : Type 0 where
  pub bits : IsBitmap s.bitmap
  pub counted : s.free_pages ≡ count max_pages (is_free s.bitmap)

-- `s'` is `s` with page `p` in the given state, and no other page changed.
pub record Changed (s : Pmm) (p : ℕ) (used : Bool) (s' : Pmm) : Type 0 where
  pub at_page : is_used s'.bitmap p ≡ used
  pub elsewhere : (q : ℕ) → p ≢ q → is_used s'.bitmap q ≡ is_used s.bitmap q

module _ {s : Pmm} (v : IsValid s) (p : ℕ) (lt : p < max_pages) where
  module _ (free : is_used s.bitmap p ≡ false) where
    pub free_pages-take_page : s.free_pages ≡ (take_page s p).free_pages + 1
    unfolding take_page
    free_pages-take_page = omega (
      arith,
      v.counted,
      count-le max_pages (is_free s.bitmap),
      count_add_one max_pages (is_free s.bitmap) (is_free (bitmap_set s.bitmap p)) p lt
          (ap not free) (ap not (is_used-bitmap_set_self v.bits p lt))
          (λ q ne. ap not (sym (is_used-bitmap_set_ne v.bits p lt q (λ e. ne (sym e))))),
    )

    pub take_page-IsValid : IsValid (take_page s p)
    unfolding take_page
    take_page-IsValid = record {
      bits = bitmap_set-IsBitmap v.bits p;
      counted = omega (
        arith,
        v.counted,
        count-le max_pages (is_free s.bitmap),
        count_add_one max_pages (is_free s.bitmap) (is_free (bitmap_set s.bitmap p)) p lt
            (ap not free) (ap not (is_used-bitmap_set_self v.bits p lt))
            (λ q ne. ap not (sym (is_used-bitmap_set_ne v.bits p lt q (λ e. ne (sym e))))),
      );
    }

  pub take_page-Changed : Changed s p true (take_page s p)
  unfolding take_page
  take_page-Changed = record {
    at_page = is_used-bitmap_set_self v.bits p lt;
    elsewhere = is_used-bitmap_set_ne v.bits p lt;
  }

  module _ (used : is_used s.bitmap p ≡ true) where
    count_cleared :
        count max_pages (is_free (bitmap_clear s.bitmap p)) ≡ count max_pages (is_free s.bitmap) + 1
    count_cleared =
        count_add_one max_pages (is_free (bitmap_clear s.bitmap p)) (is_free s.bitmap) p lt
          (ap not (is_used-bitmap_clear_self v.bits p lt)) (ap not used)
          (λ q ne. ap not (is_used-bitmap_clear_ne v.bits p lt q (λ e. ne (sym e))))

    pub free_pages-cleared : u32 (s.free_pages + 1) ≡ s.free_pages + 1
    free_pages-cleared = omega (arith, v.counted, count-le max_pages (is_free s.bitmap))

    pub counted_cleared :
        u32 (s.free_pages + 1) ≡ count max_pages (is_free (bitmap_clear s.bitmap p))
    counted_cleared = omega (arith, v.counted, count_cleared, count-le max_pages (is_free s.bitmap))

    pub add_page-IsValid : IsValid (add_page s p)
    unfolding add_page
    add_page-IsValid = record { bits = bitmap_clear-IsBitmap v.bits p; counted = counted_cleared }

    pub add_page-Changed : Changed s p false (add_page s p)
    unfolding add_page
    add_page-Changed = record {
      at_page = is_used-bitmap_clear_self v.bits p lt;
      elsewhere = is_used-bitmap_clear_ne v.bits p lt;
    }
