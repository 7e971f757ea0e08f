-- ===== src/Pmm/Offer.antt =====
-- What `PMM_Initialize` is to make free: the memory map and the kernel image, page by page.
use uami_os.Base.{ℕ, ◌+◌, ◌*◌, ◌^◌, ◌<◌, Bool, false, ◌&&◌, ◌||◌, List, [], ◌∷◌, ltb, leb, ◌==◌}
use uami_os.Pmm.{Region, page_size}

-- The memory map offers page `p` whole.
unfoldable pub offers : Region → ℕ → Bool
offers r p =
    r.kind == 1 && leb r.begin (p * page_size) && leb ((p + 1) * page_size) (r.begin + r.size)

unfoldable pub offered : List Region → ℕ → Bool
offered [] p = false
offered (r ∷ rs) p = offers r p || offered rs p

-- The kernel image, from `ks` up to `ke`, has a byte in page `p`.
unfoldable pub in_kernel : ℕ → ℕ → ℕ → Bool
in_kernel ks ke p = ltb ks ((p + 1) * page_size) && ltb (p * page_size) ke

abbrev pub within : ℕ → ℕ → ℕ → Bool
within lo hi q = leb lo q && ltb q hi

-- The rounding of one region is right where its end is below 2 ^ 44 less a page.
abbrev pub Fits : Region → Type 0
Fits r = r.begin + r.size + page_size < 2 ^ 44
