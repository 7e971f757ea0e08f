-- ===== src/Pmm/Freed.antt =====
-- The loops of `PMM_Initialize` that free pages.
use uami_os.Base.{
  ℕ, zero, suc, ◌+◌, ◌-◌, ◌≤◌, ◌<◌, ◌≡◌, refl, sym, ap, ◌∙◌, inl, inr, Bool, false, not, ◌||◌, some,
  List, [], ◌∷◌, arith, ◌==◌, ◌!=◌, if◌then◌else◌, ==_iff, ==_ne, or_true, or_false, Bool-cases,
  All, u32,
}
use native.Mathlib.Decide.{ℕ_discrete, dec_le}
use uami_os.Pmm.{Pmm, Region, max_pages, add_page, free_range, page_start, page_end, free_regions}
use uami_os.Pmm.Bitmap.{is_used, bitmap_test-eq}
use uami_os.Pmm.Invariant.{is_free, IsValid, add_page-IsValid, add_page-Changed}
use uami_os.Pmm.Offer.{offers, offered, within, Fits}

-- `s'` is `s` with the pages that pass `f` freed.
pub record Freed (s : Pmm) (f : ℕ → Bool) (s' : Pmm) : Type 0 where
  pub valid : IsValid s'
  pub total : s'.total_pages ≡ s'.free_pages
  pub pages : (q : ℕ) → q < max_pages → is_free s'.bitmap q ≡ (is_free s.bitmap q || f q)

Freed-ext :
    {s s' : Pmm} {f : ℕ → Bool} (g : ℕ → Bool)
    → ((q : ℕ) → q < max_pages → f q ≡ g q)
    → Freed s f s'
    → Freed s g s'
Freed-ext {s} g h x = record {
  valid = x.valid;
  total = x.total;
  pages = λ q lt. x.pages q lt ∙ ap (λ b. is_free s.bitmap q || b) (h q lt);
}

Freed-refl :
    (s : Pmm) (f : ℕ → Bool)
    → IsValid s
    → s.total_pages ≡ s.free_pages
    → ((q : ℕ) → q < max_pages → f q ≡ false)
    → Freed s f s
Freed-refl s f v t h = record { valid = v; total = t; pages = λ q lt. ground (arith, h q lt) }

Freed-trans :
    {s s' s'' : Pmm} {f g : ℕ → Bool}
    → Freed s f s'
    → Freed s' g s''
    → Freed s (λ q. f q || g q) s''
Freed-trans {s} {s'} {s''} {f} {g} x y = record {
  valid = y.valid;
  total = y.total;
  pages = λ q lt. ground (arith, x.pages q lt, y.pages q lt);
}

-- One round of the loop.
Freed-one :
    {s : Pmm} (p : ℕ)
    → IsValid s
    → s.total_pages ≡ s.free_pages
    → p < max_pages
    → Freed s (λ q. q == p) (if is_used s.bitmap p then add_page s p else s)
Freed-one {s} p v t lt = elim (Bool-cases (is_used s.bitmap p)) [
  | inl used ↦ rw used (record {
    valid = add_page-IsValid v p lt used;
    total = unfold add_page in ap (λ n. u32 (n + 1)) t;
    pages = λ q below. elim (ℕ_discrete p q) [
      | yes e ↦
          ap not {y = false} (rw (← e) (add_page-Changed v p lt used).at_page)
          ∙ sym (or_true (is_free s.bitmap q) (q == p) ((==_iff q p).1 (sym e)))
      | no ne ↦
          ap not ((add_page-Changed v p lt used).elsewhere q ne)
          ∙ sym (or_false (is_free s.bitmap q) (q == p) (==_ne q p (λ e. ne (sym e))))
    ];
  })
  | inr free ↦ rw free (record {
    valid = v;
    total = t;
    pages = λ q below. elim (ℕ_discrete q p) [
      | yes e ↦
          ap not (ap (is_used s.bitmap) e ∙ free)
          ∙ sym (or_true (is_free s.bitmap q) (q == p) ((==_iff q p).1 e))
      | no ne ↦ sym (or_false (is_free s.bitmap q) (q == p) (==_ne q p ne))
    ];
  })
]

free_range_lem :
    (left p hi : ℕ) (s : Pmm)
    → IsValid s
    → s.total_pages ≡ s.free_pages
    → hi ≡ p + left
    → hi ≤ max_pages
    → (s' : Pmm) × (free_range left p s ≡ some s') × Freed s (within p hi) s'
unfolding free_range
free_range_lem zero p hi s v t e fits = (s, refl, Freed-refl s _ v t (λ q lt. ground arith))
free_range_lem (suc left) p hi s v t e fits =
    let lt : p < max_pages = omega arith in
    let one = Freed-one p v t lt in
    let (s', run, x) =
      free_range_lem left (p + 1) hi (if is_used s.bitmap p then add_page s p else s) one.valid
        one.total (omega arith) fits in
    (
      s',
      rw (bitmap_test-eq v.bits p lt) run,
      Freed-ext _ (λ q below. ground arith) (Freed-trans one x),
    )

free_range_nil : (left p : ℕ) (s : Pmm) → left ≡ 0 → free_range left p s ≡ some s
unfolding free_range
free_range_nil zero p s e = refl
free_range_nil (suc left) p s e = absurd (omega arith)

code_range-offers :
    (r : Region) (q : ℕ)
    → Fits r
    → q < max_pages
    → r.kind ≡ 1
    → within (page_start r) (page_end r) q ≡ offers r q
unfolding page_start page_end offers
code_range-offers r q fits lt k = ground arith

not_usable-offers : (r : Region) (q : ℕ) → (r.kind == 1) ≡ false → offers r q ≡ false
unfolding offers
not_usable-offers r q h = ground arith

page_end-le : (r : Region) → page_end r ≤ max_pages
unfolding page_end
page_end-le r = ground arith

free_region_lem :
    (r : Region) (s : Pmm)
    → Fits r
    → IsValid s
    → s.total_pages ≡ s.free_pages
    → (s' : Pmm) × ((if r.kind != 1
          then some s
          else free_range (page_end r - page_start r) (page_start r) s)
        ≡ some s')
      × Freed s (offers r) s'
free_region_lem r s fits v t = elim (Bool-cases (r.kind == 1)) [
  | inl k ↦ rw k (usable ((==_iff r.kind 1).0 k) (dec_le (page_start r) (page_end r)))
  | inr other ↦ rw other (s, refl, Freed-refl s _ v t (λ q lt. not_usable-offers r q other))
]
  where
    usable :
        r.kind ≡ 1
        → Dec (page_start r ≤ page_end r)
        → (s' : Pmm) × (free_range (page_end r - page_start r) (page_start r) s ≡ some s')
          × Freed s (offers r) s'
    usable k (yes h) =
        let (s', run, x) =
          free_range_lem (page_end r - page_start r) (page_start r) (page_end r) s v t (omega arith)
            (page_end-le r) in
        (s', run, Freed-ext (offers r) (λ q lt. code_range-offers r q fits lt k) x)
    usable k (no h) =
        let z : page_end r - page_start r ≡ 0 = omega arith in
        (
          s,
          free_range_nil _ (page_start r) s z,
          Freed-refl s (offers r) v t
              (λ q lt. sym (code_range-offers r q fits lt k) ∙ ground arith),
        )

pub free_regions_lem :
    (rs : List Region) (s : Pmm)
    → All Fits rs
    → IsValid s
    → s.total_pages ≡ s.free_pages
    → (s' : Pmm) × (free_regions rs s ≡ some s') × Freed s (offered rs) s'
unfolding free_regions offered
free_regions_lem [] s fits v t = (s, refl, Freed-refl s _ v t (λ q lt. refl))
free_regions_lem (r ∷ rs) s fits v t =
    let (s₁, run₁, x₁) = free_region_lem r s fits.0 v t in
    let (s₂, run₂, x₂) = free_regions_lem rs s₁ fits.1 x₁.valid x₁.total in
    (s₂, rw run₁ run₂, Freed-trans x₁ x₂)
