-- ===== src/Pmm/Reserved.antt =====
-- The loops of `PMM_Initialize` that take pages back.
use uami_os.Base.{
  ℕ, zero, suc, ◌+◌, ◌-◌, ◌*◌, ◌/◌, ◌≤◌, ◌<◌, ◌≡◌, refl, sym, ap, ◌∙◌, inl, inr, Bool, true, not,
  ◌&&◌, ◌||◌, some, arith, ◌==◌, if◌then◌else◌, ==_iff, ==_ne, and_false, and_true, Bool-cases, u32,
}
use native.Mathlib.Decide.{ℕ_discrete}
use uami_os.Pmm.{Pmm, page_size, max_pages, take_page, reserve_range, reserve_kernel}
use uami_os.Pmm.Bitmap.{is_used, bitmap_test-eq}
use uami_os.Pmm.Invariant.{is_free, IsValid, take_page-IsValid, take_page-Changed}
use uami_os.Pmm.Offer.{in_kernel, within}

-- `s'` is `s` with the pages that pass `f` taken.
pub record Reserved (s : Pmm) (f : ℕ → Bool) (s' : Pmm) : Type 0 where
  pub valid : IsValid s'
  pub total : s'.total_pages ≡ s.total_pages
  pub pages : (q : ℕ) → q < max_pages → is_free s'.bitmap q ≡ (is_free s.bitmap q && not (f q))

pub Reserved-one :
    {s : Pmm} (p : ℕ)
    → IsValid s
    → p < max_pages
    → Reserved s (λ q. q == p) (if is_used s.bitmap p then s else take_page s p)
Reserved-one {s} p v lt = elim (Bool-cases (is_used s.bitmap p)) [
  | inl used ↦ rw used (record {
    valid = v;
    total = refl;
    pages = λ q below. elim (ℕ_discrete q p) [
      | yes e ↦
          ap not (ap (is_used s.bitmap) e ∙ used)
          ∙ sym (and_false (is_free s.bitmap q) (q == p) ((==_iff q p).1 e))
      | no ne ↦ sym (and_true (is_free s.bitmap q) (q == p) (==_ne q p ne))
    ];
  })
  | inr free ↦ rw free (record {
    valid = take_page-IsValid v p lt free;
    total = unfold take_page in refl;
    pages = λ q below. elim (ℕ_discrete p q) [
      | yes e ↦
          let taken : is_used (take_page s p).bitmap q ≡ true =
            rw (← e) (take_page-Changed v p lt).at_page in
          ap not taken ∙ sym (and_false (is_free s.bitmap q) (q == p) ((==_iff q p).1 (sym e)))
      | no ne ↦
          ap not ((take_page-Changed v p lt).elsewhere q ne)
          ∙ sym (and_true (is_free s.bitmap q) (q == p) (==_ne q p (λ e. ne (sym e))))
    ];
  })
]

pub Reserved-trans :
    {s s' s'' : Pmm} {f g : ℕ → Bool} (h : ℕ → Bool)
    → ((q : ℕ) → q < max_pages → (f q || g q) ≡ h q)
    → Reserved s f s'
    → Reserved s' g s''
    → Reserved s h s''
Reserved-trans {s} {s'} {s''} {f} {g} h same x y = record {
  valid = y.valid;
  total = y.total ∙ x.total;
  pages = λ q lt. ground (arith, x.pages q lt, y.pages q lt, same q lt);
}

reserve_range_lem :
    (left p hi : ℕ) (s : Pmm)
    → IsValid s
    → hi ≡ p + left
    → hi ≤ max_pages
    → (s' : Pmm) × (reserve_range left p s ≡ some s') × Reserved s (within p hi) s'
unfolding reserve_range
reserve_range_lem zero p hi s v e fits =
    (s, refl, record { valid = v; total = refl; pages = λ q lt. ground arith })
reserve_range_lem (suc left) p hi s v e fits =
    let lt : p < max_pages = omega arith in
    let one = Reserved-one p v lt in
    let (s', run, x) =
      reserve_range_lem left (p + 1) hi (if is_used s.bitmap p then s else take_page s p) one.valid
        (omega arith) fits in
    (s', rw (bitmap_test-eq v.bits p lt) run, Reserved-trans _ (λ q below. ground arith) one x)

Reserved-ext :
    {s s' : Pmm} {f : ℕ → Bool} (g : ℕ → Bool)
    → ((q : ℕ) → q < max_pages → f q ≡ g q)
    → Reserved s f s'
    → Reserved s g s'
Reserved-ext {s} g h x = record {
  valid = x.valid;
  total = x.total;
  pages = λ q lt. x.pages q lt ∙ ap (λ b. is_free s.bitmap q && not b) (h q lt);
}

pages_of_kernel :
    (ks ke q : ℕ)
    → ke ≤ max_pages * page_size
    → within (ks / page_size) (u32 (ke + page_size - 1) / page_size) q ≡ in_kernel ks ke q
unfolding in_kernel
pages_of_kernel ks ke q fits = ground arith

pub reserve_kernel_lem :
    (ks ke : ℕ) (s : Pmm)
    → IsValid s
    → ks ≤ ke
    → ke ≤ max_pages * page_size
    → (s' : Pmm) × (reserve_kernel ks ke s ≡ some s') × Reserved s (in_kernel ks ke) s'
unfolding reserve_kernel
reserve_kernel_lem ks ke s v le fits =
    let first = ks / page_size in
    let after = u32 (ke + page_size - 1) / page_size in
    let (s', run, x) =
      reserve_range_lem (after - first) first after s v (omega arith) (omega arith) in
    (s', run, Reserved-ext (in_kernel ks ke) (λ q lt. pages_of_kernel ks ke q fits) x)
