-- ===== src/Pmm/Alloc.antt =====
-- `PMM_AllocPage` and `PMM_FreePage`: first fit, exact accounting, and the round trip.
use uami_os.Base.{
  ℕ, zero, suc, ◌+◌, ◌*◌, ◌/◌, ◌≤◌, ◌<◌, ◌≡◌, refl, sym, ap, ◌∙◌, ◌⊎◌, inl, inr, true, false,
  Option, some, arith, Bool-cases, ◌>>=◌, u32,
}
use native.Mathlib.Decide.{ℕ_discrete}
use uami_os.Pmm.{
  Pmm, null, page_size, max_pages, bitmap_clear, take_page, alloc_loop, alloc_page, free_page,
}
use uami_os.Pmm.Bitmap.{
  is_used, bitmap_test-eq, bitmap_clear-IsBitmap, is_used-bitmap_clear_self,
  is_used-bitmap_clear_ne, is_used-bitmap_set_self, bitmap_clear-bitmap_set, bitmap_set-IsBitmap,
}
use uami_os.Base.Count.{count-le}
use uami_os.Pmm.Invariant.{
  is_free, IsValid, Changed, take_page-IsValid, take_page-Changed, free_pages-take_page,
  counted_cleared, free_pages-cleared,
}

-- The scan found no free page.
pub record Exhausted (s : Pmm) (r : Option (ℕ × Pmm)) : Type 0 where
  pub full : (q : ℕ) → q < max_pages → is_used s.bitmap q ≡ true
  pub result : r ≡ some (null, s)

-- Page `p`, the lowest free one, was taken.
pub record Took (s : Pmm) (p : ℕ) (r : Option (ℕ × Pmm)) : Type 0 where
  pub in_range : p < max_pages
  pub was_free : is_used s.bitmap p ≡ false
  pub lowest : (q : ℕ) → q < p → is_used s.bitmap q ≡ true
  pub result : r ≡ some (p * page_size, take_page s p)

alloc_loop_lem :
    (left i : ℕ) (s : Pmm)
    → IsValid s
    → i + left ≡ max_pages
    → ((q : ℕ) → q < i → is_used s.bitmap q ≡ true)
    → Exhausted s (alloc_loop left i s) ⊎ ((p : ℕ) × Took s p (alloc_loop left i s))
unfolding alloc_loop
alloc_loop_lem zero i s v e before =
    inl (record { full = λ q lt. before q (omega arith); result = refl })
alloc_loop_lem (suc left) i s v e before =
    rw (bitmap_test-eq v.bits i (omega arith)) (elim (Bool-cases (is_used s.bitmap i)) [
      | inl used ↦ rw used (
          alloc_loop_lem left (i + 1) s v (omega arith) (λ q lt. elim (ℕ_discrete q i) [
            | yes q_eq ↦ rw q_eq used
            | no ne ↦ before q (omega arith)
          ]))
      | inr free ↦ rw free (
          inr (
            i,
            record {
              in_range = omega arith;
              was_free = free;
              lowest = before;
              result = ap (λ a. some (a, take_page s i)) (omega arith);
            },
          ))
    ])

-- In a valid state `PMM_AllocPage` returns. Either every page is in use, and it returns NULL and
-- changes nothing; or it returns the address of the lowest free page, in range, and takes that page.
pub alloc_page_first_fit :
    (s : Pmm) → IsValid s → Exhausted s (alloc_page s) ⊎ ((p : ℕ) × Took s p (alloc_page s))
unfolding alloc_page
alloc_page_first_fit s v =
    alloc_loop_lem max_pages 0 s v (omega arith) (λ q lt. absurd (omega arith))

-- What one successful call of `PMM_AllocPage` may do to the state.
abbrev pub Granted : Pmm → ℕ → Pmm → Type 0
Granted s a s' =
    ((s' ≡ s) × (a ≡ null))
    ⊎ (Changed s (a / page_size) true s' × (s.free_pages ≡ s'.free_pages + 1))

module _ (s s' : Pmm) (a : ℕ) (v : IsValid s) where
  granted :
      (p : ℕ)
      → Took s p (alloc_page s)
      → a ≡ p * page_size
      → s' ≡ take_page s p
      → IsValid s' × Granted s a s'
  granted p t a_eq s_eq =
      let d : a / page_size ≡ p = omega arith in
      (
        rw s_eq (take_page-IsValid v p t.in_range t.was_free),
        inr (
          rw (d, s_eq) (take_page-Changed v p t.in_range),
          rw s_eq (free_pages-take_page v p t.in_range t.was_free),
        ),
      )

  -- `PMM_AllocPage` keeps the invariant. Where it changes the state, the page at the address that
  -- it returns is the only one that changes, is in use, and the counter has gone down by one.
  pub alloc_page-IsValid : alloc_page s ≡ some (a, s') → IsValid s' × Granted s a s'
  alloc_page-IsValid e = elim (alloc_page_first_fit s v) [
    | inl x ↦
        let r : ◌≡◌ {A = Option (ℕ × Pmm)} (some (a, s')) (some (null, s)) = sym e ∙ x.result in
        let s_eq : s' ≡ s = cc in let a_eq : a ≡ null = cc in (rw s_eq v, inl (s_eq, a_eq))
    | inr (p, t) ↦
        let r : ◌≡◌ {A = Option (ℕ × Pmm)} (some (a, s')) (some (p * page_size, take_page s p)) =
          sym e ∙ t.result in
        granted p t (cc) (cc)
  ]

-- `PMM_FreePage` of an address below 128 MB returns a valid state. If the page was in use it is now
-- free, alone of all pages, and the counter has gone up by one; else nothing has changed.
pub free_page-Changed :
    (s : Pmm) (a : ℕ)
    → IsValid s
    → a < max_pages * page_size
    → (s' : Pmm) × (free_page a s ≡ some s')
      × IsValid s'
      × (is_used s.bitmap (a / page_size) ≡ true
          → Changed s (a / page_size) false s' × (s'.free_pages ≡ s.free_pages + 1))
      × (is_used s.bitmap (a / page_size) ≡ false → s' ≡ s)
unfolding free_page
free_page-Changed s a v small =
    let p = a / page_size in
    let lt : p < max_pages = omega arith in
    rw (bitmap_test-eq v.bits p lt) (elim (Bool-cases (is_used s.bitmap p)) [
      | inl used ↦ (
        record s { bitmap = bitmap_clear s.bitmap p; free_pages = u32 (s.free_pages + 1) },
        rw used,
        record { bits = bitmap_clear-IsBitmap v.bits p; counted = counted_cleared v p lt used },
        λ h. (
          record {
            at_page = is_used-bitmap_clear_self v.bits p lt;
            elsewhere = is_used-bitmap_clear_ne v.bits p lt;
          },
          free_pages-cleared v p lt used,
        ),
        λ h. cc,
      )
      | inr free ↦ (s, rw free, v, λ h. cc, λ h. refl)
    ])

free_pages-pos :
    (s : Pmm) (p : ℕ) → IsValid s → p < max_pages → is_used s.bitmap p ≡ false → 1 ≤ s.free_pages
free_pages-pos s p v lt free = omega (arith, free_pages-take_page v p lt free)

-- Freeing the page that `PMM_AllocPage` has just returned gives back the very state, provided that
-- a page was free.
pub free_page-alloc_page :
    (s : Pmm) (p : ℕ)
    → IsValid s
    → p < max_pages
    → is_used s.bitmap p ≡ false
    → (alloc_page s >>= λ (a, s'). free_page a s') ≡ some s
unfolding free_page take_page
free_page-alloc_page s q v lt free = elim (alloc_page_first_fit s v) [
  | inl x ↦ cc (x.full q lt)
  | inr (p, t) ↦
      let d : p * page_size / page_size ≡ p = omega arith in
      let bits' = bitmap_set-IsBitmap v.bits p in
      rw
        (
          t.result,
          d,
          bitmap_test-eq bits' p t.in_range,
          is_used-bitmap_set_self v.bits p t.in_range,
          bitmap_clear-bitmap_set v.bits p t.in_range t.was_free,
        )
        (ap (λ n. some (record s { free_pages = n }))
          (omega (
            arith,
            v.counted,
            count-le max_pages (is_free s.bitmap),
            free_pages-pos s p v t.in_range t.was_free,
          )))
]
