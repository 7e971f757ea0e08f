-- ===== src/Pmm/Init.antt =====
-- `PMM_Initialize`: exactly the pages that the memory map offers, less the kernel and page 0, are
-- free afterwards.
use uami_os.Base.{
  ℕ, ◌*◌, ◌/◌, ◌%◌, ◌≤◌, ◌<◌, bit_and, ◌≡◌, refl, sym, ap, ◌∙◌, true, false, not, ◌&&◌, ◌||◌, some,
  List, arith, ◌==◌, ◌!=◌, if◌then◌else◌, length, All, All-of_get_or, ◌<<<◌,
}
use uami_os.Pmm.{
  Pmm, Region, page_size, max_pages, bitmap_size, take_page, protect_null, initialize,
}
use uami_os.Pmm.Bitmap.{IsBitmap, is_used, bitmap_test-eq}
use uami_os.Pmm.Invariant.{is_free, IsValid}
use uami_os.Pmm.Offer.{offered, in_kernel, Fits}
use uami_os.Pmm.Freed.{free_regions_lem}
use uami_os.Pmm.Reserved.{Reserved, Reserved-one, Reserved-trans, reserve_kernel_lem}
use uami_os.Base.Count.{count, count_ext, count_none}
use uami_os.Base.Bytes.{passes, passes_at}
use uami_os.Memory.Loops.{Filled, memset-Filled}

protect_null_lem :
    (s : Pmm) → IsValid s → (s' : Pmm) × (protect_null s ≡ some s') × Reserved s (λ q. q == 0) s'
unfolding protect_null
protect_null_lem s v = (
  (if is_used s.bitmap 0 then s else take_page s 0),
  rw (bitmap_test-eq v.bits 0 (omega arith)),
  Reserved-one 0 v (omega arith),
)

full_byte : (k : ℕ) → k < 8 → (bit_and 255 (1 <<< k) != 0) ≡ true
full_byte k h = passes_at (λ k. bit_and 255 (1 <<< k) != 0) 8 k (unfold passes in refl) h

-- The bitmap after the `memset`.
module _ {old bm : List ℕ} (size : length old ≡ bitmap_size)
    (w : Filled old 0 bitmap_size (λ _. 255) bm) where
  filled-IsBitmap : IsBitmap bm
  filled-IsBitmap = record {
    size = w.size ∙ size;
    bytes =
        All-of_get_or (λ b. b < 256) bm 0
          (λ i lt. omega (arith, w.inside i (omega arith) (omega (arith, w.size))));
  }

  filled-used : (q : ℕ) → q < max_pages → is_used bm q ≡ true
  filled-used q lt =
      ap (λ b. bit_and b (1 <<< (q % 8)) != 0) (w.inside (q / 8) (omega arith) (omega arith))
      ∙ full_byte (q % 8) (omega arith)

-- The outcome of `PMM_Initialize`.
pub record Initialized (rs : List Region) (ks ke : ℕ) (s : Pmm) : Type 0 where
  pub valid : IsValid s
  pub total : s.total_pages ≡ count max_pages (offered rs)
  pub pages :
      (q : ℕ)
      → q < max_pages
      → is_free s.bitmap q ≡ (offered rs q && not (in_kernel ks ke q || q == 0))

-- `PMM_Initialize` returns, given a bitmap of the right size, counters at zero, usable regions that
-- end below 2 ^ 44 less a page, and a kernel image below 128 MB. Afterwards a page is free exactly
-- if some usable region holds it whole, no byte of it is the kernel's, and it is not page 0; the
-- free counter is the number of free pages, and the total that of the pages offered.
pub initialize-Initialized :
    (rs : List Region) (ks ke : ℕ) (s : Pmm)
    → length s.bitmap ≡ bitmap_size
    → s.total_pages ≡ 0
    → s.free_pages ≡ 0
    → All Fits rs
    → ks ≤ ke
    → ke ≤ max_pages * page_size
    → (s' : Pmm) × (initialize rs ks ke s ≡ some s') × Initialized rs ks ke s'
unfolding initialize
initialize-Initialized rs ks ke s size t0 f0 fits le below =
    let (bm, run₀, w) = memset-Filled s.bitmap 0xFF bitmap_size (omega arith) (omega arith) in
    let s₀ : Pmm = record s { bitmap = bm } in
    let v₀ : IsValid s₀ = record {
      bits = filled-IsBitmap size w;
      counted =
          f0
          ∙ sym (
              count_ext max_pages (is_free bm) (λ q. false)
                (λ q lt. ap not (filled-used size w q lt))
              ∙ count_none max_pages);
    } in
    let (s₁, run₁, x₁) = free_regions_lem rs s₀ fits v₀ (t0 ∙ sym f0) in
    let (s₂, run₂, x₂) = reserve_kernel_lem ks ke s₁ x₁.valid le below in
    let (s₃, run₃, x₃) = protect_null_lem s₂ x₂.valid in
    let offers : (q : ℕ) → q < max_pages → is_free s₁.bitmap q ≡ offered rs q =
      λ q lt. x₁.pages q lt ∙ ap (λ b. b || offered rs q) (ap not (filled-used size w q lt)) in
    (
      s₃,
      rw (run₀, run₁, run₂) run₃,
      record {
        valid = x₃.valid;
        total =
            x₃.total
            ∙ x₂.total
            ∙ x₁.total
            ∙ x₁.valid.counted
            ∙ count_ext max_pages (is_free s₁.bitmap) (offered rs) offers;
        pages = λ q lt.
            (Reserved-trans (λ q. in_kernel ks ke q || q == 0) (λ q lt. refl) x₂ x₃).pages q lt
            ∙ ap (λ b. b && not (in_kernel ks ke q || q == 0)) (offers q lt);
      },
    )
