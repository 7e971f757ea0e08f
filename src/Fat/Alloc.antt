-- ===== src/Fat/Alloc.antt =====
-- `fat_alloc_cluster` of src/kernel/fs/fat.c.
use uami_os.Base.{
  ℕ, zero, suc, ◌+◌, ◌-◌, ◌/◌, ◌^◌, ◌≤◌, ◌<◌, ◌≡◌, sym, ap, subst, ◌∙◌, ◌≢◌, inl, inr, some, arith,
  ◌==◌, if_cases, ==_iff, ==_ne,
}
use native.Mathlib.Decide.{ℕ_discrete}
use uami_os.Fat.{Fat, sectors_per_cluster}
use uami_os.Fat.Table.{next_cluster, set_cluster, alloc_loop, alloc_cluster}
use uami_os.Fat.Cache.{
  entry, IsValid, OnlyCache, OnlyCache-self, fat_start-OnlyCache, entry-OnlyCache,
  next_cluster-entry,
}
use uami_os.Fat.Entry.{Entered, set_cluster-Entered}

pub OnlyCache-trans : (s s' s'' : Fat) → OnlyCache s s' → OnlyCache s' s'' → OnlyCache s s''
OnlyCache-trans s s' s'' o p = record {
  disk = p.disk ∙ o.disk;
  boot = p.boot ∙ o.boot;
  root = p.root ∙ o.root;
  opened = p.opened ∙ o.opened;
  first = p.first ∙ o.first;
  sectors = p.sectors ∙ o.sectors;
}

pub Entered-OnlyCache :
    (c value : ℕ) (s s' s'' : Fat) → OnlyCache s s' → Entered c value s' s'' → Entered c value s s''
Entered-OnlyCache c value s s' s'' o e =
    let start = fat_start-OnlyCache s s' o in
    record {
      valid = e.valid;
      here = e.here;
      bytes = λ a h.
          e.bytes a (elim h [ inl x ↦ inl (omega arith) | inr x ↦ inr (omega arith) ])
          ∙ ap (λ d. d.byte a) o.disk;
      boot = e.boot ∙ o.boot;
      root = e.root ∙ o.root;
      opened = e.opened ∙ o.opened;
      first = e.first ∙ o.first;
      sectors = e.sectors ∙ o.sectors;
    }

-- What a search from cluster `c` over `left` clusters ends in.
pub data Allocated (c left : ℕ) (s : Fat) : ℕ × Fat → Type 0 where
  taken :
      (d : ℕ) (s' : Fat)
      → c ≤ d
      → d < c + left
      → entry s d ≡ 0
      → ((j : ℕ) → c ≤ j → j < d → entry s j ≢ 0)
      → Entered d 0x0FFFFFFF s s'
      → Allocated c left s (d, s')
  full :
      (s' : Fat)
      → ((j : ℕ) → c ≤ j → j < c + left → entry s j ≢ 0)
      → OnlyCache s s'
      → IsValid s'
      → Allocated c left s (0, s')

-- One used cluster is passed.
Allocated-pass :
    (c left : ℕ) (s s' : Fat) (r : ℕ × Fat)
    → OnlyCache s s'
    → entry s c ≢ 0
    → Allocated (c + 1) left s' r
    → Allocated c (suc left) s r
Allocated-pass c left s s' _ o ne (taken d s'' ge lt free before e) =
    taken d s'' (omega arith) (omega arith) (sym (entry-OnlyCache s s' d o) ∙ free)
      (λ j le below. elim (ℕ_discrete c j) [
        | yes same ↦ subst (λ x. entry s x ≢ 0) same ne
        | no other ↦ subst (λ x. x ≢ 0) (entry-OnlyCache s s' j o) (before j (omega arith) below)
      ])
      (Entered-OnlyCache d 0x0FFFFFFF s s' s'' o e)
Allocated-pass c left s s' _ o ne (full s'' used p v) =
    full s''
      (λ j le below. elim (ℕ_discrete c j) [
        | yes same ↦ subst (λ x. entry s x ≢ 0) same ne
        | no other ↦
            subst (λ x. x ≢ 0) (entry-OnlyCache s s' j o) (used j (omega arith) (omega arith))
      ])
      (OnlyCache-trans s s' s'' o p) v

alloc_loop-Allocated :
    (left c : ℕ) (s : Fat)
    → IsValid s
    → c + left ≤ 2 ^ 28
    → Allocated c left s (alloc_loop left c s)
unfolding alloc_loop
alloc_loop-Allocated zero c s v fits = full s (λ j le lt. absurd (omega arith)) (OnlyCache-self s) v
alloc_loop-Allocated (suc left) c s v fits =
    let (e, o, w) = next_cluster-entry c s v (omega arith) in
    let s' = (next_cluster c s).1 in
    if_cases (Allocated c (suc left) s) ((next_cluster c s).0 == 0)
      (λ z.
        taken c (set_cluster c 0x0FFFFFFF s') (omega arith) (omega arith) (sym e ∙ (==_iff _ 0).0 z)
          (λ j le lt. absurd (omega arith))
          (Entered-OnlyCache c 0x0FFFFFFF s s' _ o
            (set_cluster-Entered c 0x0FFFFFFF s' w (omega arith))))
      (λ z.
        Allocated-pass c left s s' _ o (λ free. ground (arith, e, free))
          (alloc_loop-Allocated left (c + 1) s' w (omega arith)))

-- In a valid state of a volume with at most 2 ^ 28 clusters `fat_alloc_cluster` returns. It takes
-- the lowest free cluster from 2 on, whose entry then marks the end of a chain, while no other byte
-- of the disk changes; or no cluster is free, and it gives 0 and changes nothing but the cache.
pub alloc_cluster-Allocated :
    (s : Fat)
    → IsValid s
    → 0 < sectors_per_cluster s
    → s.total_sectors / sectors_per_cluster s ≤ 2 ^ 28
    → (r : ℕ × Fat) × (alloc_cluster s ≡ some r)
      × Allocated 2 (s.total_sectors / sectors_per_cluster s - 2) s r
unfolding alloc_cluster
alloc_cluster-Allocated s v some_sectors small =
    let left = s.total_sectors / sectors_per_cluster s - 2 in
    (
      alloc_loop left 2 s,
      rw (==_ne (sectors_per_cluster s) 0 (omega arith)),
      alloc_loop-Allocated left 2 s v (omega arith),
    )
