-- ===== src/Fat/Chain.antt =====
-- The loop of src/kernel/fs/fat.c that frees a chain of clusters, which may run in a circle.
use uami_os.Base.{
  ℕ, zero, suc, ◌+◌, ◌^◌, ◌≤◌, ◌<◌, ◌≡◌, refl, sym, ap, subst, ◌∙◌, ◌≢◌, ◌⊎◌, inl, inr, true, false,
  ◌&&◌, some, arith, ltb, leb, ◌!=◌, Bool-cases,
}
use native.Mathlib.Decide.{ℕ_discrete}
use uami_os.Base.Count.{count, count_add_one}
use uami_os.Fat.{Fat, end_of_chain}
use uami_os.Fat.Table.{next_cluster, set_cluster, free_chain}
use uami_os.Fat.Cache.{entry, IsValid, next_cluster-entry}
use uami_os.Fat.Entry.{Entered, set_cluster-Entered, entry_other}
use uami_os.Fat.Alloc.{Entered-OnlyCache}

-- A number that stands for a cluster of a chain.
abbrev pub InChain : ℕ → Type 0
InChain c = (2 ≤ c) × (c < end_of_chain)

-- Cluster `j` is on the chain that begins with `c`.
pub data OnChain (s : Fat) (j : ℕ) : ℕ → Type 0 where
  here : (c : ℕ) → InChain c → c ≡ j → OnChain s j c
  later : (c : ℕ) → InChain c → OnChain s j (entry s c) → OnChain s j c

OnChain-InChain : (s : Fat) (j c : ℕ) → OnChain s j c → InChain c
OnChain-InChain s j _ (here c r e) = r
OnChain-InChain s j _ (later c r o) = r

-- How many entries are not free.
abbrev pub used : Fat → ℕ
used s = count (2 ^ 28) (λ j. entry s j != 0)

module _ (s s' : Fat) (c : ℕ) (r : InChain c) (e : Entered c 0 s s') where
  is_free : entry s' c ≡ 0
  is_free = e.here

  -- What was on the chain is freed now, or is on one of the two that are left.
  split : (j x : ℕ) → OnChain s j x → (j ≡ c) ⊎ OnChain s' j x ⊎ OnChain s' j (entry s c)
  split j _ (here x q same) = elim (ℕ_discrete x c) [
    | yes p ↦ inl (omega arith)
    | no ne ↦ inr (inl (here x q same))
  ]
  split j _ (later x q o) = elim (split j (entry s x) o) [
    | inl p ↦ inl p
    | inr (inl p) ↦ elim (ℕ_discrete c x) [
      | yes same ↦ inr (inr (subst (λ y. OnChain s' j (entry s y)) (sym same) p))
      | no ne ↦ inr (inl (later x q (subst (OnChain s' j) (sym (entry_other c 0 x s s' e ne)) p)))
    ]
    | inr (inr p) ↦ inr (inr p)
  ]

  join_chains : (j x : ℕ) → OnChain s' j x → OnChain s j x
  join_chains j _ (here x q same) = here x q same
  join_chains j _ (later x q o) = elim (ℕ_discrete c x) [
    | yes same ↦
        let zero_next : entry s' x ≡ 0 = subst (λ y. entry s' y ≡ 0) same is_free in
        let bound = (OnChain-InChain s' j (entry s' x) o).0 in absurd (omega arith)
    | no ne ↦
        later x q (subst (OnChain s j) (entry_other c 0 x s s' e ne) (join_chains j (entry s' x) o))
  ]

  used_less : entry s c ≢ 0 → used s ≡ used s' + 1
  used_less ne =
      count_add_one (2 ^ 28) (λ j. entry s j != 0) (λ j. entry s' j != 0) c (omega arith)
        (ground arith) (ground (arith, is_free))
        (λ i other. ap (λ x. x != 0) (sym (entry_other c 0 i s s' e (λ p. other (sym p)))))

-- The chain from cluster `c` has been freed: its entries are zero, and all others as they were.
pub record Freed (c : ℕ) (s s' : Fat) : Type 0 where
  pub valid : IsValid s'
  pub free : (j : ℕ) → OnChain s j c → entry s' j ≡ 0
  pub others : (j : ℕ) → (entry s' j ≡ entry s j) ⊎ OnChain s j c

module _ (c : ℕ) (s s₁ s' : Fat) (r : InChain c) (e : Entered c 0 s s₁)
    (f : Freed (entry s c) s₁ s') where
  zero_stays : (j : ℕ) → entry s₁ j ≡ 0 → entry s' j ≡ 0
  zero_stays j z = elim (f.others j) [ inl same ↦ same ∙ z | inr o ↦ f.free j o ]

  first_free : (j : ℕ) → c ≡ j → entry s' j ≡ 0
  first_free j same = subst (λ x. entry s' x ≡ 0) same (zero_stays c e.here)

  rest_free : (j : ℕ) → OnChain s j (entry s c) → entry s' j ≡ 0
  rest_free j o = elim (split s s₁ c r e j (entry s c) o) [
    | inl same ↦ first_free j (sym same)
    | inr (inl p) ↦ f.free j p
    | inr (inr p) ↦ f.free j p
  ]

Freed-on :
    (s s₁ s' : Fat) (j c : ℕ)
    → InChain c
    → Entered c 0 s s₁
    → Freed (entry s c) s₁ s'
    → OnChain s j c
    → entry s' j ≡ 0
Freed-on s s₁ s' j _ r e f (here c q same) = first_free c s s₁ s' r e f j same
Freed-on s s₁ s' j _ r e f (later c q o) = rest_free c s s₁ s' r e f j o

-- After the first cluster of a chain, the rest.
Freed-step :
    (c : ℕ) (s s₁ s' : Fat) → InChain c → Entered c 0 s s₁ → Freed (entry s c) s₁ s' → Freed c s s'
Freed-step c s s₁ s' r e f = record {
  valid = f.valid;
  free = λ j o. Freed-on s s₁ s' j c r e f o;
  others = λ j. elim (f.others j) [
    | inr o ↦ inr (later c r (join_chains s s₁ c r e j (entry s c) o))
    | inl same ↦ elim (ℕ_discrete c j) [
      | yes p ↦ inr (here c r p)
      | no ne ↦ inl (same ∙ entry_other c 0 j s s₁ e ne)
    ]
  ];
}

-- A number that stands for no cluster ends the chain.
Freed-end : (c : ℕ) (s : Fat) → IsValid s → ¬ InChain c → Freed c s s
Freed-end c s v end = record {
  valid = v;
  free = λ j o. absurd (end (OnChain-InChain s j c o));
  others = λ j. inl refl;
}

-- The guard of the loop.
guard : (c : ℕ) → InChain c → (leb 2 c && ltb c end_of_chain) ≡ true
guard c r = ground (arith, r.0, r.1)

no_guard : (c : ℕ) → (leb 2 c && ltb c end_of_chain) ≡ false → ¬ InChain c
no_guard c e r = ground (arith, guard c r)

free_chain_end :
    (fuel c : ℕ) (s : Fat)
    → IsValid s
    → 0 < fuel
    → ¬ InChain c
    → (s' : Fat) × (free_chain fuel c s ≡ some s') × Freed c s s'
unfolding free_chain
free_chain_end zero c s v lt end = absurd (omega arith)
free_chain_end (suc fuel) c s v lt end = elim (Bool-cases (leb 2 c && ltb c end_of_chain)) [
  | inl y ↦ absurd (end (ground arith, ground arith))
  | inr n ↦ rw (n) (s, refl, Freed-end c s v end)
]

cleared :
    (c : ℕ) (s : Fat) → IsValid s → InChain c → Entered c 0 s (set_cluster c 0 (next_cluster c s).1)
cleared c s v r =
    let (e, o, w) = next_cluster-entry c s v (omega arith) in
    Entered-OnlyCache c 0 s (next_cluster c s).1 _ o
      (set_cluster-Entered c 0 (next_cluster c s).1 w (omega arith))

-- The loop that frees a chain ends in every valid state, also where the chain runs in a circle: it
-- makes at most one round more than the table has entries in use. Afterwards every cluster on the
-- chain is free, and the entry of any other is as it was.
pub free_chain_ends :
    (fuel c : ℕ) (s : Fat)
    → IsValid s
    → used s + 1 < fuel
    → (s' : Fat) × (free_chain fuel c s ≡ some s') × Freed c s s'
unfolding free_chain
free_chain_ends zero c s v lt = absurd (omega arith)
free_chain_ends (suc fuel) c s v lt = elim (Bool-cases (leb 2 c && ltb c end_of_chain)) [
  | inr n ↦ rw (n) (s, refl, Freed-end c s v (no_guard c n))
  | inl y ↦
      let r : InChain c = (ground arith, ground arith) in
      let s₁ = set_cluster c 0 (next_cluster c s).1 in
      let e = cleared c s v r in
      let next : (next_cluster c s).0 ≡ entry s c = (next_cluster-entry c s v (omega arith)).0 in
      let (s', run, f) : (s' : Fat) × (free_chain fuel (entry s c) s₁ ≡ some s')
          × Freed (entry s c) s₁ s' =
        elim (ℕ_discrete (entry s c) 0) [
          | yes z ↦
              free_chain_end fuel (entry s c) s₁ e.valid (omega arith) (λ p. omega (arith, p.0))
          | no nz ↦
              free_chain_ends fuel (entry s c) s₁ e.valid (omega (arith, used_less s s₁ c r e nz))
        ] in
      rw (y, next) (s', run, Freed-step c s s₁ s' r e f)
]
