-- ===== src/Scheduler/RoundRobin.antt =====
-- The search for a ready task: it goes once round the table, and takes the first ready one.
use uami_os.Base.{
  ℕ, zero, suc, ◌+◌, ◌-◌, ◌%◌, ◌<◌, ◌≡◌, ap, subst, ◌∙◌, ◌≢◌, ◌⊎◌, inl, inr, Bool, true, false,
  List, arith, ==_ne, ==_self, Bool-cases,
}
use native.Mathlib.Decide.{ℕ_discrete, dec_lt}
use native.Mathlib.Nat.{mod-add-mod, mod-eq_of_lt, mod-eq-sub-mod, add-zero}
use uami_os.Scheduler.{Task, task_at, is_ready, Search, at, nobody, find_ready}

-- Fewer than `n` steps round a ring of `n` do not come back.
ring-ne : (n s k : ℕ) → s < n → 0 < k → k < n → (s + k) % n ≢ s
ring-ne n s k hs hk lt = elim (dec_lt (s + k) n) [
  | yes p ↦ omega (arith, mod-eq_of_lt p)
  | no p ↦ omega (
    arith,
    mod-eq-sub-mod {n = s + k} {m = n} (omega arith),
    mod-eq_of_lt {n = s + k - n} {m = n} (omega arith),
  )
]

pub ring_full : (n s : ℕ) → s < n → (s + n) % n ≡ s
ring_full n s hs = grind arith

ring-suc : (n s d : ℕ) → ((s + d) % n + 1) % n ≡ (s + (d + 1)) % n
ring-suc n s d = rw mod-add-mod (ap (λ k. k % n) (omega arith))

module _ (ts : List Task) (count start : ℕ) (in_table : start < count) where
  abbrev pub ready_at : ℕ → Bool
  ready_at d = is_ready (task_at ts ((start + d) % count))

  -- The ready task that is nearest to `start`, going up and round.
  pub record Nearest (r : Search) (d : ℕ) : Type 0 where
    pub within : d < count
    pub result : r ≡ at ((start + d) % count)
    pub picked : ready_at d ≡ true
    pub earlier : (e : ℕ) → e < d → ready_at e ≡ false

  pub record Nobody (r : Search) : Type 0 where
    pub result : r ≡ nobody
    pub none_ready : (e : ℕ) → e < count → ready_at e ≡ false

  round_trip : (d : ℕ) → d + 1 ≡ count → ((start + d) % count + 1) % count ≡ start
  round_trip d e =
      ring-suc count start d ∙ ap (λ n. (start + n) % count) e ∙ ring_full count start in_table

  found :
      (fuel d : ℕ)
      → ready_at d ≡ true
      → d < count
      → ((e : ℕ) → e < d → ready_at e ≡ false)
      → Nearest (find_ready ts count start (suc fuel) ((start + d) % count)) d
  unfolding find_ready
  found fuel d here lt before = record {
    within = lt;
    result = rw here;
    picked = here;
    earlier = before;
  }

  find_ready_from :
      (fuel d : ℕ)
      → suc fuel + d ≡ count
      → ((e : ℕ) → e < d → ready_at e ≡ false)
      → let r = find_ready ts count start (suc fuel) ((start + d) % count) in
        ((d' : ℕ) × Nearest r d') ⊎ Nobody r
  unfolding find_ready
  find_ready_from zero d e before = elim (Bool-cases (ready_at d)) [
    | inl here ↦ inl (d, found zero d here (omega arith) before)
    | inr away ↦
        let back : ((start + d) % count + 1) % count ≡ start = round_trip d (omega arith) in
        inr (record {
          result = rw (away, back, ==_self start);
          none_ready = λ n lt. elim (ℕ_discrete n d) [
            | yes q ↦ ap ready_at q ∙ away
            | no ne ↦ before n (omega arith)
          ];
        })
  ]
  find_ready_from (suc fuel) d e before = elim (Bool-cases (ready_at d)) [
    | inl here ↦ inl (d, found (suc fuel) d here (omega arith) before)
    | inr away ↦
        let ne : (start + (d + 1)) % count ≢ start =
          ring-ne count start (d + 1) in_table (omega arith) (omega arith) in
        rw (away, ring-suc count start d, ==_ne ((start + (d + 1)) % count) start ne)
          (find_ready_from fuel (d + 1) (omega arith) (λ n lt. elim (ℕ_discrete n d) [
            | yes q ↦ ap ready_at q ∙ away
            | no other ↦ before n (omega arith)
          ]))
  ]

-- `count` rounds are enough: the search from `start` finds the nearest ready task, or no task is
-- ready.
pub find_ready_lem :
    (ts : List Task) (count start : ℕ) (in_table : start < count)
    → let r = find_ready ts count start count start in
      ((d : ℕ) × Nearest ts count start in_table r d) ⊎ Nobody ts count start in_table r
find_ready_lem ts zero start in_table = absurd (omega arith)
find_ready_lem ts (suc fuel) start in_table =
    let e : (start + 0) % suc fuel ≡ start = rw add-zero (mod-eq_of_lt in_table) in
    subst
      (λ s.
        let r = find_ready ts (suc fuel) start (suc fuel) s in
        ((d : ℕ) × Nearest ts (suc fuel) start in_table r d)
        ⊎ Nobody ts (suc fuel) start in_table r)
      e
      (find_ready_from ts (suc fuel) start in_table fuel 0 (omega arith)
        (λ n lt. absurd (omega arith)))
