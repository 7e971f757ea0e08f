-- ===== src/Scheduler/Yield.antt =====
-- `Scheduler_Yield` and `Scheduler_Tick`: which task runs next.
use uami_os.Base.{
  ℕ, ◌+◌, ◌-◌, ◌%◌, ◌<◌, ◌≡◌, refl, sym, ap, subst, ◌∙◌, ◌≢◌, inl, inr, true, false, Option, none,
  some, arith, ◌==◌, ==_ne, Bool-cases, some_inj, get_or-set_self,
}
use uami_os.Scheduler.{
  Search, at, nobody, out_of_fuel, switch, ready, max_tasks, running, Kernel, task_at, is_ready,
  release_current, search, dispatch, yield,
}
use uami_os.Scheduler.Invariant.{
  state_of-set_ne, release_current-ready, state_of, release_current-NoneRunning, dispatch_running,
  dispatch_others, current_task-dispatch, IsValid, release_current-IsValid, dispatch-IsValid,
}
use mathlib.Core.Bool.{false≢true}
use native.Mathlib.Nat.{mod-add-mod}
use uami_os.Scheduler.RoundRobin.{find_ready_lem, ring_full}

-- The task `d` places after the one that follows the current.
abbrev pub after_current : Kernel → ℕ → ℕ
after_current k d = ((k.current_task + 1) % k.task_count + d) % k.task_count

-- `d` is the number of tasks passed over: the first ready one, after the current task was marked
-- ready itself.
pub record Chosen (k : Kernel) (d : ℕ) : Type 0 where
  pub within : d < k.task_count
  pub found : search k ≡ at (after_current k d)
  pub picked : is_ready (task_at k.tasks (after_current k d)) ≡ true
  pub passed_over : (e : ℕ) → e < d → is_ready (task_at k.tasks (after_current k e)) ≡ false

module _ (k : Kernel) (v : IsValid k) (some_task : 0 < k.task_count) where
  in_table : (k.current_task + 1) % k.task_count < k.task_count
  in_table = omega arith

  current_released : is_ready (task_at (release_current k).tasks k.current_task) ≡ true
  current_released =
      ap is_ready (get_or-set_self k.tasks k.current_task _ _ (omega (arith, v.size, v.current)))

  last-eq-current : after_current k (k.task_count - 1) ≡ k.current_task
  last-eq-current = rw mod-add-mod (
      ap (λ n. n % k.task_count) (omega arith)
      ∙ ring_full k.task_count k.current_task (v.in_use some_task))

  -- The search never fails, since the current task is ready.
  pub chosen : (d : ℕ) × Chosen (release_current k) d
  unfolding search
  chosen =
      elim (find_ready_lem (release_current k).tasks k.task_count
        ((k.current_task + 1) % k.task_count) in_table) [
          | inl (d, n) ↦ (
            d,
            record {
              within = n.within;
              found = n.result;
              picked = n.picked;
              passed_over = n.earlier;
            },
          )
          | inr no_one ↦ absurd (
              false≢true (
                sym (no_one.none_ready (k.task_count - 1) (omega arith))
                ∙ ap (λ n. is_ready (task_at (release_current k).tasks n)) last-eq-current
                ∙ current_released))
        ]

-- With a task in the table `Scheduler_Yield` returns: it dispatches the first ready task after the
-- current one, going up and round, and keeps the invariant.
pub yield-Chosen :
    (k : Kernel)
    → IsValid k
    → 0 < k.task_count
    → (d : ℕ) × Chosen (release_current k) d
      × (yield k ≡ some (dispatch (after_current k d) (release_current k)))
      × IsValid (dispatch (after_current k d) (release_current k))
unfolding yield
yield-Chosen k v some_task =
    let (d, c) = chosen k v some_task in
    (
      d,
      c,
      rw (==_ne k.task_count 0 (omega arith), c.found),
      dispatch-IsValid (after_current k d) (release_current k) (release_current-IsValid k v)
          (omega arith) (release_current-NoneRunning k v),
    )

-- With no task in the table the remainder is by zero.
pub yield_empty : (k : Kernel) → k.task_count ≡ 0 → yield k ≡ none
unfolding yield
yield_empty k e = rw (e)

-- The marks of the tasks after a switch: the current task is marked running and is the only one;
-- the task that gave up the processor is ready, unless it was chosen again; every other mark is as
-- it was.
pub record Marks (k k' : Kernel) : Type 0 where
  pub runs : state_of k'.tasks k'.current_task ≡ running
  pub only : (i : ℕ) → i < max_tasks → state_of k'.tasks i ≡ running → i ≡ k'.current_task
  pub gave_up : k'.current_task ≢ k.current_task → state_of k'.tasks k.current_task ≡ ready
  pub others :
      (i : ℕ) → k.current_task ≢ i → k'.current_task ≢ i → state_of k'.tasks i ≡ state_of k.tasks i

module _ (k : Kernel) (v : IsValid k) (next : ℕ) (lt : next < k.task_count) where
  pub dispatch-Marks : Marks k (dispatch next (release_current k))
  dispatch-Marks =
      let k₁ = release_current k in
      let u = release_current-IsValid k v in
      let cur = current_task-dispatch next k₁ u lt in
      record {
        runs = ap (state_of (dispatch next k₁).tasks) cur ∙ dispatch_running next k₁ u lt;
        only = (dispatch-IsValid next k₁ u lt (release_current-NoneRunning k v)).only;
        gave_up = λ ne.
            dispatch_others next k₁ u lt k.current_task (λ e. ne (cur ∙ e))
            ∙ release_current-ready k v;
        others = λ i ne ne'.
            dispatch_others next k₁ u lt i (λ e. ne' (cur ∙ e))
            ∙ state_of-set_ne k.tasks k.current_task _ i ne;
      }

-- After a successful `Scheduler_Yield` in a valid state the current task is marked running and is
-- the only one; the task that gave up the processor is ready, unless it was chosen again; every
-- other mark is as it was.
pub yield-Marks : (k k' : Kernel) → IsValid k → 0 < k.task_count → yield k ≡ some k' → Marks k k'
yield-Marks k k' v some_task e =
    let (d, c, run, w) = yield-Chosen k v some_task in
    let same : ◌≡◌ {A = Option Kernel} (some (dispatch (after_current k d) (release_current k)))
        (some k') =
      sym run ∙ e in
    subst (Marks k) (some_inj same) (dispatch-Marks k v (after_current k d) (omega arith))

timer_ticks-dispatch : (next : ℕ) (k : Kernel) → (dispatch next k).timer_ticks ≡ k.timer_ticks
unfolding dispatch switch
timer_ticks-dispatch next k = refl

-- `Scheduler_Yield` does not move the time.
pub timer_ticks-yield : (k k' : Kernel) → yield k ≡ some k' → k'.timer_ticks ≡ k.timer_ticks
unfolding yield
timer_ticks-yield k k' e = elim (Bool-cases (k.task_count == 0)) [
  | inl z ↦ let f : ◌≡◌ {A = Option Kernel} none (some k') = rw z at e in cc
  | inr nz ↦ after (search (release_current k)) (rw nz at e)
]
  where
    after :
        (f : Search)
        → elim f [
          | at next ↦ some (dispatch next (release_current k))
          | nobody ↦ some (release_current k)
          | out_of_fuel ↦ none
        ]
          ≡ some k'
        → k'.timer_ticks ≡ k.timer_ticks
    after (at next) h =
        ap (λ k. k.timer_ticks) (sym (some_inj h)) ∙ timer_ticks-dispatch next (release_current k)
    after nobody h = ap (λ k. k.timer_ticks) (sym (some_inj h))
    after out_of_fuel h = cc
