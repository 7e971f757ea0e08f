-- ===== src/Scheduler/Tick.antt =====
-- `Scheduler_Tick`: counting, and the switch at the end of a time slice.
use uami_os.Base.{
  ℕ, ◌+◌, ◌≤◌, ◌<◌, ◌≡◌, refl, ◌≢◌, inl, inr, some, arith, ltb, ◌==◌, if◌then◌else◌, ltb→lt, lt→ltb,
  ==_ne, Bool-cases, u32,
}
use uami_os.Scheduler.{
  switch, Kernel, scheduler_ticks, release_current, search, dispatch, slice_end, tick,
}
use uami_os.Scheduler.Invariant.{
  IsValid, release_current-IsValid, dispatch-IsValid, release_current-NoneRunning,
  current_task-dispatch,
}
use uami_os.Scheduler.Yield.{after_current, Chosen, chosen, Marks, dispatch-Marks}

-- Before the end of the time slice `Scheduler_Tick` only counts.
pub tick_early :
    (k : Kernel)
    → 0 < k.task_count
    → k.tick_count + 1 < scheduler_ticks
    → tick k
      ≡ some (record k { timer_ticks = u32 (k.timer_ticks + 1); tick_count = k.tick_count + 1 })
unfolding tick
tick_early k some_task early =
    rw (==_ne k.task_count 0 (omega arith), lt→ltb (k.tick_count + 1) scheduler_ticks early)

module _ (k : Kernel) (v : IsValid k) (some_task : 0 < k.task_count) where
  -- At the end of a time slice the choice is that of `Scheduler_Yield`, but a task that is chosen
  -- again is left as it is, ready, with no switch.
  pub slice_end_lem :
      (d : ℕ) × Chosen (release_current k) d
      × (slice_end k
          ≡ some (
              if after_current k d == k.current_task
              then release_current k
              else dispatch (after_current k d) (release_current k)))
  unfolding slice_end
  slice_end_lem = let (d, c) = chosen k v some_task in (d, c, rw (c.found, slice_end))

-- The counters are no part of the invariant.
counters-IsValid :
    (t c : ℕ) (k : Kernel) → IsValid k → IsValid (record k { timer_ticks = t; tick_count = c })
counters-IsValid t c k v = record {
  size = v.size;
  room = v.room;
  current = v.current;
  in_use = v.in_use;
  empty = v.empty;
  only = v.only;
}

abbrev restart : Kernel → Kernel
restart k = record k { timer_ticks = u32 (k.timer_ticks + 1); tick_count = 0 }

-- The end of a time slice in state `k`, where the search passes over `d` tasks: the time is one up
-- and the slice counter at zero. If the task found is the current one there is no switch, and the
-- current task is left ready; else the task found becomes the current one.
pub record SliceEnded (k k' : Kernel) (d : ℕ) : Type 0 where
  pub choice : Chosen (release_current k) d
  pub stays : after_current k d ≡ k.current_task → k' ≡ release_current (restart k)
  pub switches :
      after_current k d ≢ k.current_task
      → (k' ≡ dispatch (after_current k d) (release_current (restart k)))
        × (k'.current_task ≡ after_current k d)
        × Marks k k'
  pub time : k'.timer_ticks ≡ u32 (k.timer_ticks + 1)
  pub reset : k'.tick_count ≡ 0

-- What a tick does, by the number of tasks and the slice counter.
pub record Ticked (k k' : Kernel) : Type 0 where
  pub valid : IsValid k'
  pub slice : k'.tick_count < scheduler_ticks
  pub no_task : k.task_count ≡ 0 → k' ≡ k
  pub counts :
      0 < k.task_count
      → k.tick_count + 1 < scheduler_ticks
      → k' ≡ record k { timer_ticks = u32 (k.timer_ticks + 1); tick_count = k.tick_count + 1 }
  pub ends : 0 < k.task_count → scheduler_ticks ≤ k.tick_count + 1 → (d : ℕ) × SliceEnded k k' d

-- The counters play no part in the choice, nor in the marks.
Chosen-restart :
    (k : Kernel) (d : ℕ) → Chosen (release_current (restart k)) d → Chosen (release_current k) d
unfolding search
Chosen-restart k d c = record {
  within = c.within;
  found = c.found;
  picked = c.picked;
  passed_over = c.passed_over;
}

Marks-restart : (k k' : Kernel) → Marks (restart k) k' → Marks k k'
Marks-restart k k' m = record {
  runs = m.runs;
  only = m.only;
  gave_up = m.gave_up;
  others = m.others;
}

module _ (k : Kernel) (v : IsValid k) (some_task : 0 < k.task_count) where
  restarted : IsValid (restart k)
  restarted = counters-IsValid _ _ k v

  slice_end-SliceEnded :
      (k' : Kernel) × (d : ℕ) × (slice_end (restart k) ≡ some k') × IsValid k' × SliceEnded k k' d
  slice_end-SliceEnded =
      let (d, c, run) = slice_end_lem (restart k) restarted some_task in
      let next = after_current k d in
      let k₁ = release_current (restart k) in
      let u = release_current-IsValid (restart k) restarted in
      let within : next < k.task_count = omega (arith, c.within) in
      elim (Bool-cases (next == k.current_task)) [
        | inl same ↦ (
          k₁,
          d,
          rw same at run,
          u,
          record {
            choice = Chosen-restart k d c;
            stays = λ e. refl;
            switches = λ ne. absurd (ne (ground arith));
            time = refl;
            reset = refl;
          },
        )
        | inr other ↦ (
          dispatch next k₁,
          d,
          rw other at run,
          dispatch-IsValid next k₁ u within (release_current-NoneRunning (restart k) restarted),
          record {
            choice = Chosen-restart k d c;
            stays = λ e. absurd (ground arith);
            switches = λ ne. (
              refl,
              current_task-dispatch next k₁ u within,
              Marks-restart k _ (dispatch-Marks (restart k) restarted next within),
            );
            time = unfold dispatch switch in refl;
            reset = unfold dispatch switch in refl;
          },
        )
      ]

-- In a valid state, with the slice counter below its limit, `Scheduler_Tick` returns in such a state.
-- With no task nothing changes. Else the time goes up by one, as a number of 32 bits. Before the end
-- of the time slice the slice counter goes up by one too, and nothing else changes. At its end the
-- slice counter goes to zero, and the first ready task after the current one, going up and round, is
-- found: if that is the current task itself there is no switch, and the task is left ready; else it
-- is switched to, and the tasks are marked as after a switch.
pub tick-Ticked :
    (k : Kernel)
    → IsValid k
    → k.tick_count < scheduler_ticks
    → (k' : Kernel) × (tick k ≡ some k') × Ticked k k'
unfolding tick
tick-Ticked k v small = elim (Bool-cases (k.task_count == 0)) [
  | inl empty ↦
      let e : k.task_count ≡ 0 = ground arith in
      (
        k,
        rw empty,
        record {
          valid = v;
          slice = small;
          no_task = λ z. refl;
          counts = λ h below. absurd (omega arith);
          ends = λ h above. absurd (omega arith);
        },
      )
  | inr more ↦
      let some_task : 0 < k.task_count = ground arith in
      elim (Bool-cases (ltb (k.tick_count + 1) scheduler_ticks)) [
        | inl early ↦ (
          record k { timer_ticks = u32 (k.timer_ticks + 1); tick_count = k.tick_count + 1 },
          rw (more, early),
          record {
            valid = counters-IsValid _ _ k v;
            slice = ltb→lt (k.tick_count + 1) scheduler_ticks early;
            no_task = λ z. absurd (omega arith);
            counts = λ h below. refl;
            ends =
                λ h above. absurd (omega (arith, ltb→lt (k.tick_count + 1) scheduler_ticks early));
          },
        )
        | inr late ↦
            let (k', d, run, w, ended) = slice_end-SliceEnded k v some_task in
            (
              k',
              rw (more, late) run,
              record {
                valid = w;
                slice = omega (arith, ended.reset);
                no_task = λ z. absurd (omega arith);
                counts = λ h below. absurd (ground (arith, lt→ltb _ _ below));
                ends = λ h above. (d, ended);
              },
            )
      ]
]
