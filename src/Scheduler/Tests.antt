-- ===== src/Scheduler/Tests.antt =====
-- Runs of the scheduler with two and three tasks.

use uami_os.Base.{
  ℕ, zero, suc, ◌+◌, ◌<◌, ◌≡◌, refl, sym, ap, ◌∙◌, ◌≢◌, ◌⊎◌, inr, false, some, [], ◌∷◌, arith,
  replicate, get_or-replicate, pos,
}
use native.Mathlib.Decide.{ℕ_discrete}
use uami_os.Scheduler.Create.{create_task_starts, start_state, CreateOutcome, create_task_lem}
use uami_os.Pmm
use uami_os.Pmm.{null, take_page}
use uami_os.Pmm.Invariant as PmmValid
use uami_os.Pmm.Invariant.{Changed}
use uami_os.Pmm.Sample.{booted, booted-IsValid, page_two_used, alloc_page-booted}
use uami_os.Scheduler.{
  fill_task, grant_stack, pushad, push_words, Kernel, Task, ready, running, dead, Cpu, max_tasks,
  zero_task, task_at, create_task, kill_task, yield, tick, switch, dispatch, release_current,
  search, find_ready,
}
use uami_os.Scheduler.Invariant.{IsValid, state_of}
use uami_os.Scheduler.Resume.{switch_back}
use uami_os.Scheduler.Yield.{after_current, Chosen, Marks, yield-Chosen, yield-Marks}
use uami_os.Scheduler.Alone.{Alone, yield-Alone}
use uami_os.Scheduler.Tick.{Ticked, tick-Ticked}
use uami_os.Scheduler.Kill.{Killed, OwnsStack, kill_task_lem, kill_current_revives}

abbrev idle_task : Task
idle_task = record zero_task { esp = 0x9000 }

abbrev shell_task : Task
shell_task = record zero_task { esp = 0x2F00; stack = 0x2000; state = running; schedule_count = 3 }

abbrev processor : Cpu
processor = record {
  eax = 1;
  ecx = 2;
  edx = 3;
  ebx = 4;
  esp = 0x5000;
  ebp = 5;
  esi = 6;
  edi = 7;
  eip = 8;
}

-- The shell is running, and the idle task waits.
abbrev two_tasks : Kernel
two_tasks = record {
  tasks = idle_task ∷ shell_task ∷ replicate 6 zero_task;
  task_count = 2;
  current_task = 1;
  tick_count = 499;
  need_schedule = 0;
  timer_ticks = 7;
  pmm = booted;
  memory = λ a. a + 1;
  cpu = processor;
}

not_running : (i : ℕ) → i ≢ 1 → i < max_tasks → state_of two_tasks.tasks i ≢ running
not_running zero ne lt h = cc
not_running (suc zero) ne lt h = absurd (ne refl)
not_running (suc (suc i)) ne lt h =
    let e : state_of (replicate 6 zero_task) i ≡ ready =
      ap (λ t. t.state) (get_or-replicate 6 i zero_task zero_task (omega arith)) in
    let f : ready ≡ running = sym e ∙ h in cc

two_tasks-IsValid : IsValid two_tasks
two_tasks-IsValid = record {
  size = refl;
  room = omega arith;
  current = omega arith;
  in_use = λ h. omega arith;
  empty = λ h. absurd (omega arith);
  only = λ i lt r. elim (ℕ_discrete i 1) [ yes e ↦ e | no ne ↦ absurd (not_running i ne lt r) ];
}

yield-Chosen_example :
    (d : ℕ) × Chosen (release_current two_tasks) d
    × (yield two_tasks ≡ some (dispatch (after_current two_tasks d) (release_current two_tasks)))
    × IsValid (dispatch (after_current two_tasks d) (release_current two_tasks))
yield-Chosen_example = yield-Chosen two_tasks two_tasks-IsValid (omega arith)

yielded : Kernel
yielded = dispatch 0 (release_current two_tasks)

yield_to_idle : yield two_tasks ≡ some yielded
unfolding yield yielded search find_ready
yield_to_idle = refl

yield-Marks_example : Marks two_tasks yielded
yield-Marks_example = yield-Marks two_tasks yielded two_tasks-IsValid (omega arith) yield_to_idle

tick-Ticked_example : (k' : Kernel) × (tick two_tasks ≡ some k') × Ticked two_tasks k'
tick-Ticked_example = tick-Ticked two_tasks two_tasks-IsValid (omega arith)

abbrev elsewhere : Kernel
elsewhere = record two_tasks {
  cpu = record processor { esp = 0x9000 };
  memory = (switch 1 0x9000 two_tasks).memory;
}

saved_at : (task_at (switch 1 0x9000 two_tasks).tasks 1).esp ≡ 0x4FE0
unfolding switch pushad push_words
saved_at = refl

switch_back_example :
    (switch 0 (task_at (switch 1 0x9000 two_tasks).tasks 1).esp elsewhere).cpu
    ≡ record processor { eip = 0x5001; esp = 0x5004 }
switch_back_example =
    switch_back two_tasks elsewhere 1 0x9000 0 (omega arith) (omega arith) (omega arith)
      (λ a lo hi. refl)
      (record { fits = omega arith; small = omega arith; outside = inr (omega (arith, saved_at)) })

create_task_lem_example :
    (k' : Kernel) × (create_task (b'a' ∷ []) 0x100000 two_tasks ≡ some k')
    × IsValid k'
    × PmmValid.IsValid k'.pmm
    × CreateOutcome 0x100000 two_tasks k'
create_task_lem_example =
    create_task_lem (b'a' ∷ []) 0x100000 two_tasks two_tasks-IsValid booted-IsValid

shell-OwnsStack : OwnsStack two_tasks 1
shell-OwnsStack = record { in_range = omega arith; in_use = page_two_used }

kill_task_lem_example :
    (k' : Kernel) × (kill_task (pos 1) two_tasks ≡ some k')
    × Killed two_tasks 1 k'
    × IsValid k'
    × PmmValid.IsValid k'.pmm
    × Changed booted 2 false k'.pmm
    × (k'.pmm.free_pages ≡ booted.free_pages + 1)
kill_task_lem_example =
    kill_task_lem two_tasks two_tasks-IsValid booted-IsValid 1 (omega arith) (omega arith)
      (λ e. absurd (omega arith)) shell-OwnsStack

-- The shell kills itself, and the idle task gets the processor.
killed :
    (k' : Kernel) × (kill_task (pos 1) two_tasks ≡ some k') × Killed two_tasks 1 k' × IsValid k'
killed =
    let (k', run, d, v, _w, _c, _f) =
      kill_task_lem two_tasks two_tasks-IsValid booted-IsValid 1 (omega arith) (omega arith)
        (λ e. absurd (omega arith)) shell-OwnsStack in
    (k', run, d, v)

after_kill : (k'' : Kernel) × (yield killed.0 ≡ some k'')
after_kill =
    let (d, c, run, w) = yield-Chosen killed.0 killed.3 (omega (arith, killed.2.counted)) in
    (dispatch (after_current killed.0 d) (release_current killed.0), run)

kill_current_revives_example :
    (state_of killed.0.tasks 1 ≡ dead)
    × ((task_at killed.0.tasks 1).stack ≡ null)
    × ((state_of after_kill.0.tasks 1 ≡ ready) ⊎ (state_of after_kill.0.tasks 1 ≡ running))
kill_current_revives_example =
    kill_current_revives two_tasks two_tasks-IsValid booted-IsValid 1 killed.0 after_kill.0
      (omega arith) refl (omega arith) (λ e. absurd (omega arith)) shell-OwnsStack killed.1
      after_kill.1

-- The idle task is dead as far as the choice goes.
abbrev lone_task : Kernel
lone_task = record two_tasks {
  tasks = record idle_task { state = dead } ∷ shell_task ∷ replicate 6 zero_task;
}

lone_task-IsValid : IsValid lone_task
lone_task-IsValid = record {
  size = refl;
  room = omega arith;
  current = omega arith;
  in_use = λ h. omega arith;
  empty = λ h. absurd (omega arith);
  only = λ i lt r. elim (ℕ_discrete i 1) [ yes e ↦ e | no ne ↦ absurd (none_else i ne lt r) ];
}
  where
    none_else : (i : ℕ) → i ≢ 1 → i < max_tasks → state_of lone_task.tasks i ≢ running
    none_else zero ne lt h = cc
    none_else (suc zero) ne lt h = absurd (ne refl)
    none_else (suc (suc i)) ne lt h = not_running (suc (suc i)) ne lt h

yield-Alone_example :
    (k' : Kernel) × (yield lone_task ≡ some k') × (k'.current_task ≡ 1) × (k'.cpu.esp ≡ 0x2F24)
yield-Alone_example = yield-Alone lone_task lone_task-IsValid (omega arith) alone
  where
    alone : Alone lone_task
    alone zero lt ne = refl
    alone (suc zero) lt ne = absurd (ne refl)
    alone (suc (suc i)) lt ne = absurd (omega arith)

with_demo : Kernel
with_demo =
    fill_task (b'a' ∷ []) 0x100000 0x1000 (grant_stack 0x1000 (take_page booted 1) two_tasks)

demo_created : create_task (b'a' ∷ []) 0x100000 two_tasks ≡ some with_demo
unfolding create_task with_demo
demo_created = rw alloc_page-booted

demo_esp : (task_at with_demo.tasks 2).esp ≡ 0x1FDC
unfolding with_demo fill_task grant_stack push_words
demo_esp = refl

create_task_starts_example :
    (stack : ℕ) × (Pmm.alloc_page booted ≡ some (stack, with_demo.pmm))
    × ((switch 1 (task_at with_demo.tasks 2).esp with_demo).cpu ≡ start_state 0x100000 stack)
create_task_starts_example =
    create_task_starts (b'a' ∷ []) 0x100000 two_tasks two_tasks-IsValid booted-IsValid with_demo 1
      demo_created (unfold with_demo fill_task grant_stack in (λ e. absurd (omega arith)))
      (record {
        fits = unfold with_demo fill_task grant_stack in omega arith;
        small = unfold with_demo fill_task grant_stack in omega arith;
        outside = inr (unfold with_demo fill_task grant_stack push_words in omega arith);
      })
