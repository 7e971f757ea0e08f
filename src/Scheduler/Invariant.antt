-- ===== src/Scheduler/Invariant.antt =====
-- The task table keeps its size, its count and the current index in bounds, and only the current
-- task is ever marked as running.
use uami_os.Base.{
  ℕ, ◌≤◌, ◌<◌, ◌≡◌, refl, sym, ap, subst, ◌∙◌, ◌≢◌, List, arith, length, set, length-set,
  get_or-set_self, get_or-set_ne, get_or-replicate,
}
use native.Mathlib.Decide.{ℕ_discrete}
use uami_os.Scheduler.{
  Kernel, Task, TaskState, ready, running, max_tasks, zero_task, task_at, initialize, switch,
  dispatch, register_idle, release_current,
}

abbrev pub state_of : List Task → ℕ → TaskState
state_of ts i = (task_at ts i).state

abbrev pub NoneRunning : List Task → Type 0
NoneRunning ts = (i : ℕ) → i < max_tasks → state_of ts i ≢ running

pub record IsValid (k : Kernel) : Type 0 where
  pub size : length k.tasks ≡ max_tasks
  pub room : k.task_count ≤ max_tasks
  pub current : k.current_task < max_tasks
  pub in_use : 0 < k.task_count → k.current_task < k.task_count
  pub empty : k.task_count ≡ 0 → k.current_task ≡ 0
  pub only : (i : ℕ) → i < max_tasks → state_of k.tasks i ≡ running → i ≡ k.current_task

module _ (ts : List Task) (i : ℕ) (t : Task) where
  pub state_of-set_self : i < length ts → state_of (set ts i t) i ≡ t.state
  state_of-set_self lt = ap (λ t. t.state) (get_or-set_self ts i t zero_task lt)

  pub state_of-set_ne : (j : ℕ) → i ≢ j → state_of (set ts i t) j ≡ state_of ts j
  state_of-set_ne j ne = ap (λ t. t.state) (get_or-set_ne ts i j t zero_task ne)

  -- A write that keeps the state of its task keeps every state.
  pub state_of-set_keep :
      i < length ts → t.state ≡ state_of ts i → (j : ℕ) → state_of (set ts i t) j ≡ state_of ts j
  state_of-set_keep lt e j = elim (ℕ_discrete i j) [
    | yes q ↦ subst (λ j. state_of (set ts i t) j ≡ state_of ts j) q (state_of-set_self lt ∙ e)
    | no ne ↦ state_of-set_ne j ne
  ]

pub ready-ne-running : ready ≢ running
ready-ne-running e = cc

pub initialize-IsValid : (k : Kernel) → IsValid (initialize k)
unfolding initialize
initialize-IsValid k = record {
  size = refl;
  room = omega arith;
  current = omega arith;
  in_use = λ h. absurd (omega arith);
  empty = λ h. refl;
  only = λ i lt r. absurd (
      ready-ne-running
        (ap (λ t. t.state) (sym (get_or-replicate max_tasks i zero_task zero_task lt)) ∙ r));
}

-- Taking over the boot context as task 0 keeps the invariant, if no other slot is running.
pub register_idle-IsValid :
    (k : Kernel)
    → IsValid k
    → ((i : ℕ) → i < max_tasks → 0 < i → state_of k.tasks i ≢ running)
    → IsValid (register_idle k)
unfolding register_idle
register_idle-IsValid k v others = record {
  size = length-set k.tasks 0 _ ∙ v.size;
  room = omega arith;
  current = omega arith;
  in_use = λ h. omega arith;
  empty = λ h. refl;
  only = λ i lt r. elim (ℕ_discrete i 0) [
    | yes q ↦ q
    | no ne ↦
        absurd
          (others i lt (omega arith) (sym (state_of-set_ne k.tasks 0 _ i (λ e. ne (sym e))) ∙ r))
  ];
}

-- The swap writes the saved stack pointer alone.
pub switch_states :
    (prev esp : ℕ) (k : Kernel)
    → prev < length k.tasks
    → (j : ℕ) → state_of (switch prev esp k).tasks j ≡ state_of k.tasks j
unfolding switch
switch_states prev esp k lt j = state_of-set_keep k.tasks prev _ lt refl j

length-switch : (prev esp : ℕ) (k : Kernel) → length (switch prev esp k).tasks ≡ length k.tasks
unfolding switch
length-switch prev esp k = length-set k.tasks prev _

module _ (next : ℕ) (k : Kernel) (v : IsValid k) (lt : next < k.task_count) where
  pub dispatch_running : state_of (dispatch next k).tasks next ≡ running
  unfolding dispatch
  dispatch_running =
      switch_states _ _ _ (omega (arith, v.size, v.current, length-set k.tasks next)) next
      ∙ state_of-set_self k.tasks next _ (omega (arith, v.size, v.room))

  pub dispatch_others : (j : ℕ) → next ≢ j → state_of (dispatch next k).tasks j ≡ state_of k.tasks j
  unfolding dispatch
  dispatch_others j ne =
      switch_states _ _ _ (omega (arith, v.size, v.current, length-set k.tasks next)) j
      ∙ state_of-set_ne k.tasks next _ j ne

  pub current_task-dispatch : (dispatch next k).current_task ≡ next
  unfolding dispatch switch
  current_task-dispatch = refl

  pub dispatch-IsValid : NoneRunning k.tasks → IsValid (dispatch next k)
  unfolding dispatch switch
  dispatch-IsValid idle = record {
    size = length-set _ k.current_task _ ∙ length-set k.tasks next _ ∙ v.size;
    room = v.room;
    current = omega (arith, v.room);
    in_use = λ h. lt;
    empty = λ h. absurd (omega arith);
    only = λ i below r. elim (ℕ_discrete i next) [
      | yes q ↦ q
      | no ne ↦ absurd (idle i below (sym (dispatch_others i (λ e. ne (sym e))) ∙ r))
    ];
  }

module _ (k : Kernel) (v : IsValid k) where
  pub release_current-ready : state_of (release_current k).tasks k.current_task ≡ ready
  release_current-ready =
      state_of-set_self k.tasks k.current_task _ (omega (arith, v.size, v.current))

  pub release_current-NoneRunning : NoneRunning (release_current k).tasks
  release_current-NoneRunning i lt r = elim (ℕ_discrete k.current_task i) [
    | yes q ↦
        ready-ne-running (sym release_current-ready ∙ ap (state_of (release_current k).tasks) q ∙ r)
    | no ne ↦ ne (sym (v.only i lt (sym (state_of-set_ne k.tasks k.current_task _ i ne) ∙ r)))
  ]

  pub release_current-IsValid : IsValid (release_current k)
  release_current-IsValid = record {
    size = length-set k.tasks k.current_task _ ∙ v.size;
    room = v.room;
    current = v.current;
    in_use = v.in_use;
    empty = v.empty;
    only = λ i lt r. absurd (release_current-NoneRunning i lt r);
  }
