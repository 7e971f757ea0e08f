-- ===== src/Scheduler/Create.antt =====
-- `Scheduler_CreateTask`: its three outcomes, and how a new task starts.
use uami_os.Base.{
  ℕ, ◌+◌, ◌*◌, ◌^◌, ◌≤◌, ◌<◌, ◌≡◌, refl, sym, ap, subst, ◌∙◌, ◌≢◌, inl, inr, true, false, Option,
  some, List, arith, leb, ◌==◌, Bool-cases, some_inj, length, length-set, get_or-set_self,
  get_or-set_ne, u32,
}
use native.Mathlib.Decide.{ℕ_discrete, dec_lt}
use uami_os.Pmm
use uami_os.Pmm.{page_size, take_page, Pmm, null}
use uami_os.Scheduler.{
  grant_stack, Kernel, ready, Cpu, max_tasks, task_stack_size, zero_task, task_at, first_frame,
  push_words, fill_task, create_task, switch,
}
use uami_os.Pmm.Invariant as PmmValid
use uami_os.Pmm.Alloc.{alloc_page_first_fit}
use uami_os.Scheduler.Invariant.{
  ready-ne-running, IsValid, state_of, state_of-set_self, state_of-set_ne, state_of-set_keep,
}
use uami_os.Scheduler.Switch.{Pushed, push_words-Pushed, Frame}
use uami_os.Scheduler.Resume.{Apart, cpu-switch}

-- The state in which a new task starts: registers zero, at its entry, its stack page empty.
abbrev pub start_state : ℕ → ℕ → Cpu
start_state entry stack = record {
  eax = 0;
  ecx = 0;
  edx = 0;
  ebx = 0;
  esp = stack + task_stack_size;
  ebp = 0;
  esi = 0;
  edi = 0;
  eip = entry;
}

module _ (name : List ℕ) (entry stack : ℕ) (k : Kernel)
    (fits : stack + task_stack_size < 2 ^ 32) where
  top_of_stack : u32 (stack + task_stack_size) ≡ stack + task_stack_size
  top_of_stack = omega arith

  pushed :
      let (sp, m) = push_words (first_frame entry) (u32 (stack + task_stack_size)) k.memory in
      Pushed (first_frame entry) (stack + task_stack_size) k.memory sp m
  pushed =
      rw top_of_stack (
        push_words-Pushed (first_frame entry) (stack + task_stack_size) k.memory (omega arith) fits)

  pub fill_task-Frame :
      k.task_count < length k.tasks
      → Frame
          (start_state entry stack)
          (task_at (fill_task name entry stack k).tasks k.task_count).esp
          (fill_task name entry stack k).memory
  unfolding fill_task
  fill_task-Frame lt =
      let p = pushed in
      let sp = (push_words (first_frame entry) (u32 (stack + task_stack_size)) k.memory).0 in
      let m = (push_words (first_frame entry) (u32 (stack + task_stack_size)) k.memory).1 in
      let top : sp + 36 ≡ stack + task_stack_size = p.top in
      let at_sp : (task_at (fill_task name entry stack k).tasks k.task_count).esp ≡ sp =
        ap (λ t. t.esp) (get_or-set_self k.tasks k.task_count _ zero_task lt) in
      rw at_sp (record {
        edi = ap m (omega (arith, top)) ∙ p.words 8 (omega arith);
        esi = ap m (omega (arith, top)) ∙ p.words 7 (omega arith);
        ebp = ap m (omega (arith, top)) ∙ p.words 6 (omega arith);
        ebx = ap m (omega (arith, top)) ∙ p.words 4 (omega arith);
        edx = ap m (omega (arith, top)) ∙ p.words 3 (omega arith);
        ecx = ap m (omega (arith, top)) ∙ p.words 2 (omega arith);
        eax = ap m (omega (arith, top)) ∙ p.words 1 (omega arith);
        eip = ap m (omega (arith, top)) ∙ p.words 0 (omega arith);
        esp = top;
      })

  slot_in_use : IsValid k → k.current_task < k.task_count + 1
  slot_in_use v = elim (ℕ_discrete k.task_count 0) [
    | yes e ↦ omega (arith, v.empty e)
    | no ne ↦ omega (arith, v.in_use (omega arith))
  ]

  fill_task-IsValid : IsValid k → k.task_count < max_tasks → IsValid (fill_task name entry stack k)
  unfolding fill_task
  fill_task-IsValid v lt = record {
    size = length-set k.tasks k.task_count _ ∙ v.size;
    room = omega arith;
    current = v.current;
    in_use = λ h. slot_in_use v;
    empty = λ h. absurd (omega arith);
    only = λ i below r. elim (ℕ_discrete k.task_count i) [
      | yes q ↦ absurd (
          ready-ne-running (
            sym (state_of-set_self k.tasks k.task_count _ (omega (arith, v.size)))
            ∙ ap (state_of (fill_task name entry stack k).tasks) q
            ∙ r))
      | no ne ↦ v.only i below (sym (state_of-set_ne k.tasks k.task_count _ i ne) ∙ r)
    ];
  }

-- A task was added: there was room in the table, a page was allocated, and the slot after the last
-- is ready on that page, with a frame that starts it at its entry. The other slots and the current
-- task are as they were.
pub record Created (entry : ℕ) (k k' : Kernel) (stack : ℕ) : Type 0 where
  pub room : k.task_count < max_tasks
  pub granted : Pmm.alloc_page k.pmm ≡ some (stack, k'.pmm)
  pub not_null : stack ≢ null
  pub fits : stack + task_stack_size < 2 ^ 32
  pub counted : k'.task_count ≡ k.task_count + 1
  pub current : k'.current_task ≡ k.current_task
  pub is_ready : state_of k'.tasks k.task_count ≡ ready
  pub on_page : (task_at k'.tasks k.task_count).stack ≡ stack
  pub others : (i : ℕ) → k.task_count ≢ i → task_at k'.tasks i ≡ task_at k.tasks i
  pub frame : Frame (start_state entry stack) (task_at k'.tasks k.task_count).esp k'.memory

-- The table is full, and nothing has changed.
pub record TableFull (k k' : Kernel) : Type 0 where
  pub full : max_tasks ≤ k.task_count
  pub same : k' ≡ k

-- There was room in the table, but the allocator gave NULL. The slot's stack pointer is NULL now, and
-- nothing else has changed but the allocator.
pub record NoPage (k k' : Kernel) : Type 0 where
  pub room : k.task_count < max_tasks
  pub refused : Pmm.alloc_page k.pmm ≡ some (null, k'.pmm)
  pub same : k' ≡ grant_stack null k'.pmm k

pub NoPage-task_count : (k k' : Kernel) → NoPage k k' → k'.task_count ≡ k.task_count
NoPage-task_count k k' n = ap (λ x. x.task_count) n.same ∙ (unfold grant_stack in refl)

-- Which of the three it is depends on the table and the allocator alone.
pub data CreateOutcome (entry : ℕ) (k k' : Kernel) : Type 0 where
  created : (stack : ℕ) → Created entry k k' stack → CreateOutcome entry k k'
  table_full : TableFull k k' → CreateOutcome entry k k'
  no_page : NoPage k k' → CreateOutcome entry k k'

module _ (stack : ℕ) (pmm' : Pmm) (k : Kernel) (v : IsValid k)
    (room : k.task_count < max_tasks) where
  grant_stack_states : (i : ℕ) → state_of (grant_stack stack pmm' k).tasks i ≡ state_of k.tasks i
  unfolding grant_stack
  grant_stack_states i = state_of-set_keep k.tasks k.task_count _ (omega (arith, v.size)) refl i

  grant_stack-IsValid : IsValid (grant_stack stack pmm' k)
  unfolding grant_stack
  grant_stack-IsValid = record {
    size = length-set k.tasks k.task_count _ ∙ v.size;
    room = v.room;
    current = v.current;
    in_use = v.in_use;
    empty = v.empty;
    only = λ i lt r. v.only i lt (sym (grant_stack_states i) ∙ r);
  }

  NoPage-left :
      stack ≡ null → Pmm.alloc_page k.pmm ≡ some (stack, pmm') → NoPage k (grant_stack stack pmm' k)
  unfolding grant_stack
  NoPage-left e granted = record {
    room = room;
    refused = granted ∙ ap (λ x. some (x, pmm')) e;
    same = ap (λ x. grant_stack x pmm' k) e;
  }

  module _ (name : List ℕ) (entry : ℕ) (small : stack + task_stack_size < 2 ^ 32) where
    filled-others :
        (i : ℕ)
        → k.task_count ≢ i
        → task_at (fill_task name entry stack (grant_stack stack pmm' k)).tasks i
          ≡ task_at k.tasks i
    unfolding fill_task grant_stack
    filled-others i other =
        get_or-set_ne (grant_stack stack pmm' k).tasks k.task_count i _ zero_task other
        ∙ get_or-set_ne k.tasks k.task_count i _ zero_task other

    filled-Created :
        Pmm.alloc_page k.pmm ≡ some (stack, pmm')
        → stack ≢ null
        → Created entry k (fill_task name entry stack (grant_stack stack pmm' k)) stack
    filled-Created granted ne =
        let k₁ = grant_stack stack pmm' k in
        let v₁ = grant_stack-IsValid in
        let slot : k₁.task_count < length k₁.tasks =
          unfold grant_stack in omega (arith, v.size, length-set k.tasks k.task_count) in
        record {
          room = room;
          granted = unfold fill_task grant_stack in granted;
          not_null = ne;
          fits = small;
          counted = unfold fill_task grant_stack in refl;
          current = unfold fill_task grant_stack in refl;
          on_page =
              unfold fill_task grant_stack in
              ap (λ t. t.stack) (get_or-set_self k₁.tasks k.task_count _ zero_task slot);
          is_ready = unfold fill_task grant_stack in state_of-set_self k₁.tasks k.task_count _ slot;
          others = filled-others;
          frame = unfold grant_stack in fill_task-Frame name entry stack k₁ small slot;
        }

module _ (name : List ℕ) (entry : ℕ) (k : Kernel) (v : IsValid k) (w : PmmValid.IsValid k.pmm) where
  abbrev Outcome : Option Kernel → Type 0
  Outcome r =
      (k' : Kernel) × (r ≡ some k')
      × IsValid k'
      × PmmValid.IsValid k'.pmm
      × CreateOutcome entry k k'

  with_stack :
      (stack : ℕ) (pmm' : Pmm)
      → k.task_count < max_tasks
      → Pmm.alloc_page k.pmm ≡ some (stack, pmm')
      → PmmValid.IsValid pmm'
      → stack + task_stack_size < 2 ^ 32
      → Outcome (create_task name entry k)
  unfolding create_task
  with_stack stack pmm' room granted w' small =
      let k₁ = grant_stack stack pmm' k in
      let v₁ = grant_stack-IsValid stack pmm' k v room in
      let run : Pmm.alloc_page k.pmm ≡ some (stack, pmm') = granted in
      let not_full : leb max_tasks k.task_count ≡ false = ground arith in
      elim (Bool-cases (stack == null)) [
        | inl none_left ↦ (
          k₁,
          rw (not_full, granted, none_left),
          v₁,
          (unfold grant_stack in w'),
          no_page (NoPage-left stack pmm' k v room (ground arith) granted),
        )
        | inr got ↦ (
          fill_task name entry stack k₁,
          rw (not_full, granted, got),
          fill_task-IsValid name entry stack k₁ small v₁ (unfold grant_stack in room),
          (unfold fill_task grant_stack in w'),
          created stack
              (filled-Created stack pmm' k v room name entry small granted (ground arith)),
        )
      ]

  full_table : ¬ (k.task_count < max_tasks) → create_task name entry k ≡ some k
  unfolding create_task
  full_table full = let e : leb max_tasks k.task_count ≡ true = ground arith in rw e

  -- `Scheduler_CreateTask` returns in a valid state, and keeps the invariants of the table and of the
  -- page allocator. With a full table it changes nothing. With room, but NULL from the allocator, it
  -- changes only the allocator and the stack pointer of the slot after the last. With room and a
  -- page, it makes that slot a ready task on the page, with a frame that starts it at its entry with
  -- all registers zero, counts it, and leaves every other slot and the current task as they were.
  pub create_task_lem :
      (k' : Kernel) × (create_task name entry k ≡ some k')
      × IsValid k'
      × PmmValid.IsValid k'.pmm
      × CreateOutcome entry k k'
  create_task_lem = elim (dec_lt k.task_count max_tasks) [
    | no full ↦ (k, full_table full, v, w, table_full (record { full = omega arith; same = refl }))
    | yes room ↦ elim (alloc_page_first_fit k.pmm w) [
      | inl x ↦ with_stack null k.pmm room x.result w (omega arith)
      | inr (p, t) ↦
          with_stack (p * page_size) (take_page k.pmm p) room t.result
            (PmmValid.take_page-IsValid w p t.in_range t.was_free) (omega (arith, t.in_range))
    ]
  ]

  -- A switch to a task that `Scheduler_CreateTask` has just added starts it: all registers zero, the
  -- stack pointer at the top of the page that was allocated, at its entry. The task that is left
  -- has a stack of its own.
  pub create_task_starts :
      (k' : Kernel) (prev : ℕ)
      → create_task name entry k ≡ some k'
      → k'.task_count ≢ k.task_count
      → Apart k'.cpu (task_at k'.tasks k.task_count).esp
      → (stack : ℕ) × (Pmm.alloc_page k.pmm ≡ some (stack, k'.pmm))
        × ((switch prev (task_at k'.tasks k.task_count).esp k').cpu ≡ start_state entry stack)
  create_task_starts k' prev run grown away =
      let (k'', run', v', w', out) = create_task_lem in
      let same : k'' ≡ k' = some_inj (sym run' ∙ run) in
      elim (subst (λ x. CreateOutcome entry k x) same out) [
        | table_full t ↦ absurd (grown (ap (λ x. x.task_count) t.same))
        | no_page n ↦ absurd (grown (NoPage-task_count k k' n))
        | created stack c ↦
            (stack, c.granted, cpu-switch k' prev _ (start_state entry stack) c.frame c.fits away)
      ]
