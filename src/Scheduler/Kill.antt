-- ===== src/Scheduler/Kill.antt =====
-- `Scheduler_KillTask`: the slot is dead and its stack page is given back; what follows for the
-- current task.
use uami_os.Base.{
  ℕ, ◌+◌, ◌*◌, ◌/◌, ◌≤◌, ◌<◌, ◌≡◌, refl, sym, ap, subst, ◌∙◌, ◌≢◌, ◌⊎◌, inl, inr, true, false, some,
  arith, leb, ◌==◌, ==_ne, some_inj, length, set, length-set, get_or-set_self, get_or-set_ne, pos,
}
use native.Mathlib.Decide.{ℕ_discrete}
use uami_os.Pmm.{Pmm, null, page_size, max_pages}
use uami_os.Pmm.Bitmap.{is_used}
use uami_os.Pmm.Invariant as PmmValid
use uami_os.Pmm.Invariant.{Changed}
use uami_os.Pmm.Alloc.{free_page-Changed}
use uami_os.Scheduler.{Kernel, Task, ready, running, dead, task_at, kill_task, yield}
use uami_os.Scheduler.Invariant.{IsValid, state_of, state_of-set_self, state_of-set_ne}
use uami_os.Scheduler.Yield.{yield-Marks}

-- Task `i` is dead, owns no stack, and nothing else has changed but the page allocator.
pub record Killed (k : Kernel) (i : ℕ) (k' : Kernel) : Type 0 where
  pub is_dead : state_of k'.tasks i ≡ dead
  pub no_stack : (task_at k'.tasks i).stack ≡ null
  pub others : (j : ℕ) → i ≢ j → task_at k'.tasks j ≡ task_at k.tasks j
  pub counted : k'.task_count ≡ k.task_count
  pub current : k'.current_task ≡ k.current_task

-- A live task's stack page is in use, below the end of the bitmap.
pub record OwnsStack (k : Kernel) (i : ℕ) : Type 0 where
  pub in_range : (task_at k.tasks i).stack < max_pages * page_size
  pub in_use : is_used k.pmm.bitmap ((task_at k.tasks i).stack / page_size) ≡ true

module _ (k : Kernel) (v : IsValid k) (w : PmmValid.IsValid k.pmm) (i : ℕ) where
  killed-IsValid :
      (t' : Task) (p : Pmm)
      → i < length k.tasks
      → t'.state ≡ dead
      → IsValid (record k { tasks = set k.tasks i t'; pmm = p })
  killed-IsValid t' p slot e = record {
    size = length-set k.tasks i t' ∙ v.size;
    room = v.room;
    current = v.current;
    in_use = v.in_use;
    empty = v.empty;
    only = λ j lt r. elim (ℕ_discrete i j) [
      | yes q ↦
          let now : running ≡ dead =
            sym r
            ∙ ap (state_of (set k.tasks i t')) (sym q)
            ∙ state_of-set_self k.tasks i t' slot
            ∙ e in
          cc
      | no ne ↦ v.only j lt (sym (state_of-set_ne k.tasks i t' j ne) ∙ r)
    ];
  }

  -- Killing a task other than the idle one that owns a stack page returns: the task is dead, the
  -- other tasks are as they were, the page alone has become free, and the free counter is one up.
  pub kill_task_lem :
      0 < i
      → i < k.task_count
      → (task_at k.tasks i).stack ≢ null
      → OwnsStack k i
      → (k' : Kernel) × (kill_task (pos i) k ≡ some k')
        × Killed k i k'
        × IsValid k'
        × PmmValid.IsValid k'.pmm
        × Changed k.pmm ((task_at k.tasks i).stack / page_size) false k'.pmm
        × (k'.pmm.free_pages ≡ k.pmm.free_pages + 1)
  unfolding kill_task
  kill_task_lem idle lt some_stack owns =
      let t = task_at k.tasks i in
      let slot : i < length k.tasks = omega (arith, v.size, v.room) in
      let (p, run, w', used, _unused) = free_page-Changed k.pmm t.stack w owns.in_range in
      let (changed, more) = used owns.in_use in
      let t' : Task = record t { state = dead; stack = null } in
      let not_idle : (i == 0) ≡ false = ground arith in
      let in_table : leb k.task_count i ≡ false = ground arith in
      (
        record k { tasks = set k.tasks i t'; pmm = p },
        rw (not_idle, in_table, ==_ne t.stack null some_stack, run),
        record {
          is_dead = state_of-set_self k.tasks i t' slot;
          no_stack = ap (λ t. t.stack) (get_or-set_self k.tasks i t' _ slot);
          others = λ j ne. get_or-set_ne k.tasks i j t' _ ne;
          counted = refl;
          current = refl;
        },
        killed-IsValid t' p slot refl,
        w',
        changed,
        more,
      )

  -- The idle task, and an index outside the table, are left alone.
  pub kill_task_ignored : (i ≡ 0) ⊎ (k.task_count ≤ i) → kill_task (pos i) k ≡ some k
  unfolding kill_task
  kill_task_ignored (inl e) = rw e
  kill_task_ignored (inr out) = ground arith

  -- A task that kills itself comes back: the next successful `Scheduler_Yield` marks it ready or
  -- running again, though its stack pointer is NULL and its page has been given back.
  pub kill_current_revives :
      (k₁ k₂ : Kernel)
      → 0 < i
      → i ≡ k.current_task
      → i < k.task_count
      → (task_at k.tasks i).stack ≢ null
      → OwnsStack k i
      → kill_task (pos i) k ≡ some k₁
      → yield k₁ ≡ some k₂
      → (state_of k₁.tasks i ≡ dead)
        × ((task_at k₁.tasks i).stack ≡ null)
        × ((state_of k₂.tasks i ≡ ready) ⊎ (state_of k₂.tasks i ≡ running))
  kill_current_revives k₁ k₂ idle cur lt some_stack owns killed yielded =
      let (k', run, d, v', _w, _c, _f) = kill_task_lem idle lt some_stack owns in
      let same : k' ≡ k₁ = some_inj (sym run ∙ killed) in
      let d₁ = subst (Killed k i) same d in
      let v₁ = subst IsValid same v' in
      let m = yield-Marks k₁ k₂ v₁ (omega (arith, d₁.counted)) yielded in
      let here : i ≡ k₁.current_task = cur ∙ sym d₁.current in
      (
        d₁.is_dead,
        d₁.no_stack,
        elim (ℕ_discrete k₂.current_task k₁.current_task) [
          | yes q ↦ inr (ap (state_of k₂.tasks) (here ∙ sym q) ∙ m.runs)
          | no ne ↦ inl (ap (state_of k₂.tasks) here ∙ m.gave_up ne)
        ],
      )
