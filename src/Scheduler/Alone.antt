-- ===== src/Scheduler/Alone.antt =====
-- `Scheduler_Yield` when no other task is ready.
use uami_os.Base.{
  ℕ, ◌+◌, ◌<◌, ◌≡◌, refl, sym, ap, ◌∙◌, ◌≢◌, false, some, arith, get_or-set_self, get_or-set_ne,
  u32,
}
use native.Mathlib.Decide.{ℕ_discrete}
use uami_os.Scheduler.{
  zero_task, Kernel, task_at, is_ready, release_current, dispatch, switch, popad_ret, yield,
}
use uami_os.Scheduler.Invariant.{IsValid}
use mathlib.Core.Bool.{false≢true}
use uami_os.Scheduler.Yield.{after_current, yield-Chosen}

esp-dispatch :
    (next : ℕ) (k : Kernel) → (dispatch next k).cpu.esp ≡ u32 ((task_at k.tasks next).esp + 36)
unfolding dispatch switch popad_ret
esp-dispatch next k = refl

dispatch_goes : (next : ℕ) (k : Kernel) → (dispatch next k).current_task ≡ next
unfolding dispatch switch
dispatch_goes next k = refl

-- No task but the current one is ready.
abbrev pub Alone : Kernel → Type 0
Alone k = (i : ℕ) → i < k.task_count → i ≢ k.current_task → is_ready (task_at k.tasks i) ≡ false

-- `Scheduler_Yield` in a valid state where no other task is ready returns, and has switched the
-- current task to itself, with the stack pointer that was saved when it last gave up the
-- processor: after `popad; ret` the stack pointer is 36 above that one, whatever it was
-- at the call.
pub yield-Alone :
    (k : Kernel)
    → IsValid k
    → 0 < k.task_count
    → Alone k
    → (k' : Kernel) × (yield k ≡ some k')
      × (k'.current_task ≡ k.current_task)
      × (k'.cpu.esp ≡ u32 ((task_at k.tasks k.current_task).esp + 36))
yield-Alone k v some_task alone =
    let (d, c, run, w) = yield-Chosen k v some_task in
    let next = after_current k d in
    let r = release_current k in
    let stays : next ≡ k.current_task = elim (ℕ_discrete next k.current_task) [
      | yes e ↦ e
      | no ne ↦ absurd (
          false≢true (
            sym (alone next (omega (arith, c.within)) ne)
            ∙ ap is_ready
                (sym (get_or-set_ne k.tasks k.current_task next _ zero_task (λ e. ne (sym e))))
            ∙ c.picked))
    ] in
    let kept : (task_at r.tasks next).esp ≡ (task_at k.tasks k.current_task).esp =
      ap (λ i. (task_at r.tasks i).esp) stays
      ∙ ap (λ t. t.esp)
          (get_or-set_self k.tasks k.current_task _ zero_task (omega (arith, v.size, v.current))) in
    (
      dispatch next r,
      run,
      dispatch_goes next r ∙ stays,
      esp-dispatch next r ∙ ap (λ e. u32 (e + 36)) kept,
    )
