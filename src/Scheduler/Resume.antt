-- ===== src/Scheduler/Resume.antt =====
-- A task that gave up the processor goes on where it stopped.
use uami_os.Base.{ℕ, ◌+◌, ◌^◌, ◌≤◌, ◌<◌, ◌≡◌, ap, ◌∙◌, ◌⊎◌, arith, length, get_or-set_self}
use native.Mathlib.Decide.{dec_le}
use uami_os.Scheduler.{Kernel, Cpu, zero_task, task_at, pushad, switch}
use uami_os.Scheduler.Switch.{Frame, popad_ret-Frame, resumed, pushad-Pushed, pushad-Frame}

-- A frame depends on its nine words alone.
Frame-move :
    {c : Cpu} {sp : ℕ} {m : ℕ → ℕ} (m' : ℕ → ℕ)
    → ((a : ℕ) → sp ≤ a → a < sp + 36 → m' a ≡ m a)
    → Frame c sp m
    → Frame c sp m'
Frame-move {sp} m' same f = record {
  edi = same sp (omega arith) (omega arith) ∙ f.edi;
  esi = same (sp + 4) (omega arith) (omega arith) ∙ f.esi;
  ebp = same (sp + 8) (omega arith) (omega arith) ∙ f.ebp;
  ebx = same (sp + 16) (omega arith) (omega arith) ∙ f.ebx;
  edx = same (sp + 20) (omega arith) (omega arith) ∙ f.edx;
  ecx = same (sp + 24) (omega arith) (omega arith) ∙ f.ecx;
  eax = same (sp + 28) (omega arith) (omega arith) ∙ f.eax;
  eip = same (sp + 32) (omega arith) (omega arith) ∙ f.eip;
  esp = f.esp;
}

-- The stack that is being left has room for a frame, and does not touch the nine words at `sp`.
pub record Apart (c : Cpu) (sp : ℕ) : Type 0 where
  pub fits : 32 ≤ c.esp
  pub small : c.esp + 4 < 2 ^ 32
  pub outside : (c.esp ≤ sp) ⊎ (sp + 68 ≤ c.esp)

-- Switching to a frame in memory gives the state that it stands for.
pub cpu-switch :
    (k : Kernel) (prev sp : ℕ) (c : Cpu)
    → Frame c sp k.memory
    → c.esp < 2 ^ 32
    → Apart k.cpu sp
    → (switch prev sp k).cpu ≡ c
unfolding switch
cpu-switch k prev sp c f small away =
    let p = pushad-Pushed k.cpu k.memory away.fits away.small in
    let m = (pushad k.cpu k.memory).1 in
    popad_ret-Frame c sp m
      (Frame-move m
        (λ a lo hi. elim (dec_le k.cpu.esp a) [
          | yes above ↦ p.above a above
          | no under ↦ p.below a (omega (arith, p.top, away.outside))
        ])
        f)
      small

-- `Scheduler_Switch` away from task `prev` and, at any later time, back to the stack pointer that
-- was saved for it: every register is as at the call, the stack pointer is past the return address,
-- and the processor goes on at that address. In between the nine words of the saved frame have to
-- stay as they are, and the task that is left by the second switch has a stack of its own.
pub switch_back :
    (k k' : Kernel) (prev new_esp other : ℕ)
    → prev < length k.tasks
    → 32 ≤ k.cpu.esp
    → k.cpu.esp + 4 < 2 ^ 32
    → let saved = switch prev new_esp k in
      let sp = (task_at saved.tasks prev).esp in
      ((a : ℕ) → sp ≤ a → a < sp + 36 → k'.memory a ≡ saved.memory a)
      → Apart k'.cpu sp
      → (switch other sp k').cpu ≡ record k.cpu { eip = k.memory k.cpu.esp; esp = k.cpu.esp + 4 }
switch_back k k' prev new_esp other lt fits small same away =
    let at_sp : (task_at (switch prev new_esp k).tasks prev).esp ≡ (pushad k.cpu k.memory).0 =
      unfold switch in ap (λ t. t.esp) (get_or-set_self k.tasks prev _ zero_task lt) in
    let f : Frame (resumed k.cpu k.memory) (task_at (switch prev new_esp k).tasks prev).esp
        (switch prev new_esp k).memory =
      rw at_sp (unfold switch in pushad-Frame k.cpu k.memory fits small) in
    cpu-switch k' other _ (resumed k.cpu k.memory) (Frame-move k'.memory same f) small away
