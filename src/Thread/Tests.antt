-- ===== src/Thread/Tests.antt =====
-- Runs of the thread calls on the table after boot.
use uami_os.Base.{◌≡◌, refl, ◌≢◌, inr, true, false, some, [], ◌∷◌, arith, replicate, pos}
use uami_os.Pmm.Sample.{booted}
use uami_os.Scheduler.{Kernel, zero_task, initialize, copy_name}
use uami_os.Scheduler.Invariant.{IsValid, initialize-IsValid}
use uami_os.Thread.{Round, kill, sleep}
use uami_os.Thread.Ids.{kill_refuses}
use uami_os.Thread.Sleep.{sleep-ne-done}

-- No task yet.
abbrev empty : Kernel
empty = record {
  tasks = replicate 8 zero_task;
  task_count = 0;
  current_task = 0;
  tick_count = 0;
  need_schedule = 0;
  timer_ticks = 0;
  pmm = booted;
  memory = λ a. 0;
  cpu = record {
    eax = 0;
    ecx = 0;
    edx = 0;
    ebx = 0;
    esp = 0x7000;
    ebp = 0;
    esi = 0;
    edi = 0;
    eip = 0;
  };
}

empty-IsValid : IsValid empty
empty-IsValid = unfold initialize in initialize-IsValid empty

kill_refuses_example : kill (pos 3) empty ≡ some (false, empty)
kill_refuses_example = kill_refuses (pos 3) empty (λ i e. inr (omega arith))

abbrev one_task : Kernel
one_task = record empty {
  tasks =
      record zero_task { name = copy_name (b'i' ∷ []) 0 (replicate 32 0) } ∷ replicate 7 zero_task;
  task_count = 1;
}

abbrev a_round : Round
a_round = record { timer_fires = true; others = λ k. k }

sleep-ne-done_example : sleep (a_round ∷ a_round ∷ []) 50 one_task ≢ some (true, one_task)
sleep-ne-done_example =
    sleep-ne-done (a_round ∷ a_round ∷ []) 50 one_task one_task ((λ k. refl), ((λ k. refl), tt))
      (omega arith) (omega arith)
