-- ===== src/Thread.antt =====
-- src/kernel/thread.c over the scheduler, and `timer_handler` of src/kernel/main.c. The log lines
-- are left out.
pub mod Ids
pub mod Sleep
mod Tests
use uami_os.Base.{
  ℕ, ◌-◌, Bool, true, false, ◌||◌, Option, none, some, List, [], ◌∷◌, ltb, leb, ◌==◌, ◌!=◌,
  if◌then◌else◌, ◌>>=◌, c_string, sub_u32, ℤ, pos, negsuc,
}
use uami_os.Scheduler
use uami_os.Scheduler.{Kernel, TaskState, copy_name}

-- `Thread_Create`: the id of the new thread, or -1.
pub create : List ℕ → ℕ → Kernel → Option (ℤ × Kernel)
create name entry k = do
  k' ← Scheduler.create_task name entry k
  some (
    if Scheduler.get_task_count k' == Scheduler.get_task_count k
        then negsuc 0
        else pos (Scheduler.get_task_count k' - 1),
    k',
  )

pub kill : ℤ → Kernel → Option (Bool × Kernel)
kill (negsuc n) k = some (false, k)
kill (pos id) k =
    if id == 0 || leb (Scheduler.get_task_count k) id
    then some (false, k)
    else do k' ← Scheduler.kill_task (pos id) k; some (true, k')

pub yield : Kernel → Option Kernel
yield k = Scheduler.yield (record k { need_schedule = 1 })

-- `timer_handler` of src/kernel/main.c, which is what runs on IRQ 0.
pub timer_handler : Kernel → Kernel
timer_handler k = record k { need_schedule = 1 }

-- What happens around one test of the loop in `Thread_Sleep`: whether the timer interrupts, and what
-- the other threads do to the state if the processor is given up.
pub record Round : Type 0 where
  pub timer_fires : Bool
  pub others : Kernel → Kernel

pub interrupted : Round → Kernel → Kernel
unfolding timer_handler
interrupted r k = if r.timer_fires then timer_handler k else k

-- The loop over the rounds that are given: whether it has ended, and the state.
pub sleep_loop : List Round → ℕ → ℕ → Kernel → Option (Bool × Kernel)
sleep_loop [] ticks start k = some (false, k)
sleep_loop (r ∷ rs) ticks start k =
    let k₁ = interrupted r k in
    let given_up = (do
      k₂ ← Scheduler.yield (record k₁ { need_schedule = 0 })
      sleep_loop rs ticks start (r.others k₂)) in
    let spins = sleep_loop rs ticks start k₁ in
    if ltb (sub_u32 (Scheduler.get_ticks k₁) start) ticks
    then (if k₁.need_schedule != 0 then given_up else spins)
    else some (true, k₁)

pub sleep : List Round → ℕ → Kernel → Option (Bool × Kernel)
sleep rs ticks k = sleep_loop rs ticks (Scheduler.get_ticks k) k

pub get_count : Kernel → ℕ
get_count k = Scheduler.get_task_count k

pub record ThreadInfo : Type 0 where
  pub id : ℕ
  pub name : List ℕ
  pub state : TaskState
  pub schedule_count : ℕ

-- `none` is the false of `Thread_GetInfo`. The name goes through a buffer of 33 bytes, whose
-- contents do not matter, into the 32 bytes of `info`.
pub get_info : ℤ → List ℕ → List ℕ → Kernel → Option ThreadInfo
get_info (negsuc n) buffer info_name k = none
get_info (pos i) buffer info_name k = if leb (Scheduler.get_task_count k) i then none else do
  (name, state, count) ← Scheduler.get_task (pos i) buffer k
  some (record {
    id = i;
    name = copy_name (c_string name) 0 info_name;
    state = state;
    schedule_count = count;
  })
