-- ===== src/Scheduler.antt =====
-- src/kernel/scheduler.c and scheduler_asm.asm: the task table, the choice of the next task, and
-- the register swap. `none` stands for what C leaves undefined (a remainder by zero, an access
-- outside the task table or the page bitmap) and for a search that ran out of fuel. Memory is read
-- and written in words at addresses of one alignment. The log lines are left out.
pub mod RoundRobin
pub mod Invariant
pub mod Switch
pub mod Resume
pub mod Create
pub mod Yield
pub mod Alone
pub mod Tick
pub mod Kill
mod Tests
pub mod Name
use uami_os.Base.{
  ℕ, zero, suc, ◌+◌, ◌%◌, Bool, true, false, ◌||◌, Option, none, some, List, [], ◌∷◌, ltb, leb,
  ◌==◌, if◌then◌else◌, ◌>>=◌, get_or, set, replicate, c_string, u32, sub_u32, ℤ, pos, negsuc,
}
use uami_os.Pmm
use uami_os.Pmm.{Pmm, null}

abbrev pub max_tasks : ℕ
max_tasks = 8

abbrev pub task_stack_size : ℕ
task_stack_size = 4096

-- How many timer ticks between context switches.
abbrev pub scheduler_ticks : ℕ
scheduler_ticks = 500

pub data TaskState : Type 0 where
  ready running dead : TaskState

pub record Task : Type 0 where
  pub esp : ℕ
  pub stack : ℕ
  pub state : TaskState
  pub name : List ℕ
  pub schedule_count : ℕ

-- The registers that a switch saves, and where the processor goes on.
pub record Cpu : Type 0 where
  pub eax : ℕ
  pub ecx : ℕ
  pub edx : ℕ
  pub ebx : ℕ
  pub esp : ℕ
  pub ebp : ℕ
  pub esi : ℕ
  pub edi : ℕ
  pub eip : ℕ

-- The globals of the scheduler, the page allocator that it calls, memory and the processor.
pub record Kernel : Type 0 where
  pub tasks : List Task
  pub task_count : ℕ
  pub current_task : ℕ
  pub tick_count : ℕ
  pub need_schedule : ℕ
  pub timer_ticks : ℕ
  pub pmm : Pmm
  pub memory : ℕ → ℕ
  pub cpu : Cpu

-- A task of all zero bytes; `TASK_READY` is 0.
abbrev pub zero_task : Task
zero_task = record {
  esp = 0;
  stack = null;
  state = ready;
  name = replicate 32 0;
  schedule_count = 0;
}

abbrev pub task_at : List Task → ℕ → Task
task_at ts i = get_or ts i zero_task

abbrev pub set_state : List Task → ℕ → TaskState → List Task
set_state ts i st = set ts i (record (task_at ts i) { state = st })

abbrev pub is_ready : Task → Bool
is_ready t = elim t.state [ ready ↦ true | _ ↦ false ]

unfoldable pub initialize : Kernel → Kernel
initialize k = record k {
  tasks = replicate max_tasks zero_task;
  task_count = 0;
  current_task = 0;
  tick_count = 0;
}

-- `while (name[i] && i < 31) dst[i] = name[i++]; dst[i] = '\0';` The list is `name + i` up to its
-- terminator, which no byte of it is.
pub copy_name : List ℕ → ℕ → List ℕ → List ℕ
copy_name [] i dst = set dst i 0
copy_name (c ∷ cs) i dst =
    let rest = copy_name cs (i + 1) (set dst i c) in if ltb i 31 then rest else set dst i 0

abbrev pub store : (ℕ → ℕ) → ℕ → ℕ → ℕ → ℕ
store memory a v b = if b == a then v else memory b

-- `*--sp = v` for each `v` in turn.
pub push_words : List ℕ → ℕ → (ℕ → ℕ) → ℕ × (ℕ → ℕ)
push_words [] sp memory = (sp, memory)
push_words (v ∷ vs) sp memory = push_words vs (sub_u32 sp 4) (store memory (sub_u32 sp 4) v)

-- The return address, then eax, ecx, edx, ebx, esp, ebp, esi and edi.
abbrev pub first_frame : ℕ → List ℕ
first_frame entry = entry ∷ 0 ∷ 0 ∷ 0 ∷ 0 ∷ 0 ∷ 0 ∷ 0 ∷ 0 ∷ []

-- Past the two early returns: the slot is filled and counted.
pub fill_task : List ℕ → ℕ → ℕ → Kernel → Kernel
fill_task name entry stack k =
    let (sp, memory') = push_words (first_frame entry) (u32 (stack + task_stack_size)) k.memory in
    record k {
      tasks = set k.tasks k.task_count (record (task_at k.tasks k.task_count) {
        esp = sp;
        stack = stack;
        state = ready;
        name = copy_name name 0 (task_at k.tasks k.task_count).name;
      });
      task_count = k.task_count + 1;
      memory = memory';
    }

-- `task->stack = PMM_AllocPage()`: the slot's stack pointer is written before it is tested.
pub grant_stack : ℕ → Pmm → Kernel → Kernel
grant_stack stack pmm' k = record k {
  tasks = set k.tasks k.task_count (record (task_at k.tasks k.task_count) { stack = stack });
  pmm = pmm';
}

pub create_task : List ℕ → ℕ → Kernel → Option Kernel
create_task name entry k = if leb max_tasks k.task_count then some k else do
  (stack, pmm') ← Pmm.alloc_page k.pmm
  let k' = grant_stack stack pmm' k
  some (if stack == null then k' else fill_task name entry stack k')

unfoldable pub get_ticks : Kernel → ℕ
get_ticks k = k.timer_ticks

pub get_schedule_count : ℤ → Kernel → ℕ
get_schedule_count (negsuc n) k = 0
get_schedule_count (pos i) k = if leb k.task_count i then 0 else (task_at k.tasks i).schedule_count

-- The three outcomes of looking for a ready task.
pub data Search : Type 0 where
  at : ℕ → Search
  nobody : Search
  out_of_fuel : Search

-- The loop that walks over the ring until a task is ready or the walk is back where it began.
pub find_ready : List Task → ℕ → ℕ → ℕ → ℕ → Search
find_ready ts count start zero next = out_of_fuel
find_ready ts count start (suc fuel) next =
    let next' = (next + 1) % count in
    let rest = find_ready ts count start fuel next' in
    if is_ready (task_at ts next) then at next else if next' == start then nobody else rest

-- `pushad`, at the stack pointer of the processor.
pub pushad : Cpu → (ℕ → ℕ) → ℕ × (ℕ → ℕ)
pushad c memory =
    push_words (c.eax ∷ c.ecx ∷ c.edx ∷ c.ebx ∷ c.esp ∷ c.ebp ∷ c.esi ∷ c.edi ∷ []) c.esp memory

-- `popad; ret` at stack pointer `sp`; the saved esp is skipped.
pub popad_ret : ℕ → (ℕ → ℕ) → Cpu
popad_ret sp memory = record {
  edi = memory sp;
  esi = memory (u32 (sp + 4));
  ebp = memory (u32 (sp + 8));
  ebx = memory (u32 (sp + 16));
  edx = memory (u32 (sp + 20));
  ecx = memory (u32 (sp + 24));
  eax = memory (u32 (sp + 28));
  eip = memory (u32 (sp + 32));
  esp = u32 (sp + 36);
}

-- `Scheduler_Switch(&g_Tasks[prev].esp, new_esp)`, entered with the return address at `[esp]`.
pub switch : ℕ → ℕ → Kernel → Kernel
switch prev new_esp k =
    let (sp, memory') = pushad k.cpu k.memory in
    record k {
      memory = memory';
      tasks = set k.tasks prev (record (task_at k.tasks prev) { esp = sp });
      cpu = popad_ret new_esp memory';
    }

-- The end of `Scheduler_Yield` and of `Scheduler_Tick`: task `next` is made the running one.
pub dispatch : ℕ → Kernel → Kernel
dispatch next k =
    let t = task_at k.tasks next in
    let ts =
      set k.tasks next
        (record t { state = running; schedule_count = u32 (t.schedule_count + 1) }) in
    switch k.current_task t.esp (record k { tasks = ts; current_task = next })

-- The current task is marked ready before the search.
abbrev pub release_current : Kernel → Kernel
release_current k = record k { tasks = set_state k.tasks k.current_task ready }

pub search : Kernel → Search
search k =
    let start = (k.current_task + 1) % k.task_count in
    find_ready k.tasks k.task_count start k.task_count start

pub yield : Kernel → Option Kernel
yield k =
    let k' = release_current k in
    if k.task_count == 0 then none else elim (search k') [
      | at next ↦ some (dispatch next k')
      | nobody ↦ some k'
      | out_of_fuel ↦ none
    ]

-- The second half of `Scheduler_Tick`, at the end of a time slice.
pub slice_end : Kernel → Option Kernel
slice_end k =
    let k' = release_current k in
    elim (search k') [
      | at next ↦ some (if next == k'.current_task then k' else dispatch next k')
      | nobody ↦ some k'
      | out_of_fuel ↦ none
    ]

pub tick : Kernel → Option Kernel
tick k =
    let k' = record k { timer_ticks = u32 (k.timer_ticks + 1); tick_count = k.tick_count + 1 } in
    if k.task_count == 0
    then some k
    else if ltb k'.tick_count scheduler_ticks
    then some k'
    else slice_end (record k' { tick_count = 0 })

abbrev idle_name : List ℕ
idle_name = b'i' ∷ b'd' ∷ b'l' ∷ b'e' ∷ []

pub register_idle : Kernel → Kernel
register_idle k = record k {
  tasks = set k.tasks 0 (record (task_at k.tasks 0) {
    stack = null;
    state = ready;
    esp = 0;
    name = copy_name idle_name 0 (task_at k.tasks 0).name;
  });
  task_count = 1;
  current_task = 0;
}

unfoldable pub get_task_count : Kernel → ℕ
get_task_count k = k.task_count

-- The caller's name buffer, state and count after the call; `none` leaves them as they are.
unfoldable pub get_task : ℤ → List ℕ → Kernel → Option (List ℕ × TaskState × ℕ)
get_task (negsuc n) out k = none
get_task (pos i) out k =
    let t = task_at k.tasks i in
    if leb k.task_count i
    then none
    else some (copy_name (c_string t.name) 0 out, t.state, t.schedule_count)

-- Task 0, the idle one, cannot be killed.
pub kill_task : ℤ → Kernel → Option Kernel
kill_task (negsuc n) k = some k
kill_task (pos i) k =
    let t = task_at k.tasks i in
    let dead_tasks = set_state k.tasks i dead in
    if i == 0 || leb k.task_count i
    then some k
    else if t.stack == null
    then some (record k { tasks = dead_tasks })
    else do
      pmm' ← Pmm.free_page t.stack k.pmm
      some
          (record k { tasks = set k.tasks i (record t { state = dead; stack = null }); pmm = pmm' })
