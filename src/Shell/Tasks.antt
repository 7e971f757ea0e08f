-- ===== src/Shell/Tasks.antt =====
-- src/kernel/shell.c: the table of commands, and the command that kills a task.
use uami_os.Base.{
  ℕ, ◌+◌, ◌-◌, ◌*◌, ◌^◌, Bool, false, ◌&&◌, Option, none, some, List, [], ◌∷◌, ltb, leb, ◌==◌,
  if◌then◌else◌, ◌>>=◌, length, set, drop, ℤ, pos, negsuc,
}
use uami_os.Shell.{sh_skip, sh_strlen, sh_strncmp}
use uami_os.Shell.Commands.{word_end}
use uami_os.Scheduler.{Kernel, get_task_count, kill_task}

-- The names in `g_Commands`.
abbrev pub command_names : List (List ℕ)
command_names =
    (b'h' ∷ b'e' ∷ b'l' ∷ b'p' ∷ [])
    ∷ (b'c' ∷ b'l' ∷ b'e' ∷ b'a' ∷ b'r' ∷ [])
    ∷ (b'v' ∷ b'e' ∷ b'r' ∷ b's' ∷ b'i' ∷ b'o' ∷ b'n' ∷ [])
    ∷ (b'f' ∷ b'a' ∷ b's' ∷ b't' ∷ b'f' ∷ b'e' ∷ b't' ∷ b'c' ∷ b'h' ∷ [])
    ∷ (b'm' ∷ b'e' ∷ b'm' ∷ b'i' ∷ b'n' ∷ b'f' ∷ b'o' ∷ [])
    ∷ (b'p' ∷ b'm' ∷ b'm' ∷ b'_' ∷ b'd' ∷ b'e' ∷ b'm' ∷ b'o' ∷ [])
    ∷ (b'u' ∷ b't' ∷ b'o' ∷ b'p' ∷ [])
    ∷ (b's' ∷ b'c' ∷ b'h' ∷ b'e' ∷ b'd' ∷ b'_' ∷ b'd' ∷ b'e' ∷ b'm' ∷ b'o' ∷ [])
    ∷ (b'c' ∷ b'r' ∷ b'e' ∷ b'a' ∷ b't' ∷ b'e' ∷ [])
    ∷ (b'k' ∷ b'i' ∷ b'l' ∷ b'l' ∷ [])
    ∷ (b'l' ∷ b's' ∷ [])
    ∷ (b'c' ∷ b'a' ∷ b't' ∷ [])
    ∷ (b't' ∷ b'o' ∷ b'u' ∷ b'c' ∷ b'h' ∷ [])
    ∷ (b'm' ∷ b'k' ∷ b'd' ∷ b'i' ∷ b'r' ∷ [])
    ∷ (b'r' ∷ b'm' ∷ [])
    ∷ (b'r' ∷ b'm' ∷ b'd' ∷ b'i' ∷ b'r' ∷ [])
    ∷ (b'd' ∷ b'f' ∷ [])
    ∷ (b'p' ∷ b'r' ∷ b'i' ∷ b'n' ∷ b't' ∷ [])
    ∷ (b'c' ∷ b'o' ∷ b'w' ∷ [])
    ∷ (b'r' ∷ b'e' ∷ b'b' ∷ b'o' ∷ b'o' ∷ b't' ∷ [])
    ∷ (b's' ∷ b'h' ∷ b'u' ∷ b't' ∷ b'd' ∷ b'o' ∷ b'w' ∷ b'n' ∷ [])
    ∷ (b'c' ∷ b'd' ∷ [])
    ∷ (b't' ∷ b'h' ∷ b'r' ∷ b'e' ∷ b'a' ∷ b'd' ∷ b'_' ∷ b'd' ∷ b'e' ∷ b'm' ∷ b'o' ∷ [])
    ∷ []

abbrev is_zero : ℤ → Bool
is_zero (pos n) = n == 0
is_zero (negsuc n) = false

-- The loop of `dispatch`, from command `i` on: the index of the command that the line names.
unfoldable pub find_command : List (List ℕ) → ℕ → List ℕ → Option ℕ
find_command [] i p = none
find_command (name ∷ names) i p =
    let rest = find_command names (i + 1) p in
    if word_end p == sh_strlen name && is_zero (sh_strncmp p name (word_end p))
    then some i
    else rest

-- What `dispatch` comes to: nothing in an empty line, or the command.
unfoldable pub dispatch_command : List ℕ → Option (Option ℕ × List ℕ)
dispatch_command line =
    let p = sh_skip line in
    if length p == 0
    then none
    else some (find_command command_names 0 p, sh_skip (drop (word_end p) p))

-- The scheduler, and the flags that stop the tasks of the shell.
pub record Tasks : Type 0 where
  pub kernel : Kernel
  pub user_task_running : List ℕ
  pub demo_running : ℕ

pub data KillAnswer : Type 0 where
  kill_usage : KillAnswer
  idle_task : KillAnswer
  no_task : ℕ → KillAnswer
  killed : ℕ → KillAnswer

-- A number of type int, whose overflow is `none`.
unfoldable pub parse_id : List ℕ → ℕ → Option ℕ
parse_id [] id = some id
parse_id (c ∷ cs) id =
    let next = id * 10 + (c - b'0') in
    let rest = parse_id cs next in
    if leb b'0' c && leb c b'9' then (if ltb next (2 ^ 31) then rest else none) else some id

unfoldable pub cmd_kill : List ℕ → Tasks → Option (KillAnswer × Tasks)
cmd_kill args t =
    let p = sh_skip args in
    if length p == 0 then some (kill_usage, t) else do
      id ← parse_id p 0
      let running = if ltb id 3 then set t.user_task_running id 0 else t.user_task_running
      if id == 0
          then some (idle_task, t)
          else if leb (get_task_count t.kernel) id
          then some (no_task id, t)
          else do
            k ← kill_task (pos id) t.kernel
            some (killed id, record { kernel = k; user_task_running = running; demo_running = 0 })
