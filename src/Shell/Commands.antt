-- ===== src/Shell/Commands.antt =====
-- src/kernel/shell.c: the line editor, the choice of a command, and the commands on files. What a
-- command prints is an `Answer`. The commands that print the state of the machine are left out.
use uami_os.Base.{
  ℕ, zero, suc, ◌+◌, ◌-◌, min, Bool, true, false, ◌&&◌, ◌||◌, Option, none, some, List, [], ◌∷◌,
  ◌++◌, ltb, leb, ◌==◌, ◌!=◌, if◌then◌else◌, ◌>>=◌, length, get_or, take, drop,
}
use uami_os.Fat.{Fat, Handle}
use uami_os.Fat.Files.{read, close, file_data}
use uami_os.Fat.Dirs.{open_path, Listed, list_dir}
use uami_os.Fat.Writing.{create_file, create_dir, delete_entry, write_file}
use uami_os.Shell.{sh_skip, is_root, build_path, copy_while}

abbrev pub line_max : ℕ
line_max = 128

abbrev pub path_size : ℕ
path_size = 256

-- What is printed.
pub data Answer : Type 0 where
  usage : Answer
  entered : List ℕ → Answer
  at_root : Answer
  not_found : List ℕ → Answer
  not_a_directory : List ℕ → Answer
  succeeded : List ℕ → Answer
  failed : List ℕ → Answer
  listing : List ℕ → Option (List Listed) → Answer
  text : List ℕ → Answer

-- `g_CWD`, and the file system.
pub record Session : Type 0 where
  pub cwd : List ℕ
  pub files : Fat

-- A path up to its last slash, after at least one byte, as `cd ..` cuts it; `i` bytes are left.
unfoldable pub cut_last : ℕ → List ℕ → List ℕ
cut_last zero path = b'/' ∷ []
cut_last (suc i) path =
    let rest = cut_last i path in if get_or path (suc i) 0 == b'/' then take (suc i) path else rest

abbrev pub parent : List ℕ → List ℕ
parent path = cut_last (length path - 1) path

abbrev pub is_parent_name : List ℕ → Bool
is_parent_name (a ∷ b ∷ []) = a == b'.' && b == b'.'
is_parent_name name = false

abbrev pub names_root : List ℕ → Bool
names_root [] = true
names_root (c ∷ cs) = is_root (c ∷ cs)

-- The end of `cd`, once the path has been looked for.
unfoldable pub enter : List ℕ → List ℕ → Session → Option Handle → Fat → Answer × Session
enter target full s none f = (not_found target, record s { files = f })
enter target full s (some h) f =
    if (file_data h f).is_directory
    then (entered full, record s { cwd = full; files = close h f })
    else (not_a_directory target, record s { files = close h f })

unfoldable pub cmd_cd : ℕ → List ℕ → Session → Option (Answer × Session)
cmd_cd fuel args s =
    let target = sh_skip args in
    let full = build_path s.cwd target path_size in
    if names_root target
    then some (entered (b'/' ∷ []), record s { cwd = b'/' ∷ [] })
    else if is_parent_name target
    then (if is_root s.cwd
        then some (at_root, s)
        else some (entered (parent s.cwd), record s { cwd = parent s.cwd }))
    else (do (found, f) ← open_path fuel full s.files; some (enter target full s found f))

-- `touch`, `mkdir` and `rm`, with the function of the file system that each calls.
unfoldable pub with_path :
    (List ℕ → Fat → Option (Bool × Fat))
    → (List ℕ → Answer)
    → List ℕ
    → Session
    → Option (Answer × Session)
with_path operation refused args s =
    let name = sh_skip args in
    let path = build_path s.cwd name path_size in
    if length name == 0 then some (usage, s) else do
      (ok, f) ← operation path s.files
      some (if ok then succeeded path else refused path, record s { files = f })

abbrev pub cmd_touch : ℕ → List ℕ → Session → Option (Answer × Session)
cmd_touch fuel = with_path (create_file fuel) failed

abbrev pub cmd_mkdir : ℕ → List ℕ → Session → Option (Answer × Session)
cmd_mkdir fuel = with_path (create_dir fuel) failed

abbrev pub cmd_rm : ℕ → List ℕ → Session → Option (Answer × Session)
cmd_rm fuel = with_path (delete_entry fuel) not_found

-- `rmdir` is `rm`.
abbrev pub cmd_rmdir : ℕ → List ℕ → Session → Option (Answer × Session)
cmd_rmdir = cmd_rm

unfoldable pub cmd_ls : ℕ → List ℕ → Session → Option (Answer × Session)
cmd_ls fuel args s =
    let arg = sh_skip args in
    let path =
      if length arg == 0 then copy_while s.cwd 255 [] else build_path s.cwd arg path_size in
    do (names, f) ← list_dir fuel path s.files; some (listing path names, record s { files = f })

-- The bytes up to the first zero, as `printf` prints them.
unfoldable pub until_zero : List ℕ → List ℕ
until_zero [] = []
until_zero (c ∷ cs) = let rest = until_zero cs in if c == 0 then [] else c ∷ rest

-- The loop of `cat`, over pieces of 63 bytes.
unfoldable pub cat_loop : ℕ → Handle → Fat → Option (List ℕ × Fat)
cat_loop zero h f = none
cat_loop (suc fuel) h f = do
  (bytes, f') ← read h 63 f
  let rest = cat_loop fuel h f'
  if length bytes == 0
      then some ([], f')
      else do (more, f'') ← rest; some (until_zero bytes ++ more, f'')

unfoldable pub cmd_cat : ℕ → List ℕ → Session → Option (Answer × Session)
cmd_cat fuel args s =
    let name = sh_skip args in
    let path = build_path s.cwd name path_size in
    if length name == 0 then some (usage, s) else do
      (found, f) ← open_path fuel path s.files
      elim found as (λ _. Option (Answer × Session)) [
        | none ↦ some (not_found path, record s { files = f })
        | some h ↦ do
          (bytes, f') ← cat_loop fuel h f
          some (text bytes, record s { files = close h f' })
      ]

-- The text before a `>`, what follows, and whether that was `>>`.
unfoldable pub at_redirect : List ℕ → Option (List ℕ × List ℕ × Bool)
at_redirect [] = none
at_redirect (c ∷ cs) =
    let rest = at_redirect cs in
    if c == b'>'
    then some (if get_or cs 0 0 == b'>' then ([], drop 1 cs, true) else ([], cs, false))
    else (do (before, after, append) ← rest; some (c ∷ before, after, append))

-- The length of a text without its trailing spaces.
unfoldable pub without_spaces : List ℕ → ℕ → ℕ
without_spaces p zero = zero
without_spaces p (suc n) =
    let rest = without_spaces p n in if get_or p n 0 == 32 then rest else suc n

abbrev pub is_quote : ℕ → Bool
is_quote c = c == 34 || c == 39

-- A text without its trailing spaces and the quotes around it, cut to 127 bytes.
unfoldable pub unquoted : List ℕ → List ℕ
unquoted p =
    let n = without_spaces p (length p) in
    let inner = n - 1 in
    let kept = if ltb 0 inner && is_quote (get_or p inner 0) then inner - 1 else inner in
    if leb 2 n && is_quote (get_or p 0 0)
    then take (min kept (line_max - 1)) (drop 1 p)
    else take (min n (line_max - 1)) p

-- What is written: for `>>` after up to 511 bytes that the file held, on a line of its own.
unfoldable pub appended : List ℕ → List ℕ → List ℕ
appended held line =
    let start =
      if ltb 0 (length held) && get_or held (length held - 1) 0 != 10
      then held ++ 10 ∷ []
      else held in
    start ++ take (line_max + 510 - length start) line ++ 10 ∷ []

unfoldable pub held_by : ℕ → List ℕ → Fat → Option (List ℕ × Fat)
held_by fuel path f = do
  (found, f') ← open_path fuel path f
  elim found as (λ _. Option (List ℕ × Fat)) [
    | none ↦ some ([], f')
    | some h ↦ do (bytes, f'') ← read h 511 f'; some (bytes, close h f'')
  ]

unfoldable pub cmd_print : ℕ → List ℕ → Session → Option (Answer × Session)
cmd_print fuel args s =
    let p = sh_skip args in
    elim (at_redirect p) as (λ _. Option (Answer × Session)) [
      | none ↦ some (text p, s)
      | some (before, after, append) ↦
          let path = build_path s.cwd (sh_skip after) path_size in
          let line = until_zero (unquoted before) in
          if length path == 0 then some (usage, s) else do
            (held, f) ← if append then held_by fuel path s.files else some ([], s.files)
            (ok, f') ←
                write_file fuel path (if append then appended held line else line ++ 10 ∷ []) f
            some (if ok then succeeded path else failed path, record s { files = f' })
    ]

-- The command word of a line and its arguments, or none in an empty line.
unfoldable pub word_end : List ℕ → ℕ
word_end [] = 0
word_end (c ∷ cs) = let rest = word_end cs in if c == 32 then 0 else rest + 1

unfoldable pub command_of : List ℕ → Option (List ℕ × List ℕ)
command_of line =
    let p = sh_skip line in
    if length p == 0 then none else some (take (word_end p) p, sh_skip (drop (word_end p) p))

abbrev pub key_pageup : ℕ
key_pageup = 0x01

abbrev pub key_pagedown : ℕ
key_pagedown = 0x02

-- `g_Line` up to `g_LineLen`, and what a character does to it; a line that ends is handed on.
unfoldable pub edit : List ℕ → ℕ → List ℕ × Option (List ℕ)
edit line c =
    if c == key_pageup || c == key_pagedown
    then (line, none)
    else if c == 10 || c == 13
    then ([], some line)
    else if c == 8
    then (take (length line - 1) line, none)
    else if ltb (length line) (line_max - 1)
    then (line ++ c ∷ [], none)
    else (line, none)
