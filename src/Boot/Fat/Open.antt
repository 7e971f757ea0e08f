-- ===== src/Boot/Fat/Open.antt =====
-- `FAT_Open` of src/bootloader/stage2/fat.c, with the local buffer that a name is copied to.
use uami_os.Base.{
  ℕ, zero, suc, ◌+◌, Bool, Option, none, some, List, [], ◌∷◌, ltb, ◌==◌, if◌then◌else◌, ◌>>=◌,
  length, get_or,
}
use uami_os.Fat.{Buffer, Handle, root_dir}
use uami_os.Fat.Dirs.{skip_slash}
use uami_os.Boot.Fat.{Volume, boot_close, boot_short_name, find_file, boot_open_entry}

abbrev pub max_path_size : ℕ
max_path_size = 256

-- What stands before the first slash and what follows it, where there is one.
unfoldable pub at_slash : List ℕ → Option (List ℕ × List ℕ)
at_slash [] = none
at_slash (c ∷ cs) =
    let rest = at_slash cs in
    if c == b'/' then some ([], cs) else (do (before, after) ← rest; some (c ∷ before, after))

-- A name in the buffer, with its terminator at index `stop`. After the last name of a path the code
-- puts it one byte too far.
abbrev pub store_name : List ℕ → ℕ → Buffer → Buffer
store_name name stop b i =
    if i == stop then 0 else if ltb i (length name) then get_or name i 0 else b i

-- The string in the buffer from index `i` on, with `left` bytes of the buffer to go.
unfoldable pub string_at : ℕ → ℕ → Buffer → Option (List ℕ)
string_at zero i b = none
string_at (suc left) i b =
    let rest = string_at left (i + 1) b in
    if b i == 0 then some [] else (do cs ← rest; some (b i ∷ cs))

-- The name at the front of a path: in the buffer, and the rest of the path.
unfoldable pub take_name : List ℕ → Buffer → Option (Buffer × List ℕ)
take_name path b = elim (at_slash path) as (λ _. Option (Buffer × List ℕ)) [
  | some (name, rest) ↦
      if ltb (length name) max_path_size then some (store_name name (length name) b, rest) else none
  | none ↦
      if ltb (length path + 1) max_path_size
      then some (store_name path (length path + 1) b, [])
      else none
]

module _ (partition_read : ℕ → ℕ → Buffer → Bool × Buffer) where
  -- The loop over the names of a path. Its test for a directory is `Attributes & (0x10 == 0)`, which
  -- never holds. A handle that is NULL may only end it.
  unfoldable pub boot_open_loop :
      ℕ → ℕ → List ℕ → Buffer → Option Handle → Volume → Option (Option Handle × Volume)
  boot_open_loop fuel rounds [] b h v = some (h, v)
  boot_open_loop fuel zero (c ∷ cs) b h v = none
  boot_open_loop fuel (suc rounds) (c ∷ cs) b none v = none
  boot_open_loop fuel (suc rounds) (c ∷ cs) b (some h) v = do
    (b', rest) ← take_name (c ∷ cs) b
    name ← string_at max_path_size 0 b'
    (found, v₁) ← find_file partition_read fuel h (boot_short_name name) v
    let v₂ = boot_close h v₁
    elim found as (λ _. Option (Option Handle × Volume)) [
      | none ↦ some (none, v₂)
      | some e ↦
          let (h', v₃) = boot_open_entry partition_read e v₂ in
          boot_open_loop fuel rounds rest b' h' v₃
    ]

  -- The buffer holds what the stack held.
  unfoldable pub boot_open : ℕ → List ℕ → Buffer → Volume → Option (Option Handle × Volume)
  boot_open fuel path stack v =
      let rest = skip_slash path in boot_open_loop fuel (length rest) rest stack (some root_dir) v
