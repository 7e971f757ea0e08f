-- ===== src/Fat/Dirs.antt =====
-- src/kernel/fs/fat.c: directories that are read through open files. The loops over the entries of a
-- directory, whose chain may run in a circle, have fuel as an argument.
use uami_os.Base.{
  ℕ, zero, suc, bit_and, Bool, true, false, not, ◌&&◌, ◌||◌, Option, none, some, List, [], ◌∷◌, ltb,
  leb, ◌==◌, ◌!=◌, if◌then◌else◌, ◌>>=◌, length, get_or, take,
}
use uami_os.Fat.{Handle, root_dir, opened_file, Fat, root_dir_cluster}
use uami_os.Fat.Files.{
  DirEntry, entry_at, attribute_directory, attribute_lfn, file_data, open_entry, rewind, read,
  close,
}
use uami_os.Fat.Names.{short_name, same_bytes, listed_name}

abbrev pub max_path : ℕ
max_path = 256

abbrev pub dir_entry_size : ℕ
dir_entry_size = 32

-- `FAT_ReadEntry`: the entry, unless the directory ends before it does.
unfoldable pub read_entry : Handle → Fat → Option (Option DirEntry × Fat)
read_entry h s = do
  (bytes, s') ← read h dir_entry_size s
  some (
    if length bytes == dir_entry_size then some (entry_at (λ i. get_or bytes i 0) 0) else none,
    s',
  )

-- What a scan makes of an entry: the directory ends here, it is passed over, or it is looked at.
pub data Kind : Type 0 where
  last : Kind
  passed : Kind
  live : Kind

unfoldable pub kind_of : DirEntry → Kind
kind_of e =
    let first = get_or e.name 0 0 in
    if first == 0
    then last
    else if first == 0xE5
    then passed
    else if e.attributes == attribute_lfn
    then passed
    else live

-- The loop of `fat_find_in_dir`.
unfoldable pub find_loop : ℕ → List ℕ → Handle → Fat → Option (Option DirEntry × Fat)
find_loop zero short h s = none
find_loop (suc fuel) short h s = do
  (found, s') ← read_entry h s
  let rest = find_loop fuel short h s'
  elim found as (λ _. Option (Option DirEntry × Fat)) [
    | none ↦ some (none, s')
    | some e ↦ elim (kind_of e) as (λ _. Option (Option DirEntry × Fat)) [
      | last ↦ some (none, s')
      | passed ↦ rest
      | live ↦ if same_bytes short e.name 11 then some (some e, s') else rest
    ]
  ]

unfoldable pub find_in_dir : ℕ → Handle → List ℕ → Fat → Option (Option DirEntry × Fat)
find_in_dir fuel h name s = find_loop fuel (short_name name) h (rewind h s)

-- A path up to its first slash, and what follows the slash.
unfoldable pub component : List ℕ → List ℕ × List ℕ
component [] = ([], [])
component (c ∷ cs) =
    let (name, rest) = component cs in if c == b'/' then ([], cs) else (c ∷ name, rest)

abbrev pub skip_slash : List ℕ → List ℕ
skip_slash [] = []
skip_slash (c ∷ cs) = if c == b'/' then cs else c ∷ cs

abbrev pub close_unless_root : Handle → Fat → Fat
close_unless_root root_dir s = s
close_unless_root (opened_file i) s = close (opened_file i) s

-- The loop of `FAT_Open`, at directory `h`; the name of a component has room for 255 bytes.
unfoldable pub open_loop : ℕ → ℕ → List ℕ → Handle → Fat → Option (Option Handle × Fat)
open_loop fuel rounds [] h s = some (some h, s)
open_loop fuel zero (c ∷ cs) h s = none
open_loop fuel (suc rounds) (c ∷ cs) h s =
    let (name, rest) = component (c ∷ cs) in
    if leb max_path (length name) then none else do
      (found, s₁) ← find_in_dir fuel h name s
      let s₂ = close_unless_root h s₁
      elim found as (λ _. Option (Option Handle × Fat)) [
        | none ↦ some (none, s₂)
        | some e ↦ do
          let (h', s₃) = open_entry e s₂
          elim h' as (λ _. Option (Option Handle × Fat)) [
            | none ↦ some (none, s₃)
            | some next ↦ open_loop fuel rounds rest next s₃
          ]
      ]

unfoldable pub open_path : ℕ → List ℕ → Fat → Option (Option Handle × Fat)
open_path fuel path s =
    let rest = skip_slash path in open_loop fuel (length rest) rest root_dir (rewind root_dir s)

-- Whether a path is empty or a slash.
abbrev pub is_root_path : List ℕ → Bool
is_root_path [] = true
is_root_path (c ∷ []) = c == b'/'
is_root_path path = false

-- What `FAT_ListDir` hands to its callback.
pub record Listed : Type 0 where
  pub name : List ℕ
  pub is_dir : Bool
  pub size : ℕ

unfoldable pub not_zero_in : List ℕ → Bool
not_zero_in [] = true
not_zero_in (c ∷ cs) = not (c == 0) && not_zero_in cs

-- The filters of `FAT_ListDir` past the mark of a deleted entry.
unfoldable pub is_listed : DirEntry → Bool
is_listed e =
    let first = get_or e.name 0 0 in
    not (bit_and e.attributes 0x3F == 0x0F)
    && (bit_and e.attributes 0x08 == 0
        && (bit_and e.attributes 0x04 == 0
            && (not (ltb first 0x20 || first == 0x7F)
                && (not (first == 32) && not_zero_in (take 8 e.name)))))

unfoldable pub list_loop : ℕ → Handle → Fat → Option (List Listed × Fat)
list_loop zero h s = none
list_loop (suc fuel) h s = do
  (found, s') ← read_entry h s
  let rest = list_loop fuel h s'
  elim found as (λ _. Option (List Listed × Fat)) [
    | none ↦ some ([], s')
    | some e ↦
        if get_or e.name 0 0 == 0
        then some ([], s')
        else if not (get_or e.name 0 0 == 0xE5) && is_listed e
        then (do
          (more, s'') ← rest
          some (
            record {
              name = listed_name e.name;
              is_dir = bit_and e.attributes attribute_directory != 0;
              size = e.entry_size;
            }
                ∷ more,
            s'',
          ))
        else rest
  ]

-- `FAT_ListDir`: what the callback is given, or that the path is no directory.
unfoldable pub list_dir : ℕ → List ℕ → Fat → Option (Option (List Listed) × Fat)
list_dir fuel path s =
    if is_root_path path
    then (do (names, s') ← list_loop fuel root_dir (rewind root_dir s); some (some names, s'))
    else (do
      (found, s₁) ← open_path fuel path s
      elim found as (λ _. Option (Option (List Listed) × Fat)) [
        | none ↦ some (none, s₁)
        | some h ↦
            if (file_data h s₁).is_directory
            then (do (names, s₂) ← list_loop fuel h s₁; some (some names, close_unless_root h s₂))
            else some (none, close h s₁)
      ])

-- `fat_get_dir_cluster`; 0 is no directory. A handle of the root has no place among the open files.
unfoldable pub get_dir_cluster : ℕ → List ℕ → Fat → Option (ℕ × Fat)
get_dir_cluster fuel path s = if is_root_path path then some (root_dir_cluster s, s) else do
  (found, s') ← open_path fuel path s
  elim found as (λ _. Option (ℕ × Fat)) [
    | none ↦ some (0, s')
    | some root_dir ↦ none
    | some (opened_file i) ↦
        some ((file_data (opened_file i) s').first_cluster, close (opened_file i) s')
  ]
