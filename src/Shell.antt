-- ===== src/Shell.antt =====
-- src/kernel/shell.c: the string helpers and the paths. A string is the list of its bytes before
-- the terminator.
pub mod Paths
pub mod Commands
mod Parent
mod Tasks
mod Tests
use uami_os.Base.{
  ℕ, zero, suc, ◌+◌, ◌-◌, Bool, false, List, [], ◌∷◌, ◌++◌, ltb, leb, ◌==◌, if◌then◌else◌, length,
  ℤ, pos, negsuc,
}

unfoldable pub sh_strlen : List ℕ → ℕ
sh_strlen [] = 0
sh_strlen (c ∷ s) = sh_strlen s + 1

-- The difference of two bytes without a sign.
abbrev pub byte_difference : ℕ → ℕ → ℤ
byte_difference a b = if leb b a then pos (a - b) else negsuc (b - a - 1)

unfoldable pub sh_strcmp : List ℕ → List ℕ → ℤ
sh_strcmp [] [] = pos 0
sh_strcmp [] (b ∷ bs) = byte_difference 0 b
sh_strcmp (a ∷ xs) [] = byte_difference a 0
sh_strcmp (a ∷ xs) (b ∷ bs) =
    let rest = sh_strcmp xs bs in if a == b then rest else byte_difference a b

-- At most `n` bytes, which is not negative in any call.
unfoldable pub sh_strncmp : List ℕ → List ℕ → ℕ → ℤ
sh_strncmp a b zero = pos 0
sh_strncmp [] [] (suc n) = pos 0
sh_strncmp [] (b ∷ bs) (suc n) = byte_difference 0 b
sh_strncmp (a ∷ xs) [] (suc n) = byte_difference a 0
sh_strncmp (a ∷ xs) (b ∷ bs) (suc n) =
    let rest = sh_strncmp xs bs n in if a == b then rest else byte_difference a b

unfoldable pub sh_skip : List ℕ → List ℕ
sh_skip [] = []
sh_skip (c ∷ s) = let rest = sh_skip s in if c == 32 then rest else c ∷ s

-- `while (name[i] && j < outSize - 1) out[j++] = name[i++]`, with what `out` holds so far.
unfoldable pub copy_while : List ℕ → ℕ → List ℕ → List ℕ
copy_while [] limit out = out
copy_while (c ∷ cs) limit out =
    let rest = copy_while cs limit (out ++ c ∷ []) in if ltb (length out) limit then rest else out

abbrev pub is_absolute : List ℕ → Bool
is_absolute [] = false
is_absolute (c ∷ cs) = c == b'/'

abbrev pub is_root : List ℕ → Bool
is_root (c ∷ []) = c == b'/'
is_root path = false

-- `build_path`, in directory `cwd`, into a buffer of `out_size` bytes.
unfoldable pub build_path : List ℕ → List ℕ → ℕ → List ℕ
build_path cwd name out_size =
    let limit = out_size - 1 in
    let out = copy_while cwd limit [] in
    if is_absolute name
    then copy_while name limit []
    else if is_root cwd
    then copy_while name limit (b'/' ∷ [])
    else copy_while name limit (if ltb (length out) limit then out ++ b'/' ∷ [] else out)
