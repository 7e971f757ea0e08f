-- ===== src/Fat/Names.antt =====
-- src/kernel/fs/fat.c: names of eight and three characters. A name is the list of its bytes before
-- the terminator.
use uami_os.Base.{
  ℕ, zero, suc, ◌+◌, ◌-◌, min, Bool, true, ◌&&◌, Option, none, some, List, [], ◌∷◌, ◌++◌, ltb, leb,
  ◌==◌, if◌then◌else◌, length, get_or, set, take, drop, replicate,
}

unfoldable pub fat_toupper : ℕ → ℕ
fat_toupper c = if leb b'a' c && leb c b'z' then c - 32 else c

-- The index of the last byte `b`, in what is left of a string from index `i` on.
unfoldable pub last_index : ℕ → List ℕ → ℕ → Option ℕ → Option ℕ
last_index b [] i found = found
last_index b (c ∷ cs) i found = last_index b cs (i + 1) (if c == b then some i else found)

-- `out[at + i] = fat_toupper(src[i])`.
unfoldable pub put_upper : List ℕ → ℕ → List ℕ → List ℕ
put_upper [] at out = out
put_upper (c ∷ cs) at out = put_upper cs (at + 1) (set out at (fat_toupper c))

abbrev pub with_extension : List ℕ → Option ℕ → List ℕ → List ℕ
with_extension name none out = out
with_extension name (some dot) out = put_upper (take 3 (drop (dot + 1) name)) 8 out

abbrev pub or_else : Option ℕ → ℕ → ℕ
or_else none n = n
or_else (some k) n = k

-- `fat_get_short_name`, without its terminator.
unfoldable pub short_name : List ℕ → List ℕ
short_name name =
    let dot = last_index b'.' name 0 none in
    let base_len = min 8 (or_else dot (length name)) in
    with_extension name dot (put_upper (take base_len name) 0 (replicate 11 32))

-- `while (end > floor && name[end - 1] == ' ') end--`.
unfoldable pub trimmed : List ℕ → ℕ → ℕ → ℕ
trimmed name floor zero = zero
trimmed name floor (suc k) =
    let rest = trimmed name floor k in
    if ltb floor (suc k) && get_or name k 0 == 32 then rest else suc k

-- The name that `FAT_ListDir` makes of the eleven bytes of an entry.
unfoldable pub listed_name : List ℕ → List ℕ
listed_name name =
    let base_end = trimmed name 0 8 in
    let ext_end = trimmed name 8 11 in
    take base_end name ++ (if ltb 8 ext_end then b'.' ∷ drop 8 (take ext_end name) else [])

-- `strcmp_simple` and `memcmp_simple`, which tell whether two names differ.
unfoldable pub same_bytes : List ℕ → List ℕ → ℕ → Bool
same_bytes a b zero = true
same_bytes a b (suc n) = get_or a n 0 == get_or b n 0 && same_bytes a b n
