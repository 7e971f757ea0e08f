-- ===== src/Shell/Tests.antt =====
-- Strings and paths of the shell, on concrete values.
use uami_os.Base.{
  ℕ, zero, suc, ◌-◌, ◌*◌, ◌<◌, ◌≡◌, refl, ap, ◌≢◌, true, ◌&&◌, Option, none, some, List, [], ◌∷◌,
  arith, ltb, leb, if◌then◌else◌, length, get_or, take, replicate, pos, negsuc,
}
use uami_os.Fat.{Buffer, put8, put16, put32, cluster_to_lba, disk_read, accessible}
use uami_os.Fat.Files.{
  closed, read, read_loop, advance, bytes_at, entry_at, file_data, set_file_data, rewind, close,
  free_handle, open_entry,
}
use uami_os.Fat.Dirs.{open_path, open_loop, component, find_in_dir, find_loop, read_entry, kind_of}
use uami_os.Fat.Names.{short_name, last_index, put_upper, fat_toupper, same_bytes}
use uami_os.Shell.{sh_strlen, sh_strcmp, sh_strncmp, sh_skip, copy_while, build_path}
use uami_os.Shell.Commands.{
  Session, Answer, entered, enter, cmd_cd, edit, command_of, word_end, unquoted, without_spaces,
}
use uami_os.Shell.Parent.{IsName, dot_dot, cmd_cd-dot_dot}
use uami_os.Shell.Tasks.{dispatch_command, find_command, parse_id}
use uami_os.Shell.Paths.{join, build_path-join}

abbrev home : List ℕ
home = b'/' ∷ b'h' ∷ []

build_path-join_example :
    (build_path home (b'a' ∷ b'b' ∷ b'c' ∷ []) 6
      ≡ take (6 - 1) (join home (b'a' ∷ b'b' ∷ b'c' ∷ [])))
    × (length (build_path home (b'a' ∷ b'b' ∷ b'c' ∷ []) 6) < 6)
build_path-join_example = build_path-join home (b'a' ∷ b'b' ∷ b'c' ∷ []) 6 (omega arith)

cut : build_path home (b'a' ∷ b'b' ∷ b'c' ∷ []) 6 ≡ b'/' ∷ b'h' ∷ b'/' ∷ b'a' ∷ b'b' ∷ []
unfolding build_path copy_while
cut = refl

skipped : sh_strlen (sh_skip (32 ∷ 32 ∷ b'l' ∷ b's' ∷ [])) ≡ 2
unfolding sh_strlen sh_skip
skipped = refl

first_two_equal : sh_strncmp (b'l' ∷ b's' ∷ []) (b'l' ∷ b's' ∷ b'x' ∷ []) 2 ≡ pos 0
unfolding sh_strncmp
first_two_equal = refl

third_differs : sh_strcmp (b'l' ∷ b's' ∷ []) (b'l' ∷ b's' ∷ b'x' ∷ []) ≡ negsuc 119
unfolding sh_strcmp
third_differs = refl

do-IsName : IsName (b'd' ∷ b'o' ∷ [])
do-IsName zero lt e = omega (arith, e)
do-IsName (suc zero) lt e = omega (arith, e)
do-IsName (suc (suc j)) lt e = omega arith

-- A volume whose root directory, at cluster 2, has the directory DO at cluster 3.
abbrev boot : Buffer
boot = put32 44 2 (put32 36 2 (put32 32 64 (put8 16 1 (put16 14 32 (put8 13 1 (λ i. 0))))))

abbrev root_sector : Buffer
root_sector =
    put16 26 3 (put8 11 0x10 (put8 1 b'O' (put8 0 b'D' (λ i. if ltb i 11 then 32 else 0))))

abbrev bytes : Buffer
bytes i = if leb (2082 * 512) i && ltb i (2083 * 512) then root_sector (i - 2082 * 512) else 0

abbrev session : Session
session = record {
  cwd = b'/' ∷ [];
  files = record {
    disk = record { byte = bytes; working = λ l. true };
    boot_sector = boot;
    root_directory = record closed {
      first_cluster = 2;
      current_cluster = 2;
      opened = true;
      is_directory = true;
      buffer = root_sector;
    };
    opened_files = replicate 10 closed;
    fat_cache = λ i. 0;
    fat_cache_position = 0xFFFFFFFF;
    data_section_lba = 34;
    total_sectors = 64;
    sectors_per_fat = 2;
  };
}

abbrev went : Option (Answer × Session)
went = cmd_cd 3 (32 ∷ b'd' ∷ b'o' ∷ []) session

abbrev there : Session
there = elim went as (λ _. Session) [ none ↦ session | some (a, s) ↦ s ]

arrived : went ≡ some (entered (b'/' ∷ b'd' ∷ b'o' ∷ []), there)
unfolding cmd_cd enter build_path copy_while sh_skip open_path open_loop component find_in_dir
    find_loop read_entry read read_loop advance bytes_at entry_at short_name last_index put_upper
    fat_toupper same_bytes kind_of file_data set_file_data rewind close free_handle open_entry
    cluster_to_lba disk_read accessible
arrived = refl

not_dots : b'd' ∷ b'o' ∷ [] ≢ dot_dot
not_dots e = omega (arith, ap (λ l. get_or l 0 0) e)

-- `cd do` in the root directory, and `cd ..` from there.
cmd_cd-dot_dot_example :
    (there.cwd ≢ session.cwd)
    × (cmd_cd 1 dot_dot there ≡ some (entered session.cwd, record there { cwd = session.cwd }))
unfolding sh_skip
cmd_cd-dot_dot_example =
    cmd_cd-dot_dot 3 1 (32 ∷ b'd' ∷ b'o' ∷ []) (b'/' ∷ b'd' ∷ b'o' ∷ []) session there do-IsName
      (omega arith) not_dots (omega arith) (omega arith) arrived

-- A line is typed with a correction, and is a command with an argument.
typed : List ℕ → List ℕ → List ℕ
typed line [] = line
typed line (c ∷ cs) = typed (edit line c).0 cs

corrected :
    command_of (typed [] (b'c' ∷ b'e' ∷ 8 ∷ b'd' ∷ 32 ∷ b'x' ∷ []))
    ≡ some (b'c' ∷ b'd' ∷ [], b'x' ∷ [])
unfolding typed edit command_of word_end sh_skip
corrected = refl

-- `print "hi" > f`.
quoted : unquoted (34 ∷ b'h' ∷ b'i' ∷ 34 ∷ 32 ∷ []) ≡ b'h' ∷ b'i' ∷ []
unfolding unquoted without_spaces
quoted = refl

-- ` cd  x` is command 21.
chosen : dispatch_command (32 ∷ b'c' ∷ b'd' ∷ 32 ∷ 32 ∷ b'x' ∷ []) ≡ some (some 21, b'x' ∷ [])
unfolding dispatch_command find_command word_end sh_skip sh_strlen sh_strncmp
chosen = refl

unknown : dispatch_command (b'c' ∷ []) ≡ some (none, [])
unfolding dispatch_command find_command word_end sh_skip sh_strlen sh_strncmp
unknown = refl

parsed : parse_id (b'1' ∷ b'2' ∷ b'x' ∷ []) 0 ≡ some 12
unfolding parse_id
parsed = refl
