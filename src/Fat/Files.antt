-- ===== src/Fat/Files.antt =====
-- src/kernel/fs/fat.c: the volume, and files that are open.
use uami_os.Base.{
  ℕ, zero, suc, ◌+◌, ◌-◌, ◌*◌, ◌%◌, ◌^◌, bit_and, Bool, true, false, not, ◌&&◌, ◌||◌, Option, none,
  some, List, [], ◌∷◌, ◌++◌, map, ltb, leb, ◌==◌, ◌!=◌, if◌then◌else◌, ◌>>=◌, get_or, set, u32,
  sub_u32,
}
use uami_os.Fat.{
  Buffer, FileData, Handle, root_dir, opened_file, Fat, sector_size, end_of_chain, word16, word32,
  disk_read, sectors_per_cluster, reserved_sectors, fat_count, root_dir_cluster, cluster_to_lba,
}
use uami_os.Fat.Table.{next_cluster}

-- `FAT_DirectoryEntry`, the fields that the driver reads.
pub record DirEntry : Type 0 where
  pub name : List ℕ
  pub attributes : ℕ
  pub cluster_high : ℕ
  pub cluster_low : ℕ
  pub entry_size : ℕ

abbrev pub attribute_directory : ℕ
attribute_directory = 0x10

abbrev pub attribute_lfn : ℕ
attribute_lfn = 0x0F

-- `n` bytes of a buffer from index `at` on.
unfoldable pub bytes_at : Buffer → ℕ → ℕ → List ℕ
bytes_at b at zero = []
bytes_at b at (suc n) = b at ∷ bytes_at b (at + 1) n

unfoldable pub entry_at : Buffer → ℕ → DirEntry
entry_at b at = record {
  name = bytes_at b at 11;
  attributes = b (at + 11);
  cluster_high = word16 b (at + 20);
  cluster_low = word16 b (at + 26);
  entry_size = word32 b (at + 28);
}

abbrev pub entry_cluster : DirEntry → ℕ
entry_cluster e = e.cluster_low + e.cluster_high * 2 ^ 16

abbrev pub closed : FileData
closed = record {
  buffer = λ i. 0;
  is_directory = false;
  position = 0;
  size = 0;
  opened = false;
  first_cluster = 0;
  current_cluster = 0;
  current_sector = 0;
}

unfoldable pub file_data : Handle → Fat → FileData
file_data root_dir s = s.root_directory
file_data (opened_file i) s = get_or s.opened_files i closed

unfoldable pub set_file_data : Handle → FileData → Fat → Fat
set_file_data root_dir f s = record s { root_directory = f }
set_file_data (opened_file i) f s = record s { opened_files = set s.opened_files i f }

-- The three results of `FAT_Initialize` that are not success.
pub data Mounted : Type 0 where
  mounted : Mounted
  no_boot_sector : Mounted
  not_fat32 : Mounted
  no_root : Mounted

abbrev pub close_file : FileData → FileData
close_file f = record f { opened = false }

abbrev pub close_all : List FileData → List FileData
close_all = map close_file

-- The variables that `FAT_Initialize` computes from the boot sector.
unfoldable pub geometry : Fat → Fat
geometry s =
    let total16 = word16 s.boot_sector 19 in
    let fat16 = word16 s.boot_sector 22 in
    let per_fat = if fat16 == 0 then word32 s.boot_sector 36 else fat16 in
    record s {
      fat_cache_position = 0xFFFFFFFF;
      total_sectors = if total16 == 0 then word32 s.boot_sector 32 else total16;
      sectors_per_fat = per_fat;
    }

-- Its end: the root directory.
unfoldable pub open_root : Fat → Mounted × Fat
open_root s =
    let s₁ = record s {
      data_section_lba = u32 (reserved_sectors s + s.sectors_per_fat * fat_count s);
    } in
    let cluster = root_dir_cluster s₁ in
    let (ok, buffer) = disk_read (cluster_to_lba cluster s₁) 1 s.root_directory.buffer s.disk in
    let s₂ = record s₁ {
      root_directory = record {
        buffer = buffer;
        is_directory = true;
        position = 0;
        size = 0;
        opened = true;
        first_cluster = cluster;
        current_cluster = cluster;
        current_sector = 0;
      };
    } in
    if ok then (mounted, record s₂ { opened_files = close_all s.opened_files }) else (no_root, s₂)

unfoldable pub initialize : Fat → Mounted × Fat
initialize s =
    let (ok, boot) = disk_read 0 1 s.boot_sector s.disk in
    let s₁ = record s { boot_sector = boot } in
    if not ok
    then (no_boot_sector, s₁)
    else if word16 boot 22 == 0
    then open_root (geometry s₁)
    else (not_fat32, geometry s₁)

-- The first handle that is not in use, from index `i` on.
unfoldable pub free_handle : List FileData → ℕ → Option ℕ
free_handle [] i = none
free_handle (f ∷ fs) i = let rest = free_handle fs (i + 1) in if f.opened then rest else some i

-- `fat_open_entry`: the handle, or NULL.
unfoldable pub open_entry : DirEntry → Fat → Option Handle × Fat
open_entry e s = elim (free_handle s.opened_files 0) as (λ _. Option Handle × Fat) [
  | none ↦ (none, s)
  | some i ↦
      let cluster = entry_cluster e in
      let (ok, buffer) =
        disk_read (cluster_to_lba cluster s) 1 (file_data (opened_file i) s).buffer s.disk in
      (
        if ok then some (opened_file i) else none,
        set_file_data (opened_file i)
            (record {
              buffer = buffer;
              is_directory = bit_and e.attributes attribute_directory != 0;
              position = 0;
              size = e.entry_size;
              opened = ok;
              first_cluster = cluster;
              current_cluster = cluster;
              current_sector = 0;
            })
            s,
      )
]

-- The start again of a directory, as in `fat_find_in_dir`, `FAT_Open` and `FAT_ListDir`; what the
-- read returns is not looked at.
unfoldable pub rewind : Handle → Fat → Fat
rewind h s =
    let f = file_data h s in
    let buffer = (disk_read (cluster_to_lba f.first_cluster s) 1 f.buffer s.disk).1 in
    set_file_data h
      (record f {
        buffer = buffer;
        position = 0;
        current_cluster = f.first_cluster;
        current_sector = 0;
      })
      s

-- The next sector of a file, at the end of one: whether the loop of `FAT_Read` goes on. At the end of
-- the chain a file's size is cut to its position; the root directory keeps its size.
unfoldable pub advance : Handle → FileData → Fat → Bool × FileData × Fat
advance h f s =
    let next_sector = f.current_sector + 1 in
    let over = leb (sectors_per_cluster s) next_sector in
    let (cluster, s') =
      (if over then next_cluster f.current_cluster s else (f.current_cluster, s)) in
    let f' = record f {
      current_sector = if over then 0 else next_sector;
      current_cluster = cluster;
    } in
    let buffer =
      (disk_read (u32 (cluster_to_lba cluster s' + f'.current_sector)) 1 f.buffer s'.disk).1 in
    if over && leb end_of_chain cluster
    then (
      false,
      elim h as (λ _. FileData) [ root_dir ↦ f' | opened_file i ↦ record f' { size = f.position } ],
      s',
    )
    else (true, record f' { buffer = buffer }, s')

-- The loop of `FAT_Read`, with the bytes still to be read; the bytes read, the file and the state.
unfoldable pub read_loop : ℕ → Handle → ℕ → FileData → Fat → Option (List ℕ × FileData × Fat)
read_loop zero h count f s = none
read_loop (suc fuel) h count f s =
    let pos = f.position % sector_size in
    let left = sector_size - pos in
    let taken = if ltb count left then count else left in
    let out = bytes_at f.buffer pos taken in
    let f₁ = record f { position = u32 (f.position + taken) } in
    let (go_on, f₂, s₂) = (if left == taken then advance h f₁ s else (true, f₁, s)) in
    let rest = read_loop fuel h (count - taken) f₂ s₂ in
    if count == 0
    then some ([], f, s)
    else if go_on
    then (do (more, f₃, s₃) ← rest; some (out ++ more, f₃, s₃))
    else some (out, f₂, s₂)

-- `FAT_Read`: the bytes read, and the state. A round takes at least one byte.
unfoldable pub read : Handle → ℕ → Fat → Option (List ℕ × Fat)
read h count s =
    let f = file_data h s in
    let left = sub_u32 f.size f.position in
    let limited = not f.is_directory || f.size != 0 in
    let n = if limited && ltb left count then left else count in
    do (out, f', s') ← read_loop (n + 1) h n f s; some (out, set_file_data h f' s')

-- `FAT_Close`.
unfoldable pub close : Handle → Fat → Fat
close root_dir s =
    let f = s.root_directory in
    record s {
      root_directory = record f {
        position = 0;
        current_cluster = f.first_cluster;
        current_sector = 0;
      };
    }
close (opened_file i) s =
    set_file_data (opened_file i) (record (file_data (opened_file i) s) { opened = false }) s
