-- ===== src/Boot/Fat.antt =====
-- src/bootloader/stage2/fat.c: volumes with tables of 12, 16 and 32 bits. What a read of sectors of the
-- partition gives is a parameter; an access that C leaves undefined and a loop that ran out of fuel
-- are `none`. The count of long names, which stays 0, and what is printed are left out.
pub mod Open
mod Table
mod Tests
use uami_os.Base.{
  ℕ, zero, suc, ◌+◌, ◌-◌, ◌*◌, ◌/◌, ◌%◌, ◌^◌, bit_and, bit_or, Bool, true, false, not, ◌&&◌, ◌||◌,
  Option, none, some, List, [], ◌∷◌, ◌++◌, ltb, leb, ◌==◌, ◌!=◌, if◌then◌else◌, ◌>>=◌, length,
  get_or, set, take, replicate, u32, sub_u32, pos,
}
use uami_os.Fat.{
  Buffer, FileData, Handle, root_dir, opened_file, sector_size, max_file_handles, fat_cache_size,
  word16, word32,
}
use uami_os.Fat.Files.{
  DirEntry, entry_at, bytes_at, entry_cluster, attribute_directory, close_all, free_handle, closed,
}
use uami_os.Fat.Dirs.{dir_entry_size}
use uami_os.Fat.Names.{fat_toupper, put_upper, same_bytes}

-- `FAT_Data` and the other variables.
pub record Volume : Type 0 where
  pub boot_sector : Buffer
  pub root_directory : FileData
  pub opened_files : List FileData
  pub fat_cache : Buffer
  pub fat_cache_position : ℕ
  pub data_section_lba : ℕ
  pub fat_type : ℕ
  pub total_sectors : ℕ
  pub sectors_per_fat : ℕ

-- Fields of `FAT_BootSector`.
abbrev pub bytes_per_sector : Volume → ℕ
bytes_per_sector v = word16 v.boot_sector 11

abbrev pub cluster_sectors : Volume → ℕ
cluster_sectors v = v.boot_sector 13

abbrev pub reserved : Volume → ℕ
reserved v = word16 v.boot_sector 14

abbrev pub copies : Volume → ℕ
copies v = v.boot_sector 16

abbrev pub dir_entry_count : Volume → ℕ
dir_entry_count v = word16 v.boot_sector 17

-- `FAT_Detect`, with a division by zero as `none`.
unfoldable pub detect : Volume → Option Volume
detect v =
    let data_clusters = sub_u32 v.total_sectors v.data_section_lba / cluster_sectors v in
    let kind =
      if ltb data_clusters 0xFF5 then 12 else if word16 v.boot_sector 22 != 0 then 16 else 32 in
    if cluster_sectors v == 0 then none else some (record v { fat_type = kind })

unfoldable pub first_sector : ℕ → Volume → ℕ
first_sector cluster v = u32 (v.data_section_lba + sub_u32 cluster 2 * cluster_sectors v)

-- The byte of the table at which a cluster's entry begins.
unfoldable pub entry_index : ℕ → ℕ → ℕ
entry_index fat_type cluster =
    if fat_type == 12
    then u32 (cluster * 3) / 2
    else if fat_type == 16
    then u32 (cluster * 2)
    else u32 (cluster * 4)

-- The entry at index `i` of the cache. Marks of an end are widened to 32 bits, but for 32-bit tables.
unfoldable pub decode : ℕ → ℕ → Buffer → ℕ → ℕ
decode fat_type cluster cache i =
    let half = word16 cache i in
    let twelve = if cluster % 2 == 0 then half % 2 ^ 12 else half / 2 ^ 4 in
    if fat_type == 12
    then (if leb 0xFF8 twelve then bit_or twelve 0xFFFFF000 else twelve)
    else if fat_type == 16
    then (if leb 0xFFF8 half then bit_or half 0xFFFF0000 else half)
    else word32 cache i

-- A file with its data, and where it is kept.
unfoldable pub boot_data : Handle → Volume → FileData
boot_data root_dir v = v.root_directory
boot_data (opened_file i) v = get_or v.opened_files i closed

unfoldable pub set_boot_data : Handle → FileData → Volume → Volume
set_boot_data root_dir f v = record v { root_directory = f }
set_boot_data (opened_file i) f v = record v { opened_files = set v.opened_files i f }

-- `FAT_Close`: the sector in the cluster stays, and so does the buffer.
unfoldable pub boot_close : Handle → Volume → Volume
boot_close root_dir v =
    let f = v.root_directory in
    record v { root_directory = record f { position = 0; current_cluster = f.first_cluster } }
boot_close (opened_file i) v =
    set_boot_data (opened_file i) (record (boot_data (opened_file i) v) { opened = false }) v

-- Bytes before the first dot, and those after it where there is one.
unfoldable pub at_dot : List ℕ → List ℕ × Option (List ℕ)
at_dot [] = ([], none)
at_dot (c ∷ cs) =
    let (before, after) = at_dot cs in if c == b'.' then ([], some cs) else (c ∷ before, after)

-- `FAT_GetShortName`, without its terminator. A first dot at index 11 is taken for none.
unfoldable pub boot_short_name : List ℕ → List ℕ
boot_short_name name =
    let (stem, ext) = at_dot name in
    let out = put_upper (take 8 stem) 0 (replicate 11 32) in
    elim ext as (λ _. List ℕ) [
      | none ↦ out
      | some e ↦ if length stem == 11 then out else put_upper (take 3 e) 8 out
    ]

module _ (partition_read : ℕ → ℕ → Buffer → Bool × Buffer) where
  -- `FAT_NextCluster`, with `FAT_ReadFat`.
  unfoldable pub read_table : ℕ → Volume → Volume
  read_table lba_index v = record v {
    fat_cache = (partition_read (u32 (reserved v + lba_index)) fat_cache_size v.fat_cache).1;
  }

  unfoldable pub load_table : ℕ → Volume → Volume
  load_table sector v =
      if ltb sector v.fat_cache_position || leb (u32 (v.fat_cache_position + fat_cache_size)) sector
      then record (read_table sector v) { fat_cache_position = sector }
      else v

  unfoldable pub following_cluster : ℕ → Volume → ℕ × Volume
  following_cluster cluster v =
      let index = entry_index v.fat_type cluster in
      let v' = load_table (index / sector_size) v in
      let i = sub_u32 index (u32 (v'.fat_cache_position * sector_size)) in
      (decode v.fat_type cluster v'.fat_cache i, v')

  -- The first sector of the root directory, its size, and the first of the data.
  unfoldable pub layout : Volume → Option (ℕ × ℕ × ℕ)
  layout v =
      let after_tables = u32 (reserved v + v.sectors_per_fat * copies v) in
      let size = 32 * dir_entry_count v in
      let root_sectors = sub_u32 (size + bytes_per_sector v) 1 / bytes_per_sector v in
      if word16 v.boot_sector 22 == 0
      then some (
        u32 (after_tables + sub_u32 (word32 v.boot_sector 44) 2 * cluster_sectors v),
        size,
        after_tables,
      )
      else if bytes_per_sector v == 0
      then none
      else some (after_tables, size, u32 (after_tables + root_sectors))

  -- `FAT_Initialize`, whose result tells whether the reads succeeded.
  unfoldable pub boot_initialize : Volume → Option (Bool × Volume)
  boot_initialize v =
      let (ok, boot) = partition_read 0 1 v.boot_sector in
      let v₁ = record v { boot_sector = boot } in
      let per_fat = if word16 boot 22 == 0 then word32 boot 36 else word16 boot 22 in
      let total = if word16 boot 19 == 0 then word32 boot 32 else word16 boot 19 in
      let v₂ = record v₁ {
        fat_cache_position = 0xFFFFFFFF;
        total_sectors = total;
        sectors_per_fat = per_fat;
      } in
      if not ok then some (false, v₁) else do
        (root, size, first) ← layout v₂
        let (root_ok, buffer) = partition_read root 1 v₂.root_directory.buffer
        let v₃ = record v₂ {
          data_section_lba = first;
          root_directory = record {
            buffer = buffer;
            is_directory = true;
            position = 0;
            size = size;
            opened = true;
            first_cluster = root;
            current_cluster = root;
            current_sector = 0;
          };
        }
        if not root_ok then some (false, v₃) else do
          v₄ ← detect v₃
          some (true, record v₄ { opened_files = close_all v₄.opened_files })

  -- `FAT_OpenEntry`: a file whose first sector cannot be read is not opened.
  unfoldable pub boot_open_entry : DirEntry → Volume → Option Handle × Volume
  boot_open_entry e v = elim (free_handle v.opened_files 0) as (λ _. Option Handle × Volume) [
    | none ↦ (none, v)
    | some i ↦
        let cluster = u32 (entry_cluster e) in
        let (ok, buffer) =
          partition_read (first_sector cluster v) 1 (boot_data (opened_file i) v).buffer in
        (
          if ok then some (opened_file i) else none,
          set_boot_data (opened_file i)
              (record {
                buffer = buffer;
                is_directory = bit_and e.attributes attribute_directory != 0;
                position = 0;
                size = e.entry_size;
                opened = ok;
                first_cluster = cluster;
                current_cluster = cluster;
                current_sector = 0;
              })
              v,
        )
  ]

  -- The end of a sector in `FAT_Read`: whether its loop goes on. The root directory is a run of sectors.
  unfoldable pub boot_advance : Handle → FileData → Volume → Bool × FileData × Volume
  boot_advance root_dir f v =
      let sector = u32 (f.current_cluster + 1) in
      let (ok, buffer) = partition_read sector 1 f.buffer in
      (ok, record f { current_cluster = sector; buffer = buffer }, v)
  boot_advance (opened_file i) f v =
      let sector = f.current_sector + 1 in
      let over = leb (cluster_sectors v) sector in
      let (cluster, v') =
        (if over then following_cluster f.current_cluster v else (f.current_cluster, v)) in
      let f' = record f {
        current_sector = if over then 0 else sector;
        current_cluster = cluster;
      } in
      let (ok, buffer) =
        partition_read (u32 (first_sector cluster v' + f'.current_sector)) 1 f.buffer in
      if leb 0xFFFFFFF8 cluster
      then (false, record f' { size = f.position }, v')
      else (ok, record f' { buffer = buffer }, v')

  unfoldable pub boot_read_loop :
      ℕ → Handle → ℕ → FileData → Volume → Option (List ℕ × FileData × Volume)
  boot_read_loop zero h count f v = none
  boot_read_loop (suc fuel) h count f v =
      let pos = f.position % sector_size in
      let left = sector_size - pos in
      let taken = if ltb count left then count else left in
      let out = bytes_at f.buffer pos taken in
      let f₁ = record f { position = u32 (f.position + taken) } in
      let (go_on, f₂, v₂) = (if left == taken then boot_advance h f₁ v else (true, f₁, v)) in
      let rest = boot_read_loop fuel h (count - taken) f₂ v₂ in
      if count == 0
      then some ([], f, v)
      else if go_on
      then (do (more, f₃, v₃) ← rest; some (out ++ more, f₃, v₃))
      else some (out, f₂, v₂)

  -- `FAT_Read`.
  unfoldable pub boot_read : Handle → ℕ → Volume → Option (List ℕ × Volume)
  boot_read h count v =
      let f = boot_data h v in
      let left = sub_u32 f.size f.position in
      let n = if (not f.is_directory || f.size != 0) && not (ltb count left) then left else count in
      do (out, f', v') ← boot_read_loop (n + 1) h n f v; some (out, set_boot_data h f' v')

  unfoldable pub boot_read_entry : Handle → Volume → Option (Option DirEntry × Volume)
  boot_read_entry h v = do
    (bytes, v') ← boot_read h dir_entry_size v
    some (
      if length bytes == dir_entry_size then some (entry_at (λ i. get_or bytes i 0) 0) else none,
      v',
    )

  -- The loop of `FAT_FindFile`, which has fuel as an argument.
  unfoldable pub find_file : ℕ → Handle → List ℕ → Volume → Option (Option DirEntry × Volume)
  find_file zero h short v = none
  find_file (suc fuel) h short v = do
    (found, v') ← boot_read_entry h v
    let rest = find_file fuel h short v'
    elim found as (λ _. Option (Option DirEntry × Volume)) [
      | none ↦ some (none, v')
      | some e ↦ if same_bytes short e.name 11 then some (some e, v') else rest
    ]
