-- ===== src/Fat/Writing.antt =====
-- src/kernel/fs/fat.c: files and directories that are made, written and deleted. `none` is a path that
-- is too long for its buffers, or a loop over a directory that ran out of fuel.
use uami_os.Base.{
  ℕ, zero, suc, ◌+◌, ◌*◌, ◌/◌, ◌%◌, ◌^◌, Bool, true, false, not, ◌&&◌, ◌||◌, Option, none, some,
  List, [], ◌∷◌, ltb, leb, ◌==◌, if◌then◌else◌, ◌>>=◌, length, get_or, take, drop, replicate, u8,
  u32, sub_u32,
}
use uami_os.Fat.{
  Buffer, Disk, Fat, sector_size, put8, put16, put32, disk_read, disk_write, sectors_per_cluster,
  cluster_to_lba, reserved_sectors, word32,
}
use uami_os.Fat.Table.{set_cluster, alloc_cluster, free_chain}
use uami_os.Fat.Files.{entry_at, entry_cluster, attribute_directory}
use uami_os.Fat.Dirs.{max_path, get_dir_cluster}
use uami_os.Fat.Names.{short_name}
use uami_os.Fat.Entries.{
  zeroes, unreadable, slot, no_slot, find_free_dir_slot, new_entry, found_at, not_found, further,
  scan_clusters, split_path,
}

abbrev pub attribute_archive : ℕ
attribute_archive = 0x20

-- A new entry is written into a free slot of the directory at a cluster: the end of `FAT_CreateFile`
-- and of `FAT_CreateDir`.
unfoldable pub add_entry : ℕ → ℕ → List ℕ → ℕ → ℕ → Fat → Option (Bool × Fat)
add_entry fuel dir name attributes cluster s = do
  (place, s') ← find_free_dir_slot fuel dir s
  some (elim place as (λ _. Bool × Fat) [
    | unreadable ↦ (false, s')
    | no_slot ↦ (false, s')
    | slot lba offset ↦
        let b = (disk_read lba 1 zeroes s'.disk).1 in
        let (ok, d) =
          disk_write lba 1 (new_entry offset (short_name name) attributes cluster b) s'.disk in
        (ok, record s' { disk = d })
  ])

unfoldable pub create_file : ℕ → List ℕ → Fat → Option (Bool × Fat)
create_file fuel path s =
    let (dir_path, name) = split_path path in
    if leb max_path (length dir_path) || leb max_path (length name) then none else do
      (dir, s') ← get_dir_cluster fuel dir_path s
      if dir == 0 then some (false, s') else add_entry fuel dir name attribute_archive 0 s'

-- Zeros in the sectors of a cluster; what the writes return is not looked at.
unfoldable pub zero_sectors : ℕ → ℕ → Disk → Disk
zero_sectors zero lba d = d
zero_sectors (suc left) lba d = zero_sectors left (u32 (lba + 1)) (disk_write lba 1 zeroes d).1

-- The first sector of a new directory: its entries for itself and for its parent.
unfoldable pub dot_entries : ℕ → ℕ → Buffer
dot_entries cluster parent =
    new_entry 32 (b'.' ∷ b'.' ∷ replicate 9 32) attribute_directory parent
      (new_entry 0 (b'.' ∷ replicate 10 32) attribute_directory cluster zeroes)

unfoldable pub create_dir : ℕ → List ℕ → Fat → Option (Bool × Fat)
create_dir fuel path s =
    let (dir_path, name) = split_path path in
    if leb max_path (length dir_path) || leb max_path (length name) then none else do
      (parent, s₁) ← get_dir_cluster fuel dir_path s
      if parent == 0 then some (false, s₁) else do
        (cluster, s₂) ← alloc_cluster s₁
        let lba = cluster_to_lba cluster s₂
        let d = zero_sectors (sectors_per_cluster s₂) lba s₂.disk
        let s₃ = record s₂ { disk = (disk_write lba 1 (dot_entries cluster parent) d).1 }
        if cluster == 0
            then some (false, s₂)
            else add_entry fuel parent name attribute_directory cluster s₃

unfoldable pub delete_entry : ℕ → List ℕ → Fat → Option (Bool × Fat)
delete_entry fuel path s =
    let (dir_path, name) = split_path path in
    if leb max_path (length dir_path) || leb max_path (length name) then none else do
      (dir, s₁) ← get_dir_cluster fuel dir_path s
      if dir == 0 then some (false, s₁) else do
        (place, s₂) ← scan_clusters true (short_name name) fuel dir zeroes s₁
        elim place as (λ _. Option (Bool × Fat)) [
          | not_found ↦ some (false, s₂)
          | further b ↦ some (false, s₂)
          | found_at lba offset b ↦ do
            s₃ ← free_chain fuel (entry_cluster (entry_at b offset)) s₂
            some (true, record s₃ { disk = (disk_write lba 1 (put8 offset 0xE5 b) s₃.disk).1 })
        ]

-- Bytes of a list, then zeros.
abbrev pub padded : List ℕ → Buffer
padded bytes i = u8 (get_or bytes i 0)

-- The sectors of one cluster: what is left to write, and the disk.
unfoldable pub write_sectors : ℕ → ℕ → List ℕ → Disk → List ℕ × Disk
write_sectors zero lba bytes d = (bytes, d)
write_sectors (suc left) lba [] d = ([], d)
write_sectors (suc left) lba (c ∷ cs) d =
    write_sectors left (u32 (lba + 1)) (drop sector_size (c ∷ cs))
      (disk_write lba 1 (padded (take sector_size (c ∷ cs))) d).1

abbrev pub link : ℕ → ℕ → Fat → Fat
link prev c s = if prev == 0 then s else set_cluster prev c s

-- The loop of `FAT_WriteFile` over new clusters: the first of them, or 0 where the volume is full.
unfoldable pub write_clusters : ℕ → ℕ → ℕ → List ℕ → Fat → Option (ℕ × Fat)
write_clusters fuel first prev [] s = some (first, s)
write_clusters zero first prev (b ∷ bs) s = none
write_clusters (suc fuel) first prev (b ∷ bs) s = do
  (c, s₁) ← alloc_cluster s
  let s₂ = link prev c s₁
  let (rest, d) = write_sectors (sectors_per_cluster s₂) (cluster_to_lba c s₂) (b ∷ bs) s₂.disk
  let more = write_clusters fuel (if first == 0 then c else first) c rest (record s₂ { disk = d })
  if c == 0 then some (0, s₁) else more

-- The end of `FAT_WriteFile`: the entry is found again and gets its cluster and size.
unfoldable pub set_contents : ℕ → List ℕ → ℕ → ℕ → Fat → Option (Bool × Fat)
set_contents fuel path cluster size s =
    let (dir_path, name) = split_path path in
    do
      (dir, s₁) ← get_dir_cluster fuel dir_path s
      (place, s₂) ← scan_clusters false (short_name name) fuel dir zeroes s₁
      some (elim place as (λ _. Bool × Fat) [
        | not_found ↦ (false, s₂)
        | further b ↦ (false, s₂)
        | found_at lba offset b ↦
            let b' =
              put32 (offset + 28) size
                (put16 (offset + 26) cluster (put16 (offset + 20) (cluster / 2 ^ 16) b)) in
            (true, record s₂ { disk = (disk_write lba 1 b' s₂.disk).1 })
      ])

-- `FAT_WriteFile`: what the deletion of an older file returns is not looked at.
unfoldable pub write_file : ℕ → List ℕ → List ℕ → Fat → Option (Bool × Fat)
write_file fuel path bytes s = do
  (_, s₁) ← delete_entry fuel path s
  (made, s₂) ← create_file fuel path s₁
  if not made || length bytes == 0 then some (made, s₂) else do
    (first, s₃) ← write_clusters (length bytes) 0 0 bytes s₂
    if first == 0 then some (false, s₃) else set_contents fuel path first (length bytes) s₃

unfoldable pub get_bytes_per_cluster : Fat → ℕ
get_bytes_per_cluster s = sectors_per_cluster s * sector_size

-- `FAT_DiskInfo`.
pub record DiskInfo : Type 0 where
  pub total_clusters : ℕ
  pub free_clusters : ℕ
  pub bytes_per_cluster : ℕ

-- The entries of one sector of the table: how many clusters are checked, and how many are free.
unfoldable pub count_sector : ℕ → ℕ → ℕ → Buffer → ℕ × ℕ → ℕ × ℕ
count_sector zero e total b (checked, free) = (checked, free)
count_sector (suc left) e total b (checked, free) =
    let is_free = leb 2 checked && word32 b (4 * e) % 2 ^ 28 == 0 in
    let rest =
      count_sector left (e + 1) total b (checked + 1, if is_free then free + 1 else free) in
    if ltb checked total then rest else (checked, free)

unfoldable pub count_free : ℕ → ℕ → ℕ → Buffer → Disk → ℕ × ℕ → ℕ × ℕ
count_free zero lba total b d (checked, free) = (checked, free)
count_free (suc left) lba total b d (checked, free) =
    let b' = (disk_read lba 1 b d).1 in
    let rest =
      count_free left (u32 (lba + 1)) total b' d
        (count_sector (sector_size / 4) 0 total b' (checked, free)) in
    if ltb checked total then rest else (checked, free)

unfoldable pub get_disk_info : Fat → Option DiskInfo
get_disk_info s =
    let spc = sectors_per_cluster s in
    let total = sub_u32 s.total_sectors s.data_section_lba / spc in
    let most = if ltb 60000 total then 60000 else total in
    if spc == 0
    then none
    else some (record {
      total_clusters = total;
      free_clusters =
          (count_free s.sectors_per_fat (reserved_sectors s) most zeroes s.disk (0, 0)).1;
      bytes_per_cluster = spc * sector_size;
    })
