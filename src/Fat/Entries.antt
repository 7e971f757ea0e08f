-- ===== src/Fat/Entries.antt =====
-- src/kernel/fs/fat.c: directories that are scanned by sectors. A local buffer holds zeros before it
-- is read.
use uami_os.Base.{
  ℕ, zero, suc, ◌+◌, ◌-◌, ◌*◌, ◌/◌, ◌^◌, Bool, not, ◌&&◌, ◌||◌, Option, none, some, List, [], ltb,
  leb, ◌==◌, if◌then◌else◌, get_or, take, drop, u32,
}
use uami_os.Fat.{
  Buffer, Disk, Fat, sector_size, end_of_chain, put8, put16, fill_bytes, disk_read,
  sectors_per_cluster, cluster_to_lba,
}
use uami_os.Fat.Table.{next_cluster}
use uami_os.Fat.Files.{entry_at, attribute_lfn}
use uami_os.Fat.Names.{last_index, same_bytes}

abbrev pub entries_in_sector : ℕ
entries_in_sector = sector_size / 32

abbrev pub zeroes : Buffer
zeroes i = 0

-- The offset of the first free slot of a sector, from entry `e` on with `left` to go.
unfoldable pub free_slot : ℕ → ℕ → Buffer → Option ℕ
free_slot zero e b = none
free_slot (suc left) e b =
    let rest = free_slot left (e + 1) b in
    if b (e * 32) == 0 || b (e * 32) == 0xE5 then some (e * 32) else rest

-- What a scan for a slot ends in: a sector could not be read, a slot at a sector and an offset, or
-- there is none.
pub data Slot : Type 0 where
  unreadable : Slot
  slot : ℕ → ℕ → Slot
  no_slot : Slot

-- The sectors of one cluster, from sector `lba` on.
unfoldable pub slot_in_sectors : ℕ → ℕ → Buffer → Disk → Slot
slot_in_sectors zero lba b d = no_slot
slot_in_sectors (suc left) lba b d =
    let (ok, b') = disk_read lba 1 b d in
    let rest = slot_in_sectors left (u32 (lba + 1)) b' d in
    if not ok then unreadable else elim (free_slot entries_in_sector 0 b') as (λ _. Slot) [
      | some offset ↦ slot lba offset
      | none ↦ rest
    ]

-- `fat_find_free_dir_slot`; `none` is out of fuel.
unfoldable pub find_free_dir_slot : ℕ → ℕ → Fat → Option (Slot × Fat)
find_free_dir_slot zero cluster s = none
find_free_dir_slot (suc fuel) cluster s =
    let here = slot_in_sectors (sectors_per_cluster s) (cluster_to_lba cluster s) zeroes s.disk in
    let (next, s') = next_cluster cluster s in
    let rest = find_free_dir_slot fuel next s' in
    if leb end_of_chain cluster
    then some (no_slot, s)
    else (elim here as (λ _. Option (Slot × Fat)) [
      | no_slot ↦ rest
      | unreadable ↦ some (unreadable, s)
      | slot lba offset ↦ some (slot lba offset, s)
    ])

-- A new entry at an offset of a sector: all zero but for these fields.
abbrev pub put_name : ℕ → List ℕ → Buffer → Buffer
put_name at name b j = if leb at j && ltb j (at + 11) then get_or name (j - at) 0 else b j

unfoldable pub new_entry : ℕ → List ℕ → ℕ → ℕ → Buffer → Buffer
new_entry at name attributes cluster b = put16 (at + 26) cluster (
    put16 (at + 20) (cluster / 2 ^ 16)
      (put8 (at + 11) attributes (put_name at name (fill_bytes at 0 32 b))))

-- What a scan for a name comes to in a sector: the directory ends, or the offset of the entry.
pub data Scan : Type 0 where
  ended : Scan
  hit : ℕ → Scan
  absent : Scan

-- The scan of `FAT_DeleteEntry`, with long names passed over, and of `FAT_WriteFile`, with none.
unfoldable pub scan_sector : Bool → List ℕ → ℕ → ℕ → Buffer → Scan
scan_sector skip_long short zero e b = absent
scan_sector skip_long short (suc left) e b =
    let entry = entry_at b (e * 32) in
    let first = get_or entry.name 0 0 in
    let rest = scan_sector skip_long short left (e + 1) b in
    if first == 0
    then ended
    else if first == 0xE5
    then rest
    else if skip_long && entry.attributes == attribute_lfn
    then rest
    else if same_bytes entry.name short 11
    then hit (e * 32)
    else rest

-- A sector with the entry found in it, its buffer and the offset.
pub data Found : Type 0 where
  found_at : ℕ → ℕ → Buffer → Found
  not_found : Found
  further : Buffer → Found

-- The sectors of one cluster; a read that fails leaves the buffer as it was.
unfoldable pub scan_sectors : Bool → List ℕ → ℕ → ℕ → Buffer → Disk → Found
scan_sectors skip_long short zero lba b d = further b
scan_sectors skip_long short (suc left) lba b d =
    let b' = (disk_read lba 1 b d).1 in
    let rest = scan_sectors skip_long short left (u32 (lba + 1)) b' d in
    elim (scan_sector skip_long short entries_in_sector 0 b') as (λ _. Found) [
      | ended ↦ not_found
      | hit offset ↦ found_at lba offset b'
      | absent ↦ rest
    ]

-- The loop over the clusters of a directory; `none` is out of fuel.
unfoldable pub scan_clusters : Bool → List ℕ → ℕ → ℕ → Buffer → Fat → Option (Found × Fat)
scan_clusters skip_long short zero cluster b s = none
scan_clusters skip_long short (suc fuel) cluster b s =
    let here =
      scan_sectors skip_long short (sectors_per_cluster s) (cluster_to_lba cluster s) b s.disk in
    let (next, s') = next_cluster cluster s in
    if leb end_of_chain cluster
    then some (not_found, s)
    else (elim here as (λ _. Option (Found × Fat)) [
      | found_at lba offset b' ↦ some (found_at lba offset b', s)
      | not_found ↦ some (not_found, s)
      | further b' ↦ scan_clusters skip_long short fuel next b' s'
    ])

-- A path as the path of a directory and a name.
unfoldable pub split_path : List ℕ → List ℕ × List ℕ
split_path path = elim (last_index b'/' path 0 none) as (λ _. List ℕ × List ℕ) [
  | none ↦ ([], path)
  | some i ↦ (take i path, drop (i + 1) path)
]
