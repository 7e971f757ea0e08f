-- ===== src/Fat/Table.antt =====
-- src/kernel/fs/fat.c: the table of clusters, through the cache of five of its sectors.
use uami_os.Base.{
  ℕ, zero, suc, ◌+◌, ◌-◌, ◌*◌, ◌/◌, ◌%◌, ◌^◌, ◌&&◌, ◌||◌, Option, none, some, ltb, leb, ◌==◌,
  if◌then◌else◌, u32, sub_u32,
}
use uami_os.Fat.{
  Fat, sector_size, fat_cache_size, end_of_chain, word32, put32, disk_read, disk_write,
  reserved_sectors, sectors_per_cluster,
}

-- `fat_read_fat` and `fat_write_fat`; no caller looks at what they return.
unfoldable pub read_fat : ℕ → Fat → Fat
read_fat lba_index s = record s {
  fat_cache =
      (disk_read (u32 (reserved_sectors s + lba_index)) fat_cache_size s.fat_cache s.disk).1;
}

unfoldable pub write_fat : ℕ → Fat → Fat
write_fat lba_index s = record s {
  disk = (disk_write (u32 (reserved_sectors s + lba_index)) fat_cache_size s.fat_cache s.disk).1;
}

-- The start of `fat_next_cluster` and of `fat_set_cluster`: sector `sector` of the table is brought
-- into the cache.
unfoldable pub load : ℕ → Fat → Fat
load sector s =
    if ltb sector s.fat_cache_position || leb (u32 (s.fat_cache_position + fat_cache_size)) sector
    then record (read_fat sector s) { fat_cache_position = sector }
    else s

-- The index of a cluster's entry in the cache.
abbrev pub cache_index : ℕ → Fat → ℕ
cache_index cluster s = sub_u32 (u32 (cluster * 4)) (u32 (s.fat_cache_position * sector_size))

unfoldable pub next_cluster : ℕ → Fat → ℕ × Fat
next_cluster current s =
    let s' = load (u32 (current * 4) / sector_size) s in
    (word32 s'.fat_cache (cache_index current s') % 2 ^ 28, s')

unfoldable pub set_cluster : ℕ → ℕ → Fat → Fat
set_cluster cluster value s =
    let s' = load (u32 (cluster * 4) / sector_size) s in
    let i = cache_index cluster s' in
    let entry = word32 s'.fat_cache i / 2 ^ 28 * 2 ^ 28 + value % 2 ^ 28 in
    write_fat s'.fat_cache_position (record s' { fat_cache = put32 i entry s'.fat_cache })

-- The search of `fat_alloc_cluster` from cluster `c` on, with `left` to go; 0 is none.
unfoldable pub alloc_loop : ℕ → ℕ → Fat → ℕ × Fat
alloc_loop zero c s = (0, s)
alloc_loop (suc left) c s =
    let (value, s') = next_cluster c s in
    let rest = alloc_loop left (c + 1) s' in
    if value == 0 then (c, set_cluster c 0x0FFFFFFF s') else rest

-- A boot sector with no sectors in a cluster is a division by zero.
unfoldable pub alloc_cluster : Fat → Option (ℕ × Fat)
alloc_cluster s =
    if sectors_per_cluster s == 0
    then none
    else some (alloc_loop (s.total_sectors / sectors_per_cluster s - 2) 2 s)

-- The loop of `FAT_DeleteEntry` that frees a chain; `none` is out of fuel.
unfoldable pub free_chain : ℕ → ℕ → Fat → Option Fat
free_chain zero c s = none
free_chain (suc fuel) c s =
    let (next, s') = next_cluster c s in
    let rest = free_chain fuel next (set_cluster c 0 s') in
    if leb 2 c && ltb c end_of_chain then rest else some s
