-- ===== src/Boot/Fat/Table.antt =====
-- The tables of src/bootloader/stage2/fat.c: entries of 12 bits, and the end of a chain of a 32-bit
-- table.
use uami_os.Base.{
  ℕ, ◌+◌, ◌-◌, ◌*◌, ◌/◌, ◌%◌, ◌^◌, ◌≤◌, ◌<◌, bit_or, ◌≡◌, refl, sym, ap, subst, ◌∙◌, inl, inr, Bool,
  true, false, ◌||◌, arith, ltb, leb, ◌==◌, if◌then◌else◌, lt→ltb, le→leb, Bool-cases, u32, sub_u32,
}
use uami_os.Fat.{Buffer, FileData, opened_file, sector_size, fat_cache_size, word32, copy_bytes}
use uami_os.Boot.Fat.{
  Volume, reserved, cluster_sectors, entry_index, decode, read_table, load_table, following_cluster,
  boot_advance, first_sector,
}
use uami_os.Base.Bytes.{passes, passes_at}

-- A table of 12-bit entries: two of them in three bytes.
unfoldable pub packed : (ℕ → ℕ) → Buffer
packed e j =
    let k = j / 3 in
    if j % 3 == 0
    then e (2 * k) % 256
    else if j % 3 == 1
    then e (2 * k) / 256 + 16 * (e (2 * k + 1) % 16)
    else e (2 * k + 1) / 16

-- An entry as a cluster number of 32 bits: the last eight numbers mark the end of a chain.
abbrev pub widened : ℕ → ℕ
widened n = if leb 0xFF8 n then 0xFFFFF000 + n else n

widened_bits : (n : ℕ) → n < 4096 → (if leb 0xFF8 n then bit_or n 0xFFFFF000 else n) ≡ widened n
unfolding passes
widened_bits n lt = elim (Bool-cases (leb 0xFF8 n)) [
  | inr low ↦ rw (low) refl
  | inl high ↦
      let near =
        passes_at (λ k. bit_or (0xFF8 + k) 0xFFFFF000 == 0xFFFFF000 + (0xFF8 + k)) 8 (n - 0xFF8)
          refl (ground arith) in
      let same : 0xFF8 + (n - 0xFF8) ≡ n = ground arith in
      rw (high) (subst (λ x. bit_or x 0xFFFFF000 ≡ 0xFFFFF000 + x) same (ground arith))
]

-- Two bytes of the table hold an entry.
packed_pair :
    (e : ℕ → ℕ) (c : ℕ)
    → ((k : ℕ) → e k < 4096)
    → (let half = packed e (c * 3 / 2) + 256 * packed e (c * 3 / 2 + 1) in
        (if c % 2 == 0 then half % 2 ^ 12 else half / 2 ^ 4) ≡ e c)
unfolding packed
packed_pair e c all = elim (Bool-cases (c % 2 == 0)) [
  | inl even ↦
      let i = c * 3 / 2 in
      let two : c % 2 ≡ 0 = ground arith in
      let here : 2 * (i / 3) ≡ c = omega arith in
      let after : 2 * ((i + 1) / 3) ≡ c = omega arith in
      let m₀ : i % 3 ≡ 0 = omega arith in
      let m₁ : (i + 1) % 3 ≡ 1 = omega arith in
      rw (even, m₀, m₁, here, after) (omega (arith, all c))
  | inr odd ↦
      let i = c * 3 / 2 in
      let two : c % 2 ≡ 1 = ground arith in
      let here : 2 * (i / 3) + 1 ≡ c = omega arith in
      let after : 2 * ((i + 1) / 3) + 1 ≡ c = omega arith in
      let m₁ : i % 3 ≡ 1 = omega arith in
      let m₂ : (i + 1) % 3 ≡ 2 = omega arith in
      rw (odd, m₁, m₂, here, after) (omega (arith, all c, all (2 * (i / 3))))
]

-- What a read of sectors of the partition gives, when it succeeds.
abbrev pub reading : Buffer → ℕ → ℕ → Buffer → Bool × Buffer
reading disk lba count b = (true, copy_bytes 0 disk (lba * sector_size) (count * sector_size) b)

copied_byte :
    (disk : Buffer) (from n : ℕ) (b : Buffer) (j : ℕ)
    → j < n
    → copy_bytes 0 disk from n b j ≡ disk (from + j)
copied_byte disk from n b j lt =
    let same : from + (j - 0) ≡ from + j = omega arith in
    rw (le→leb 0 j (omega arith), lt→ltb j (0 + n) (omega arith)) (ap disk same)

loaded_byte :
    (disk : Buffer) (sector j : ℕ) (v : Volume)
    → v.fat_cache_position ≡ 0xFFFFFFFF
    → reserved v + sector < 2 ^ 32
    → j < 5 * sector_size
    → ((load_table (reading disk) sector v).fat_cache j
        ≡ disk ((reserved v + sector) * sector_size + j))
      × ((load_table (reading disk) sector v).fat_cache_position ≡ sector)
unfolding load_table read_table
loaded_byte disk sector j v cold fits small =
    let missed : (ltb sector v.fat_cache_position
          || leb (u32 (v.fat_cache_position + fat_cache_size)) sector)
        ≡ true =
      ground arith in
    let first : u32 (reserved v + sector) ≡ reserved v + sector = omega arith in
    rw (missed, first)
      (
        copied_byte disk ((reserved v + sector) * sector_size) (5 * sector_size) v.fat_cache j
            small,
        refl,
      )

decode-packed :
    (e : ℕ → ℕ) (c : ℕ) (cache : Buffer) (i : ℕ)
    → ((k : ℕ) → e k < 4096)
    → cache i ≡ packed e (c * 3 / 2)
    → cache (i + 1) ≡ packed e (c * 3 / 2 + 1)
    → decode 12 c cache i ≡ widened (e c)
unfolding decode
decode-packed e c cache i all first second =
    rw (first, second, packed_pair e c all) (widened_bits (e c) (all c))

-- On a volume with a table of 12-bit entries, two of them packed in three bytes from its first reserved
-- sector on, a first `FAT_NextCluster` gives the cluster's entry, as a number of 32 bits in which the
-- marks 0xFF8 to 0xFFF of an end are 0xFFFFFFF8 to 0xFFFFFFFF.
pub following_cluster-packed :
    (e : ℕ → ℕ) (disk : Buffer) (c : ℕ) (v : Volume)
    → v.fat_type ≡ 12
    → v.fat_cache_position ≡ 0xFFFFFFFF
    → c < 4096
    → reserved v < 2 ^ 16
    → ((k : ℕ) → e k < 4096)
    → ((j : ℕ) → disk (reserved v * sector_size + j) ≡ packed e j)
    → (following_cluster (reading disk) c v).0 ≡ widened (e c)
unfolding following_cluster entry_index
following_cluster-packed e disk c v twelve cold small fits all table =
    let index : u32 (c * 3) / 2 ≡ c * 3 / 2 = omega arith in
    let sector = c * 3 / 2 / sector_size in
    let within : sub_u32 (c * 3 / 2) (u32 (sector * sector_size))
        ≡ c * 3 / 2 - sector * sector_size =
      omega arith in
    let byte : (k : ℕ)
        → k < 2
        → (load_table (reading disk) sector v).fat_cache (c * 3 / 2 - sector * sector_size + k)
          ≡ packed e (c * 3 / 2 + k) =
      λ k lt.
        (loaded_byte disk sector (c * 3 / 2 - sector * sector_size + k) v cold (omega arith)
          (omega arith)).0
        ∙ ap disk (omega arith)
        ∙ table (c * 3 / 2 + k) in
    let place = (loaded_byte disk sector 0 v cold (omega arith) (omega arith)).1 in
    let at : entry_index v.fat_type c ≡ c * 3 / 2 = rw (twelve) index in
    let first : (load_table (reading disk) sector v).fat_cache (c * 3 / 2 - sector * sector_size)
        ≡ packed e (c * 3 / 2) =
      ap (load_table (reading disk) sector v).fat_cache (omega arith)
      ∙ byte 0 (omega arith)
      ∙ ap (packed e) (omega arith) in
    let cache = (load_table (reading disk) sector v).fat_cache in
    let i = c * 3 / 2 - sector * sector_size in
    rw (at, place, within)
      (ap (λ t. decode t c cache i) twelve
        ∙ decode-packed e c cache i all first (byte 1 (omega arith)))

decode-word32 :
    (c : ℕ) (cache disk : Buffer) (i start : ℕ)
    → cache i ≡ disk start
    → ((k : ℕ) → k < 4 → cache (i + k) ≡ disk (start + k))
    → decode 32 c cache i ≡ word32 disk start
unfolding decode
decode-word32 c cache disk i start first byte =
    rw (first, byte 1 (omega arith), byte 2 (omega arith), byte 3 (omega arith)) refl

entry_index-word :
    (c : ℕ) (v : Volume) → v.fat_type ≡ 32 → c < 2 ^ 28 → entry_index v.fat_type c ≡ c * 4
unfolding entry_index
entry_index-word c v wide small = let index : u32 (c * 4) ≡ c * 4 = omega arith in rw (wide) index

-- A cluster of a 32-bit table has its whole word as the number that follows it.
following_cluster-word :
    (disk : Buffer) (c : ℕ) (v : Volume)
    → v.fat_type ≡ 32
    → v.fat_cache_position ≡ 0xFFFFFFFF
    → c < 2 ^ 28
    → reserved v < 2 ^ 16
    → (following_cluster (reading disk) c v).0 ≡ word32 disk (reserved v * sector_size + c * 4)
unfolding following_cluster
following_cluster-word disk c v wide cold small fits =
    let sector = c * 4 / sector_size in
    let i = c * 4 - sector * sector_size in
    let start = reserved v * sector_size + c * 4 in
    let at = entry_index-word c v wide small in
    let within : sub_u32 (c * 4) (u32 (sector * sector_size)) ≡ i = omega arith in
    let cache = (load_table (reading disk) sector v).fat_cache in
    let byte : (k : ℕ) → k < 4 → cache (i + k) ≡ disk (start + k) = λ k lt.
      (loaded_byte disk sector (i + k) v cold (omega arith) (omega arith)).0
      ∙ ap disk (omega arith) in
    let first : cache i ≡ disk start =
      ap cache (omega arith) ∙ byte 0 (omega arith) ∙ ap disk (omega arith) in
    let place = (loaded_byte disk sector 0 v cold (omega arith) (omega arith)).1 in
    rw (at, place, within)
      (ap (λ t. decode t c cache i) wide ∙ decode-word32 c cache disk i start first byte)

module _ (partition_read : ℕ → ℕ → Buffer → Bool × Buffer) (disk : Buffer) (v : Volume) where
  -- The read of the five sectors of the table from sector `sector` on gives what the disk holds there.
  abbrev pub TableRead : ℕ → Type 0
  TableRead sector =
      (partition_read (u32 (reserved v + sector)) fat_cache_size v.fat_cache).1
      ≡ (reading disk (u32 (reserved v + sector)) fat_cache_size v.fat_cache).1

  load_table_agrees :
      (sector : ℕ)
      → TableRead sector
      → load_table partition_read sector v ≡ load_table (reading disk) sector v
  unfolding load_table read_table
  load_table_agrees sector same =
      ap
        (λ b.
          if ltb sector v.fat_cache_position
            || leb (u32 (v.fat_cache_position + fat_cache_size)) sector
          then record (record v { fat_cache = b }) { fat_cache_position = sector }
          else v)
        same

  following_cluster_agrees :
      (c : ℕ)
      → TableRead (entry_index v.fat_type c / sector_size)
      → following_cluster partition_read c v ≡ following_cluster (reading disk) c v
  unfolding following_cluster
  following_cluster_agrees c same =
      let sector = entry_index v.fat_type c / sector_size in
      ap
        (λ (v' : Volume). (
          decode v.fat_type c v'.fat_cache
              (sub_u32 (entry_index v.fat_type c) (u32 (v'.fat_cache_position * sector_size))),
          v',
        ))
        (load_table_agrees sector same)

  -- The table has nothing to do with where a cluster stands.
  place_kept :
      (c d : ℕ)
      → u32 (first_sector c (following_cluster partition_read d v).1 + 0) ≡ first_sector c v
  unfolding following_cluster load_table read_table first_sector
  place_kept c d =
      elim (Bool-cases (
        ltb (entry_index v.fat_type d / sector_size) v.fat_cache_position
        || leb (u32 (v.fat_cache_position + fat_cache_size))
            (entry_index v.fat_type d / sector_size))) [
              | inl y ↦ rw (y) (omega arith)
              | inr n ↦ rw (n) (omega arith)
            ]

  -- On a volume with a 32-bit table an entry from 0x0FFFFFF8 to 0xFFFFFFF7 does not end a file, though
  -- the disk's marks of an end, 0x0FFFFFF8 to 0x0FFFFFFF, are among them. At the end of the last
  -- cluster of its chain, while nothing of the table is in the cache, but the table can be read,
  -- `FAT_Read` reads the sector where a cluster of that number would begin. Its loop goes on exactly
  -- if that read succeeds, and in no case is the file's size cut.
  pub boot_advance-mark :
      (i mark : ℕ) (f : FileData)
      → v.fat_type ≡ 32
      → v.fat_cache_position ≡ 0xFFFFFFFF
      → f.current_cluster < 2 ^ 28
      → reserved v < 2 ^ 16
      → cluster_sectors v ≤ f.current_sector + 1
      → TableRead (f.current_cluster * 4 / sector_size)
      → word32 disk (reserved v * sector_size + f.current_cluster * 4) ≡ mark
      → 0x0FFFFFF8 ≤ mark
      → mark < 0xFFFFFFF8
      → (let (go_on, f', v') = boot_advance partition_read (opened_file i) f v in
          (go_on ≡ (partition_read (first_sector mark v) 1 f.buffer).0)
          × (f'.buffer ≡ (partition_read (first_sector mark v) 1 f.buffer).1)
          × (f'.current_cluster ≡ mark)
          × (f'.size ≡ f.size))
  unfolding boot_advance
  boot_advance-mark i mark f wide cold small fits last read at_end low high =
      let c = f.current_cluster in
      let at : c * 4 ≡ entry_index v.fat_type c = sym (entry_index-word c v wide small) in
      let same = following_cluster_agrees c (subst (λ x. TableRead (x / sector_size)) at read) in
      let next : (following_cluster partition_read c v).0 ≡ mark =
        ap (λ (r : ℕ × Volume). r.0) same
        ∙ following_cluster-word disk c v wide cold small fits
        ∙ at_end in
      let over = le→leb (cluster_sectors v) (f.current_sector + 1) last in
      let unmarked : leb 0xFFFFFFF8 mark ≡ false = ground arith in
      rw (over, next, unmarked, place_kept mark c) (refl, refl, refl, refl)
