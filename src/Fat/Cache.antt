-- ===== src/Fat/Cache.antt =====
-- The cache of the table of src/kernel/fs/fat.c, and what it holds.
use uami_os.Fat.{
  word16, Buffer, Fat, word32, copy_bytes, partition_offset, sector_size, fat_cache_size,
  reserved_sectors,
}
use uami_os.Base.{
  ℕ, ◌+◌, ◌-◌, ◌*◌, ◌/◌, ◌%◌, ◌^◌, ◌≤◌, ◌<◌, ◌≡◌, refl, sym, ap, subst, ◌∙◌, ◌⊎◌, inl, inr, false,
  ◌||◌, arith, ltb, leb, if_cases, u32,
}
use uami_os.Fat.Table.{read_fat, load, next_cluster, cache_index}
use uami_os.Fat.Words.{Works, disk_read_lem, copy_bytes_inside}

-- The byte of the disk at which the table begins.
abbrev pub fat_start : Fat → ℕ
fat_start s = (partition_offset + reserved_sectors s) * sector_size

-- The entry of a cluster in the table on the disk.
abbrev pub entry : Fat → ℕ → ℕ
entry s c = word32 s.disk.byte (fat_start s + 4 * c) % 2 ^ 28

-- The cache is a copy of five sectors of the table.
pub record Cached (s : Fat) : Type 0 where
  pub place : s.fat_cache_position < 2 ^ 22
  pub same :
      (i : ℕ)
      → i < 2560
      → s.fat_cache i ≡ s.disk.byte (fat_start s + s.fat_cache_position * sector_size + i)

-- The disk works, and the cache is empty or a copy.
pub record IsValid (s : Fat) : Type 0 where
  pub works : Works s.disk
  pub reserved : reserved_sectors s < 2 ^ 16
  pub cache : (s.fat_cache_position ≡ 0xFFFFFFFF) ⊎ Cached s

abbrev pub IsCluster : ℕ → Type 0
IsCluster c = c < 2 ^ 28

-- Nothing but the cache has changed.
pub record OnlyCache (s s' : Fat) : Type 0 where
  pub disk : s'.disk ≡ s.disk
  pub boot : s'.boot_sector ≡ s.boot_sector
  pub root : s'.root_directory ≡ s.root_directory
  pub opened : s'.opened_files ≡ s.opened_files
  pub first : s'.data_section_lba ≡ s.data_section_lba
  pub sectors : s'.total_sectors ≡ s.total_sectors

-- The sector is in the cache.
pub record Loaded (sector : ℕ) (s s' : Fat) : Type 0 where
  pub only : OnlyCache s s'
  pub cached : Cached s'
  pub low : s'.fat_cache_position ≤ sector
  pub high : sector < s'.fat_cache_position + 5

pub OnlyCache-self : (s : Fat) → OnlyCache s s
OnlyCache-self s = record {
  disk = refl;
  boot = refl;
  root = refl;
  opened = refl;
  first = refl;
  sectors = refl;
}

filled : (sector : ℕ) → Fat → Fat
filled sector s = record s {
  fat_cache =
      copy_bytes 0 s.disk.byte ((partition_offset + (reserved_sectors s + sector)) * sector_size)
        (5 * sector_size) s.fat_cache;
  fat_cache_position = sector;
}

Cached-filled : (sector : ℕ) (s : Fat) → sector < 2 ^ 22 → Cached (filled sector s)
unfolding filled
Cached-filled sector s lt = record {
  place = lt;
  same = λ i h.
      let at : (partition_offset + (reserved_sectors s + sector)) * sector_size + (i - 0)
          ≡ fat_start s + sector * sector_size + i =
        omega arith in
      copy_bytes_inside 0 s.disk.byte _ (5 * sector_size) s.fat_cache i (omega arith) h
      ∙ ap s.disk.byte at;
}

filled-Loaded : (sector : ℕ) (s : Fat) → sector < 2 ^ 22 → Loaded sector s (filled sector s)
unfolding filled
filled-Loaded sector s lt = record {
  only = record {
    disk = refl;
    boot = refl;
    root = refl;
    opened = refl;
    first = refl;
    sectors = refl;
  };
  cached = Cached-filled sector s lt;
  low = omega arith;
  high = omega arith;
}

hit-Loaded :
    (sector : ℕ) (s : Fat)
    → IsValid s
    → sector < 2 ^ 22
    → (ltb sector s.fat_cache_position || leb (u32 (s.fat_cache_position + fat_cache_size)) sector)
      ≡ false
    → Loaded sector s s
hit-Loaded sector s v lt hit =
    let low : s.fat_cache_position ≤ sector = ground arith in
    let high : sector < u32 (s.fat_cache_position + 5) = ground arith in
    elim v.cache [
      | inl e ↦ absurd (omega arith)
      | inr c ↦ record {
        only = OnlyCache-self s;
        cached = c;
        low = low;
        high = omega (arith, c.place);
      }
    ]

pub load-Loaded :
    (sector : ℕ) (s : Fat) → IsValid s → sector < 2 ^ 22 → Loaded sector s (load sector s)
unfolding load read_fat filled
load-Loaded sector s v lt =
    let small : u32 (reserved_sectors s + sector) ≡ reserved_sectors s + sector =
      omega (arith, v.reserved) in
    if_cases (Loaded sector s)
      (ltb sector s.fat_cache_position || leb (u32 (s.fat_cache_position + fat_cache_size)) sector)
      (λ miss.
        rw
          (
            small,
            disk_read_lem (reserved_sectors s + sector) 5 s.fat_cache s.disk v.works
                (omega (arith, v.reserved)),
          )
          (filled-Loaded sector s lt))
      (λ hit. hit-Loaded sector s v lt hit)

-- The cluster is in the cache, at an index that leaves room for its entry.
pub index_lem :
    (c : ℕ) (s s' : Fat)
    → IsCluster c
    → Loaded (c * 4 / sector_size) s s'
    → (cache_index c s' < 2557)
      × (fat_start s' + s'.fat_cache_position * sector_size + cache_index c s'
          ≡ fat_start s' + 4 * c)
index_lem c s s' lt l =
    let i : cache_index c s' ≡ c * 4 - s'.fat_cache_position * 512 =
      omega (arith, l.low, l.cached.place) in
    (omega (arith, i, l.high, l.low), omega (arith, i, l.low))

pub word32_ext :
    (b b' : Buffer) (i j : ℕ)
    → b i ≡ b' j
    → b (i + 1) ≡ b' (j + 1)
    → b (i + 2) ≡ b' (j + 2)
    → b (i + 3) ≡ b' (j + 3)
    → word32 b i ≡ word32 b' j
word32_ext b b' i j p q r t = rw (p, q, r, t)

pub cached_word :
    (c : ℕ) (s s' : Fat)
    → IsCluster c
    → Loaded (c * 4 / sector_size) s s'
    → word32 s'.fat_cache (cache_index c s') ≡ word32 s'.disk.byte (fat_start s' + 4 * c)
cached_word c s s' lt l =
    let (small, place) = index_lem c s s' lt l in
    let at = cache_index c s' in
    let byte : (k : ℕ) → k < 4 → s'.fat_cache (at + k) ≡ s'.disk.byte (fat_start s' + 4 * c + k) =
      λ k h. l.cached.same (at + k) (omega arith) ∙ ap s'.disk.byte (omega arith) in
    word32_ext s'.fat_cache s'.disk.byte at (fat_start s' + 4 * c)
      (ap s'.fat_cache (omega arith) ∙ byte 0 (omega arith) ∙ ap s'.disk.byte (omega arith))
      (byte 1 (omega arith)) (byte 2 (omega arith)) (byte 3 (omega arith))

pub fat_start-OnlyCache : (s s' : Fat) → OnlyCache s s' → fat_start s' ≡ fat_start s
fat_start-OnlyCache s s' o = ap (λ b. (partition_offset + word16 b 14) * sector_size) o.boot

pub entry-OnlyCache : (s s' : Fat) (c : ℕ) → OnlyCache s s' → entry s' c ≡ entry s c
entry-OnlyCache s s' c o = rw (o.disk, fat_start-OnlyCache s s' o)

pub IsValid-Loaded : (sector : ℕ) (s s' : Fat) → IsValid s → Loaded sector s s' → IsValid s'
IsValid-Loaded sector s s' v l = record {
  works = subst Works (sym l.only.disk) v.works;
  reserved = omega (arith, ap (λ b. word16 b 14) l.only.boot, v.reserved);
  cache = inr l.cached;
}

-- The sector of a cluster's entry, as the code computes it.
abbrev pub sector_of : ℕ → ℕ
sector_of c = u32 (c * 4) / sector_size

sector_lem : (c : ℕ) → IsCluster c → (sector_of c ≡ c * 4 / sector_size) × (sector_of c < 2 ^ 22)
sector_lem c lt = (omega arith, omega arith)

pub Loaded-for :
    (c : ℕ) (s : Fat)
    → IsValid s
    → IsCluster c
    → Loaded (c * 4 / sector_size) s (load (sector_of c) s)
Loaded-for c s v lt =
    let (e, small) = sector_lem c lt in
    subst (λ x. Loaded x s (load (sector_of c) s)) e (load-Loaded (sector_of c) s v small)

-- In a valid state `fat_next_cluster` of a cluster number below 2 ^ 28 gives the entry in the table on
-- the disk, changes nothing but the cache, and keeps the state valid.
pub next_cluster-entry :
    (c : ℕ) (s : Fat)
    → IsValid s
    → IsCluster c
    → ((next_cluster c s).0 ≡ entry s c)
      × OnlyCache s (next_cluster c s).1
      × IsValid (next_cluster c s).1
unfolding next_cluster
next_cluster-entry c s v lt =
    let s' = load (sector_of c) s in
    let l = Loaded-for c s v lt in
    (
      ap (λ w. w % 2 ^ 28) (cached_word c s s' lt l) ∙ entry-OnlyCache s s' c l.only,
      l.only,
      IsValid-Loaded (c * 4 / sector_size) s s' v l,
    )
