-- ===== src/Fat/Tests.antt =====
-- A small volume, run through the operations of the driver.
use uami_os.Base.{
  ℕ, ◌+◌, ◌*◌, ◌/◌, ◌^◌, ◌<◌, ◌≡◌, refl, subst, inl, Bool, true, Option, some, List, [], ◌∷◌, arith,
  leb→le, ◌!=◌, ◌>>=◌, replicate,
}
use uami_os.Fat.Writing.{create_file, write_file, attribute_archive}
use uami_os.Fat.{
  cluster_to_lba, accessible, disk_read, Buffer, Fat, put8, put16, put32, reserved_sectors,
  opened_file, sector_size, end_of_chain, root_dir_cluster,
}
use uami_os.Fat.Files.{
  open_root, geometry, closed, initialize, mounted, DirEntry, open_entry, read, bytes_at,
  free_handle,
}
use uami_os.Fat.Dirs.{list_dir, Listed}
use uami_os.Fat.Table.{next_cluster, set_cluster, alloc_cluster, free_chain}
use uami_os.Fat.Cache.{entry, IsValid, OnlyCache, next_cluster-entry}
use uami_os.Fat.Entry.{Entered, set_cluster-Entered}
use uami_os.Fat.Alloc.{Allocated, alloc_cluster-Allocated}
use uami_os.Base.Count.{count-le}
use uami_os.Fat.Chain.{Freed, free_chain_ends}
use uami_os.Fat.Content.{IsGood, chain_cluster, cluster_of, content}
use uami_os.Fat.Advance.{IsGoodAt}
use uami_os.Fat.Opening.{read-open_entry}
use uami_os.Fat.Slots.{Ends, ends_here, goes_on}
use uami_os.Fat.NewEntry.{decoded}
use uami_os.Fat.Adding.{Added}
use uami_os.Fat.Creating.{create_file-Added}
use uami_os.Fat.Names.{short_name, last_index, put_upper, fat_toupper, listed_name}
use uami_os.Fat.Padding.{empty, more}
use uami_os.Fat.Listing.{listed_name-short_name}

-- One sector in a cluster, 32 reserved sectors, one table of two sectors, root at cluster 2.
abbrev start : ℕ
start = 2048 * 512

abbrev formatted : Buffer
formatted = put32 (start + 32 * 512 + 8) 0x0FFFFFFF (
    put32 (start + 44) 2 (
      put32 (start + 36) 2 (
        put32 (start + 32) 64
          (put8 (start + 16) 1 (put16 (start + 14) 32 (put8 (start + 13) 1 (λ i. 0)))))))

abbrev blank : Fat
blank = record {
  disk = record { byte = formatted; working = λ l. true };
  boot_sector = λ i. 0;
  root_directory = closed;
  opened_files = replicate 10 closed;
  fat_cache = λ i. 0;
  fat_cache_position = 0;
  data_section_lba = 0;
  total_sectors = 0;
  sectors_per_fat = 0;
}

abbrev ready : Fat
ready = (initialize blank).1

mounts : (initialize blank).0 ≡ mounted
unfolding initialize disk_read accessible geometry open_root cluster_to_lba
mounts = refl

abbrev names : Option (List Listed)
names = do
  (ok, s) ← write_file 20 (b'a' ∷ b'.' ∷ b't' ∷ []) (b'x' ∷ b'y' ∷ []) ready
  (found, s') ← list_dir 20 [] s
  found

-- The same volume, mounted, with an empty cache.
abbrev volume : Fat
volume = record blank {
  boot_sector = λ i. formatted (start + i);
  fat_cache_position = 0xFFFFFFFF;
  data_section_lba = 34;
  total_sectors = 64;
  sectors_per_fat = 2;
}

volume-IsValid : IsValid volume
volume-IsValid =
    let reserved : reserved_sectors volume ≡ 32 = refl in
    record { works = λ l. refl; reserved = omega (arith, reserved); cache = inl refl }

next_cluster-entry_example :
    ((next_cluster 2 volume).0 ≡ entry volume 2)
    × OnlyCache volume (next_cluster 2 volume).1
    × IsValid (next_cluster 2 volume).1
next_cluster-entry_example = next_cluster-entry 2 volume volume-IsValid (omega arith)

set_cluster-Entered_example : Entered 2 5 volume (set_cluster 2 5 volume)
set_cluster-Entered_example = set_cluster-Entered 2 5 volume volume-IsValid (omega arith)

alloc_cluster-Allocated_example :
    (r : ℕ × Fat) × (alloc_cluster volume ≡ some r) × Allocated 2 62 volume r
alloc_cluster-Allocated_example =
    alloc_cluster-Allocated volume volume-IsValid (omega arith) (omega arith)

free_chain_ends_example :
    (s' : Fat) × (free_chain (2 ^ 28 + 2) 2 volume ≡ some s') × Freed 2 volume s'
free_chain_ends_example =
    free_chain_ends (2 ^ 28 + 2) 2 volume volume-IsValid
      (omega (arith, count-le (2 ^ 28) (λ j. entry volume j != 0)))

root-IsGood : IsGood volume 2
root-IsGood = record {
  low = omega arith;
  high = omega arith;
  fits = leb→le (2048 + (34 + 0 * 1 + 1)) (2 ^ 32) refl;
}

root-Ends : Ends volume 2 1
root-Ends =
    goes_on 2 0 root-IsGood (ends_here (entry volume 2) (leb→le end_of_chain (entry volume 2) refl))

note : DirEntry
note = record {
  name = replicate 11 b'A';
  attributes = 0x20;
  cluster_high = 0;
  cluster_low = 2;
  entry_size = 5;
}

note-IsGood : (p : ℕ) → p < 5 → IsGoodAt volume 2 (omega arith) p
unfolding chain_cluster
note-IsGood p lt =
    let at : 0 ≡ p / sector_size = omega arith in
    subst (λ q. IsGood volume (cluster_of volume 2 q)) at root-IsGood

read-open_entry_example :
    (s₁ : Fat) × (s₂ : Fat) × (open_entry note volume ≡ (some (opened_file 0), s₁))
    × (read (opened_file 0) 3 s₁ ≡ some (bytes_at (content volume 2) 0 3, s₂))
    × (s₂.disk ≡ volume.disk)
unfolding note free_handle
read-open_entry_example =
    read-open_entry note 3 volume 0 (omega arith) volume-IsValid refl refl (omega arith)
      (λ p lt. note-IsGood p (omega arith))

create_file-Added_example :
    (r : Bool × Fat) × (create_file 2 (b'a' ∷ b'.' ∷ b't' ∷ []) volume ≡ some r)
    × Added volume
        (root_dir_cluster volume)
        (decoded (short_name (b'a' ∷ b'.' ∷ b't' ∷ [])) attribute_archive 0)
        r
unfolding last_index
create_file-Added_example =
    create_file-Added 2 1 (b'a' ∷ b'.' ∷ b't' ∷ []) volume volume-IsValid refl (omega arith)
      root-Ends (omega arith)

-- The entry of the parent directory cannot be found under its name.
dots : short_name (b'.' ∷ b'.' ∷ []) ≡ b'.' ∷ replicate 10 32
unfolding short_name last_index put_upper fat_toupper
dots = refl

listed_name-short_name_example :
    listed_name (short_name (b'a' ∷ b'.' ∷ b't' ∷ [])) ≡ b'A' ∷ b'.' ∷ b'T' ∷ []
unfolding fat_toupper
listed_name-short_name_example =
    listed_name-short_name (b'a' ∷ []) (b't' ∷ []) (omega arith) (omega arith)
      (more b'a' [] (λ e. omega arith) empty) (more b't' [] (λ e. omega arith) empty)
      (more b'a' [] (λ e. omega arith) empty) (more b't' [] (λ e. omega arith) empty)
