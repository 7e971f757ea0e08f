-- ===== src/Fat/Opening.antt =====
-- `fat_open_entry` of src/kernel/fs/fat.c, and a file that is read after it was opened.
use uami_os.Base.{
  ℕ, zero, suc, ◌+◌, ◌-◌, ◌*◌, ◌/◌, ◌%◌, ◌^◌, ◌≤◌, ◌<◌, min, bit_and, ◌≡◌, refl, sym, ap, subst,
  ◌∙◌, inl, inr, true, none, some, List, [], ◌∷◌, arith, ◌!=◌, Bool-cases, length, get_or-set_self,
  u32,
}
use uami_os.Fat.{
  partition_offset, Fat, FileData, opened_file, sector_size, sectors_per_cluster, disk_read,
  cluster_to_lba,
}
use uami_os.Fat.Files.{
  closed, DirEntry, entry_cluster, attribute_directory, free_handle, open_entry, read, bytes_at,
  file_data, set_file_data,
}
use uami_os.Fat.Names.{or_else}
use native.Mathlib.Nat.{zero-div, zero-mod}
use uami_os.Fat.Cache.{entry, IsValid, OnlyCache-self}
use uami_os.Fat.Words.{accessible-all}
use uami_os.Fat.Content.{chain_cluster, cluster_of, sector_on_disk, content, IsGood, bytes_at_ext}
use uami_os.Fat.Advance.{At, IsGoodAt, sector_read}
use uami_os.Fat.Reading.{available, read-content}

-- The handle that is free is a place in the list.
free_handle_inside :
    (fs : List FileData) (i k : ℕ) → free_handle fs i ≡ some k → (i ≤ k) × (k < i + length fs)
unfolding free_handle
free_handle_inside [] i k e =
    absurd (subst (λ o. elim o as (λ _. Type 0) [ none ↦ Unit | some _ ↦ ⊥ ]) e record {})
free_handle_inside (f ∷ fs) i k e = elim (Bool-cases f.opened) [
  | inl used ↦
      let (low, high) = free_handle_inside fs (i + 1) k (rw (used) at e) in
      (omega arith, omega arith)
  | inr free ↦
      let same : i ≡ k = ap (λ o. or_else o 0) (rw (free) at e) in (omega arith, omega arith)
]

module _ (s s' : Fat) (disk : s'.disk ≡ s.disk) (boot : s'.boot_sector ≡ s.boot_sector)
    (first : s'.data_section_lba ≡ s.data_section_lba) where
  entry_same : (c : ℕ) → entry s' c ≡ entry s c
  entry_same c = rw (disk, boot) refl

  chain_cluster_same : (c k : ℕ) → chain_cluster s' c k ≡ chain_cluster s c k
  unfolding chain_cluster
  chain_cluster_same c zero = refl
  chain_cluster_same c (suc k) =
      entry_same (chain_cluster s' c k) ∙ ap (entry s) (chain_cluster_same c k)

  cluster_of_same : (c q : ℕ) → cluster_of s' c q ≡ cluster_of s c q
  cluster_of_same c q =
      chain_cluster_same c (q / sectors_per_cluster s')
      ∙ ap (λ b. chain_cluster s c (q / b 13)) boot

  content_same : (c p : ℕ) → content s' c p ≡ content s c p
  unfolding sector_on_disk
  content_same c p =
      let q = p / sector_size in
      let sector : sector_on_disk s' c q ≡ sector_on_disk s c q =
        ap
          (λ d.
            partition_offset
            + (s'.data_section_lba + (d - 2) * sectors_per_cluster s' + q % sectors_per_cluster s'))
          (cluster_of_same c q)
        ∙ rw (first, boot) refl in
      ap (λ b. b (sector_on_disk s' c q * sector_size + p % sector_size)) (ap (λ d. d.byte) disk)
      ∙ ap (λ q'. s.disk.byte (q' * sector_size + p % sector_size)) sector

  IsGood-same : (d : ℕ) → IsGood s d → IsGood s' d
  IsGood-same d g = record { low = g.low; high = g.high; fits = rw (first, boot) g.fits }

-- The file that an entry becomes.
abbrev opened_data : ℕ → DirEntry → Fat → FileData
opened_data i e s = record {
  buffer =
      (disk_read (cluster_to_lba (entry_cluster e) s) 1 (file_data (opened_file i) s).buffer
        s.disk).1;
  is_directory = bit_and e.attributes attribute_directory != 0;
  position = 0;
  size = e.entry_size;
  opened = true;
  first_cluster = entry_cluster e;
  current_cluster = entry_cluster e;
  current_sector = 0;
}

module _ (e : DirEntry) (s : Fat) (i : ℕ) (v : IsValid s)
    (free : free_handle s.opened_files 0 ≡ some i) where
  abbrev after : Fat
  after = set_file_data (opened_file i) (opened_data i e s) s

  opened_lem : open_entry e s ≡ (some (opened_file i), after)
  unfolding open_entry disk_read
  opened_lem =
      let lba = cluster_to_lba (entry_cluster e) s in
      let ok = accessible-all s.disk.working (u32 (partition_offset + lba)) 1 v.works in
      rw (open_entry, free, ok) refl

  found : file_data (opened_file i) after ≡ opened_data i e s
  unfolding file_data set_file_data
  found =
      get_or-set_self s.opened_files i _ closed
        (omega (arith, (free_handle_inside s.opened_files 0 i free).1))

  after-IsValid : IsValid after
  unfolding set_file_data
  after-IsValid = record {
    works = v.works;
    reserved = v.reserved;
    cache = elim v.cache [
      | inl empty ↦ inl empty
      | inr c ↦ inr (record { place = c.place; same = c.same })
    ];
  }

  after-At :
      (nonempty : 0 < sectors_per_cluster after)
      → IsGoodAt after (entry_cluster e) nonempty 0
      → At after (entry_cluster e) nonempty (opened_data i e s)
  unfolding chain_cluster cluster_to_lba set_file_data
  after-At nonempty g =
      let c = entry_cluster e in
      let spc = sectors_per_cluster after in
      let first : c ≡ cluster_of after c 0 = ap (chain_cluster after c) (sym (zero-div spc)) in
      let lba : u32 (cluster_to_lba c after + 0) ≡ cluster_to_lba c s = omega arith in
      record {
        cluster = first;
        sector = sym (zero-mod spc);
        loaded = λ k lt.
            ap (λ l. (disk_read l 1 (file_data (opened_file i) s).buffer s.disk).1 k) (sym lba)
            ∙ sector_read after c nonempty 0 c 0 after (file_data (opened_file i) s).buffer
                (OnlyCache-self after) after-IsValid g first (sym (zero-mod spc)) k lt;
      }

-- A file that is opened through its entry, while a handle is free, is the one the first free handle
-- stands for, and a first `FAT_Read` from it gives the bytes of the entry's chain of clusters from
-- the start: `count` of them, or as many as the entry's size says. The disk stays as it was. The
-- entry is that of a file, and the clusters to be read are clusters of the volume.
pub read-open_entry :
    (e : DirEntry) (count : ℕ) (s : Fat) (i : ℕ)
    → (nonempty : 0 < sectors_per_cluster s) → IsValid s
    → free_handle s.opened_files 0 ≡ some i
    → bit_and e.attributes attribute_directory ≡ 0
    → e.entry_size < 2 ^ 32
    → ((p : ℕ) → p < min count e.entry_size → IsGoodAt s (entry_cluster e) nonempty p)
    → (s₁ : Fat) × (s₂ : Fat) × (open_entry e s ≡ (some (opened_file i), s₁))
      × (read (opened_file i) count s₁
          ≡ some (bytes_at (content s (entry_cluster e)) 0 (min count e.entry_size), s₂))
      × (s₂.disk ≡ s.disk)
unfolding set_file_data
read-open_entry e count s i nonempty v free plain small good =
    let s₁ = after e s i v free in
    let same = found e s i v free in
    let all : e.entry_size - 0 ≡ e.entry_size = omega arith in
    let goods : (p : ℕ) → p < min count e.entry_size → IsGoodAt s₁ (entry_cluster e) nonempty p =
      λ p lt. IsGood-same s s₁ refl refl refl _ (
        subst (IsGood s)
          (sym (cluster_of_same s s₁ refl refl refl (entry_cluster e) (p / sector_size)))
          (good p lt)) in
    let (s₂, run, disk) =
      read-content (opened_file i) count s₁ nonempty (after-IsValid e s i v free)
        (rw (same) (ap (λ x. x != 0) plain)) (rw (same) (omega arith)) (rw (same) small)
        (rw (same) (λ some_left. after-At e s i v free nonempty (goods 0 (ground arith))))
        (rw (same) (λ p lt. goods p (ground arith))) in
    let bytes : bytes_at (content s₁ (file_data (opened_file i) s₁).first_cluster)
          (file_data (opened_file i) s₁).position (available count (file_data (opened_file i) s₁))
        ≡ bytes_at (content s (entry_cluster e)) 0 (min count e.entry_size) =
      rw (same, all)
        (bytes_at_ext _ _ (min count e.entry_size) 0 0
          (λ k lt. content_same s s₁ refl refl refl (entry_cluster e) (0 + k))) in
    (s₁, s₂, opened_lem e s i v free, run ∙ ap (λ l. some (l, s₂)) bytes, disk)
