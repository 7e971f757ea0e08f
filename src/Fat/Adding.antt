-- ===== src/Fat/Adding.antt =====
-- A new entry in a directory of src/kernel/fs/fat.c.
use uami_os.Base.{
  ℕ, ◌+◌, ◌-◌, ◌*◌, ◌^◌, ◌≤◌, ◌<◌, ◌≡◌, refl, ap, ◌∙◌, ◌⊎◌, inl, inr, Bool, true, false, ◌&&◌, some,
  List, arith, ltb, leb, Bool-cases, length,
}
use uami_os.Fat.{
  Buffer, Disk, Fat, sector_size, partition_offset, disk_read, disk_write, copy_bytes,
}
use uami_os.Fat.Entries.{Slot, unreadable, slot, no_slot, new_entry, entries_in_sector, zeroes}
use uami_os.Fat.Files.{DirEntry, entry_at}
use uami_os.Fat.Names.{short_name}
use uami_os.Fat.Writing.{add_entry}
use uami_os.Fat.Cache.{IsValid, OnlyCache}
use uami_os.Fat.Words.{Works, disk_write_lem, copy_bytes_inside, copy_bytes_outside}
use uami_os.Fat.Sectors.{IsFree, sector_bytes}
use uami_os.Fat.Slots.{
  Ends, SectorOf, SectorOf-small, SlotFound, free_entry, directory_full,
  find_free_dir_slot-SlotFound,
}
use uami_os.Fat.NewEntry.{
  length-short_name, decoded, entry_at_ext, new_entry_outside, entry_at-new_entry,
}

-- The byte of the disk at which an entry of a sector begins.
abbrev pub entry_place : ℕ → ℕ → ℕ
entry_place lba k = (partition_offset + lba) * sector_size + k * 32

-- What an attempt to add an entry to the directory at cluster `dir` comes to.
pub data Added (s : Fat) (dir : ℕ) (new : DirEntry) : Bool × Fat → Type 0 where
  added :
      (lba k : ℕ) (s' : Fat)
      → SectorOf s lba dir
      → k < entries_in_sector
      → IsFree (s.disk.byte (entry_place lba k))
      → entry_at s'.disk.byte (entry_place lba k) ≡ new
      → ((a : ℕ)
          → (a < entry_place lba k) ⊎ (entry_place lba k + 32 ≤ a)
          → s'.disk.byte a ≡ s.disk.byte a)
      → Added s dir new (true, s')
  no_room :
      (s' : Fat)
      → ((lba k : ℕ)
          → SectorOf s lba dir
          → k < entries_in_sector
          → ¬ IsFree (s.disk.byte (entry_place lba k)))
      → OnlyCache s s'
      → Added s dir new (false, s')

module _ (lba k : ℕ) (name : List ℕ) (attributes cluster : ℕ) (d : Disk) (w : Works d)
    (small : partition_offset + lba < 2 ^ 32) (lt : k < entries_in_sector) where
  sector : Buffer
  sector = new_entry (k * 32) name attributes cluster (disk_read lba 1 zeroes d).1

  abbrev rewritten : Buffer
  rewritten = copy_bytes ((partition_offset + lba) * sector_size) sector 0 (1 * sector_size) d.byte

  rewritten_inside :
      (i : ℕ) → i < sector_size → rewritten ((partition_offset + lba) * sector_size + i) ≡ sector i
  rewritten_inside i h =
      copy_bytes_inside ((partition_offset + lba) * sector_size) sector 0 (1 * sector_size) d.byte _
        (omega arith) (omega arith)
      ∙ ap sector (omega arith)

  rewritten_entry :
      length name ≡ 11
      → attributes < 2 ^ 8
      → cluster < 2 ^ 32
      → entry_at rewritten (entry_place lba k) ≡ decoded name attributes cluster
  unfolding sector
  rewritten_entry len a c =
      entry_at_ext rewritten sector (entry_place lba k) (k * 32)
        (λ i h. ap rewritten (omega arith) ∙ rewritten_inside (k * 32 + i) (omega arith))
      ∙ entry_at-new_entry (k * 32) name attributes cluster _ len a c

  rewritten_others :
      (a : ℕ) → (a < entry_place lba k) ⊎ (entry_place lba k + 32 ≤ a) → rewritten a ≡ d.byte a
  unfolding sector
  rewritten_others a other =
      let base = (partition_offset + lba) * sector_size in
      elim (Bool-cases (leb base a && ltb a (base + sector_size))) [
        | inl y ↦
            let low : base ≤ a = ground arith in
            let high : a < base + sector_size = ground arith in
            ap rewritten (omega arith)
            ∙ rewritten_inside (a - base) (omega arith)
            ∙ new_entry_outside (k * 32) name attributes cluster _ (a - base) (omega arith)
            ∙ sector_bytes lba zeroes d (a - base) w small (omega arith)
            ∙ ap d.byte (omega arith)
        | inr n ↦ copy_bytes_outside base sector 0 (1 * sector_size) d.byte a (ground arith)
      ]

-- The entry in the place that was found.
abbrev placed : List ℕ → ℕ → ℕ → Slot × Fat → Bool × Fat
placed name attributes cluster (place, s) = elim place as (λ _. Bool × Fat) [
  | unreadable ↦ (false, s)
  | no_slot ↦ (false, s)
  | slot lba offset ↦
      let b = (disk_read lba 1 zeroes s.disk).1 in
      let (ok, d) =
        disk_write lba 1 (new_entry offset (short_name name) attributes cluster b) s.disk in
      (ok, record s { disk = d })
]

Added-place :
    (dir : ℕ) (name : List ℕ) (attributes cluster : ℕ) (s : Fat)
    → attributes < 2 ^ 8
    → cluster < 2 ^ 32
    → (r : Slot × Fat) → SlotFound s dir r
    → Added s dir (decoded (short_name name) attributes cluster) (placed name attributes cluster r)
unfolding sector
Added-place dir name attributes cluster s a c _ (directory_full s' none_free o v) =
    no_room s' none_free o
Added-place dir name attributes cluster s a c _ (free_entry lba k s' at lt free o v) =
    let small = SectorOf-small s lba dir at in
    let len = length-short_name name in
    rw
      (disk_write_lem lba 1
        (sector lba k (short_name name) attributes cluster s'.disk v.works small lt) s'.disk v.works
        small)
      (added lba k _ at lt free
        (rewritten_entry lba k (short_name name) attributes cluster s'.disk v.works small lt len a
          c)
        (λ i other.
          rewritten_others lba k (short_name name) attributes cluster s'.disk v.works small lt i
            other
          ∙ ap (λ d. d.byte i) o.disk))

-- An attempt to add an entry to a directory returns in a valid state, when the directory's chain has
-- `n` clusters and there is fuel for more than `n` rounds. It succeeds exactly if an entry of the chain
-- is free. Then the 32 bytes of one free entry read back as the short form of the name, the attributes
-- and the cluster that were given, with size 0, and no other byte of the disk has changed.
pub add_entry-Added :
    (fuel n dir : ℕ) (name : List ℕ) (attributes cluster : ℕ) (s : Fat)
    → IsValid s
    → Ends s dir n
    → n < fuel
    → attributes < 2 ^ 8
    → cluster < 2 ^ 32
    → (r : Bool × Fat) × (add_entry fuel dir name attributes cluster s ≡ some r)
      × Added s dir (decoded (short_name name) attributes cluster) r
unfolding add_entry
add_entry-Added fuel n dir name attributes cluster s v ends lt a c =
    let (r, run, found) = find_free_dir_slot-SlotFound fuel n dir s v ends lt in
    (_, rw (add_entry, run) refl, Added-place dir name attributes cluster s a c r found)
