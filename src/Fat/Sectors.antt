-- ===== src/Fat/Sectors.antt =====
-- Free entries of a directory of src/kernel/fs/fat.c, in a run of sectors.
use uami_os.Base.{
  ℕ, zero, suc, ◌+◌, ◌*◌, ◌^◌, ◌≤◌, ◌<◌, ◌≡◌, sym, ap, subst, ◌∙◌, ◌⊎◌, inl, inr, true, false, ◌||◌,
  Option, none, some, arith, ◌==◌, if_cases, Bool-cases, u32,
}
use native.Mathlib.Decide.{ℕ_discrete}
use uami_os.Fat.{Buffer, Disk, sector_size, partition_offset, disk_read}
use uami_os.Fat.Entries.{Slot, slot, no_slot, free_slot, slot_in_sectors, entries_in_sector}
use uami_os.Fat.Words.{Works, disk_read_lem, copy_bytes_inside}

-- The first byte of an entry that is free.
abbrev pub IsFree : ℕ → Type 0
IsFree x = (x ≡ 0) ⊎ (x ≡ 0xE5)

IsFree-test : (x : ℕ) → (x == 0 || x == 0xE5) ≡ true → IsFree x
IsFree-test x e = elim (Bool-cases (x == 0)) [
  | inl z ↦ inl (ground arith)
  | inr n ↦ inr (ground arith)
]

not-IsFree_test : (x : ℕ) → (x == 0 || x == 0xE5) ≡ false → ¬ IsFree x
not-IsFree_test x e (inl z) = ground arith
not-IsFree_test x e (inr z) = ground arith

-- What is found among the entries from `e` on.
data Searched (b : Buffer) (e left : ℕ) : Option ℕ → Type 0 where
  free_at : (k : ℕ) → e ≤ k → k < e + left → IsFree (b (k * 32)) → Searched b e left (some (k * 32))
  none_free : ((k : ℕ) → e ≤ k → k < e + left → ¬ IsFree (b (k * 32))) → Searched b e left none

Searched-step :
    (b : Buffer) (e left : ℕ) (r : Option ℕ)
    → ¬ IsFree (b (e * 32))
    → Searched b (e + 1) left r
    → Searched b e (suc left) r
Searched-step b e left _ taken (free_at k low high f) = free_at k (omega arith) (omega arith) f
Searched-step b e left _ taken (none_free more) = none_free (λ k low high. elim (ℕ_discrete e k) [
  | yes same ↦ subst (λ x. ¬ IsFree (b (x * 32))) same taken
  | no other ↦ more k (omega arith) (omega arith)
])

free_slot-Searched : (left e : ℕ) (b : Buffer) → Searched b e left (free_slot left e b)
unfolding free_slot
free_slot-Searched zero e b = none_free (λ k low high. absurd (omega arith))
free_slot-Searched (suc left) e b =
    if_cases (Searched b e (suc left)) (b (e * 32) == 0 || b (e * 32) == 0xE5)
      (λ y. free_at e (omega arith) (omega arith) (IsFree-test (b (e * 32)) y))
      (λ n.
        Searched-step b e left _ (not-IsFree_test (b (e * 32)) n)
          (free_slot-Searched left (e + 1) b))

-- The byte of the disk at an offset of a sector.
abbrev pub disk_byte : Disk → ℕ → ℕ → ℕ
disk_byte d lba i = d.byte ((partition_offset + lba) * sector_size + i)

-- What is found in some sectors.
pub data InSectors (d : Disk) (lba left : ℕ) : Slot → Type 0 where
  slot_at :
      (l k : ℕ)
      → lba ≤ l
      → l < lba + left
      → k < entries_in_sector
      → IsFree (disk_byte d l (k * 32))
      → InSectors d lba left (slot l (k * 32))
  sectors_full :
      ((l k : ℕ)
        → lba ≤ l
        → l < lba + left
        → k < entries_in_sector
        → ¬ IsFree (disk_byte d l (k * 32)))
      → InSectors d lba left no_slot

InSectors-step :
    (lba left : ℕ) (b : Buffer) (d : Disk)
    → ((i : ℕ) → i < sector_size → b i ≡ disk_byte d lba i)
    → (r : Option ℕ) → Searched b 0 entries_in_sector r
    → (rest : Slot) → InSectors d (lba + 1) left rest
    → InSectors d lba
        (suc left)
        (elim r as (λ _. Slot) [ some offset ↦ slot lba offset | none ↦ rest ])
InSectors-step lba left b d same _ (free_at k low high f) _ more =
    slot_at lba k (omega arith) (omega arith) (omega arith)
      (subst IsFree (same (k * 32) (omega arith)) f)
InSectors-step lba left b d same _ (none_free here) _ (slot_at l k low high lt f) =
    slot_at l k (omega arith) (omega arith) lt f
InSectors-step lba left b d same _ (none_free here) _ (sectors_full more) =
    sectors_full (λ l k low high lt. elim (ℕ_discrete lba l) [
      | yes p ↦
          subst (λ x. ¬ IsFree (disk_byte d x (k * 32))) p
            (subst (λ x. ¬ IsFree x) (same (k * 32) (omega arith))
              (here k (omega arith) (omega arith)))
      | no other ↦ more l k (omega arith) (omega arith) lt
    ])

-- The buffer after the read of a sector.
pub sector_bytes :
    (lba : ℕ) (b : Buffer) (d : Disk) (i : ℕ)
    → Works d
    → partition_offset + lba < 2 ^ 32
    → i < sector_size
    → (disk_read lba 1 b d).1 i ≡ disk_byte d lba i
sector_bytes lba b d i w small lt = rw (disk_read_lem lba 1 b d w small) (
    copy_bytes_inside 0 d.byte ((partition_offset + lba) * sector_size) (1 * sector_size) b i
      (omega arith) (omega arith)
    ∙ ap d.byte (omega arith))

pub slot_in_sectors-InSectors :
    (left lba : ℕ) (b : Buffer) (d : Disk)
    → Works d
    → partition_offset + (lba + left) ≤ 2 ^ 32
    → InSectors d lba left (slot_in_sectors left lba b d)
unfolding slot_in_sectors
slot_in_sectors-InSectors zero lba b d w fits =
    sectors_full (λ l k low high lt. absurd (omega arith))
slot_in_sectors-InSectors (suc left) lba b d w fits =
    let next : u32 (lba + 1) ≡ lba + 1 = omega arith in
    let b' = (disk_read lba 1 b d).1 in
    let ok : (disk_read lba 1 b d).0 ≡ true =
      ap (λ r. r.0) (disk_read_lem lba 1 b d w (omega arith)) in
    rw (ok) (
      InSectors-step lba left b' d (λ i lt. sector_bytes lba b d i w (omega arith) lt) _
        (free_slot-Searched entries_in_sector 0 b') _
        (subst (λ x. InSectors d (lba + 1) left (slot_in_sectors left x b' d)) (sym next)
          (slot_in_sectors-InSectors left (lba + 1) b' d w (omega arith))))
