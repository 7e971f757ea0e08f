-- ===== src/Boot/Chs.antt =====
-- Sector numbers in src/bootloader/stage2/disk.c.
use uami_os.Base.{ℕ, ◌+◌, ◌*◌, ◌/◌, ◌%◌, ◌^◌, ◌≤◌, ◌<◌, ◌≡◌, some, arith, ==_ne, u16}
use native.Mathlib.Nat.{mod-lt, mod-add-div'}
use uami_os.Boot.Disk.{Disk, Chs, lba_to_chs}

-- The place is that of sector `lba`, counting sectors from 1, and lies on the disk.
pub record Addresses (disk : Disk) (lba : ℕ) (at : Chs) : Type 0 where
  pub place : (at.cylinder * disk.heads + at.head) * disk.sectors + at.sector ≡ lba + 1
  pub first : 1 ≤ at.sector
  pub last : at.sector ≤ disk.sectors
  pub on_head : at.head < disk.heads

-- On a disk with heads and sectors, `DISK_LBA2CHS` gives the place of the sector, if its cylinder
-- has 16 bits, as the number of sectors and of heads have.
pub lba_to_chs-Addresses :
    (disk : Disk) (lba : ℕ)
    → 0 < disk.sectors
    → disk.sectors < 2 ^ 16
    → 0 < disk.heads
    → disk.heads < 2 ^ 16
    → lba / disk.sectors / disk.heads < 2 ^ 16
    → (at : Chs) × (lba_to_chs disk lba ≡ some at) × Addresses disk lba at
unfolding lba_to_chs
lba_to_chs-Addresses disk lba s0 s16 h0 h16 c16 =
    let s = disk.sectors in
    let h = disk.heads in
    let track = lba / s in
    let sector_lt = mod-lt lba s0 in
    let head_lt = mod-lt track h0 in
    let sector : u16 (lba % s + 1) ≡ lba % s + 1 = omega arith in
    let head : u16 (track % h) ≡ track % h = omega arith in
    let cylinder : u16 (track / h) ≡ track / h = omega arith in
    let on_track : track / h * h + track % h ≡ track = omega (arith, mod-add-div' track h) in
    let on_disk : track * s + (lba % s + 1) ≡ lba + 1 = omega (arith, mod-add-div' lba s) in
    (
      record { sector = u16 (lba % s + 1); cylinder = u16 (track / h); head = u16 (track % h) },
      rw (==_ne s 0 (omega arith), ==_ne h 0 (omega arith)),
      record {
        place = rw (sector, head, cylinder, on_track) on_disk;
        first = omega arith;
        last = omega arith;
        on_head = omega arith;
      },
    )
