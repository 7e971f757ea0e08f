-- ===== src/Boot/Disk.antt =====
-- src/bootloader/stage2/disk.c and mbr.c. The BIOS is a parameter: what a read of sectors answers,
-- and what it and a reset leave, by a state of the drive. A division by zero is `none`.
use uami_os.Base.{
  ℕ, zero, suc, ◌+◌, ◌*◌, ◌/◌, ◌%◌, Bool, true, false, ◌||◌, Option, none, some, ltb, ◌==◌,
  if◌then◌else◌, ◌>>=◌, u16, u32,
}

pub record Disk : Type 0 where
  pub id : ℕ
  pub cylinders : ℕ
  pub sectors : ℕ
  pub heads : ℕ

-- Cylinder, sector and head.
pub record Chs : Type 0 where
  pub cylinder : ℕ
  pub sector : ℕ
  pub head : ℕ

-- `DISK_LBA2CHS`.
unfoldable pub lba_to_chs : Disk → ℕ → Option Chs
lba_to_chs disk lba =
    if disk.sectors == 0 || disk.heads == 0
    then none
    else some (record {
      sector = u16 (lba % disk.sectors + 1);
      cylinder = u16 (lba / disk.sectors / disk.heads);
      head = u16 (lba / disk.sectors % disk.heads);
    })

-- The calls of the BIOS that read a number of sectors, and that reset the drive.
pub record Bios (Drive : Type 0) : Type 0 where
  pub read : ℕ → Chs → ℕ → Drive → Bool × Drive
  pub reset : ℕ → Drive → Drive

-- The loop of `DISK_ReadSectors`, with `left` attempts to go.
unfoldable pub read_loop : {Drive : Type 0} → Bios Drive → ℕ → ℕ → Chs → ℕ → Drive → Bool × Drive
read_loop bios zero id at sectors d = (false, d)
read_loop bios (suc left) id at sectors d =
    let (ok, d') = bios.read id at sectors d in
    let rest = read_loop bios left id at sectors (bios.reset id d') in
    if ok then (true, d') else rest

unfoldable pub read_sectors :
    {Drive : Type 0} → Bios Drive → Disk → ℕ → ℕ → Drive → Option (Bool × Drive)
read_sectors bios disk lba sectors d = do
  at ← lba_to_chs disk lba
  some (read_loop bios 3 disk.id at sectors d)

pub record Partition : Type 0 where
  pub disk : Disk
  pub partition_offset : ℕ
  pub partition_size : ℕ

-- `MBR_DetectPartition`, with the start and the size of the entry in the table: a floppy has none.
unfoldable pub detect_partition : Disk → ℕ → ℕ → Partition
detect_partition disk lba_start size =
    if ltb disk.id 0x80
    then record {
      disk = disk;
      partition_offset = 0;
      partition_size = u32 (disk.cylinders * disk.heads * disk.sectors);
    }
    else record { disk = disk; partition_offset = lba_start; partition_size = size }

unfoldable pub partition_read_sectors :
    {Drive : Type 0} → Bios Drive → Partition → ℕ → ℕ → Drive → Option (Bool × Drive)
partition_read_sectors bios part lba sectors d =
    read_sectors bios part.disk (u32 (lba + part.partition_offset)) sectors d
