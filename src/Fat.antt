-- ===== src/Fat.antt =====
-- src/kernel/fs/fat.c: the state of the FAT32 driver. A buffer, the disk and the boot sector are
-- functions from the index of a byte; an access that C leaves undefined is `none`, and so is a loop
-- that ran out of fuel. The log lines are left out.
pub mod Table
pub mod Names
pub mod Files
pub mod Dirs
pub mod Entries
pub mod Writing
mod Words
mod Cache
mod Entry
mod Alloc
mod Chain
mod Content
mod Advance
mod Reading
mod Opening
mod Sectors
mod Slots
mod NewEntry
mod Adding
mod Creating
mod Padding
mod Listing
mod Tests
use uami_os.Base.{
  ℕ, zero, suc, ◌+◌, ◌-◌, ◌*◌, ◌/◌, ◌^◌, Bool, ◌&&◌, List, ltb, leb, ◌==◌, if◌then◌else◌, u8, u32,
  sub_u32,
}

abbrev pub Buffer : Type 0
Buffer = ℕ → ℕ

-- What the driver in ata.c gives: the bytes of all sectors, and the sectors that it can access.
pub record Disk : Type 0 where
  pub byte : Buffer
  pub working : ℕ → Bool

abbrev pub sector_size : ℕ
sector_size = 512

abbrev pub max_file_handles : ℕ
max_file_handles = 10

abbrev pub fat_cache_size : ℕ
fat_cache_size = 5

-- The first values that mark the end of a chain.
abbrev pub end_of_chain : ℕ
end_of_chain = 0x0FFFFFF8

-- `FAT_FileData`; the handle of its public part is its place.
pub record FileData : Type 0 where
  pub buffer : Buffer
  pub is_directory : Bool
  pub position : ℕ
  pub size : ℕ
  pub opened : Bool
  pub first_cluster : ℕ
  pub current_cluster : ℕ
  pub current_sector : ℕ

-- `ROOT_DIR_HANDLE`, or the index of an opened file.
pub data Handle : Type 0 where
  root_dir : Handle
  opened_file : ℕ → Handle

-- `g_FatData` and the other variables.
pub record Fat : Type 0 where
  pub disk : Disk
  pub boot_sector : Buffer
  pub root_directory : FileData
  pub opened_files : List FileData
  pub fat_cache : Buffer
  pub fat_cache_position : ℕ
  pub data_section_lba : ℕ
  pub total_sectors : ℕ
  pub sectors_per_fat : ℕ

abbrev pub partition_offset : ℕ
partition_offset = 2048

-- Numbers in a buffer, the low byte first.
abbrev pub word16 : Buffer → ℕ → ℕ
word16 b i = b i + 256 * b (i + 1)

abbrev pub word32 : Buffer → ℕ → ℕ
word32 b i = b i + 2 ^ 8 * b (i + 1) + 2 ^ 16 * b (i + 2) + 2 ^ 24 * b (i + 3)

abbrev pub put8 : ℕ → ℕ → Buffer → Buffer
put8 i v b j = if j == i then u8 v else b j

abbrev pub put16 : ℕ → ℕ → Buffer → Buffer
put16 i v b = put8 (i + 1) (v / 2 ^ 8) (put8 i v b)

abbrev pub put32 : ℕ → ℕ → Buffer → Buffer
put32 i v b = put16 (i + 2) (v / 2 ^ 16) (put16 i v b)

-- `n` bytes from `src`, from its index `from` on, at index `at` of `dst`.
abbrev pub copy_bytes : ℕ → Buffer → ℕ → ℕ → Buffer → Buffer
copy_bytes at src from n dst j = if leb at j && ltb j (at + n) then src (from + (j - at)) else dst j

abbrev pub fill_bytes : ℕ → ℕ → ℕ → Buffer → Buffer
fill_bytes at v n dst j = if leb at j && ltb j (at + n) then v else dst j

-- How many of `count` sectors from `lba` on can be accessed before the first that cannot.
unfoldable pub accessible : (ℕ → Bool) → ℕ → ℕ → ℕ
accessible working lba zero = 0
accessible working lba (suc count) =
    let rest = accessible working (lba + 1) count in if working lba then rest + 1 else 0

-- `disk_read`: whether it succeeded, and the buffer. What arrived before a failure stays.
unfoldable pub disk_read : ℕ → ℕ → Buffer → Disk → Bool × Buffer
disk_read lba count buffer d =
    let first = u32 (partition_offset + lba) in
    let got = accessible d.working first count in
    (got == count, copy_bytes 0 d.byte (first * sector_size) (got * sector_size) buffer)

unfoldable pub disk_write : ℕ → ℕ → Buffer → Disk → Bool × Disk
disk_write lba count buffer d =
    let first = u32 (partition_offset + lba) in
    let got = accessible d.working first count in
    (
      got == count,
      record d { byte = copy_bytes (first * sector_size) buffer 0 (got * sector_size) d.byte },
    )

-- Fields of `FAT_BootSector`.
abbrev pub sectors_per_cluster : Fat → ℕ
sectors_per_cluster s = s.boot_sector 13

abbrev pub reserved_sectors : Fat → ℕ
reserved_sectors s = word16 s.boot_sector 14

abbrev pub fat_count : Fat → ℕ
fat_count s = s.boot_sector 16

abbrev pub root_dir_cluster : Fat → ℕ
root_dir_cluster s = word32 s.boot_sector 44

unfoldable pub cluster_to_lba : ℕ → Fat → ℕ
cluster_to_lba cluster s = u32 (s.data_section_lba + sub_u32 cluster 2 * sectors_per_cluster s)
