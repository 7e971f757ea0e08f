-- ===== src/Fat/Words.antt =====
-- Numbers in buffers, and sectors of a disk that works.
use uami_os.Base.{
  ℕ, zero, suc, ◌+◌, ◌-◌, ◌*◌, ◌%◌, ◌^◌, ◌≤◌, ◌<◌, ◌≡◌, refl, ◌⊎◌, Bool, true, arith, lt→ltb,
  le→leb, ==_self, u32,
}
use uami_os.Fat.{
  Buffer, Disk, word32, put32, copy_bytes, accessible, disk_read, disk_write, partition_offset,
  sector_size,
}

-- No sector of the disk fails.
abbrev pub Works : Disk → Type 0
Works d = (l : ℕ) → d.working l ≡ true

pub accessible-all :
    (working : ℕ → Bool) (lba n : ℕ) → ((l : ℕ) → working l ≡ true) → accessible working lba n ≡ n
unfolding accessible
accessible-all working lba zero w = refl
accessible-all working lba (suc n) w =
    rw (w lba, accessible-all working (lba + 1) n w) (omega arith)

module _ (lba n : ℕ) (b : Buffer) (d : Disk) (w : Works d)
    (small : partition_offset + lba < 2 ^ 32) where
  pub disk_read_lem :
      disk_read lba n b d
      ≡ (true, copy_bytes 0 d.byte ((partition_offset + lba) * sector_size) (n * sector_size) b)
  unfolding disk_read
  disk_read_lem =
      let first : u32 (partition_offset + lba) ≡ partition_offset + lba = omega arith in
      rw (first, accessible-all d.working (partition_offset + lba) n w, ==_self n)

  pub disk_write_lem : disk_write lba n b d ≡ (
    true,
    record d {
      byte = copy_bytes ((partition_offset + lba) * sector_size) b 0 (n * sector_size) d.byte;
    },
  )
  unfolding disk_write
  disk_write_lem =
      let first : u32 (partition_offset + lba) ≡ partition_offset + lba = omega arith in
      rw (first, accessible-all d.working (partition_offset + lba) n w, ==_self n)

-- A number that has been put into a buffer is read back, and no other byte changes.
pub word32-put32 : (i v : ℕ) (b : Buffer) → word32 (put32 i v b) i ≡ v % 2 ^ 32
word32-put32 i v b = ground arith

pub put32_other : (i v : ℕ) (b : Buffer) (j : ℕ) → (j < i) ⊎ (i + 4 ≤ j) → put32 i v b j ≡ b j
put32_other i v b j h = ground arith

pub copy_bytes_inside :
    (at : ℕ) (src : Buffer) (start n : ℕ) (dst : Buffer) (j : ℕ)
    → at ≤ j
    → j < at + n
    → copy_bytes at src start n dst j ≡ src (start + (j - at))
copy_bytes_inside at src start n dst j h k = rw (le→leb at j h, lt→ltb j (at + n) k)

pub copy_bytes_outside :
    (at : ℕ) (src : Buffer) (start n : ℕ) (dst : Buffer) (j : ℕ)
    → (j < at) ⊎ (at + n ≤ j)
    → copy_bytes at src start n dst j ≡ dst j
copy_bytes_outside at src start n dst j h = ground arith
