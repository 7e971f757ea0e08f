-- ===== src/Boot/Elf/Tests.antt =====
-- A segment of one whole piece.
use uami_os.Base.{
  ℕ, ◌+◌, ◌≤◌, ◌<◌, ◌≡◌, refl, ◌⊎◌, Bool, true, Option, none, some, List, [], ◌∷◌, arith, ◌==◌,
  if◌then◌else◌, length,
}
use uami_os.Fat.{Buffer, opened_file, put32}
use uami_os.Fat.Files.{closed, bytes_at}
use uami_os.Boot.Fat.{
  Volume, boot_read, boot_read_loop, boot_advance, boot_data, set_boot_data, first_sector,
}
use uami_os.Boot.Elf.{program_loop, load_buffer, load_size}
use uami_os.Boot.Elf.Chunks.{program_loop-whole_piece}

abbrev zeros : ℕ → ℕ → Buffer → Bool × Buffer
zeros lba count b = (true, λ i. 0)

abbrev volume : Volume
volume = record {
  boot_sector = λ i. if i == 13 then 255 else 0;
  root_directory = closed;
  opened_files = record closed { size = 0x20000; opened = true } ∷ [];
  fat_cache = λ i. 0;
  fat_cache_position = 0;
  data_section_lba = 0;
  fat_type = 32;
  total_sectors = 0;
  sectors_per_fat = 0;
}

abbrev arrived : Option (List ℕ × Volume) → List ℕ
arrived none = []
arrived (some (bytes, v)) = bytes

abbrev after : Option (List ℕ × Volume) → Volume
after none = volume
after (some (bytes, v)) = v

piece : Option (List ℕ × Volume)
piece = boot_read zeros (opened_file 0) load_size volume

piece_run : boot_read zeros (opened_file 0) load_size volume ≡ some (arrived piece, after piece)
unfolding piece boot_read boot_read_loop boot_advance boot_data set_boot_data bytes_at first_sector
piece_run = refl

piece_complete : length (arrived piece) ≡ load_size
unfolding piece boot_read boot_read_loop boot_advance boot_data set_boot_data bytes_at first_sector
piece_complete = refl

-- A program header at 0x30000 that asks for 65536 bytes.
abbrev headers : Buffer
headers = put32 0x30010 load_size (λ i. 0)

program_loop-whole_piece_example :
    (m' : Buffer) × (program_loop zeros 2 0x30000 (opened_file 0) 0x100000 headers volume
      ≡ some (true, m', after piece))
    × ((j : ℕ)
        → (j < 0x30010) ⊎ (0x30014 ≤ j)
        → (j < load_buffer) ⊎ (load_buffer + load_size ≤ j)
        → m' j ≡ headers j)
program_loop-whole_piece_example =
    program_loop-whole_piece zeros 0 0x30000 (opened_file 0) 0x100000 headers volume (after piece)
      (arrived piece) refl piece_run piece_complete (omega arith)
