-- ===== src/Boot/Fat/Tests.antt =====
-- Small tables, and names.
use uami_os.Base.{
  ℕ, ◌+◌, ◌-◌, ◌*◌, ◌^◌, ◌≡◌, refl, ap, Bool, false, ◌&&◌, Option, some, List, [], ◌∷◌, ◌++◌, arith,
  ltb, leb, ◌==◌, if◌then◌else◌, leb→le, ◌>>=◌, replicate,
}
use uami_os.Fat.{Buffer, FileData, opened_file, sector_size}
use uami_os.Fat.Files.{closed}
use uami_os.Fat.Names.{put_upper, fat_toupper}
use uami_os.Boot.Fat.{
  Volume, first_sector, following_cluster, boot_advance, boot_short_name, at_dot,
}
use uami_os.Boot.Fat.Open.{take_name, at_slash, string_at}
use uami_os.Boot.Fat.Table.{packed, widened, reading, following_cluster-packed, boot_advance-mark}

-- Cluster 2 is followed by cluster 3, the last one.
abbrev table : ℕ → ℕ
table k = if k == 2 then 3 else if k == 3 then 0xFFF else 0

-- One reserved sector, and one sector in a cluster.
abbrev boot : Buffer
boot i = if i == 13 then 1 else if i == 14 then 1 else 0

abbrev small : ℕ → Volume
small fat_type = record {
  boot_sector = boot;
  root_directory = closed;
  opened_files = [];
  fat_cache = λ i. 0;
  fat_cache_position = 0xFFFFFFFF;
  data_section_lba = 10;
  fat_type = fat_type;
  total_sectors = 20;
  sectors_per_fat = 1;
}

abbrev packed_disk : Buffer
packed_disk j = packed table (j - 512)

following_cluster-packed_example :
    (following_cluster (reading packed_disk) 3 (small 12)).0 ≡ widened 0xFFF
following_cluster-packed_example =
    following_cluster-packed table packed_disk 3 (small 12) refl refl (omega arith)
      (leb→le 2 (2 ^ 16) refl) (λ k. ground arith)
      (λ j. let at : 1 * sector_size + j - 512 ≡ j = omega arith in ap (packed table) at)

-- The last cluster of a file on a volume with a 32-bit table.
abbrev marked_disk : Buffer
marked_disk j = if j == 527 then 0x0F else if leb 524 j && ltb j 527 then 0xFF else 0

abbrev last_cluster : FileData
last_cluster = record closed { position = 512; size = 2000; current_cluster = 3 }

-- The volume ends after 20 sectors.
abbrev short_volume : ℕ → ℕ → Buffer → Bool × Buffer
short_volume lba count b =
    if leb (lba + count) 20 then reading marked_disk lba count b else (false, b)

boot_advance-mark_example :
    let (go_on, f', v') = boot_advance short_volume (opened_file 0) last_cluster (small 32) in
    (go_on ≡ (short_volume (first_sector 0x0FFFFFFF (small 32)) 1 last_cluster.buffer).0)
    × (f'.buffer ≡ (short_volume (first_sector 0x0FFFFFFF (small 32)) 1 last_cluster.buffer).1)
    × (f'.current_cluster ≡ 0x0FFFFFFF)
    × (f'.size ≡ last_cluster.size)
boot_advance-mark_example =
    boot_advance-mark short_volume marked_disk (small 32) 0 0x0FFFFFFF last_cluster refl refl
      (omega arith) (leb→le 2 (2 ^ 16) refl) (leb→le 1 1 refl) refl refl (omega arith) (omega arith)

-- The last name of a path keeps a byte that stood in the buffer before it.
stale : Option (List ℕ)
stale = do (b, rest) ← take_name (b'a' ∷ []) (λ i. b'x'); string_at 256 0 b

stale_lem : stale ≡ some (b'a' ∷ b'x' ∷ [])
unfolding stale take_name at_slash string_at
stale_lem = refl

dotted_name :
    boot_short_name (b'a' ∷ b'.' ∷ b't' ∷ []) ≡ b'A' ∷ replicate 7 32 ++ (b'T' ∷ 32 ∷ 32 ∷ [])
unfolding boot_short_name at_dot put_upper fat_toupper
dotted_name = refl
