-- ===== src/Boot/Tests.antt =====
-- The boot loader's disk and strings, on concrete values.
use uami_os.Base.{ℕ, ◌<◌, ◌≡◌, refl, ◌↔◌, inr, none, some, [], ◌∷◌, ◌++◌, arith, length}
use uami_os.Boot.Disk.{Disk, Chs, lba_to_chs, detect_partition}
use uami_os.Boot.Chs.{Addresses, lba_to_chs-Addresses}
use uami_os.Boot.Strings.{codepoint_to_utf8, utf16_to_codepoint, islower, toupper}
use uami_os.Boot.Utf.{decode, codepoint_to_utf8-decode, encode, utf16_to_codepoint-encode}

-- A floppy of 1.44 MB.
abbrev floppy : Disk
floppy = record { id = 0; cylinders = 80; sectors = 18; heads = 2 }

lba_to_chs-Addresses_example :
    (at : Chs) × (lba_to_chs floppy 2879 ≡ some at) × Addresses floppy 2879 at
lba_to_chs-Addresses_example =
    lba_to_chs-Addresses floppy 2879 (omega arith) (omega arith) (omega arith) (omega arith)
      (omega arith)

floppy_size : (detect_partition floppy 0 0).partition_size ≡ 2880
unfolding detect_partition
floppy_size = refl

-- The euro sign.
codepoint_to_utf8-decode_example :
    (decode (codepoint_to_utf8 0x20AC).0 ≡ some 0x20AC)
    × ((codepoint_to_utf8 0x20AC).1 ≡ length (codepoint_to_utf8 0x20AC).0)
codepoint_to_utf8-decode_example = codepoint_to_utf8-decode 0x20AC (omega arith) (omega arith)

-- A face, which takes a pair.
utf16_to_codepoint-encode_example :
    (v : ℕ) × (utf16_to_codepoint (encode 0x1F600 ++ b'a' ∷ []) 0 ≡ some (b'a' ∷ [], v))
    × (v ≡ 0x1F600 ↔ 0x1F600 < 0x10000)
utf16_to_codepoint-encode_example =
    utf16_to_codepoint-encode 0x1F600 0 (b'a' ∷ []) (inr (omega arith, omega arith))

-- The last byte of the euro sign with the mark of a first byte.
marks_matter : decode (0xE2 ∷ 0x82 ∷ 0xEC ∷ []) ≡ none
unfolding decode
marks_matter = refl

-- A letter of one byte is written, and the pointer does not move.
letter_not_counted : codepoint_to_utf8 b'A' ≡ (b'A' ∷ [], 0)
unfolding codepoint_to_utf8
letter_not_counted = refl

capital : toupper b'q' ≡ b'Q'
unfolding toupper islower
capital = refl
