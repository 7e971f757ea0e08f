-- ===== src/Boot/Elf.antt =====
-- src/bootloader/stage2/elf.c: a program is loaded from its file. Memory is a function from addresses
-- to bytes. The local buffer of each `FAT_Open` holds what the stack held: `stack 0` for the first,
-- `stack (i + 1)` for the one of program header `i`. A handle that is NULL and a loop that ran out of
-- fuel are `none`; what is printed is left out.
mod Chunks
mod Tests
use uami_os.Base.{
  ℕ, zero, suc, ◌+◌, ◌-◌, ◌*◌, Bool, true, false, not, ◌&&◌, Option, none, some, List, ltb, leb,
  ◌==◌, ◌!=◌, if◌then◌else◌, ◌>>=◌, length, get_or, u8, u16, u32, sub_u32,
}
use uami_os.Fat.{Buffer, Handle, word16, word32, put32, copy_bytes, fill_bytes}
use uami_os.Boot.Fat.{Volume, boot_read, boot_close}
use uami_os.Boot.Fat.Open.{boot_open}

-- `MEMORY_ELF_ADDR`, `MEMORY_LOAD_KERNEL` and `MEMORY_LOAD_SIZE`.
abbrev pub header_buffer : ℕ
header_buffer = 0x30000

abbrev pub load_buffer : ℕ
load_buffer = 0x40000

abbrev pub load_size : ℕ
load_size = 0x10000

abbrev pub elf_header_size : ℕ
elf_header_size = 52

-- The bytes of a list from an address on.
abbrev pub put_bytes : ℕ → List ℕ → Buffer → Buffer
put_bytes at bytes m j =
    if leb at j && ltb j (at + length bytes) then get_or bytes (j - at) 0 else m j

-- `memcpy` and `memset` of the bootloader, which take 16 bits of the number of bytes.
abbrev pub boot_memcpy : ℕ → ℕ → ℕ → Buffer → Buffer
boot_memcpy dst src num m = copy_bytes dst m src (u16 num) m

abbrev pub boot_memset : ℕ → ℕ → ℕ → Buffer → Buffer
boot_memset at value num = fill_bytes at (u8 value) (u16 num)

-- The tests of the header, whose outcome the loader does not look at.
unfoldable pub header_ok : Buffer → Bool
header_ok m =
    let same_magic =
      m header_buffer == 0x7F
      && (m (header_buffer + 1) == b'E'
          && (m (header_buffer + 2) == b'L' && m (header_buffer + 3) == b'F')) in
    not same_magic
    && (m (header_buffer + 4) == 1
        && (m (header_buffer + 5) == 1
            && (m (header_buffer + 6) == 1
                && (word32 m (header_buffer + 20) == 1
                    && (word16 m (header_buffer + 16) == 2
                        && word16 m (header_buffer + 18) == 3)))))

module _ (partition_read : ℕ → ℕ → Buffer → Bool × Buffer) where
  -- `FAT_Read` to an address: how many bytes arrived.
  unfoldable pub read_to : Handle → ℕ → ℕ → Buffer → Volume → Option (ℕ × Buffer × Volume)
  read_to h count at m v = do
    (bytes, v') ← boot_read partition_read h count v
    some (length bytes, put_bytes at bytes m, v')

  -- The loops over the fields Offset and FileSize of the program header at address `p`.
  unfoldable pub seek_loop : ℕ → ℕ → Handle → Buffer → Volume → Option (Bool × Buffer × Volume)
  seek_loop zero p h m v = none
  seek_loop (suc fuel) p h m v =
      let offset = word32 m (p + 4) in
      let should_read = if ltb offset load_size then offset else load_size in
      if offset == 0 then some (true, m, v) else do
        (got, m', v') ← read_to h should_read load_buffer m v
        let rest = seek_loop fuel p h (put32 (p + 4) (sub_u32 (word32 m' (p + 4)) got) m') v'
        if got != should_read then some (false, m', v') else rest

  unfoldable pub program_loop :
      ℕ → ℕ → Handle → ℕ → Buffer → Volume → Option (Bool × Buffer × Volume)
  program_loop zero p h virt m v = none
  program_loop (suc fuel) p h virt m v =
      let size = word32 m (p + 16) in
      let should_read = if ltb size load_size then size else load_size in
      if size == 0 then some (true, m, v) else do
        (got, m', v') ← read_to h should_read load_buffer m v
        let m'' = put32 (p + 16) (sub_u32 (word32 m' (p + 16)) got) m'
        let rest =
            program_loop fuel p h (u32 (virt + got)) (boot_memcpy virt load_buffer got m'') v'
        if got != should_read then some (false, m', v') else rest

  -- One program header.
  unfoldable pub load_program :
      ℕ → ℕ → List ℕ → Buffer → Buffer → Volume → Option (Bool × Buffer × Volume)
  load_program fuel p path stack m v =
      let virt = word32 m (p + 8) in
      let m₁ = boot_memset virt 0 (word32 m (p + 20)) m in
      if word32 m p != 1 then some (true, m, v) else do
        (found, v₁) ← boot_open partition_read fuel path stack v
        h ← found
        (sought, m₂, v₂) ← seek_loop (word32 m₁ (p + 4) + 1) p h m₁ v₁
        if not sought then some (false, m₂, v₂) else do
          (loaded, m₃, v₃) ← program_loop (word32 m₂ (p + 16) + 1) p h virt m₂ v₂
          some (if loaded then (true, m₃, boot_close h v₃) else (false, m₃, v₃))

  -- The program headers from number `i` on, with `left` to go.
  unfoldable pub load_programs :
      ℕ → ℕ → ℕ → ℕ → List ℕ → (ℕ → Buffer) → Buffer → Volume → Option (Bool × Buffer × Volume)
  load_programs fuel zero i entry_size path stack m v = some (true, m, v)
  load_programs fuel (suc left) i entry_size path stack m v = do
    (ok, m', v') ← load_program fuel (u32 (header_buffer + i * entry_size)) path (stack (i + 1)) m v
    if not ok
        then some (false, m', v')
        else load_programs fuel left (i + 1) entry_size path stack m' v'

  -- `ELF_Read`: whether it succeeded, the entry point, which is 0 before the header is read, and memory.
  unfoldable pub elf_read :
      ℕ → List ℕ → (ℕ → Buffer) → Buffer → Volume → Option (Bool × ℕ × Buffer × Volume)
  elf_read fuel path stack m v = do
    (found, v₁) ← boot_open partition_read fuel path (stack 0) v
    h ← found
    (got, m₂, v₂) ← read_to h elf_header_size header_buffer m v₁
    let start = word32 m₂ (header_buffer + 24)
    let table = word32 m₂ (header_buffer + 28)
    let entry_size = word16 m₂ (header_buffer + 42)
    let entry_count = word16 m₂ (header_buffer + 44)
    let table_size = u32 (entry_size * entry_count)
    if got != elf_header_size then some (false, 0, m₂, v₂) else do
      (_, m₃, v₃) ← read_to h (sub_u32 table elf_header_size) header_buffer m₂ v₂
      (got', m₄, v₄) ← read_to h table_size header_buffer m₃ v₃
      if got' != table_size then some (false, start, m₄, v₄) else do
        (ok, m₅, v₅) ← load_programs fuel entry_count 0 entry_size path stack m₄ (boot_close h v₄)
        some (ok, start, m₅, v₅)
