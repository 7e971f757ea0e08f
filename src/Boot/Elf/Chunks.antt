-- ===== src/Boot/Elf/Chunks.antt =====
-- A piece of 65536 bytes in the loader of src/bootloader/stage2/elf.c.
use uami_os.Base.{
  ℕ, suc, ◌+◌, ◌%◌, ◌^◌, ◌≤◌, ◌<◌, ◌≡◌, refl, ap, ◌∙◌, ◌⊎◌, Bool, true, false, some, List, arith,
  ◌!=◌, length, u32, sub_u32,
}
use uami_os.Fat.{Buffer, Handle, word32, put32}
use uami_os.Boot.Fat.{Volume, boot_read}
use uami_os.Boot.Elf.{load_buffer, load_size, put_bytes, boot_memcpy, read_to, program_loop}

put_bytes_outside :
    (at : ℕ) (bytes : List ℕ) (m : Buffer) (j : ℕ)
    → (j < at) ⊎ (at + length bytes ≤ j)
    → put_bytes at bytes m j ≡ m j
put_bytes_outside at bytes m j h = ground arith

put32_outside : (i v : ℕ) (m : Buffer) (j : ℕ) → (j < i) ⊎ (i + 4 ≤ j) → put32 i v m j ≡ m j
put32_outside i v m j h = ground arith

put32_same : (i v : ℕ) (m : Buffer) → word32 (put32 i v m) i ≡ v % 2 ^ 32
put32_same i v m = ground arith

word_ext :
    (a b : Buffer) (i : ℕ) → ((j : ℕ) → i ≤ j → j < i + 4 → a j ≡ b j) → word32 a i ≡ word32 b i
word_ext a b i e =
    rw
      (
        e i (omega arith) (omega arith),
        e (i + 1) (omega arith) (omega arith),
        e (i + 2) (omega arith) (omega arith),
        e (i + 3) (omega arith) (omega arith),
      )
      refl

-- The copy of a piece of 65536 bytes copies nothing.
memcpy_none : (dst src : ℕ) (m : Buffer) (j : ℕ) → boot_memcpy dst src load_size m j ≡ m j
memcpy_none dst src m j = ground arith

module _ (partition_read : ℕ → ℕ → Buffer → Bool × Buffer) where
  read_to_lem :
      (h : Handle) (count at : ℕ) (m : Buffer) (v v' : Volume) (bytes : List ℕ)
      → boot_read partition_read h count v ≡ some (bytes, v')
      → read_to partition_read h count at m v ≡ some (length bytes, put_bytes at bytes m, v')
  unfolding read_to
  read_to_lem h count at m v v' bytes run = rw (run) refl

  program_loop_end :
      (fuel p : ℕ) (h : Handle) (virt : ℕ) (m : Buffer) (v : Volume)
      → word32 m (p + 16) ≡ 0
      → program_loop partition_read (suc fuel) p h virt m v ≡ some (true, m, v)
  unfolding program_loop
  program_loop_end fuel p h virt m v none_left = rw (none_left) refl

-- Of a segment of 65536 bytes, which is read in one piece, the loader copies nothing to the segment's
-- address, and reports success. Memory changes only in the buffer of the read and in the field of the
-- program header that counts the bytes to come. The program header does not stand in that buffer.
pub program_loop-whole_piece :
    (partition_read : ℕ → ℕ → Buffer → Bool × Buffer) (fuel p : ℕ) (h : Handle) (virt : ℕ)
    (m : Buffer) (v v' : Volume) (bytes : List ℕ)
    → word32 m (p + 16) ≡ load_size
    → boot_read partition_read h load_size v ≡ some (bytes, v')
    → length bytes ≡ load_size
    → p + 20 ≤ load_buffer
    → (m' : Buffer) × (program_loop partition_read (suc (suc fuel)) p h virt m v
        ≡ some (true, m', v'))
      × ((j : ℕ)
          → (j < p + 16) ⊎ (p + 20 ≤ j)
          → (j < load_buffer) ⊎ (load_buffer + load_size ≤ j)
          → m' j ≡ m j)
unfolding program_loop
program_loop-whole_piece partition_read fuel p h virt m v v' bytes size run len low =
    let m₁ = put_bytes load_buffer bytes m in
    let outside = put_bytes_outside load_buffer bytes m in
    let kept : word32 m₁ (p + 16) ≡ load_size =
      word_ext m₁ m (p + 16) (λ j from below. outside j (omega arith)) ∙ size in
    let zero_left : sub_u32 (word32 m₁ (p + 16)) (length bytes) ≡ 0 = omega (arith, kept, len) in
    let m₂ = put32 (p + 16) (sub_u32 (word32 m₁ (p + 16)) (length bytes)) m₁ in
    let m₃ = boot_memcpy virt load_buffer (length bytes) m₂ in
    let uncopied : (j : ℕ) → m₃ j ≡ m₂ j =
      λ j. ap (λ n. boot_memcpy virt load_buffer n m₂ j) len ∙ memcpy_none virt load_buffer m₂ j in
    let done : word32 m₃ (p + 16) ≡ 0 =
      word_ext m₃ m₂ (p + 16) (λ j from below. uncopied j)
      ∙ put32_same (p + 16) (sub_u32 (word32 m₁ (p + 16)) (length bytes)) m₁
      ∙ ap (λ n. n % 2 ^ 32) zero_left in
    let arrived = read_to_lem partition_read h load_size load_buffer m v v' bytes run in
    let all : (length bytes != load_size) ≡ false = rw (len) refl in
    let loop : program_loop partition_read (suc (suc fuel)) p h virt m v ≡ some (true, m₃, v') =
      rw (size, arrived, all)
        (program_loop_end partition_read fuel p h (u32 (virt + length bytes)) m₃ v' done) in
    (
      m₃,
      loop,
      λ j field buffer.
          uncopied j
          ∙ put32_outside (p + 16) (sub_u32 (word32 m₁ (p + 16)) (length bytes)) m₁ j (omega arith)
          ∙ outside j (omega (arith, len)),
    )
