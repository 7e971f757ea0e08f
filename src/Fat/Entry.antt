-- ===== src/Fat/Entry.antt =====
-- What `fat_set_cluster` of src/kernel/fs/fat.c does to the table, and to the disk around it.
use uami_os.Base.{
  ℕ, ◌+◌, ◌-◌, ◌*◌, ◌/◌, ◌%◌, ◌^◌, ◌≤◌, ◌<◌, ◌≡◌, refl, sym, ap, subst, ◌∙◌, ◌≢◌, ◌⊎◌, inl, inr,
  arith, u32,
}
use native.Mathlib.Decide.{dec_lt}
use uami_os.Fat.{
  word16, Buffer, Fat, word32, put32, copy_bytes, partition_offset, sector_size, reserved_sectors,
}
use uami_os.Fat.Table.{write_fat, load, set_cluster, cache_index}
use uami_os.Fat.Words.{
  Works, disk_write_lem, word32-put32, put32_other, copy_bytes_inside, copy_bytes_outside,
}
use uami_os.Fat.Cache.{
  fat_start, entry, Cached, IsValid, IsCluster, Loaded, index_lem, word32_ext, fat_start-OnlyCache,
  Loaded-for, sector_of,
}

-- The entry of cluster `c` has become `value`, and nothing else on the disk or in the state has
-- changed, but the cache.
pub record Entered (c value : ℕ) (s s' : Fat) : Type 0 where
  pub valid : IsValid s'
  pub here : entry s' c ≡ value % 2 ^ 28
  pub bytes :
      (a : ℕ)
      → (a < fat_start s + 4 * c) ⊎ (fat_start s + 4 * c + 4 ≤ a)
      → s'.disk.byte a ≡ s.disk.byte a
  pub boot : s'.boot_sector ≡ s.boot_sector
  pub root : s'.root_directory ≡ s.root_directory
  pub opened : s'.opened_files ≡ s.opened_files
  pub first : s'.data_section_lba ≡ s.data_section_lba
  pub sectors : s'.total_sectors ≡ s.total_sectors

-- The state after the write, from the one after the load.
written : ℕ → ℕ → Fat → Fat
written c value s =
    let i = cache_index c s in
    let cache = put32 i (word32 s.fat_cache i / 2 ^ 28 * 2 ^ 28 + value % 2 ^ 28) s.fat_cache in
    record s {
      fat_cache = cache;
      disk = record s.disk {
        byte =
            copy_bytes
              ((partition_offset + (reserved_sectors s + s.fat_cache_position)) * sector_size) cache
              0 2560 s.disk.byte;
      };
    }

set_cluster-written :
    (c value : ℕ) (s : Fat)
    → IsValid s
    → IsCluster c
    → set_cluster c value s ≡ written c value (load (sector_of c) s)
unfolding set_cluster write_fat written
set_cluster-written c value s v lt =
    let l = Loaded-for c s v lt in
    let s' = load (sector_of c) s in
    let r : reserved_sectors s' ≡ reserved_sectors s = ap (λ b. word16 b 14) l.only.boot in
    let small : u32 (reserved_sectors s' + s'.fat_cache_position)
        ≡ reserved_sectors s' + s'.fat_cache_position =
      omega (arith, r, v.reserved, l.cached.place) in
    rw (
      small,
      disk_write_lem (reserved_sectors s' + s'.fat_cache_position) 5
          (put32 (cache_index c s')
            (word32 s'.fat_cache (cache_index c s') / 2 ^ 28 * 2 ^ 28 + value % 2 ^ 28)
            s'.fat_cache)
          s'.disk (subst Works (sym l.only.disk) v.works)
          (omega (arith, r, v.reserved, l.cached.place)),
    )

module _ (c value : ℕ) (s s₁ : Fat) (v : IsValid s) (lt : IsCluster c)
    (l : Loaded (c * 4 / sector_size) s s₁) where
  abbrev base : ℕ
  base = fat_start s₁ + s₁.fat_cache_position * sector_size

  abbrev new_cache : Buffer
  new_cache = (written c value s₁).fat_cache

  base_lem : (partition_offset + (reserved_sectors s₁ + s₁.fat_cache_position)) * sector_size ≡ base
  base_lem = omega arith

  inside : (k : ℕ) → k < 2560 → (written c value s₁).disk.byte (base + k) ≡ new_cache k
  unfolding written
  inside k h = rw (base_lem) (
      copy_bytes_inside base new_cache 0 2560 s₁.disk.byte (base + k) (omega arith) (omega arith)
      ∙ ap new_cache (omega arith))

  outside :
      (a : ℕ) → (a < base) ⊎ (base + 2560 ≤ a) → (written c value s₁).disk.byte a ≡ s₁.disk.byte a
  unfolding written
  outside a h = rw (base_lem) (copy_bytes_outside base new_cache 0 2560 s₁.disk.byte a h)

  kept_in_cache :
      (k : ℕ) → (k < cache_index c s₁) ⊎ (cache_index c s₁ + 4 ≤ k) → new_cache k ≡ s₁.fat_cache k
  unfolding written
  kept_in_cache k h = put32_other (cache_index c s₁) _ s₁.fat_cache k h

  kept :
      (a : ℕ)
      → (a < fat_start s₁ + 4 * c) ⊎ (fat_start s₁ + 4 * c + 4 ≤ a)
      → (written c value s₁).disk.byte a ≡ s₁.disk.byte a
  kept a h =
      let (small, place) = index_lem c s s₁ lt l in
      elim (dec_lt a base) [
        | yes below ↦ outside a (inl below)
        | no up ↦ elim (dec_lt a (base + 2560)) [
          | no above ↦ outside a (inr (omega arith))
          | yes within ↦
              let k = a - base in
              let at : base + k ≡ a = omega arith in
              ap (written c value s₁).disk.byte (sym at)
              ∙ inside k (omega arith)
              ∙ kept_in_cache k (elim h [ inl x ↦ inl (omega arith) | inr x ↦ inr (omega arith) ])
              ∙ l.cached.same k (omega arith)
              ∙ ap s₁.disk.byte at
        ]
      ]

  same_start : fat_start (written c value s₁) ≡ fat_start s₁
  unfolding written
  same_start = refl

  new_word : word32 new_cache (cache_index c s₁) % 2 ^ 28 ≡ value % 2 ^ 28
  unfolding written
  new_word = omega (
    arith,
    word32-put32 (cache_index c s₁)
        (word32 s₁.fat_cache (cache_index c s₁) / 2 ^ 28 * 2 ^ 28 + value % 2 ^ 28) s₁.fat_cache,
  )

  entered : entry (written c value s₁) c ≡ value % 2 ^ 28
  entered =
      let (small, place) = index_lem c s s₁ lt l in
      let i = cache_index c s₁ in
      let at = fat_start s₁ + 4 * c in
      let b = (written c value s₁).disk.byte in
      let read : (k : ℕ) → k < 4 → b (at + k) ≡ new_cache (i + k) =
        λ k h. ap b (omega arith) ∙ inside (i + k) (omega arith) in
      let word : word32 b at ≡ word32 new_cache i =
        word32_ext b new_cache at i
          (ap b (omega arith) ∙ read 0 (omega arith) ∙ ap new_cache (omega arith))
          (read 1 (omega arith)) (read 2 (omega arith)) (read 3 (omega arith)) in
      rw (same_start, word) new_word

  Cached-written : Cached (written c value s₁)
  unfolding written
  Cached-written = record { place = l.cached.place; same = λ i h. sym (inside i h) }

  all : Entered c value s (written c value s₁)
  unfolding written
  all =
      let start = fat_start-OnlyCache s s₁ l.only in
      record {
        valid = record {
          works = subst Works (sym l.only.disk) v.works;
          reserved = omega (arith, ap (λ b. word16 b 14) l.only.boot, v.reserved);
          cache = inr Cached-written;
        };
        here = entered;
        bytes = λ a h.
            kept a (elim h [ inl x ↦ inl (omega arith) | inr x ↦ inr (omega arith) ])
            ∙ ap (λ d. d.byte a) l.only.disk;
        boot = l.only.boot;
        root = l.only.root;
        opened = l.only.opened;
        first = l.only.first;
        sectors = l.only.sectors;
      }

-- In a valid state `fat_set_cluster` gives a cluster below 2 ^ 28 its new entry, cut to 28 bits, and
-- changes no other byte of the disk and nothing else but the cache. The state stays valid.
pub set_cluster-Entered :
    (c value : ℕ) (s : Fat) → IsValid s → IsCluster c → Entered c value s (set_cluster c value s)
set_cluster-Entered c value s v lt =
    let s₁ = load (sector_of c) s in
    let l = Loaded-for c s v lt in
    subst (Entered c value s) (sym (set_cluster-written c value s v lt)) (all c value s s₁ v lt l)

-- The other entries are as they were.
pub entry_other :
    (c value c' : ℕ) (s s' : Fat) → Entered c value s s' → c ≢ c' → entry s' c' ≡ entry s c'
entry_other c value c' s s' w ne =
    let start : fat_start s' ≡ fat_start s =
      ap (λ b. (partition_offset + word16 b 14) * sector_size) w.boot in
    let at = fat_start s + 4 * c' in
    let outside : (k : ℕ)
        → k < 4
        → (at + k < fat_start s + 4 * c) ⊎ (fat_start s + 4 * c + 4 ≤ at + k) =
      λ k h. omega arith in
    rw (start) (
      ap (λ x. x % 2 ^ 28)
        (word32_ext s'.disk.byte s.disk.byte at at (w.bytes at (omega arith))
          (w.bytes (at + 1) (outside 1 (omega arith))) (w.bytes (at + 2) (outside 2 (omega arith)))
          (w.bytes (at + 3) (outside 3 (omega arith)))))
