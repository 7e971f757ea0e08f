-- ===== src/Fat/Slots.antt =====
-- `fat_find_free_dir_slot` of src/kernel/fs/fat.c, over the chain of a directory.
use uami_os.Base.{
  ℕ, zero, suc, ◌+◌, ◌-◌, ◌*◌, ◌^◌, ◌≤◌, ◌<◌, ◌≡◌, refl, sym, ap, subst, ◌∙◌, false, Option, some,
  arith, leb, le→leb, sub_u32,
}
use uami_os.Fat.{Fat, end_of_chain, partition_offset, sectors_per_cluster, cluster_to_lba}
use uami_os.Fat.Entries.{
  Slot, unreadable, slot, no_slot, slot_in_sectors, find_free_dir_slot, entries_in_sector, zeroes,
}
use uami_os.Fat.Table.{next_cluster}
use uami_os.Fat.Cache.{
  entry, IsValid, OnlyCache, OnlyCache-self, entry-OnlyCache, next_cluster-entry,
}
use uami_os.Fat.Alloc.{OnlyCache-trans}
use uami_os.Fat.Words.{Works}
use uami_os.Fat.Content.{IsGood}
use uami_os.Fat.Sectors.{
  IsFree, disk_byte, InSectors, slot_at, sectors_full, slot_in_sectors-InSectors,
}

-- A chain of `n` clusters, each of them one of the volume, and its end.
pub data Ends (s : Fat) : ℕ → ℕ → Type 0 where
  ends_here : (c : ℕ) → end_of_chain ≤ c → Ends s c 0
  goes_on : (c n : ℕ) → IsGood s c → Ends s (entry s c) n → Ends s c (n + 1)

-- A sector of the chain that begins with a cluster.
pub data SectorOf (s : Fat) (lba : ℕ) : ℕ → Type 0 where
  in_first :
      (c j : ℕ)
      → IsGood s c
      → j < sectors_per_cluster s
      → lba ≡ s.data_section_lba + (c - 2) * sectors_per_cluster s + j
      → SectorOf s lba c
  in_rest : (c : ℕ) → IsGood s c → SectorOf s lba (entry s c) → SectorOf s lba c

pub SectorOf-small : (s : Fat) (lba c : ℕ) → SectorOf s lba c → partition_offset + lba < 2 ^ 32
SectorOf-small s lba _ (in_first c j g lt e) = omega (arith, g.fits)
SectorOf-small s lba _ (in_rest c g more) = SectorOf-small s lba (entry s c) more

-- What the search for a slot in the directory at cluster `c` ends in.
pub data SlotFound (s : Fat) (c : ℕ) : Slot × Fat → Type 0 where
  free_entry :
      (lba k : ℕ) (s' : Fat)
      → SectorOf s lba c
      → k < entries_in_sector
      → IsFree (disk_byte s.disk lba (k * 32))
      → OnlyCache s s'
      → IsValid s'
      → SlotFound s c (slot lba (k * 32), s')
  directory_full :
      (s' : Fat)
      → ((lba k : ℕ)
          → SectorOf s lba c
          → k < entries_in_sector
          → ¬ IsFree (disk_byte s.disk lba (k * 32)))
      → OnlyCache s s'
      → IsValid s'
      → SlotFound s c (no_slot, s')

module _ (s₀ : Fat) where
  cluster_lem :
      (c : ℕ) (s : Fat)
      → OnlyCache s₀ s
      → IsGood s₀ c
      → cluster_to_lba c s ≡ s₀.data_section_lba + (c - 2) * sectors_per_cluster s₀
  unfolding cluster_to_lba
  cluster_lem c s o g =
      let two : sub_u32 c 2 ≡ c - 2 = omega (arith, g.low, g.high) in
      let same : sectors_per_cluster s ≡ sectors_per_cluster s₀ = ap (λ b. b 13) o.boot in
      rw (o.first, same, two) (omega (arith, g.fits))

  none_on_chain :
      (c : ℕ)
      → ((l k : ℕ)
          → s₀.data_section_lba + (c - 2) * sectors_per_cluster s₀ ≤ l
          → l < s₀.data_section_lba + (c - 2) * sectors_per_cluster s₀ + sectors_per_cluster s₀
          → k < entries_in_sector
          → ¬ IsFree (disk_byte s₀.disk l (k * 32)))
      → ((lba k : ℕ)
          → SectorOf s₀ lba (entry s₀ c)
          → k < entries_in_sector
          → ¬ IsFree (disk_byte s₀.disk lba (k * 32)))
      → (lba k : ℕ) → SectorOf s₀ lba c
      → k < entries_in_sector
      → ¬ IsFree (disk_byte s₀.disk lba (k * 32))
  none_on_chain _ here further lba k (in_first c j g lt e) small =
      here lba k (omega (arith, e)) (omega (arith, e)) small
  none_on_chain _ here further lba k (in_rest c g at) small = further lba k at small

  -- After the sectors of one cluster, the rest of the chain.
  SlotFound-step :
      (c : ℕ) (s : Fat)
      → OnlyCache s₀ s
      → IsValid s
      → IsGood s₀ c
      → (here : Slot)
      → InSectors s₀.disk
          (s₀.data_section_lba + (c - 2) * sectors_per_cluster s₀)
          (sectors_per_cluster s₀)
          here
      → (rest : Option (Slot × Fat))
      → ((r : Slot × Fat) × (rest ≡ some r) × SlotFound s₀ (entry s₀ c) r)
      → (r : Slot × Fat) × ((elim here as (λ _. Option (Slot × Fat)) [
        | no_slot ↦ rest
        | unreadable ↦ some (unreadable, s)
        | slot lba offset ↦ some (slot lba offset, s)
      ])
          ≡ some r)
        × SlotFound s₀ c r
  SlotFound-step c s o v g _ (slot_at l k low high lt f) rest more =
      let base = s₀.data_section_lba + (c - 2) * sectors_per_cluster s₀ in
      (_, refl, free_entry l k s (in_first c (l - base) g (omega arith) (omega arith)) lt f o v)
  SlotFound-step c s o v g _ (sectors_full none_here) rest
        (_, run, free_entry l k s' at lt f o' v') =
      (_, run, free_entry l k s' (in_rest c g at) lt f o' v')
  SlotFound-step c s o v g _ (sectors_full none_here) rest
        (_, run, directory_full s' none_further o' v') =
      (_, run, directory_full s' (none_on_chain c none_here none_further) o' v')

  past_end : (lba c : ℕ) → end_of_chain ≤ c → ¬ SectorOf s₀ lba c
  past_end lba _ le (in_first c j g lt e) = omega (arith, g.high)
  past_end lba _ le (in_rest c g at) = omega (arith, g.high)

  slot_search :
      (fuel n c : ℕ) (s : Fat)
      → OnlyCache s₀ s
      → IsValid s
      → Ends s₀ c n
      → n < fuel
      → (r : Slot × Fat) × (find_free_dir_slot fuel c s ≡ some r) × SlotFound s₀ c r
  unfolding find_free_dir_slot
  slot_search zero n c s o v _ lt = absurd (omega arith)
  slot_search (suc fuel) _ _ s o v (ends_here c end) lt =
      let over = le→leb end_of_chain c end in
      (
        (no_slot, s),
        rw (over) refl,
        directory_full s (λ lba k at _. absurd (past_end lba c end at)) o v,
      )
  slot_search (suc fuel) _ _ s o v (goes_on c n g more) lt =
      let (e, o', v') = next_cluster-entry c s v (omega (arith, g.high)) in
      let next : (next_cluster c s).0 ≡ entry s₀ c = e ∙ entry-OnlyCache s₀ s c o in
      let s' = (next_cluster c s).1 in
      let on : leb end_of_chain c ≡ false = ground (arith, g.high) in
      let rest =
        subst
          (λ x.
            (r : Slot × Fat) × (find_free_dir_slot fuel x s' ≡ some r)
            × SlotFound s₀ (entry s₀ c) r)
          (sym next)
          (slot_search fuel n (entry s₀ c) s' (OnlyCache-trans s₀ s s' o o') v' more
            (omega arith)) in
      let lba = s₀.data_section_lba + (c - 2) * sectors_per_cluster s₀ in
      let same : sectors_per_cluster s ≡ sectors_per_cluster s₀ = ap (λ b. b 13) o.boot in
      let sectors : slot_in_sectors (sectors_per_cluster s) (cluster_to_lba c s) zeroes s.disk
          ≡ slot_in_sectors (sectors_per_cluster s₀) lba zeroes s₀.disk =
        rw (same, cluster_lem c s o g, o.disk) refl in
      let here =
        slot_in_sectors-InSectors (sectors_per_cluster s₀) lba zeroes s₀.disk
          (subst Works o.disk v.works) (omega (arith, g.fits)) in
      let round : find_free_dir_slot (suc fuel) c s
          ≡ (elim (slot_in_sectors (sectors_per_cluster s₀) lba zeroes s₀.disk)
              as (λ _. Option (Slot × Fat)) [
                | no_slot ↦ find_free_dir_slot fuel (next_cluster c s).0 s'
                | unreadable ↦ some (unreadable, s)
                | slot l offset ↦ some (slot l offset, s)
              ]) =
        rw (on, sectors) refl in
      let (r, run, found) =
        SlotFound-step c s o v g _ here (find_free_dir_slot fuel (next_cluster c s).0 s') rest in
      (r, round ∙ run, found)

-- In a valid state the search for a free entry of a directory returns, when the directory's chain has
-- `n` clusters and there is fuel for more than `n` rounds. It finds an entry of one of the chain's
-- sectors whose first byte is 0 or 0xE5, or no entry of the chain is free; nothing but the cache
-- changes.
pub find_free_dir_slot-SlotFound :
    (fuel n c : ℕ) (s : Fat)
    → IsValid s
    → Ends s c n
    → n < fuel
    → (r : Slot × Fat) × (find_free_dir_slot fuel c s ≡ some r) × SlotFound s c r
find_free_dir_slot-SlotFound fuel n c s v ends lt =
    slot_search s fuel n c s (OnlyCache-self s) v ends lt
