-- ===== src/Fat/Advance.antt =====
-- Where a file of src/kernel/fs/fat.c stands in its chain, and the step of `FAT_Read` from a sector to
-- the one after it.
use uami_os.Base.{
  ℕ, ◌+◌, ◌-◌, ◌*◌, ◌/◌, ◌%◌, ◌^◌, ◌≤◌, ◌<◌, ◌≡◌, sym, ap, subst, ◌∙◌, inl, inr, Bool, true, false,
  arith, leb, Bool-cases, u32, sub_u32,
}
use uami_os.Fat.{
  Fat, FileData, Handle, Buffer, sector_size, end_of_chain, partition_offset, sectors_per_cluster,
  disk_read, cluster_to_lba,
}
use uami_os.Fat.Files.{advance}
use uami_os.Fat.Table.{next_cluster}
use uami_os.Fat.Cache.{entry, IsValid, OnlyCache, entry-OnlyCache, next_cluster-entry}
use uami_os.Fat.Alloc.{OnlyCache-trans}
use uami_os.Fat.Words.{disk_read_lem, copy_bytes_inside}
use uami_os.Fat.Content.{
  chain_cluster, chain_next, cluster_of, sector_on_disk, IsGood, div_next_full, div_next_inside,
}
use native.Mathlib.Nat.{mod-lt}

module _ (s₀ : Fat) (c₀ : ℕ) (nonempty : 0 < sectors_per_cluster s₀) where
  -- The file stands at a byte of the chain, and its buffer holds that byte's sector.
  pub record At (f : FileData) : Type 0 where
    pub cluster : f.current_cluster ≡ cluster_of s₀ c₀ (f.position / sector_size)
    pub sector : f.current_sector ≡ (f.position / sector_size) % sectors_per_cluster s₀
    pub loaded :
        (i : ℕ)
        → i < sector_size
        → f.buffer i
          ≡ s₀.disk.byte (sector_on_disk s₀ c₀ (f.position / sector_size) * sector_size + i)

  abbrev pub IsGoodAt : ℕ → Type 0
  IsGoodAt p = IsGood s₀ (cluster_of s₀ c₀ (p / sector_size))

  spc-OnlyCache : (s : Fat) → OnlyCache s₀ s → sectors_per_cluster s ≡ sectors_per_cluster s₀
  spc-OnlyCache s o = ap (λ b. b 13) o.boot

  lba_lem :
      (d j : ℕ) (s : Fat)
      → OnlyCache s₀ s
      → IsGood s₀ d
      → j < sectors_per_cluster s₀
      → (u32 (cluster_to_lba d s + j) ≡ s₀.data_section_lba + (d - 2) * sectors_per_cluster s₀ + j)
        × (partition_offset + (s₀.data_section_lba + (d - 2) * sectors_per_cluster s₀ + j) < 2 ^ 32)
  unfolding cluster_to_lba
  lba_lem d j s o g lt =
      let two : sub_u32 d 2 ≡ d - 2 = omega (arith, g.low, g.high) in
      (rw (o.first, spc-OnlyCache s o, two) (omega (arith, g.fits)), omega (arith, g.fits))

  pub sector_read :
      (q d j : ℕ) (s : Fat) (b : Buffer)
      → OnlyCache s₀ s
      → IsValid s
      → IsGood s₀ (cluster_of s₀ c₀ q)
      → d ≡ cluster_of s₀ c₀ q
      → j ≡ q % sectors_per_cluster s₀
      → (i : ℕ) → i < sector_size
      → (disk_read (u32 (cluster_to_lba d s + j)) 1 b s.disk).1 i
        ≡ s₀.disk.byte (sector_on_disk s₀ c₀ q * sector_size + i)
  unfolding sector_on_disk
  sector_read q d j s b o v g de je i lt =
      let e = cluster_of s₀ c₀ q in
      let (lba, small) = lba_lem e (q % sectors_per_cluster s₀) s o g (mod-lt q nonempty) in
      let at =
        s₀.data_section_lba + (e - 2) * sectors_per_cluster s₀ + q % sectors_per_cluster s₀ in
      rw
        (
          de,
          je,
          lba,
          disk_read_lem at 1 b s.disk v.works small,
          copy_bytes_inside 0 s.disk.byte ((partition_offset + at) * sector_size) (1 * sector_size)
              b i (omega arith) (omega arith),
          o.disk,
        )
        (ap s₀.disk.byte (omega arith))

  -- What becomes of a file at the end of a sector.
  pub data Advanced (p : ℕ) : Bool × FileData × Fat → Type 0 where
    stopped :
        (f' : FileData) (s' : Fat)
        → OnlyCache s₀ s'
        → end_of_chain ≤ cluster_of s₀ c₀ (p / sector_size)
        → Advanced p (false, f', s')
    moved :
        (f' : FileData) (s' : Fat)
        → OnlyCache s₀ s'
        → IsValid s'
        → f'.position ≡ p
        → (IsGoodAt p → At f')
        → Advanced p (true, f', s')

  moved_to :
      (q d j : ℕ) (f : FileData) (s : Fat)
      → OnlyCache s₀ s
      → IsValid s
      → f.position ≡ q * sector_size
      → d ≡ cluster_of s₀ c₀ q
      → j ≡ q % sectors_per_cluster s₀
      → Advanced (q * sector_size) (
        true,
        record (record f { current_sector = j; current_cluster = d }) {
          buffer = (disk_read (u32 (cluster_to_lba d s + j)) 1 f.buffer s.disk).1;
        },
        s,
      )
  moved_to q d j f s o v place de je =
      let at : q * sector_size / sector_size ≡ q = omega arith in
      let there : f.position / sector_size ≡ q = omega (arith, place) in
      moved _ s o v place (λ g. record {
        cluster = de ∙ ap (cluster_of s₀ c₀) (sym there);
        sector = je ∙ ap (λ x. x % sectors_per_cluster s₀) (sym there);
        loaded = λ i lt.
            sector_read q d j s f.buffer o v (subst (λ x. IsGood s₀ (cluster_of s₀ c₀ x)) at g) de
              je i lt
            ∙ ap (λ x. s₀.disk.byte (sector_on_disk s₀ c₀ x * sector_size + i)) (sym there);
      })

  pub advance-Advanced :
      (h : Handle) (q : ℕ) (f : FileData) (s : Fat)
      → OnlyCache s₀ s
      → IsValid s
      → IsGood s₀ (cluster_of s₀ c₀ q)
      → f.current_cluster ≡ cluster_of s₀ c₀ q
      → f.current_sector ≡ q % sectors_per_cluster s₀
      → f.position ≡ (q + 1) * sector_size
      → Advanced ((q + 1) * sector_size) (advance h f s)
  unfolding advance
  advance-Advanced h q f s o v g cl se place =
      let spc = sectors_per_cluster s₀ in
      let below : q % spc < spc = mod-lt q nonempty in
      let same = spc-OnlyCache s o in
      elim (Bool-cases (leb (sectors_per_cluster s) (f.current_sector + 1))) [
        | inr inside ↦
            let lt : q % spc + 1 < spc = ground (arith, same, se) in
            let (dq, mq) = div_next_inside q spc nonempty lt in
            rw (inside) (
              moved_to (q + 1) f.current_cluster (f.current_sector + 1) f s o v place
                (cl ∙ ap (chain_cluster s₀ c₀) (sym dq)) (omega (arith, se, mq)))
        | inl over ↦
            let full : q % spc + 1 ≡ spc = ground (arith, same, se) in
            let (dq, mq) = div_next_full q spc nonempty full in
            let at : q + 1 ≡ (q + 1) * sector_size / sector_size = omega arith in
            let (e, o', v') =
              next_cluster-entry f.current_cluster s v (omega (arith, cl, g.high)) in
            let next : (next_cluster f.current_cluster s).0 ≡ cluster_of s₀ c₀ (q + 1) =
              e
              ∙ entry-OnlyCache s₀ s f.current_cluster o
              ∙ ap (entry s₀) cl
              ∙ sym (chain_next s₀ c₀ (q / spc))
              ∙ ap (chain_cluster s₀ c₀) (sym dq) in
            elim (Bool-cases (leb end_of_chain (next_cluster f.current_cluster s).0)) [
              | inl end ↦
                  rw (over, end)
                    (stopped _ _ (OnlyCache-trans s₀ s _ o o')
                      (subst (λ x. end_of_chain ≤ cluster_of s₀ c₀ x) at (ground (arith, next))))
              | inr more ↦
                  rw (over, more)
                    (moved_to (q + 1) (next_cluster f.current_cluster s).0 0 f
                      (next_cluster f.current_cluster s).1 (OnlyCache-trans s₀ s _ o o') v' place
                      next (sym mq))
            ]
      ]
