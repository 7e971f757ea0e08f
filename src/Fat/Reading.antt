-- ===== src/Fat/Reading.antt =====
-- `FAT_Read` of src/kernel/fs/fat.c, and the bytes of a chain of clusters.
use uami_os.Base.{
  ℕ, zero, suc, ◌+◌, ◌-◌, ◌*◌, ◌/◌, ◌%◌, ◌^◌, ◌≤◌, ◌<◌, min, ◌≡◌, refl, sym, ap, subst, ◌∙◌, ◌≢◌,
  inl, inr, Bool, true, false, not, ◌&&◌, ◌||◌, Option, some, List, ◌++◌, arith, ltb, ◌==◌, ◌!=◌,
  if◌then◌else◌, Bool-cases, ◌>>=◌, u32, sub_u32,
}
use native.Mathlib.Decide.{ℕ_discrete}
use uami_os.Fat.{Fat, FileData, Handle, root_dir, opened_file, sector_size, sectors_per_cluster}
use uami_os.Fat.Files.{bytes_at, advance, read_loop, read, file_data, set_file_data}
use uami_os.Fat.Cache.{IsValid, OnlyCache, OnlyCache-self}
use uami_os.Fat.Content.{cluster_of, sector_on_disk, content, bytes_at_ext, bytes_at_add}
use uami_os.Fat.Advance.{At, IsGoodAt, Advanced, stopped, moved, advance-Advanced}
use mathlib.Core.List.{append-nil}

module _ (s₀ : Fat) (c₀ : ℕ) (nonempty : 0 < sectors_per_cluster s₀) where
  -- The loop gives the next `count` bytes of the chain from position `p`.
  abbrev Reads : ℕ → Handle → ℕ → ℕ → FileData → Fat → Type 0
  Reads fuel h count p f s =
      (f' : FileData) × (s' : Fat) × (read_loop fuel h count f s
        ≡ some (bytes_at (content s₀ c₀) p count, f', s'))
      × OnlyCache s₀ s'

  -- The end of a round, with what became of the file.
  abbrev round_end :
      ℕ → Handle → ℕ → List ℕ → Bool × FileData × Fat → Option (List ℕ × FileData × Fat)
  round_end fuel h count out (go_on, f, s) =
      let rest = read_loop fuel h count f s in
      if go_on then (do (more, f₃, s₃) ← rest; some (out ++ more, f₃, s₃)) else some (out, f, s)

  round_end-Reads :
      (fuel : ℕ) (h : Handle) (count p : ℕ) (out : List ℕ)
      → ((f : FileData) (s : Fat)
          → OnlyCache s₀ s
          → IsValid s
          → f.position ≡ p
          → (0 < count → At s₀ c₀ nonempty f)
          → Reads fuel h count p f s)
      → (0 < count → IsGoodAt s₀ c₀ nonempty p)
      → (r : Bool × FileData × Fat) → Advanced s₀ c₀ nonempty p r
      → (f' : FileData) × (s' : Fat) × (round_end fuel h count out r
          ≡ some (out ++ bytes_at (content s₀ c₀) p count, f', s'))
        × OnlyCache s₀ s'
  unfolding bytes_at
  round_end-Reads fuel h count p out more good _ (stopped f s o end) = elim (ℕ_discrete count 0) [
    | yes none_left ↦ (f, s, rw (none_left, append-nil out) refl, o)
    | no ne ↦ let g = good (omega arith) in absurd (omega (arith, g.high))
  ]
  round_end-Reads fuel h count p out more good _ (moved f s o v place at) =
      let (f', s', run, o') = more f s o v place (λ some_left. at (good some_left)) in
      (f', s', rw (run) refl, o')

  module _ (p taken : ℕ) (f : FileData) (at : At s₀ c₀ nonempty f) (here : f.position ≡ p)
      (inside : p % sector_size + taken ≤ sector_size) where
    chunk : bytes_at f.buffer (p % sector_size) taken ≡ bytes_at (content s₀ c₀) p taken
    chunk = bytes_at_ext f.buffer (content s₀ c₀) taken (p % sector_size) p (λ k lt.
        let same_sector : f.position / sector_size ≡ (p + k) / sector_size = omega (arith, here) in
        let place : p % sector_size + k ≡ (p + k) % sector_size = omega arith in
        at.loaded (p % sector_size + k) (omega arith)
        ∙ ap (λ x. s₀.disk.byte (sector_on_disk s₀ c₀ x * sector_size + (p % sector_size + k)))
            same_sector
        ∙ ap (λ x. s₀.disk.byte (sector_on_disk s₀ c₀ ((p + k) / sector_size) * sector_size + x))
            place)

    round-Advanced :
        (h : Handle) (s : Fat)
        → OnlyCache s₀ s
        → IsValid s
        → IsGoodAt s₀ c₀ nonempty p
        → p + taken < 2 ^ 32
        → Advanced s₀ c₀ nonempty (p + taken) (
            if sector_size - p % sector_size == taken
            then advance h (record f { position = u32 (p + taken) }) s
            else (true, record f { position = u32 (p + taken) }, s))
    round-Advanced h s o v g small =
        let there : u32 (p + taken) ≡ p + taken = omega arith in
        elim (Bool-cases (sector_size - p % sector_size == taken)) [
          | inl whole ↦
              let full : sector_size - p % sector_size ≡ taken = ground arith in
              let next : (p / sector_size + 1) * sector_size ≡ p + taken = omega arith in
              rw (whole) (
                subst
                  (λ x.
                    Advanced s₀ c₀ nonempty x
                      (advance h (record f { position = u32 (p + taken) }) s))
                  next
                  (advance-Advanced s₀ c₀ nonempty h (p / sector_size)
                    (record f { position = u32 (p + taken) }) s o v g (rw (sym here) at.cluster)
                    (rw (sym here) at.sector) (there ∙ sym next)))
          | inr part ↦
              let short : sector_size - p % sector_size ≢ taken = ground arith in
              let same : f.position / sector_size ≡ u32 (p + taken) / sector_size =
                omega (arith, here, there) in
              rw (part) (
                moved _ s o v there (λ _. record {
                  cluster = at.cluster ∙ ap (cluster_of s₀ c₀) same;
                  sector = at.sector ∙ ap (λ x. x % sectors_per_cluster s₀) same;
                  loaded = λ i lt.
                      at.loaded i lt
                      ∙ ap (λ x. s₀.disk.byte (sector_on_disk s₀ c₀ x * sector_size + i)) same;
                }))
        ]

  joined :
      (p taken count : ℕ)
      → taken ≤ count
      → bytes_at (content s₀ c₀) p taken ++ bytes_at (content s₀ c₀) (p + taken) (count - taken)
        ≡ bytes_at (content s₀ c₀) p count
  joined p taken count le =
      let sum : taken + (count - taken) ≡ count = omega arith in
      sym (bytes_at_add (content s₀ c₀) taken (count - taken) p)
      ∙ ap (bytes_at (content s₀ c₀) p) sum

  -- A round, over the chain.
  round_lem :
      (fuel : ℕ) (h : Handle) (count p : ℕ) (f : FileData) (s : Fat)
      → (count == 0) ≡ false
      → f.position ≡ p
      → At s₀ c₀ nonempty f
      → (let left = sector_size - p % sector_size in
          let taken = if ltb count left then count else left in
          read_loop (suc fuel) h count f s
          ≡ round_end fuel h (count - taken) (bytes_at (content s₀ c₀) p taken) (
              if left == taken
              then advance h (record f { position = u32 (p + taken) }) s
              else (true, record f { position = u32 (p + taken) }, s)))
  unfolding read_loop
  round_lem fuel h count p f s more here at =
      let left = sector_size - p % sector_size in
      let taken = if ltb count left then count else left in
      let fits : taken ≤ left = ground arith in
      rw (more, here, chunk p taken f at here (omega arith)) refl

  read_loop-Reads :
      (fuel : ℕ) (h : Handle) (count p : ℕ) (f : FileData) (s : Fat)
      → OnlyCache s₀ s
      → IsValid s
      → f.position ≡ p
      → (0 < count → At s₀ c₀ nonempty f)
      → ((i : ℕ) → i < p + count → IsGoodAt s₀ c₀ nonempty i)
      → p + count < 2 ^ 32
      → count < fuel
      → Reads fuel h count p f s
  unfolding read_loop bytes_at
  read_loop-Reads zero h count p f s o v here at good small lt = absurd (omega arith)
  read_loop-Reads (suc fuel) h count p f s o v here at good small lt =
      elim (Bool-cases (count == 0)) [
        | inl done ↦ let none_left : count ≡ 0 = ground arith in (f, s, rw (none_left) refl, o)
        | inr more ↦
            let some_left : 0 < count = ground arith in
            let left = sector_size - p % sector_size in
            let taken = if ltb count left then count else left in
            let fits : taken ≤ left = ground arith in
            let most : taken ≤ count = ground arith in
            let progress : 0 < taken = ground arith in
            let (f', s', run, o') =
              round_end-Reads fuel h (count - taken) (p + taken) (bytes_at (content s₀ c₀) p taken)
                (λ f s o v here at.
                  read_loop-Reads fuel h (count - taken) (p + taken) f s o v here at
                    (λ i below. good i (omega arith)) (omega arith) (omega arith))
                (λ rest. good (p + taken) (omega arith)) _
                (round-Advanced p taken f (at some_left) here (omega arith) h s o v
                  (good p (omega arith)) (omega arith)) in
            (
              f',
              s',
              round_lem fuel h count p f s more here (at some_left)
                  ∙ run
                  ∙ ap (λ l. some (l, f', s')) (joined p taken count most),
              o',
            )
      ]

disk-set_file_data : (h : Handle) (f : FileData) (s : Fat) → (set_file_data h f s).disk ≡ s.disk
unfolding set_file_data
disk-set_file_data root_dir f s = refl
disk-set_file_data (opened_file i) f s = refl

-- How many bytes `FAT_Read` gives of a file that is no directory.
abbrev pub available : ℕ → FileData → ℕ
available count f = min count (f.size - f.position)

read_lem :
    (h : Handle) (count : ℕ) (s : Fat)
    → (file_data h s).is_directory ≡ false
    → (file_data h s).position ≤ (file_data h s).size
    → (file_data h s).size < 2 ^ 32
    → (let f = file_data h s in
        let n = available count f in
        read h count s
        ≡ (do (out, f', s') ← read_loop (n + 1) h n f s; some (out, set_file_data h f' s')))
unfolding read
read_lem h count s no_dir le small =
    let f = file_data h s in
    let n = available count f in
    let left : sub_u32 f.size f.position ≡ f.size - f.position = omega arith in
    let same : (if ltb (f.size - f.position) count then f.size - f.position else count) ≡ n =
      ground arith in
    let wanted : (if (not f.is_directory || f.size != 0) && ltb (sub_u32 f.size f.position) count
          then sub_u32 f.size f.position
          else count)
        ≡ n =
      rw (left, no_dir) same in
    rw (wanted) refl

-- In a valid state, `FAT_Read` of `count` bytes of a file that is no directory returns. It gives the
-- next bytes of the file's chain of clusters, `count` of them or what is left of the file, and leaves
-- the disk as it was. The file must stand at its position, at which its buffer holds the sector, and
-- the clusters to be read must be clusters of the volume.
pub read-content :
    (h : Handle) (count : ℕ) (s : Fat) (nonempty : 0 < sectors_per_cluster s)
    → IsValid s
    → (file_data h s).is_directory ≡ false
    → (file_data h s).position ≤ (file_data h s).size
    → (file_data h s).size < 2 ^ 32
    → (let f = file_data h s in
        let n = available count f in
        (0 < n → At s f.first_cluster nonempty f)
        → ((p : ℕ) → p < f.position + n → IsGoodAt s f.first_cluster nonempty p)
        → (s' : Fat) × (read h count s
            ≡ some (bytes_at (content s f.first_cluster) f.position n, s'))
          × (s'.disk ≡ s.disk))
read-content h count s nonempty v no_dir le small at good =
    let f = file_data h s in
    let n = available count f in
    let (f', s', run, o) =
      read_loop-Reads s f.first_cluster nonempty (n + 1) h n f.position f s (OnlyCache-self s) v
        refl at good (omega arith) (omega arith) in
    (
      set_file_data h f' s',
      read_lem h count s no_dir le small
          ∙ ap (λ r. r >>= (λ (out, f', s'). some (out, set_file_data h f' s'))) run,
      disk-set_file_data h f' s' ∙ o.disk,
    )
