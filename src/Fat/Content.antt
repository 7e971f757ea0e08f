-- ===== src/Fat/Content.antt =====
-- What a file of src/kernel/fs/fat.c holds: the bytes of the clusters of its chain, in order.
use uami_os.Base.{
  ℕ, zero, suc, ◌+◌, ◌-◌, ◌*◌, ◌/◌, ◌%◌, ◌^◌, ◌≤◌, ◌<◌, ◌≡◌, refl, ap, ◌∙◌, ◌∷◌, ◌++◌, arith,
}
use uami_os.Fat.{Fat, Buffer, sector_size, end_of_chain, partition_offset, sectors_per_cluster}
use uami_os.Fat.Files.{bytes_at}
use uami_os.Fat.Cache.{entry}
use native.Mathlib.Nat.{
  div-add-mod, mul-add-div, mul-add-mod_self_left, mod-eq_of_lt, div-eq_of_lt, div_self, mod_self,
}

-- Cluster `k` of the chain that begins with `c`.
unfoldable pub chain_cluster : Fat → ℕ → ℕ → ℕ
chain_cluster s c zero = c
chain_cluster s c (suc k) = entry s (chain_cluster s c k)

pub chain_next : (s : Fat) (c k : ℕ) → chain_cluster s c (k + 1) ≡ entry s (chain_cluster s c k)
unfolding chain_cluster
chain_next s c k = let same : k + 1 ≡ suc k = omega arith in ap (chain_cluster s c) same

-- The cluster of sector `q` of the chain, and the number of that sector on the disk.
abbrev pub cluster_of : Fat → ℕ → ℕ → ℕ
cluster_of s c q = chain_cluster s c (q / sectors_per_cluster s)

unfoldable pub sector_on_disk : Fat → ℕ → ℕ → ℕ
sector_on_disk s c q =
    partition_offset
    + (s.data_section_lba
        + (cluster_of s c q - 2) * sectors_per_cluster s
        + q % sectors_per_cluster s)

-- The byte at position `p` of the chain.
abbrev pub content : Fat → ℕ → Buffer
content s c p = s.disk.byte (sector_on_disk s c (p / sector_size) * sector_size + p % sector_size)

-- A number that stands for a cluster, all of whose sectors have numbers below 2 ^ 32.
pub record IsGood (s : Fat) (d : ℕ) : Type 0 where
  pub low : 2 ≤ d
  pub high : d < end_of_chain
  pub fits :
      partition_offset
        + (s.data_section_lba + (d - 2) * sectors_per_cluster s + sectors_per_cluster s)
      ≤ 2 ^ 32

pub bytes_at_ext :
    (b b' : Buffer) (n i j : ℕ)
    → ((k : ℕ) → k < n → b (i + k) ≡ b' (j + k))
    → bytes_at b i n ≡ bytes_at b' j n
unfolding bytes_at
bytes_at_ext b b' zero i j e = refl
bytes_at_ext b b' (suc n) i j e =
    let first : b i ≡ b' j = ap b (omega arith) ∙ e 0 (omega arith) ∙ ap b' (omega arith) in
    let rest : bytes_at b (i + 1) n ≡ bytes_at b' (j + 1) n =
      bytes_at_ext b b' n (i + 1) (j + 1)
        (λ k h. ap b (omega arith) ∙ e (k + 1) (omega arith) ∙ ap b' (omega arith)) in
    rw (first, rest) refl

pub bytes_at_add :
    (b : Buffer) (m n i : ℕ) → bytes_at b i (m + n) ≡ bytes_at b i m ++ bytes_at b (i + m) n
unfolding bytes_at
bytes_at_add b zero n i =
    let none_first : zero + n ≡ n = omega arith in
    let at : i + zero ≡ i = omega arith in rw (none_first, at) refl
bytes_at_add b (suc m) n i =
    let at : i + 1 + m ≡ i + suc m = omega arith in
    let sum : suc m + n ≡ suc (m + n) = omega arith in
    ap (bytes_at b i) sum
    ∙ ap (λ l. b i ∷ l)
        (bytes_at_add b m n (i + 1) ∙ ap (λ x. bytes_at b (i + 1) m ++ bytes_at b x n) at)

-- One step of a division.
module _ (q m : ℕ) (nonempty : 0 < m) where
  pub div_next_full : q % m + 1 ≡ m → ((q + 1) / m ≡ q / m + 1) × ((q + 1) % m ≡ 0)
  div_next_full full =
      let same : q + 1 ≡ m * (q / m) + m = omega (arith, div-add-mod q m) in
      (
        ap (λ x. x / m) same
            ∙ mul-add-div nonempty (q / m) m
            ∙ ap (λ x. q / m + x) (div_self nonempty),
        ap (λ x. x % m) same ∙ mul-add-mod_self_left m (q / m) m ∙ mod_self m,
      )

  pub div_next_inside : q % m + 1 < m → ((q + 1) / m ≡ q / m) × ((q + 1) % m ≡ q % m + 1)
  div_next_inside lt =
      let same : q + 1 ≡ m * (q / m) + (q % m + 1) = omega (arith, div-add-mod q m) in
      let none_more : q / m + (q % m + 1) / m ≡ q / m = rw (div-eq_of_lt lt) (omega arith) in
      (
        ap (λ x. x / m) same ∙ mul-add-div nonempty (q / m) (q % m + 1) ∙ none_more,
        ap (λ x. x % m) same ∙ mul-add-mod_self_left m (q / m) (q % m + 1) ∙ mod-eq_of_lt lt,
      )
