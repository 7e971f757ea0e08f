-- ===== src/Fat/NewEntry.antt =====
-- A new entry of a directory of src/kernel/fs/fat.c, and what it decodes to.
use uami_os.Base.{
  ℕ, suc, ◌+◌, ◌/◌, ◌%◌, ◌^◌, ◌≤◌, ◌<◌, ◌≡◌, refl, sym, ap, ◌∙◌, ◌⊎◌, Option, none, some, List, [],
  ◌∷◌, arith, length, get_or, take, drop, replicate, length-set,
}
use uami_os.Fat.{Buffer, word16, word32}
use uami_os.Fat.Entries.{new_entry}
use uami_os.Fat.Files.{DirEntry, entry_at, bytes_at}
use uami_os.Fat.Names.{short_name, put_upper, with_extension, last_index}
use uami_os.Fat.Content.{bytes_at_ext}

length-put_upper :
    (src : List ℕ) (at : ℕ) (out : List ℕ) → length (put_upper src at out) ≡ length out
unfolding put_upper
length-put_upper [] at out = refl
length-put_upper (c ∷ cs) at out = length-put_upper cs (at + 1) _ ∙ length-set out at _

length-with_extension :
    (name : List ℕ) (dot : Option ℕ) (out : List ℕ)
    → length (with_extension name dot out) ≡ length out
length-with_extension name none out = refl
length-with_extension name (some dot) out = length-put_upper (take 3 (drop (dot + 1) name)) 8 out

pub length-short_name : (name : List ℕ) → length (short_name name) ≡ 11
unfolding short_name
length-short_name name =
    length-with_extension name (last_index b'.' name 0 none) _
    ∙ length-put_upper _ 0 (replicate 11 32)

get_or_next : (x : ℕ) (xs : List ℕ) (k : ℕ) → get_or (x ∷ xs) (0 + 1 + k) 0 ≡ get_or xs (0 + k) 0
get_or_next x xs k =
    let after : 0 + 1 + k ≡ suc k = omega arith in
    let same : k ≡ 0 + k = omega arith in
    ap (λ j. get_or (x ∷ xs) j 0) after ∙ ap (λ j. get_or xs j 0) same

-- The bytes of a list, read one by one.
bytes_of_list : (xs : List ℕ) → bytes_at (λ i. get_or xs i 0) 0 (length xs) ≡ xs
unfolding bytes_at
bytes_of_list [] = refl
bytes_of_list (x ∷ xs) =
    ap (λ l. x ∷ l)
      (bytes_at_ext (λ i. get_or (x ∷ xs) i 0) (λ i. get_or xs i 0) (length xs) (0 + 1) 0
          (λ k lt. get_or_next x xs k)
        ∙ bytes_of_list xs)

-- What a new entry says.
abbrev pub decoded : List ℕ → ℕ → ℕ → DirEntry
decoded name attributes cluster = record {
  name = name;
  attributes = attributes;
  cluster_high = cluster / 2 ^ 16;
  cluster_low = cluster % 2 ^ 16;
  entry_size = 0;
}

pub entry_at_ext :
    (b b' : Buffer) (i j : ℕ)
    → ((k : ℕ) → k < 32 → b (i + k) ≡ b' (j + k))
    → entry_at b i ≡ entry_at b' j
unfolding entry_at
entry_at_ext b b' i j e =
    let after : (k n : ℕ) → k + n < 32 → b (i + k + n) ≡ b' (j + k + n) =
      λ k n lt. ap b (omega arith) ∙ e (k + n) lt ∙ ap b' (omega arith) in
    let two : (k : ℕ) → k + 1 < 32 → word16 b (i + k) ≡ word16 b' (j + k) =
      λ k lt. rw (e k (omega arith), after k 1 lt) refl in
    let four : word32 b (i + 28) ≡ word32 b' (j + 28) =
      rw
        (
          e 28 (omega arith),
          after 28 1 (omega arith),
          after 28 2 (omega arith),
          after 28 3 (omega arith),
        )
        refl in
    let name = bytes_at_ext b b' 11 i j (λ k lt. e k (omega arith)) in
    λ d. record {
      name = name d;
      attributes = e 11 (omega arith) d;
      cluster_high = two 20 (omega arith) d;
      cluster_low = two 26 (omega arith) d;
      entry_size = four d;
    }

module _ (at : ℕ) (name : List ℕ) (attributes cluster : ℕ) (b : Buffer) where
  pub new_entry_outside :
      (j : ℕ) → (j < at) ⊎ (at + 32 ≤ j) → new_entry at name attributes cluster b j ≡ b j
  unfolding new_entry
  new_entry_outside j h = ground arith

  new_entry_name :
      (k : ℕ) → k < 11 → new_entry at name attributes cluster b (at + k) ≡ get_or name k 0
  unfolding new_entry
  new_entry_name k lt = ground arith

  pub entry_at-new_entry :
      length name ≡ 11
      → attributes < 2 ^ 8
      → cluster < 2 ^ 32
      → entry_at (new_entry at name attributes cluster b) at ≡ decoded name attributes cluster
  unfolding entry_at new_entry
  entry_at-new_entry len small fits =
      let n = new_entry at name attributes cluster b in
      let names : bytes_at n at 11 ≡ name =
        bytes_at_ext n (λ i. get_or name i 0) 11 at 0
          (λ k lt. new_entry_name k lt ∙ ap (λ i. get_or name i 0) (omega arith))
        ∙ ap (bytes_at (λ i. get_or name i 0) 0) (sym len)
        ∙ bytes_of_list name in
      let marks : n (at + 11) ≡ attributes = ground arith in
      let high : word16 n (at + 20) ≡ cluster / 2 ^ 16 = ground arith in
      let low : word16 n (at + 26) ≡ cluster % 2 ^ 16 = ground arith in
      let size : word32 n (at + 28) ≡ 0 = ground arith in
      λ d. record {
        name = names d;
        attributes = marks d;
        cluster_high = high d;
        cluster_low = low d;
        entry_size = size d;
      }
