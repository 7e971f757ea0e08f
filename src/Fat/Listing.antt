-- ===== src/Fat/Listing.antt =====
-- Names of files in src/kernel/fs/fat.c: how they are created, and how they are listed.
use uami_os.Base.{
  ℕ, ◌+◌, ◌-◌, ◌≤◌, ◌<◌, min, ◌≡◌, refl, sym, ap, ◌∙◌, true, none, some, List, [], ◌∷◌, ◌++◌, map,
  arith, ltb, length, get_or, take, drop, replicate, length-append, get_or-replicate,
}
use uami_os.Fat.Names.{fat_toupper, last_index, put_upper, short_name, trimmed, listed_name}
use uami_os.Fat.Padding.{
  spaces, upper, Lacks, empty, put_upper_over, last_index-Lacks, last_index_dot, trimmed_lem,
  length-upper, length-spaces, spaces_add, upper-append, upper-ne,
}
use uami_os.Base.Pieces.{take_all, take_first, drop_first, drop_past, get_or_left, get_or_right}
use mathlib.Core.List.{append-nil, append_assoc}

-- A name of a base and an extension, which has a dot if the extension is not empty.
abbrev dotted : List ℕ → List ℕ → List ℕ
dotted base [] = base
dotted base (e ∷ ext) = base ++ b'.' ∷ e ∷ ext

module _ (base ext : List ℕ) (short : length base ≤ 8) (short_ext : length ext ≤ 3) where
  stem : List ℕ
  stem = upper base ++ spaces (8 - length base)

  length-stem : length stem ≡ 8
  unfolding stem
  length-stem =
      length-append (upper base) (spaces (8 - length base))
      ∙ omega (arith, length-upper base, length-spaces (8 - length base))

  blank_name :
      replicate 11 32
      ≡ spaces (length base)
        ++ (spaces (8 - length base) ++ (spaces (length ext) ++ spaces (3 - length ext)))
  blank_name =
      let b = length base in
      let e = length ext in
      let sum : 11 ≡ b + ((8 - b) + (e + (3 - e))) = omega arith in
      ap (λ n. spaces n) sum
      ∙ spaces_add b ((8 - b) + (e + (3 - e)))
      ∙ ap (λ l. spaces b ++ l)
          (spaces_add (8 - b) (e + (3 - e)) ∙ ap (λ l. spaces (8 - b) ++ l) (spaces_add e (3 - e)))

  -- The first eleven bytes, before the extension is put in.
  base_put :
      put_upper base 0 (replicate 11 32) ≡ stem ++ (spaces (length ext) ++ spaces (3 - length ext))
  unfolding stem
  base_put =
      let rest = spaces (length ext) ++ spaces (3 - length ext) in
      ap (put_upper base 0) blank_name
      ∙ put_upper_over base [] (spaces (8 - length base) ++ rest)
      ∙ sym (append_assoc (upper base) (spaces (8 - length base)) rest)

  ext_put :
      put_upper ext 8 (stem ++ (spaces (length ext) ++ spaces (3 - length ext)))
      ≡ stem ++ (upper ext ++ spaces (3 - length ext))
  ext_put =
      ap (λ n. put_upper ext n (stem ++ (spaces (length ext) ++ spaces (3 - length ext))))
        (sym length-stem)
      ∙ put_upper_over ext stem (spaces (3 - length ext))

  -- The eleven bytes of the name.
  bytes : List ℕ
  bytes = stem ++ (upper ext ++ spaces (3 - length ext))

  bytes-base : (j : ℕ) → j < 8 → get_or bytes j 0 ≡ get_or stem j 0
  unfolding bytes
  bytes-base j lt =
      get_or_left stem (upper ext ++ spaces (3 - length ext)) j (omega (arith, length-stem))

  bytes-ext : (j : ℕ) → get_or bytes (8 + j) 0 ≡ get_or (upper ext ++ spaces (3 - length ext)) j 0
  unfolding bytes
  bytes-ext j =
      let at : 8 + j ≡ length stem + j = omega (arith, length-stem) in
      ap (λ k. get_or bytes k 0) at ∙ get_or_right stem (upper ext ++ spaces (3 - length ext)) j

  -- Past the end of a list in upper case, a space.
  padding :
      (xs : List ℕ) (n j : ℕ)
      → length xs ≤ j
      → j < length xs + n
      → get_or (upper xs ++ spaces n) j 0 ≡ 32
  padding xs n j low high =
      let at : j ≡ length (upper xs) + (j - length xs) = omega (arith, length-upper xs) in
      ap (λ k. get_or (upper xs ++ spaces n) k 0) at
      ∙ get_or_right (upper xs) (spaces n) (j - length xs)
      ∙ get_or-replicate n (j - length xs) 32 0 (omega arith)

  base_end : Lacks 32 base → trimmed bytes 0 8 ≡ length base
  unfolding stem
  base_end l =
      trimmed_lem bytes 0 (length base) 8 (omega arith) short
        (λ j low high. bytes-base j high ∙ padding base (8 - length base) j low (omega arith))
        (λ some_left e. upper-ne base (length base - 1) l (omega arith) (
          sym (
            get_or_left (upper base) (spaces (8 - length base)) (length base - 1)
              (omega (arith, length-upper base)))
          ∙ sym (bytes-base (length base - 1) (omega arith))
          ∙ e))

  ext_end : Lacks 32 ext → trimmed bytes 8 11 ≡ 8 + length ext
  ext_end l =
      let n = 3 - length ext in
      trimmed_lem bytes 8 (8 + length ext) 11 (omega arith) (omega arith)
        (λ j low high.
          let at : j ≡ 8 + (j - 8) = omega arith in
          ap (λ k. get_or bytes k 0) at
          ∙ bytes-ext (j - 8)
          ∙ padding ext n (j - 8) (omega arith) (omega arith))
        (λ some_left e.
          let at : 8 + (length ext - 1) ≡ 8 + length ext - 1 = omega arith in
          upper-ne ext (length ext - 1) l (omega arith) (
            sym (
              get_or_left (upper ext) (spaces n) (length ext - 1) (omega (arith, length-upper ext)))
            ∙ sym (bytes-ext (length ext - 1))
            ∙ ap (λ k. get_or bytes k 0) at
            ∙ e))

  take_base : take (length base) bytes ≡ upper base
  unfolding bytes stem
  take_base =
      let tail = upper ext ++ spaces (3 - length ext) in
      ap (take (length base)) (append_assoc (upper base) (spaces (8 - length base)) tail)
      ∙ ap (λ n. take n (upper base ++ (spaces (8 - length base) ++ tail)))
          (sym (length-upper base))
      ∙ take_first (upper base) (spaces (8 - length base) ++ tail)

  drop_ext : drop 8 (take (8 + length ext) bytes) ≡ upper ext
  unfolding bytes
  drop_ext =
      let both : 8 + length ext ≡ length (stem ++ upper ext) =
        omega (arith, length-append stem (upper ext), length-stem, length-upper ext) in
      let cut : take (8 + length ext) bytes ≡ stem ++ upper ext =
        ap (take (8 + length ext)) (sym (append_assoc stem (upper ext) (spaces (3 - length ext))))
        ∙ ap (λ n. take n (stem ++ upper ext ++ spaces (3 - length ext))) both
        ∙ take_first (stem ++ upper ext) (spaces (3 - length ext)) in
      ap (drop 8) cut
      ∙ ap (λ n. drop n (stem ++ upper ext)) (sym length-stem)
      ∙ drop_first stem (upper ext)

  listed_bytes :
      Lacks 32 base
      → Lacks 32 ext
      → 0 < length ext
      → listed_name bytes ≡ upper base ++ b'.' ∷ upper ext
  unfolding listed_name
  listed_bytes l m some_ext =
      let more_than : ltb 8 (8 + length ext) ≡ true = ground arith in
      rw (base_end l, ext_end m, more_than, take_base, drop_ext) refl

short_name-dotted :
    (base ext : List ℕ) (short : length base ≤ 8) (short_ext : length ext ≤ 3)
    → Lacks b'.' base
    → Lacks b'.' ext
    → short_name (dotted base ext) ≡ bytes base ext short short_ext
unfolding short_name bytes
short_name-dotted base [] short short_ext l m =
    let all : take (min 8 (length base)) base ≡ base =
      take_all base (min 8 (length base)) (ground arith) in
    rw (short_name, last_index-Lacks b'.' base 0 none l, all) (base_put base [] short short_ext)
short_name-dotted base (e ∷ ext) short short_ext l m =
    let name = base ++ b'.' ∷ e ∷ ext in
    let dot : last_index b'.' name 0 none ≡ some (length base) =
      last_index_dot b'.' base (e ∷ ext) 0 none l m ∙ ap some (omega arith) in
    let len : min 8 (length base) ≡ length base = ground arith in
    let start : take (min 8 (length base)) name ≡ base =
      ap (λ n. take n name) len ∙ take_first base (b'.' ∷ e ∷ ext) in
    let rest : take 3 (drop (length base + 1) name) ≡ e ∷ ext =
      ap (take 3) (drop_past base (e ∷ ext) b'.') ∙ take_all (e ∷ ext) 3 short_ext in
    rw (short_name, dot, start, rest, base_put base (e ∷ ext) short short_ext)
      (ext_put base (e ∷ ext) short short_ext)

listed_plain :
    (base : List ℕ) (short : length base ≤ 8) (short_ext : 0 ≤ 3)
    → Lacks 32 base
    → listed_name (bytes base [] short short_ext) ≡ upper base
unfolding listed_name
listed_plain base short short_ext l =
    let end : trimmed (bytes base [] short short_ext) 8 11 ≡ 8 =
      ext_end base [] short short_ext empty in
    rw (listed_name, base_end base [] short short_ext l, end, take_base base [] short short_ext)
      (append-nil (upper base))

-- The name under which `FAT_ListDir` shows an entry whose eleven bytes `fat_get_short_name` made is the
-- name that was given, with its small letters made capital, if that has at most eight bytes, then
-- nothing or a dot and one to three more bytes, and none of those bytes is a space or a dot.
pub listed_name-short_name :
    (base ext : List ℕ)
    → length base ≤ 8
    → length ext ≤ 3
    → Lacks b'.' base
    → Lacks b'.' ext
    → Lacks 32 base
    → Lacks 32 ext
    → listed_name (short_name (dotted base ext)) ≡ map fat_toupper (dotted base ext)
unfolding fat_toupper
listed_name-short_name base [] short short_ext l m l' m' =
    ap listed_name (short_name-dotted base [] short short_ext l m)
    ∙ listed_plain base short short_ext l'
listed_name-short_name base (e ∷ ext) short short_ext l m l' m' =
    ap listed_name (short_name-dotted base (e ∷ ext) short short_ext l m)
    ∙ listed_bytes base (e ∷ ext) short short_ext l' m' (omega arith)
    ∙ sym (upper-append base (b'.' ∷ e ∷ ext))
