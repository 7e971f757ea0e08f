-- ===== src/Fat/Creating.antt =====
-- `FAT_CreateFile` of src/kernel/fs/fat.c in the root directory.
use uami_os.Base.{
  ℕ, ◌<◌, ◌≡◌, refl, ◌∙◌, Bool, false, none, some, List, [], arith, leb, ◌==◌, length,
}
use uami_os.Fat.{Fat, root_dir_cluster}
use uami_os.Fat.Dirs.{max_path, get_dir_cluster}
use uami_os.Fat.Names.{short_name, last_index}
use uami_os.Fat.Entries.{split_path}
use uami_os.Fat.Writing.{create_file, add_entry, attribute_archive}
use uami_os.Fat.Cache.{IsValid}
use uami_os.Fat.Slots.{Ends, ends_here, goes_on}
use uami_os.Fat.NewEntry.{decoded}
use uami_os.Fat.Adding.{Added, add_entry-Added}

not_null : (s : Fat) (c n : ℕ) → Ends s c n → (c == 0) ≡ false
not_null s _ _ (ends_here c end) = ground arith
not_null s _ _ (goes_on c n g more) = ground (arith, g.low)

-- `FAT_CreateFile` of a name without a slash, of at most 255 bytes, returns in a valid state, when the
-- chain of the root directory has `n` clusters and there is fuel for more than `n` rounds. It succeeds
-- exactly if an entry of the root directory is free: then that entry reads back as an empty file with
-- the short form of the name and without a cluster, and no other byte of the disk has changed.
pub create_file-Added :
    (fuel n : ℕ) (path : List ℕ) (s : Fat)
    → IsValid s
    → last_index b'/' path 0 none ≡ none
    → length path < max_path
    → Ends s (root_dir_cluster s) n
    → n < fuel
    → (r : Bool × Fat) × (create_file fuel path s ≡ some r)
      × Added s (root_dir_cluster s) (decoded (short_name path) attribute_archive 0) r
unfolding create_file split_path get_dir_cluster
create_file-Added fuel n path s v no_slash short ends lt =
    let (r, run, a) =
      add_entry-Added fuel n (root_dir_cluster s) path attribute_archive 0 s v ends lt (omega arith)
        (omega arith) in
    let fits : leb max_path (length path) ≡ false = ground arith in
    let dir = not_null s (root_dir_cluster s) n ends in
    let split : split_path path ≡ ([], path) = rw (split_path, no_slash) refl in
    let whole : create_file fuel path s
        ≡ add_entry fuel (root_dir_cluster s) path attribute_archive 0 s =
      rw (create_file, split, fits, dir) refl in
    (r, whole ∙ run, a)
