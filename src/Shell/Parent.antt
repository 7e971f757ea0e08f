-- ===== src/Shell/Parent.antt =====
-- A directory that `cd` of src/kernel/shell.c enters, and `cd ..` from there.
use uami_os.Base.{
  ℕ, zero, suc, ◌+◌, ◌-◌, ◌≤◌, ◌<◌, ◌≡◌, refl, sym, ap, subst, ◌∙◌, ◌≢◌, inl, inr, true, false,
  ◌&&◌, Option, none, some, some_inj, List, [], ◌∷◌, ◌++◌, arith, ◌==◌, if◌then◌else◌, ==_ne,
  ==_iff, Bool-cases, length, get_or, take, length-append, ◌>>=◌,
}
use native.Mathlib.Decide.{ℕ_discrete}
use uami_os.Base.Pieces.{take_all, take_first, get_or_right}
use uami_os.Fat.{Fat, Handle}
use uami_os.Fat.Files.{close, file_data}
use uami_os.Fat.Dirs.{open_path}
use uami_os.Shell.{sh_skip, is_absolute, is_root, build_path}
use uami_os.Shell.Paths.{join, build_path-join}
use uami_os.Shell.Commands.{
  cut_last, parent, path_size, names_root, is_parent_name, enter, cmd_cd, Session, Answer, entered,
  not_a_directory,
}

-- No byte of a name is a slash.
abbrev pub IsName : List ℕ → Type 0
IsName name = (j : ℕ) → j < length name → get_or name j 0 ≢ b'/'

cut_last_lem :
    (path : List ℕ) (n i : ℕ)
    → n ≤ i
    → 0 < n
    → get_or path n 0 ≡ b'/'
    → ((j : ℕ) → n < j → j ≤ i → get_or path j 0 ≢ b'/')
    → cut_last i path ≡ take n path
unfolding cut_last
cut_last_lem path n zero le some_bytes at after = absurd (omega arith)
cut_last_lem path n (suc i) le some_bytes at after = elim (ℕ_discrete n (suc i)) [
  | yes same ↦
      let here : get_or path (suc i) 0 ≡ b'/' = subst (λ x. get_or path x 0 ≡ b'/') same at in
      rw (here) (ap (λ x. take x path) (sym same))
  | no other ↦
      let ne = ==_ne (get_or path (suc i) 0) b'/' (after (suc i) (omega arith) (omega arith)) in
      rw (ne) (
        cut_last_lem path n i (omega arith) some_bytes at (λ j low high. after j low (omega arith)))
]

cut_last-root :
    (path : List ℕ) (i : ℕ)
    → ((j : ℕ) → 0 < j → j ≤ i → get_or path j 0 ≢ b'/')
    → cut_last i path ≡ b'/' ∷ []
unfolding cut_last
cut_last-root path zero after = refl
cut_last-root path (suc i) after =
    let ne = ==_ne (get_or path (suc i) 0) b'/' (after (suc i) (omega arith) (omega arith)) in
    rw (ne) (cut_last-root path i (λ j low high. after j low (omega arith)))

IsName-relative : (name : List ℕ) → IsName name → is_absolute name ≡ false
IsName-relative [] n = refl
IsName-relative (c ∷ cs) n = ==_ne c b'/' (n 0 (omega arith))

IsName-names_root : (name : List ℕ) → IsName name → 0 < length name → names_root name ≡ false
IsName-names_root [] n lt = absurd (omega arith)
IsName-names_root (c ∷ []) n lt = ==_ne c b'/' (n 0 (omega arith))
IsName-names_root (c ∷ d ∷ cs) n lt = refl

not_dot_dot : (name : List ℕ) → name ≢ (b'.' ∷ b'.' ∷ []) → is_parent_name name ≡ false
not_dot_dot [] ne = refl
not_dot_dot (a ∷ []) ne = refl
not_dot_dot (a ∷ b ∷ []) ne = elim (Bool-cases (a == b'.' && b == b'.')) [
  | inl y ↦
      let first : a ≡ b'.' = ground arith in
      let second : b ≡ b'.' = ground arith in absurd (ne (cc))
  | inr n ↦ n
]
not_dot_dot (a ∷ b ∷ c ∷ cs) ne = refl

root_is : (cwd : List ℕ) → is_root cwd ≡ true → cwd ≡ b'/' ∷ []
root_is [] e = cc
root_is (c ∷ []) e = ap (λ x. x ∷ []) ((==_iff c b'/').0 e)
root_is (c ∷ d ∷ cs) e = cc

is_root_long : (path : List ℕ) → 1 < length path → is_root path ≡ false
is_root_long [] lt = absurd (omega arith)
is_root_long (c ∷ []) lt = absurd (omega arith)
is_root_long (c ∷ d ∷ cs) lt = refl

-- The bytes of the name stand after the slash.
name_byte :
    (cwd name : List ℕ) (j : ℕ)
    → IsName name
    → length cwd < j
    → j ≤ length cwd + length name
    → get_or (cwd ++ b'/' ∷ name) j 0 ≢ b'/'
name_byte cwd name j n low high =
    let at : j ≡ length cwd + suc (j - length cwd - 1) = omega arith in
    let same =
      ap (λ k. get_or (cwd ++ b'/' ∷ name) k 0) at
      ∙ get_or_right cwd (b'/' ∷ name) (suc (j - length cwd - 1)) in
    subst (λ x. x ≢ b'/') (sym same) (n (j - length cwd - 1) (omega arith))

-- The path of a name in a directory, where it fits.
abbrev path_of : List ℕ → List ℕ → List ℕ
path_of cwd name = if is_root cwd then b'/' ∷ name else cwd ++ b'/' ∷ name

module _ (cwd name : List ℕ) (n : IsName name) (some_name : 0 < length name)
    (fits : length cwd + length name + 2 ≤ path_size) (some_cwd : 0 < length cwd) where
  build_path-name : build_path cwd name path_size ≡ path_of cwd name
  build_path-name =
      let cut = (build_path-join cwd name path_size (omega arith)).0 in
      elim (Bool-cases (is_root cwd)) [
        | inl root ↦
            let joined : join cwd name ≡ b'/' ∷ name = rw (IsName-relative name n, root) refl in
            rw (root) (cut ∙ ap (take 255) joined ∙ take_all (b'/' ∷ name) 255 (omega arith))
        | inr other ↦
            let full = cwd ++ b'/' ∷ name in
            let size = length-append cwd (b'/' ∷ name) in
            let joined : join cwd name ≡ full = rw (IsName-relative name n, other) refl in
            rw (other) (cut ∙ ap (take 255) joined ∙ take_all full 255 (omega (arith, size)))
      ]

  path_long : 1 < length (path_of cwd name)
  path_long = elim (Bool-cases (is_root cwd)) [
    | inl root ↦ rw (root) (omega arith)
    | inr other ↦ rw (other) (omega (arith, length-append cwd (b'/' ∷ name)))
  ]

  parent-path : parent (path_of cwd name) ≡ cwd
  parent-path = elim (Bool-cases (is_root cwd)) [
    | inl root ↦ rw (root) (
        cut_last-root (b'/' ∷ name) (length (b'/' ∷ name) - 1)
          (λ j low high. name_byte [] name j n low (omega arith))
        ∙ sym (root_is cwd root))
    | inr other ↦
        let full = cwd ++ b'/' ∷ name in
        let size : length full ≡ length cwd + suc (length name) = length-append cwd (b'/' ∷ name) in
        let slash : get_or full (length cwd) 0 ≡ b'/' =
          ap (λ k. get_or full k 0) (omega arith) ∙ get_or_right cwd (b'/' ∷ name) 0 in
        rw (other) (
          cut_last_lem full (length cwd) (length full - 1) (omega (arith, size)) some_cwd slash
            (λ j low high. name_byte cwd name j n low (omega (arith, size)))
          ∙ take_first cwd (b'/' ∷ name))
  ]

length-path_of : (cwd name : List ℕ) → 0 < length name → length cwd < length (path_of cwd name)
length-path_of cwd name lt = elim (Bool-cases (is_root cwd)) [
  | inl root ↦ rw (root) (omega (arith, ap length (root_is cwd root)))
  | inr other ↦ rw (other) (omega (arith, length-append cwd (b'/' ∷ name)))
]

abbrev pub dot_dot : List ℕ
dot_dot = b'.' ∷ b'.' ∷ []

-- `cd` to a name that is no special one looks for the path.
cmd_cd-name :
    (fuel : ℕ) (args : List ℕ) (s : Session)
    → names_root (sh_skip args) ≡ false
    → is_parent_name (sh_skip args) ≡ false
    → cmd_cd fuel args s ≡ (do
      (found, f) ← open_path fuel (build_path s.cwd (sh_skip args) path_size) s.files
      some (enter (sh_skip args) (build_path s.cwd (sh_skip args) path_size) s found f))
unfolding cmd_cd
cmd_cd-name fuel args s not_root not_parent = rw (not_root, not_parent) refl

-- Only a path that was found is entered.
entered_path :
    (target full p : List ℕ) (s s' : Session) (o : Option (Option Handle × Fat))
    → (do (found, f) ← o; some (enter target full s found f)) ≡ some (entered p, s')
    → s'.cwd ≡ full
unfolding enter
entered_path target full p s s' none h = cc
entered_path target full p s s' (some (none, f)) h = cc
entered_path target full p s s' (some (some at, f)) h =
    elim (Bool-cases (file_data at f).is_directory) [
      | inl yes_dir ↦ sym (ap (λ (r : Answer × Session). r.1.cwd) (some_inj (rw yes_dir at h)))
      | inr no_dir ↦
          let k : ◌≡◌ {A = Option (Answer × Session)}
              (some (not_a_directory target, record s { files = close at f }))
              (some (entered p, s')) =
            rw no_dir at h in
          cc
    ]

-- `cd ..` takes the parent of any directory but the root.
cmd_cd-parent :
    (fuel : ℕ) (s : Session)
    → is_root s.cwd ≡ false
    → cmd_cd fuel dot_dot s ≡ some (entered (parent s.cwd), record s { cwd = parent s.cwd })
unfolding cmd_cd sh_skip
cmd_cd-parent fuel s other = rw (other) refl

-- After a `cd` that has entered the directory of a name, `cd ..` is back in the directory before: it
-- says so, and nothing else of the session changes. The name has no slash and is not `..`, the
-- directory before has a path of at least one byte, and the path of the name fits the buffer of 256
-- bytes.
pub cmd_cd-dot_dot :
    (fuel fuel' : ℕ) (args p : List ℕ) (s s' : Session)
    → IsName (sh_skip args)
    → 0 < length (sh_skip args)
    → sh_skip args ≢ dot_dot
    → length s.cwd + length (sh_skip args) + 2 ≤ path_size
    → 0 < length s.cwd
    → cmd_cd fuel args s ≡ some (entered p, s')
    → (s'.cwd ≢ s.cwd) × (cmd_cd fuel' dot_dot s' ≡ some (entered s.cwd, record s' { cwd = s.cwd }))
cmd_cd-dot_dot fuel fuel' args p s s' n some_name other fits some_cwd go =
    let name = sh_skip args in
    let at : s'.cwd ≡ path_of s.cwd name =
      entered_path name (build_path s.cwd name path_size) p s s'
        (open_path fuel (build_path s.cwd name path_size) s.files)
        (sym (cmd_cd-name fuel args s (IsName-names_root name n some_name) (not_dot_dot name other))
          ∙ go)
      ∙ build_path-name s.cwd name n some_name fits some_cwd in
    let long = path_long s.cwd name n some_name fits some_cwd in
    let up : parent s'.cwd ≡ s.cwd =
      ap parent at ∙ parent-path s.cwd name n some_name fits some_cwd in
    let below : is_root s'.cwd ≡ false =
      is_root_long s'.cwd (subst (λ x. 1 < length x) (sym at) long) in
    (
      (λ e. omega (arith, ap length (sym at ∙ e), length-path_of s.cwd name some_name)),
      cmd_cd-parent fuel' s' below ∙ ap (λ x. some (entered x, record s' { cwd = x })) up,
    )
