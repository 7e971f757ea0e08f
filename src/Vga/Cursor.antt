-- ===== src/Vga/Cursor.antt =====
-- Where the cursor of src/kernel/arch/i686/vga_text.c goes.
use uami_os.Base.{
  ℕ, zero, suc, ◌+◌, ◌-◌, ◌%◌, ◌≤◌, ◌<◌, ◌≡◌, refl, ◌∙◌, ◌≢◌, ◌⊎◌, inl, inr, some, arith, ltb, leb,
  ◌==◌, ◌!=◌, if◌then◌else◌, if_cases, ltb→lt, lt→ltb, lt→leb, le→ltb, Bool-cases,
}
use uami_os.Vga.{
  Vga, screen_width, screen_height, live, wrap, putc_plain, tab_loop, putc, putchr, setcursor,
  scrollback, sb_render,
}

abbrev pub OnScreen : Vga → Type 0
OnScreen s = (s.screen_x < screen_width) × (s.screen_y < screen_height)

-- The cursor stands at column `x` of row `y`.
abbrev At : ℕ → ℕ → Vga → Type 0
At x y s = (s.screen_x ≡ x) × (s.screen_y ≡ y)

At-live : (s : Vga) → At s.screen_x s.screen_y (live s)
unfolding live sb_render
At-live s =
    if_cases (At s.screen_x s.screen_y) (s.view_offset != 0) (λ _. (refl, refl)) (λ _. (refl, refl))

-- What `VGA_putc` has made of the cursor before it is brought back.
abbrev Near : Vga → Type 0
Near s =
    (s.screen_x ≤ screen_width)
    × (s.screen_y ≤ screen_height)
    × (s.screen_x ≡ screen_width → s.screen_y < screen_height)

-- Past the right edge the cursor goes to the next row, and past the last row the screen scrolls.
wrap-OnScreen : (s : Vga) → Near s → OnScreen (wrap s)
unfolding wrap setcursor scrollback
wrap-OnScreen s (hx, hy, edge) = elim (Bool-cases (leb screen_width s.screen_x)) [
  | inl y ↦ elim (Bool-cases (leb screen_height (s.screen_y + 1))) [
    | inl down ↦ rw (y, down) (omega arith, ground arith)
    | inr up ↦ rw (y, up) (omega arith, ground arith)
  ]
  | inr n ↦ elim (Bool-cases (leb screen_height s.screen_y)) [
    | inl down ↦ rw (n, down) (ground arith, ground arith)
    | inr up ↦ rw (n, up) (ground arith, ground arith)
  ]
]

At-wrap : (s : Vga) → OnScreen s → At s.screen_x s.screen_y (wrap s)
unfolding wrap setcursor scrollback
At-wrap s on =
    rw (lt→leb s.screen_x screen_width on.0, lt→leb s.screen_y screen_height on.1) (refl, refl)

putc_plain-OnScreen : (c : ℕ) (s : Vga) → OnScreen s → OnScreen (putc_plain c s)
unfolding putc_plain putchr
putc_plain-OnScreen c s on =
    let (x, y) = At-live s in
    wrap-OnScreen _ (
      if_cases Near (c == 10)
        (λ _. (omega arith, omega (arith, on.1, y), λ e. absurd (omega arith)))
        (λ _.
          if_cases Near (c == 13)
            (λ _. (omega arith, omega (arith, on.1, y), λ e. absurd (omega arith)))
            (λ _. (omega (arith, on.0, x), omega (arith, on.1, y), λ e. omega (arith, on.1, y)))))

tab_loop-OnScreen :
    (fuel i : ℕ) (s : Vga)
    → OnScreen s
    → fuel + i ≡ 5
    → 0 < fuel
    → (s' : Vga) × (tab_loop fuel i s ≡ some s') × OnScreen s'
unfolding tab_loop
tab_loop-OnScreen zero i s on e lt = absurd (omega arith)
tab_loop-OnScreen (suc fuel) i s on e lt = elim (Bool-cases (ltb i (4 - s.screen_x % 4))) [
  | inl y ↦
      let small = ltb→lt i (4 - s.screen_x % 4) y in
      rw (y) (
        tab_loop-OnScreen fuel (i + 1) (putc_plain 32 s) (putc_plain-OnScreen 32 s on) (omega arith)
          (omega arith))
  | inr n ↦ rw (n) (s, refl, on)
]

-- `VGA_putc` of any character returns, and leaves the cursor on the screen if it was there.
pub putc-OnScreen : (c : ℕ) (s : Vga) → OnScreen s → (s' : Vga) × (putc c s ≡ some s') × OnScreen s'
unfolding putc
putc-OnScreen c s on = elim (Bool-cases (c == 9)) [
  | inl y ↦
      let (x, r) = At-live s in
      let (s', run, on') =
        tab_loop-OnScreen 5 0 (live s) (omega (arith, on.0, x), omega (arith, on.1, r)) refl
          (omega arith) in
      let (x', y') = At-wrap s' on' in
      (wrap s', rw (y, run), (omega (arith, on'.0, x'), omega (arith, on'.1, y')))
  | inr n ↦ (putc_plain c s, rw (n), putc_plain-OnScreen c s on)
]

At-putc_plain :
    (x y : ℕ) (s : Vga)
    → At x y s
    → x + 1 < screen_width
    → y < screen_height
    → At (x + 1) y (putc_plain 32 s)
unfolding putc_plain putchr
At-putc_plain x y s at hx hy =
    let (a, b) = At-live s in
    let (c, d) =
      At-wrap
        (let s₀ = live s in
          let s₁ = putchr s₀.screen_x s₀.screen_y 32 s₀ in record s₁ { screen_x = s₁.screen_x + 1 })
        (omega (arith, at.0, a), omega (arith, at.1, b)) in
    (c ∙ omega (arith, at.0, a), d ∙ b ∙ at.1)

module _ (fuel i x y : ℕ) (s : Vga) (at : At x y s) where
  tab_step : i < 4 - x % 4 → tab_loop (suc fuel) i s ≡ tab_loop fuel (i + 1) (putc_plain 32 s)
  unfolding tab_loop
  tab_step lt = rw (lt→ltb i (4 - s.screen_x % 4) (omega (arith, at.0)))

  tab_stop : 4 - x % 4 ≤ i → tab_loop (suc fuel) i s ≡ some s
  unfolding tab_loop
  tab_stop le = rw (le→ltb i (4 - s.screen_x % 4) (omega (arith, at.0)))

-- How many spaces a tab at column `x` prints.
abbrev pub spaces : ℕ → ℕ
spaces x = if x % 4 == 2 then 1 else if x % 4 == 3 then 3 else 2

residue : (x : ℕ) → (x % 4 ≡ 0) ⊎ (x % 4 ≡ 1) ⊎ (x % 4 ≡ 2) ⊎ (x % 4 ≡ 3)
residue x = omega arith

module _ (x y : ℕ) (s : Vga) (at : At x y s) (hx : x + 3 < screen_width)
    (hy : y < screen_height) where
  one : At (x + 1) y (putc_plain 32 s)
  one = At-putc_plain x y s at (omega arith) hy

  two : At (x + 1 + 1) y (putc_plain 32 (putc_plain 32 s))
  two = At-putc_plain (x + 1) y (putc_plain 32 s) one (omega arith) hy

  three : At (x + 1 + 1 + 1) y (putc_plain 32 (putc_plain 32 (putc_plain 32 s)))
  three = At-putc_plain (x + 1 + 1) y (putc_plain 32 (putc_plain 32 s)) two (omega arith) hy

  abbrev Ends : Type 0
  Ends = (s' : Vga) × (tab_loop 5 0 s ≡ some s') × At (x + spaces x) y s'

  ends_after_two : x % 4 < 2 → Ends
  ends_after_two small = (
    putc_plain 32 (putc_plain 32 s),
    tab_step 4 0 x y s at (omega arith)
        ∙ tab_step 3 1 (x + 1) y (putc_plain 32 s) one (omega arith)
        ∙ tab_stop 2 2 (x + 1 + 1) y (putc_plain 32 (putc_plain 32 s)) two (omega arith),
    (ground (arith, two.0), two.1),
  )

  ends_after_one : x % 4 ≡ 2 → Ends
  ends_after_one e = (
    putc_plain 32 s,
    tab_step 4 0 x y s at (omega arith)
        ∙ tab_stop 3 1 (x + 1) y (putc_plain 32 s) one (omega arith),
    (ground (arith, one.0), one.1),
  )

  ends_after_three : x % 4 ≡ 3 → Ends
  ends_after_three e = (
    putc_plain 32 (putc_plain 32 (putc_plain 32 s)),
    tab_step 4 0 x y s at (omega arith)
        ∙ tab_step 3 1 (x + 1) y (putc_plain 32 s) one (omega arith)
        ∙ tab_step 2 2 (x + 1 + 1) y (putc_plain 32 (putc_plain 32 s)) two (omega arith)
        ∙ tab_stop 1 3 (x + 1 + 1 + 1) y (putc_plain 32 (putc_plain 32 (putc_plain 32 s))) three
            (omega arith),
    (ground (arith, three.0), three.1),
  )

  tab_loop-Ends : Ends
  tab_loop-Ends = elim (residue x) [
    | inl a ↦ ends_after_two (omega arith)
    | inr (inl b) ↦ ends_after_two (omega arith)
    | inr (inr (inl c)) ↦ ends_after_one c
    | inr (inr (inr d)) ↦ ends_after_three d
  ]

-- A tab, more than three columns from the right edge, goes one, two or three columns to the right
-- in the same row, and never to a column that is a multiple of four.
pub putc_tab :
    (s : Vga)
    → OnScreen s
    → s.screen_x + 3 < screen_width
    → (s' : Vga) × (putc 9 s ≡ some s')
      × (s'.screen_x ≡ s.screen_x + spaces s.screen_x)
      × (s'.screen_y ≡ s.screen_y)
      × (s'.screen_x % 4 ≢ 0)
unfolding putc
putc_tab s on room =
    let (s', run, at) = tab_loop-Ends s.screen_x s.screen_y (live s) (At-live s) room on.1 in
    let short : spaces s.screen_x ≤ 3 = ground arith in
    let (x, y) = At-wrap s' (omega (arith, at.0), omega (arith, at.1)) in
    let col = x ∙ at.0 in (wrap s', rw (run), col, y ∙ at.1, λ e. ground (arith, col))
