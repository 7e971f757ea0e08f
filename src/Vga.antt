-- ===== src/Vga.antt =====
-- src/kernel/arch/i686/vga_text.c: the text screen and its scrollback. The screen's memory is a
-- function of the byte's index, and the scrollback one of the line and the byte. The cursor, the
-- head and the offset are never negative where the functions are called: a line that scrolls is on
-- the screen.
pub mod Cursor
mod Tests
use uami_os.Base.{
  ℕ, zero, suc, ◌+◌, ◌-◌, ◌*◌, ◌/◌, ◌%◌, ◌&&◌, Option, none, some, List, ◌∷◌, ltb, leb, ◌==◌, ◌!=◌,
  if◌then◌else◌, ◌>>=◌, u8, pos,
}

pub record Vga : Type 0 where
  pub screen : ℕ → ℕ
  pub screen_x : ℕ
  pub screen_y : ℕ
  pub sbuf : ℕ → ℕ → ℕ
  pub sb_head : ℕ
  pub sb_count : ℕ
  pub view_offset : ℕ
  pub ports : List (ℕ × ℕ)

abbrev pub screen_width : ℕ
screen_width = 80

abbrev pub screen_height : ℕ
screen_height = 25

abbrev pub default_color : ℕ
default_color = 7

abbrev pub scrollback_lines : ℕ
scrollback_lines = 200

-- `for (i = first; i < first + n; i++)`.
unfoldable pub for_range : {A : Type 0} → ℕ → ℕ → (ℕ → A → A) → A → A
for_range zero i body a = a
for_range (suc n) i body a = for_range n (i + 1) body (body i a)

abbrev pub cell : ℕ → ℕ → ℕ
cell x y = y * screen_width + x

-- The line of the ring that holds line `sb_line`.
abbrev pub ring : ℕ → ℕ
ring sb_line = (sb_line % scrollback_lines + scrollback_lines) % scrollback_lines

abbrev pub put_byte : ℕ → ℕ → (ℕ → ℕ) → ℕ → ℕ
put_byte at value memory i = if i == at then value else memory i

abbrev pub put_cell : ℕ → ℕ → ℕ → (ℕ → ℕ) → ℕ → ℕ
put_cell i char attr memory = put_byte (2 * i + 1) attr (put_byte (2 * i) char memory)

abbrev pub put_line : ℕ → (ℕ → ℕ) → (ℕ → ℕ → ℕ) → ℕ → ℕ → ℕ
put_line l line sbuf k = if k == l then line else sbuf k

-- `sb_sync_from_vga`.
pub sb_sync_from_vga : Vga → Vga
sb_sync_from_vga s = record s {
  sbuf =
      for_range screen_height 0
        (λ row sbuf.
          for_range screen_width 0
            (λ col sbuf'.
              let l = ring (s.sb_head + row) in
              let i = cell col row in
              put_line l (put_cell col (s.screen (2 * i)) (s.screen (2 * i + 1)) (sbuf' l)) sbuf')
            sbuf)
        s.sbuf;
}

-- `sb_render`: a line that has not been written is blank.
unfoldable pub sb_render : Vga → Vga
sb_render s = record s {
  screen =
      for_range screen_height 0
        (λ row screen.
          for_range screen_width 0
            (λ col screen'.
              let sb_line = s.sb_head + row - s.view_offset in
              let written =
                leb s.view_offset (s.sb_head + row) && ltb sb_line (s.sb_count + screen_height) in
              let line = s.sbuf (ring sb_line) in
              put_cell (cell col row) (if written then line (2 * col) else 0)
                (if written then line (2 * col + 1) else default_color) screen')
            screen)
        s.screen;
}

unfoldable pub putchr : ℕ → ℕ → ℕ → Vga → Vga
putchr x y c s =
    let l = ring (s.sb_head + y) in
    record s {
      screen = put_byte (2 * cell x y) (u8 c) s.screen;
      sbuf = put_line l (put_cell x (u8 c) default_color (s.sbuf l)) s.sbuf;
    }

pub putcolor : ℕ → ℕ → ℕ → Vga → Vga
putcolor x y color s =
    let l = ring (s.sb_head + y) in
    record s {
      screen = put_byte (2 * cell x y + 1) color s.screen;
      sbuf = put_line l (put_byte (2 * x + 1) color (s.sbuf l)) s.sbuf;
    }

unfoldable pub getchr : ℕ → ℕ → Vga → ℕ
getchr x y s = s.screen (2 * cell x y)

pub getcolor : ℕ → ℕ → Vga → ℕ
getcolor x y s = s.screen (2 * cell x y + 1)

-- The port writes, newest first.
unfoldable pub setcursor : ℕ → ℕ → Vga → Vga
setcursor x y s =
    let pos = cell x y in
    record s {
      ports =
          if s.view_offset != 0
          then (0x3D5, 0x20) ∷ (0x3D4, 0x0A) ∷ s.ports
          else (0x3D5, pos / 256 % 256)
            ∷ (0x3D4, 0x0E)
            ∷ (0x3D5, pos % 256)
            ∷ (0x3D4, 0x0F)
            ∷ s.ports;
    }

abbrev pub blank_row : ℕ → (ℕ → ℕ) → ℕ → ℕ
blank_row y = for_range screen_width 0 (λ x. put_cell (cell x y) 0 default_color)

unfoldable pub clrscr : Vga → Vga
clrscr s = setcursor 0 0 (record s {
  screen = for_range screen_height 0 blank_row s.screen;
  screen_x = 0;
  screen_y = 0;
  view_offset = 0;
  sb_head = 0;
  sb_count = 0;
})

-- Row `y` moves up by `lines`.
abbrev pub move_row : ℕ → ℕ → (ℕ → ℕ) → ℕ → ℕ
move_row lines y = for_range screen_width 0 (λ x screen.
    put_cell (cell x (y - lines)) (screen (2 * cell x y)) (screen (2 * cell x y + 1)) screen)

-- `VGA_scrollback`, for at most as many lines as the screen has.
unfoldable pub scrollback : ℕ → Vga → Vga
scrollback lines s =
    let moved = for_range (screen_height - lines) lines (move_row lines) s.screen in
    let head = s.sb_head + lines in
    let count = s.sb_count + lines in
    let most = scrollback_lines - screen_height in
    record s {
      screen = for_range lines (screen_height - lines) blank_row moved;
      screen_y = s.screen_y - lines;
      sb_head = head;
      sb_count = if ltb most count then most else count;
      sbuf =
          for_range lines 0
            (λ l sbuf.
              for_range screen_width 0
                (λ x sbuf'.
                  let k = ring (head + (screen_height - lines + l)) in
                  put_line k (put_cell x 0 default_color (sbuf' k)) sbuf')
                sbuf)
            s.sbuf;
    }

-- The end of `VGA_putc`: the cursor is brought back onto the screen.
unfoldable pub wrap : Vga → Vga
wrap s =
    let s₁ =
      if leb screen_width s.screen_x
      then record s { screen_y = s.screen_y + 1; screen_x = 0 }
      else s in
    let s₂ = if leb screen_height s₁.screen_y then scrollback 1 s₁ else s₁ in
    setcursor s₂.screen_x s₂.screen_y s₂

-- The start of `VGA_putc`: output shows the live screen again.
unfoldable pub live : Vga → Vga
live s = if s.view_offset != 0 then sb_render (record s { view_offset = 0 }) else s

-- `VGA_putc` of any character but a tab.
unfoldable pub putc_plain : ℕ → Vga → Vga
putc_plain c s =
    let s₀ = live s in
    wrap (
      if c == 10
      then record s₀ { screen_x = 0; screen_y = s₀.screen_y + 1 }
      else if c == 13
      then record s₀ { screen_x = 0 }
      else (let s₁ = putchr s₀.screen_x s₀.screen_y c s₀ in
          record s₁ { screen_x = s₁.screen_x + 1 }))

-- The loop of a tab, which reads the column again in each round; `none` is out of fuel.
unfoldable pub tab_loop : ℕ → ℕ → Vga → Option Vga
tab_loop zero i s = none
tab_loop (suc fuel) i s =
    let rest = tab_loop fuel (i + 1) (putc_plain 32 s) in
    if ltb i (4 - s.screen_x % 4) then rest else some s

-- `VGA_putc`; a tab prints at most four spaces.
unfoldable pub putc : ℕ → Vga → Option Vga
putc c s = if c == 9 then (do s' ← tab_loop 5 0 (live s); some (wrap s')) else some (putc_plain c s)

pub scroll_up : ℕ → Vga → Vga
scroll_up lines s =
    let offset =
      if ltb s.sb_count (s.view_offset + lines) then s.sb_count else s.view_offset + lines in
    if s.sb_count == 0
    then s
    else setcursor s.screen_x s.screen_y (sb_render (record s { view_offset = offset }))

pub scroll_down : ℕ → Vga → Vga
scroll_down lines s =
    let s₁ = record s { view_offset = s.view_offset - lines } in
    let shown =
      for_range screen_height 0
        (λ y screen.
          for_range screen_width 0
            (λ x screen'.
              let line = s.sbuf (ring (s.sb_head + y)) in
              put_cell (cell x y) (line (2 * x)) (line (2 * x + 1)) screen')
            screen)
        s.screen in
    setcursor s.screen_x s.screen_y
      (if s₁.view_offset == 0 then record s₁ { screen = shown } else sb_render s₁)
