-- ===== src/Vga/Tests.antt =====
-- The text screen, on concrete states.
use uami_os.Base.{◌+◌, ◌%◌, ◌≡◌, refl, ◌≢◌, some, [], arith}
use uami_os.Vga.{Vga, putc, putc_plain, live, wrap, putchr, getchr, setcursor}
use uami_os.Vga.Cursor.{OnScreen, spaces, putc-OnScreen, putc_tab}

-- The cursor stands at the end of the last row, and an earlier line is shown.
abbrev scrolled : Vga
scrolled = record {
  screen = λ i. 0;
  screen_x = 79;
  screen_y = 24;
  sbuf = λ l i. 0;
  sb_head = 30;
  sb_count = 30;
  view_offset = 5;
  ports = [];
}

putc-OnScreen_example : (s' : Vga) × (putc b'a' scrolled ≡ some s') × OnScreen s'
putc-OnScreen_example = putc-OnScreen b'a' scrolled (omega arith, omega arith)

abbrev at_start : Vga
at_start = record scrolled { screen_x = 0; view_offset = 0 }

putc_tab_example :
    (s' : Vga) × (putc 9 at_start ≡ some s')
    × (s'.screen_x ≡ 0 + spaces 0)
    × (s'.screen_y ≡ 24)
    × (s'.screen_x % 4 ≢ 0)
putc_tab_example = putc_tab at_start (omega arith, omega arith) (omega arith)

written : getchr 0 24 (putc_plain b'a' at_start) ≡ b'a'
unfolding getchr putc_plain live wrap putchr setcursor
written = refl
