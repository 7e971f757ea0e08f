-- ===== src/Pic/Tests.antt =====
-- The controllers, run on concrete values.
use uami_os.Base.{◌≡◌, refl, [], ◌==◌, if◌then◌else◌}
use uami_os.Pic.{Ports, Pic, outb, outb_wait, set_mask, unmask, mask, read_register}

abbrev fresh : Pic
fresh = record { pic_mask = 0xFFFF; writes = [] }

-- The line of the keyboard, opened and closed again.
keyboard_opened : (unmask 1 fresh).pic_mask ≡ 0xFFFD
unfolding unmask set_mask outb_wait outb
keyboard_opened = refl

keyboard_closed : (mask 1 (unmask 1 fresh)).pic_mask ≡ 0xFFFF
unfolding mask unmask set_mask outb_wait outb
keyboard_closed = refl

-- The first controller requests line 1 and the second none.
abbrev requests : Ports
requests ws port = if port == 0x20 then 0x02 else 0

request_lost : (read_register 0x0A requests fresh).0 ≡ 0
unfolding read_register outb
request_lost = refl
