-- ===== src/Pic.antt =====
-- src/kernel/arch/i686/i8259.c: the pair of interrupt controllers. A port write is an entry of
-- `writes`, the newest first; what a port reads is a parameter, by the writes before.
mod Tests
use uami_os.Base.{
  ℕ, bit_and, bit_or, Bool, List, ◌∷◌, leb, ◌==◌, if◌then◌else◌, u8, u16, ◌<<<◌, ◌>>>◌, not_u32,
}

pub record Write : Type 0 where
  pub port : ℕ
  pub value : ℕ

-- What a port gives after some writes.
abbrev pub Ports : Type 0
Ports = List Write → ℕ → ℕ

-- `g_PicMask`, with the ports; `g_AutoEoi` is never used.
pub record Pic : Type 0 where
  pub pic_mask : ℕ
  pub writes : List Write

unfoldable pub outb : ℕ → ℕ → Pic → Pic
outb port value p = record p { writes = record { port = port; value = u8 value } ∷ p.writes }

-- `i686_outb`, then `i686_iowait`.
unfoldable pub outb_wait : ℕ → ℕ → Pic → Pic
outb_wait port value p = outb 0x80 0 (outb port value p)

abbrev pub pic1_command : ℕ
pic1_command = 0x20

abbrev pub pic1_data : ℕ
pic1_data = 0x21

abbrev pub pic2_command : ℕ
pic2_command = 0xA0

abbrev pub pic2_data : ℕ
pic2_data = 0xA1

unfoldable pub set_mask : ℕ → Pic → Pic
set_mask new_mask p =
    let p₁ = record p { pic_mask = u16 new_mask } in
    let p₂ = outb_wait pic1_data (u8 p₁.pic_mask) p₁ in outb_wait pic2_data (p₂.pic_mask >>> 8) p₂

unfoldable pub get_mask : Ports → Pic → ℕ
get_mask inb p = u16 (bit_or (inb p.writes pic1_data) (inb p.writes pic2_data <<< 8))

unfoldable pub configure : ℕ → ℕ → Bool → Pic → Pic
configure offset1 offset2 auto_eoi p =
    let p₀ = set_mask 0xFFFF p in
    let p₁ = outb_wait pic2_command 0x11 (outb_wait pic1_command 0x11 p₀) in
    let p₂ = outb_wait pic2_data offset2 (outb_wait pic1_data offset1 p₁) in
    let p₃ = outb_wait pic2_data 0x2 (outb_wait pic1_data 0x4 p₂) in
    let icw4 = if auto_eoi then bit_or 0x1 0x2 else 0x1 in
    let p₄ = outb_wait pic2_data icw4 (outb_wait pic1_data icw4 p₃) in set_mask 0xFFFF p₄

unfoldable pub send_end_of_interrupt : ℕ → Pic → Pic
send_end_of_interrupt irq p =
    outb pic1_command 0x20 (if leb 8 irq then outb pic2_command 0x20 p else p)

unfoldable pub disable : Pic → Pic
disable p = set_mask 0xFFFF p

unfoldable pub mask : ℕ → Pic → Pic
mask irq p = set_mask (bit_or p.pic_mask (1 <<< irq)) p

unfoldable pub unmask : ℕ → Pic → Pic
unmask irq p = set_mask (bit_and p.pic_mask (not_u32 (1 <<< irq))) p

-- Both reads are of the second controller.
unfoldable pub read_register : ℕ → Ports → Pic → ℕ × Pic
read_register command inb p =
    let p' = outb pic2_command command (outb pic1_command command p) in
    (bit_or (inb p'.writes pic2_command) (u16 (inb p'.writes pic2_command <<< 8)), p')

unfoldable pub probe : Ports → Pic → Bool × Pic
probe inb p = let p' = set_mask 0x1337 (disable p) in (get_mask inb p' == 0x1337, p')
