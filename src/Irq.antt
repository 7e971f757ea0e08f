-- ===== src/Irq.antt =====
-- src/kernel/arch/i686: the handlers of isr.c, irq.c and timer.c, over the gates of Idt and the
-- controllers of Pic. A handler is named by a number; `none` is a call or an access that C leaves
-- undefined.
mod Lines
mod Dispatch
mod Tests
use uami_os.Base.{
  ℕ, zero, suc, ◌+◌, ◌-◌, ◌/◌, ◌%◌, Bool, true, false, not, ◌||◌, Option, none, some, List, ltb,
  leb, ◌==◌, if◌then◌else◌, ◌>>=◌, get_elem?, u8, u32, ◌>>>◌,
}
use uami_os.Pic
use uami_os.Pic.{Ports, Pic}
use uami_os.Idt.{IdtEntry, write_at, enable_gate}

-- What stands in `g_ISRHandlers`: nothing, `i686_IRQ_Handler`, or another function.
pub data IsrHandler : Type 0 where
  null : IsrHandler
  irq_handlers_of : IsrHandler
  other : ℕ → IsrHandler

-- What an interrupt makes the kernel do, besides its port writes.
pub data Action : Type 0 where
  run : ℕ → Action
  unhandled_irq : ℕ → Action
  unhandled_interrupt : ℕ → Action
  panic : ℕ → Action

pub record Irq : Type 0 where
  pub idt : List IdtEntry
  pub isr_handlers : List IsrHandler
  pub irq_handlers : List (Option ℕ)
  pub has_driver : Bool
  pub pic : Pic
  pub interrupts_enabled : Bool

abbrev pub pic_remap_offset : ℕ
pic_remap_offset = 0x20

-- `i686_ISR_RegisterHandler`.
unfoldable pub isr_register_handler : ℕ → IsrHandler → Irq → Option Irq
isr_register_handler interrupt h s = do
  hs ← write_at s.isr_handlers interrupt h
  gates ← enable_gate interrupt s.idt
  some (record s { isr_handlers = hs; idt = gates })

-- The loop over the 16 lines, at line `i` with `left` to go.
unfoldable pub register_lines : ℕ → ℕ → Irq → Option Irq
register_lines zero i s = some s
register_lines (suc left) i s = do
  s' ← isr_register_handler (pic_remap_offset + i) irq_handlers_of s
  register_lines left (i + 1) s'

-- `i686_IRQ_Initialize`; the list of drivers has one.
unfoldable pub irq_initialize : Ports → Irq → Option Irq
irq_initialize inb s =
    let (found, p) = Pic.probe inb s.pic in
    let s₁ = record s { pic = p; has_driver = s.has_driver || found } in
    if not s₁.has_driver then some s₁ else do
      let s₂ = record s₁ {
        pic = Pic.configure pic_remap_offset (pic_remap_offset + 8) false s₁.pic;
      }
      s₃ ← register_lines 16 0 s₂
      some (record s₃ { interrupts_enabled = true })

-- `i686_IRQ_RegisterHandler` and `i686_IRQ_Unmask`.
unfoldable pub irq_register_handler : ℕ → ℕ → Irq → Option Irq
irq_register_handler irq h s = do
  hs ← write_at s.irq_handlers irq (some h)
  some (record s { irq_handlers = hs })

unfoldable pub irq_unmask : ℕ → Irq → Option Irq
irq_unmask irq s = if s.has_driver then some (record s { pic = Pic.unmask irq s.pic }) else none

abbrev line_action : Option ℕ → ℕ → Action
line_action (some n) irq = run n
line_action none irq = unhandled_irq irq

-- `i686_IRQ_Handler`: the handler of the line, if any, and the end of interrupt.
unfoldable pub irq_handler : ℕ → Irq → Option (Irq × Action)
irq_handler interrupt s =
    let irq = interrupt - pic_remap_offset in
    if ltb interrupt pic_remap_offset then none else do
      h ← get_elem? s.irq_handlers irq
      let s' = record s { pic = Pic.send_end_of_interrupt irq s.pic }
      if s.has_driver then some (s', line_action h irq) else none

-- `i686_ISR_Handler`; a panic stops the processor.
unfoldable pub isr_handler : ℕ → Irq → Option (Irq × Action)
isr_handler interrupt s = do
  h ← get_elem? s.isr_handlers interrupt
  elim h [
    | irq_handlers_of ↦ irq_handler interrupt s
    | other n ↦ some (s, run n)
    | null ↦ some (s, (if leb 32 interrupt then unhandled_interrupt interrupt else panic interrupt))
  ]

-- `timer_handler` of timer.c: the count of ticks, and whether a dot is printed.
unfoldable pub timer_handler : ℕ → ℕ × Bool
timer_handler ticks = let ticks' = u32 (ticks + 1) in (ticks', ticks' % 100 == 0)

-- The writes of `i686_Timer_Initialize`; a frequency of 0 is a division by zero.
unfoldable pub timer_writes : ℕ → Pic → Option Pic
timer_writes frequency p =
    let divisor = 1193182 / frequency in
    if frequency == 0
    then none
    else some
        (Pic.outb 0x40 (u8 (divisor >>> 8)) (Pic.outb 0x40 (u8 divisor) (Pic.outb 0x43 0x36 p)))
