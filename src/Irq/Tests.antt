-- ===== src/Irq/Tests.antt =====
-- Interrupts on a machine with two controllers, and on one with none.
use uami_os.Base.{
  ◌+◌, ◌≡◌, refl, false, none, some, [], ◌∷◌, ◌++◌, arith, ◌==◌, if◌then◌else◌, ◌>>=◌, replicate,
  length-replicate,
}
use uami_os.Pic.{get_mask, Ports, set_mask, probe, outb, outb_wait}
use uami_os.Idt.{zero_gate}
use uami_os.Irq.{Irq, null, run, irq_initialize, irq_register_handler, irq_unmask, isr_handler}
use uami_os.Irq.Lines.{Sized}
use uami_os.Irq.Dispatch.{
  Present, Ready, eoi, irq_initialize-Ready, isr_handler-irq_register_handler,
}

-- A data port gives the value that was last written to it.
last_write : Ports
last_write [] port = 0xFF
last_write (w ∷ ws) port =
    let before = last_write ws port in if w.port == port then w.value else before

last_write-Present : Present last_write
unfolding last_write set_mask outb outb_wait
last_write-Present m p lt = (omega arith, omega arith)

abbrev booting : Irq
booting = record {
  idt = replicate 256 zero_gate;
  isr_handlers = replicate 256 null;
  irq_handlers = replicate 16 none;
  has_driver = false;
  pic = record { pic_mask = 0xFFFF; writes = [] };
  interrupts_enabled = false;
}

booting-Sized : Sized booting
booting-Sized = record {
  gates = length-replicate 256 zero_gate;
  handlers = length-replicate 256 null;
  lines = refl;
}

-- No controller answers.
abbrev floating : Ports
floating ws port = 0xFF

-- Then there is no driver, and unmasking a line is a call through a null pointer.
null_call : (do s ← irq_initialize floating booting; irq_unmask 1 s) ≡ none
unfolding irq_initialize irq_unmask probe get_mask
null_call = refl

abbrev booted : Irq
booted = (irq_initialize-Ready last_write booting last_write-Present booting-Sized).0

abbrev booted-Ready : Ready booting booted
booted-Ready = (irq_initialize-Ready last_write booting last_write-Present booting-Sized).2

isr_handler-irq_register_handler_example :
    (s' : Irq) × (s'' : Irq) × (irq_register_handler 9 7 booted ≡ some s')
    × (isr_handler (32 + 9) s' ≡ some (s'', run 7))
    × (s''.pic.writes ≡ eoi 9 ++ booted.pic.writes)
isr_handler-irq_register_handler_example =
    isr_handler-irq_register_handler booted booting 9 7 booted-Ready (omega arith)
