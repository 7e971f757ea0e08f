-- ===== src/Irq/Dispatch.antt =====
-- From `i686_IRQ_Initialize` in src/kernel/arch/i686/irq.c to the handler of a line.
use uami_os.Base.{
  ℕ, ◌+◌, ◌-◌, ◌/◌, ◌%◌, ◌^◌, ◌≤◌, ◌<◌, ◌≡◌, refl, ap, ◌∙◌, ◌⊎◌, inl, inr, Bool, true, false, ◌||◌,
  none, some, List, [], ◌∷◌, ◌++◌, arith, leb, if◌then◌else◌, lt→ltb, le→ltb, or_true, Bool-cases,
  length, get_elem?, set, length-set, get_elem?-eq-get_or, get_or-set_self,
}
use uami_os.Pic.{
  Ports, Pic, Write, probe, get_mask, set_mask, configure, outb, outb_wait, disable,
  send_end_of_interrupt,
}
use uami_os.Irq.{
  Irq, irq_handlers_of, null, run, irq_initialize, irq_register_handler, irq_handler, isr_handler,
}
use uami_os.Irq.Lines.{handler_at, gate_at, present, Sized, register_lines-Given}

-- A controller is present: after the two data ports have been written they give those bytes back.
abbrev pub Present : Ports → Type 0
Present inb =
    (m : ℕ) (p : Pic)
    → m < 2 ^ 16
    → (inb (set_mask m p).writes 0x21 ≡ m % 256) × (inb (set_mask m p).writes 0xA1 ≡ m / 256)

-- The state that a successful `i686_IRQ_Initialize` leaves.
pub record Ready (s s' : Irq) : Type 0 where
  pub sized : Sized s'
  pub driver : s'.has_driver ≡ true
  pub given : (j : ℕ) → 32 ≤ j → j < 48 → handler_at s' j ≡ irq_handlers_of
  pub opened : (j : ℕ) → 32 ≤ j → j < 48 → gate_at s' j ≡ present (gate_at s j)
  pub others :
      (j : ℕ)
      → (j < 32) ⊎ (48 ≤ j)
      → (handler_at s' j ≡ handler_at s j) × (gate_at s' j ≡ gate_at s j)
  pub lines : s'.irq_handlers ≡ s.irq_handlers
  pub masked : s'.pic.pic_mask ≡ 0xFFFF
  pub enabled : s'.interrupts_enabled ≡ true

probe-Present : (inb : Ports) (p : Pic) → Present inb → (probe inb p).0 ≡ true
unfolding probe get_mask
probe-Present inb p answers =
    let (low, high) = answers 0x1337 (disable p) (omega arith) in rw (low, high)

masked_by_configure : (a b : ℕ) (auto : Bool) (p : Pic) → (configure a b auto p).pic_mask ≡ 0xFFFF
unfolding configure set_mask outb_wait outb
masked_by_configure a b auto p = refl

pub irq_initialize-Ready :
    (inb : Ports) (s : Irq)
    → Present inb
    → Sized s
    → (s' : Irq) × (irq_initialize inb s ≡ some s') × Ready s s'
unfolding irq_initialize
irq_initialize-Ready inb s answers z =
    let found = probe-Present inb s.pic answers in
    let p = configure 32 40 false (probe inb s.pic).1 in
    let s₂ : Irq = record s { pic = p; has_driver = true } in
    let z₂ : Sized s₂ = record { gates = z.gates; handlers = z.handlers; lines = z.lines } in
    let has : (s.has_driver || (probe inb s.pic).0) ≡ true = or_true s.has_driver _ found in
    let (s₃, go, g) = register_lines-Given 16 0 s₂ z₂ (omega arith) in
    (
      record s₃ { interrupts_enabled = true },
      rw (has, go),
      record {
        sized = record {
          gates = g.sized.gates;
          handlers = g.sized.handlers;
          lines = g.sized.lines;
        };
        driver = g.driver;
        given = λ j ge lt. g.given j (omega arith) (omega arith);
        opened = λ j ge lt. g.opened j (omega arith) (omega arith);
        others =
            λ j o. g.others j (elim o [ inl a ↦ inl (omega arith) | inr b ↦ inr (omega arith) ]);
        lines = g.same_lines;
        masked =
            ap (λ q. q.pic_mask) g.same_pic ∙ masked_by_configure 32 40 false (probe inb s.pic).1;
        enabled = refl;
      },
    )

-- The writes that end the interrupt of a line, newest first.
abbrev pub eoi : ℕ → List Write
eoi irq =
    let first : Write = record { port = 0x20; value = 0x20 } in
    let second : Write = record { port = 0xA0; value = 0x20 } in
    if leb 8 irq then first ∷ second ∷ [] else first ∷ []

eoi_writes : (irq : ℕ) (p : Pic) → (send_end_of_interrupt irq p).writes ≡ eoi irq ++ p.writes
unfolding send_end_of_interrupt outb
eoi_writes irq p = elim (Bool-cases (leb 8 irq)) [ inl y ↦ rw (y) | inr n ↦ rw (n) ]

-- Once the lines are ready, a handler can be registered for any of the 16 lines; the interrupt of
-- that line then runs it, and ends the interrupt at the second controller, if the line is one of
-- its eight, and then at the first.
pub isr_handler-irq_register_handler :
    (s s₀ : Irq) (irq h : ℕ)
    → Ready s₀ s
    → irq < 16
    → (s' : Irq) × (s'' : Irq) × (irq_register_handler irq h s ≡ some s')
      × (isr_handler (32 + irq) s' ≡ some (s'', run h))
      × (s''.pic.writes ≡ eoi irq ++ s.pic.writes)
unfolding irq_register_handler isr_handler irq_handler send_end_of_interrupt outb
isr_handler-irq_register_handler s s₀ irq h r lt =
    let s' : Irq = record s { irq_handlers = set s.irq_handlers irq (some h) } in
    let handler : get_elem? s.isr_handlers (32 + irq) ≡ some irq_handlers_of =
      get_elem?-eq-get_or s.isr_handlers (32 + irq) null (omega (arith, r.sized.handlers))
      ∙ ap some (r.given (32 + irq) (omega arith) (omega arith)) in
    let held : get_elem? s'.irq_handlers irq ≡ some (some h) =
      get_elem?-eq-get_or s'.irq_handlers irq none
        (omega (arith, length-set s.irq_handlers irq (some h), r.sized.lines))
      ∙ ap some (get_or-set_self s.irq_handlers irq (some h) none (omega (arith, r.sized.lines))) in
    let line : 32 + irq - 32 ≡ irq = omega arith in
    (
      s',
      record s' { pic = send_end_of_interrupt irq s'.pic },
      rw (lt→ltb irq (length s.irq_handlers) (omega (arith, r.sized.lines))),
      rw (handler, le→ltb (32 + irq) 32 (omega arith), line, held, r.driver),
      eoi_writes irq s.pic,
    )
