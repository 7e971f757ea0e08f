-- ===== src/Irq/Lines.antt =====
-- The loop of `i686_IRQ_Initialize` in src/kernel/arch/i686/irq.c over the lines.

use uami_os.Base.{
  ℕ, zero, suc, ◌+◌, ◌≤◌, ◌<◌, bit_or, ◌≡◌, refl, ap, subst, ◌∙◌, ◌≢◌, ◌⊎◌, inl, inr, some, arith,
  lt→ltb, length, get_or, set, length-set, get_or-set_self, get_or-set_ne,
}
use native.Mathlib.Decide.{ℕ_discrete}
use uami_os.Idt.{IdtEntry, zero_gate, enable_gate}
use uami_os.Irq.{Irq, IsrHandler, irq_handlers_of, null, isr_register_handler, register_lines}

abbrev pub handler_at : Irq → ℕ → IsrHandler
handler_at s n = get_or s.isr_handlers n null

abbrev pub gate_at : Irq → ℕ → IdtEntry
gate_at s n = get_or s.idt n zero_gate

-- The same gate, present.
abbrev pub present : IdtEntry → IdtEntry
present e = record e { flags = bit_or e.flags 0x80 }

pub record Sized (s : Irq) : Type 0 where
  pub gates : length s.idt ≡ 256
  pub handlers : length s.isr_handlers ≡ 256
  pub lines : length s.irq_handlers ≡ 16

-- The gates and handlers from number `n` up to `n + left` have been given to the lines.
pub record Given (left n : ℕ) (s s' : Irq) : Type 0 where
  pub sized : Sized s'
  pub given : (j : ℕ) → n ≤ j → j < n + left → handler_at s' j ≡ irq_handlers_of
  pub opened : (j : ℕ) → n ≤ j → j < n + left → gate_at s' j ≡ present (gate_at s j)
  pub others :
      (j : ℕ)
      → (j < n) ⊎ (n + left ≤ j)
      → (handler_at s' j ≡ handler_at s j) × (gate_at s' j ≡ gate_at s j)
  pub driver : s'.has_driver ≡ s.has_driver
  pub same_lines : s'.irq_handlers ≡ s.irq_handlers
  pub same_pic : s'.pic ≡ s.pic

-- One line: its number is given, the others are as they were.
line_given : ℕ → Irq → Irq
line_given n s = record s {
  isr_handlers = set s.isr_handlers n irq_handlers_of;
  idt = set s.idt n (present (gate_at s n));
}

module _ (n : ℕ) (s : Irq) (z : Sized s) (lt : n < 256) where
  line_given-run : isr_register_handler n irq_handlers_of s ≡ some (line_given n s)
  unfolding isr_register_handler enable_gate line_given
  line_given-run = rw (
    lt→ltb n (length s.isr_handlers) (omega (arith, z.handlers)),
    lt→ltb n (length s.idt) (omega (arith, z.gates)),
  )

  Sized-line_given : Sized (line_given n s)
  unfolding line_given
  Sized-line_given = record {
    gates = length-set s.idt n _ ∙ z.gates;
    handlers = length-set s.isr_handlers n irq_handlers_of ∙ z.handlers;
    lines = z.lines;
  }

  handler_given : handler_at (line_given n s) n ≡ irq_handlers_of
  unfolding line_given
  handler_given = get_or-set_self s.isr_handlers n irq_handlers_of null (omega (arith, z.handlers))

  gate_given : gate_at (line_given n s) n ≡ present (gate_at s n)
  unfolding line_given
  gate_given = get_or-set_self s.idt n _ zero_gate (omega (arith, z.gates))

  others_kept :
      (j : ℕ)
      → n ≢ j
      → (handler_at (line_given n s) j ≡ handler_at s j)
        × (gate_at (line_given n s) j ≡ gate_at s j)
  unfolding line_given
  others_kept j ne = (
    get_or-set_ne s.isr_handlers n j irq_handlers_of null ne,
    get_or-set_ne s.idt n j _ zero_gate ne,
  )

  rest_kept :
      ((line_given n s).has_driver ≡ s.has_driver)
      × ((line_given n s).irq_handlers ≡ s.irq_handlers)
      × ((line_given n s).pic ≡ s.pic)
  unfolding line_given
  rest_kept = (refl, refl, refl)

pub register_lines-Given :
    (left i : ℕ) (s : Irq)
    → Sized s
    → i + left ≤ 16
    → (s' : Irq) × (register_lines left i s ≡ some s') × Given left (32 + i) s s'
unfolding register_lines
register_lines-Given zero i s z fits = (
  s,
  refl,
  record {
    sized = z;
    given = λ j ge lt. absurd (omega arith);
    opened = λ j ge lt. absurd (omega arith);
    others = λ j o. (refl, refl);
    driver = refl;
    same_lines = refl;
    same_pic = refl;
  },
)
register_lines-Given (suc left) i s z fits =
    let n = 32 + i in
    let lt : n < 256 = omega arith in
    let s₁ = line_given n s in
    let (s', go, g) =
      register_lines-Given left (i + 1) s₁ (Sized-line_given n s z lt) (omega arith) in
    let (driver, same_lines, same_pic) = rest_kept n s z lt in
    let this = g.others n (inl (omega arith)) in
    (
      s',
      rw (line_given-run n s z lt) go,
      record {
        sized = g.sized;
        given = λ j ge below. elim (ℕ_discrete n j) [
          | yes e ↦
              subst (λ x. handler_at s' x ≡ irq_handlers_of) e (this.0 ∙ handler_given n s z lt)
          | no ne ↦ g.given j (omega arith) (omega arith)
        ];
        opened = λ j ge below. elim (ℕ_discrete n j) [
          | yes e ↦
              subst (λ x. gate_at s' x ≡ present (gate_at s x)) e (this.1 ∙ gate_given n s z lt)
          | no ne ↦
              g.opened j (omega arith) (omega arith) ∙ ap present (others_kept n s z lt j ne).1
        ];
        others = λ j o.
            let ne : n ≢ j = λ e. elim o [ inl a ↦ omega arith | inr b ↦ omega arith ] in
            let (h, f) =
              g.others j (elim o [ inl a ↦ inl (omega arith) | inr b ↦ inr (omega arith) ]) in
            (h ∙ (others_kept n s z lt j ne).0, f ∙ (others_kept n s z lt j ne).1);
        driver = g.driver ∙ driver;
        same_lines = g.same_lines ∙ same_lines;
        same_pic = g.same_pic ∙ same_pic;
      },
    )
