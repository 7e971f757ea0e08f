-- ===== src/Idt/Gates.antt =====
-- The interrupt table after `i686_ISR_Initialize` in src/kernel/arch/i686/isr.c.
use uami_os.Idt.{
  disable_gate, enable_gate, enable_gates, isr_initialize, IdtEntry, zero_gate, gdt_code_segment,
  set_gate, initialize_gates,
}
use uami_os.Base.{
  ℕ, zero, suc, ◌+◌, ◌*◌, ◌%◌, ◌^◌, ◌≤◌, ◌<◌, bit_and, bit_or, ◌≡◌, refl, sym, ap, subst, ◌∙◌, ◌≢◌,
  ◌⊎◌, inl, inr, some, List, arith, lt→ltb, length, get_or, set, length-set, get_or-set_self,
  get_or-set_ne, u16, u32, ◌>>>◌, not_u32,
}
use native.Mathlib.Decide.{ℕ_discrete}

abbrev pub gate : List IdtEntry → ℕ → IdtEntry
gate idt i = get_or idt i zero_gate

-- The address that the processor reads from a gate.
abbrev pub gate_base : IdtEntry → ℕ
gate_base e = e.base_low + e.base_high * 2 ^ 16

abbrev stub_gate : ℕ → IdtEntry
stub_gate base = record {
  base_low = u16 (u32 base);
  segment_selector = gdt_code_segment;
  reserved = 0;
  flags = 0xE;
  base_high = u16 (u32 base >>> 16);
}

abbrev with_flags : ℕ → IdtEntry → IdtEntry
with_flags flags e = record e { flags = flags }

-- `idt'` has been rewritten by `new` from number `i` up to number `i + left`.
record Rewritten (new : ℕ → IdtEntry) (left i : ℕ) (idt idt' : List IdtEntry) : Type 0 where
  size : length idt' ≡ length idt
  inside : (j : ℕ) → i ≤ j → j < i + left → gate idt' j ≡ new j
  outside : (j : ℕ) → (j < i) ⊎ (i + left ≤ j) → gate idt' j ≡ gate idt j

initialize_gates-Rewritten :
    (isr : ℕ → ℕ) (left i : ℕ) (idt : List IdtEntry)
    → i + left ≤ length idt
    → (idt' : List IdtEntry) × (initialize_gates isr left i idt ≡ some idt')
      × Rewritten (λ j. stub_gate (isr j)) left i idt idt'
unfolding initialize_gates set_gate
initialize_gates-Rewritten isr zero i idt fits = (
  idt,
  refl,
  record { size = refl; inside = λ j ge lt. absurd (omega arith); outside = λ j o. refl },
)
initialize_gates-Rewritten isr (suc left) i idt fits =
    let idt₁ = set idt i (stub_gate (isr i)) in
    let size₁ : length idt₁ ≡ length idt = length-set idt i (stub_gate (isr i)) in
    let (idt', run, r) = initialize_gates-Rewritten isr left (i + 1) idt₁ (omega arith) in
    (
      idt',
      rw (lt→ltb i (length idt) (omega arith)) run,
      record {
        size = r.size ∙ size₁;
        inside = λ j ge lt. elim (ℕ_discrete i j) [
          | yes e ↦
              subst (λ x. gate idt' x ≡ stub_gate (isr x)) e
                (r.outside i (inl (omega arith))
                  ∙ get_or-set_self idt i (stub_gate (isr i)) zero_gate (omega arith))
          | no ne ↦ r.inside j (omega arith) (omega arith)
        ];
        outside = λ j o.
            r.outside j (elim o [ inl lt ↦ inl (omega arith) | inr ge ↦ inr (omega arith) ])
            ∙ get_or-set_ne idt i j (stub_gate (isr i)) zero_gate
                (λ e. elim o [ inl lt ↦ omega arith | inr ge ↦ omega arith ]);
      },
    )

abbrev present : IdtEntry → IdtEntry
present e = with_flags (bit_or e.flags 0x80) e

enable_gates-Rewritten :
    (left i : ℕ) (idt : List IdtEntry)
    → i + left ≤ length idt
    → (idt' : List IdtEntry) × (enable_gates left i idt ≡ some idt')
      × Rewritten (λ j. present (gate idt j)) left i idt idt'
unfolding enable_gates enable_gate
enable_gates-Rewritten zero i idt fits = (
  idt,
  refl,
  record { size = refl; inside = λ j ge lt. absurd (omega arith); outside = λ j o. refl },
)
enable_gates-Rewritten (suc left) i idt fits =
    let e = present (gate idt i) in
    let idt₁ = set idt i e in
    let size₁ : length idt₁ ≡ length idt = length-set idt i e in
    let (idt', run, r) = enable_gates-Rewritten left (i + 1) idt₁ (omega arith) in
    let kept : (j : ℕ) → i ≢ j → gate idt₁ j ≡ gate idt j =
      λ j ne. get_or-set_ne idt i j e zero_gate ne in
    (
      idt',
      rw (lt→ltb i (length idt) (omega arith)) run,
      record {
        size = r.size ∙ size₁;
        inside = λ j ge lt. elim (ℕ_discrete i j) [
          | yes same ↦
              subst (λ x. gate idt' x ≡ present (gate idt x)) same
                (r.outside i (inl (omega arith)) ∙ get_or-set_self idt i e zero_gate (omega arith))
          | no ne ↦ r.inside j (omega arith) (omega arith) ∙ ap present (kept j ne)
        ];
        outside = λ j o.
            r.outside j (elim o [ inl lt ↦ inl (omega arith) | inr ge ↦ inr (omega arith) ])
            ∙ kept j (λ same. elim o [ inl lt ↦ omega arith | inr ge ↦ omega arith ]);
      },
    )

-- The table that `i686_ISR_Initialize` leaves: gate `i` is a 32-bit interrupt gate of ring 0 in the
-- code segment, leads to stub `i`, and is present unless it is the gate of system calls.
pub record Initialized (isr : ℕ → ℕ) (idt : List IdtEntry) : Type 0 where
  pub size : length idt ≡ 256
  pub base : (i : ℕ) → i < 256 → gate_base (gate idt i) ≡ isr i % 2 ^ 32
  pub segment : (i : ℕ) → i < 256 → (gate idt i).segment_selector ≡ 0x08
  pub enabled : (i : ℕ) → i < 256 → i ≢ 0x80 → (gate idt i).flags ≡ 0x8E
  pub disabled : (gate idt 0x80).flags ≡ 0x0E

base_of_stub : (b : ℕ) → gate_base (stub_gate b) ≡ b % 2 ^ 32
base_of_stub b = omega arith

initialized :
    (isr : ℕ → ℕ) (idt : List IdtEntry)
    → length idt ≡ 256
    → ((j : ℕ) → j < 256 → 0x80 ≢ j → gate idt j ≡ present (stub_gate (isr j)))
    → gate idt 0x80 ≡ stub_gate (isr 0x80)
    → Initialized isr idt
initialized isr idt size unless last = record {
  size = size;
  base = λ i lt. elim (ℕ_discrete 0x80 i) [
    | yes e ↦
        subst (λ x. gate_base (gate idt x) ≡ isr x % 2 ^ 32) e
          (ap gate_base last ∙ base_of_stub (isr 0x80))
    | no ne ↦ ap gate_base (unless i lt ne) ∙ base_of_stub (isr i)
  ];
  segment = λ i lt. elim (ℕ_discrete 0x80 i) [
    | yes e ↦
        subst (λ x. (gate idt x).segment_selector ≡ 0x08) e (ap (λ g. g.segment_selector) last)
    | no ne ↦ ap (λ g. g.segment_selector) (unless i lt ne)
  ];
  enabled = λ i lt ne. ap (λ g. g.flags) (unless i lt (λ e. ne (sym e)));
  disabled = ap (λ g. g.flags) last;
}

-- `i686_ISR_Initialize` returns on a table of 256 gates, whatever they are, and leaves it
-- initialized: every gate leads to its stub, and all but gate 0x80 are present.
pub isr_initialize-Initialized :
    (isr : ℕ → ℕ) (idt : List IdtEntry)
    → length idt ≡ 256
    → (idt' : List IdtEntry) × (isr_initialize isr idt ≡ some idt') × Initialized isr idt'
unfolding isr_initialize disable_gate
isr_initialize-Initialized isr idt size =
    let (idt₁, run₁, r₁) = initialize_gates-Rewritten isr 256 0 idt (omega arith) in
    let (idt₂, run₂, r₂) = enable_gates-Rewritten 256 0 idt₁ (omega (arith, r₁.size)) in
    let len₂ : length idt₂ ≡ 256 = r₂.size ∙ r₁.size ∙ size in
    let all : (j : ℕ) → j < 256 → gate idt₂ j ≡ present (stub_gate (isr j)) = λ j lt.
      r₂.inside j (omega arith) (omega arith)
      ∙ ap present (r₁.inside j (omega arith) (omega arith)) in
    let e = with_flags (bit_and (gate idt₂ 0x80).flags (not_u32 0x80)) (gate idt₂ 0x80) in
    let idt₃ = set idt₂ 0x80 e in
    let unless : (j : ℕ) → j < 256 → 0x80 ≢ j → gate idt₃ j ≡ present (stub_gate (isr j)) =
      λ j lt ne. get_or-set_ne idt₂ 0x80 j e zero_gate ne ∙ all j lt in
    let last : gate idt₃ 0x80 ≡ stub_gate (isr 0x80) =
      get_or-set_self idt₂ 0x80 e zero_gate (omega arith)
      ∙ ap (λ g. with_flags (bit_and g.flags (not_u32 0x80)) g) (all 0x80 (omega arith)) in
    (
      idt₃,
      rw (run₁, run₂, lt→ltb 0x80 (length idt₂) (omega arith)),
      initialized isr idt₃ (length-set idt₂ 0x80 e ∙ len₂) unless last,
    )
