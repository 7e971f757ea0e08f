-- ===== src/Idt.antt =====
-- The descriptor tables of src/kernel/arch/i686: idt.c, gdt.c, the generated isrs_gen.c, and the
-- start of isr.c. `none` is a gate number outside the table. The stubs `i686_ISR0` to `i686_ISR255`
-- are assembly: their addresses are a parameter. Loading the tables into the processor is left out.
pub mod Gates
pub mod Descriptor
mod Tests
use uami_os.Base.{
  ◌∷◌, [], ℕ, zero, suc, ◌+◌, bit_and, bit_or, Option, none, some, List, ltb, if◌then◌else◌, ◌>>=◌,
  length, get_or, set, u8, u16, u32, ◌>>>◌, not_u32,
}

-- `IDTEntry`.
pub record IdtEntry : Type 0 where
  pub base_low : ℕ
  pub segment_selector : ℕ
  pub reserved : ℕ
  pub flags : ℕ
  pub base_high : ℕ

abbrev pub zero_gate : IdtEntry
zero_gate = record { base_low = 0; segment_selector = 0; reserved = 0; flags = 0; base_high = 0 }

abbrev pub idt_flag_ring0 : ℕ
idt_flag_ring0 = 0

abbrev pub idt_flag_gate_32bit_int : ℕ
idt_flag_gate_32bit_int = 0xE

abbrev pub idt_flag_present : ℕ
idt_flag_present = 0x80

abbrev pub gdt_code_segment : ℕ
gdt_code_segment = 0x08

-- A write to an array; `none` is outside.
abbrev pub write_at {ℓ} : {A : Type ℓ} → List A → ℕ → A → Option (List A)
write_at xs i v = if ltb i (length xs) then some (set xs i v) else none

unfoldable pub set_gate : ℕ → ℕ → ℕ → ℕ → List IdtEntry → Option (List IdtEntry)
set_gate interrupt base segment flags idt = write_at idt interrupt (record {
  base_low = u16 (u32 base);
  segment_selector = segment;
  reserved = 0;
  flags = flags;
  base_high = u16 (u32 base >>> 16);
})

-- `FLAG_SET` and `FLAG_UNSET` of a gate.
unfoldable pub enable_gate : ℕ → List IdtEntry → Option (List IdtEntry)
enable_gate interrupt idt =
    let e = get_or idt interrupt zero_gate in
    write_at idt interrupt (record e { flags = bit_or e.flags idt_flag_present })

unfoldable pub disable_gate : ℕ → List IdtEntry → Option (List IdtEntry)
disable_gate interrupt idt =
    let e = get_or idt interrupt zero_gate in
    write_at idt interrupt (record e { flags = bit_and e.flags (not_u32 idt_flag_present) })

-- The 256 lines of `i686_ISR_InitializeGates`, from number `i` on, with `left` to go.
unfoldable pub initialize_gates : (ℕ → ℕ) → ℕ → ℕ → List IdtEntry → Option (List IdtEntry)
initialize_gates isr zero i idt = some idt
initialize_gates isr (suc left) i idt = do
  idt' ← set_gate i (isr i) gdt_code_segment (bit_or idt_flag_ring0 idt_flag_gate_32bit_int) idt
  initialize_gates isr left (i + 1) idt'

unfoldable pub enable_gates : ℕ → ℕ → List IdtEntry → Option (List IdtEntry)
enable_gates zero i idt = some idt
enable_gates (suc left) i idt = do idt' ← enable_gate i idt; enable_gates left (i + 1) idt'

-- `i686_ISR_Initialize`.
unfoldable pub isr_initialize : (ℕ → ℕ) → List IdtEntry → Option (List IdtEntry)
isr_initialize isr idt = do
  idt₁ ← initialize_gates isr 256 0 idt
  idt₂ ← enable_gates 256 0 idt₁
  disable_gate 0x80 idt₂

-- `GDTEntry`.
pub record GdtEntry : Type 0 where
  pub limit_low : ℕ
  pub base_low : ℕ
  pub base_middle : ℕ
  pub access : ℕ
  pub flags_limit_hi : ℕ
  pub base_high : ℕ

-- The macro `GDT_ENTRY`, for arguments below 2 ^ 32.
unfoldable pub gdt_entry : ℕ → ℕ → ℕ → ℕ → GdtEntry
gdt_entry base limit access flags = record {
  limit_low = u16 limit;
  base_low = u16 base;
  base_middle = u8 (base >>> 16);
  access = access;
  flags_limit_hi = bit_or (bit_and (limit >>> 16) 0xF) (bit_and flags 0xF0);
  base_high = u8 (base >>> 24);
}

-- `g_GDT`: the null descriptor, the kernel's code and the kernel's data.
unfoldable pub gdt : List GdtEntry
gdt =
    gdt_entry 0 0 0 0
    ∷ gdt_entry 0 0xFFFFF (bit_or (bit_or (bit_or 0x80 0x00) 0x18) 0x02) (bit_or 0x40 0x80)
    ∷ gdt_entry 0 0xFFFFF (bit_or (bit_or (bit_or 0x80 0x00) 0x10) 0x02) (bit_or 0x40 0x80)
    ∷ []
