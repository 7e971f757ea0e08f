-- ===== src/Idt/Tests.antt =====
-- The interrupt table and the kernel's segments, on concrete values.
use uami_os.Base.{ℕ, ◌+◌, ◌*◌, ◌≡◌, refl, some, List, get_elem?, replicate, length-replicate}
use uami_os.Idt.{IdtEntry, zero_gate, isr_initialize, gdt_entry, gdt}
use uami_os.Idt.Gates.{Initialized, isr_initialize-Initialized}

-- Stubs of 16 bytes each from 1 MB on.
abbrev stubs : ℕ → ℕ
stubs i = 0x100000 + 16 * i

isr_initialize-Initialized_example :
    (idt' : List IdtEntry) × (isr_initialize stubs (replicate 256 zero_gate) ≡ some idt')
    × Initialized stubs idt'
isr_initialize-Initialized_example =
    isr_initialize-Initialized stubs (replicate 256 zero_gate) (length-replicate 256 zero_gate)

code_segment :
    get_elem? gdt 1
    ≡ some (record {
      limit_low = 0xFFFF;
      base_low = 0;
      base_middle = 0;
      access = 0x9A;
      flags_limit_hi = 0xCF;
      base_high = 0;
    })
unfolding gdt gdt_entry
code_segment = refl
