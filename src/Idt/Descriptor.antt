-- ===== src/Idt/Descriptor.antt =====
-- Segment descriptors: what the processor reads back from an entry of src/kernel/arch/i686/gdt.c.
use uami_os.Base.{ℕ, ◌+◌, ◌*◌, ◌/◌, ◌%◌, ◌^◌, bit_and, bit_or, Bool, ◌&&◌, ◌==◌}
use uami_os.Idt.{GdtEntry}

abbrev pub segment_base : GdtEntry → ℕ
segment_base e = e.base_low + e.base_middle * 2 ^ 16 + e.base_high * 2 ^ 24

abbrev pub segment_limit : GdtEntry → ℕ
segment_limit e = e.limit_low + e.flags_limit_hi % 16 * 2 ^ 16

abbrev pub segment_flags : GdtEntry → ℕ
segment_flags e = e.flags_limit_hi / 16 * 16

-- The nibbles of the shared byte, checked at every value.
abbrev packs : ℕ → ℕ → Bool
packs high flags =
    let byte = bit_or (bit_and high 0xF) (bit_and flags 0xF0) in
    byte % 16 == high && byte / 16 * 16 == flags / 16 * 16
