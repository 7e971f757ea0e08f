-- ===== src/Boot.antt =====
-- bootloader/stage2: the disk and the strings of the boot loader.
pub mod Disk
pub mod Strings
pub mod Fat
pub mod Elf
mod Chs
mod Search
mod Utf
mod Tests
