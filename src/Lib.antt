-- ===== src/Lib.antt =====
-- A model of the UamiOS kernel, with the theorems that make its parts correct.
--
-- The kernel keeps its state in file-scope variables. Each module here has a record for those
-- variables and a function for each C function, which takes the state and returns the next one.
--
-- * Pmm.antt, src/kernel/pmm.c: one bit for each of 32768 pages of 4096 bytes. `Pmm` holds
--   `g_Bitmap`, `g_TotalPages` and `g_FreePages`; a page is allocated by the first clear bit.
-- * Scheduler.antt, src/kernel/scheduler.c and src/kernel/scheduler_asm.asm: the table of 8 tasks, the
--   search around it, and the swap of registers. `Kernel` holds the variables of scheduler.c, the
--   page allocator that gives the stacks, the registers, and the memory the stacks stand in.
-- * Thread.antt, src/kernel/thread.c: the interface to tasks, and the timer handler of src/kernel/main.c.
-- * Memory.antt, src/kernel/memory.c: memcpy, memset and memcmp over lists of bytes.
-- * Keyboard.antt, src/kernel/arch/i686/keyboard.c: the ring of characters between the handler of IRQ 1
--   and the shell, and what the handler makes of a scancode. `Keyboard` holds its variables.
-- * Idt.antt, src/kernel/arch/i686/idt.c, gdt.c and isrs_gen.c, with i686_ISR_Initialize of isr.c: the
--   gates of the interrupt table and the segment descriptors.
-- * Pic.antt, src/kernel/arch/i686/i8259.c: the interrupt controllers, as lists of port writes.
-- * Irq.antt, src/kernel/arch/i686/isr.c, irq.c and timer.c: handlers of interrupts and of the 16 lines.
-- * Stdio.antt, src/kernel/stdio.c and src/kernel/hal/vfs.c: formatted output. `Streams` holds what has been
--   sent to the screen and to the debug port; an argument list is a list of 32-bit words.
-- * Boot/Disk.antt, src/bootloader/stage2/disk.c and mbr.c: sector addresses and partitions. The BIOS
--   is a parameter.
-- * Boot/Strings.antt, src/bootloader/stage2/string.c and ctype.c: strings and code points.
-- * Vga.antt, src/kernel/arch/i686/vga_text.c: the text screen, its cursor and its scrollback.
-- * Shell.antt, src/kernel/shell.c: the string helpers, and the paths made of a directory and a name.
--   Shell/Commands.antt is the line editor and the commands on files, Shell/Tasks.antt the choice of
--   a command and the one that kills a task.
-- * Fat.antt and its children, src/kernel/fs/fat.c: `Fat` holds the mounted volume over a disk whose
--   sectors may fail; Table is the cached table of clusters, Files the open files, Dirs what is read
--   through them, Entries the scans of directories, Writing what is made, written and deleted.
-- * Ata.antt, src/kernel/drivers/ata.c: the sectors behind the file system, through port instructions.
-- * Boot/Fat.antt, src/bootloader/stage2/fat.c: the file system of the boot loader, for tables of 12,
--   16 and 32 bits. Boot/Fat/Open.antt is its search along a path.
-- * Boot/Elf.antt, src/bootloader/stage2/elf.c: the loader of the kernel's image.
-- * Base.antt and its children: shared names, Boolean tests, lists, fixed widths, and facts checked
--   over all bytes.
--
-- How they meet: PMM_Initialize clears the bitmap with memset; Scheduler_CreateTask and
-- Scheduler_KillTask allocate and free a page of the allocator; thread.c calls the scheduler.
-- The handler of the keyboard fills the ring that the shell empties.
-- i686_IRQ_Initialize probes and sets up the controllers and opens the gates of their lines; an
-- interrupt goes from its gate to the handler in isr.c, and for a line on to the one in irq.c.
-- fat.c reads and writes sectors with ata.c. Fat.antt takes a disk whose sectors may fail in its
-- place; Ata/Drive.antt states what the standard says of a drive, which is a parameter.
-- elf.c reads the kernel's file with the fat.c beside it, and copies it with a memcpy of 16-bit sizes.
--
-- Conventions. A number is a ℕ, cut to its width where C cuts it. `none` is a step that C leaves
-- undefined (an access outside an array, a remainder by zero) or a loop that ran out of fuel; a
-- theorem that a call gives `some` rules both out. The search for a task has as much fuel as there
-- are tasks, which is one lap of the ring; the waiting loop of Thread_Sleep has fuel as an
-- argument, since it need not end. Memory under the stacks is a function from addresses to 32-bit
-- words, read and written at the stack pointer as the instructions do. The two buffers of memcpy
-- and memcmp do not overlap. Log lines, which change no state, are left out.
--
-- The file system's loops over a directory have fuel as an argument, since its chain may run in a
-- circle; the read of a file has one round more than bytes to read.
--
-- A mask of the low k bits, `x & (2 ^ k - 1)`, is written `x % 2 ^ k`. Loops over a fixed range of
-- numbers recurse on how many are left; the digits of a number have the 32 bytes of their buffer as
-- fuel, and a tab five rounds, more than it can take.
--
-- Not modelled: the commands of the shell that show the state of the machine, the start of the
-- kernel and of the bootloader, the output of the bootloader and the tools, which are programs over
-- the parts above or talk to devices; the C++ library, which nothing links; port instructions and
-- generated entry stubs, which hold no logic.
pub mod Ata
pub mod Base
pub mod Boot
pub mod Fat
pub mod Idt
pub mod Irq
pub mod Keyboard
pub mod Memory
pub mod Pic
pub mod Pmm
pub mod Scheduler
pub mod Shell
pub mod Stdio
pub mod Thread
pub mod Vga
