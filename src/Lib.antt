-- ===== src/Lib.antt =====
-- treeos: a small kernel for i386, in C. This library models the kernel's own logic: its memory of
-- page frames and page tables, its descriptor tables, its interrupts, its scheduler, its text
-- console and the C library functions it links. One module stands for one part of the source.
--
--   Base        shared names, comparisons, words of 8, 16 and 32 bits, arrays, and how a function
--               ends: `ok`, `panicked` with the panic's message, or `fault` for what C leaves
--               undefined (an access out of bounds, a null pointer)
--   Bits        the bits of a number, as the masks of the source set, clear and test them
--   Bitmap      kernel/kernel/util/bitmap.c, kernel/include/kernel/util/bitmap.h
--   Frames      kernel/arch/i386/pmm/paging.c: the bitmap of the page frames (paging_init_bitmap,
--               paging_init_region, paging_deinit_region, page_alloc, page_free);
--               Frames/Pool is the abstract allocator that they implement
--   Paging      kernel/arch/i386/pmm/paging.c, pmm/allocator.c and vmm/addr.c: page_map, page_unmap,
--               paging_structure_alloc, virt_to_phys, on an explicit memory of frames that is walked
--               as the hardware walks it; Paging/Walk says which pages have one table entry, as slots 0
--               and 768 of the boot directory have one table, Paging/Extend makes a table that is not
--               there, and Paging/Space maps ranges into a slot with or without a table
--   Cpu         kernel/arch/i386/cpu.c and proc/task.c: GDT, IDT and TSS
--   Interrupt   kernel/arch/i386/interrupt.c, kernel/include/kernel/interrupt.h: handler tables, the
--               mask of the controllers, critical regions, IRQ dispatch;
--               Interrupt/Reach has the states that are reached from int_init
--   Scheduler   kernel/kernel/proc/scheduler.c and process.c: the queue, the tick, stage 1 of a switch
--   Tty         kernel/arch/i386/tty.c: the VGA text console, and tty_remap over Paging
--   KernelHeap  kernel/kernel/vmm/heap.c and kernel_heap.c: the pages of the kernel heap, over Paging
--   Str         klibc/string: memory and string functions on a memory of bytes
--   Format      klibc/stdio/vsprintf.c: formatted printing
--   Elf         kernel/arch/i386/elf/elf32.c and kernel/include/kernel/elf: the checks of an ELF file
--               and the extent of its segments
--   Multiboot   kernel/include/kernel/multiboot.h: the boot loader's records, read from memory
--   Pmm         kernel/arch/i386/pmm/pmm.c: the memory map and the modules over Frames, and pmm_init
--   Serio       kernel/arch/i386/serio.c: the serial port
--   Stdio       klibc/stdio: printf, vprintf, sprintf, puts and putchar over Format and Tty
--   Timer       kernel/kernel/timer.c and kernel/arch/i386/pit.c: the clock
--   Module      kernel/kernel/module.c: the module table, over Paging and Multiboot
--   Panic       kernel/kernel/panic.c, kernel/arch/i386/reboot.c and proc/thread.c: panics and
--               warnings with their texts, and the dump of the registers
--   Trap        kernel/arch/i386/interrupt.c and pmm/pmm.c: what an exception without a handler, a
--               page fault and a system call show
--   Kernel      kernel/kernel/kernel.c: kinit and kmain, the system task, init and its page directory
--   Fixtures    states that the examples of several modules start from
--
-- A module's state is a record of the static variables of its file; ports that are written are a
-- log in it, and so are the warnings. A function takes the state and returns it with its result.
-- Paging works on the frames of Frames, which rest on Bitmap; Pmm sets those up and Module maps the
-- modules by Paging; int_init fills the tables of Cpu; the scheduler and the console do their work in
-- the critical regions of Interrupt (`critical` is the pattern lock, body, unlock), so their theorems
-- say that the timer's mask is given back. Stdio and Panic write to Tty and Serio.
--
-- Numbers are natural numbers; the wrap-around of 8, 16 and 32 bits is written where the source can
-- meet it. Fuel: page_map calls itself through the structure allocator, at most three calls deep,
-- and has fuel for three; the loops that walk the process queue and that read strings take fuel
-- and fault without it, and their theorems ask for as much as the queue or the string is long.
-- A number has at most ten decimal and eight hexadecimal digits, and the digit loop fuel for them.
-- The loop over the memory map has a step for each of its bytes, and an entry is at least four bytes
-- long. A wait for the serial port or the clock has fuel for its readings, and the theorems ask for a
-- reading among them that ends it: what a port or the clock reads is a function of the number of the
-- read.
-- Parameters: the allocator (klibc/liballoc is third-party code) as what it returns, the addresses
-- that the linker chooses, what the hardware reads, and what a driver's handler does. In Frames,
-- Paging, Interrupt and the other parts below Panic, a panic or a warning stands for its format, and
-- what pmm_init and module_table_init print is recorded as the calls of printf. The lines that gdt_init,
-- idt_init, int_init, tss_init and timer_init print are not part of these functions here: kmain records
-- them. A driver's handler works on a state apart from the interrupts' own, so it cannot mask an IRQ or
-- register a handler while it runs. A state that a panic leaves half written is not modelled.
--
-- Not modelled: assembly (what is loaded or written is recorded), liballoc, the endless loops of the
-- two tasks, the keyboard, which kmain does not start, system.c, which
-- is switched off, and reinit_paging, which the build leaves out.
pub mod Base
pub mod Bitmap
pub mod Bits
pub mod Cpu
pub mod Elf
pub mod Fixtures
pub mod Format
pub mod Frames
pub mod Interrupt
pub mod Kernel
pub mod KernelHeap
pub mod Module
pub mod Multiboot
pub mod Paging
pub mod Panic
pub mod Pmm
pub mod Scheduler
pub mod Serio
pub mod Stdio
pub mod Str
pub mod Timer
pub mod Trap
pub mod Tty
