-- ===== src/Kernel.antt =====
-- kernel/kernel/kernel.c: how the kernel starts. `kinit` and `kmain` call the parts in turn; the first
-- task is the kernel's own, the second is `init`, with a page directory and a stack of its own. The
-- value of `g_kernel_page_dir` and the addresses that the linker chooses are parameters.
pub mod Tasks
pub mod Directory
pub mod Start
pub mod Main
pub mod Ready
mod Examples
use treeos.Base.{
  ℕ, zero, suc, ◌+◌, ◌-◌, ◌*◌, ◌/◌, ◌%◌, ◌^◌, bit_or, Bool, true, false, not, ◌&&◌, Option, none,
  some, List, [], ◌∷◌, ◌++◌, Result, ok, fault, panicked, kassert, panic_if, or_fault, ◌>>=◌, ◌>>◌,
  ◌==◌, if◌then◌else◌, ltb, leb,
}
use treeos.Str.{Bytes, poke_word, memcpy}
use treeos.Frames.{Entry, page_alloc, page_size}
use treeos.Paging.{
  Memory, blank, walk, read_entry, write_entry, is_page_aligned, paging_structure_alloc, page_map,
  virt_to_phys,
}
use treeos.Interrupt.{Interrupts, critical}
use treeos.Scheduler.{Process, Scheduler, store, scheduler_add_process}
use treeos.Tty.{Tty, tty_init}
use treeos.KernelHeap.{KernelHeap, kheap_start, kernel_heap_init}
use treeos.Serio.{Serial, serio_com1, serio_init}
use treeos.Multiboot.{multiboot_bootloader_magic}
use treeos.Panic.{ThreadContext}

-- `sizeof (struct multiboot_info)`.
abbrev pub multiboot_info_size : ℕ
multiboot_info_size = 120

-- What `kinit` works on.
pub record Boot : Type 0 where
  pub bytes : Bytes
  pub serial : Serial
  pub interrupts : Interrupts
  pub tty : Tty
  pub heap : KernelHeap

-- `g_info` is the address of `g_multiboot_info`; the console was not initialised before.
unfoldable pub kinit : (inb : ℕ → ℕ → ℕ) (fuel g_info boot_magic mbi : ℕ) → Boot → Result Boot
kinit inb fuel g_info boot_magic mbi s = do
  panic_if (not (boot_magic == multiboot_bootloader_magic))
      "kinit not called with correct multiboot magic"
  panic_if (mbi == 0) "NULL multiboot info record passed to kinit"
  let bytes = memcpy g_info mbi multiboot_info_size s.bytes
  serial ← serio_init inb fuel serio_com1 s.serial
  (x, (i, t)) ← tty_init false (s.interrupts, s.tty)
  heap ← kernel_heap_init s.heap
  ok (record { bytes = bytes; serial = serial; interrupts = i; tty = t; heap = heap })

-- `memcpy (pgdir + 768, g_kernel_page_dir + 768, 255)`: the 255 bytes are 63 entries and the low three
-- bytes of the next one, which are its flags and 12 of the 20 bits of its address.
unfoldable pub copy_high : (from to : ℕ) → (ℕ → ℕ → Entry) → ℕ → ℕ → Entry
copy_high from to tables frame i =
    let e = tables from i in
    if frame == to && leb 768 i && ltb i 831
    then e
    else if frame == to && i == 831
    then record e { address = e.address % 2 ^ 12 + (tables frame i).address / 2 ^ 12 * 2 ^ 12 }
    else tables frame i

-- The kernel's part of the new directory at `pgdir`, and its entry for itself.
unfoldable pub fill_dir : (g_kernel_page_dir pgdir : ℕ) → Memory → Result Memory
fill_dir g_kernel_page_dir pgdir m = do
  from ← or_fault (walk m (g_kernel_page_dir / page_size))
  to ← or_fault (walk m (pgdir / page_size))
  let m : Memory = record m { tables = copy_high from to m.tables }
  physaddr ← virt_to_phys pgdir m
  e ← read_entry (pgdir / page_size) 1023 m
  write_entry (pgdir / page_size) 1023
      (record e { present = true; rw = true; address = physaddr / 2 ^ 12 }) m

unfoldable pub clone_page_dir : (g_kernel_page_dir pde : ℕ) → Memory → Result (ℕ × Memory)
unfolding fill_dir
clone_page_dir g_kernel_page_dir pde m = do
  (pde, m) ←
      (if pde == 0
        then (paging_structure_alloc page_map m >>= λ (p, m).
            fill_dir g_kernel_page_dir p m >>= λ m. ok (p, m))
        else ok (pde, m))
  kassert (is_page_aligned pde) "KASSERT failed: IS_PAGE_ALIGNED(pde)"
  ok (pde, m)
