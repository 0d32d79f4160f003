-- ===== src/Pmm.antt =====
-- kernel/arch/i386/pmm/pmm.c: the memory that the boot loader reports, on the page frames of Frames.
-- `USE_BOOTSTRAP_PAGING` is defined in pmm.h, so `reinit_paging` is not compiled. What is printed is
-- recorded as the calls of `printf`.
pub mod MemoryMap
pub mod Modules
pub mod Init
mod Examples
use Prim.Native.String.{String}
use treeos.Base.{
  ℕ, zero, suc, ◌+◌, ◌*◌, ◌/◌, ◌%◌, ◌^◌, Bool, true, false, not, ◌&&◌, List, [], ◌∷◌, ◌++◌, Result,
  ok, fault, panicked, kassert, panic_if, ◌>>=◌, ◌>>◌, ltb, ◌==◌, if◌then◌else◌, u32, add32, sub32,
}
use treeos.Str.{Bytes}
use treeos.Frames.{Frames, paging_init_bitmap, paging_init_region, paging_deinit_region}
use treeos.Paging.{Memory, paging_allocator_init}
use treeos.Interrupt.{Interrupts, Handler, driver, int_register_handler}
use treeos.Multiboot.{
  MultibootInfo, MmapEntry, ModList, mmap_entry_at, mod_list_at, has_flag, multiboot_info_memory,
  multiboot_info_mem_map, multiboot_info_mods, multiboot_memory_available,
}

-- A call of `printf`: the format, in which a string argument is filled in, and the numbers.
abbrev pub Print : Type 0
Print = String × List ℕ

-- The low 32 bits of the entry's address, which `len32` is read from too.
abbrev pub addr32 : MmapEntry → ℕ
addr32 e = e.addr % 2 ^ 32

abbrev pub len32 : MmapEntry → ℕ
len32 e = e.addr % 2 ^ 32

abbrev pub is_available : MmapEntry → Bool
is_available e = e.type == multiboot_memory_available

abbrev pub region_line : MmapEntry → Print
region_line e = (
  if is_available e
      then "memory region from %p to %p is available\n"
      else "memory region from %p to %p is reserved\n",
  addr32 e ∷ add32 (addr32 e) (len32 e) ∷ [],
)

-- The body of the loop on an entry.
unfoldable pub take_entry : MmapEntry → Frames × List Print → Result (Frames × List Print)
take_entry e (f, log) = do
  f ← (if is_available e then paging_init_region (addr32 e) (len32 e) f else ok f)
  ok (f, log ++ region_line e ∷ [])

-- The loop of `parse_memory_map`, with fuel.
unfoldable pub parse_entries :
    Bytes → (fuel mmap stop : ℕ) → Frames × List Print → Result (Frames × List Print)
parse_entries b zero mmap stop s = fault
parse_entries b (suc fuel) mmap stop s =
    let e = mmap_entry_at b mmap in
    let rest = take_entry e s >>= λ s. parse_entries b fuel (u32 (mmap + e.size + 4)) stop s in
    if ltb mmap stop then rest else ok s

-- An entry takes at least four bytes, so one step for each byte of the map is enough.
unfoldable pub parse_memory_map :
    Bytes → MultibootInfo → Frames × List Print → Result (Frames × List Print)
parse_memory_map b mbi s =
    parse_entries b (mbi.mmap_length + 1) mbi.mmap_addr (add32 mbi.mmap_addr mbi.mmap_length) s

abbrev pub module_line : ModList → Print
module_line m = ("module found in region from %p to %p\n", m.mod_start ∷ m.mod_end ∷ [])

-- `mod_end - mod_start - 1`.
abbrev pub kept_size : ModList → ℕ
kept_size m = sub32 (sub32 m.mod_end m.mod_start) 1

-- The loop of `preserve_modules`, with `left` modules to go from `mod` on.
unfoldable pub preserve_from :
    Bytes → (left mod_ptr : ℕ) → Frames × List Print → Result (Frames × List Print)
preserve_from b zero mod_ptr s = ok s
preserve_from b (suc left) mod_ptr (f, log) = do
  kassert (not (mod_ptr == 0)) "KASSERT failed: mod"
  let m = mod_list_at b mod_ptr
  f ← paging_deinit_region m.mod_start (kept_size m) f
  preserve_from b left (add32 mod_ptr 16) (f, log ++ module_line m ∷ [])

unfoldable pub preserve_modules :
    Bytes → MultibootInfo → Frames × List Print → Result (Frames × List Print)
preserve_modules b mbi s = do
  panic_if (not (mbi.mods_count == 0) && not (has_flag mbi multiboot_info_mods))
      "Multiboot header does not include module information"
  preserve_from b mbi.mods_count mbi.mods_addr s

-- `page_fault_int_handler` as an entry of the handler table.
abbrev pub page_fault_int_handler : Handler
page_fault_int_handler = driver 14

-- What `pmm_init` works on.
pub record Pmm : Type 0 where
  pub memory : Memory
  pub interrupts : Interrupts
  pub printed : List Print

abbrev pub kib : MultibootInfo → ℕ
kib mbi = add32 mbi.mem_lower mbi.mem_upper

-- The addresses that the linker chooses.
pub record Kernel : Type 0 where
  pub kern_start : ℕ
  pub kern_end : ℕ
  pub kern_high_offset : ℕ

abbrev pub real_kernel_start : Kernel → ℕ
real_kernel_start k = sub32 k.kern_start k.kern_high_offset

abbrev pub real_kernel_end : Kernel → ℕ
real_kernel_end k = sub32 k.kern_end k.kern_high_offset

abbrev pub kernel_size : Kernel → ℕ
kernel_size k = sub32 (real_kernel_end k) (real_kernel_start k)

-- `array` is what `page_bitmap_bits` holds.
unfoldable pub pmm_init : (array : List ℕ) → Kernel → Bytes → MultibootInfo → Pmm → Result Pmm
pmm_init array k b mbi s = do
  panic_if (not (has_flag mbi multiboot_info_memory))
      "Multiboot header does not include memory size information"
  panic_if (not (has_flag mbi multiboot_info_mem_map))
      "Multiboot header does not include memory map information"
  let log =
      s.printed
      ++ ("mem_lower = %u KiB\n", mbi.mem_lower ∷ [])
        ∷ ("mem_upper = %u KiB\n", mbi.mem_upper ∷ [])
        ∷ ("mem_total = %u KiB\n", kib mbi ∷ [])
        ∷ []
  (bytes, f) ← paging_init_bitmap array (u32 (kib mbi * 1024)) s.memory.frames
  (f, log) ← parse_memory_map b mbi (f, log)
  f ← paging_deinit_region (real_kernel_start k) (kernel_size k) f
  (f, log) ← preserve_modules b mbi (f, log)
  let memory = paging_allocator_init k.kern_end (record s.memory { frames = f })
  i ← int_register_handler 14 page_fault_int_handler s.interrupts
  ok (record {
    memory = memory;
    interrupts = i;
    printed = log ++ ("[mm] paging enabled\n", []) ∷ [];
  })
