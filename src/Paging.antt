-- ===== src/Paging.antt =====
-- kernel/arch/i386/pmm/paging.c, the virtual half (`page_map`, `page_unmap`), with
-- kernel/arch/i386/pmm/allocator.c and kernel/arch/i386/vmm/addr.c. The page tables are reached as
-- the code reaches them, through the last slot of the directory. The TLB is taken as flushed.
-- A message that is printed by `sprintf` stands for its format.
pub mod Walk
pub mod Map
pub mod Fuel
pub mod Table
pub mod Extend
pub mod Space
pub mod Range
mod Examples
use treeos.Base.{
  ℕ, zero, suc, ◌+◌, ◌-◌, ◌*◌, ◌/◌, ◌%◌, ◌^◌, Bool, true, false, not, ◌&&◌, Option, none, some,
  Result, ok, fault, panicked, kassert, panic_if, or_fault, ◌>>=◌, ◌>>◌, ◌==◌, if◌then◌else◌, add32,
}
use treeos.Bitmap.{bitmap_test_bit}
use treeos.Frames.{Frames, Entry, page_alloc, page_size}

-- What paging sees of the machine: page frame `n` as its 1024 entries, the frame of the directory
-- in CR3, and the static variables of the two files.
pub record Memory : Type 0 where
  pub frames : Frames
  pub tables : ℕ → ℕ → Entry
  pub dir : ℕ
  pub placement_heap : ℕ

-- An entry that is all zero.
abbrev pub blank : Entry
blank = record { present = false; rw = false; user = false; rest = 0; address = 0 }

-- The frame that virtual page `page` is mapped to.
abbrev pub walk_slots : Memory → ℕ → ℕ → Option ℕ
walk_slots m i slot =
    let pde = m.tables m.dir i in
    let pte = m.tables pde.address slot in
    if pde.present && pte.present then some pte.address else none

abbrev pub walk : Memory → ℕ → Option ℕ
walk m page = walk_slots m (page / 1024) (page % 1024)

abbrev pub update : (ℕ → ℕ → Entry) → ℕ → ℕ → Entry → ℕ → ℕ → Entry
update tables frame i e frame' i' = if frame == frame' && i == i' then e else tables frame' i'

-- Entry `i` of the virtual page `page`. An access to a page that is not mapped faults.
abbrev pub read_entry : ℕ → ℕ → Memory → Result Entry
read_entry page i m = or_fault (walk m page) >>= λ frame. ok (m.tables frame i)

abbrev pub write_entry : ℕ → ℕ → Entry → Memory → Result Memory
write_entry page i e m =
    or_fault (walk m page) >>= λ frame. ok (record m { tables = update m.tables frame i e })

-- `memset ((void *) vaddr, 0, PAGE_SIZE)` at a page boundary.
abbrev pub zero_page : ℕ → Memory → Result Memory
zero_page page m = or_fault (walk m page) >>= λ frame.
    ok (record m { tables = λ frame' i. if frame == frame' then blank else m.tables frame' i })

-- The virtual pages of the directory and of table `i`: `0xFFFFF000` and `0xFFC00000 + 0x1000 * i`.
abbrev pub dir_page : ℕ
dir_page = 0xfffff

abbrev pub table_page : ℕ → ℕ
table_page i = 0xffc00 + i

abbrev pub is_page_aligned : ℕ → Bool
is_page_aligned addr = addr % page_size == 0

-- The type of `page_map`: physical address, virtual address, `rw`, `user`.
abbrev pub Mapper : Type 0
Mapper = ℕ → ℕ → Bool → Bool → Memory → Result Memory

-- `paging_structure_alloc`, with the function that it maps its page by.
unfoldable pub paging_structure_alloc : Mapper → Memory → Result (ℕ × Memory)
paging_structure_alloc page_map m = do
  kassert (is_page_aligned m.placement_heap) "KASSERT failed: IS_PAGE_ALIGNED(placement_heap)"
  (got, frames) ← page_alloc (some blank) m.frames
  pte ← elim got [ none ↦ panicked "out of memory" | some e ↦ ok e ]
  m ← page_map (pte.address * page_size) m.placement_heap true false (record m { frames = frames })
  m ← zero_page (m.placement_heap / page_size) m
  ok (m.placement_heap, record m { placement_heap = add32 m.placement_heap page_size })

-- `virt_to_phys`.
unfoldable pub virt_to_phys : ℕ → Memory → Result ℕ
virt_to_phys vaddr m = do
  let pgdir_index = vaddr / 2 ^ 22
  let pgtbl_index = vaddr / 2 ^ 12 % 2 ^ 10
  pde ← read_entry dir_page pgdir_index m
  panic_if (not pde.present) "virtual address %x references invalid page directory entry %u"
  pte ← read_entry (table_page pgdir_index) pgtbl_index m
  panic_if (not pte.present)
      "virtual address %x references invalid page table entry %u in page directory %u"
  ok (pte.address * page_size + vaddr % page_size)

-- The part of `page_map` that makes a table for a directory entry that has none.
unfoldable pub need_table : Mapper → ℕ → Memory → Result Memory
unfolding paging_structure_alloc virt_to_phys
need_table page_map pgdir_index m = do
  pde ← read_entry dir_page pgdir_index m
  elim pde.present [
    | true ↦ ok m
    | false ↦ do
      m ← write_entry dir_page pgdir_index (record pde { present = true; rw = true; user = true }) m
      (table, m) ← paging_structure_alloc page_map m
      physaddr ← virt_to_phys table m
      pde ← read_entry dir_page pgdir_index m
      write_entry dir_page pgdir_index (record pde { address = physaddr / 2 ^ 12 }) m
  ]

-- The part of `page_map` that fills in the entry of the table.
unfoldable pub fill_entry : Mapper
fill_entry physaddr virtualaddr rw user m = do
  let pgdir_index = virtualaddr / 2 ^ 22
  let pgtbl_index = virtualaddr / 2 ^ 12 % 2 ^ 10
  pte ← read_entry (table_page pgdir_index) pgtbl_index m
  panic_if pte.present
      "page table entry already present for virtual address %x (mapped to physical address %x)"
  write_entry (table_page pgdir_index) pgtbl_index
      (record pte { present = true; rw = rw; user = user; address = physaddr / 2 ^ 12 }) m

-- `page_map`, which `paging_structure_alloc` calls again; `fuel` bounds the depth.
unfoldable pub page_map_fuel : ℕ → Mapper
unfolding need_table fill_entry
page_map_fuel zero physaddr virtualaddr rw user m = fault
page_map_fuel (suc fuel) physaddr virtualaddr rw user m = do
  panic_if (not (is_page_aligned physaddr)) "physical address is not page-aligned"
  panic_if (not (is_page_aligned virtualaddr)) "virtual address is not page-aligned"
  used ← bitmap_test_bit m.frames.page_bitmap (physaddr / page_size)
  panic_if (not used) "mapping page that is not allocated in page_bitmap"
  m ← need_table (page_map_fuel fuel) (virtualaddr / 2 ^ 22) m
  fill_entry physaddr virtualaddr rw user m

-- The table for the placement heap may itself be missing, so the calls nest up to three deep.
unfoldable pub page_map : Mapper
unfolding page_map_fuel
page_map = page_map_fuel 3

unfoldable pub page_unmap : ℕ → Memory → Result Memory
page_unmap virtualaddr m = do
  panic_if (not (is_page_aligned virtualaddr)) "virtual address is not page-aligned"
  let pgdir_index = virtualaddr / 2 ^ 22
  let pgtbl_index = virtualaddr / 2 ^ 12 % 2 ^ 10
  pde ← read_entry dir_page pgdir_index m
  panic_if (not pde.present) "page directory entry not present for virtual address %x\n"
  pte ← read_entry (table_page pgdir_index) pgtbl_index m
  panic_if (not pte.present) "page table entry not present for virtual address %x\n"
  write_entry (table_page pgdir_index) pgtbl_index blank m

-- `paging_allocator_init`; `kern_end` is the linker's `KERN_END`.
unfoldable pub paging_allocator_init : ℕ → Memory → Memory
paging_allocator_init kern_end m = record m {
  placement_heap = add32 (kern_end / page_size * page_size) page_size;
}
