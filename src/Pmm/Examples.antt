-- ===== src/Pmm/Examples.antt =====
-- A machine of 16 MiB with one available region, a kernel and a module, and the theorems there.
use treeos.Base.{
  ◌≡◌, refl, arith, none, some, List, [], ◌∷◌, ok, panicked, ◌>>=◌, ◌==◌, if◌then◌else◌, replicate,
}
use treeos.Bitmap.{bitmap_set_bit, bitmap_clear_bit, bitmap_first_free, words_for}
use treeos.Frames.{
  Frames, pages_of, page_alloc, paging_init_bitmap, paging_init_region, paging_deinit_region,
}
use treeos.Frames.Region.{IsFrames}
use treeos.Paging.{blank, paging_allocator_init}
use treeos.Interrupt.{unexpected_int_handler, int_register_handler}
use treeos.Str.{Bytes}
use treeos.Multiboot.{MultibootInfo, MmapEntry, mmap_entry_at}
use treeos.Pmm.{
  Pmm, pmm_init, parse_memory_map, preserve_modules, take_entry, parse_entries, preserve_from,
}
use treeos.Fixtures.Load.{kernel, zeros, zeros-IsWords}
use treeos.Pmm.MemoryMap.{
  Entries, done, next, AllFit, Reports, after_entries, lines, parse_memory_map_lem,
}
use treeos.Pmm.Init.{IsBootable, Prepared, Spares, Reserved, pmm_init_lem, page_alloc-pmm_init}

-- Two entries of the memory map at 0x1000, and a module at 0x2000.
abbrev bytes : Bytes
bytes a =
    if a == 0x1000
    then 20
    else if a == 0x1006
    then 0x10
    else if a == 0x1014
    then 1
    else if a == 0x1018
    then 20
    else if a == 0x102c
    then 2
    else if a == 0x2002
    then 0x30
    else if a == 0x2005
    then 0x28
    else if a == 0x2006
    then 0x30
    else 0

abbrev info : MultibootInfo
info = record {
  flags = 0x49;
  mem_lower = 640;
  mem_upper = 15360;
  boot_device = 0;
  cmdline = 0;
  mods_count = 1;
  mods_addr = 0x2000;
  u0 = 0;
  u1 = 0;
  u2 = 0;
  u3 = 0;
  mmap_length = 48;
  mmap_addr = 0x1000;
}

abbrev at_boot : Frames
at_boot = record {
  page_count = 0;
  page_bitmap = record { word_count = 0; bits = none; flags = 0 };
  worries = [];
}

abbrev reset : Pmm
reset = record {
  memory = record { frames = at_boot; tables = λ frame i. blank; dir = 1; placement_heap = 0 };
  interrupts = record {
    handler_table = replicate 49 unexpected_int_handler;
    irq_handler_list = replicate 16 [];
    irq_mask = 0xfffb;
    ports = [];
    worries = [];
  };
  printed = [];
}

-- The first page that is given out lies behind the kernel and the page after it.
first_page :
    (do
      s ← pmm_init zeros kernel bytes info reset
      (e, f) ← page_alloc (some blank) s.memory.frames
      ok e)
    ≡ ok (some (record blank { address = 273 }))
unfolding pmm_init paging_init_bitmap parse_memory_map take_entry parse_entries preserve_modules
    preserve_from paging_init_region paging_deinit_region bitmap_clear_bit bitmap_set_bit
    paging_allocator_init int_register_handler page_alloc bitmap_first_free
first_page = refl

no_map :
    pmm_init zeros kernel bytes (record info { flags = 1 }) reset
    ≡ panicked "Multiboot header does not include memory map information"
unfolding pmm_init
no_map = refl

no_mods :
    (f : Frames)
    → preserve_modules bytes (record info { flags = 0x41 }) (f, [])
      ≡ panicked "Multiboot header does not include module information"
unfolding preserve_modules
no_mods f = refl

abbrev entries : List MmapEntry
entries = mmap_entry_at bytes 0x1000 ∷ mmap_entry_at bytes 0x1018 ∷ []

bytes-Entries : Entries bytes 0x1030 0x1000 entries
bytes-Entries =
    next (omega arith) (omega arith) (next (omega arith) (omega arith) (done (omega arith)))

bootable : IsBootable kernel bytes info entries
unfolding words_for pages_of
bootable = record {
  memory_flag = refl;
  map_flag = refl;
  mods_flag = refl;
  sized = omega arith;
  map_small = omega arith;
  entries = bytes-Entries;
  regions = (λ e. omega arith, (λ e. omega arith, tt));
  kernel_order = omega arith;
  kernel_within = omega arith;
  mods_ptr = omega arith;
  mods_small = omega arith;
  modules = (omega arith, tt);
}

pmm_init_lem_example :
    Prepared zeros kernel bytes info entries reset (pmm_init zeros kernel bytes info reset)
pmm_init_lem_example = pmm_init_lem zeros refl zeros-IsWords kernel bytes info bootable reset refl

page_alloc-pmm_init_example :
    (t : Pmm) × (pmm_init zeros kernel bytes info reset ≡ ok t)
    × Spares (Reserved kernel bytes info) t.memory.frames (page_alloc (some blank) t.memory.frames)
page_alloc-pmm_init_example =
    page_alloc-pmm_init zeros refl zeros-IsWords kernel bytes info bootable reset refl blank

abbrev cleared : Frames
cleared = record {
  page_count = 4096;
  page_bitmap = record { word_count = 128; bits = some zeros; flags = 0 };
  worries = [];
}

cleared-IsFrames : IsFrames cleared zeros
cleared-IsFrames = record {
  holds = record { bits = refl; fit = zeros-IsWords; enough = omega arith };
  size = refl;
}

all_fit : AllFit entries
unfolding pages_of
all_fit = (λ e. omega arith, (λ e. omega arith, tt))

parse_memory_map_lem_example :
    Reports cleared zeros
      (after_entries entries)
      (lines entries [])
      (parse_memory_map bytes info (cleared, []))
parse_memory_map_lem_example =
    parse_memory_map_lem bytes info [] (omega arith) bytes-Entries cleared-IsFrames all_fit
