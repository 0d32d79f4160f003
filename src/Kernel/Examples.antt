-- ===== src/Kernel/Examples.antt =====
-- The start of the kernel and a new directory on concrete machines, and the theorems there.
use treeos.Base.{
  ℕ, ◌-◌, ◌/◌, ◌%◌, ◌^◌, ◌<◌, ◌≤◌, ◌≡◌, inl, refl, arith, true, false, ◌&&◌, none, some, [], ◌∷◌,
  ok, ◌>>=◌, ◌==◌, if◌then◌else◌, replicate,
}
use treeos.Frames.{Entry}
use treeos.Paging.{Memory, blank, walk, virt_to_phys}
use treeos.Paging.Walk.{IsRecursive}
use treeos.Scheduler.{Scheduler, scheduler_add_process, enqueue}
use treeos.Interrupt.{
  Interrupts, null, critical, int_lock_region, int_unlock_region, int_irq_enabled, int_mask_irq,
  int_unmask_irq, set_raw_mask,
}
use treeos.Fixtures.{running, empty, idle, idle-Sends, port}
use treeos.Kernel.{Boot, kinit, copy_high, fill_dir}
use treeos.Base.{List, ◌||◌, ◌*◌, ◌+◌}
use treeos.Bitmap.{words_for}
use treeos.Frames.{pages_of}
use treeos.Str.{Bytes}
use treeos.Multiboot.{MmapEntry, mmap_entry_at, info_at}
use treeos.Pmm.MemoryMap.{next, done}
use treeos.Pmm.Init.{IsBootable, after_init}
use treeos.Fixtures.Console.{
  boot_memory, boot-IsRooted, boot_stale, every_table, below_8, buffer_mapped,
}
use treeos.Fixtures.Load.{kernel, zeros, zeros-IsWords}
use treeos.Kernel.Main.{Image, Machine, kmain}
use treeos.Kernel.Ready.{IsConsole, Boots, kmain_lem}
use treeos.Kernel.Tasks.{Tasks, init_system_task, zero_context}
use treeos.Kernel.Start.{Starts, kinit_lem}
use treeos.Kernel.Directory.{walk-fill_dir}

abbrev mapped_to : ℕ → Entry
mapped_to frame = record { present = true; rw = true; user = false; rest = 0; address = frame }

-- The directory is frame 1, frame 2 is the kernel's table, frame 3 that of the heap and frame 0x1004
-- that of the slot before it.
abbrev memory : Memory
memory = record {
  frames = record {
    page_count = 1024;
    page_bitmap = record { word_count = 32; bits = some (replicate 32 (2 ^ 32 - 1)); flags = 0 };
    worries = [];
  };
  tables = λ frame i.
      if frame == 1
      then (if i == 1023
          then mapped_to 1
          else if i == 768
          then mapped_to 2
          else if i == 831
          then mapped_to 0x1004
          else if i == 832
          then mapped_to 3
          else blank)
      else if frame == 2 && i == 1
      then mapped_to 5
      else blank;
  dir = 1;
  placement_heap = 0xc0002000;
}

memory-IsRecursive : IsRecursive memory
memory-IsRecursive = record { present = refl; address = refl }

-- The kernel's table, a table's frame that is cut off, no heap, and the directory itself.
new_entries :
    (fill_dir 0xfffff000 0xc0001000 memory >>= λ m. ok (
      (m.tables 5 768).address
      ∷ (m.tables 5 831).address
      ∷ (m.tables 5 832).address
      ∷ (m.tables 5 1023).address
      ∷ []))
    ≡ ok (2 ∷ 4 ∷ 0 ∷ 5 ∷ [])
unfolding fill_dir copy_high virt_to_phys
new_entries = refl

empty_frame : (i : ℕ) → memory.tables 5 i ≡ blank
empty_frame i = refl

walk-fill_dir_example :
    (after : Memory) × (fill_dir 0xfffff000 0xc0001000 memory ≡ ok after)
    × ((q : ℕ) → 832 ≤ q / 1024 → q / 1024 < 1023 → walk (record after { dir = 5 }) q ≡ none)
    × ((q : ℕ)
        → 768 ≤ q / 1024
        → q / 1024 < 831
        → after.tables 5 (q / 1024) ≡ memory.tables 1 (q / 1024))
walk-fill_dir_example =
    walk-fill_dir 0xfffff000 0xc0001000 1 5 memory memory-IsRecursive (omega arith) refl refl refl
      (λ e. omega (arith, e)) (λ e. omega (arith, e)) empty_frame

-- The interrupts as the program starts with them.
abbrev not_started : Interrupts
not_started = record {
  handler_table = replicate 49 null;
  irq_handler_list = replicate 16 [];
  irq_mask = 0;
  ports = [];
  worries = [];
}

-- The boot loader's record is at 0x9000, and its place in the kernel at 0x5000.
abbrev boot : Boot
boot = record {
  bytes = λ a. a % 256;
  serial = port;
  interrupts = not_started;
  tty = empty;
  heap = record {
    kheap = record { base = 0; size = 0; flags = 0 };
    enable_int = false;
    int_enabled = false;
    memory = memory;
    worries = [];
  };
}

kinit_lem_example :
    Starts 0x5000 0x2badb002 0x9000 boot (kinit idle 1 0x5000 0x2badb002 0x9000 boot)
kinit_lem_example =
    kinit_lem idle 1 idle-Sends 0x5000 0x2badb002 0x9000 (inl (omega arith)) boot refl

abbrev tasks : Tasks
tasks = record {
  system_task = 0x100;
  init_task = 0x200;
  system_thread = 0x300;
  init_thread = 0x400;
  kernel_system_task = 0xc0101000;
  kernel_idle_task = 0xc0102000;
}

abbrev no_tasks : Scheduler
no_tasks = record {
  g_current_process = 0;
  g_preemption_enabled = true;
  g_switch_processes = false;
  process_queue = 0;
  processes = λ p. record { thread = 0; pgdir = 0; flags = 0; quantum = 0; next = 0 };
  contexts = λ t. 0;
  freed = [];
}

-- The system task is alone on the queue, with its context on the stack.
system_task :
    (init_system_task tasks 5 0x7000 0x8000 2 zero_context (running, no_tasks) >>= λ (c, (i, s)).
    ok (s.process_queue ∷ s.contexts 0x300 ∷ c.esp ∷ c.eip ∷ c.eflags ∷ []))
    ≡ ok (0x100 ∷ 0x7000 ∷ 0x8000 ∷ 0xc0101000 ∷ 0x202 ∷ [])
unfolding init_system_task scheduler_add_process enqueue critical int_lock_region int_unlock_region
    int_irq_enabled int_mask_irq int_unmask_irq set_raw_mask
system_task = refl

-- The boot loader's record is at 0x3000 and the memory map at 0x1000.
abbrev loaded : Bytes
loaded a =
    if a == 0x1000 || a == 0x1018
    then 20
    else if a == 0x1006 || a == 0x3031
    then 0x10
    else if a == 0x1014
    then 1
    else if a == 0x102c || a == 0x3005
    then 2
    else if a == 0x3000
    then 0x41
    else if a == 0x3004
    then 0x80
    else if a == 0x3009
    then 0x3c
    else if a == 0x3019
    then 0x20
    else if a == 0x302c
    then 48
    else 0

abbrev image : Image
image = record {
  gdt_entries = 0xc0110000;
  tss = 0xc0111000;
  idt_entries = 0xc0112000;
  isr = λ n. (0xc0100000 + 16 * n) % 2 ^ 32;
  stack_top = 0xc0109000;
  stack_bottom = 0xc0108000;
  page_bitmap_bits = zeros;
  g_multiboot_info = 0x3000;
  kernel = kernel;
  tasks = tasks;
  tick = 7;
  kmalloc = true;
  kcalloc = 0;
  eflags = 2;
  at = 0xc0108f00;
  context = zero_context;
}

abbrev machine : Machine
machine = record {
  cpu = record {
    gdt_entries = [];
    idt_entries = [];
    tss = record { prev_tss = 0; esp0 = 0; ss0 = 0; unused = [] };
    gdtr = none;
    idtr = none;
    task_register = none;
  };
  interrupts = not_started;
  memory = record boot_memory { placement_heap = 0 };
  bytes = loaded;
  module_table = 0;
  module_table_size = 0;
  tty_buf = 0xb8000;
  scheduler = no_tasks;
  printed = [];
}

abbrev map_entries : List MmapEntry
map_entries = mmap_entry_at loaded 0x1000 ∷ mmap_entry_at loaded 0x1018 ∷ []

loaded-IsBootable : IsBootable kernel loaded (info_at loaded 0x3000) map_entries
unfolding words_for pages_of
loaded-IsBootable = record {
  memory_flag = refl;
  map_flag = refl;
  mods_flag = refl;
  sized = omega arith;
  map_small = omega arith;
  entries =
      next (omega arith) (omega arith) (next (omega arith) (omega arith) (done (omega arith)));
  regions = (λ e. omega arith, (λ e. omega arith, tt));
  kernel_order = omega arith;
  kernel_within = omega arith;
  mods_ptr = omega arith;
  mods_small = omega arith;
  modules = tt;
}

machine-IsConsole : IsConsole image machine map_entries
unfolding pages_of
machine-IsConsole = record {
  small = omega arith;
  aligned = refl;
  rooted = record {
    recursive = record { present = refl; address = refl };
    not_dir = boot-IsRooted.not_dir;
  };
  stale = boot_stale;
  dir_used = refl;
  tables_used = λ i lt here.
      every_table
        (λ (f : ℕ). after_init zeros kernel loaded (info_at loaded 0x3000) map_entries f ≡ true)
        refl refl i here;
  heap_low = omega arith;
  heap_table = refl;
  heap_free = refl;
  table = refl;
  no_table = refl;
  mapped = buffer_mapped;
  used =
      below_8
        (λ (j : ℕ).
          after_init zeros kernel loaded (info_at loaded 0x3000) map_entries (0xb8000 / 4096 + j)
          ≡ true)
        (refl, refl, refl, refl, refl, refl, refl, refl);
}

kmain_lem_example : Boots image machine map_entries (kmain image 1 machine)
kmain_lem_example =
    kmain_lem image 1 machine (λ j. omega arith) refl zeros-IsWords loaded-IsBootable refl
      machine-IsConsole refl (λ e. omega (arith, e))
