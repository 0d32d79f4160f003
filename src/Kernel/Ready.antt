-- ===== src/Kernel/Ready.antt =====
-- What `kmain` leaves behind where there is no module: the clock, the system task and the console.
use treeos.Base.{
  ℕ, zero, suc, ◌+◌, ◌*◌, ◌/◌, ◌^◌, ◌≤◌, ◌<◌, ◌≡◌, ◌≢◌, refl, arith, true, false, none, some, List,
  [], ◌∷◌, ◌++◌, Result, ok, panicked, u32, add32, ◌%◌, ap, sym, ◌∙◌, subst, length, get_elem?, set,
  length-set, replicate, ok_inj, bind_ok, ==_refl,
}
use treeos.Bits.{bit}
use treeos.Bitmap.Bits.{IsWords, taken}
use treeos.Cpu.{Cpu, gdt_init, tss_init, idt_init}
use treeos.Frames.{Frames, bitmap_array_size}
use treeos.Frames.Region.{IsFrames}
use treeos.Module.{Modules, module_table_init}
use treeos.Tty.{tty_remap}
use treeos.Interrupt.{
  Interrupts, Handler, driver, null, int_init, default_handler, default_handlers,
}
use treeos.Interrupt.Mask.{InSync}
use treeos.Interrupt.Handlers.{int_register_irq_handler_lem}
use treeos.Interrupt.Init.{int_init_lem}
use treeos.Scheduler.{Scheduler, scheduler_init}
use treeos.Scheduler.Queue.{Chain}
use treeos.Scheduler.Add.{scheduler_add_process_lem}
use treeos.Paging.{Memory, walk}
use treeos.Paging.Walk.{IsRooted}
use treeos.Paging.Map.{window}
use treeos.Multiboot.{MultibootInfo, MmapEntry, info_at}
use treeos.Bitmap.{words_for}
use treeos.Frames.{pages_of}
use treeos.Pmm.{kib}
use treeos.Pmm.Init.{IsBootable, after_init, pmm_init_lem}
use treeos.Tty.Remap.{high_of, Remaps, moved, no_memory, tty_remap_lem}
use treeos.Timer.{timer_handler, timer_init}
use treeos.Timer.Pit.{timer_init_lem}
use treeos.Panic.{ThreadContext}
use treeos.Kernel.Tasks.{Tasks, task_context, system_ready, init_system_task}
use treeos.Kernel.Main.{Image, Machine, kmain, gdt_line, idt_line, int_line, tss_line, timer_line}

first_masked : bit 0xfffb 0 ≡ true
unfolding bit
first_masked = refl

gdt_init_lem : (at tss : ℕ) (c : Cpu) → (d : Cpu) × (gdt_init at tss c ≡ ok d)
unfolding gdt_init
gdt_init_lem at tss c = (_, refl)

-- The system task is alone on the queue, and nothing but the controllers' ports was touched.
pub init_system_task_lem :
    (k : Tasks) (fuel at stack_bottom eflags : ℕ) (c : ThreadContext) (i : Interrupts)
    (s : Scheduler)
    → InSync i
    → s.process_queue ≡ 0
    → k.system_task ≢ 0
    → (j : Interrupts) × (t : Scheduler) × (init_system_task k fuel at stack_bottom eflags c (i, s)
        ≡ ok (record (task_context k.kernel_system_task eflags c) { esp = stack_bottom }, (j, t)))
      × Chain t.processes t.process_queue (k.system_task ∷ [])
      × InSync j
      × (record j { ports = i.ports } ≡ i)
unfolding init_system_task
init_system_task_lem k fuel at stack_bottom eflags c i s sync empty named =
    let (t, r, queues) =
      scheduler_add_process_lem (system_ready k at s) k.system_task named {i = i} sync [] fuel empty
        (rw (==_refl k.system_task) refl) (omega arith) in
    (r.after, t, rw r.returns refl, queues.chain, r.sync, r.same)

-- The clock is started and the scheduler's tick is behind it.
pub clock_lem :
    (tick : ℕ) (i : Interrupts) (s : Scheduler)
    → InSync i
    → get_elem? i.irq_handler_list 0 ≡ some []
    → bit i.irq_mask 0 ≡ true
    → (j k : Interrupts) × (timer_init true 100 i ≡ ok j)
      × (scheduler_init true tick (j, s)
          ≡ ok (k, record s { process_queue = 0; g_preemption_enabled = true }))
      × (get_elem? k.irq_handler_list 0 ≡ some (timer_handler ∷ driver tick ∷ []))
      × (bit k.irq_mask 0 ≡ false)
      × InSync k
unfolding scheduler_init
clock_lem tick i s sync free masked =
    let runs = timer_init_lem 100 i (omega arith) sync free masked in
    let (k, returns, chains, same) =
      int_register_irq_handler_lem runs.after 0 [] timer_handler (driver tick) (omega arith)
        (omega arith) refl runs.chain in
    let synced = subst InSync (sym same) runs.sync in
    (
      runs.after,
      k,
      runs.returns,
      rw returns refl,
      chains 0,
      ap (λ (x : Interrupts). bit x.irq_mask 0) same ∙ runs.mask 0,
      record { fits = synced.fits; master = synced.master; slave = synced.slave },
    )

-- Without modules there is nothing to place.
no_modules :
    (kcalloc : ℕ) (mbi : MultibootInfo) (s : Modules)
    → mbi.mods_count ≡ 0
    → module_table_init kcalloc mbi s
      ≡ ok (record s {
        module_table_size = mbi.mods_count;
        printed = s.printed ++ ("%u Multiboot modules found\n", mbi.mods_count ∷ []) ∷ [];
      })
unfolding module_table_init
no_modules kcalloc mbi s none_left = rw none_left refl

length-default_handlers :
    (left i : ℕ) (table : List Handler) → length (default_handlers left i table) ≡ length table
unfolding default_handlers
length-default_handlers zero i table = refl
length-default_handlers (suc left) i table =
    length-default_handlers left (i + 1) (set table i (default_handler i))
    ∙ length-set table i (default_handler i)

length-int_init :
    (at : ℕ) (isr : ℕ → ℕ) (c d : Cpu) (s t : Interrupts)
    → int_init at isr c s ≡ ok (d, t)
    → length t.handler_table ≡ 49
unfolding int_init
length-int_init at isr c d s t e =
    let (c', ran, rest) = bind_ok (idt_init at isr c) e in
    ap (λ (x : Cpu × Interrupts). length x.1.handler_table) (sym (ok_inj rest))
    ∙ length-default_handlers 49 0 (replicate 49 null)

-- Where the placement heap starts.
abbrev pub first_heap : Image → ℕ
first_heap g = add32 (g.kernel.kern_end / 4096 * 4096) 4096

-- What the boot code leaves: a directory that its last slot leads to, in a page that is in use after
-- `pmm_init`, as are the tables, of which there is one for the page behind the kernel, which is not mapped.
-- The text buffer is mapped below 4 MiB and in use, and its high address has no table.
pub record IsConsole (g : Image) (m : Machine) (es : List MmapEntry) : Type 0 where
  pub small : m.tty_buf + 0x8000 ≤ 0x400000
  pub aligned : m.tty_buf % 4096 ≡ 0
  pub rooted : IsRooted m.memory
  pub stale : (i : ℕ) → i < 1023 → (m.memory.tables m.memory.dir i).address ≢ m.memory.dir
  pub dir_used :
      after_init g.page_bitmap_bits g.kernel m.bytes
        (info_at m.bytes g.g_multiboot_info)
        es
        m.memory.dir
      ≡ true
  pub tables_used :
      (i : ℕ)
      → i < 1024
      → (m.memory.tables m.memory.dir i).present ≡ true
      → after_init g.page_bitmap_bits g.kernel m.bytes
          (info_at m.bytes g.g_multiboot_info)
          es
          (m.memory.tables m.memory.dir i).address
        ≡ true
  pub heap_low : first_heap g < window
  pub heap_table : (m.memory.tables m.memory.dir (first_heap g / 2 ^ 22)).present ≡ true
  pub heap_free : walk m.memory (first_heap g / 4096) ≡ none
  pub table : (m.memory.tables m.memory.dir 0).present ≡ true
  pub no_table : (m.memory.tables m.memory.dir (high_of m.tty_buf / 2 ^ 22)).present ≡ false
  pub mapped : (j : ℕ) → j < 8 → (frame : ℕ) × (walk m.memory (m.tty_buf / 4096 + j) ≡ some frame)
  pub used :
      (j : ℕ)
      → j < 8
      → after_init g.page_bitmap_bits g.kernel m.bytes
          (info_at m.bytes g.g_multiboot_info)
          es
          (m.tty_buf / 4096 + j)
        ≡ true

-- `kmain` returned with the task that it enters, and everything that a tick of the clock needs.
pub record IsReady (g : Image) (m : Machine) (result : Result (ThreadContext × Machine))
    : Type 0 where
  pub context : ThreadContext
  pub after : Machine
  pub returns : result ≡ ok (context, after)
  pub entry : context.eip ≡ g.tasks.kernel_system_task
  pub stack : context.esp ≡ g.stack_bottom
  pub queue :
      Chain after.scheduler.processes after.scheduler.process_queue (g.tasks.system_task ∷ [])
  pub clock :
      get_elem? after.interrupts.irq_handler_list 0 ≡ some (timer_handler ∷ driver g.tick ∷ [])
  pub ticking : bit after.interrupts.irq_mask 0 ≡ false
  pub sync : InSync after.interrupts
  pub tty_buf : after.tty_buf ≡ high_of m.tty_buf
  pub console :
      (j : ℕ)
      → j < 8
      → walk after.memory (high_of m.tty_buf / 4096 + j) ≡ some (m.tty_buf / 4096 + j)

-- The outcomes: it is ready, or every page of the memory is in use after `pmm_init` and none is left for the
-- table of the text buffer.
pub data Boots (g : Image) (m : Machine) (es : List MmapEntry)
    (result : Result (ThreadContext × Machine)) : Type 0 where
  ready : IsReady g m result → Boots g m es result
  no_page :
      result ≡ panicked "out of memory"
      → ((j : ℕ)
          → j < words_for (pages_of (u32 (kib (info_at m.bytes g.g_multiboot_info) * 1024))) * 32
          → after_init g.page_bitmap_bits g.kernel m.bytes (info_at m.bytes g.g_multiboot_info) es j
            ≡ true)
      → Boots g m es result

module _ (g : Image) (fuel : ℕ) (m : Machine) {es : List MmapEntry}
    (stubs : (j : ℕ) → g.isr j < 2 ^ 32) (size : length g.page_bitmap_bits ≡ bitmap_array_size)
    (fit : IsWords g.page_bitmap_bits)
    (boot : IsBootable g.kernel m.bytes (info_at m.bytes g.g_multiboot_info) es)
    (alone : (info_at m.bytes g.g_multiboot_info).mods_count ≡ 0) (console : IsConsole g m es)
    (given : g.kmalloc ≡ true) (named : g.tasks.system_task ≢ 0) where
  abbrev mbi : MultibootInfo
  mbi = info_at m.bytes g.g_multiboot_info

  -- The console moves in any memory that differs in its frames and its placement heap only.
  remapped_frames :
      (f : Frames) (heap : ℕ) (out : List ℕ)
      → IsFrames f out
      → heap ≡ first_heap g
      → ((j : ℕ) → taken out j ≡ after_init g.page_bitmap_bits g.kernel m.bytes mbi es j)
      → Remaps m.tty_buf
          (record m.memory { frames = f; placement_heap = heap })
          out
          (tty_remap m.tty_buf (record m.memory { frames = f; placement_heap = heap }))
  remapped_frames f heap out valid start each =
      tty_remap_lem m.tty_buf (record m.memory { frames = f; placement_heap = heap }) out
        (record {
          small = console.small;
          space = record {
            own = record {
              frames = valid;
              rooted = record {
                recursive = record {
                  present = console.rooted.recursive.present;
                  address = console.rooted.recursive.address;
                };
                not_dir = console.rooted.not_dir;
              };
              stale = console.stale;
              dir_used = each m.memory.dir ∙ console.dir_used;
              tables_used = λ i lt here. each _ ∙ console.tables_used i lt here;
              heap_aligned = omega (arith, start);
              heap_low = omega (arith, start, console.heap_low);
              heap_table =
                  ap (λ (h : ℕ). (m.memory.tables m.memory.dir (h / 2 ^ 22)).present) start
                  ∙ console.heap_table;
              heap_free = ap (λ (h : ℕ). walk m.memory (h / 4096)) start ∙ console.heap_free;
            };
            aligned = omega (arith, console.aligned);
            low = omega (arith, console.small);
            within = omega (arith, console.small);
            phys_aligned = console.aligned;
            inside = omega (arith, console.small);
            used = λ j h. each (m.tty_buf / 4096 + j) ∙ console.used j h;
            free = λ j h.
                let e : (high_of m.tty_buf / 4096 + j) / 1024 ≡ high_of m.tty_buf / 2 ^ 22 =
                  omega (arith, console.small, console.aligned, h) in
                rw (e, console.no_table) refl;
          };
          table = console.table;
          no_table = console.no_table;
          mapped = console.mapped;
        })

  remapped :
      (s : Memory) (out : List ℕ)
      → s ≡ record m.memory { frames = s.frames; placement_heap = s.placement_heap }
      → IsFrames s.frames out
      → s.placement_heap ≡ first_heap g
      → ((j : ℕ) → taken out j ≡ after_init g.page_bitmap_bits g.kernel m.bytes mbi es j)
      → Remaps m.tty_buf s out (tty_remap m.tty_buf s)
  remapped s out unmoved valid start each =
      subst (λ (s : Memory). Remaps m.tty_buf s out (tty_remap m.tty_buf s)) (sym unmoved)
        (remapped_frames s.frames s.placement_heap out valid start each)

  -- With what `pmm_init` needs, no module, memory for the nodes of the handler lists and a directory as the
  -- boot code leaves it (IsConsole: it and its tables are in frames in use after `pmm_init`, the page behind
  -- the kernel has a table and is not mapped, the text buffer is mapped and its high address has no table),
  -- `kmain` returns: it enters the system task, which is alone on the queue, the clock's interrupt is
  -- unmasked and runs the clock and then the scheduler's tick, and the text buffer is at its high address.
  -- It panics only if every page of the memory is in use after `pmm_init`.
  pub kmain_lem : Boots g m es (kmain g fuel m)
  unfolding kmain
  kmain_lem =
      let (c, gdt) = gdt_init_lem g.gdt_entries g.tss m.cpu in
      let (d, i, inits, leads, table, chains, mask, sync) =
        int_init_lem g.idt_entries g.isr c m.interrupts stubs in
      let p =
        pmm_init_lem g.page_bitmap_bits size fit g.kernel m.bytes mbi boot
          (record {
            memory = m.memory;
            interrupts = i;
            printed = m.printed ++ gdt_line ∷ idt_line ∷ int_line ∷ tss_line ∷ [];
          })
          (length-int_init g.idt_entries g.isr c d m.interrupts i inits) in
      let r_cases = remapped p.after.memory p.out p.unmoved p.valid p.heap p.each in
      let synced = subst InSync (sym p.same_irqs) sync in
      let (j, k, timed, ticks, clock, ticking, sync') =
        clock_lem g.tick p.after.interrupts m.scheduler
          (record { fits = synced.fits; master = synced.master; slave = synced.slave })
          (ap (λ (x : Interrupts). get_elem? x.irq_handler_list 0) p.same_irqs
            ∙ ap (λ (l : List (List Handler)). get_elem? l 0) chains)
          (ap (λ (x : Interrupts). bit x.irq_mask 0) p.same_irqs
            ∙ ap (λ (n : ℕ). bit n 0) mask
            ∙ first_masked) in
      let (l, t, tasks, queue, sync'', same) =
        init_system_task_lem g.tasks fuel g.at g.stack_bottom g.eflags g.context k
          (record m.scheduler { process_queue = 0; g_preemption_enabled = true }) sync' refl
          named in
      elim r_cases [
        | no_memory stops all ↦
            no_page (rw (gdt, inits, p.returns, stops) refl)
              (λ j lt. sym (p.each j) ∙ all j (omega (arith, lt, p.count)))
        | moved r ↦
            let nothing =
              no_modules g.kcalloc mbi
                (record {
                  module_table = m.module_table;
                  module_table_size = m.module_table_size;
                  bytes = m.bytes;
                  memory = r.after;
                  printed = p.after.printed;
                })
                alone in
            ready (record {
              context = record (task_context g.tasks.kernel_system_task g.eflags g.context) {
                esp = g.stack_bottom;
              };
              after = record {
                cpu = tss_init g.stack_top d;
                interrupts = l;
                memory = r.after;
                bytes = m.bytes;
                module_table = m.module_table;
                module_table_size = mbi.mods_count;
                tty_buf = high_of m.tty_buf;
                scheduler = t;
                printed =
                    (p.after.printed ++ ("%u Multiboot modules found\n", mbi.mods_count ∷ []) ∷ [])
                    ++ timer_line ∷ [];
              };
              returns =
                  rw (gdt, inits, p.returns, r.returns, nothing, given, timed, ticks, tasks) refl;
              entry = refl;
              stack = refl;
              queue = queue;
              clock = ap (λ (x : Interrupts). get_elem? x.irq_handler_list 0) same ∙ clock;
              ticking = ap (λ (x : Interrupts). bit x.irq_mask 0) same ∙ ticking;
              sync = sync'';
              tty_buf = refl;
              console = r.high;
            })
      ]
