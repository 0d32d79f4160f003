-- ===== src/Kernel/Main.antt =====
-- kernel/kernel/kernel.c: `kmain`, which calls the parts of the kernel in turn.
use treeos.Base.{ℕ, Bool, List, [], ◌∷◌, ◌++◌, Result, ok, ◌>>=◌}
use treeos.Cpu.{Cpu, int_num_interrupts, gdt_init, tss_init}
use treeos.Interrupt.{Interrupts, int_init}
use treeos.Scheduler.{Scheduler, scheduler_init}
use treeos.Paging.{Memory}
use treeos.Str.{Bytes}
use treeos.Multiboot.{info_at}
use treeos.Pmm.{Print, Kernel, pmm_init}
use treeos.Tty.{tty_remap}
use treeos.Module.{module_table_init}
use treeos.Timer.{default_system_timer_freq, timer_init}
use treeos.Panic.{ThreadContext}
use treeos.Kernel.Tasks.{Tasks, init_system_task}

-- What the linker, the allocator and the processor give: addresses, whether a node of a handler list
-- is given and where the module table is, the node of `scheduler_tick`, the flags of the processor, and
-- what the stack holds where `init_system_task` has its context.
pub record Image : Type 0 where
  pub gdt_entries : ℕ
  pub tss : ℕ
  pub idt_entries : ℕ
  pub isr : ℕ → ℕ
  pub stack_top : ℕ
  pub stack_bottom : ℕ
  pub page_bitmap_bits : List ℕ
  pub g_multiboot_info : ℕ
  pub kernel : Kernel
  pub tasks : Tasks
  pub tick : ℕ
  pub kmalloc : Bool
  pub kcalloc : ℕ
  pub eflags : ℕ
  pub at : ℕ
  pub context : ThreadContext

-- What `kmain` works on.
pub record Machine : Type 0 where
  pub cpu : Cpu
  pub interrupts : Interrupts
  pub memory : Memory
  pub bytes : Bytes
  pub module_table : ℕ
  pub module_table_size : ℕ
  pub tty_buf : ℕ
  pub scheduler : Scheduler
  pub printed : List Print

-- The lines that `gdt_init`, `idt_init`, `int_init`, `tss_init` and `timer_init` print.
abbrev pub gdt_line : Print
gdt_line = ("[cpu] initialized GDT\n", [])

abbrev pub idt_line : Print
idt_line = ("[cpu] initialized IDT (%d entries)\n", int_num_interrupts ∷ [])

abbrev pub int_line : Print
int_line = ("[cpu] initialized interrupt and IRQ handlers\n", [])

abbrev pub tss_line : Print
tss_line = ("[cpu] initialized task register\n", [])

abbrev pub timer_line : Print
timer_line = ("[timer] initialized system timer to %d Hz\n", default_system_timer_freq ∷ [])

-- `kmain` up to the assembly that enters the system task, with that task's context. What its callees
-- print is recorded here, in the order of the calls, where they do not record it themselves.
unfoldable pub kmain : Image → (fuel : ℕ) → Machine → Result (ThreadContext × Machine)
kmain g fuel m = do
  let mbi = info_at m.bytes g.g_multiboot_info
  c ← gdt_init g.gdt_entries g.tss m.cpu
  (c, i) ← int_init g.idt_entries g.isr c m.interrupts
  let c = tss_init g.stack_top c
  p ← pmm_init g.page_bitmap_bits g.kernel m.bytes mbi (record {
    memory = m.memory;
    interrupts = i;
    printed = m.printed ++ gdt_line ∷ idt_line ∷ int_line ∷ tss_line ∷ [];
  })
  (tty_buf, memory) ← tty_remap m.tty_buf p.memory
  t ← module_table_init g.kcalloc mbi (record {
    module_table = m.module_table;
    module_table_size = m.module_table_size;
    bytes = m.bytes;
    memory = memory;
    printed = p.printed;
  })
  i ← timer_init g.kmalloc default_system_timer_freq p.interrupts
  (i, s) ← scheduler_init g.kmalloc g.tick (i, m.scheduler)
  (context, (i, s)) ← init_system_task g.tasks fuel g.at g.stack_bottom g.eflags g.context (i, s)
  ok (
    context,
    record {
      cpu = c;
      interrupts = i;
      memory = t.memory;
      bytes = t.bytes;
      module_table = t.module_table;
      module_table_size = t.module_table_size;
      tty_buf = tty_buf;
      scheduler = s;
      printed = t.printed ++ timer_line ∷ [];
    },
  )
