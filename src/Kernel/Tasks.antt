-- ===== src/Kernel/Tasks.antt =====
-- kernel/kernel/kernel.c: the two tasks that the kernel starts itself, `init_system_task` and
-- `spawn_init`.
use treeos.Base.{
  ℕ, ◌+◌, ◌-◌, ◌*◌, bit_or, true, false, none, some, List, [], ◌∷◌, Result, ok, panicked, ◌>>=◌,
  ◌==◌, if◌then◌else◌,
}
use treeos.Str.{Bytes, poke_word}
use treeos.Frames.{page_alloc, page_size}
use treeos.Paging.{Memory, blank, paging_structure_alloc, page_map}
use treeos.Interrupt.{Interrupts, critical}
use treeos.Scheduler.{Process, Scheduler, store, scheduler_add_process}
use treeos.KernelHeap.{kheap_start}
use treeos.Panic.{ThreadContext}
use treeos.Kernel.{fill_dir}

abbrev pub default_quantum : ℕ
default_quantum = 100

-- `THREAD_CONTEXT_OFFSET`.
abbrev pub thread_context_offset : ℕ
thread_context_offset = 28

-- `kernel_tasks` and `kernel_threads` have two entries: their addresses, and the two functions that
-- the tasks run.
pub record Tasks : Type 0 where
  pub system_task : ℕ
  pub init_task : ℕ
  pub system_thread : ℕ
  pub init_thread : ℕ
  pub kernel_system_task : ℕ
  pub kernel_idle_task : ℕ

abbrev zero_process : Process
zero_process = record { thread = 0; pgdir = 0; flags = 0; quantum = 0; next = 0 }

-- The selectors and flags of a task that starts at `eip`; the other registers are those of `c`.
abbrev pub task_context : (eip eflags : ℕ) → ThreadContext → ThreadContext
task_context eip eflags c = record c {
  eip = eip;
  cs = 0x8;
  ds = 0x10;
  es = 0x10;
  fs = 0x10;
  gs = 0x10;
  eflags = bit_or eflags 0x200;
}

-- The two tasks and their threads are cleared, and the system task is filled in; its context is at `at`.
abbrev pub system_ready : Tasks → (at : ℕ) → Scheduler → Scheduler
system_ready k at s =
    let s =
      store k.system_task
        (record {
          thread = k.system_thread;
          pgdir = 0xfffff000;
          flags = 0;
          quantum = default_quantum;
          next = 0;
        })
        (store k.init_task zero_process s) in
    record s {
      contexts =
          λ t. if t == k.system_thread then at else if t == k.init_thread then 0 else s.contexts t;
    }

-- `init_system_task` up to the assembly that enters the task: the context, which is at `at` on the
-- stack and starts with what `c` holds there, the queue and the tasks. `read_eflags` is `eflags`.
unfoldable pub init_system_task :
    Tasks
    → (fuel at stack_bottom eflags : ℕ) → ThreadContext
    → Interrupts × Scheduler
    → Result (ThreadContext × (Interrupts × Scheduler))
init_system_task k fuel at stack_bottom eflags c (i, s) = do
  let c = record (task_context k.kernel_system_task eflags c) { esp = stack_bottom }
  (added, (i, s)) ← scheduler_add_process fuel k.system_task (i, system_ready k at s)
  ok (c, (i, s))

-- Words that are written one after the other.
unfoldable pub poke_words : ℕ → List ℕ → Bytes → Bytes
poke_words at [] b = b
poke_words at (w ∷ ws) b = poke_words (at + 4) ws (poke_word at w b)

-- The first 68 bytes of a context, without the two fields of user mode.
abbrev pub context_words : ThreadContext → List ℕ
context_words c =
    c.gs ∷ c.fs ∷ c.es ∷ c.ds ∷ c.edi ∷ c.esi ∷ c.ebp ∷ c.esp ∷ c.ebx ∷ c.edx ∷ c.ecx ∷ c.eax
    ∷ c.int_num ∷ c.error_code ∷ c.eip ∷ c.cs ∷ c.eflags ∷ []

abbrev pub zero_context : ThreadContext
zero_context = record {
  gs = 0;
  fs = 0;
  es = 0;
  ds = 0;
  edi = 0;
  esi = 0;
  ebp = 0;
  esp = 0;
  ebx = 0;
  edx = 0;
  ecx = 0;
  eax = 0;
  int_num = 0;
  error_code = 0;
  eip = 0;
  cs = 0;
  eflags = 0;
  user_esp = 0;
  user_ss = 0;
}

-- What `spawn_init` works on.
pub record Spawn : Type 0 where
  pub memory : Memory
  pub bytes : Bytes
  pub scheduler : Scheduler

-- The stack pointer of the new task, behind its context.
abbrev pub init_esp : ℕ
init_esp = kheap_start - page_size - 68

-- The part of `spawn_init` in the critical region.
unfoldable pub make_init :
    Tasks
    → (g_kernel_page_dir eflags : ℕ) → Interrupts × Spawn
    → Result (Unit {0} × (Interrupts × Spawn))
unfolding fill_dir
make_init k g_kernel_page_dir eflags (i, s) = do
  (pgdir, m) ← paging_structure_alloc page_map s.memory
  m ← fill_dir g_kernel_page_dir pgdir m
  (got, frames) ← page_alloc (some blank) m.frames
  pte ← elim got [ none ↦ panicked "out of memory" | some e ↦ ok e ]
  m ←
      page_map (pte.address * page_size) (kheap_start - page_size - page_size) true false
        (record m { frames = frames })
  let c = record (task_context k.kernel_idle_task eflags zero_context) {
    esp = init_esp + thread_context_offset;
  }
  let p = record (s.scheduler.processes k.init_task) {
    pgdir = pgdir;
    quantum = default_quantum;
    thread = k.init_thread;
  }
  let sched = store k.init_task p s.scheduler
  ok (
    tt,
    (
      i,
      record {
        memory = m;
        bytes = poke_words init_esp (context_words c) s.bytes;
        scheduler = record sched {
          contexts = λ t. if t == k.init_thread then init_esp else sched.contexts t;
        };
      },
    ),
  )

unfoldable pub spawn_init :
    Tasks → (fuel g_kernel_page_dir eflags : ℕ) → Interrupts × Spawn → Result (Interrupts × Spawn)
unfolding make_init
spawn_init k fuel g_kernel_page_dir eflags (i, s) = do
  (x, (i, s)) ← critical (make_init k g_kernel_page_dir eflags) (i, s)
  (added, (i, sched)) ← scheduler_add_process fuel k.init_task (i, s.scheduler)
  ok (i, record s { scheduler = sched })
