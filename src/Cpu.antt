-- ===== src/Cpu.antt =====
-- kernel/arch/i386/cpu.c and kernel/arch/i386/proc/task.c: the descriptor tables and the TSS.
-- Addresses that the linker chooses are parameters: of the tables, of the TSS and of the stubs.
pub mod Gates
mod Examples
use treeos.Base.{
  ℕ, zero, suc, ◌+◌, ◌-◌, ◌*◌, ◌/◌, ◌%◌, ◌^◌, bit_and, bit_or, Bool, not, Option, none, some, List,
  [], ◌∷◌, Result, ok, fault, panic_if, or_fault, ◌>>=◌, ◌>>◌, get_elem?, set, replicate, ltb, ◌==◌,
  if◌then◌else◌, u8, u16,
}

-- The access and granularity flags, and the values that are made of them.
abbrev pub sel_present : ℕ
sel_present = 0x80

abbrev pub sel_ring3 : ℕ
sel_ring3 = 0x60

abbrev pub gdt_kern_code : ℕ
gdt_kern_code = bit_or (bit_or (bit_or sel_present 0x10) 0x08) 0x02

abbrev pub gdt_kern_data : ℕ
gdt_kern_data = bit_or (bit_or sel_present 0x10) 0x02

abbrev pub gdt_user_code : ℕ
gdt_user_code = bit_or gdt_kern_code sel_ring3

abbrev pub gdt_user_data : ℕ
gdt_user_data = bit_or gdt_kern_data sel_ring3

abbrev pub gdt_kern_tss : ℕ
gdt_kern_tss = bit_or (bit_or sel_present 0x01) 0x08

abbrev pub gdt_user_tss : ℕ
gdt_user_tss = bit_or gdt_kern_tss sel_ring3

abbrev pub gdt_default_gran : ℕ
gdt_default_gran = bit_or 0x04 0x08

abbrev pub gdt_tss_gran : ℕ
gdt_tss_gran = 0x01

abbrev pub idt_kern_int : ℕ
idt_kern_int = bit_or sel_present 0x0e

abbrev pub idt_user_int : ℕ
idt_user_int = bit_or idt_kern_int sel_ring3

-- `NUM_GDT_ENTRIES`, `INT_NUM_INTERRUPTS` and the segment selectors.
abbrev pub num_gdt_entries : ℕ
num_gdt_entries = 6

abbrev pub int_num_interrupts : ℕ
int_num_interrupts = 49

abbrev pub kern_code_selector : ℕ
kern_code_selector = 0x08

abbrev pub kern_data_selector : ℕ
kern_data_selector = 0x10

-- `struct gdt_entry`.
pub record GdtEntry : Type 0 where
  pub limit_low : ℕ
  pub base_low : ℕ
  pub access : ℕ
  pub limit_high : ℕ
  pub granularity : ℕ
  pub base_high : ℕ

-- `struct idt_entry`, without its byte of zeros.
pub record IdtEntry : Type 0 where
  pub base_low : ℕ
  pub selector : ℕ
  pub access : ℕ
  pub base_high : ℕ

-- `struct limit_and_base`.
pub record LimitAndBase : Type 0 where
  pub limit : ℕ
  pub base : ℕ

-- `struct tss_entry`.
pub record TssEntry : Type 0 where
  pub prev_tss : ℕ
  pub esp0 : ℕ
  pub ss0 : ℕ
  pub unused : List ℕ

-- The static tables, and what `lgdt`, `lidt` and `ltr` were last given.
pub record Cpu : Type 0 where
  pub gdt_entries : List GdtEntry
  pub idt_entries : List IdtEntry
  pub tss : TssEntry
  pub gdtr : Option LimitAndBase
  pub idtr : Option LimitAndBase
  pub task_register : Option ℕ

abbrev pub null_gdt : GdtEntry
null_gdt = record {
  limit_low = 0;
  base_low = 0;
  access = 0;
  limit_high = 0;
  granularity = 0;
  base_high = 0;
}

abbrev pub null_idt : IdtEntry
null_idt = record { base_low = 0; selector = 0; access = 0; base_high = 0 }

-- What `set_gdt_gate` stores, in its order of tests.
unfoldable pub gdt_gate : ℕ → ℕ → ℕ → ℕ → Result GdtEntry
gdt_gate base limit access gran = do
  panic_if (not (bit_and limit 0xfff00000 == 0)) "limit out of range"
  panic_if (not (bit_and gran 0xf0 == 0)) "granularity out of range"
  ok (record {
    limit_low = bit_and limit 0xffff;
    base_low = bit_and base 0xffffff;
    access = access;
    limit_high = bit_and (limit / 2 ^ 16) 0x0f;
    granularity = bit_and gran 0x0f;
    base_high = bit_and (base / 2 ^ 24) 0xff;
  })

-- A gate past the end of the table faults. A panic does not return, so the half-written entry that
-- it leaves is not modelled.
unfoldable pub set_gdt_gate : ℕ → ℕ → ℕ → ℕ → ℕ → List GdtEntry → Result (List GdtEntry)
unfolding gdt_gate
set_gdt_gate num base limit access gran entries = do
  old ← or_fault (get_elem? entries num)
  e ← gdt_gate base limit access gran
  ok (set entries num e)

unfoldable pub idt_gate : ℕ → ℕ → ℕ → IdtEntry
idt_gate base selector access = record {
  base_low = bit_and base 0xffff;
  selector = selector;
  access = access;
  base_high = bit_and (base / 2 ^ 16) 0xffff;
}

unfoldable pub set_idt_gate : ℕ → ℕ → ℕ → ℕ → List IdtEntry → Result (List IdtEntry)
unfolding idt_gate
set_idt_gate num base selector access entries = do
  old ← or_fault (get_elem? entries num)
  ok (set entries num (idt_gate base selector access))

-- `gdt_init` without the line that it prints (see Kernel.Main); `at` is the address of `gdt_entries`, `tss_at` that of `g_kernel_tss`, which takes
-- 104 bytes.
unfoldable pub gdt_init : (at tss_at : ℕ) → Cpu → Result Cpu
unfolding set_gdt_gate
gdt_init at tss_at c = do
  let t = replicate num_gdt_entries null_gdt
  t ← set_gdt_gate 0 0 0 0 0 t
  t ← set_gdt_gate 1 0 0xfffff gdt_kern_code gdt_default_gran t
  t ← set_gdt_gate 2 0 0xfffff gdt_kern_data gdt_default_gran t
  t ← set_gdt_gate 3 0 0xfffff gdt_user_code gdt_default_gran t
  t ← set_gdt_gate 4 0 0xfffff gdt_user_data gdt_default_gran t
  t ← set_gdt_gate 5 tss_at 104 gdt_user_tss gdt_tss_gran t
  ok (record c {
    gdt_entries = t;
    gdtr = some (record { limit = u16 (8 * num_gdt_entries - 1); base = at });
  })

-- The calls `set_idt_gate (i, isr_i, KERN_CODE_SELECTOR, IDT_KERN_INT)` of `fill_idt`, for `left`
-- numbers from `i` on; `isr` gives the address of each stub, the `irq` stubs being 32 to 47.
unfoldable pub fill_kernel : (isr : ℕ → ℕ) → ℕ → ℕ → List IdtEntry → Result (List IdtEntry)
unfolding set_idt_gate
fill_kernel isr zero i t = ok t
fill_kernel isr (suc left) i t = do
  t ← set_idt_gate i (isr i) kern_code_selector idt_kern_int t
  fill_kernel isr left (i + 1) t

unfoldable pub fill_idt : (isr : ℕ → ℕ) → List IdtEntry → Result (List IdtEntry)
unfolding fill_kernel set_idt_gate
fill_idt isr t = do
  t ← fill_kernel isr 48 0 t
  set_idt_gate 48 (isr 48) kern_code_selector idt_user_int t

-- `idt_init` without the line that it prints (see Kernel.Main); `at` is the address of `idt_entries`.
unfoldable pub idt_init : (at : ℕ) (isr : ℕ → ℕ) → Cpu → Result Cpu
idt_init at isr c = do
  t ← fill_idt isr (replicate int_num_interrupts null_idt)
  ok (record c {
    idt_entries = t;
    idtr = some (record { limit = u16 (8 * int_num_interrupts); base = at });
  })

-- `tss_init` without the line that it prints (see Kernel.Main); `stack_top` is `KERN_STACK_TOP`.
unfoldable pub tss_init : (stack_top : ℕ) → Cpu → Cpu
tss_init stack_top c = record c {
  tss = record {
    prev_tss = 0;
    esp0 = stack_top;
    ss0 = kern_data_selector;
    unused = replicate 23 0;
  };
  task_register = some 0x2b;
}
