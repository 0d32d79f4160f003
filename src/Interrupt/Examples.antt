-- ===== src/Interrupt/Examples.antt =====
-- Runs of the interrupt functions, and their theorems at the state after `int_init`.
use treeos.Base.{
  ℕ, ◌+◌, ◌*◌, ◌%◌, ◌^◌, ◌<◌, ◌≡◌, refl, arith, Bool, true, false, none, some, List, [], ◌∷◌, ◌++◌,
  Result, ok, ◌>>=◌, ◌==◌, if◌then◌else◌, get_elem?, replicate,
}
use treeos.Cpu.{Cpu, null_gdt, null_idt}
use treeos.Cpu.Gates.{Leads}
use treeos.Interrupt.{
  Handler, unexpected_int_handler, driver, Interrupts, int_init, default_handler,
  int_register_handler, int_register_irq_handler, int_mask_irq, int_unmask_irq, int_irq_enabled,
  int_lock_region, int_unlock_region, irq_handler,
}
use treeos.Interrupt.Mask.{InSync}
use treeos.Interrupt.Region.{Guards, int_lock_region_lem}
use treeos.Interrupt.Handlers.{
  Registers, int_register_handler_lem, int_register_irq_handler_lem, irq_handler_lem, in_turn, eoi,
}
use treeos.Interrupt.Init.{int_init_lem}
use treeos.Interrupt.Reach.{Reached, starts, goes, enters, IsSafe, Reached-IsSafe}

abbrev reset_cpu : Cpu
reset_cpu = record {
  gdt_entries = replicate 6 null_gdt;
  idt_entries = replicate 49 null_idt;
  tss = record { prev_tss = 0; esp0 = 0; ss0 = 0; unused = [] };
  gdtr = none;
  idtr = none;
  task_register = none;
}

abbrev reset : Interrupts
reset = record { handler_table = []; irq_handler_list = []; irq_mask = 0; ports = []; worries = [] }

-- A running system: the timer is unmasked and its IRQ has two handlers.
abbrev running : Interrupts
running = record {
  handler_table = replicate 49 unexpected_int_handler;
  irq_handler_list = (driver 1 ∷ driver 2 ∷ []) ∷ replicate 15 [];
  irq_mask = 0xfffa;
  ports = (0x21, 0xfa) ∷ (0xa1, 0xff) ∷ [];
  worries = [];
}

running-InSync : InSync running
running-InSync = record { fits = omega arith; master = refl; slave = refl }

-- Drivers that write down their numbers.
abbrev note : Handler → List ℕ → Result (List ℕ)
note (driver n) log = ok (log ++ n ∷ [])
note _ log = ok log

two_handlers :
    irq_handler note 32 ([], running)
    ≡ ok (1 ∷ 2 ∷ [], record running { ports = (0x21, 0xfa) ∷ (0xa1, 0xff) ∷ (0x20, 0x20) ∷ [] })
unfolding irq_handler
two_handlers = refl

-- A third handler on the timer: the first is never called again.
abbrev three_run : Result (List ℕ)
three_run = do
  s ← int_register_irq_handler true 0 (driver 3) running
  (log, t) ← irq_handler note 32 ([], s)
  ok log

three_handlers : three_run ≡ ok (2 ∷ 3 ∷ [])
unfolding irq_handler int_register_irq_handler
three_handlers = refl

abbrev lock_run : Result (Bool × Bool × Bool × ℕ)
lock_run = do
  (a, s) ← int_lock_region running
  (b, t) ← int_lock_region s
  u ← int_unlock_region b t
  e ← int_irq_enabled 0 u
  v ← int_unlock_region a u
  ok (a, b, e, v.irq_mask)

lock_twice : lock_run ≡ ok (true, false, false, 0xfffa)
unfolding int_lock_region int_unlock_region int_mask_irq int_unmask_irq int_irq_enabled
lock_twice = refl

int_lock_region_lem_example : Guards running (int_lock_region running)
int_lock_region_lem_example = int_lock_region_lem running-InSync

int_register_handler_lem_example :
    Registers running 14 (driver 5) (int_register_handler 14 (driver 5) running)
int_register_handler_lem_example = int_register_handler_lem running 14 (driver 5) refl

int_register_irq_handler_lem_example :
    (t : Interrupts) × (int_register_irq_handler true 0 (driver 3) running ≡ ok t)
    × ((j : ℕ)
        → get_elem? t.irq_handler_list j ≡ (
            if 0 == j
            then some (driver 2 ∷ driver 3 ∷ [])
            else get_elem? running.irq_handler_list j))
    × (record t { irq_handler_list = running.irq_handler_list } ≡ running)
int_register_irq_handler_lem_example =
    int_register_irq_handler_lem running 0 (driver 1 ∷ []) (driver 2) (driver 3) (omega arith)
      (omega arith) refl refl

irq_handler_lem_example : irq_handler note 32 ([], running) ≡ (
    in_turn note (driver 1 ∷ driver 2 ∷ []) [] >>= λ b.
    ok (b, record running { ports = running.ports ++ eoi 0 }))
irq_handler_lem_example =
    irq_handler_lem note 0 [] running (driver 1 ∷ driver 2 ∷ []) (omega arith) refl
      (refl, (refl, tt))

abbrev stub : ℕ → ℕ
stub n = (0xc0100000 + 16 * n) % 2 ^ 32

int_init_lem_example :
    (d : Cpu) × (t : Interrupts) × (int_init 0xc0200000 stub reset_cpu reset ≡ ok (d, t))
    × ((j : ℕ) → j < 49 → Leads stub d.idt_entries j)
    × ((j : ℕ) → j < 49 → get_elem? t.handler_table j ≡ some (default_handler j))
    × (t.irq_handler_list ≡ replicate 16 [])
    × (t.irq_mask ≡ 0xfffb)
    × InSync t
int_init_lem_example = int_init_lem 0xc0200000 stub reset_cpu reset (λ j. omega arith)

-- The state after `int_init`, in which a region is entered that the masked timer cannot disturb.
abbrev booted : Interrupts
booted = (int_init_lem 0xc0200000 stub reset_cpu reset (λ j. omega arith)).1

nested : int_lock_region booted ≡ ok (false, booted)
unfolding int_lock_region int_irq_enabled
nested = rw (int_init_lem 0xc0200000 stub reset_cpu reset (λ j. omega arith)).6 refl

booted-Reached : Reached note booted
booted-Reached =
    goes
      (starts 0xc0200000 stub reset_cpu
        (int_init_lem 0xc0200000 stub reset_cpu reset (λ j. omega arith)).0 reset booted
        (λ j. omega arith) (int_init_lem 0xc0200000 stub reset_cpu reset (λ j. omega arith)).2)
      (enters false nested)

Reached-IsSafe_example : IsSafe booted
Reached-IsSafe_example = Reached-IsSafe booted booted-Reached
