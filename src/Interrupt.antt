-- ===== src/Interrupt.antt =====
-- kernel/arch/i386/interrupt.c, kernel/include/kernel/interrupt.h and
-- kernel/include/arch/i386/interrupt.h: the handler tables, the mask of the interrupt controllers
-- and the critical regions that mask the timer.
pub mod Mask
pub mod Region
pub mod Handlers
pub mod Init
pub mod Returned
pub mod Reach
pub mod Critical
mod Examples
use Prim.Native.String.{String}
use treeos.Base.{
  ℕ, zero, suc, ◌+◌, ◌-◌, ◌*◌, ◌/◌, ◌%◌, ◌^◌, bit_and, bit_or, Bool, true, false, not, ◌&&◌, Option,
  none, some, List, [], ◌∷◌, ◌++◌, Result, ok, fault, panicked, kassert, panic_if, or_fault, ◌>>=◌,
  ◌>>◌, get_elem?, set, replicate, ltb, leb, ◌==◌, if◌then◌else◌, not32, u8,
}
use treeos.Cpu.{Cpu, idt_init, int_num_interrupts}

abbrev pub int_syscall_interrupt : ℕ
int_syscall_interrupt = 48

abbrev pub irq_pit : ℕ
irq_pit = 0

abbrev pub irq_kbd : ℕ
irq_kbd = 1

abbrev pub first_irq_int : ℕ
first_irq_int = 32

abbrev pub num_irqs : ℕ
num_irqs = 16

abbrev pub pic_master_cmd : ℕ
pic_master_cmd = 0x20

abbrev pub pic_master_data : ℕ
pic_master_data = pic_master_cmd + 1

abbrev pub pic_slave_cmd : ℕ
pic_slave_cmd = 0xa0

abbrev pub pic_slave_data : ℕ
pic_slave_data = pic_slave_cmd + 1

-- `int_handler_t`: a null pointer, the file's own three handlers, or a driver's function.
pub data Handler : Type 0 where
  null unexpected_int_handler irq_int_handler syscall_int_handler : Handler
  driver : ℕ → Handler

-- The static variables of the file, with what was sent to the ports (port and value, oldest first)
-- and the warnings. The list of an IRQ is the chain of nodes from its head.
pub record Interrupts : Type 0 where
  pub handler_table : List Handler
  pub irq_handler_list : List (List Handler)
  pub irq_mask : ℕ
  pub ports : List (ℕ × ℕ)
  pub worries : List String

abbrev pub valid_irq : ℕ → Bool
valid_irq irq = ltb irq num_irqs

abbrev pub outb : ℕ → ℕ → Interrupts → Interrupts
outb port value s = record s { ports = s.ports ++ (port, value) ∷ [] }

abbrev pub worry : String → Interrupts → Interrupts
worry msg s = record s { worries = s.worries ++ msg ∷ [] }

-- `IRQ_MASK_MASTER` and `IRQ_MASK_SLAVE`.
abbrev pub irq_mask_master : ℕ → ℕ
irq_mask_master m = u8 (bit_and m 0xff)

abbrev pub irq_mask_slave : ℕ → ℕ
irq_mask_slave m = u8 (bit_and (m / 2 ^ 8) 0xff)

-- `if (new != old) ioport_outb (port, new);`
unfoldable pub send_byte : ℕ → ℕ → ℕ → Interrupts → Interrupts
send_byte port new old s = if new == old then s else outb port new s

unfoldable pub set_raw_mask : ℕ → Interrupts → Interrupts
set_raw_mask mask s =
    if s.irq_mask == mask
    then s
    else let s1 = send_byte pic_master_data (irq_mask_master mask) (irq_mask_master s.irq_mask) s in
      let s2 = send_byte pic_slave_data (irq_mask_slave mask) (irq_mask_slave s.irq_mask) s1 in
      record s2 { irq_mask = mask }

unfoldable pub remap_pic : Interrupts → Interrupts
remap_pic s = record s {
  ports =
      s.ports
      ++ (pic_master_cmd, 0x11)
        ∷ (pic_slave_cmd, 0x11)
        ∷ (pic_master_data, 0x20)
        ∷ (pic_slave_data, 0x28)
        ∷ (pic_master_data, 0x04)
        ∷ (pic_slave_data, 0x02)
        ∷ (pic_master_data, 0x01)
        ∷ (pic_slave_data, 0x01)
        ∷ (pic_master_data, 0xfb)
        ∷ (pic_slave_data, 0xff)
        ∷ [];
  irq_mask = 0xfffb;
}

-- The test of the loop of `int_init` on interrupt `i`.
unfoldable pub default_handler : ℕ → Handler
default_handler i =
    if leb first_irq_int i && ltb i (first_irq_int + num_irqs)
    then irq_int_handler
    else if i == int_syscall_interrupt
    then syscall_int_handler
    else unexpected_int_handler

-- The loop of `int_init`, with `left` interrupts to go from `i` on.
unfoldable pub default_handlers : ℕ → ℕ → List Handler → List Handler
default_handlers zero i table = table
default_handlers (suc left) i table =
    default_handlers left (i + 1) (set table i (default_handler i))

-- Without the line that it prints at its end (see Kernel.Main).
unfoldable pub int_init : (at : ℕ) (isr : ℕ → ℕ) → Cpu → Interrupts → Result (Cpu × Interrupts)
int_init at isr c s = do
  c ← idt_init at isr c
  let s = remap_pic s
  ok (
    c,
    record s {
      handler_table = default_handlers int_num_interrupts 0 (replicate int_num_interrupts null);
      irq_handler_list = replicate num_irqs [];
    },
  )

unfoldable pub int_register_handler : ℕ → Handler → Interrupts → Result Interrupts
int_register_handler interrupt handler s = do
  kassert (ltb interrupt int_num_interrupts) "KASSERT failed: interrupt < INT_NUM_INTERRUPTS"
  panic_if (interrupt == int_syscall_interrupt) "tried to change syscall interrupt handler"
  panic_if (leb first_irq_int interrupt && ltb interrupt (first_irq_int + num_irqs))
      "tried to change IRQ-aware interrupt handler"
  old ← or_fault (get_elem? s.handler_table interrupt)
  ok (record s {
    handler_table =
        set s.handler_table interrupt
          (elim handler [ null ↦ unexpected_int_handler | other ↦ other ]);
  })

abbrev pub is_null : Handler → Bool
is_null null = true
is_null _ = false

-- `while ((*node)->next) *node = (*node)->next;` where `node` points to the head of the list, so
-- that the head itself moves; then the new node is linked behind it.
unfoldable pub link_last : List Handler → Handler → List Handler
link_last [] handler = handler ∷ []
link_last (last ∷ []) handler = last ∷ handler ∷ []
link_last (first ∷ second ∷ rest) handler = link_last (second ∷ rest) handler

-- `kmalloc` is whether the allocator gives the new node.
unfoldable pub int_register_irq_handler :
    (kmalloc : Bool) → ℕ → Handler → Interrupts → Result Interrupts
unfolding link_last
int_register_irq_handler kmalloc irq handler s = do
  kassert (valid_irq irq) "KASSERT failed: VALID_IRQ(irq)"
  kassert (not (irq == 2)) "KASSERT failed: irq != 2"
  kassert (not (is_null handler)) "KASSERT failed: handler"
  kassert kmalloc "KASSERT failed: new_node"
  chain ← or_fault (get_elem? s.irq_handler_list irq)
  ok (record s { irq_handler_list = set s.irq_handler_list irq (link_last chain handler) })

unfoldable pub int_mask_irq : ℕ → Interrupts → Result (Bool × Interrupts)
unfolding set_raw_mask
int_mask_irq irq s = do
  kassert (valid_irq irq) "KASSERT failed: VALID_IRQ(irq)"
  kassert (not (irq == 2)) "KASSERT failed: irq != 2"
  let irq_bit = 2 ^ irq
  if not (bit_and s.irq_mask irq_bit == 0)
      then ok (false, worry "masking already masked IRQ %u\n" s)
      else ok (true, set_raw_mask (bit_or s.irq_mask irq_bit) s)

unfoldable pub int_unmask_irq : ℕ → Interrupts → Result (Bool × Interrupts)
unfolding set_raw_mask
int_unmask_irq irq s = do
  kassert (valid_irq irq) "KASSERT failed: VALID_IRQ(irq)"
  kassert (not (irq == 2)) "KASSERT failed: irq != 2"
  let irq_bit = 2 ^ irq
  if bit_and s.irq_mask irq_bit == 0
      then ok (false, worry "masking already masked IRQ %u\n" s)
      else ok (true, set_raw_mask (bit_and s.irq_mask (not32 irq_bit)) s)

unfoldable pub int_irq_enabled : ℕ → Interrupts → Result Bool
int_irq_enabled irq s = do
  kassert (valid_irq irq) "KASSERT failed: VALID_IRQ(irq)"
  ok (bit_and s.irq_mask (2 ^ irq) == 0)

unfoldable pub int_lock_region : Interrupts → Result (Bool × Interrupts)
int_lock_region s = do
  lock ← int_irq_enabled irq_pit s
  if lock then (int_mask_irq irq_pit s >>= λ (masked, s'). ok (lock, s')) else ok (lock, s)

unfoldable pub int_unlock_region : Bool → Interrupts → Result Interrupts
int_unlock_region lock s =
    if lock then (int_unmask_irq irq_pit s >>= λ (unmasked, s'). ok s') else ok s

-- `bool lock = int_lock_region (); body; int_unlock_region (lock);`, where the body has this state
-- and one of its own.
unfoldable pub critical :
    {A S : Type 0}
    → (body : Interrupts × S → Result (A × (Interrupts × S))) → Interrupts × S
    → Result (A × (Interrupts × S))
critical body (i, s) = do
  (lock, i) ← int_lock_region i
  (a, (i, s)) ← body (i, s)
  i ← int_unlock_region lock i
  ok (a, (i, s))

-- The handlers of an IRQ are called in the order of the chain; `call` is what a driver's handler
-- does to the state `A` that the drivers share.
unfoldable pub run_chain :
    {A : Type 0} → (call : Handler → A → Result A) → List Handler → A → Result A
run_chain call [] a = ok a
run_chain call (h ∷ rest) a = do
  kassert (not (is_null h)) "KASSERT failed: node->handler"
  a ← call h a
  run_chain call rest a

-- `irq_int_handler`, with the interrupt's number. The drivers' state is apart from this one: a handler that
-- masks IRQs or registers handlers while it runs is not modelled, and none of the source does.
unfoldable pub irq_handler :
    {A : Type 0} → (call : Handler → A → Result A) → ℕ → A × Interrupts → Result (A × Interrupts)
unfolding run_chain
irq_handler call int_num (a, s) = do
  let irq = u8 (int_num + 2 ^ 32 - first_irq_int)
  kassert (valid_irq irq) "KASSERT failed: VALID_IRQ(irq)"
  chain ← or_fault (get_elem? s.irq_handler_list irq)
  a ← run_chain call chain a
  let s = if leb 8 irq then outb pic_slave_cmd 0x20 s else s
  ok (a, outb pic_master_cmd 0x20 s)

-- `unexpected_int_handler` panics on every path; the message depends on the interrupt's number.
unfoldable pub unexpected_handler : {A : Type 0} → ℕ → Result A
unexpected_handler int_num =
    if ltb int_num 32
    then panicked "unhandled interrupt %d: %s"
    else panicked "unhandled interrupt %d"
