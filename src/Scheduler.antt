-- ===== src/Scheduler.antt =====
-- kernel/kernel/proc/scheduler.c, kernel/kernel/proc/process.c and their headers: the queue of
-- processes, the clock tick and the switch to the next process. Pointers are addresses, 0 for NULL.
pub mod Queue
pub mod Add
pub mod Switch
pub mod RoundRobin
pub mod Tick
mod Examples
use treeos.Base.{
  ℕ, zero, suc, ◌+◌, ◌-◌, ◌^◌, ◌%◌, bit_and, bit_or, Bool, true, false, not, ◌||◌, Option, none,
  some, List, [], ◌∷◌, ◌++◌, Result, ok, fault, kassert, or_fault, ◌>>=◌, ◌>>◌, ◌==◌, if◌then◌else◌,
  not32, u8, sub32,
}
use treeos.Interrupt.{Interrupts, driver, irq_pit, critical, worry, int_register_irq_handler}

-- `struct process`.
pub record Process : Type 0 where
  pub thread : ℕ
  pub pgdir : ℕ
  pub flags : ℕ
  pub quantum : ℕ
  pub next : ℕ

abbrev pub proc_free : ℕ
proc_free = 1

abbrev pub proc_debug_yield : ℕ
proc_debug_yield = 2

abbrev pub proc_free_thread_context : ℕ
proc_free_thread_context = 4

-- The variables of the file, the process structures and the `context` fields of the threads by
-- their addresses, and the blocks given back by `kfree`.
pub record Scheduler : Type 0 where
  pub g_current_process : ℕ
  pub g_preemption_enabled : Bool
  pub g_switch_processes : Bool
  pub process_queue : ℕ
  pub processes : ℕ → Process
  pub contexts : ℕ → ℕ
  pub freed : List ℕ

abbrev pub update {ℓ} : {A : Type ℓ} → ℕ → A → (ℕ → A) → ℕ → A
update at v f a = if a == at then v else f a

-- `p->...`, which faults on a null pointer.
abbrev pub deref : ℕ → Scheduler → Result Process
deref p s = if p == 0 then fault else ok (s.processes p)

abbrev pub store : ℕ → Process → Scheduler → Scheduler
store p q s = record s { processes = update p q s.processes }

-- `kmalloc` is for the node of the handler list; `tick` is the address of `scheduler_tick`.
unfoldable pub scheduler_init :
    (kmalloc : Bool) (tick : ℕ) → Interrupts × Scheduler → Result (Interrupts × Scheduler)
scheduler_init kmalloc tick (i, s) = do
  i ← int_register_irq_handler kmalloc irq_pit (driver tick) i
  ok (i, record s { process_queue = 0; g_preemption_enabled = true })

-- The loop of `scheduler_add_process` from `node` on: it ends at the last node, or (`none`) at a
-- node that is followed by `p`.
unfoldable pub queue_end : (fuel : ℕ) → (ℕ → Process) → (p node : ℕ) → Option (Option ℕ)
queue_end zero processes p node = none
queue_end (suc fuel) processes p node =
    let next = (processes node).next in
    let rest = queue_end fuel processes p next in
    if next == 0 then some (some node) else if next == p then some none else rest

unfoldable pub enqueue : (fuel : ℕ) → ℕ → Scheduler → Result (Bool × Scheduler)
enqueue fuel p s =
    if s.process_queue == 0
    then ok (true, record s { process_queue = p })
    else if s.process_queue == p
    then ok (false, s)
    else (or_fault (queue_end fuel s.processes p s.process_queue) >>= λ found. elim found [
      | none ↦ ok (false, s)
      | some node ↦ ok (true, store node (record (s.processes node) { next = p }) s)
    ])

unfoldable pub scheduler_add_process :
    (fuel : ℕ) → ℕ → Interrupts × Scheduler → Result (Bool × (Interrupts × Scheduler))
scheduler_add_process fuel p (i, s) = do
  kassert (not (p == 0)) "KASSERT failed: p"
  let i = if (s.processes p).next == 0 then i else worry "process has residual queue information" i
  critical (λ (i, s). enqueue fuel p s >>= λ (b, s). ok (b, (i, s))) (i, s)

unfoldable pub scheduler_find_next_best :
    Interrupts × Scheduler → Result (ℕ × (Interrupts × Scheduler))
scheduler_find_next_best (i, s) =
    critical
      (λ (i, s). do
        kassert (not (s.g_current_process == 0)) "KASSERT failed: g_current_process"
        let next = (s.processes s.g_current_process).next
        ok (if next == 0 then s.process_queue else next, (i, s)))
      (i, s)

-- `p->flags &= ~flag`.
abbrev pub clear_flag : ℕ → Process → Process
clear_flag flag p = record p { flags = u8 (bit_and p.flags (not32 flag)) }

-- Stage 1 up to its choice of the next process: the flag, the block of the old context and the
-- new context of the process.
unfoldable pub keep_context : ℕ → Scheduler → Result Scheduler
keep_context context s = do
  p ← deref s.g_current_process s
  let p = clear_flag proc_debug_yield p
  let owned = not (bit_and p.flags proc_free_thread_context == 0)
  let q = if owned then clear_flag proc_free_thread_context p else p
  if q.thread == 0
      then fault
      else ok (record (store s.g_current_process q s) {
        freed = if owned then s.freed ++ s.contexts q.thread ∷ [] else s.freed;
        contexts = update q.thread context s.contexts;
      })

unfoldable pub scheduler_advance_stage1 :
    ℕ → Interrupts × Scheduler → Result (Unit {0} × (Interrupts × Scheduler))
scheduler_advance_stage1 context (i, s) =
    critical
      (λ (i, s). do
        s ← keep_context context s
        (next, (i, s)) ← scheduler_find_next_best (i, s)
        ok (tt, (i, record s { g_current_process = next })))
      (i, s)

unfoldable pub count_tick : Scheduler → Result Scheduler
count_tick s = do
  p ← deref s.g_current_process s
  let p = record p { quantum = sub32 p.quantum 1 }
  let s = store s.g_current_process p s
  if not (bit_and p.flags proc_debug_yield == 0) || p.quantum == 0
      then (deref s.process_queue s >>= λ head.
          ok (if head.next == 0 then s else record s { g_switch_processes = true }))
      else ok s

unfoldable pub scheduler_tick :
    Interrupts × Scheduler → Result (Unit {0} × (Interrupts × Scheduler))
scheduler_tick (i, s) = critical (λ (i, s). count_tick s >>= λ s. ok (tt, (i, s))) (i, s)

-- `kcalloc` is the zeroed block that the allocator gives.
unfoldable pub process_create : (kcalloc : ℕ) → ℕ → Scheduler → Result (ℕ × Scheduler)
process_create kcalloc process s =
    if not (process == 0)
    then ok (process, s)
    else if kcalloc == 0
    then fault
    else ok (
      kcalloc,
      store kcalloc (record { thread = 0; pgdir = 0; flags = proc_free; quantum = 0; next = 0 }) s,
    )

unfoldable pub process_yield : Interrupts × Scheduler → Result (Unit {0} × (Interrupts × Scheduler))
process_yield (i, s) =
    critical
      (λ (i, s). do
        p ← deref s.g_current_process s
        ok (
          tt,
          (i, store s.g_current_process (record p { flags = bit_or p.flags proc_debug_yield }) s),
        ))
      (i, s)
