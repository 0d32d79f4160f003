-- ===== src/Scheduler/Examples.antt =====
-- Runs of the scheduler on a queue of three processes, and its theorems there.
use treeos.Base.{
  ℕ, ◌+◌, ◌-◌, ◌^◌, ◌≡◌, refl, arith, Bool, true, false, [], ◌∷◌, Result, ok, ◌>>=◌, ◌==◌,
  if◌then◌else◌, replicate,
}
use treeos.Interrupt.{
  Interrupts, driver, unexpected_int_handler, int_lock_region, int_unlock_region, int_irq_enabled,
  int_mask_irq, int_unmask_irq, set_raw_mask, critical,
}
use treeos.Interrupt.Mask.{InSync}
use treeos.Interrupt.Critical.{Returns}
use treeos.Scheduler.{
  Scheduler, scheduler_add_process, scheduler_advance_stage1, scheduler_tick, count_tick,
}
use treeos.Scheduler.Queue.{Chain}
use treeos.Scheduler.Add.{Queues, scheduler_add_process_lem}
use treeos.Scheduler.Switch.{Runs, Keeps, scheduler_advance_stage1_lem}
use treeos.Scheduler.RoundRobin.{Reaches, switches, round_robin}
use treeos.Scheduler.Tick.{InQuantum, Counts, ticks, ticks_lem}

abbrev unmasked : Interrupts
unmasked = record {
  handler_table = replicate 49 unexpected_int_handler;
  irq_handler_list = (driver 1 ∷ []) ∷ replicate 15 [];
  irq_mask = 0xfffa;
  ports = (0x21, 0xfa) ∷ (0xa1, 0xff) ∷ [];
  worries = [];
}

unmasked-InSync : InSync unmasked
unmasked-InSync = record { fits = omega arith; master = refl; slave = refl }

abbrev next_of : ℕ → ℕ
next_of a = if a == 100 then 200 else if a == 200 then 300 else 0

-- Processes at 100, 200 and 300, and one at 400 that is on no queue.
abbrev three : Scheduler
three = record {
  g_current_process = 100;
  g_preemption_enabled = true;
  g_switch_processes = false;
  process_queue = 100;
  processes =
      λ a. record { thread = 1000 + a; pgdir = 0; flags = 4; quantum = 3; next = next_of a };
  contexts = λ a. 7;
  freed = [];
}

three-Chain : Chain three.processes three.process_queue (100 ∷ 200 ∷ 300 ∷ [])
three-Chain = (
  refl,
  λ e. omega (arith, e),
  (refl, λ e. omega (arith, e), (refl, λ e. omega (arith, e), refl)),
)

three-Runs : Runs (100 ∷ 200 ∷ 300 ∷ []) 0 three
three-Runs = record { chain = three-Chain; current = refl; threads = λ k x h e. omega (arith, e) }

abbrev after_ticks : ℕ → Result (ℕ × Bool)
after_ticks m = do
  (i, s) ← ticks m (unmasked, three)
  ok ((s.processes s.g_current_process).quantum, s.g_switch_processes)

-- The quantum is not given anew: the tick after the last one wraps around.
quantum_wraps : after_ticks 4 ≡ ok (2 ^ 32 - 1, true)
unfolding ticks scheduler_tick count_tick critical int_lock_region int_unlock_region int_irq_enabled
    int_mask_irq int_unmask_irq set_raw_mask
quantum_wraps = refl

scheduler_add_process_lem_example :
    (t : Scheduler) × Returns unmasked true t (scheduler_add_process 3 400 (unmasked, three))
    × Queues three (100 ∷ 200 ∷ 300 ∷ 400 ∷ []) t
scheduler_add_process_lem_example =
    scheduler_add_process_lem three 400 (λ e. omega (arith, e)) unmasked-InSync
      (100 ∷ 200 ∷ 300 ∷ []) 3 three-Chain refl (omega arith)

scheduler_advance_stage1_lem_example :
    (t : Scheduler) × Returns unmasked tt t (scheduler_advance_stage1 9 (unmasked, three))
    × Runs (100 ∷ 200 ∷ 300 ∷ []) 1 t
    × Keeps 9 three t
scheduler_advance_stage1_lem_example =
    scheduler_advance_stage1_lem 9 (100 ∷ 200 ∷ 300 ∷ []) 0 three three-Runs unmasked-InSync

round_robin_example : Reaches (100 ∷ 200 ∷ 300 ∷ []) 0 (switches (7 ∷ 8 ∷ 9 ∷ []) (unmasked, three))
round_robin_example =
    round_robin (100 ∷ 200 ∷ 300 ∷ []) (7 ∷ 8 ∷ 9 ∷ []) unmasked three unmasked-InSync three-Runs
      (omega arith)

three-InQuantum : InQuantum three
three-InQuantum = record {
  switchable = record {
    current = λ e. omega (arith, e);
    head = λ e. omega (arith, e);
    second = λ e. omega (arith, e);
  };
  positive = omega arith;
  fits = omega arith;
  quiet = refl;
  unasked = refl;
}

ticks_lem_example : Counts three 0 (ticks 3 (unmasked, three))
ticks_lem_example = ticks_lem 3 three unmasked-InSync three-InQuantum (omega arith)
