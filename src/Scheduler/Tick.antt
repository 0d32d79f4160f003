-- ===== src/Scheduler/Tick.antt =====
-- The clock tick: the quantum runs down, and the switch is asked for when it is used up.
use treeos.Base.{
  ℕ, zero, suc, ◌-◌, ◌^◌, ◌≤◌, ◌<◌, ◌≡◌, ◌≢◌, refl, arith, Bool, true, false, not, ◌||◌, Result, ok,
  ◌>>=◌, ◌==◌, if◌then◌else◌, bit_and, ne→==_false, ==_refl, sym, ap, ◌∙◌, inl, inr, Bool-cases,
  sub32,
}
use treeos.Interrupt.{Interrupts}
use treeos.Interrupt.Mask.{InSync}
use treeos.Interrupt.Critical.{Returns, critical_lem}
use treeos.Scheduler.{Scheduler, scheduler_tick, count_tick, store, proc_debug_yield}

-- A state in which a switch is possible: the current process and the head of the queue exist, and
-- the queue has a second process.
pub record Switchable (s : Scheduler) : Type 0 where
  pub current : s.g_current_process ≢ 0
  pub head : s.process_queue ≢ 0
  pub second : (s.processes s.process_queue).next ≢ 0

abbrev pub quantum : Scheduler → ℕ
quantum s = (s.processes s.g_current_process).quantum

abbrev yielding : Scheduler → Bool
yielding s = not (bit_and (s.processes s.g_current_process).flags proc_debug_yield == 0)

abbrev asked : Scheduler → Bool
asked s = yielding s || (sub32 (quantum s) 1 == 0)

-- What a tick leaves of `s`: the quantum is one less, and a switch is asked for if the process
-- yields or the quantum is used up.
abbrev pub ticked : Scheduler → Scheduler
ticked s =
    record (store s.g_current_process
      (record (s.processes s.g_current_process) { quantum = sub32 (quantum s) 1 }) s) {
        g_switch_processes = if asked s then true else s.g_switch_processes;
      }

module _ (s : Scheduler) (w : Switchable s) where
  head_stays : ((ticked s).processes s.process_queue).next ≡ (s.processes s.process_queue).next
  head_stays = elim (Bool-cases (s.process_queue == s.g_current_process)) [
    | inl t ↦ rw t (ap (λ (z : ℕ). (s.processes z).next) (sym (same t)))
    | inr f ↦ rw f refl
  ]
    where
      same : (s.process_queue == s.g_current_process) ≡ true → s.process_queue ≡ s.g_current_process
      same h = ground arith

  count_tick_lem : count_tick s ≡ ok (ticked s)
  unfolding count_tick
  count_tick_lem = rw (ne→==_false s.g_current_process 0 w.current) (elim (Bool-cases (asked s)) [
    | inl t ↦
        rw
          (
            t,
            ne→==_false s.process_queue 0 w.head,
            head_stays,
            ne→==_false (s.processes s.process_queue).next 0 w.second,
          )
          refl
    | inr f ↦ rw f refl
  ])

  pub tick-Returns : {i : Interrupts} → InSync i → Returns i tt (ticked s) (scheduler_tick (i, s))
  unfolding scheduler_tick
  tick-Returns sync =
      critical_lem _ s sync λ j synced. record {
        after = j;
        returns = rw count_tick_lem refl;
        sync = synced;
        same = refl;
      }

unfoldable pub ticks : ℕ → Interrupts × Scheduler → Result (Interrupts × Scheduler)
ticks zero k = ok k
ticks (suc m) k = scheduler_tick k >>= λ (x, k). ticks m k

-- The process that runs has `left` ticks left, and a switch is asked for if that is none.
pub record Counts (s : Scheduler) (left : ℕ) (result : Result (Interrupts × Scheduler))
    : Type 0 where
  pub interrupts : Interrupts
  pub scheduler : Scheduler
  pub returns : result ≡ ok (interrupts, scheduler)
  pub runs_on : scheduler.g_current_process ≡ s.g_current_process
  pub left_over : quantum scheduler ≡ left
  pub switch : scheduler.g_switch_processes ≡ (left == 0)

-- A process in its quantum: it does not yield, and no switch is asked for.
pub record InQuantum (s : Scheduler) : Type 0 where
  pub switchable : Switchable s
  pub positive : 0 < quantum s
  pub fits : quantum s < 2 ^ 32
  pub quiet : yielding s ≡ false
  pub unasked : s.g_switch_processes ≡ false

module _ (s : Scheduler) (q : InQuantum s) where
  less : (n : ℕ) → 0 < n → n < 2 ^ 32 → sub32 n 1 ≡ n - 1
  less n h h' = omega arith

  one_less : quantum (ticked s) ≡ quantum s - 1
  one_less = rw (quantum, ==_refl s.g_current_process) (omega (arith, q.positive, q.fits))

  quiet_after : yielding (ticked s) ≡ false
  quiet_after = rw (==_refl s.g_current_process) q.quiet

  switch_after : (ticked s).g_switch_processes ≡ (quantum s - 1 == 0)
  switch_after = rw (q.quiet, q.unasked) (same (quantum s) q.positive q.fits)
    where
      same : (n : ℕ) → 0 < n → n < 2 ^ 32 → (if sub32 n 1 == 0 then true else false) ≡ (n - 1 == 0)
      same n h h' = rw (less n h h') (ground arith)

  next_quantum : 1 < quantum s → InQuantum (ticked s)
  next_quantum more = record {
    switchable = record {
      current = q.switchable.current;
      head = q.switchable.head;
      second = λ e. q.switchable.second (sym (head_stays s q.switchable) ∙ e);
    };
    positive = omega (arith, one_less);
    fits = omega (arith, one_less, q.fits);
    quiet = quiet_after;
    unasked = switch_after ∙ ne→==_false (quantum s - 1) 0 (omega arith);
  }

-- In its quantum a process runs for exactly as many ticks as the quantum says: the switch is asked
-- for at the tick that uses it up, and not before.
pub ticks_lem :
    (m : ℕ) {i : Interrupts} (s : Scheduler)
    → InSync i
    → InQuantum s
    → m ≤ quantum s
    → Counts s (quantum s - m) (ticks m (i, s))
unfolding ticks
ticks_lem zero {i} s sync q h = record {
  interrupts = i;
  scheduler = s;
  returns = refl;
  runs_on = refl;
  left_over = omega arith;
  switch = q.unasked ∙ sym (ne→==_false (quantum s - 0) 0 (omega (arith, q.positive)));
}
ticks_lem (suc zero) {i} s sync q h =
    let r = tick-Returns s q.switchable sync in
    record {
      interrupts = r.after;
      scheduler = ticked s;
      returns = rw r.returns refl;
      runs_on = refl;
      left_over = one_less s q;
      switch = switch_after s q;
    }
ticks_lem (suc (suc m)) {i} s sync q h =
    let r = tick-Returns s q.switchable sync in
    let rest =
      ticks_lem (suc m) (ticked s) r.sync (next_quantum s q (omega arith))
        (omega (arith, one_less s q, h)) in
    let e : quantum (ticked s) - suc m ≡ quantum s - suc (suc m) = omega (arith, one_less s q) in
    record {
      interrupts = rest.interrupts;
      scheduler = rest.scheduler;
      returns = rw r.returns rest.returns;
      runs_on = rest.runs_on;
      left_over = rest.left_over ∙ e;
      switch = rest.switch ∙ ap (λ (n : ℕ). n == 0) e;
    }
