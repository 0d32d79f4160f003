-- ===== src/Scheduler/Switch.antt =====
-- The choice of the next process, and stage 1 of a switch.
use treeos.Base.{
  ℕ, suc, ◌<◌, ◌≡◌, ◌≢◌, refl, arith, Bool, true, not, some, List, [], ◌∷◌, ◌++◌, ok, ◌==◌,
  if◌then◌else◌, bit_and, length, get_elem?, ne→==_false, ==_refl, sym, ap, ◌∙◌, inl, inr,
  Bool-cases, get_elem?_in_range, get_elem?_out, lt_of_get_elem?,
}
use treeos.Interrupt.{Interrupts}
use treeos.Interrupt.Mask.{InSync}
use treeos.Interrupt.Critical.{Returns, critical_lem}
use treeos.Scheduler.{
  Process, Scheduler, scheduler_find_next_best, scheduler_advance_stage1, keep_context, update,
  clear_flag, proc_debug_yield, proc_free_thread_context,
}
use treeos.Scheduler.Queue.{Chain, Chain-at, Chain-head, Chain-same, after, after-at, after-last}

-- The position after `k` in a queue of `n` processes.
abbrev pub turn : ℕ → ℕ → ℕ
turn n k = if suc k == n then 0 else suc k

-- Every process of the queue has a thread.
abbrev pub Threads : Scheduler → List ℕ → Type 0
Threads s xs = (k x : ℕ) → get_elem? xs k ≡ some x → (s.processes x).thread ≢ 0

-- A queue whose process at `k` is the current one.
pub record Runs (xs : List ℕ) (k : ℕ) (s : Scheduler) : Type 0 where
  pub chain : Chain s.processes s.process_queue xs
  pub current : get_elem? xs k ≡ some s.g_current_process
  pub threads : Threads s xs

module _ (xs : List ℕ) (k : ℕ) (s : Scheduler) (r : Runs xs k s) where
  abbrev best : ℕ
  best =
      (let next = (s.processes s.g_current_process).next in
        if next == 0 then s.process_queue else next)

  follows : (s.processes s.g_current_process).next ≡ after xs k
  follows = (Chain-at s.processes s.process_queue xs k s.g_current_process r.chain r.current).1

  pub in_queue : k < length xs
  in_queue = lt_of_get_elem? xs k r.current

  best-turn : get_elem? xs (turn (length xs) k) ≡ some best
  best-turn = elim (Bool-cases (suc k == length xs)) [
    | inl t ↦
        rw (t, follows ∙ after-last xs k (get_elem?_out xs (suc k) (ground (arith, t))))
          (Chain-head s.processes s.process_queue xs r.chain (omega (arith, in_queue)))
    | inr f ↦ rw f (middle (get_elem?_in_range xs (suc k) (ground (arith, f, in_queue))))
  ]
    where
      middle : (y : ℕ) × (get_elem? xs (suc k) ≡ some y) → get_elem? xs (suc k) ≡ some best
      middle (y, at) =
          rw
            (
              follows ∙ after-at xs k y at,
              at,
              ne→==_false y 0 (Chain-at s.processes s.process_queue xs (suc k) y r.chain at).0,
            )
            refl

  find-Returns : {i : Interrupts} → InSync i → Returns i best s (scheduler_find_next_best (i, s))
  unfolding scheduler_find_next_best
  find-Returns sync = critical_lem _ s sync λ j synced. record {
    after = j;
    returns =
        rw
          (ne→==_false s.g_current_process 0
            (Chain-at s.processes s.process_queue xs k s.g_current_process r.chain r.current).0)
          refl;
    sync = synced;
    same = refl;
  }

  -- The process that `scheduler_find_next_best` chooses is the next of the queue, after the last
  -- one the first; nothing changes.
  pub scheduler_find_next_best_lem :
      {i : Interrupts}
      → InSync i
      → (y : ℕ) × (get_elem? xs (turn (length xs) k) ≡ some y)
        × Returns i y s (scheduler_find_next_best (i, s))
  scheduler_find_next_best_lem sync = (best, best-turn, find-Returns sync)

-- Replacing a process by one with the same field `f` keeps the field everywhere.
update_field :
    (f : Process → ℕ) (ps : ℕ → Process) (c : ℕ) (q : Process)
    → f q ≡ f (ps c)
    → (x : ℕ) → f (update c q ps x) ≡ f (ps x)
update_field f ps c q e x = elim (Bool-cases (x == c)) [
  | inl t ↦ rw t (e ∙ ap (λ (z : ℕ). f (ps z)) (sym (same t)))
  | inr n ↦ rw n refl
]
  where
    same : (x == c) ≡ true → x ≡ c
    same h = ground arith

abbrev owned : Scheduler → Bool
owned s = not (
    bit_and (clear_flag proc_debug_yield (s.processes s.g_current_process)).flags
      proc_free_thread_context
    == 0)

-- What the switch keeps of the process that was running: its new context. A context that the
-- process owned goes back to the allocator; the contexts of other threads stay.
pub record Keeps (context : ℕ) (s t : Scheduler) : Type 0 where
  pub saved : t.contexts (s.processes s.g_current_process).thread ≡ context
  pub others : (a : ℕ) → a ≢ (s.processes s.g_current_process).thread → t.contexts a ≡ s.contexts a
  pub freed : t.freed ≡ (
      if owned s
      then s.freed ++ s.contexts (s.processes s.g_current_process).thread ∷ []
      else s.freed)

module _ (context : ℕ) (xs : List ℕ) (k : ℕ) (s : Scheduler) (r : Runs xs k s) where
  Kept : Scheduler → Type 0
  Kept t = Runs xs k t × Keeps context s t

  keep_context_lem : (t : Scheduler) × (keep_context context s ≡ ok t) × Kept t
  unfolding keep_context Kept
  keep_context_lem =
      rw
        (ne→==_false s.g_current_process 0
          (Chain-at s.processes s.process_queue xs k s.g_current_process r.chain r.current).0)
        (elim (Bool-cases (owned s)) [
          | inl t ↦
              rw (t, ne→==_false (s.processes s.g_current_process).thread 0 threaded)
                (
                  _,
                  refl,
                  kept t
                      (clear_flag proc_free_thread_context
                        (clear_flag proc_debug_yield (s.processes s.g_current_process)))
                      refl refl
                      (s.freed ++ s.contexts (s.processes s.g_current_process).thread ∷ [])
                      (rw t refl),
                )
          | inr f ↦
              rw (f, ne→==_false (s.processes s.g_current_process).thread 0 threaded)
                (
                  _,
                  refl,
                  kept f (clear_flag proc_debug_yield (s.processes s.g_current_process)) refl refl
                      s.freed (rw f refl),
                )
        ])
    where
      threaded : (s.processes s.g_current_process).thread ≢ 0
      threaded = r.threads k s.g_current_process r.current

      kept :
          {b : Bool}
          → owned s ≡ b
          → (q : Process) → q.next ≡ (s.processes s.g_current_process).next
          → q.thread ≡ (s.processes s.g_current_process).thread
          → (freed : List ℕ)
          → freed ≡ (
              if owned s
              then s.freed ++ s.contexts (s.processes s.g_current_process).thread ∷ []
              else s.freed)
          → Kept (record s {
            processes = update s.g_current_process q s.processes;
            freed = freed;
            contexts = update (s.processes s.g_current_process).thread context s.contexts;
          })
      kept b q next thread freed frees = (
        record {
          chain =
              Chain-same s.processes (update s.g_current_process q s.processes) s.process_queue xs
                (update_field (λ p. p.next) s.processes s.g_current_process q next) r.chain;
          current = r.current;
          threads = λ j x at z.
              r.threads j x at
                (sym (update_field (λ p. p.thread) s.processes s.g_current_process q thread x) ∙ z);
        },
        record {
          saved = rw (==_refl (s.processes s.g_current_process).thread) refl;
          others = λ a ne. rw (ne→==_false a (s.processes s.g_current_process).thread ne) refl;
          freed = frees;
        },
      )

  -- From a process at position `k` of the queue, stage 1 of a switch stores the context in its
  -- thread, gives an owned old context back and makes the process at the next position the current
  -- one; the queue and the other threads stay.
  pub scheduler_advance_stage1_lem :
      {i : Interrupts}
      → InSync i
      → (t : Scheduler) × Returns i tt t (scheduler_advance_stage1 context (i, s))
        × Runs xs (turn (length xs) k) t
        × Keeps context s t
  unfolding scheduler_advance_stage1 Kept
  scheduler_advance_stage1_lem {i} sync =
      let (u, runs, (ru, keeps)) = keep_context_lem in
      (
        record u { g_current_process = best xs k u ru },
        through u runs ru,
        record { chain = ru.chain; current = best-turn xs k u ru; threads = ru.threads },
        record { saved = keeps.saved; others = keeps.others; freed = keeps.freed },
      )
    where
      through :
          (u : Scheduler)
          → keep_context context s ≡ ok u
          → (ru : Runs xs k u)
          → Returns i tt
              (record u { g_current_process = best xs k u ru })
              (scheduler_advance_stage1 context (i, s))
      through u runs ru = critical_lem _ s sync λ j synced.
          let f = find-Returns xs k u ru synced in
          record {
            after = f.after;
            returns = rw (runs, f.returns) refl;
            sync = f.sync;
            same = f.same;
          }
