-- ===== src/Scheduler/Add.antt =====
-- `scheduler_add_process` on a well-formed queue.
use treeos.Base.{
  ℕ, ◌≤◌, ◌≡◌, ◌≢◌, refl, arith, true, not, List, [], ◌∷◌, ◌++◌, ok, ◌>>=◌, ◌==◌, if◌then◌else◌,
  length, ne→==_false, eq→==, sym, ap, ◌∙◌, inl, inr, Bool-cases,
}
use treeos.Interrupt.{Interrupts, critical}
use treeos.Interrupt.Mask.{InSync}
use treeos.Interrupt.Critical.{Returns, critical_lem}
use treeos.Scheduler.{Scheduler, enqueue, scheduler_add_process, queue_end, store}
use treeos.Scheduler.Queue.{Chain, queued, last_of, Chain-append, queue_end_lem}

-- The queue after adding `p`: a process that is on it is not added again.
abbrev pub with_process : ℕ → List ℕ → List ℕ
with_process p xs = if queued p xs then xs else xs ++ p ∷ []

-- `t` is `s` with `ys` as its queue: no other part of the state differs, and no process but in its
-- `next` field.
pub record Queues (s : Scheduler) (ys : List ℕ) (t : Scheduler) : Type 0 where
  pub chain : Chain t.processes t.process_queue ys
  pub others : record t { processes = s.processes; process_queue = s.process_queue } ≡ s
  pub fields : (a : ℕ) → record (t.processes a) { next = (s.processes a).next } ≡ s.processes a

module _ (s : Scheduler) (p : ℕ) (nz : p ≢ 0) where
  linked :
      (l : ℕ) (a : ℕ)
      → record ((if a == l then record (s.processes l) { next = p } else s.processes a)) {
        next = (s.processes a).next;
      }
        ≡ s.processes a
  linked l a = elim (Bool-cases (a == l)) [ inl t ↦ rw (t, sym (same t)) refl | inr f ↦ rw f refl ]
    where
      same : (a == l) ≡ true → a ≡ l
      same h = ground arith

  enqueue_lem :
      (xs : List ℕ) (fuel : ℕ)
      → Chain s.processes s.process_queue xs
      → (s.processes p).next ≡ 0
      → length xs ≤ fuel
      → (t : Scheduler) × (enqueue fuel p s ≡ ok (not (queued p xs), t))
        × Queues s (with_process p xs) t
  unfolding enqueue
  enqueue_lem [] fuel c free h = (
    record s { process_queue = p },
    rw (eq→== _ 0 c) refl,
    record { chain = (refl, nz, free); others = refl; fields = λ a. refl },
  )
  enqueue_lem (x ∷ xs) fuel (e, ne, c) free h =
      rw (ne→==_false s.process_queue 0 (λ z. ne (sym e ∙ z)), ap (λ (z : ℕ). z == p) (sym e))
        (elim (Bool-cases (s.process_queue == p)) [
          | inl t ↦
              (s, rw t refl, rw t record { chain = (e, ne, c); others = refl; fields = λ a. refl })
          | inr f ↦
              rw
                (
                  f,
                  ap (queue_end fuel s.processes p) e
                      ∙ queue_end_lem s.processes x x xs p fuel (refl, ne, c) (omega arith),
                )
                (elim (Bool-cases (queued p xs)) [
                  | inl t ↦ (
                    s,
                    rw t refl,
                    rw t record { chain = (e, ne, c); others = refl; fields = λ a. refl },
                  )
                  | inr g ↦ (
                    store (last_of x xs) (record (s.processes (last_of x xs)) { next = p }) s,
                    rw g refl,
                    rw g record {
                      chain =
                          Chain-append s.processes s.process_queue x xs p (e, ne, c) nz
                            (rw (ap (λ (z : ℕ). z == p) (sym e), f, g) refl) free;
                      others = refl;
                      fields = linked (last_of x xs);
                    },
                  )
                ])
        ])

  -- Adding a process whose `next` field is null to a queue appends it and returns true, unless it
  -- is on the queue: then it returns false and the queue stays. The timer is as it was before, and
  -- the loop visits no more nodes than the queue has.
  pub scheduler_add_process_lem :
      {i : Interrupts} (sync : InSync i) (xs : List ℕ) (fuel : ℕ)
      → Chain s.processes s.process_queue xs
      → (s.processes p).next ≡ 0
      → length xs ≤ fuel
      → (t : Scheduler) × Returns i (not (queued p xs)) t (scheduler_add_process fuel p (i, s))
        × Queues s (with_process p xs) t
  unfolding scheduler_add_process
  scheduler_add_process_lem {i} sync xs fuel c free h =
      let (t, runs, queues) = enqueue_lem xs fuel c free h in
      (t, rw (ne→==_false p 0 nz, eq→== _ 0 free) (inside t runs), queues)
    where
      inside :
          (t : Scheduler)
          → enqueue fuel p s ≡ ok (not (queued p xs), t)
          → Returns i (not (queued p xs)) t (
              critical
                (λ ((i, s) : Interrupts × Scheduler). enqueue fuel p s >>= λ (b, s). ok (b, (i, s)))
                (i, s))
      inside t runs =
          critical_lem _ s sync
            λ j synced. record { after = j; returns = rw runs refl; sync = synced; same = refl }
