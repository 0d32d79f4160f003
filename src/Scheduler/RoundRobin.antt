-- ===== src/Scheduler/RoundRobin.antt =====
-- The order in which switches run through the queue.
use treeos.Base.{
  ℕ, zero, suc, ◌+◌, ◌≤◌, ◌<◌, ◌≡◌, refl, arith, List, [], ◌∷◌, Result, ok, ◌>>=◌, ◌==◌,
  if◌then◌else◌, length, ne→==_false, ap, ◌∙◌,
}
use treeos.Interrupt.{Interrupts}
use treeos.Interrupt.Mask.{InSync}
use treeos.Scheduler.{Scheduler, scheduler_advance_stage1}
use treeos.Scheduler.Switch.{turn, Runs, in_queue, scheduler_advance_stage1_lem}

-- A switch for each of the contexts.
unfoldable pub switches : List ℕ → Interrupts × Scheduler → Result (Interrupts × Scheduler)
switches [] k = ok k
switches (c ∷ cs) k = scheduler_advance_stage1 c k >>= λ (x, k). switches cs k

-- The position that `m` switches reach from `k`.
positions : ℕ → ℕ → ℕ → ℕ
positions n zero k = k
positions n (suc m) k = positions n m (turn n k)

at_position : (n a b : ℕ) → a ≡ b → (if a == n then 0 else a) ≡ (if b == n then 0 else b)
at_position n a b e = ap (λ (q : ℕ). if q == n then 0 else q) e

positions-lem :
    (n m k : ℕ) → k < n → k + m ≤ n → positions n m k ≡ (if k + m == n then 0 else k + m)
unfolding positions
positions-lem n zero k p h = ground arith
positions-lem n (suc zero) k p h = ground arith
positions-lem n (suc (suc m)) k p h = rw (ne→==_false (suc k) n (omega arith)) (
    positions-lem n (suc m) (suc k) (omega arith) (omega arith)
    ∙ at_position n (suc k + suc m) (k + suc (suc m)) (omega arith))

-- The switches return, and the process at `k` is then the current one of the same queue.
pub record Reaches (xs : List ℕ) (k : ℕ) (result : Result (Interrupts × Scheduler)) : Type 0 where
  pub interrupts : Interrupts
  pub scheduler : Scheduler
  pub returns : result ≡ ok (interrupts, scheduler)
  pub runs : Runs xs k scheduler

module _ (xs : List ℕ) where
  switches-from :
      (cs : List ℕ) (k : ℕ) (i : Interrupts) (s : Scheduler)
      → InSync i
      → Runs xs k s
      → Reaches xs (positions (length xs) (length cs) k) (switches cs (i, s))
  unfolding switches positions
  switches-from [] k i s sync r = record { interrupts = i; scheduler = s; returns = refl; runs = r }
  switches-from (c ∷ cs) k i s sync r =
      let (t, ret, r', keeps) = scheduler_advance_stage1_lem c xs k s r sync in
      let rest = switches-from cs (turn (length xs) k) ret.after t ret.sync r' in
      record {
        interrupts = rest.interrupts;
        scheduler = rest.scheduler;
        returns = rw (ret.returns) rest.returns;
        runs = rest.runs;
      }

  -- Every process has its turn: from the first process, `m` switches reach the process at position
  -- `m`, and as many as there are processes reach the first again.
  pub round_robin :
      (cs : List ℕ) (i : Interrupts) (s : Scheduler)
      → InSync i
      → Runs xs 0 s
      → length cs ≤ length xs
      → Reaches xs (if length cs == length xs then 0 else length cs) (switches cs (i, s))
  round_robin cs i s sync r h =
      rw⁻¹
        (positions-lem (length xs) (length cs) 0 (in_queue xs 0 s r) (omega arith)
          ∙ at_position (length xs) (0 + length cs) (length cs) (omega arith))
        (switches-from cs 0 i s sync r)
