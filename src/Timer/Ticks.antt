-- ===== src/Timer/Ticks.antt =====
-- What `timer_sleep` waits for.
use treeos.Base.{
  ℕ, zero, suc, ◌+◌, ◌-◌, ◌%◌, ◌^◌, ◌≤◌, ◌<◌, ◌≡◌, refl, arith, Result, ok, ◌==◌, ltb, Bool-cases,
  inl, inr, add32, ltb→lt, ltb-false, le→ltb_false, subst, ==_iff, ==_false→ne,
}
use native.Mathlib.Decide.{dec_lt}
use treeos.Timer.{wait_until, timer_sleep}

-- The first reading from `n` on that is not below `end_ticks`.
pub record FirstAt (clock : ℕ → ℕ) (n end_ticks m : ℕ) : Type 0 where
  pub from : n ≤ m
  pub reached : end_ticks ≤ clock m
  pub before : (j : ℕ) → n ≤ j → j < m → clock j < end_ticks

wait_until_lem :
    (clock : ℕ → ℕ) (fuel n end_ticks more : ℕ)
    → more < fuel
    → end_ticks ≤ clock (n + more)
    → (m : ℕ) × (wait_until clock fuel n end_ticks ≡ ok m) × FirstAt clock n end_ticks m
unfolding wait_until
wait_until_lem clock zero n end_ticks more small reached = absurd (omega arith)
wait_until_lem clock (suc fuel) n end_ticks zero small reached =
    let here : n + 0 ≡ n = omega arith in now (subst (λ (k : ℕ). end_ticks ≤ clock k) here reached)
  where
    now :
        end_ticks ≤ clock n
        → (m : ℕ) × (wait_until clock (suc fuel) n end_ticks ≡ ok m) × FirstAt clock n end_ticks m
    now over = (
      n,
      rw (le→ltb_false (clock n) end_ticks over) refl,
      record { from = omega arith; reached = over; before = λ j low high. absurd (omega arith) },
    )
wait_until_lem clock (suc fuel) n end_ticks (suc more) small reached =
    let there : n + suc more ≡ n + 1 + more = omega arith in
    let (m, returns, first) =
      wait_until_lem clock fuel (n + 1) end_ticks more (omega arith)
        (subst (λ (k : ℕ). end_ticks ≤ clock k) there reached) in
    elim (Bool-cases (ltb (clock n) end_ticks)) [
      | inr over ↦ (
        n,
        rw over refl,
        record {
          from = omega arith;
          reached = ltb-false _ _ over;
          before = λ j low high. absurd (omega arith);
        },
      )
      | inl below ↦ (
        m,
        rw below returns,
        record {
          from = omega (arith, first.from);
          reached = first.reached;
          before = λ j low high. earlier m j first low high (ltb→lt _ _ below);
        },
      )
    ]
  where
    earlier :
        (m j : ℕ)
        → FirstAt clock (n + 1) end_ticks m
        → n ≤ j
        → j < m
        → clock n < end_ticks
        → clock j < end_ticks
    earlier m j first low high below = elim (Bool-cases (n == j)) [
      | inl e ↦ subst (λ (k : ℕ). clock k < end_ticks) ((==_iff n j).0 e) below
      | inr e ↦ first.before j (omega (arith, ==_false→ne n j e)) high
    ]

-- How a sleep ends: at the first reading that is `ticks` or more after the first one; or, where that
-- sum wraps around, at the first reading that has reached what is left of it, which can be earlier.
pub data Wakes (clock : ℕ → ℕ) (ticks : ℕ) (result : Result ℕ) : Type 0 where
  slept :
      (m : ℕ)
      → clock 0 + ticks < 2 ^ 32
      → result ≡ ok m
      → FirstAt clock 1 (clock 0 + ticks) m
      → Wakes clock ticks result
  wrapped :
      (m : ℕ)
      → 2 ^ 32 ≤ clock 0 + ticks
      → result ≡ ok m
      → FirstAt clock 1 (clock 0 + ticks - 2 ^ 32) m
      → Wakes clock ticks result

-- If one of the next `fuel` readings reaches the tick that is waited for, `timer_sleep` returns, at the
-- first one that does; where the tick wraps around the wait is for the remainder.
pub timer_sleep_lem :
    (clock : ℕ → ℕ) (fuel ticks more : ℕ)
    → clock 0 < 2 ^ 32
    → ticks < 2 ^ 32
    → more < fuel
    → (clock 0 + ticks) % 2 ^ 32 ≤ clock (1 + more)
    → Wakes clock ticks (timer_sleep clock fuel ticks)
unfolding timer_sleep
timer_sleep_lem clock fuel ticks more now short small reached =
    wakes (wait_until_lem clock fuel 1 (add32 (clock 0) ticks) more small reached)
  where
    wakes :
        ((m : ℕ) × (wait_until clock fuel 1 (add32 (clock 0) ticks) ≡ ok m)
          × FirstAt clock 1 (add32 (clock 0) ticks) m)
        → Wakes clock ticks (timer_sleep clock fuel ticks)
    wakes (m, returns, first) = elim (dec_lt (clock 0 + ticks) (2 ^ 32)) [
      | yes p ↦
          let e : add32 (clock 0) ticks ≡ clock 0 + ticks = omega arith in
          slept m p returns (subst (λ (t : ℕ). FirstAt clock 1 t m) e first)
      | no p ↦
          let e : add32 (clock 0) ticks ≡ clock 0 + ticks - 2 ^ 32 = omega arith in
          wrapped m (omega arith) returns (subst (λ (t : ℕ). FirstAt clock 1 t m) e first)
    ]
