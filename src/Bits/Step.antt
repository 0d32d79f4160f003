-- ===== src/Bits/Step.antt =====
-- One equation for the lowest digit of each bit operation. The native operations stand for a
-- recursion with fuel, of which there is always enough.
use Prim.Native.Nat.{digits, bitwise, bit_and-bitwise, bit_or-bitwise}
use native.Mathlib.Decide.{dec_lt}
use treeos.Base.{
  ℕ, zero, suc, ◌+◌, ◌*◌, ◌/◌, ◌%◌, ◌≤◌, ◌<◌, min, max, bit_and, bit_or, ◌≡◌, refl, arith, ◌∙◌, ap,
}

module _ (at_zero : ℕ → ℕ) (digit : ℕ → ℕ → ℕ) where
  abbrev run : ℕ → ℕ → ℕ → ℕ
  run = digits at_zero digit

  -- One more unit of fuel changes nothing.
  one_more : (fuel x y : ℕ) → x ≤ fuel → run (suc fuel) x y ≡ run fuel x y
  one_more zero zero y h = refl
  one_more zero (suc x) y h = absurd (omega arith)
  one_more (suc fuel) zero y h = refl
  one_more (suc fuel) (suc x) y h =
      ap (λ (high : ℕ). high * 2 + digit (suc x % 2) (y % 2))
        (one_more fuel (suc x / 2) (y / 2) (omega arith))

  -- Nor does any more.
  enough : (fuel least x y : ℕ) → x ≤ least → least ≤ fuel → run fuel x y ≡ run least x y
  enough zero zero x y h k = refl
  enough zero (suc least) x y h k = absurd (omega arith)
  enough (suc fuel) least x y h k = elim (dec_lt fuel least) [
    | yes last ↦ ap (λ (n : ℕ). run n x y) (same last)
    | no more ↦ one_more fuel x y (omega arith) ∙ enough fuel least x y h (omega arith)
  ]
    where
      same : fuel < least → suc fuel ≡ least
      same last = omega arith

  split :
      ((y : ℕ) → at_zero y ≡ at_zero (y / 2) * 2 + digit 0 (y % 2))
      → (x y : ℕ)
      → bitwise at_zero digit x y
        ≡ bitwise at_zero digit (x / 2) (y / 2) * 2 + digit (x % 2) (y % 2)
  split none_left zero y = none_left y
  split none_left (suc x) y =
      ap (λ (high : ℕ). high * 2 + digit (suc x % 2) (y % 2))
        (enough x (suc x / 2) (suc x / 2) (y / 2) (omega arith) (omega arith))

pub bit_or_step : (x y : ℕ) → bit_or x y ≡ bit_or (x / 2) (y / 2) * 2 + max (x % 2) (y % 2)
bit_or_step x y = simp bit_or-bitwise (split (λ n. n) max (λ n. omega arith) x y)

pub bit_and_step : (x y : ℕ) → bit_and x y ≡ bit_and (x / 2) (y / 2) * 2 + min (x % 2) (y % 2)
bit_and_step x y = simp bit_and-bitwise (split (λ n. 0) min (λ n. omega arith) x y)
