-- ===== src/Base/Invert.antt =====
-- A chain of calls that returned: each of its checks held, and each of its calls returned.
use mathlib.Core.Path.{◌≡◌, refl}
use mathlib.Core.Option.{Option, none, some}
use treeos.Base.Outcome.{Result, ok, panicked, fault, or_fault, ◌>>=◌}

module _ {A : Type 0} where
  pub ok_inj : {a b : A} → ◌≡◌ {A = Result A} (ok a) (ok b) → a ≡ b
  ok_inj e = cc

module _ {A B : Type 0} where
  pub or_fault_ok :
      (o : Option B) {next : B → Result A} {x : A}
      → (or_fault o >>= next) ≡ ok x
      → (b : B) × (o ≡ some b) × (next b ≡ ok x)
  or_fault_ok (some b) e = (b, refl, e)
  or_fault_ok none e = absurd cc

  pub bind_ok :
      (r : Result B) {next : B → Result A} {x : A}
      → (r >>= next) ≡ ok x
      → (b : B) × (r ≡ ok b) × (next b ≡ ok x)
  bind_ok (ok b) e = (b, refl, e)
  bind_ok (panicked msg) e = absurd cc
  bind_ok fault e = absurd cc
