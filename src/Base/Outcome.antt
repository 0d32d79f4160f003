-- ===== src/Base/Outcome.antt =====
-- How a kernel function ends: it returns, it calls `panic` (which never returns) with a message,
-- or it does something that C leaves undefined, such as an access out of an array's bounds.
use mathlib.Core.Bool.{Bool, true, false}
use mathlib.Core.Option.{Option, none, some}
use Prim.Native.String.{String}

pub data Result {ℓ} (A : Type ℓ) : Type ℓ where
  ok : A → Result A
  panicked : String → Result A
  fault : Result A

-- What a caller does with an outcome: it goes on only after a return.
infixl 5 ◌>>=◌
abbrev pub ◌>>=◌ {ℓ κ} : {A : Type ℓ} {B : Type κ} → Result A → (A → Result B) → Result B
fault >>= next = fault
panicked msg >>= next = panicked msg
ok value >>= next = next value

-- `PANIC_IF (cond, msg)`.
abbrev pub panic_if : Bool → String → Result (Unit {0})
panic_if true msg = panicked msg
panic_if false msg = ok tt

-- `KASSERT (cond)`, with the text that the macro makes of the condition.
abbrev pub kassert : Bool → String → Result (Unit {0})
kassert true msg = ok tt
kassert false msg = panicked msg

-- An access that faults where it finds nothing.
abbrev pub or_fault {ℓ} : {A : Type ℓ} → Option A → Result A
or_fault none = fault
or_fault (some a) = ok a

infixl 5 ◌>>◌
abbrev pub ◌>>◌ {ℓ} : {B : Type ℓ} → Result (Unit {0}) → Result B → Result B
check >> rest = check >>= λ done. rest
