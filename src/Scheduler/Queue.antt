-- ===== src/Scheduler/Queue.antt =====
-- The queue as a list of processes: the nodes that the `next` fields run through, up to a null
-- pointer.
use treeos.Base.{
  ℕ, zero, suc, ◌<◌, ◌≡◌, ◌≢◌, refl, arith, Bool, false, ◌||◌, Option, none, some, List, [], ◌∷◌,
  ◌++◌, ◌==◌, if◌then◌else◌, length, get_elem?, ne→==_false, ==_refl, eq→==, ap, sym, ◌∙◌, inl, inr,
  Bool-cases,
}
use treeos.Scheduler.{Process, queue_end, update}

abbrev pub Chain : (ℕ → Process) → ℕ → List ℕ → Type 0
Chain processes a [] = a ≡ 0
Chain processes a (x ∷ xs) = (a ≡ x) × (x ≢ 0) × Chain processes (processes x).next xs

abbrev pub queued : ℕ → List ℕ → Bool
queued p [] = false
queued p (x ∷ xs) = (x == p) || queued p xs

abbrev pub last_of : ℕ → List ℕ → ℕ
last_of x [] = x
last_of x (y ∷ ys) = last_of y ys

-- The process that follows position `k`, 0 after the last.
abbrev pub after : List ℕ → ℕ → ℕ
after xs k = elim (get_elem? xs (suc k)) [ none ↦ 0 | some y ↦ y ]

pub after-at : (xs : List ℕ) (k y : ℕ) → get_elem? xs (suc k) ≡ some y → after xs k ≡ y
after-at xs k y h = rw (after, h) refl

pub after-last : (xs : List ℕ) (k : ℕ) → get_elem? xs (suc k) ≡ none → after xs k ≡ 0
after-last xs k h = rw (after, h) refl

pub last_of-next :
    (ps : ℕ → Process) (a x : ℕ) (xs : List ℕ) → Chain ps a (x ∷ xs) → (ps (last_of x xs)).next ≡ 0
last_of-next ps a x [] (e, ne, c) = c
last_of-next ps a x (y ∷ ys) (e, ne, c) = last_of-next ps (ps x).next y ys c

not_last : (ps : ℕ → Process) (a x y : ℕ) (ys : List ℕ) → Chain ps a (x ∷ y ∷ ys) → x ≢ last_of y ys
not_last ps a x y ys (e, ne, (e', ne', c)) same =
    ne' (
      sym e'
      ∙ ap (λ (z : ℕ). (ps z).next) same
      ∙ last_of-next ps a x (y ∷ ys) (e, ne, (e', ne', c)))

-- Linking a process behind the last node appends it.
pub Chain-append :
    (ps : ℕ → Process) (a x : ℕ) (xs : List ℕ) (p : ℕ)
    → Chain ps a (x ∷ xs)
    → p ≢ 0
    → queued p (x ∷ xs) ≡ false
    → (ps p).next ≡ 0
    → Chain
        (update (last_of x xs) (record (ps (last_of x xs)) { next = p }) ps)
        a
        (x ∷ xs ++ p ∷ [])
Chain-append ps a x [] p (e, ne, c) nz fresh free =
    (e, ne, (rw (==_refl x) refl, nz, rw (ne→==_false p x (λ h. apart (sym h))) free))
  where
    apart : x ≢ p
    apart h = ground (arith, fresh)
Chain-append ps a x (y ∷ ys) p (e, ne, c) nz fresh free = (
  e,
  ne,
  rw (ne→==_false x (last_of y ys) (not_last ps a x y ys (e, ne, c)))
      (Chain-append ps (ps x).next y ys p c nz (ground (arith, fresh)) free),
)

-- The loop of `scheduler_add_process` finds the process, or else the last node.
pub queue_end_lem :
    (ps : ℕ → Process) (a x : ℕ) (xs : List ℕ) (p fuel : ℕ)
    → Chain ps a (x ∷ xs)
    → length xs < fuel
    → queue_end fuel ps p x ≡ some (if queued p xs then none else some (last_of x xs))
unfolding queue_end
queue_end_lem ps a x xs p zero c h = absurd (omega arith)
queue_end_lem ps a x [] p (suc fuel) (e, ne, c) h = rw (eq→== _ 0 c) refl
queue_end_lem ps a x (y ∷ ys) p (suc fuel) (e, ne, (e', ne', c)) h =
    rw (e', ne→==_false y 0 ne', queue_end_lem ps y y ys p fuel (refl, ne', c) (omega arith))
      (elim (Bool-cases (y == p)) [ inl t ↦ rw t refl | inr f ↦ rw f refl ])

-- A node of the chain is not null, and its `next` field is the node after it.
pub Chain-at :
    (ps : ℕ → Process) (a : ℕ) (xs : List ℕ) (k x : ℕ)
    → Chain ps a xs
    → get_elem? xs k ≡ some x
    → (x ≢ 0) × ((ps x).next ≡ after xs k)
Chain-at ps a [] k x c h = cc
Chain-at ps a (y ∷ []) zero x (e, ne, c) h = (λ z. ground (arith, h), rw (sym (the_same h)) c)
  where
    the_same : ◌≡◌ {A = Option ℕ} (some y) (some x) → y ≡ x
    the_same q = cc
Chain-at ps a (y ∷ z ∷ zs) zero x (e, ne, (e', ne', c)) h =
    (λ z. ground (arith, h), rw (sym (the_same h)) e')
  where
    the_same : ◌≡◌ {A = Option ℕ} (some y) (some x) → y ≡ x
    the_same q = cc
Chain-at ps a (y ∷ ys) (suc k) x (e, ne, c) h = Chain-at ps (ps y).next ys k x c h

pub Chain-head :
    (ps : ℕ → Process) (a : ℕ) (xs : List ℕ)
    → Chain ps a xs
    → 0 < length xs
    → get_elem? xs 0 ≡ some a
Chain-head ps a [] c h = absurd (omega arith)
Chain-head ps a (x ∷ xs) (e, ne, c) h = rw e refl

-- A chain depends on the `next` fields alone.
pub Chain-same :
    (ps qs : ℕ → Process) (a : ℕ) (xs : List ℕ)
    → ((x : ℕ) → (qs x).next ≡ (ps x).next)
    → Chain ps a xs
    → Chain qs a xs
Chain-same ps qs a [] same c = c
Chain-same ps qs a (x ∷ xs) same (e, ne, c) =
    (e, ne, rw (same x) (Chain-same ps qs (ps x).next xs same c))
