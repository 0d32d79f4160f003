-- ===== src/Interrupt/Handlers.antt =====
-- The handler tables: what `int_init` fills in, what the two ways to register do, and what an IRQ
-- runs.
use treeos.Base.{
  ℕ, zero, suc, ◌+◌, ◌-◌, ◌^◌, ◌≤◌, ◌<◌, ◌≡◌, ◌≢◌, refl, arith, true, false, ◌&&◌, some, List, [],
  ◌∷◌, ◌++◌, Result, ok, panicked, ◌>>=◌, ◌==◌, if◌then◌else◌, ltb, leb, inl, inr, Bool-cases,
  lt→ltb, le→ltb_false, ne→==_false, length, get_elem?, set, length-set, get_elem?-set_self,
  get_elem?-set_ne, get_elem?_in_range, u8, ap, fun_ext, ==_iff, lt_of_get_elem?,
}
use mathlib.Core.List.{append_assoc}
use native.Mathlib.Decide.{dec_lt}
use treeos.Interrupt.{
  Handler, null, unexpected_int_handler, irq_int_handler, syscall_int_handler, driver, is_null,
  Interrupts, default_handler, default_handlers, int_register_handler, int_register_irq_handler,
  link_last, run_chain, irq_handler, pic_slave_cmd, pic_master_cmd,
}

pub default_handlers_lem :
    (left i : ℕ) (table : List Handler)
    → left + i ≤ length table
    → (j : ℕ)
    → get_elem? (default_handlers left i table) j
      ≡ (if leb i j && ltb j (left + i) then some (default_handler j) else get_elem? table j)
unfolding default_handlers
default_handlers_lem zero i table h j = ground arith
default_handlers_lem (suc left) i table h j = ground (
  arith,
  default_handlers_lem left (i + 1) (set table i (default_handler i))
      (rw (length-set table i (default_handler i)) (omega arith)) j,
  length-set table i (default_handler i),
  get_elem?-set_self table i (default_handler i),
  get_elem?-set_ne table i j (default_handler i),
)

-- The chain behind the last node is all that `int_register_irq_handler` keeps.
pub link_last-append :
    (chain : List Handler) (last h : Handler) → link_last (chain ++ last ∷ []) h ≡ last ∷ h ∷ []
unfolding link_last
link_last-append [] last h = refl
link_last-append (a ∷ []) last h = refl
link_last-append (a ∷ b ∷ chain) last h = link_last-append (b ∷ chain) last h

-- The outcomes of `int_register_handler` on interrupt `n`: only the numbers below 32 can be changed,
-- and a null handler stands for the default one.
pub data Registers (s : Interrupts) (n : ℕ) (h : Handler) : Result Interrupts → Type 0 where
  registered :
      {result : Result Interrupts} (t : Interrupts)
      → n < 32
      → result ≡ ok t
      → ((j : ℕ)
          → get_elem? t.handler_table j ≡ (
              if n == j
              then some (if is_null h then unexpected_int_handler else h)
              else get_elem? s.handler_table j))
      → record t { handler_table = s.handler_table } ≡ s
      → Registers s n h result
  no_such_interrupt :
      {result : Result Interrupts}
      → 49 ≤ n
      → result ≡ panicked "KASSERT failed: interrupt < INT_NUM_INTERRUPTS"
      → Registers s n h result
  syscall_interrupt :
      {result : Result Interrupts}
      → n ≡ 48
      → result ≡ panicked "tried to change syscall interrupt handler"
      → Registers s n h result
  irq_interrupt :
      {result : Result Interrupts}
      → 32 ≤ n
      → n < 48
      → result ≡ panicked "tried to change IRQ-aware interrupt handler"
      → Registers s n h result

or_default :
    (h : Handler)
    → (elim h [ null ↦ unexpected_int_handler | other ↦ other ])
      ≡ (if is_null h then unexpected_int_handler else h)
or_default null = refl
or_default unexpected_int_handler = refl
or_default irq_int_handler = refl
or_default syscall_int_handler = refl
or_default (driver n) = refl

module _ (s : Interrupts) (n : ℕ) (h : Handler) (size : length s.handler_table ≡ 49) where
  store_handler : n < 32 → Registers s n h (int_register_handler n h s)
  unfolding int_register_handler
  store_handler small =
      let (old, at) = get_elem?_in_range s.handler_table n (omega arith) in
      let v : Handler = if is_null h then unexpected_int_handler else h in
      registered (record s { handler_table = set s.handler_table n v }) small
        (rw (lt→ltb n 49 (omega arith), ne→==_false n 48 (omega arith), irq_test, at, or_default h)
          refl)
        (λ j.
          ground
            (arith, get_elem?-set_self s.handler_table n v, get_elem?-set_ne s.handler_table n j v))
        refl
    where
      irq_test : (leb 32 n && ltb n 48) ≡ false
      irq_test = ground arith

  -- `int_register_handler` sets the entry of an exception below 32 and no other entry, a null handler
  -- standing for the default; it panics for an IRQ's interrupt, for the system call and past the table.
  pub int_register_handler_lem : Registers s n h (int_register_handler n h s)
  unfolding int_register_handler
  int_register_handler_lem = elim (dec_lt n 49) [
    | no p ↦ no_such_interrupt (omega arith) (rw (le→ltb_false n 49 (omega arith)) refl)
    | yes p ↦ elim (Bool-cases (n == 48)) [
      | inl e ↦ syscall_interrupt ((==_iff n 48).0 e) (rw (lt→ltb n 49 p, e) refl)
      | inr e ↦ elim (dec_lt n 32) [
        | yes q ↦ store_handler q
        | no q ↦
            let below : n < 48 = ground arith in
            irq_interrupt (omega arith) below
              (rw (lt→ltb n 49 p, e, irq_test below (omega arith)) refl)
      ]
    ]
  ]
    where
      irq_test : n < 48 → 32 ≤ n → (leb 32 n && ltb n 48) ≡ true
      irq_test p q = ground arith

-- Registering on an IRQ keeps of its chain only the last node, and puts the new one behind it. The
-- chains of the other IRQs stay.
pub int_register_irq_handler_lem :
    (s : Interrupts) (irq : ℕ) (chain : List Handler) (last h : Handler)
    → irq < 16
    → irq ≢ 2
    → is_null h ≡ false
    → get_elem? s.irq_handler_list irq ≡ some (chain ++ last ∷ [])
    → (t : Interrupts) × (int_register_irq_handler true irq h s ≡ ok t)
      × ((j : ℕ)
          → get_elem? t.irq_handler_list j
            ≡ (if irq == j then some (last ∷ h ∷ []) else get_elem? s.irq_handler_list j))
      × (record t { irq_handler_list = s.irq_handler_list } ≡ s)
unfolding int_register_irq_handler
int_register_irq_handler_lem s irq chain last h valid usable there found =
    let v : List Handler = last ∷ h ∷ [] in
    let l = s.irq_handler_list in
    (
      record s { irq_handler_list = set l irq v },
      rw
          (
            lt→ltb irq 16 valid,
            ne→==_false irq 2 usable,
            there,
            found,
            link_last-append chain last h,
          )
          refl,
      λ j. ground (
        arith,
        lt_of_get_elem? l irq found,
        get_elem?-set_self l irq v,
        get_elem?-set_ne l irq j v,
      ),
      refl,
    )

-- The end-of-interrupt signals for an IRQ.
abbrev pub eoi : ℕ → List (ℕ × ℕ)
eoi irq =
    if leb 8 irq
    then (pic_slave_cmd, 0x20) ∷ (pic_master_cmd, 0x20) ∷ []
    else (pic_master_cmd, 0x20) ∷ []

-- The handlers of a chain, one after the other.
abbrev pub in_turn : {A : Type 0} → (Handler → A → Result A) → List Handler → A → Result A
in_turn call [] a = ok a
in_turn call (h ∷ rest) a = call h a >>= in_turn call rest

abbrev pub NoneNull : List Handler → Type 0
NoneNull [] = Unit {0}
NoneNull (h ∷ rest) = (is_null h ≡ false) × NoneNull rest

run_chain-in_turn :
    {A : Type 0} (call : Handler → A → Result A) (chain : List Handler) (a : A)
    → NoneNull chain
    → run_chain call chain a ≡ in_turn call chain a
unfolding run_chain
run_chain-in_turn call [] a h = refl
run_chain-in_turn call (x ∷ chain) a h =
    rw h.0 (ap (λ k. call x a >>= k) (fun_ext (λ b. run_chain-in_turn call chain b h.1)))

pub irq_handler_lem :
    {A : Type 0} (call : Handler → A → Result A) (irq : ℕ) (a : A) (s : Interrupts)
    (chain : List Handler)
    → irq < 16
    → get_elem? s.irq_handler_list irq ≡ some chain
    → NoneNull chain
    → irq_handler call (32 + irq) (a, s)
      ≡ (in_turn call chain a >>= λ b. ok (b, record s { ports = s.ports ++ eoi irq }))
unfolding irq_handler
irq_handler_lem call irq a s chain valid found set =
    let number : u8 (32 + irq + 2 ^ 32 - 32) ≡ irq = omega arith in
    rw (number, lt→ltb irq 16 valid, found, run_chain-in_turn call chain a set)
      (ap (λ k. in_turn call chain a >>= k)
        (fun_ext λ b. elim (Bool-cases (leb 8 irq)) [
          | inl e ↦ rw (e, append_assoc) refl
          | inr e ↦ rw e refl
        ]))
