-- ===== src/Trap/Exceptions.antt =====
-- The messages of exceptions fit their buffers, so that every one of them is reported.
use treeos.Base.{
  ℕ, zero, suc, ◌^◌, ◌≤◌, ◌<◌, ◌≡◌, refl, arith, some, List, [], ◌∷◌, ◌++◌, Result, ok, ◌>>=◌, leb,
  ltb, length, length-append, get_elem?, get_elem?_in_range, bytes_of, Bool-cases, inl, inr,
}
use treeos.Interrupt.{Interrupts}
use treeos.Interrupt.Mask.{InSync}
use treeos.Tty.{Tty}
use treeos.Tty.Rows.{OnScreen}
use treeos.Format.{word, ltoa, ultox, convert, formatted, vsprintf}
use treeos.Format.Length.{length-ltoa, length-ultox, vsprintf_bound}
use treeos.Serio.{Serial, serio_com1, c_string}
use treeos.Serio.Wait.{Sends}
use treeos.Panic.{ThreadContext, Outputs}
use treeos.Panic.Registers.{IsContext}
use treeos.Panic.Report.{Stops, located, shown, shown-le, panic_word, panic_r_lem}
use treeos.Trap.{
  error_msg, named_message, unexpected_message, unexpected_interrupt, page_fault_interrupt,
}

-- A message of at most `n` bytes.
record Message (n : ℕ) (result : Result (List ℕ)) : Type 0 where
  msg : List ℕ
  returns : result ≡ ok msg
  short : length msg ≤ n

abbrev AllShort : ℕ → List (List ℕ) → Type 0
AllShort n [] = Unit {0}
AllShort n (s ∷ ss) = (length s ≤ n) × AllShort n ss

AllShort-get_elem? :
    {n : ℕ} (ss : List (List ℕ)) (i : ℕ) {s : List ℕ}
    → AllShort n ss
    → get_elem? ss i ≡ some s
    → length s ≤ n
AllShort-get_elem? [] i h e = cc
AllShort-get_elem? (s ∷ ss) zero h e = ground (arith, h.0)
AllShort-get_elem? (s ∷ ss) (suc i) h e = AllShort-get_elem? ss i h.1 e

error_msg-AllShort : AllShort 60 error_msg
unfolding error_msg
error_msg-AllShort = omega arith

-- "unhandled interrupt ".
abbrev unhandled : List ℕ → List ℕ
unhandled rest =
    117 ∷ 110 ∷ 104 ∷ 97 ∷ 110 ∷ 100 ∷ 108 ∷ 101 ∷ 100 ∷ 32 ∷ 105 ∷ 110 ∷ 116 ∷ 101 ∷ 114 ∷ 114
    ∷ 117 ∷ 112 ∷ 116 ∷ 32 ∷ rest

named_message_lem : (n i : ℕ) → n < 2 ^ 32 → i < 21 → Message 93 (named_message n i)
unfolding named_message bytes_of vsprintf formatted convert
named_message_lem n i small inside =
    let (name, found) = get_elem?_in_range error_msg i (unfold error_msg in omega arith) in
    let out = unhandled (ltoa n ++ (58 ∷ 32 ∷ (name ++ []))) in
    record {
      msg = shown out;
      returns = rw found refl;
      short = omega (
        arith,
        shown-le out,
        length-append (ltoa n) (58 ∷ 32 ∷ (name ++ [])),
        length-append name [],
        length-ltoa n small,
        AllShort-get_elem? error_msg i error_msg-AllShort found,
      );
    }

unexpected_message_lem : (n : ℕ) → n < 2 ^ 32 → Message 93 (unexpected_message n)
unfolding unexpected_message bytes_of
unexpected_message_lem n small = elim (Bool-cases (leb n 20)) [
  | inl e ↦ rw e (named_message_lem n n small (ground (arith, e)))
  | inr e ↦ elim (Bool-cases (ltb n 32)) [
    | inl reserved ↦ rw (e, reserved) (named_message_lem n 15 small (omega arith))
    | inr other ↦ rw (e, other) numbered
  ]
]
  where
    numbered : Message 93 (
        vsprintf (bytes_of "unhandled interrupt %d") (word n ∷ []) >>= λ (k, out).
        ok (c_string out))
    numbered =
        let (out, returns, short) =
          vsprintf_bound (bytes_of "unhandled interrupt %d") (n ∷ []) refl (small, tt) in
        record {
          msg = shown out;
          returns = rw returns refl;
          short = omega (arith, short, shown-le out);
        }

-- A panic with the message `msg` and the registers.
pub record Panics (dump : Interrupts × Tty → Result (Interrupts × Tty)) (file : List ℕ) (at : ℕ)
    (serial : Serial) (i : Interrupts) (s : Tty) (msg : List ℕ) (result : Result Outputs)
    : Type 0 where
  pub registers : List ℕ
  pub short : length registers ≤ 299
  pub stops :
      Stops dump (shown (located panic_word file at msg (10 ∷ [])) ++ registers) serial i s result

module _ (inb : ℕ → ℕ → ℕ) (fuel : ℕ) (ready : Sends inb fuel serio_com1) (serial : Serial)
    {i : Interrupts} (sync : InSync i) {s : Tty} (on : OnScreen s)
    (dump : Interrupts × Tty → Result (Interrupts × Tty)) (file : List ℕ) (at : ℕ)
    (small : at < 2 ^ 32) (named : length file ≤ 80) (c : ThreadContext)
    (context : IsContext c) where
  pub unexpected_interrupt_lem :
      (msg : List ℕ) × (unexpected_message c.int_num ≡ ok msg)
      × Panics dump file at serial i s msg
          (unexpected_interrupt dump inb fuel file at c (serial, (i, s)))
  unfolding unexpected_interrupt
  unexpected_interrupt_lem =
      let m = unexpected_message_lem c.int_num context.int_num in
      let (registers, short, stops) =
        panic_r_lem inb fuel ready serial sync {s = s} on dump file at m.msg small c context
          (omega (arith, m.short, named)) in
      (
        m.msg,
        m.returns,
        record { registers = registers; short = short; stops = rw m.returns stops },
      )

  -- A page fault ends in a panic with the address that was accessed, and the registers.
  pub page_fault_interrupt_lem :
      (cr2 : ℕ)
      → cr2 < 2 ^ 32
      → Panics dump file at serial i s
          (shown (
            112
            ∷ 97
            ∷ 103
            ∷ 101
            ∷ 32
            ∷ 102
            ∷ 97
            ∷ 117
            ∷ 108
            ∷ 116
            ∷ 32
            ∷ 97
            ∷ 116
            ∷ 32
            ∷ 97
            ∷ 100
            ∷ 100
            ∷ 114
            ∷ 101
            ∷ 115
            ∷ 115
            ∷ 32
            ∷ (ultox cr2 ++ [])))
          (page_fault_interrupt dump inb fuel file at cr2 c (serial, (i, s)))
  unfolding page_fault_interrupt bytes_of vsprintf formatted convert
  page_fault_interrupt_lem cr2 fits =
      let out : List ℕ =
        112
        ∷ 97
        ∷ 103
        ∷ 101
        ∷ 32
        ∷ 102
        ∷ 97
        ∷ 117
        ∷ 108
        ∷ 116
        ∷ 32
        ∷ 97
        ∷ 116
        ∷ 32
        ∷ 97
        ∷ 100
        ∷ 100
        ∷ 114
        ∷ 101
        ∷ 115
        ∷ 115
        ∷ 32
        ∷ (ultox cr2 ++ []) in
      let (registers, short, stops) =
        panic_r_lem inb fuel ready serial sync {s = s} on dump file at (shown out) small c context (
          omega
            (arith, named, shown-le out, length-append (ultox cr2) [], length-ultox cr2 fits)) in
      record { registers = registers; short = short; stops = stops }
