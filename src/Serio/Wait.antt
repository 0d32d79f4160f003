-- ===== src/Serio/Wait.antt =====
-- Reading and writing the serial port, when the device does not keep the kernel waiting for ever.
use treeos.Base.{
  ℕ, zero, suc, ◌+◌, ◌/◌, ◌%◌, ◌≤◌, ◌<◌, ◌≡◌, refl, arith, Bool, true, false, not, some, List, [],
  ◌∷◌, ◌++◌, Result, ok, ◌==◌, if◌then◌else◌, length, u8, ◌∙◌, ap, sym, inl, inr, Bool-cases, subst,
  length-append,
}
use mathlib.Core.List.{append_assoc, append-nil}
use treeos.Serio.{
  Serial, ioport_outb, serio_data_incoming, serio_data_outgoing, serio_readchar, serio_writechar,
  write_all, serio_puts,
}

-- The transmitter is empty at read `k`, and a byte has come in by read `k`.
abbrev pub can_send : (ℕ → ℕ → ℕ) → (com_port k : ℕ) → Bool
can_send inb com_port k = not (inb k (com_port + 5) / 0x20 % 2 == 0)

abbrev pub has_byte : (ℕ → ℕ → ℕ) → (com_port k : ℕ) → Bool
has_byte inb com_port k = not (inb k (com_port + 5) % 2 == 0)

-- From every read on, one of the next `fuel` reads finds the transmitter empty.
abbrev pub Sends : (ℕ → ℕ → ℕ) → (fuel com_port : ℕ) → Type 0
Sends inb fuel com_port = (k : ℕ) → (n : ℕ) × (n < fuel) × (can_send inb com_port (k + n) ≡ true)

-- Bytes as the log has them.
abbrev pub sent : ℕ → List ℕ → List (ℕ × ℕ)
sent com_port [] = []
sent com_port (c ∷ cs) = (com_port, u8 c) ∷ sent com_port cs

-- The kernel wrote `bytes` to the port and nothing else.
pub record Wrote (com_port : ℕ) (bytes : List ℕ) (s : Serial) (result : Result Serial)
    : Type 0 where
  pub after : Serial
  pub returns : result ≡ ok after
  pub wrote : after.ports ≡ s.ports ++ sent com_port bytes

module _ (inb : ℕ → ℕ → ℕ) (com_port : ℕ) where
  -- Once the transmitter is empty the byte is written, once.
  pub serio_writechar_lem :
      (fuel c n : ℕ) (s : Serial)
      → n < fuel
      → can_send inb com_port (s.reads + n) ≡ true
      → Wrote com_port (c ∷ []) s (serio_writechar inb fuel com_port c s)
  unfolding serio_writechar serio_data_outgoing
  serio_writechar_lem zero c n s small ready = absurd (omega arith)
  serio_writechar_lem (suc fuel) c zero s small ready =
      let here : s.reads + 0 ≡ s.reads = omega arith in
      now (subst (λ (k : ℕ). can_send inb com_port k ≡ true) here ready)
    where
      now :
          can_send inb com_port s.reads ≡ true
          → Wrote com_port (c ∷ []) s (serio_writechar inb (suc fuel) com_port c s)
      now free = record {
        after = ioport_outb com_port c (record s { reads = s.reads + 1 });
        returns = rw (free_now free) refl;
        wrote = refl;
      }
        where
          free_now :
              can_send inb com_port s.reads ≡ true
              → (inb s.reads (com_port + 5) / 0x20 % 2 == 0) ≡ false
          free_now h = ground arith
  serio_writechar_lem (suc fuel) c (suc n) s small ready =
      let there : s.reads + suc n ≡ s.reads + 1 + n = omega arith in
      let rest =
        serio_writechar_lem fuel c n (record s { reads = s.reads + 1 }) (omega arith)
          (subst (λ (k : ℕ). can_send inb com_port k ≡ true) there ready) in
      elim (Bool-cases (inb s.reads (com_port + 5) / 0x20 % 2 == 0)) [
        | inr free ↦ record {
          after = ioport_outb com_port c (record s { reads = s.reads + 1 });
          returns = rw free refl;
          wrote = refl;
        }
        | inl busy ↦ record {
          after = rest.after;
          returns = rw busy rest.returns;
          wrote = rest.wrote;
        }
      ]

  write_all_lem :
      (fuel : ℕ) (cs : List ℕ) (s : Serial)
      → Sends inb fuel com_port
      → Wrote com_port cs s (write_all inb fuel com_port cs s)
  unfolding write_all
  write_all_lem fuel [] s sends = record {
    after = s;
    returns = refl;
    wrote = sym (append-nil s.ports);
  }
  write_all_lem fuel (c ∷ cs) s sends =
      let (n, small, ready) = sends s.reads in
      let first = serio_writechar_lem fuel c n s small ready in
      let rest = write_all_lem fuel cs first.after sends in
      record {
        after = rest.after;
        returns = rw first.returns rest.returns;
        wrote =
            rest.wrote
            ∙ ap (λ (l : List (ℕ × ℕ)). l ++ sent com_port cs) first.wrote
            ∙ append_assoc s.ports ((com_port, u8 c) ∷ []) (sent com_port cs);
      }

  sent-append : (xs ys : List ℕ) → sent com_port (xs ++ ys) ≡ sent com_port xs ++ sent com_port ys
  sent-append [] ys = refl
  sent-append (x ∷ xs) ys = ap (λ (l : List (ℕ × ℕ)). (com_port, u8 x) ∷ l) (sent-append xs ys)

  -- The string as it is sent.
  abbrev pub line : List ℕ → Bool → List ℕ
  line str newline = str ++ (if newline then 13 ∷ 10 ∷ [] else [])

  -- While the device lets every wait end within the fuel, `serio_puts` returns the number of characters,
  -- and what it writes is the string, in order, and a carriage return and newline if it is asked for.
  pub serio_puts_lem :
      (fuel : ℕ) (str : List ℕ) (newline : Bool) (s : Serial)
      → Sends inb fuel com_port
      → (t : Serial) × (serio_puts inb fuel com_port (some str) newline s
          ≡ ok (length (line str newline), t))
        × (t.ports ≡ s.ports ++ sent com_port (line str newline))
  unfolding serio_puts
  serio_puts_lem fuel str true s sends =
      let first = write_all_lem fuel str s sends in
      let last = write_all_lem fuel (13 ∷ 10 ∷ []) first.after sends in
      let wrote =
        last.wrote
        ∙ ap (λ (l : List (ℕ × ℕ)). l ++ sent com_port (13 ∷ 10 ∷ [])) first.wrote
        ∙ append_assoc s.ports (sent com_port str) (sent com_port (13 ∷ 10 ∷ [])) in
      let count : length str + 2 ≡ length (str ++ 13 ∷ 10 ∷ []) =
        omega (arith, length-append str (13 ∷ 10 ∷ [])) in
      (
        last.after,
        rw (first.returns, last.returns, count) refl,
        wrote ∙ ap (λ (l : List (ℕ × ℕ)). s.ports ++ l) (sym (sent-append str (13 ∷ 10 ∷ []))),
      )
  serio_puts_lem fuel str false s sends =
      let first = write_all_lem fuel str s sends in
      let same : str ++ [] ≡ str = append-nil str in
      let count : length str + 0 ≡ length str = omega arith in
      (first.after, rw (first.returns, same, count) refl, rw same first.wrote)

  -- Once a byte has come in, `serio_readchar` returns what the read after the one that found it gives,
  -- and writes nothing.
  pub serio_readchar_lem :
      (fuel n : ℕ) (s : Serial)
      → n < fuel
      → has_byte inb com_port (s.reads + n) ≡ true
      → (m : ℕ) × (has_byte inb com_port m ≡ true)
        × (m ≤ s.reads + n)
        × (serio_readchar inb fuel com_port s
            ≡ ok (inb (m + 1) com_port, record s { reads = m + 1 + 1 }))
  unfolding serio_readchar serio_data_incoming
  serio_readchar_lem zero n s small ready = absurd (omega arith)
  serio_readchar_lem (suc fuel) zero s small ready =
      let here : s.reads + 0 ≡ s.reads = omega arith in
      let now = subst (λ (k : ℕ). has_byte inb com_port k ≡ true) here ready in
      (s.reads, now, omega arith, rw now refl)
  serio_readchar_lem (suc fuel) (suc n) s small ready =
      let there : s.reads + suc n ≡ s.reads + 1 + n = omega arith in
      let (m, found, before, returns) =
        serio_readchar_lem fuel n (record s { reads = s.reads + 1 }) (omega arith)
          (subst (λ (k : ℕ). has_byte inb com_port k ≡ true) there ready) in
      elim (Bool-cases (has_byte inb com_port s.reads)) [
        | inl now ↦ (s.reads, now, omega arith, rw now refl)
        | inr later ↦ (m, found, omega arith, rw later returns)
      ]
