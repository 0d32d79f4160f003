-- ===== src/Serio/Examples.antt =====
-- A serial port whose transmitter is empty at every other read, and the theorems there.
use treeos.Base.{
  ℕ, ◌+◌, ◌%◌, ◌≡◌, refl, arith, true, some, List, [], ◌∷◌, ◌++◌, ok, ◌>>=◌, ◌==◌, if◌then◌else◌,
  bytes_of, length, ◌⊎◌, inl, inr, Bool-cases,
}
use treeos.Format.{vsprintf, formatted, convert}
use treeos.Serio.{
  Serial, serio_com1, serio_puts, serio_readchar, serio_writechar, serio_data_incoming,
  serio_data_outgoing, write_all, serio_init, c_string, port_str,
}
use treeos.Serio.Wait.{can_send, Sends, sent, line, serio_puts_lem}

-- A byte has come in at read 3; it is an "A".
abbrev device : ℕ → ℕ → ℕ
device k port =
    if port == 0x3fd then (if k % 2 == 0 then 0x20 else 0) + (if k == 3 then 1 else 0) else 65

abbrev start : Serial
start = record { reads = 1; ports = [] }

hello :
    serio_puts device 2 serio_com1 (some (bytes_of "Hi")) true start
    ≡ ok (
      4,
      record { reads = 9; ports = (0x3f8, 72) ∷ (0x3f8, 105) ∷ (0x3f8, 13) ∷ (0x3f8, 10) ∷ [] },
    )
unfolding serio_puts serio_writechar serio_data_outgoing write_all bytes_of
hello = refl

hears : serio_readchar device 3 serio_com1 start ≡ ok (65, record { reads = 5; ports = [] })
unfolding serio_readchar serio_data_incoming
hears = refl

sent_bytes : List (ℕ × ℕ) → List ℕ
sent_bytes [] = []
sent_bytes ((port, value) ∷ rest) =
    let bytes = sent_bytes rest in if port == 0x3f8 then value ∷ bytes else bytes

announces :
    (serio_init device 2 serio_com1 start >>= λ s. ok (sent_bytes s.ports))
    ≡ ok (3 ∷ bytes_of "serial port COM1 initialized" ++ 13 ∷ 10 ∷ [])
unfolding serio_init serio_puts serio_writechar serio_data_outgoing write_all bytes_of vsprintf
    formatted convert sent_bytes c_string port_str
announces = refl

Even-cases : (k : ℕ) → (k % 2 ≡ 0) ⊎ (k % 2 ≡ 1)
Even-cases k = elim (Bool-cases (k % 2 == 0)) [
  | inl e ↦ inl (ground arith)
  | inr e ↦ inr (ground arith)
]

even : (k : ℕ) → k % 2 ≡ 0 → can_send device serio_com1 k ≡ true
even k e = ground arith

device-Sends : Sends device 2 serio_com1
device-Sends k = elim (Even-cases k) [
  | inl e ↦ (0, omega arith, even (k + 0) (omega arith))
  | inr o ↦ (1, omega arith, even (k + 1) (omega arith))
]

serio_puts_lem_example :
    (t : Serial) × (serio_puts device 2 serio_com1 (some (72 ∷ 105 ∷ [])) true start
      ≡ ok (length (line device serio_com1 (72 ∷ 105 ∷ []) true), t))
    × (t.ports ≡ [] ++ sent serio_com1 (72 ∷ 105 ∷ 13 ∷ 10 ∷ []))
serio_puts_lem_example = serio_puts_lem device serio_com1 2 (72 ∷ 105 ∷ []) true start device-Sends
