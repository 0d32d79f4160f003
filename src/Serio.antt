-- ===== src/Serio.antt =====
-- kernel/arch/i386/serio.c: the serial port. What a port gives when it is read is up to the device:
-- `inb k port` is what read number `k` finds there. Writes are a log. The loops that wait for the
-- device take fuel for each wait and fault without it.
pub mod Wait
mod Examples
use treeos.Base.{
  ℕ, zero, suc, ◌+◌, ◌*◌, ◌/◌, ◌%◌, ◌^◌, Bool, true, false, not, Option, none, some, List, [], ◌∷◌,
  ◌++◌, Result, ok, fault, ◌>>=◌, ◌==◌, if◌then◌else◌, length, u8, bytes_of,
}
use treeos.Format.{Arg, text, vsprintf}

abbrev pub serio_com1 : ℕ
serio_com1 = 0x3f8

abbrev pub serio_com2 : ℕ
serio_com2 = 0x2f8

abbrev pub serio_com3 : ℕ
serio_com3 = 0x3e8

abbrev pub serio_com4 : ℕ
serio_com4 = 0x2e8

-- How many reads there were, and what was written (port and byte, oldest first).
pub record Serial : Type 0 where
  pub reads : ℕ
  pub ports : List (ℕ × ℕ)

abbrev pub ioport_outb : ℕ → ℕ → Serial → Serial
ioport_outb port value s = record s { ports = s.ports ++ (port, u8 value) ∷ [] }

-- The bytes of a string before its zero byte.
unfoldable pub c_string : List ℕ → List ℕ
c_string [] = []
c_string (c ∷ cs) = if c == 0 then [] else c ∷ c_string cs

module _ (inb : (k port : ℕ) → ℕ) where
  abbrev pub ioport_inb : ℕ → Serial → ℕ × Serial
  ioport_inb port s = (inb s.reads port, record s { reads = s.reads + 1 })

  unfoldable pub serio_data_incoming : ℕ → Serial → Bool × Serial
  serio_data_incoming com_port s = let (v, s) = ioport_inb (com_port + 5) s in (not (v % 2 == 0), s)

  -- True while the transmitter is not empty.
  unfoldable pub serio_data_outgoing : ℕ → Serial → Bool × Serial
  serio_data_outgoing com_port s =
      let (v, s) = ioport_inb (com_port + 5) s in (v / 0x20 % 2 == 0, s)

  unfoldable pub serio_readchar : (fuel com_port : ℕ) → Serial → Result (ℕ × Serial)
  serio_readchar zero com_port s = fault
  serio_readchar (suc fuel) com_port s =
      let (incoming, s) = serio_data_incoming com_port s in
      let again = serio_readchar fuel com_port s in
      if incoming then ok (ioport_inb com_port s) else again

  unfoldable pub serio_writechar : (fuel com_port c : ℕ) → Serial → Result Serial
  serio_writechar zero com_port c s = fault
  serio_writechar (suc fuel) com_port c s =
      let (outgoing, s) = serio_data_outgoing com_port s in
      let again = serio_writechar fuel com_port c s in
      if outgoing then again else ok (ioport_outb com_port c s)

  -- The loop of `serio_puts`.
  unfoldable pub write_all : (fuel com_port : ℕ) → List ℕ → Serial → Result Serial
  write_all fuel com_port [] s = ok s
  write_all fuel com_port (c ∷ cs) s = do
    s ← serio_writechar fuel com_port c s
    write_all fuel com_port cs s

  -- A null pointer is read after the warning that it is null.
  unfoldable pub serio_puts :
      (fuel com_port : ℕ) → Option (List ℕ) → Bool → Serial → Result (ℕ × Serial)
  serio_puts fuel com_port none newline s = fault
  serio_puts fuel com_port (some str) newline s = do
    s ← write_all fuel com_port str s
    s ← (if newline then write_all fuel com_port (13 ∷ 10 ∷ []) s else ok s)
    ok (length str + (if newline then 2 else 0), s)

  -- The switch of `serio_init`.
  unfoldable pub port_str : ℕ → List ℕ
  port_str com_port =
      if com_port == serio_com1
      then bytes_of "COM1"
      else if com_port == serio_com2
      then bytes_of "COM2"
      else if com_port == serio_com3
      then bytes_of "COM3"
      else if com_port == serio_com4
      then bytes_of "COM4"
      else bytes_of "COM?"

  unfoldable pub serio_init : (fuel com_port : ℕ) → Serial → Result Serial
  serio_init fuel com_port s = do
    let s : Serial = record s {
      ports =
          s.ports
          ++ (com_port + 1, 0x0)
            ∷ (com_port + 3, 0x80)
            ∷ (com_port + 0, 0x3)
            ∷ (com_port + 1, 0x0)
            ∷ (com_port + 3, 0x3)
            ∷ (com_port + 2, 0xc7)
            ∷ (com_port + 4, 0xb)
            ∷ [];
    }
    (n, msg_buf) ← vsprintf (bytes_of "serial port %s initialized") (text (port_str com_port) ∷ [])
    (count, s) ← serio_puts fuel com_port (some (c_string msg_buf)) true s
    ok s
