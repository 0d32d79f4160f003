-- ===== src/Panic/Report.antt =====
-- What a panic and a warning leave on the serial port and on the screen.
use treeos.Base.{
  ℕ, ◌+◌, ◌^◌, ◌≤◌, ◌<◌, ◌≡◌, refl, arith, true, false, List, [], ◌∷◌, ◌++◌, Result, ok, ◌>>=◌,
  lt→ltb, length, length-append, bytes_of,
}
use treeos.Interrupt.{Interrupts}
use treeos.Interrupt.Mask.{InSync}
use treeos.Tty.{Tty}
use treeos.Tty.Rows.{OnScreen}
use treeos.Tty.Text.{Prints, done, next, ints, tty_puts_color_lem}
use treeos.Format.{ltoa, convert, formatted, vsprintf}
use treeos.Format.Length.{length-ltoa}
use treeos.Serio.{Serial, serio_com1, c_string}
use treeos.Serio.Wait.{Sends, sent, serio_puts_lem}
use treeos.Panic.{ThreadContext, Outputs, heading, report, halt, panic, panic_r, worry}
use treeos.Panic.Registers.{IsContext, strcat_registers_bound}

-- `(file:line): msg`, with what comes before and behind it.
abbrev pub located : (before file : List ℕ) (at : ℕ) (msg behind : List ℕ) → List ℕ
located before file at msg behind =
    before ++ (40 ∷ (file ++ (58 ∷ (ltoa at ++ (41 ∷ 58 ∷ 32 ∷ (msg ++ behind))))))

-- "panic " and "worry ".
abbrev pub panic_word : List ℕ
panic_word = 112 ∷ 97 ∷ 110 ∷ 105 ∷ 99 ∷ 32 ∷ []

abbrev pub worry_word : List ℕ
worry_word = 119 ∷ 111 ∷ 114 ∷ 114 ∷ 121 ∷ 32 ∷ []

-- The part of a buffer before its zero byte.
abbrev pub shown : List ℕ → List ℕ
shown out = c_string (out ++ 0 ∷ [])

pub shown-le : (out : List ℕ) → length (shown out) ≤ length out
unfolding c_string
shown-le [] = omega arith
shown-le (c ∷ out) = ground (arith, shown-le out)

module _ (file : List ℕ) (at : ℕ) (msg : List ℕ) where
  heading-panic :
      heading (bytes_of "panic (%s:%d): %s") file at msg
      ≡ ok (shown (located panic_word file at msg []))
  unfolding heading bytes_of vsprintf formatted convert
  heading-panic = refl

  heading-panic_line :
      heading (bytes_of "panic (%s:%d): %s\n") file at msg
      ≡ ok (shown (located panic_word file at msg (10 ∷ [])))
  unfolding heading bytes_of vsprintf formatted convert
  heading-panic_line = refl

  heading-worry_line :
      heading (bytes_of "worry (%s:%d): %s\n") file at msg
      ≡ ok (shown (located worry_word file at msg (10 ∷ [])))
  unfolding heading bytes_of vsprintf formatted convert
  heading-worry_line = refl

  -- Up to 24 bytes beside the file and the message.
  length-located :
      (before behind : List ℕ)
      → at < 2 ^ 32
      → length before ≡ 6
      → length behind ≤ 1
      → length (shown (located before file at msg behind)) ≤ length file + length msg + 23
  length-located before behind small six one = omega (
    arith,
    shown-le (located before file at msg behind),
    length-append before (40 ∷ (file ++ (58 ∷ (ltoa at ++ (41 ∷ 58 ∷ 32 ∷ (msg ++ behind)))))),
    length-append file (58 ∷ (ltoa at ++ (41 ∷ 58 ∷ 32 ∷ (msg ++ behind)))),
    length-append (ltoa at) (41 ∷ 58 ∷ 32 ∷ (msg ++ behind)),
    length-append msg behind,
    length-ltoa at small,
  )

pub Prints-OnScreen :
    {color : ℕ} {s t : Tty} {cs : List ℕ} → Prints color s cs t → OnScreen s → OnScreen t
Prints-OnScreen done on = on
Prints-OnScreen (next t shows rest) on = Prints-OnScreen rest shows.settles.on_screen

-- The text went to the serial port and to the screen, each with its newline.
pub record Reported (shown_text : List ℕ) (color : ℕ) (serial : Serial) (i : Interrupts) (s : Tty)
    (result : Result Outputs) : Type 0 where
  pub port : Serial
  pub after : Interrupts
  pub screen : Tty
  pub returns : result ≡ ok (port, (after, screen))
  pub sends : port.ports ≡ serial.ports ++ sent serio_com1 (shown_text ++ 13 ∷ 10 ∷ [])
  pub prints : Prints color s (ints shown_text true) screen
  pub sync : InSync after
  pub same : record after { ports = i.ports } ≡ i

-- The text was reported, "halted" was printed behind it, and the machine stopped after the
-- allocator's own output.
pub record Stops (dump : Interrupts × Tty → Result (Interrupts × Tty)) (shown_text : List ℕ)
    (serial : Serial) (i : Interrupts) (s : Tty) (result : Result Outputs) : Type 0 where
  pub reported : Result Outputs
  pub first : Reported shown_text 0x4f serial i s reported
  pub after : Interrupts
  pub screen : Tty
  pub stops : result ≡ (dump (after, screen) >>= λ k. ok (first.port, k))
  pub halted : Prints 0x4f first.screen (104 ∷ 97 ∷ 108 ∷ 116 ∷ 101 ∷ 100 ∷ []) screen

module _ (inb : ℕ → ℕ → ℕ) (fuel : ℕ) (ready : Sends inb fuel serio_com1) (serial : Serial)
    {i : Interrupts} (sync : InSync i) {s : Tty} (on : OnScreen s) where
  report_lem :
      (buf : List ℕ) (color : ℕ)
      → length buf < 512
      → Reported buf color serial i s (report inb fuel buf color (serial, (i, s)))
  unfolding report
  report_lem buf color short =
      let (port, sends, ports) = serio_puts_lem inb serio_com1 fuel buf true serial ready in
      let (screen, r, prints) = tty_puts_color_lem buf color true s sync on in
      record {
        port = port;
        after = r.after;
        screen = screen;
        returns = rw (lt→ltb (length buf) 512 short, sends, r.returns) refl;
        sends = ports;
        prints = prints;
        sync = r.sync;
        same = r.same;
      }

  -- A warning whose file and message have at most 480 bytes goes to the serial port and, in its own
  -- colour, to the screen, and the kernel goes on.
  pub worry_lem :
      (file : List ℕ) (at : ℕ) (msg : List ℕ)
      → at < 2 ^ 32
      → length file + length msg ≤ 480
      → Reported
          (shown (located worry_word file at msg (10 ∷ [])))
          0xe8
          serial
          i
          s
          (worry inb fuel file at msg (serial, (i, s)))
  unfolding worry
  worry_lem file at msg small short = rw (heading-worry_line file at msg) (
      report_lem (shown (located worry_word file at msg (10 ∷ []))) 0xe8
        (omega (arith, length-located file at msg worry_word (10 ∷ []) small refl (omega arith))))

  module _ (dump : Interrupts × Tty → Result (Interrupts × Tty)) where
    halts :
        {buf : List ℕ}
        → length buf < 512
        → Stops dump buf serial i s (report inb fuel buf 0x4f (serial, (i, s)) >>= halt dump)
    unfolding halt bytes_of
    halts {buf} short =
        let first = report_lem buf 0x4f short in
        let (screen, r, prints) =
          tty_puts_color_lem (104 ∷ 97 ∷ 108 ∷ 116 ∷ 101 ∷ 100 ∷ []) 0x4f false first.screen
            first.sync (Prints-OnScreen first.prints on) in
        record {
          reported = report inb fuel buf 0x4f (serial, (i, s));
          first = first;
          after = r.after;
          screen = screen;
          stops = rw (first.returns, r.returns) refl;
          halted = prints;
        }

    module _ (file : List ℕ) (at : ℕ) (msg : List ℕ) (small : at < 2 ^ 32) where
      -- A panic whose file and message have at most 480 bytes reports them on the serial port and on
      -- the screen, prints "halted" and stops.
      pub panic_lem :
          length file + length msg ≤ 480
          → Stops dump
              (shown (located panic_word file at msg []))
              serial
              i
              s
              (panic dump inb fuel file at msg (serial, (i, s)))
      unfolding panic
      panic_lem short =
          rw (heading-panic file at msg) (
            halts
              (omega (arith, length-located file at msg panic_word [] small refl (omega arith))))

      -- A panic with the registers does the same when the file and the message have at most 180 bytes:
      -- then the message and the registers fit the buffer of 512 bytes.
      pub panic_r_lem :
          (c : ThreadContext)
          → IsContext c
          → length file + length msg ≤ 180
          → (registers : List ℕ) × (length registers ≤ 299)
            × Stops dump
                (shown (located panic_word file at msg (10 ∷ [])) ++ registers)
                serial
                i
                s
                (panic_r dump inb fuel file at msg c (serial, (i, s)))
      unfolding panic_r
      panic_r_lem c context short =
          let buf = shown (located panic_word file at msg (10 ∷ [])) in
          let e = strcat_registers_bound buf c context in
          (
            e.more,
            e.short,
            rw (heading-panic_line file at msg, e.returns)
                (halts (
                  omega (
                    arith,
                    e.short,
                    length-append buf e.more,
                    length-located file at msg panic_word (10 ∷ []) small refl (omega arith),
                  ))),
          )
