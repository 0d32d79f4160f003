-- ===== src/Stdio.antt =====
-- klibc/stdio: printf.c, vprintf.c, puts.c, putchar.c and sprintf.c, over the formatting of Format and
-- the console of Tty. The arguments of the variable part are a list.
pub mod Print
mod Examples
use treeos.Base.{
  ℕ, true, false, Option, some, List, Result, ok, fault, ◌>>=◌, if◌then◌else◌, ltb, length,
}
use treeos.Interrupt.{Interrupts}
use treeos.Tty.{Tty, tty_puts, tty_putchar}
use treeos.Format.{Arg, vsprintf}
use treeos.Serio.{c_string}

-- `BUF_LEN` of vprintf.c.
abbrev pub buf_len : ℕ
buf_len = 512

-- `sprintf` passes its arguments on to `vsprintf`, which writes to `str`.
abbrev pub sprintf : List ℕ → List Arg → Result (ℕ × List ℕ)
sprintf format args = vsprintf format args

-- A text that is longer than the buffer is written past its end.
unfoldable pub vprintf : List ℕ → List Arg → Interrupts × Tty → Result (ℕ × (Interrupts × Tty))
vprintf format args k = do
  (n, buf) ← vsprintf format args
  if ltb buf_len (length buf) then fault else tty_puts (some (c_string buf)) false k

unfoldable pub printf : List ℕ → List Arg → Interrupts × Tty → Result (ℕ × (Interrupts × Tty))
printf format args k = vprintf format args k

unfoldable pub puts : Option (List ℕ) → Interrupts × Tty → Result (ℕ × (Interrupts × Tty))
puts str k = tty_puts str true k

unfoldable pub putchar : ℕ → Interrupts × Tty → Result (ℕ × (Interrupts × Tty))
putchar ic k = tty_putchar ic k
