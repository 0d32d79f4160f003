-- ===== src/Panic.antt =====
-- kernel/kernel/panic.c, kernel/arch/i386/reboot.c and kernel/arch/i386/proc/thread.c: how the kernel
-- reports a failure and stops. The state is that of the serial port and of the console; a function that
-- does not return ends in the state in which the machine stops. `dump` is `liballoc_dump`.
pub mod Registers
pub mod Report
mod Examples
use treeos.Base.{
  ℕ, zero, suc, ◌^◌, true, false, some, List, [], ◌∷◌, ◌++◌, Result, ok, fault, ◌>>=◌,
  if◌then◌else◌, ltb, length, map, take, bytes_of,
}
use treeos.Interrupt.{Interrupts}
use treeos.Tty.{Tty, tty_puts_color}
use treeos.Format.{Arg, word, text}
use treeos.Serio.{Serial, serio_com1, serio_puts, c_string}
use treeos.Stdio.{sprintf}

abbrev pub max_panic_buf : ℕ
max_panic_buf = 512

abbrev pub tty_color_panic : ℕ
tty_color_panic = 0x4f

abbrev pub tty_color_worry : ℕ
tty_color_worry = 0xe8

-- `struct thread_context`.
pub record ThreadContext : Type 0 where
  pub gs : ℕ
  pub fs : ℕ
  pub es : ℕ
  pub ds : ℕ
  pub edi : ℕ
  pub esi : ℕ
  pub ebp : ℕ
  pub esp : ℕ
  pub ebx : ℕ
  pub edx : ℕ
  pub ecx : ℕ
  pub eax : ℕ
  pub int_num : ℕ
  pub error_code : ℕ
  pub eip : ℕ
  pub cs : ℕ
  pub eflags : ℕ
  pub user_esp : ℕ
  pub user_ss : ℕ

-- `pos += sprintf (buf + pos, ...)`, where `buf` holds the `pos` characters so far.
unfoldable pub append_line : (format ws : List ℕ) → (buf : List ℕ) → Result (List ℕ)
append_line format ws buf = sprintf format (map word ws) >>= λ (n, out). ok (buf ++ take n out)

unfoldable pub strcat_registers : (buf : List ℕ) → ThreadContext → Result (List ℕ)
strcat_registers buf c = do
  buf ←
      append_line (bytes_of "  eax=%x ebx=%x ecx=%x edx=%x\n") (c.eax ∷ c.ebx ∷ c.ecx ∷ c.edx ∷ [])
        buf
  buf ← append_line (bytes_of "  ebp=%x esi=%x edi=%x\n") (c.ebp ∷ c.esi ∷ c.edi ∷ []) buf
  buf ← append_line (bytes_of "  ds=%x es=%x fs=%x gs=%x\n") (c.ds ∷ c.es ∷ c.fs ∷ c.gs ∷ []) buf
  buf ← append_line (bytes_of "  cs:eip=%x:%x\n") (c.cs ∷ c.eip ∷ []) buf
  buf ← append_line (bytes_of "  ss:esp=%x:%x\n") (c.user_ss ∷ c.esp ∷ []) buf
  buf ← append_line (bytes_of "  eflags=%x\n") (c.eflags ∷ []) buf
  append_line (bytes_of "  int=%d err=%x\n") (c.int_num ∷ c.error_code ∷ []) buf

-- The serial port, and the console with the interrupts' state.
abbrev pub Outputs : Type 0
Outputs = Serial × (Interrupts × Tty)

-- `msg_buf` as `sprintf` fills it from a format with the file, the line and the message.
unfoldable pub heading : (format file : List ℕ) (line : ℕ) (msg : List ℕ) → Result (List ℕ)
heading format file line msg =
    sprintf format (text file ∷ word line ∷ text msg ∷ []) >>= λ (n, out). ok (c_string out)

-- The message on the serial port and on the screen. A longer one was written past its buffer.
unfoldable pub report :
    (inb : ℕ → ℕ → ℕ) (fuel : ℕ) (msg_buf : List ℕ) (color : ℕ) → Outputs → Result Outputs
report inb fuel msg_buf color (serial, k) =
    if ltb (length msg_buf) max_panic_buf
    then (do
      (n, serial) ← serio_puts inb fuel serio_com1 (some msg_buf) true serial
      (n, k) ← tty_puts_color (some msg_buf) color true k
      ok (serial, k))
    else fault

module _ (dump : Interrupts × Tty → Result (Interrupts × Tty)) where
  -- `halt` up to the instruction that stops the processor.
  unfoldable pub halt : Outputs → Result Outputs
  halt (serial, k) = do
    (n, k) ← tty_puts_color (some (bytes_of "halted")) tty_color_panic false k
    k ← dump k
    ok (serial, k)

  module _ (inb : ℕ → ℕ → ℕ) (fuel : ℕ) (file : List ℕ) (line : ℕ) (msg : List ℕ) where
    unfoldable pub panic : Outputs → Result Outputs
    panic s = do
      msg_buf ← heading (bytes_of "panic (%s:%d): %s") file line msg
      s ← report inb fuel msg_buf tty_color_panic s
      halt s

    unfoldable pub panic_r : ThreadContext → Outputs → Result Outputs
    panic_r context s = do
      msg_buf ← heading (bytes_of "panic (%s:%d): %s\n") file line msg
      msg_buf ← strcat_registers msg_buf context
      s ← report inb fuel msg_buf tty_color_panic s
      halt s

module _ (inb : ℕ → ℕ → ℕ) (fuel : ℕ) (file : List ℕ) (line : ℕ) (msg : List ℕ) where
  unfoldable pub worry : Outputs → Result Outputs
  worry s = do
    msg_buf ← heading (bytes_of "worry (%s:%d): %s\n") file line msg
    report inb fuel msg_buf tty_color_worry s

-- `reboot` up to the interrupt that resets the machine: the IDT that it loads is empty.
unfoldable pub reboot : Outputs → Result Outputs
reboot (serial, k) = do
  (n, k) ← tty_puts_color (some (bytes_of "rebooting")) tty_color_panic false k
  ok (serial, k)
