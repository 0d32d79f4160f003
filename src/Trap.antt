-- ===== src/Trap.antt =====
-- What the handlers of exceptions and of the system call do: `unexpected_int_handler` and
-- `syscall_int_handler` of kernel/arch/i386/interrupt.c and `page_fault_int_handler` of
-- kernel/arch/i386/pmm/pmm.c.
pub mod Exceptions
pub mod Syscall
mod Examples
use treeos.Base.{
  ℕ, Option, some, List, [], ◌∷◌, true, Result, ok, or_fault, ◌>>=◌, ◌==◌, if◌then◌else◌, leb, ltb,
  get_elem?, bytes_of,
}
use treeos.Interrupt.{Interrupts}
use treeos.Tty.{Tty, tty_puts}
use treeos.Format.{Arg, word, text}
use treeos.Serio.{c_string}
use treeos.Stdio.{sprintf, printf}
use treeos.Panic.{ThreadContext, Outputs, panic_r}

unfoldable pub error_msg : List (List ℕ)
unfolding bytes_of
error_msg =
    bytes_of "divide by zero"
    ∷ bytes_of "debugger (this shouldn't EVER be fired)"
    ∷ bytes_of "non-maskable interrupt"
    ∷ bytes_of "breakpoint"
    ∷ bytes_of "overflow"
    ∷ bytes_of "range exceeded for BOUND instruction"
    ∷ bytes_of "invalid/undefined opcode"
    ∷ bytes_of "device not available (no math coprocessor?)"
    ∷ bytes_of "double fault"
    ∷ bytes_of "coprocessor segment overflow (this shouldn't EVER be fired)"
    ∷ bytes_of "invalid TSS"
    ∷ bytes_of "segment not present"
    ∷ bytes_of "stack-segment fault"
    ∷ bytes_of "general protection fault"
    ∷ bytes_of "page fault"
    ∷ bytes_of "Intel reserved (this shouldn't EVER be fired)"
    ∷ bytes_of "x87 FPU floating-point error"
    ∷ bytes_of "alignment check fault"
    ∷ bytes_of "machine check fault"
    ∷ bytes_of "SIMD floating-point exception"
    ∷ bytes_of "virtualization/EPT exception"
    ∷ []

-- `sprintf (msg_buf, "unhandled interrupt %d: %s", int_num, error_msg[i]);`
unfoldable pub named_message : (int_num i : ℕ) → Result (List ℕ)
named_message int_num i = do
  name ← or_fault (get_elem? error_msg i)
  (n, out) ← sprintf (bytes_of "unhandled interrupt %d: %s") (word int_num ∷ text name ∷ [])
  ok (c_string out)

unfoldable pub unexpected_message : (int_num : ℕ) → Result (List ℕ)
unfolding named_message
unexpected_message int_num =
    if leb int_num 20
    then named_message int_num int_num
    else if ltb int_num 32
    then named_message int_num 15
    else (sprintf (bytes_of "unhandled interrupt %d") (word int_num ∷ []) >>= λ (n, out).
        ok (c_string out))

-- `file` and `line` are where the handler calls `panic_r`, and `dump` is `liballoc_dump`.
module _ (dump : Interrupts × Tty → Result (Interrupts × Tty)) (inb : ℕ → ℕ → ℕ) (fuel : ℕ)
    (file : List ℕ) (line : ℕ) where
  unfoldable pub unexpected_interrupt : ThreadContext → Outputs → Result Outputs
  unexpected_interrupt context s = do
    msg_buf ← unexpected_message context.int_num
    panic_r dump inb fuel file line msg_buf context s

  -- `cr2` is what `read_cr2` gives.
  unfoldable pub page_fault_interrupt : (cr2 : ℕ) → ThreadContext → Outputs → Result Outputs
  page_fault_interrupt cr2 context s = do
    (n, out) ← sprintf (bytes_of "page fault at address %p") (word cr2 ∷ [])
    panic_r dump inb fuel file line (c_string out) context s

-- `string_at` is the string behind a pointer. Only system call 1 does anything.
unfoldable pub syscall_interrupt :
    (string_at : ℕ → Option (List ℕ)) → ThreadContext → Interrupts × Tty → Result (Interrupts × Tty)
syscall_interrupt string_at context k = do
  (n, k) ← printf (bytes_of "\nreceived syscall %d\n") (word context.eax ∷ []) k
  if context.eax == 1 then (tty_puts (string_at context.ecx) true k >>= λ (n, k). ok k) else ok k
