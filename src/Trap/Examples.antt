-- ===== src/Trap/Examples.antt =====
-- Exceptions and system calls, and the theorems there.
use treeos.Base.{
  ℕ, ◌≡◌, refl, arith, Option, none, some, List, [], ◌∷◌, ok, ◌==◌, if◌then◌else◌, bytes_of,
}
use treeos.Format.{vsprintf, formatted, convert, ultoa, ltoa, low_digits, swaps, swap}
use treeos.Serio.{c_string}
use treeos.Fixtures.{
  running, running-InSync, empty, idle, idle-Sends, port, context, context-IsContext,
}
use treeos.Panic.{ThreadContext}
use treeos.Trap.{error_msg, unexpected_message, unexpected_interrupt, syscall_interrupt}
use treeos.Trap.Exceptions.{Panics, unexpected_interrupt_lem}
use treeos.Trap.Syscall.{Serves, syscall_interrupt_lem}

divides : unexpected_message 0 ≡ ok (bytes_of "unhandled interrupt 0: divide by zero")
unfolding unexpected_message error_msg bytes_of vsprintf formatted convert ltoa ultoa low_digits
    swaps swap c_string
divides = refl

-- Number 31 is reserved.
reserved :
    unexpected_message 31
    ≡ ok (bytes_of "unhandled interrupt 31: Intel reserved (this shouldn't EVER be fired)")
unfolding unexpected_message error_msg bytes_of vsprintf formatted convert ltoa ultoa low_digits
    swaps swap c_string
reserved = refl

-- A file "a.c".
abbrev file : List ℕ
file = 97 ∷ 46 ∷ 99 ∷ []

unexpected_interrupt_lem_example :
    (msg : List ℕ) × (unexpected_message 14 ≡ ok msg)
    × Panics ok file 7 port running empty msg
        (unexpected_interrupt ok idle 1 file 7 context (port, (running, empty)))
unexpected_interrupt_lem_example =
    unexpected_interrupt_lem idle 1 idle-Sends port running-InSync {s = empty}
      (omega arith, omega arith) ok file 7 (omega arith) (omega arith) context context-IsContext

abbrev string_at : ℕ → Option (List ℕ)
string_at ptr = if ptr == 0x1000 then some (72 ∷ 105 ∷ []) else none

abbrev call : ThreadContext
call = record context { eax = 1; ecx = 0x1000 }

syscall_interrupt_lem_example :
    Serves string_at call running empty (syscall_interrupt string_at call (running, empty))
syscall_interrupt_lem_example =
    syscall_interrupt_lem string_at call (omega arith) {str = 72 ∷ 105 ∷ []} (λ one. refl)
      running-InSync {s = empty} (omega arith, omega arith)
