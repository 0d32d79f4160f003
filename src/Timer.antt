-- ===== src/Timer.antt =====
-- kernel/kernel/timer.c and kernel/arch/i386/pit.c: the system clock on IRQ 0. The ports are those of
-- the log of Interrupt.
pub mod Pit
pub mod Ticks
mod Examples
use treeos.Base.{
  ℕ, zero, suc, ◌+◌, ◌*◌, ◌/◌, ◌%◌, ◌^◌, Bool, Result, ok, fault, ◌>>=◌, ◌==◌, if◌then◌else◌, ltb,
  add32, u16, u8,
}
use treeos.Interrupt.{
  Interrupts, Handler, driver, outb, irq_pit, int_register_irq_handler, int_unmask_irq,
}

abbrev pub default_system_timer_freq : ℕ
default_system_timer_freq = 100

-- The divisor of the clock of the chip.
abbrev pub divisor_of : ℕ → ℕ
divisor_of frequency = u16 (1193180 / frequency)

-- A frequency of 0 is a division by zero.
unfoldable pub pit_init : ℕ → Interrupts → Result Interrupts
pit_init frequency s =
    if frequency == 0
    then fault
    else ok (
        outb 0x40 (divisor_of frequency / 2 ^ 8)
          (outb 0x40 (u8 (divisor_of frequency)) (outb 0x43 0x36 s)))

-- `timer_callback` as a node of the chain of IRQ 0, and what it does to `system_ticks`.
abbrev pub timer_handler : Handler
timer_handler = driver 0

unfoldable pub timer_callback : ℕ → ℕ
timer_callback system_ticks = add32 system_ticks 1

-- Without the line that it prints at its end (see Kernel.Main).
unfoldable pub timer_init : (kmalloc : Bool) → ℕ → Interrupts → Result Interrupts
timer_init kmalloc frequency s = do
  s ← pit_init frequency s
  s ← int_register_irq_handler kmalloc irq_pit timer_handler s
  (unmasked, s) ← int_unmask_irq irq_pit s
  ok s

-- `clock n` is `system_ticks` at the `n`th reading, which the interrupts move on.
abbrev pub timer_getticks : (clock : ℕ → ℕ) → ℕ → ℕ
timer_getticks clock n = clock n

-- The loop of `timer_sleep`, from reading `n` on; the answer is the reading that ends it.
unfoldable pub wait_until : (clock : ℕ → ℕ) (fuel n end_ticks : ℕ) → Result ℕ
wait_until clock zero n end_ticks = fault
wait_until clock (suc fuel) n end_ticks =
    let rest = wait_until clock fuel (n + 1) end_ticks in
    if ltb (timer_getticks clock n) end_ticks then rest else ok n

unfoldable pub timer_sleep : (clock : ℕ → ℕ) (fuel ticks : ℕ) → Result ℕ
timer_sleep clock fuel ticks = wait_until clock fuel 1 (add32 (timer_getticks clock 0) ticks)
