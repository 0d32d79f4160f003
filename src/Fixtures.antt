-- ===== src/Fixtures.antt =====
-- States that the examples of several modules share: the interrupts' state with the timer unmasked, an
-- empty screen, a serial port that is always ready, and a thread's registers.
pub mod Console
pub mod Load
use treeos.Base.{ℕ, refl, arith, [], ◌∷◌, replicate}
use treeos.Interrupt.{Interrupts, driver, unexpected_int_handler}
use treeos.Interrupt.Mask.{InSync}
use treeos.Tty.{Tty}
use treeos.Serio.{Serial, serio_com1}
use treeos.Serio.Wait.{Sends}
use treeos.Panic.{ThreadContext}
use treeos.Panic.Registers.{IsContext}

abbrev pub running : Interrupts
running = record {
  handler_table = replicate 49 unexpected_int_handler;
  irq_handler_list = (driver 1 ∷ []) ∷ replicate 15 [];
  irq_mask = 0xfffa;
  ports = (0x21, 0xfa) ∷ (0xa1, 0xff) ∷ [];
  worries = [];
}

pub running-InSync : InSync running
running-InSync = record { fits = omega arith; master = refl; slave = refl }

abbrev pub empty : Tty
empty = record { tty_row = 0; tty_col = 0; cells = λ a. 0x1f20; ports = [] }

-- The transmitter is always empty.
abbrev pub idle : ℕ → ℕ → ℕ
idle k port = 0x20

pub idle-Sends : Sends idle 1 serio_com1
idle-Sends k = (0, omega arith, refl)

abbrev pub port : Serial
port = record { reads = 0; ports = [] }

abbrev pub context : ThreadContext
context = record {
  gs = 16;
  fs = 16;
  es = 16;
  ds = 16;
  edi = 0;
  esi = 0;
  ebp = 0;
  esp = 0xc0100000;
  ebx = 0;
  edx = 0;
  ecx = 0;
  eax = 0xff;
  int_num = 14;
  error_code = 0;
  eip = 0;
  cs = 8;
  eflags = 0x202;
  user_esp = 0;
  user_ss = 0;
}

pub context-IsContext : IsContext context
context-IsContext = record {
  gs = omega arith;
  fs = omega arith;
  es = omega arith;
  ds = omega arith;
  edi = omega arith;
  esi = omega arith;
  ebp = omega arith;
  esp = omega arith;
  ebx = omega arith;
  edx = omega arith;
  ecx = omega arith;
  eax = omega arith;
  int_num = omega arith;
  error_code = omega arith;
  eip = omega arith;
  cs = omega arith;
  eflags = omega arith;
  user_ss = omega arith;
}
