-- ===== src/Timer/Examples.antt =====
-- The clock at 100 Hz, and the theorems on it.
use treeos.Base.{
  ℕ, ◌+◌, ◌*◌, ◌%◌, ◌≤◌, ◌<◌, ◌≡◌, ◌↔◌, refl, arith, true, [], ◌∷◌, ok, ◌>>=◌, replicate,
}
use treeos.Bits.{bit}
use treeos.Interrupt.{
  Interrupts, unexpected_int_handler, int_register_irq_handler, int_unmask_irq, send_byte,
}
use treeos.Interrupt.Mask.{InSync}
use treeos.Timer.{
  pit_init, timer_init, timer_sleep, wait_until, timer_handler, default_system_timer_freq,
}
use treeos.Timer.Pit.{pit_init_lem}
use treeos.Timer.Ticks.{Wakes, timer_sleep_lem}

abbrev remapped : Interrupts
remapped = record {
  handler_table = replicate 49 unexpected_int_handler;
  irq_handler_list = replicate 16 [];
  irq_mask = 0xfffb;
  ports = (0x21, 0xfb) ∷ (0xa1, 0xff) ∷ [];
  worries = [];
}

-- 11931 is 0x2e9b.
hundred_hertz :
    (timer_init true default_system_timer_freq remapped >>= λ s. ok s.ports)
    ≡ ok (
        (0x21, 0xfb)
        ∷ (0xa1, 0xff)
        ∷ (0x43, 0x36)
        ∷ (0x40, 0x9b)
        ∷ (0x40, 0x2e)
        ∷ (0x21, 0xfa)
        ∷ [])
unfolding timer_init pit_init int_register_irq_handler int_unmask_irq send_byte
hundred_hertz = refl

-- A sleep of 5 ticks that is read at every tick, and one that ends at once: it would last 8.
sleeps : timer_sleep (λ n. n) 10 5 ≡ ok 5
unfolding timer_sleep wait_until
sleeps = refl

wraps : timer_sleep (λ n. 0xfffffffc + n % 4) 10 8 ≡ ok 1
unfolding timer_sleep wait_until
wraps = refl

pit_init_lem_example :
    (low : ℕ) × (high : ℕ) × (pit_init 100 remapped
      ≡ ok (record remapped {
        ports = (0x21, 0xfb) ∷ (0xa1, 0xff) ∷ (0x43, 0x36) ∷ (0x40, low) ∷ (0x40, high) ∷ [];
      }))
    × (low < 256)
    × (high < 256)
    × (low + 256 * high ≡ 11931)
    × ((low + 256 * high ≡ 11931) ↔ (19 ≤ 100))
pit_init_lem_example = pit_init_lem 100 remapped (omega arith)

remapped-InSync : InSync remapped
remapped-InSync = record { fits = omega arith; master = refl; slave = refl }

masked : bit 0xfffb 0 ≡ true
unfolding bit
masked = refl

abbrev running : Interrupts
running = record remapped {
  irq_handler_list = (timer_handler ∷ []) ∷ replicate 15 [];
  irq_mask = 0xfffa;
}

timer_sleep_lem_example : Wakes (λ n. n) 5 (timer_sleep (λ n. n) 10 5)
timer_sleep_lem_example =
    timer_sleep_lem (λ n. n) 10 5 4 (omega arith) (omega arith) (omega arith) (omega arith)
