-- ===== src/Timer/Pit.antt =====
-- What `pit_init` sends, and the clock that `timer_init` starts.
use treeos.Base.{
  ℕ, zero, suc, ◌+◌, ◌*◌, ◌/◌, ◌%◌, ◌^◌, ◌≤◌, ◌<◌, ◌≡◌, ◌≢◌, ◌↔◌, refl, arith, true, false, some,
  List, [], ◌∷◌, ◌++◌, Result, ok, ◌>>=◌, ◌==◌, if◌then◌else◌, ne→==_false, u8, add32, get_elem?,
  set, sym, ap, ◌∙◌, lt_of_get_elem?, get_elem?-set_self, get_elem?-set_ne,
}
use mathlib.Core.List.{append_assoc, append-nil}
use native.Mathlib.Nat.{div-lt_iff_lt-mul}
use treeos.Bits.{bit}
use treeos.Interrupt.{
  Interrupts, Handler, link_last, int_register_irq_handler, int_unmask_irq, irq_handler,
}
use treeos.Interrupt.Mask.{InSync, last_sent, last_sent-append}
use treeos.Interrupt.Region.{Gives, changed, already, int_unmask_irq_lem}
use treeos.Interrupt.Handlers.{irq_handler_lem}
use treeos.Timer.{divisor_of, pit_init, timer_handler, timer_callback, timer_init}

-- The divisor reaches the chip as its low byte and then its high byte; it is the one for the frequency
-- exactly if that is at least 19 Hz, and cut to 16 bits below.
pub pit_init_lem :
    (frequency : ℕ) (s : Interrupts)
    → 0 < frequency
    → (low : ℕ) × (high : ℕ) × (pit_init frequency s
        ≡ ok (record s { ports = s.ports ++ (0x43, 0x36) ∷ (0x40, low) ∷ (0x40, high) ∷ [] }))
      × (low < 256)
      × (high < 256)
      × (low + 256 * high ≡ 1193180 / frequency % 2 ^ 16)
      × ((low + 256 * high ≡ 1193180 / frequency) ↔ (19 ≤ frequency))
unfolding pit_init
pit_init_lem frequency s positive =
    let d = divisor_of frequency in
    (
      u8 d,
      d / 2 ^ 8,
      rw (ne→==_false frequency 0 (omega arith), append_assoc, append_assoc) refl,
      omega arith,
      omega arith,
      omega arith,
      exact,
    )
  where
    small : (1193180 / frequency < 2 ^ 16) ↔ (1193180 < 2 ^ 16 * frequency)
    small = div-lt_iff_lt-mul positive

    exact :
        (u8 (divisor_of frequency) + 256 * (divisor_of frequency / 2 ^ 8) ≡ 1193180 / frequency)
        ↔ (19 ≤ frequency)
    exact =
        (λ e. omega (arith, small.0 (omega (arith, e))), λ h. omega (arith, small.1 (omega arith)))

pit_init-InSync :
    (frequency : ℕ) (s : Interrupts) (low high : ℕ)
    → InSync s
    → InSync (record s { ports = s.ports ++ (0x43, 0x36) ∷ (0x40, low) ∷ (0x40, high) ∷ [] })
pit_init-InSync frequency s low high sync = record {
  fits = sync.fits;
  master = last 0x21 (λ e. omega (arith, e)) (λ e. omega (arith, e)) ∙ sync.master;
  slave = last 0xa1 (λ e. omega (arith, e)) (λ e. omega (arith, e)) ∙ sync.slave;
}
  where
    last :
        (port : ℕ)
        → 0x43 ≢ port
        → 0x40 ≢ port
        → last_sent port (s.ports ++ (0x43, 0x36) ∷ (0x40, low) ∷ (0x40, high) ∷ [])
          ≡ last_sent port s.ports
    last port n m =
        let p1 : List (ℕ × ℕ) = s.ports ++ (0x43, 0x36) ∷ [] in
        let p2 : List (ℕ × ℕ) = p1 ++ (0x40, low) ∷ [] in
        let same : s.ports ++ (0x43, 0x36) ∷ (0x40, low) ∷ (0x40, high) ∷ []
            ≡ p2 ++ (0x40, high) ∷ [] =
          sym (
            append_assoc p1 ((0x40, low) ∷ []) ((0x40, high) ∷ [])
            ∙ append_assoc s.ports ((0x43, 0x36) ∷ []) ((0x40, low) ∷ (0x40, high) ∷ [])) in
        rw same (
          ground (
            arith,
            last_sent-append port 0x40 high p2,
            last_sent-append port 0x40 low p1,
            last_sent-append port 0x43 0x36 s.ports,
          ))

-- What `timer_init` leaves: the timer's callback alone on IRQ 0, which is unmasked, and every other
-- IRQ as it was.
pub record Runs (s : Interrupts) (result : Result Interrupts) : Type 0 where
  pub after : Interrupts
  pub returns : result ≡ ok after
  pub chain : get_elem? after.irq_handler_list 0 ≡ some (timer_handler ∷ [])
  pub others : (j : ℕ) → 0 < j → get_elem? after.irq_handler_list j ≡ get_elem? s.irq_handler_list j
  pub mask : (j : ℕ) → bit after.irq_mask j ≡ (if 0 == j then false else bit s.irq_mask j)
  pub sync : InSync after

module _ (frequency : ℕ) (s : Interrupts) (positive : 0 < frequency) (sync : InSync s)
    (free : get_elem? s.irq_handler_list 0 ≡ some []) (masked : bit s.irq_mask 0 ≡ true) where
  -- With a frequency other than 0, `timer_init` makes its callback the handler of IRQ 0, which had
  -- none, unmasks that IRQ and no other, and the controllers follow.
  pub timer_init_lem : Runs s (timer_init true frequency s)
  unfolding timer_init int_register_irq_handler link_last
  timer_init_lem =
      let (low, high, returns, a, b, c, d) = pit_init_lem frequency s positive in
      let synced = pit_init-InSync frequency s low high sync in
      let l = s.ports ++ (0x43, 0x36) ∷ (0x40, low) ∷ (0x40, high) ∷ [] in
      go l returns (
        int_unmask_irq_lem
          (record { fits = synced.fits; master = synced.master; slave = synced.slave }) 0
          (omega arith) (λ e. omega (arith, e)))
    where
      with_chain : List (ℕ × ℕ) → Interrupts
      with_chain l = record s {
        ports = l;
        irq_handler_list = set s.irq_handler_list 0 (timer_handler ∷ []);
      }

      go :
          (l : List (ℕ × ℕ))
          → pit_init frequency s ≡ ok (record s { ports = l })
          → Gives (with_chain l) 0 false (int_unmask_irq 0 (with_chain l))
          → Runs s (timer_init true frequency s)
      go l returns (already low r) = absurd (clash (sym masked ∙ low))
        where
          clash : true ≡ false → ⊥
          clash e = cc
      go l returns (changed t was r bits sync' same) =
          let there = ap (λ (x : Interrupts). x.irq_handler_list) same in
          record {
            after = t;
            returns = rw (returns, free, r) refl;
            chain = rw there (
                get_elem?-set_self s.irq_handler_list 0 (timer_handler ∷ [])
                  (lt_of_get_elem? s.irq_handler_list 0 free));
            others = λ j positive'. rw there (
                get_elem?-set_ne s.irq_handler_list 0 j (timer_handler ∷ [])
                  (λ e. omega (arith, e)));
            mask = bits;
            sync = sync';
          }

-- What the drivers' handlers do to `system_ticks`, of which the timer's is the only one.
abbrev pub on_timer : Handler → ℕ → Result ℕ
on_timer h ticks = ok (timer_callback ticks)

-- IRQ 0 is raised `n` times.
abbrev pub raised : (n : ℕ) → ℕ × Interrupts → Result (ℕ × Interrupts)
raised zero k = ok k
raised (suc n) k = irq_handler on_timer 32 k >>= λ k. raised n k

abbrev pub signals : (n : ℕ) → List (ℕ × ℕ)
signals zero = []
signals (suc n) = (0x20, 0x20) ∷ signals n

-- Where the timer's callback alone is on IRQ 0, as after `timer_init`, each of `n` interrupts adds one
-- to `system_ticks`, on 32 bits, and is signalled to the controller as served.
pub raised_lem :
    (n ticks : ℕ) (s : Interrupts)
    → ticks < 2 ^ 32
    → get_elem? s.irq_handler_list 0 ≡ some (timer_handler ∷ [])
    → raised n (ticks, s) ≡ ok ((ticks + n) % 2 ^ 32, record s { ports = s.ports ++ signals n })
unfolding timer_callback
raised_lem zero ticks s small chain =
    let e : (ticks + 0) % 2 ^ 32 ≡ ticks = omega arith in rw (e, append-nil s.ports) refl
raised_lem (suc n) ticks s small chain =
    let once =
      irq_handler_lem on_timer 0 ticks s (timer_handler ∷ []) (omega arith) chain (refl, tt) in
    let s' : Interrupts = record s { ports = s.ports ++ (0x20, 0x20) ∷ [] } in
    let rest = raised_lem n (add32 ticks 1) s' (omega arith) chain in
    let count : (add32 ticks 1 + n) % 2 ^ 32 ≡ (ticks + suc n) % 2 ^ 32 = omega arith in
    rw once (rest ∙ (rw (count, append_assoc) refl))
