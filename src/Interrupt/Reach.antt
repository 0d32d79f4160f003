-- ===== src/Interrupt/Reach.antt =====
-- What holds of the interrupts' state from `int_init` on, whatever is called.
use treeos.Base.{
  ℕ, ◌^◌, ◌≤◌, ◌<◌, ◌≡◌, ◌≢◌, refl, arith, Bool, true, false, ◌&&◌, some, List, [], ◌∷◌, ◌++◌,
  Result, ok, ok_inj, bind_ok, ◌==◌, if◌then◌else◌, ltb, leb, ap, sym, ◌∙◌, subst, inl, inr,
  Bool-cases, get_elem?, get_elem?-set_ne, bit_and,
}
use treeos.Bits.{bit}
use treeos.Cpu.{Cpu}
use treeos.Interrupt.{
  Handler, irq_int_handler, syscall_int_handler, unexpected_int_handler, default_handler,
  Interrupts, int_init, int_mask_irq, int_unmask_irq, int_irq_enabled, int_lock_region,
  int_unlock_region, int_register_irq_handler, int_register_handler, irq_handler, worry,
}
use treeos.Interrupt.Mask.{InSync, last_sent-append}
use treeos.Interrupt.Region.{Gives, changed, already, int_mask_irq_lem, int_unmask_irq_lem}
use treeos.Interrupt.Init.{int_init_lem}
use treeos.Interrupt.Returned.{mask_checks, unmask_checks, adds_only, registers_only, serves_only}

-- One call of this part that returned, from `s` to `t`; `call` is what the drivers' handlers do.
pub data Call {A : Type 0} (call : Handler → A → Result A) (s t : Interrupts) : Type 0 where
  masks : (irq : ℕ) (b : Bool) → int_mask_irq irq s ≡ ok (b, t) → Call call s t
  unmasks : (irq : ℕ) (b : Bool) → int_unmask_irq irq s ≡ ok (b, t) → Call call s t
  enters : (lock : Bool) → int_lock_region s ≡ ok (lock, t) → Call call s t
  leaves : (lock : Bool) → int_unlock_region lock s ≡ ok t → Call call s t
  adds :
      (kmalloc : Bool) (irq : ℕ) (h : Handler)
      → int_register_irq_handler kmalloc irq h s ≡ ok t
      → Call call s t
  registers : (n : ℕ) (h : Handler) → int_register_handler n h s ≡ ok t → Call call s t
  serves : (int_num : ℕ) (a b : A) → irq_handler call int_num (a, s) ≡ ok (b, t) → Call call s t

-- The states that are reached from `int_init` by such calls.
pub data Reached {A : Type 0} (call : Handler → A → Result A) : Interrupts → Type 0 where
  starts :
      (at : ℕ) (isr : ℕ → ℕ) (c d : Cpu) (s t : Interrupts)
      → ((j : ℕ) → isr j < 2 ^ 32)
      → int_init at isr c s ≡ ok (d, t)
      → Reached call t
  goes : {s t : Interrupts} → Reached call s → Call call s t → Reached call t

-- The controllers hold the mask, the cascade to the slave is not masked, and the interrupts of the
-- IRQs and of the system call lead to their own handlers.
pub record IsSafe (s : Interrupts) : Type 0 where
  pub sync : InSync s
  pub cascade : bit s.irq_mask 2 ≡ false
  pub irqs : (j : ℕ) → 32 ≤ j → j < 48 → get_elem? s.handler_table j ≡ some irq_int_handler
  pub syscall : get_elem? s.handler_table 48 ≡ some syscall_int_handler

module _ {s : Interrupts} (safe : IsSafe s) where
  same_table :
      (t : Interrupts)
      → InSync t
      → bit t.irq_mask 2 ≡ false
      → t.handler_table ≡ s.handler_table
      → IsSafe t
  same_table t sync cascade same = record {
    sync = sync;
    cascade = cascade;
    irqs = λ j lo hi. ap (λ (l : List Handler). get_elem? l j) same ∙ safe.irqs j lo hi;
    syscall = ap (λ (l : List Handler). get_elem? l 48) same ∙ safe.syscall;
  }

  Gives-IsSafe :
      (irq : ℕ) (value : Bool)
      → irq ≢ 2
      → {r : Result (Bool × Interrupts)} → Gives s irq value r
      → (b : Bool) (t : Interrupts) → r ≡ ok (b, t)
      → IsSafe t
  Gives-IsSafe irq value usable (changed u was is bits sync others) b t e =
      let same : u ≡ t = ap (λ (x : Bool × Interrupts). x.1) (ok_inj (sym is ∙ e)) in
      subst IsSafe same (
        same_table u sync (ground (arith, bits 2, safe.cascade))
          (ap (λ (x : Interrupts). x.handler_table) others))
  Gives-IsSafe irq value usable (already was is) b t e =
      let same : worry "masking already masked IRQ %u\n" s ≡ t =
        ap (λ (x : Bool × Interrupts). x.1) (ok_inj (sym is ∙ e)) in
      subst IsSafe same (
        same_table (worry "masking already masked IRQ %u\n" s)
          (record { fits = safe.sync.fits; master = safe.sync.master; slave = safe.sync.slave })
          safe.cascade refl)

  int_mask_irq-IsSafe :
      (irq : ℕ) (b : Bool) (t : Interrupts) → int_mask_irq irq s ≡ ok (b, t) → IsSafe t
  int_mask_irq-IsSafe irq b t e =
      let (valid, usable) = mask_checks irq b s t e in
      Gives-IsSafe irq true usable (int_mask_irq_lem safe.sync irq valid usable) b t e

  int_unmask_irq-IsSafe :
      (irq : ℕ) (b : Bool) (t : Interrupts) → int_unmask_irq irq s ≡ ok (b, t) → IsSafe t
  int_unmask_irq-IsSafe irq b t e =
      let (valid, usable) = unmask_checks irq b s t e in
      Gives-IsSafe irq false usable (int_unmask_irq_lem safe.sync irq valid usable) b t e

  int_lock_region-IsSafe : (b : Bool) (t : Interrupts) → int_lock_region s ≡ ok (b, t) → IsSafe t
  unfolding int_lock_region int_irq_enabled
  int_lock_region-IsSafe b t e = elim (Bool-cases (bit_and s.irq_mask 1 == 0)) [
    | inl on ↦
        let (r, returns, rest) = bind_ok (int_mask_irq 0 s) (rw on at e) in
        int_mask_irq-IsSafe 0 r.0 t (
          returns
          ∙ ap (λ (u : Interrupts). ok (r.0, u))
              (ap (λ (x : Bool × Interrupts). x.1) (ok_inj rest)))
    | inr off ↦ subst IsSafe (ap (λ (x : Bool × Interrupts). x.1) (ok_inj (rw off at e))) safe
  ]

  int_unlock_region-IsSafe :
      (lock : Bool) (t : Interrupts) → int_unlock_region lock s ≡ ok t → IsSafe t
  unfolding int_unlock_region
  int_unlock_region-IsSafe false t e = subst IsSafe (ok_inj e) safe
  int_unlock_region-IsSafe true t e =
      let (r, returns, rest) = bind_ok (int_unmask_irq 0 s) e in
      int_unmask_irq-IsSafe 0 r.0 t (returns ∙ ap (λ (u : Interrupts). ok (r.0, u)) (ok_inj rest))

  acknowledged :
      (l : List (ℕ × ℕ))
      → InSync (record s { ports = l })
      → InSync (record s { ports = l ++ (0x20, 0x20) ∷ [] })
  acknowledged l sync = record {
    fits = sync.fits;
    master = rw (last_sent-append 0x21 0x20 0x20 l) sync.master;
    slave = rw (last_sent-append 0xa1 0x20 0x20 l) sync.slave;
  }

  irq_handler-IsSafe :
      {A : Type 0} (call : Handler → A → Result A) (int_num : ℕ) (a b : A) (t : Interrupts)
      → irq_handler call int_num (a, s) ≡ ok (b, t)
      → IsSafe t
  irq_handler-IsSafe call int_num a b t e = elim (serves_only call int_num a b s t e) [
    | inl same ↦ subst IsSafe same (
        same_table _
          (acknowledged s.ports
            (record { fits = safe.sync.fits; master = safe.sync.master; slave = safe.sync.slave }))
          safe.cascade refl)
    | inr same ↦
        subst IsSafe same
          (same_table _ (acknowledged (s.ports ++ (0xa0, 0x20) ∷ []) to_slave) safe.cascade refl)
  ]
    where
      to_slave : InSync (record s { ports = s.ports ++ (0xa0, 0x20) ∷ [] })
      to_slave = record {
        fits = safe.sync.fits;
        master = rw (last_sent-append 0x21 0xa0 0x20 s.ports) safe.sync.master;
        slave = rw (last_sent-append 0xa1 0xa0 0x20 s.ports) safe.sync.slave;
      }

  int_register_irq_handler-IsSafe :
      (kmalloc : Bool) (irq : ℕ) (h : Handler) (t : Interrupts)
      → int_register_irq_handler kmalloc irq h s ≡ ok t
      → IsSafe t
  int_register_irq_handler-IsSafe kmalloc irq h t e =
      let (l, same) = adds_only kmalloc irq h s t e in
      subst IsSafe same (
        same_table (record s { irq_handler_list = l })
          (record { fits = safe.sync.fits; master = safe.sync.master; slave = safe.sync.slave })
          safe.cascade refl)

  int_register_handler-IsSafe :
      (n : ℕ) (h : Handler) (t : Interrupts) → int_register_handler n h s ≡ ok t → IsSafe t
  int_register_handler-IsSafe n h t e =
      let (v, small, same) = registers_only n h s t e in
      subst IsSafe same (record {
        sync = record { fits = safe.sync.fits; master = safe.sync.master; slave = safe.sync.slave };
        cascade = safe.cascade;
        irqs = λ j lo hi.
            get_elem?-set_ne s.handler_table n j v (λ e. omega (arith, e)) ∙ safe.irqs j lo hi;
        syscall = get_elem?-set_ne s.handler_table n 48 v (λ e. omega (arith, e)) ∙ safe.syscall;
      })

  Call-IsSafe :
      {A : Type 0} {call : Handler → A → Result A} {t : Interrupts} → Call call s t → IsSafe t
  Call-IsSafe {t = t} (masks irq b e) = int_mask_irq-IsSafe irq b t e
  Call-IsSafe {t = t} (unmasks irq b e) = int_unmask_irq-IsSafe irq b t e
  Call-IsSafe {t = t} (enters lock e) = int_lock_region-IsSafe lock t e
  Call-IsSafe {t = t} (leaves lock e) = int_unlock_region-IsSafe lock t e
  Call-IsSafe {t = t} (adds kmalloc irq h e) = int_register_irq_handler-IsSafe kmalloc irq h t e
  Call-IsSafe {t = t} (registers n h e) = int_register_handler-IsSafe n h t e
  Call-IsSafe {call = call} {t = t} (serves int_num a b e) = irq_handler-IsSafe call int_num a b t e

default-irq : (j : ℕ) → 32 ≤ j → j < 48 → some (default_handler j) ≡ some irq_int_handler
unfolding default_handler
default-irq j lo hi =
    let inside : (leb 32 j && ltb j 48) ≡ true = ground arith in
    ap
      (λ (b : Bool). some (
        if b
        then irq_int_handler
        else if j == 48
        then syscall_int_handler
        else unexpected_int_handler))
      inside

default-syscall : some (default_handler 48) ≡ some syscall_int_handler
unfolding default_handler
default-syscall = refl

init-IsSafe :
    (at : ℕ) (isr : ℕ → ℕ) (c d : Cpu) (s t : Interrupts)
    → ((j : ℕ) → isr j < 2 ^ 32)
    → int_init at isr c s ≡ ok (d, t)
    → IsSafe t
unfolding bit
init-IsSafe at isr c d s t small e =
    let (d', u, returns, leads, table, chains, mask, sync) = int_init_lem at isr c s small in
    let same : u ≡ t = ap (λ (x : Cpu × Interrupts). x.1) (ok_inj (sym returns ∙ e)) in
    subst IsSafe same (record {
      sync = sync;
      cascade = ap (λ (m : ℕ). bit m 2) mask;
      irqs = λ j lo hi. table j (omega (arith, hi)) ∙ default-irq j lo hi;
      syscall = table 48 (omega arith) ∙ default-syscall;
    })

-- In every state that is reached from `int_init`, whatever is masked, registered and served, the
-- controllers hold the mask, the cascade is not masked, and the interrupts of the IRQs and of the
-- system call lead to their own handlers.
pub Reached-IsSafe :
    {A : Type 0} {call : Handler → A → Result A} (t : Interrupts) → Reached call t → IsSafe t
Reached-IsSafe t (starts at isr c d s t' small e) = init-IsSafe at isr c d s t' small e
Reached-IsSafe t (goes {s = s} reached step) = Call-IsSafe (Reached-IsSafe s reached) step
