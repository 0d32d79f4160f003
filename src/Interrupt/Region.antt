-- ===== src/Interrupt/Region.antt =====
-- Masking one IRQ, and the critical regions that mask the timer.
use treeos.Base.{
  ℕ, ◌^◌, ◌<◌, ◌≡◌, ◌≢◌, refl, arith, Bool, true, false, not, bit_and, bit_or, not32, Result, ok,
  ◌==◌, if◌then◌else◌, ◌∙◌, sym, inl, inr, Bool-cases, lt→ltb, ne→==_false, ap,
}
use treeos.Bits.{bit, test_mask, bit_set, bit_clear, bit_set-lt, bit_clear-lt, bit_ext}
use treeos.Interrupt.{
  Interrupts, set_raw_mask, int_mask_irq, int_unmask_irq, int_irq_enabled, int_lock_region,
  int_unlock_region, worry,
}
use treeos.Interrupt.Mask.{InSync, set_raw_mask-InSync, set_raw_mask-SameOthers, set_raw_mask-mask}

-- The outcomes of giving the mask bit of `irq` the value `value`: it changes, alone, and the
-- controllers follow; or it had the value, and all that happens is a warning.
pub data Gives (s : Interrupts) (irq : ℕ) (value : Bool) : Result (Bool × Interrupts) → Type 0 where
  changed :
      {result : Result (Bool × Interrupts)} (t : Interrupts)
      → bit s.irq_mask irq ≡ not value
      → result ≡ ok (true, t)
      → ((j : ℕ) → bit t.irq_mask j ≡ (if irq == j then value else bit s.irq_mask j))
      → InSync t
      → record t { ports = s.ports } ≡ record s { irq_mask = t.irq_mask }
      → Gives s irq value result
  already :
      {result : Result (Bool × Interrupts)}
      → bit s.irq_mask irq ≡ value
      → result ≡ ok (false, worry "masking already masked IRQ %u\n" s)
      → Gives s irq value result

module _ {s : Interrupts} (sync : InSync s) (irq : ℕ) (valid : irq < 16) (usable : irq ≢ 2) where
  wide : s.irq_mask < 2 ^ 32
  wide = omega (arith, sync.fits)

  set_up :
      (mask : ℕ) (value : Bool)
      → mask < 2 ^ 16
      → ((j : ℕ) → bit mask j ≡ (if irq == j then value else bit s.irq_mask j))
      → bit s.irq_mask irq ≡ not value
      → {result : Result (Bool × Interrupts)} → result ≡ ok (true, set_raw_mask mask s)
      → Gives s irq value result
  set_up mask value small bits was is =
      changed (set_raw_mask mask s) was is (λ j. rw (set_raw_mask-mask mask s) (bits j))
        (set_raw_mask-InSync mask small sync)
        (set_raw_mask-SameOthers mask s
          ∙ ap (λ (m : ℕ). record s { irq_mask = m }) (sym (set_raw_mask-mask mask s)))

  -- `int_mask_irq` sets the bit of its IRQ.
  pub int_mask_irq_lem : Gives s irq true (int_mask_irq irq s)
  unfolding int_mask_irq
  int_mask_irq_lem =
      rw (lt→ltb irq 16 valid, ne→==_false irq 2 usable, test_mask s.irq_mask irq)
        (elim (Bool-cases (bit s.irq_mask irq)) [
          | inl up ↦ already up (rw up refl)
          | inr down ↦
              set_up (bit_or s.irq_mask (2 ^ irq)) true
                (bit_set-lt 16 s.irq_mask irq (omega arith) sync.fits valid)
                (λ j. rw (bit_set s.irq_mask irq wide (omega arith) j) (ground arith)) down
                (rw down refl)
        ])

  -- `int_unmask_irq` clears it.
  pub int_unmask_irq_lem : Gives s irq false (int_unmask_irq irq s)
  unfolding int_unmask_irq
  int_unmask_irq_lem =
      rw (lt→ltb irq 16 valid, ne→==_false irq 2 usable, test_mask s.irq_mask irq)
        (elim (Bool-cases (bit s.irq_mask irq)) [
          | inr down ↦ already down (rw down refl)
          | inl up ↦
              set_up (bit_and s.irq_mask (not32 (2 ^ irq))) false
                (bit_clear-lt 16 s.irq_mask irq (omega arith) sync.fits valid)
                (λ j. rw (bit_clear s.irq_mask irq wide (omega arith) j) (ground arith)) up
                (rw up refl)
        ])

-- A region that was entered: the timer is masked inside, nothing but the mask changed, and leaving
-- it from any state that still has the mask gives back the mask from before.
pub record Guards (s : Interrupts) (result : Result (Bool × Interrupts)) : Type 0 where
  pub lock : Bool
  pub inside : Interrupts
  pub returns : result ≡ ok (lock, inside)
  pub masked : bit inside.irq_mask 0 ≡ true
  pub sync : InSync inside
  pub others : record inside { ports = s.ports } ≡ record s { irq_mask = inside.irq_mask }
  pub leave :
      (t : Interrupts)
      → t.irq_mask ≡ inside.irq_mask
      → InSync t
      → (u : Interrupts) × (int_unlock_region lock t ≡ ok u)
        × (u.irq_mask ≡ s.irq_mask)
        × InSync u
        × (record u { ports = t.ports } ≡ record t { irq_mask = s.irq_mask })

module _ {s : Interrupts} (sync : InSync s) where
  enabled_lem : int_irq_enabled 0 s ≡ ok (not (bit s.irq_mask 0))
  unfolding int_irq_enabled
  enabled_lem = rw (test_mask s.irq_mask 0) refl

  Leaves : Bool → ℕ → Interrupts → Type 0
  Leaves lock mask t =
      (u : Interrupts) × (int_unlock_region lock t ≡ ok u)
      × (u.irq_mask ≡ mask)
      × InSync u
      × (record u { ports = t.ports } ≡ record t { irq_mask = mask })

  -- Leaving a region that masked the timer.
  unmask :
      (i t : Interrupts)
      → bit s.irq_mask 0 ≡ false
      → ((j : ℕ) → bit i.irq_mask j ≡ (if 0 == j then true else bit s.irq_mask j))
      → t.irq_mask ≡ i.irq_mask
      → Gives t 0 false (int_unmask_irq 0 t)
      → Leaves true s.irq_mask t
  unfolding int_unlock_region Leaves
  unmask i t down bits same (already low r) = absurd (clash (ap (λ (m : ℕ). bit m 0) same))
    where
      clash : bit t.irq_mask 0 ≡ bit i.irq_mask 0 → ⊥
      clash e = ground (arith, bits 0)
  unmask i t down bits same (changed u up r after sync' others) =
      let back : u.irq_mask ≡ s.irq_mask =
        bit_ext u.irq_mask s.irq_mask (omega (arith, sync'.fits)) (omega (arith, sync.fits))
          λ j. agree j (ap (λ (m : ℕ). bit m j) same) in
      (u, rw r refl, back, sync', others ∙ ap (λ (m : ℕ). record t { irq_mask = m }) back)
    where
      agree : (j : ℕ) → bit t.irq_mask j ≡ bit i.irq_mask j → bit u.irq_mask j ≡ bit s.irq_mask j
      agree j e = ground (arith, after j, bits j)

  enter :
      bit s.irq_mask 0 ≡ false → Gives s 0 true (int_mask_irq 0 s) → Guards s (int_lock_region s)
  unfolding int_lock_region Leaves
  enter down (already up r) = absurd (clash (sym down ∙ up))
    where
      clash : false ≡ true → ⊥
      clash e = cc
  enter down (changed t was r bits sync' others) = record {
    lock = true;
    inside = t;
    returns = rw (enabled_lem, down, r) refl;
    masked = bits 0;
    sync = sync';
    others = others;
    leave = λ t' same sync''.
        unmask t t' down bits same (int_unmask_irq_lem sync'' 0 (omega arith) (omega arith));
  }

  -- Every region that `int_lock_region` enters restores the mask when it is left, so regions nest.
  pub int_lock_region_lem : Guards s (int_lock_region s)
  unfolding int_lock_region int_unlock_region
  int_lock_region_lem = elim (Bool-cases (bit s.irq_mask 0)) [
    | inl up ↦ record {
      lock = false;
      inside = s;
      returns = rw (enabled_lem, up) refl;
      masked = up;
      sync = sync;
      others = refl;
      leave =
          λ t same sync'. (t, refl, same, sync', ap (λ (m : ℕ). record t { irq_mask = m }) same);
    }
    | inr down ↦ enter down (int_mask_irq_lem sync 0 (omega arith) (omega arith))
  ]
