-- ===== src/Interrupt/Critical.antt =====
-- Code between `int_lock_region` and `int_unlock_region`.
use treeos.Base.{◌≡◌, refl, ap, ◌∙◌, Result, ok}
use treeos.Interrupt.{Interrupts, critical, int_lock_region, int_unlock_region}
use treeos.Interrupt.Mask.{InSync}
use treeos.Interrupt.Region.{Guards, int_lock_region_lem}

-- The code returned `a` and left its own state as `t`; of the interrupts' state it may have changed
-- what was sent to the controllers, and nothing else.
pub record Returns {A S : Type 0} (i : Interrupts) (a : A) (t : S)
    (result : Result (A × (Interrupts × S))) : Type 0 where
  pub after : Interrupts
  pub returns : result ≡ ok (a, (after, t))
  pub sync : InSync after
  pub same : record after { ports = i.ports } ≡ i

pub same_trans :
    (i j k : Interrupts)
    → record j { ports = i.ports } ≡ i
    → record k { ports = j.ports } ≡ j
    → record k { ports = i.ports } ≡ i
same_trans i j k p q = ap (λ (x : Interrupts). record x { ports = i.ports }) q ∙ p

module _ {A S : Type 0} {i : Interrupts} (body : Interrupts × S → Result (A × (Interrupts × S)))
    (s : S) where
  leave :
      {a : A} {t : S}
      → (g : Guards i (int_lock_region i)) → Returns g.inside a t (body (g.inside, s))
      → Returns i a t (critical body (i, s))
  unfolding critical
  leave {a} {t} g r =
      let (u, unlocked, back, sync, others) =
        g.leave r.after (ap (λ (x : Interrupts). x.irq_mask) r.same) r.sync in
      through u unlocked sync (
        ap (λ (x : Interrupts). record x { ports = i.ports }) others
        ∙ ap (λ (x : Interrupts). record x { ports = i.ports; irq_mask = i.irq_mask }) r.same
        ∙ ap (λ (x : Interrupts). record x { irq_mask = i.irq_mask }) g.others)
    where
      through :
          (u : Interrupts)
          → int_unlock_region g.lock r.after ≡ ok u
          → InSync u
          → record u { ports = i.ports } ≡ i
          → Returns i a t (critical body (i, s))
      through u unlocked sync same = record {
        after = u;
        returns = rw (g.returns, r.returns, unlocked) refl;
        sync = sync;
        same = same;
      }

  -- What the body does from every state that the region may enter, the region does.
  pub critical_lem :
      {a : A} {t : S}
      → InSync i
      → ((j : Interrupts) → InSync j → Returns j a t (body (j, s)))
      → Returns i a t (critical body (i, s))
  critical_lem sync runs = let g = int_lock_region_lem sync in leave g (runs g.inside g.sync)
