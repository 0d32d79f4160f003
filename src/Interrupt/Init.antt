-- ===== src/Interrupt/Init.antt =====
-- What `int_init` leaves.
use treeos.Base.{
  ℕ, ◌^◌, ◌<◌, ◌≡◌, refl, arith, some, List, [], ◌∷◌, ◌++◌, Result, ok, get_elem?, replicate,
  lt→ltb, ◌∙◌,
}
use treeos.Cpu.{Cpu, IdtEntry, fill_idt, idt_init, null_idt}
use treeos.Cpu.Gates.{Leads, fill_idt_lem}
use treeos.Interrupt.{null, Interrupts, int_init, remap_pic, default_handler, default_handlers}
use treeos.Interrupt.Mask.{InSync, last_sent}
use treeos.Interrupt.Handlers.{default_handlers_lem}

remap_pic-InSync : (s : Interrupts) → InSync (remap_pic s)
unfolding remap_pic
remap_pic-InSync s = record { fits = omega arith; master = last s.ports; slave = last' s.ports }
  where
    tail : List (ℕ × ℕ)
    tail =
        (0x20, 0x11)
        ∷ (0xa0, 0x11)
        ∷ (0x21, 0x20)
        ∷ (0xa1, 0x28)
        ∷ (0x21, 0x04)
        ∷ (0xa1, 0x02)
        ∷ (0x21, 0x01)
        ∷ (0xa1, 0x01)
        ∷ (0x21, 0xfb)
        ∷ (0xa1, 0xff)
        ∷ []

    last : (xs : List (ℕ × ℕ)) → last_sent 0x21 (xs ++ tail) ≡ some 0xfb
    last [] = refl
    last (x ∷ xs) = rw (last xs) refl

    last' : (xs : List (ℕ × ℕ)) → last_sent 0xa1 (xs ++ tail) ≡ some 0xff
    last' [] = refl
    last' (x ∷ xs) = rw (last' xs) refl

-- After `int_init` every interrupt has its stub in the IDT and its default handler, no IRQ has a
-- handler, all IRQs but the cascade are masked, and the controllers hold that mask.
pub int_init_lem :
    (at : ℕ) (isr : ℕ → ℕ) (c : Cpu) (s : Interrupts)
    → ((j : ℕ) → isr j < 2 ^ 32)
    → (d : Cpu) × (t : Interrupts) × (int_init at isr c s ≡ ok (d, t))
      × ((j : ℕ) → j < 49 → Leads isr d.idt_entries j)
      × ((j : ℕ) → j < 49 → get_elem? t.handler_table j ≡ some (default_handler j))
      × (t.irq_handler_list ≡ replicate 16 [])
      × (t.irq_mask ≡ 0xfffb)
      × InSync t
unfolding int_init idt_init
int_init_lem at isr c s fits =
    let (out, returns, same, leads) = fill_idt_lem isr (replicate 49 null_idt) refl fits in
    let sync = remap_pic-InSync s in
    (
      record c { idt_entries = out; idtr = some (record { limit = 392; base = at }) },
      record (remap_pic s) {
        handler_table = default_handlers 49 0 (replicate 49 null);
        irq_handler_list = replicate 16 [];
      },
      through out returns,
      leads,
      λ j h. table j h,
      refl,
      unfold remap_pic in refl,
      record { fits = sync.fits; master = sync.master; slave = sync.slave },
    )
  where
    through :
        (out : List IdtEntry)
        → ◌≡◌ {A = Result (List IdtEntry)} (fill_idt isr (replicate 49 null_idt)) (ok out)
        → int_init at isr c s
          ≡ ok (
            record c { idt_entries = out; idtr = some (record { limit = 392; base = at }) },
            record (remap_pic s) {
              handler_table = default_handlers 49 0 (replicate 49 null);
              irq_handler_list = replicate 16 [];
            },
          )
    through out returns = rw returns refl

    table :
        (j : ℕ)
        → j < 49
        → get_elem? (default_handlers 49 0 (replicate 49 null)) j ≡ some (default_handler j)
    table j h =
        default_handlers_lem 49 0 (replicate 49 null) (omega arith) j
        ∙ (rw (lt→ltb j 49 h) (ground arith))
