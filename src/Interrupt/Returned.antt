-- ===== src/Interrupt/Returned.antt =====
-- What a call that returned tells of its arguments, and what it left alone.
use treeos.Base.{
  ℕ, ◌+◌, ◌-◌, ◌⊎◌, ◌^◌, ◌<◌, ◌≡◌, ◌≢◌, arith, Bool, true, false, ◌&&◌, List, [], ◌∷◌, ◌++◌, Result,
  ok, ok_inj, or_fault_ok, bind_ok, ◌==◌, ltb, leb, ap, inl, inr, Bool-cases, get_elem?, set, u8,
  ==_false→ne,
}
use treeos.Interrupt.{
  Handler, unexpected_int_handler, null, is_null, Interrupts, int_mask_irq, int_unmask_irq,
  int_register_irq_handler, int_register_handler, irq_handler, run_chain, link_last,
}

-- A call that returned passed the checks on its IRQ.
pub mask_checks :
    (irq : ℕ) (b : Bool) (s t : Interrupts)
    → int_mask_irq irq s ≡ ok (b, t)
    → (irq < 16) × (irq ≢ 2)
unfolding int_mask_irq
mask_checks irq b s t e = elim (Bool-cases (ltb irq 16)) [
  | inr bad ↦ let wrong = rw bad at e in absurd cc
  | inl valid ↦ elim (Bool-cases (irq == 2)) [
    | inl bad ↦ let wrong = rw (valid, bad) at e in absurd cc
    | inr usable ↦ (ground (arith, valid), ==_false→ne irq 2 usable)
  ]
]

pub unmask_checks :
    (irq : ℕ) (b : Bool) (s t : Interrupts)
    → int_unmask_irq irq s ≡ ok (b, t)
    → (irq < 16) × (irq ≢ 2)
unfolding int_unmask_irq
unmask_checks irq b s t e = elim (Bool-cases (ltb irq 16)) [
  | inr bad ↦ let wrong = rw bad at e in absurd cc
  | inl valid ↦ elim (Bool-cases (irq == 2)) [
    | inl bad ↦ let wrong = rw (valid, bad) at e in absurd cc
    | inr usable ↦ (ground (arith, valid), ==_false→ne irq 2 usable)
  ]
]

-- A handler was added: only the chains changed.
pub adds_only :
    (kmalloc : Bool) (irq : ℕ) (h : Handler) (s t : Interrupts)
    → int_register_irq_handler kmalloc irq h s ≡ ok t
    → (l : List (List Handler)) × (record s { irq_handler_list = l } ≡ t)
unfolding int_register_irq_handler
adds_only false irq h s t e = elim (Bool-cases (ltb irq 16)) [
  | inr bad ↦ let wrong = rw bad at e in absurd cc
  | inl valid ↦ elim (Bool-cases (irq == 2)) [
    | inl bad ↦ let wrong = rw (valid, bad) at e in absurd cc
    | inr usable ↦ elim (Bool-cases (is_null h)) [
      | inl bad ↦ let wrong = rw (valid, usable, bad) at e in absurd cc
      | inr there ↦ let wrong = rw (valid, usable, there) at e in absurd cc
    ]
  ]
]
adds_only true irq h s t e = elim (Bool-cases (ltb irq 16)) [
  | inr bad ↦ let wrong = rw bad at e in absurd cc
  | inl valid ↦ elim (Bool-cases (irq == 2)) [
    | inl bad ↦ let wrong = rw (valid, bad) at e in absurd cc
    | inr usable ↦ elim (Bool-cases (is_null h)) [
      | inl bad ↦ let wrong = rw (valid, usable, bad) at e in absurd cc
      | inr there ↦
          let (chain, at, rest) =
            or_fault_ok (get_elem? s.irq_handler_list irq) (rw (valid, usable, there) at e) in
          (set s.irq_handler_list irq (link_last chain h), ok_inj rest)
    ]
  ]
]

-- A handler was set: only the entry of an exception changed.
pub registers_only :
    (n : ℕ) (h : Handler) (s t : Interrupts)
    → int_register_handler n h s ≡ ok t
    → (v : Handler) × (n < 32) × (record s { handler_table = set s.handler_table n v } ≡ t)
unfolding int_register_handler
registers_only n h s t e = elim (Bool-cases (ltb n 49)) [
  | inr bad ↦ let wrong = rw bad at e in absurd cc
  | inl valid ↦ elim (Bool-cases (n == 48)) [
    | inl bad ↦ let wrong = rw (valid, bad) at e in absurd cc
    | inr usable ↦ elim (Bool-cases (leb 32 n && ltb n 48)) [
      | inl bad ↦ let wrong = rw (valid, usable, bad) at e in absurd cc
      | inr free ↦
          let (old, at, rest) =
            or_fault_ok (get_elem? s.handler_table n) (rw (valid, usable, free) at e) in
          (
            (elim h [ null ↦ unexpected_int_handler | other ↦ other ]),
            ground (arith, valid, usable, free),
            ok_inj rest,
          )
    ]
  ]
]

-- An IRQ was served: only the two command ports of the controllers were written.
pub serves_only :
    {A : Type 0} (call : Handler → A → Result A) (int_num : ℕ) (a b : A) (s t : Interrupts)
    → irq_handler call int_num (a, s) ≡ ok (b, t)
    → let eoi : Interrupts = record s { ports = s.ports ++ (0x20, 0x20) ∷ [] } in
      let both : Interrupts = record s {
        ports = (s.ports ++ (0xa0, 0x20) ∷ []) ++ (0x20, 0x20) ∷ [];
      } in
      (eoi ≡ t) ⊎ (both ≡ t)
unfolding irq_handler
serves_only {A = A} call int_num a b s t e =
    elim (Bool-cases (ltb (u8 (int_num + 2 ^ 32 - 32)) 16)) [
      | inr bad ↦ let wrong = rw bad at e in absurd cc
      | inl valid ↦
          let (chain, at, rest) =
            or_fault_ok (get_elem? s.irq_handler_list (u8 (int_num + 2 ^ 32 - 32)))
              (rw valid at e) in
          let (b', ran, end) = bind_ok (run_chain call chain a) rest in
          elim (Bool-cases (leb 8 (u8 (int_num + 2 ^ 32 - 32)))) [
            | inl slave ↦ inr (ap (λ (x : A × Interrupts). x.1) (ok_inj (rw slave at end)))
            | inr master ↦ inl (ap (λ (x : A × Interrupts). x.1) (ok_inj (rw master at end)))
          ]
    ]
