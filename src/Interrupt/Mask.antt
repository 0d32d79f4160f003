-- ===== src/Interrupt/Mask.antt =====
-- The mask of the interrupt controllers, and the critical regions.
use treeos.Base.{
  ℕ, ◌/◌, ◌%◌, ◌^◌, ◌<◌, ◌≡◌, arith, not, ◌&&◌, Option, none, some, List, [], ◌∷◌, ◌++◌, ◌==◌,
  if◌then◌else◌, inl, inr, Bool-cases, ap,
}
use treeos.Bits.{bit_and_low}
use treeos.Interrupt.{
  Interrupts, send_byte, set_raw_mask, pic_master_data, pic_slave_data, irq_mask_master,
  irq_mask_slave,
}

-- The last value sent to `port`.
abbrev pub last_sent : ℕ → List (ℕ × ℕ) → Option ℕ
last_sent port [] = none
last_sent port ((p, v) ∷ rest) = elim (last_sent port rest) [
  | some w ↦ some w
  | none ↦ if p == port then some v else none
]

pub last_sent-append :
    (port p v : ℕ) (xs : List (ℕ × ℕ))
    → last_sent port (xs ++ (p, v) ∷ []) ≡ (if p == port then some v else last_sent port xs)
last_sent-append port p v [] = ground arith
last_sent-append port p v ((q, w) ∷ xs) = ground (arith, last_sent-append port p v xs)

-- The mask is a 16-bit word, and the two controllers were last sent its two bytes.
pub record InSync (s : Interrupts) : Type 0 where
  pub fits : s.irq_mask < 2 ^ 16
  pub master : last_sent pic_master_data s.ports ≡ some (s.irq_mask % 256)
  pub slave : last_sent pic_slave_data s.ports ≡ some (s.irq_mask / 256)

master_byte : (m : ℕ) → irq_mask_master m ≡ m % 256
master_byte m = omega (arith, bit_and_low 8 m)

slave_byte : (m : ℕ) → m < 2 ^ 16 → irq_mask_slave m ≡ m / 256
slave_byte m h = omega (arith, bit_and_low 8 (m / 2 ^ 8))

module _ (port new old : ℕ) (s : Interrupts) where
  send_byte-last :
      (q : ℕ)
      → last_sent q (send_byte port new old s).ports
        ≡ (if (port == q) && not (new == old) then some new else last_sent q s.ports)
  unfolding send_byte
  send_byte-last q = ground (arith, last_sent-append q port new s.ports)

  -- Nothing but the ports changes.
  send_byte-ports : record (send_byte port new old s) { ports = s.ports } ≡ s
  unfolding send_byte
  send_byte-ports = ground arith

pub set_raw_mask-SameOthers :
    (mask : ℕ) (s : Interrupts)
    → record (set_raw_mask mask s) { ports = s.ports } ≡ record s { irq_mask = mask }
unfolding set_raw_mask send_byte
set_raw_mask-SameOthers mask s = ground arith

pub set_raw_mask-mask : (mask : ℕ) (s : Interrupts) → (set_raw_mask mask s).irq_mask ≡ mask
set_raw_mask-mask mask s = ap (λ (t : Interrupts). t.irq_mask) (set_raw_mask-SameOthers mask s)

-- `set_raw_mask` sends only the bytes that change, and leaves the controllers with the new mask.
pub set_raw_mask-InSync :
    (mask : ℕ) {s : Interrupts} → mask < 2 ^ 16 → InSync s → InSync (set_raw_mask mask s)
unfolding set_raw_mask
set_raw_mask-InSync mask {s} small sync = elim (Bool-cases (s.irq_mask == mask)) [
  | inl same ↦ rw same sync
  | inr differs ↦ rw differs (record {
    fits = small;
    master =
        rw (slave_last pic_master_data, master_last pic_master_data)
          (ground (arith, master_byte mask, master_byte s.irq_mask, sync.master));
    slave =
        rw (slave_last pic_slave_data, master_last pic_slave_data)
          (ground (arith, slave_byte mask small, slave_byte s.irq_mask sync.fits, sync.slave));
  })
]
  where
    s1 : Interrupts
    s1 = send_byte pic_master_data (irq_mask_master mask) (irq_mask_master s.irq_mask) s

    master_last :
        (q : ℕ)
        → last_sent q s1.ports ≡ (
            if (pic_master_data == q) && not (irq_mask_master mask == irq_mask_master s.irq_mask)
            then some (irq_mask_master mask)
            else last_sent q s.ports)
    master_last q = send_byte-last pic_master_data _ _ s q

    slave_last :
        (q : ℕ)
        → last_sent q
            (send_byte pic_slave_data (irq_mask_slave mask) (irq_mask_slave s.irq_mask) s1).ports
          ≡ (if (pic_slave_data == q) && not (irq_mask_slave mask == irq_mask_slave s.irq_mask)
              then some (irq_mask_slave mask)
              else last_sent q s1.ports)
    slave_last q = send_byte-last pic_slave_data _ _ s1 q
