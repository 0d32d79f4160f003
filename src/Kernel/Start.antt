-- ===== src/Kernel/Start.antt =====
-- What `kinit` leaves, on every branch.
use treeos.Base.{
  ℕ, ◌+◌, ◌≤◌, ◌<◌, ◌≡◌, ◌≢◌, ◌⊎◌, inl, inr, refl, arith, true, List, [], ◌∷◌, ◌++◌, Result, ok,
  panicked, ◌==◌, if◌then◌else◌, ltb, Bool-cases, ==_iff, ==_false→ne, bytes_of, ◌∙◌, ap, sym,
}
use treeos.Str.{Bytes, word, memcpy}
use treeos.Str.Blocks.{within, memcpy_lem}
use treeos.Interrupt.{
  Interrupts, critical, int_lock_region, int_unlock_region, int_irq_enabled, int_mask_irq,
  int_unmask_irq, set_raw_mask, send_byte,
}
use treeos.Tty.{Tty, tty_init, tty_clear, update_cursor, blank_rows, clear_char}
use treeos.Tty.Rows.{cursor}
use treeos.Tty.Screen.{blank_rows_lem}
use treeos.Format.{convert, formatted, vsprintf}
use treeos.KernelHeap.{KernelHeap, kheap_start, kernel_heap_init, heap_alloc}
use treeos.Serio.{Serial, serio_com1, serio_init, port_str, c_string}
use treeos.Serio.Wait.{Sends, sent, serio_puts_lem}
use treeos.Multiboot.{info_at}
use treeos.Kernel.{Boot, kinit}

-- The seven bytes that set up a port.
abbrev pub setup : ℕ → List (ℕ × ℕ)
setup port =
    (port + 1, 0x0)
    ∷ (port + 3, 0x80)
    ∷ (port + 0, 0x3)
    ∷ (port + 1, 0x0)
    ∷ (port + 3, 0x3)
    ∷ (port + 2, 0xc7)
    ∷ (port + 4, 0xb)
    ∷ []

-- "serial port COM1 initialized".
abbrev pub greeting : List ℕ
greeting =
    115 ∷ 101 ∷ 114 ∷ 105 ∷ 97 ∷ 108 ∷ 32 ∷ 112 ∷ 111 ∷ 114 ∷ 116 ∷ 32 ∷ 67 ∷ 79 ∷ 77 ∷ 49 ∷ 32
    ∷ 105 ∷ 110 ∷ 105 ∷ 116 ∷ 105 ∷ 97 ∷ 108 ∷ 105 ∷ 122 ∷ 101 ∷ 100 ∷ []

-- `serio_init` sets the first port up with seven bytes and then announces it.
pub serio_init_lem :
    (inb : ℕ → ℕ → ℕ) (fuel : ℕ) (s : Serial)
    → Sends inb fuel serio_com1
    → (t : Serial) × (serio_init inb fuel serio_com1 s ≡ ok t)
      × (t.ports ≡ (s.ports ++ setup serio_com1) ++ sent serio_com1 (greeting ++ 13 ∷ 10 ∷ []))
unfolding serio_init bytes_of vsprintf formatted convert port_str c_string
serio_init_lem inb fuel s sends =
    let (t, returns, wrote) =
      serio_puts_lem inb serio_com1 fuel greeting true
        (record s { ports = s.ports ++ setup serio_com1 }) sends in
    (t, rw returns refl, wrote)

-- The outcomes of `kinit`: it refuses a wrong magic number and a missing record; otherwise the record is
-- at its new place, the port is set up, the screen is empty and the heap is at its address.
pub data Starts (g_info boot_magic mbi : ℕ) (s : Boot) (result : Result Boot) : Type 0 where
  wrong_magic :
      boot_magic ≢ 0x2badb002
      → result ≡ panicked "kinit not called with correct multiboot magic"
      → Starts g_info boot_magic mbi s result
  no_record :
      boot_magic ≡ 0x2badb002
      → mbi ≡ 0
      → result ≡ panicked "NULL multiboot info record passed to kinit"
      → Starts g_info boot_magic mbi s result
  started :
      (t : Boot)
      → result ≡ ok t
      → info_at t.bytes g_info ≡ info_at s.bytes mbi
      → t.serial.ports
        ≡ (s.serial.ports ++ setup serio_com1) ++ sent serio_com1 (greeting ++ 13 ∷ 10 ∷ [])
      → ((a : ℕ) → t.tty.cells a ≡ (if ltb a 1920 then clear_char else s.tty.cells a))
      → t.heap ≡ record s.heap { kheap = record s.heap.kheap { base = kheap_start; size = 0 } }
      → t.interrupts
        ≡ record s.interrupts { ports = (s.interrupts.ports ++ (0x21, 1) ∷ []) ++ (0x21, 0) ∷ [] }
      → Starts g_info boot_magic mbi s result

-- Before `int_init` no IRQ is masked: the screen is cleared with the timer's IRQ masked, and unmasked then.
tty_clear_start :
    (i : Interrupts) (s : Tty)
    → tty_clear (record i { irq_mask = 0 }, s)
      ≡ ok (
        tt,
        (
          record i { irq_mask = 0; ports = (i.ports ++ (0x21, 1) ∷ []) ++ (0x21, 0) ∷ [] },
          record s {
            tty_row = 0;
            tty_col = 0;
            cells = blank_rows 24 0 s.cells;
            ports = s.ports ++ cursor 0;
          },
        ),
      )
unfolding tty_clear update_cursor critical int_lock_region int_unlock_region int_irq_enabled
    int_mask_irq int_unmask_irq set_raw_mask send_byte
tty_clear_start i s = refl

kernel_heap_init_lem :
    (k : KernelHeap)
    → kernel_heap_init k ≡ ok (record k { kheap = record k.kheap { base = kheap_start; size = 0 } })
unfolding kernel_heap_init heap_alloc
kernel_heap_init_lem k = refl

module _ (g_info mbi : ℕ) (b : Bytes) (apart : (g_info ≤ mbi) ⊎ (mbi + 120 ≤ g_info)) where
  byte : (j a c : ℕ) → g_info + j ≡ a → mbi + j ≡ c → j < 120 → memcpy g_info mbi 120 b a ≡ b c
  byte j a c e f h =
      let inside : within g_info 120 a ≡ true = ground (arith, e) in
      memcpy_lem g_info mbi 120 b apart a ∙ (rw inside (ap b (omega (arith, e, f))))

  field :
      (j a c : ℕ)
      → g_info + j ≡ a
      → mbi + j ≡ c
      → j + 4 ≤ 120
      → word (memcpy g_info mbi 120 b) a ≡ word b c
  field j a c e f h = omega (
    arith,
    byte j a c e f (omega (arith, h)),
    byte (j + 1) (a + 1) (c + 1) (omega (arith, e)) (omega (arith, f)) (omega (arith, h)),
    byte (j + 2) (a + 2) (c + 2) (omega (arith, e)) (omega (arith, f)) (omega (arith, h)),
    byte (j + 3) (a + 2 + 1) (c + 2 + 1) (omega (arith, e)) (omega (arith, f)) (omega (arith, h)),
  )

  -- The record is the same at its new place.
  info_at-memcpy : info_at (memcpy g_info mbi 120 b) g_info ≡ info_at b mbi
  info_at-memcpy = λ i. record {
    flags = field 0 g_info mbi (omega arith) (omega arith) (omega arith) i;
    mem_lower = field 4 (g_info + 4) (mbi + 4) refl refl (omega arith) i;
    mem_upper = field 8 (g_info + 8) (mbi + 8) refl refl (omega arith) i;
    boot_device = field 12 (g_info + 12) (mbi + 12) refl refl (omega arith) i;
    cmdline = field 16 (g_info + 16) (mbi + 16) refl refl (omega arith) i;
    mods_count = field 20 (g_info + 20) (mbi + 20) refl refl (omega arith) i;
    mods_addr = field 24 (g_info + 24) (mbi + 24) refl refl (omega arith) i;
    u0 = field 28 (g_info + 28) (mbi + 28) refl refl (omega arith) i;
    u1 = field 32 (g_info + 32) (mbi + 32) refl refl (omega arith) i;
    u2 = field 36 (g_info + 36) (mbi + 36) refl refl (omega arith) i;
    u3 = field 40 (g_info + 40) (mbi + 40) refl refl (omega arith) i;
    mmap_length = field 44 (g_info + 44) (mbi + 44) refl refl (omega arith) i;
    mmap_addr = field 48 (g_info + 48) (mbi + 48) refl refl (omega arith) i;
  }

module _ (inb : ℕ → ℕ → ℕ) (fuel : ℕ) (sends : Sends inb fuel serio_com1)
    (g_info boot_magic mbi : ℕ) (apart : (g_info ≤ mbi) ⊎ (mbi + 120 ≤ g_info)) (s : Boot)
    (cleared : s.interrupts.irq_mask ≡ 0) where
  pub kinit_lem : Starts g_info boot_magic mbi s (kinit inb fuel g_info boot_magic mbi s)
  unfolding kinit tty_init
  kinit_lem = elim (Bool-cases (boot_magic == 0x2badb002)) [
    | inr e ↦ wrong_magic (==_false→ne boot_magic 0x2badb002 e) (rw e refl)
    | inl e ↦ elim (Bool-cases (mbi == 0)) [
      | inl null ↦
          no_record ((==_iff boot_magic 0x2badb002).0 e) ((==_iff mbi 0).0 null) (rw (e, null) refl)
      | inr there ↦
          let (serial, sets, wrote) = serio_init_lem inb fuel s.serial sends in
          let unmasked : s.interrupts ≡ record s.interrupts { irq_mask = 0 } =
            ap (λ (n : ℕ). record s.interrupts { irq_mask = n }) cleared in
          let clears =
            ap (λ (i : Interrupts). tty_clear (i, s.tty)) unmasked
            ∙ tty_clear_start s.interrupts s.tty in
          let same =
            ap
              (λ (n : ℕ). record s.interrupts {
                irq_mask = n;
                ports = (s.interrupts.ports ++ (0x21, 1) ∷ []) ++ (0x21, 0) ∷ [];
              })
              (sym cleared) in
          started
            (record {
              bytes = memcpy g_info mbi 120 s.bytes;
              serial = serial;
              interrupts = record s.interrupts {
                irq_mask = 0;
                ports = (s.interrupts.ports ++ (0x21, 1) ∷ []) ++ (0x21, 0) ∷ [];
              };
              tty = record s.tty {
                tty_row = 0;
                tty_col = 0;
                cells = blank_rows 24 0 s.tty.cells;
                ports = s.tty.ports ++ cursor 0;
              };
              heap = record s.heap { kheap = record s.heap.kheap { base = kheap_start; size = 0 } };
            })
            (rw (e, there, sets, clears, kernel_heap_init_lem s.heap) refl)
            (info_at-memcpy g_info mbi s.bytes apart) wrote
            (λ a. blank_rows_lem 24 0 s.tty.cells a ∙ ground arith) refl same
    ]
  ]
