-- ===== src/Tty/Remap.antt =====
-- `tty_remap`: the text buffer moves to its high address.
use treeos.Base.{
  ℕ, ◌+◌, ◌*◌, ◌/◌, ◌%◌, ◌^◌, ◌≤◌, ◌<◌, ◌≡◌, ◌≢◌, refl, arith, true, false, Option, none, some,
  List, Result, ok, panicked, add32, ◌∙◌, ap, sym, ◌==◌, ne→==_false, ==_false→ne, ==_iff, inl, inr,
  Bool-cases, ◌&&◌,
}
use treeos.Bitmap.Bits.{taken}
use treeos.Frames.{Entry}
use treeos.Paging.{Memory, walk}
use treeos.Paging.Walk.{IsRooted, aliases}
use treeos.Paging.Map.{alias-walk}
use treeos.Paging.Range.{map_pages, unmap_pages, Among, HasTables, Moves, unmap_pages_lem}
use treeos.Paging.Space.{IsSpace, Settled, settled, no_table_left, map_pages-Settles}
use treeos.Tty.{tty_remap, io_mmap_high_offset}

-- The buffer's address, and the high one.
abbrev pub high_of : ℕ → ℕ
high_of tty_buf = tty_buf + io_mmap_high_offset

-- The buffer is mapped below 4 MiB, and nothing is at its high address, not even a table; `words` are those
-- of the bitmap.
pub record IsMovable (tty_buf : ℕ) (m : Memory) (words : List ℕ) : Type 0 where
  pub small : tty_buf + 0x8000 ≤ 0x400000
  pub space : IsSpace 8 tty_buf (high_of tty_buf) m words
  pub table : (m.tables m.dir 0).present ≡ true
  pub no_table : (m.tables m.dir (high_of tty_buf / 2 ^ 22)).present ≡ false
  pub mapped : (j : ℕ) → j < 8 → (frame : ℕ) × (walk m (tty_buf / 4096 + j) ≡ some frame)

-- The eight pages of the buffer are mapped high and no longer low. Every other page below the window on the
-- tables stays, if its table entry is neither that of a low page nor that of the placement heap's page.
pub record IsRemapped (tty_buf : ℕ) (m : Memory) (result : Result (ℕ × Memory)) : Type 0 where
  pub after : Memory
  pub returns : result ≡ ok (high_of tty_buf, after)
  pub high : (j : ℕ) → j < 8 → walk after (high_of tty_buf / 4096 + j) ≡ some (tty_buf / 4096 + j)
  pub low : (j : ℕ) → j < 8 → walk after (tty_buf / 4096 + j) ≡ none
  pub others :
      (q : ℕ)
      → q / 1024 < 1023
      → ((j : ℕ)
          → j < 8
          → (high_of tty_buf / 4096 + j ≢ q) × (aliases m (tty_buf / 4096 + j) q ≡ false))
      → aliases m (m.placement_heap / 4096) q ≡ false
      → walk after q ≡ walk m q
  pub rooted : IsRooted after

-- The outcomes: the buffer has moved, or every page is in use and none is left for the table.
pub data Remaps (tty_buf : ℕ) (m : Memory) (words : List ℕ) (result : Result (ℕ × Memory))
    : Type 0 where
  moved : IsRemapped tty_buf m result → Remaps tty_buf m words result
  no_memory :
      result ≡ panicked "out of memory"
      → ((j : ℕ) → j < m.frames.page_bitmap.word_count * 32 → taken words j ≡ true)
      → Remaps tty_buf m words result

module _ (tty_buf : ℕ) (m : Memory) (words : List ℕ) (can : IsMovable tty_buf m words) where
  abbrev Up : Type 0
  Up = Settled 8 tty_buf (high_of tty_buf) m (map_pages true false 8 0 tty_buf (high_of tty_buf) m)

  slot_0 : (j : ℕ) → j < 8 → (tty_buf / 4096 + j) / 1024 ≡ 0
  slot_0 j h = omega (arith, can.small, can.space.phys_aligned, h)

  high_slot : ℕ
  high_slot = high_of tty_buf / 2 ^ 22

  high_ne : 0 ≢ high_of tty_buf / 2 ^ 22
  high_ne e = omega (arith, e)

  -- A page that is mapped does not have the entry of the heap's page, which is not.
  off_heap : (q frame : ℕ) → walk m q ≡ some frame → aliases m (m.placement_heap / 4096) q ≡ false
  off_heap q frame there = elim (Bool-cases (aliases m (m.placement_heap / 4096) q)) [
    | inr e ↦ e
    | inl e ↦ absurd (
        clash (
          sym can.space.own.heap_free
          ∙ sym (alias-walk m (m.placement_heap / 4096) q at e)
          ∙ there))
  ]
    where
      at : (m.tables m.dir (m.placement_heap / 4096 / 1024)).present ≡ true
      at = ap (λ (i : ℕ). (m.tables m.dir i).present) (omega arith) ∙ can.space.own.heap_table

      clash : ◌≡◌ {A = Option ℕ} none (some frame) → ⊥
      clash e = cc

  module _ (up : Up) where
    kept : HasTables 8 0 tty_buf up.after
    kept = record {
      rooted = up.rooted;
      aligned = can.space.phys_aligned;
      low = omega (arith, can.small);
      within = omega (arith, can.small);
      table =
          ap (λ (d : ℕ). (up.after.tables d (tty_buf / 2 ^ 22)).present) up.same_dir
          ∙ ap (λ (i : ℕ). (up.after.tables m.dir i).present) at
          ∙ ap (λ (e : Entry). e.present) (up.slots 0 high_ne)
          ∙ can.table;
    }
      where
        at : tty_buf / 2 ^ 22 ≡ 0
        at = omega (arith, can.small)

    still : (j : ℕ) → Among 8 0 j → (frame : ℕ) × (walk up.after (tty_buf / 4096 + j) ≡ some frame)
    still j among =
        let (frame, e) = can.mapped j (omega (arith, among.1)) in
        (
          frame,
          up.others (tty_buf / 4096 + j) (omega (arith, slot_0 j (omega (arith, among.1)))) (λ i h.
                (
                  λ same. omega (arith, same, can.small, among.1),
                  rw can.no_table (off_heap (tty_buf / 4096 + j) frame e),
                ))
              ∙ e,
        )

    -- The low pages and the page `q` have different entries.
    apart :
        (j q : ℕ)
        → j < 8
        → q / 1024 < 1023
        → (q / 1024 ≢ high_of tty_buf / 2 ^ 22 → aliases m (tty_buf / 4096 + j) q ≡ false)
        → aliases up.after (tty_buf / 4096 + j) q ≡ false
    apart j q h low away =
        rw (up.same_dir, slot_0 j h, up.slots 0 high_ne)
          (elim (Bool-cases (q / 1024 == high_of tty_buf / 2 ^ 22)) [
            | inr e ↦
                let ne : q / 1024 ≢ high_of tty_buf / 2 ^ 22 = ==_false→ne _ _ e in
                rw (up.slots (q / 1024) ne) (sym (rw (slot_0 j h) refl) ∙ away ne)
            | inl e ↦ shared q ((==_iff _ _).0 e)
          ])
      where
        shared :
            (q : ℕ)
            → q / 1024 ≡ high_of tty_buf / 2 ^ 22
            → ((up.after.tables m.dir (q / 1024)).present
                && ((m.tables m.dir 0).address == (up.after.tables m.dir (q / 1024)).address)
                && ((tty_buf / 4096 + j) % 1024 == q % 1024))
              ≡ false
        shared q e =
            rw
              (
                e,
                ne→==_false _ _
                    (up.unshared can.no_table 0 (omega arith) high_ne can.table (omega arith)),
              )
              (elim (Bool-cases (up.after.tables m.dir (high_of tty_buf / 2 ^ 22)).present) [
                | inl t ↦ rw t refl
                | inr f ↦ rw f refl
              ])

    finish :
        Moves 8 0 tty_buf (λ j. none) up.after (unmap_pages 8 0 tty_buf up.after)
        → IsRemapped tty_buf m (tty_remap tty_buf m)
    unfolding tty_remap
    finish down =
        let exact : add32 tty_buf 0xf0000000 ≡ high_of tty_buf = omega (arith, can.small) in
        record {
          after = down.after;
          returns = rw (exact, up.returns, down.returns) refl;
          high = λ j h.
              down.others (high_of tty_buf / 4096 + j) (λ i among.
                apart i (high_of tty_buf / 4096 + j) (omega (arith, among.1))
                  (omega (arith, can.small, can.space.phys_aligned, h))
                  (λ ne. absurd (ne (omega (arith, can.small, can.space.phys_aligned, h)))))
              ∙ up.maps j h;
          low = λ j h. down.maps j (omega arith, omega (arith, h));
          others = λ q fits away heap.
              down.others q (λ j among.
                apart j q (omega (arith, among.1)) fits (λ ne. (away j (omega (arith, among.1))).1))
              ∙ up.others q fits (λ j h. ((away j h).0, rw can.no_table heap));
          rooted = down.rooted;
        }

-- Where the directory and its tables are in frames in use, and the placement heap's page has a table and is
-- not mapped: the text buffer, eight pages below 4 MiB that are in use and mapped, moves to 0xf0000000 above its
-- address, where neither a page nor a table is: the frames there are those of its physical address, and the
-- low pages are unmapped. Every other page below the window on the tables stays, but for those that have
-- the table entry of a low page (as at 0xc0000000 above it) or of the placement heap's page, where the new
-- table is seen. It panics if no page is free.
pub tty_remap_lem :
    (tty_buf : ℕ) (m : Memory) (words : List ℕ)
    → IsMovable tty_buf m words
    → Remaps tty_buf m words (tty_remap tty_buf m)
unfolding tty_remap
tty_remap_lem tty_buf m words can =
    elim (map_pages-Settles 8 tty_buf (high_of tty_buf) m words can.space true false) [
      | settled up ↦ moved (
          finish tty_buf m words can up (
            unmap_pages_lem 8 0 tty_buf up.after (kept tty_buf m words can up)
              (still tty_buf m words can up)))
      | no_table_left absent r all ↦
          let exact : add32 tty_buf 0xf0000000 ≡ high_of tty_buf = omega (arith, can.small) in
          no_memory (rw (exact, r) refl) all
    ]
