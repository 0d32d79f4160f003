-- ===== src/Paging/Table.antt =====
-- `page_map` where the directory has no table for the address: a free page becomes the table, which the
-- placement heap has its next page for.
use treeos.Base.{
  ℕ, ◌+◌, ◌*◌, ◌/◌, ◌%◌, ◌^◌, ◌<◌, ◌≡◌, ◌≢◌, refl, arith, true, false, Option, none, some, List,
  Result, ok, ◌==◌, if◌then◌else◌, add32, ◌∙◌, sym, ap, subst, inl, inr, Bool-cases, ==_refl,
  ne→==_false,
}
use treeos.Bitmap.{bitmap_test_bit}
use treeos.Bitmap.Bits.{taken, test_bit_lem}
use treeos.Frames.{Entry, Frames, page_alloc}
use treeos.Frames.Region.{IsFrames}
use treeos.Paging.{
  Memory, update, walk, blank, page_map, page_map_fuel, need_table, paging_structure_alloc,
  virt_to_phys,
}
use treeos.Paging.Walk.{IsRecursive, IsRooted, aliases, walk-dir}
use treeos.Paging.Map.{
  window, Rewires, Maps, fresh, already, page_map_lem, Resolves, resolved, no_table, no_page,
  virt_to_phys_lem,
}
use treeos.Paging.Fuel.{fuel_one}

-- The directory and its tables are in pages that are in use; what is left in a slot without a table does
-- not lead to the directory; and the page of the placement heap has a table and is free.
pub record IsOwned (m : Memory) (words : List ℕ) : Type 0 where
  pub frames : IsFrames m.frames words
  pub rooted : IsRooted m
  pub stale : (i : ℕ) → i < 1023 → (m.tables m.dir i).address ≢ m.dir
  pub dir_used : taken words m.dir ≡ true
  pub tables_used :
      (i : ℕ)
      → i < 1024
      → (m.tables m.dir i).present ≡ true
      → taken words (m.tables m.dir i).address ≡ true
  pub heap_aligned : m.placement_heap % 4096 ≡ 0
  pub heap_low : m.placement_heap < window
  pub heap_table : (m.tables m.dir (m.placement_heap / 2 ^ 22)).present ≡ true
  pub heap_free : walk m (m.placement_heap / 4096) ≡ none

-- `result` is `m` with an empty table for slot `i` in page `p`; the page of the heap is mapped to `p`, and
-- so are the pages that have its table entry; every other page is as before.
pub record Built (m : Memory) (i p : ℕ) (g : Frames) (result : Result Memory) : Type 0 where
  pub after : Memory
  pub returns : result ≡ ok after
  pub present : (after.tables m.dir i).present ≡ true
  pub address : (after.tables m.dir i).address ≡ p
  pub slots : (j : ℕ) → j ≢ i → after.tables m.dir j ≡ m.tables m.dir j
  pub empty : (q : ℕ) → q / 1024 ≡ i → walk after q ≡ none
  pub walks :
      (q : ℕ)
      → q / 1024 < 1023
      → q / 1024 ≢ i
      → walk after q ≡ (if aliases m (m.placement_heap / 4096) q then some p else walk m q)
  pub same_dir : after.dir ≡ m.dir
  pub frames : after.frames ≡ g
  pub heap : after.placement_heap ≡ add32 m.placement_heap 4096

module _ (m : Memory) (words : List ℕ) (own : IsOwned m words) (i : ℕ) (low : i < 1023)
    (absent : (m.tables m.dir i).present ≡ false) (p : ℕ) (g : Frames) (out : List ℕ)
    (alloc : page_alloc (some blank) m.frames ≡ ok (some (record blank { address = p }), g))
    (free : taken words p ≡ false) (small : p < 32768) (valid : IsFrames g out)
    (each : (j : ℕ) → taken out j ≡ (if p == j then true else taken words j)) where
  abbrev k : ℕ
  k = m.placement_heap / 2 ^ 22

  abbrev s : ℕ
  s = m.placement_heap / 4096 % 1024

  abbrev mark : Entry
  mark = record (m.tables m.dir i) { present = true; rw = true; user = true }

  -- Slot `i` is marked, and page `p` is in use.
  abbrev pub marked : Memory
  marked = record m { frames = g; tables = update m.tables m.dir i mark }

  marked-dir : (j : ℕ) → marked.tables m.dir j ≡ (if i == j then mark else m.tables m.dir j)
  marked-dir j = rw (==_refl m.dir) refl

  marked-IsRooted : IsRooted marked
  marked-IsRooted = record {
    recursive = record {
      present = ground (arith, own.rooted.recursive.present);
      address = ground (arith, own.rooted.recursive.address);
    };
    not_dir = λ j lt here. elim (Bool-cases (i == j)) [
      | inl e ↦ rw (==_refl m.dir, e) (own.stale i low)
      | inr e ↦ rw (==_refl m.dir, e) (own.stale j lt)
    ];
  }

  marked-used : bitmap_test_bit g.page_bitmap (p * 4096 / 4096) ≡ ok true
  marked-used =
      subst (λ (i : ℕ). bitmap_test_bit g.page_bitmap i ≡ ok true) (omega arith)
        (test_bit_lem valid.holds p (omega (arith, valid.size, small))
          ∙ ap ok (each p ∙ rw (==_refl p) refl))

  apart : i ≢ k
  apart e = clash (ap (λ (j : ℕ). (m.tables m.dir j).present) e ∙ own.heap_table)
    where
      clash : (m.tables m.dir i).present ≡ true → ⊥
      clash z = ground (arith, absent, z)

  marked-heap : (marked.tables m.dir k).present ≡ true
  marked-heap = rw (marked-dir k, ne→==_false i k apart) own.heap_table

  -- The page of the heap is mapped to `p`.
  pub heap_mapped :
      Maps marked
        (m.placement_heap / 4096)
        (p * 4096 / 4096)
        (page_map_fuel 2 (p * 4096) m.placement_heap true false marked)
  unfolding page_map
  heap_mapped =
      subst (Maps marked (m.placement_heap / 4096) (p * 4096 / 4096))
        (fuel_one 2 (p * 4096) m.placement_heap true false marked marked-IsRooted.recursive
            marked-heap
          ∙ sym (
              fuel_one 1 (p * 4096) m.placement_heap true false marked marked-IsRooted.recursive
                marked-heap))
        (page_map_lem marked marked-IsRooted m.placement_heap own.heap_low own.heap_aligned
          marked-heap (p * 4096) (omega (arith, small)) (omega arith) marked-used true false)

  not_dir : p ≢ m.dir
  not_dir e = clash (ap (taken words) e ∙ own.dir_used)
    where
      clash : taken words p ≡ true → ⊥
      clash z = ground (arith, free, z)

  not_table :
      (j : ℕ) → j < 1024 → (m.tables m.dir j).present ≡ true → p ≢ (m.tables m.dir j).address
  not_table j lt here e = clash (ap (taken words) e ∙ own.tables_used j lt here)
    where
      clash : taken words p ≡ true → ⊥
      clash z = ground (arith, free, z)

  -- A page with another slot is walked to before slot `i` was marked as it is then.
  walk-marked : (q : ℕ) → q / 1024 < 1023 → q / 1024 ≢ i → walk marked q ≡ walk m q
  walk-marked q lt ne =
      rw (marked-dir (q / 1024), ne→==_false i (q / 1024) (λ e. ne (sym e)))
        (elim (Bool-cases (m.tables m.dir (q / 1024)).present) [
          | inr absent ↦ rw absent refl
          | inl there ↦
              rw (ne→==_false m.dir _ (λ e. own.rooted.not_dir (q / 1024) lt there (sym e))) refl
        ])

  pub heap_unmapped : walk marked (m.placement_heap / 4096) ≡ none
  heap_unmapped =
      let e : m.placement_heap / 4096 / 1024 ≡ k = omega arith in
      walk-marked (m.placement_heap / 4096) (omega (arith, own.heap_low)) (λ z. apart (sym z ∙ e))
      ∙ own.heap_free

  module _
      (w : Rewires marked
        (m.placement_heap / 4096)
        (some (p * 4096 / 4096))
        (page_map_fuel 2 (p * 4096) m.placement_heap true false marked)) where
    -- The table is cleared, the heap moves on, and the slot leads to the table.
    abbrev cleared : Memory
    cleared = record w.after {
      tables = λ frame' j. if p == frame' then blank else w.after.tables frame' j;
      placement_heap = add32 w.after.placement_heap 4096;
    }

    abbrev linked : Memory
    linked = record cleared {
      tables = update cleared.tables w.after.dir i (record mark { address = p });
    }

    away_dir : p ≢ w.after.dir
    away_dir e = not_dir (e ∙ w.same_dir)

    after-dir : (j : ℕ) → w.after.tables w.after.dir j ≡ (if i == j then mark else m.tables m.dir j)
    after-dir j = ap (λ (d : ℕ). w.after.tables d j) w.same_dir ∙ w.same_slots j ∙ marked-dir j

    after-other : (j : ℕ) → j ≢ i → w.after.tables w.after.dir j ≡ m.tables m.dir j
    after-other j ne = after-dir j ∙ rw (ne→==_false i j (λ e. ne (sym e))) refl

    cleared-dir : (j : ℕ) → cleared.tables w.after.dir j ≡ w.after.tables w.after.dir j
    cleared-dir j = rw (ne→==_false p w.after.dir away_dir) refl

    cleared-IsRecursive : IsRecursive cleared
    cleared-IsRecursive = record {
      present = rw (cleared-dir 1023, after-other 1023 (omega arith)) own.rooted.recursive.present;
      address =
          rw (cleared-dir 1023, after-other 1023 (omega arith))
            (own.rooted.recursive.address ∙ sym w.same_dir);
    }

    walk-cleared : (q : ℕ) → q / 1024 < 1023 → q / 1024 ≢ i → walk cleared q ≡ walk w.after q
    walk-cleared q lt ne =
        rw (cleared-dir (q / 1024), after-other (q / 1024) ne)
          (elim (Bool-cases (m.tables m.dir (q / 1024)).present) [
            | inr absent ↦ rw absent refl
            | inl there ↦ rw (ne→==_false p _ (not_table (q / 1024) (omega arith) there)) refl
          ])

    linked-other : (j : ℕ) → j ≢ i → linked.tables w.after.dir j ≡ m.tables m.dir j
    linked-other j ne =
        rw (==_refl w.after.dir, ne→==_false i j (λ e. ne (sym e)), cleared-dir j)
          (after-other j ne)

    linked-here : linked.tables w.after.dir i ≡ record mark { address = p }
    linked-here = rw (==_refl w.after.dir, ==_refl i) refl

    walk-linked : (q : ℕ) → q / 1024 < 1023 → q / 1024 ≢ i → walk linked q ≡ walk cleared q
    walk-linked q lt ne =
        rw (linked-other (q / 1024) ne, cleared-dir (q / 1024), after-other (q / 1024) ne)
          (elim (Bool-cases (m.tables m.dir (q / 1024)).present) [
            | inr absent ↦ rw absent refl
            | inl there ↦
                rw
                  (ne→==_false w.after.dir _
                    (λ e. own.rooted.not_dir (q / 1024) lt there (sym e ∙ w.same_dir)))
                  refl
          ])

    to_p : walk w.after (w.after.placement_heap / 4096) ≡ some p
    to_p = ap (λ (h : ℕ). walk w.after (h / 4096)) w.same_heap ∙ w.maps ∙ ap some (omega arith)

    heap_slot : w.after.placement_heap / 4096 / 1024 ≡ k
    heap_slot = omega (arith, w.same_heap)

    cleared_to_p : walk cleared (w.after.placement_heap / 4096) ≡ some p
    cleared_to_p =
        walk-cleared (w.after.placement_heap / 4096) (omega (arith, heap_slot, own.heap_low))
          (λ e. apart (sym e ∙ heap_slot))
        ∙ to_p

    heap_phys : virt_to_phys w.after.placement_heap cleared ≡ ok (p * 4096)
    heap_phys = go (
        virt_to_phys_lem cleared cleared-IsRecursive w.after.placement_heap
          (omega (arith, w.same_heap, own.heap_low)))
      where
        exact : (frame : ℕ) → frame ≡ p → frame * 4096 + w.after.placement_heap % 4096 ≡ p * 4096
        exact frame e = omega (arith, e, w.same_heap, own.heap_aligned)

        clash : walk cleared (w.after.placement_heap / 4096) ≡ none → ⊥
        clash e = two (sym cleared_to_p ∙ e)
          where
            two : ◌≡◌ {A = Option ℕ} (some p) none → ⊥
            two z = cc

        go :
            Resolves cleared w.after.placement_heap (virt_to_phys w.after.placement_heap cleared)
            → virt_to_phys w.after.placement_heap cleared ≡ ok (p * 4096)
        go (no_table a e r) = absurd (clash e)
        go (no_page a e r) = absurd (clash e)
        go (resolved frame e r) = r ∙ ap ok (exact frame (same (sym e ∙ cleared_to_p)))
          where
            same : ◌≡◌ {A = Option ℕ} (some frame) (some p) → frame ≡ p
            same z = cc

    aliases-marked :
        (q : ℕ)
        → q / 1024 ≢ i
        → aliases marked (m.placement_heap / 4096) q ≡ aliases m (m.placement_heap / 4096) q
    aliases-marked q ne =
        let e : m.placement_heap / 4096 / 1024 ≡ k = omega arith in
        rw
          (
            e,
            marked-dir k,
            marked-dir (q / 1024),
            ne→==_false i k apart,
            ne→==_false i (q / 1024) (λ z. ne (sym z)),
          )
          refl

    structure :
        paging_structure_alloc
          (page_map_fuel 2)
          (record m { tables = update m.tables m.dir i mark })
        ≡ ok (w.after.placement_heap, cleared)
    unfolding paging_structure_alloc
    structure = rw (own.heap_aligned, alloc, w.returns, to_p) refl

    cleared-here : cleared.tables w.after.dir i ≡ mark
    cleared-here = cleared-dir i ∙ after-dir i ∙ rw (==_refl i) refl

    returns : need_table (page_map_fuel 2) i m ≡ ok linked
    unfolding need_table
    returns =
        let number : p * 4096 / 4096 ≡ p = omega arith in
        rw
          (
            walk-dir m own.rooted.recursive i,
            absent,
            walk-dir m own.rooted.recursive i,
            structure,
            heap_phys,
            walk-dir cleared cleared-IsRecursive i,
            cleared-here,
            number,
          )
          refl

    pub built : Built m i p g (need_table (page_map_fuel 2) i m)
    built = record {
      after = linked;
      returns = returns;
      present =
          ap (λ (d : ℕ). (linked.tables d i).present) (sym w.same_dir)
          ∙ ap (λ (e : Entry). e.present) linked-here;
      address =
          ap (λ (d : ℕ). (linked.tables d i).address) (sym w.same_dir)
          ∙ ap (λ (e : Entry). e.address) linked-here;
      slots = λ j ne. ap (λ (d : ℕ). linked.tables d j) (sym w.same_dir) ∙ linked-other j ne;
      empty = λ q e.
          rw (e, linked-here, ne→==_false w.after.dir p (λ z. away_dir (sym z)), ==_refl p) refl;
      walks = λ q lt ne.
          walk-linked q lt ne
          ∙ walk-cleared q lt ne
          ∙ w.each q
          ∙ (rw (aliases-marked q ne, walk-marked q lt ne)
              (ap (λ (f : ℕ). if aliases m (m.placement_heap / 4096) q then some f else walk m q)
                (omega arith)));
      same_dir = w.same_dir;
      frames = w.same_frames;
      heap = ap (λ (h : ℕ). add32 h 4096) w.same_heap;
    }

  -- A page that was free becomes the table of slot `i`.
  pub need_table_lem : Built m i p g (need_table (page_map_fuel 2) i m)
  need_table_lem = go heap_mapped
    where
      go :
          Maps marked
            (m.placement_heap / 4096)
            (p * 4096 / 4096)
            (page_map_fuel 2 (p * 4096) m.placement_heap true false marked)
          → Built m i p g (need_table (page_map_fuel 2) i m)
      go (fresh none_there w) = built w
      go (already old here r) = absurd (clash (sym heap_unmapped ∙ here))
        where
          clash : ◌≡◌ {A = Option ℕ} none (some old) → ⊥
          clash e = cc
