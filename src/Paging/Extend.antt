-- ===== src/Paging/Extend.antt =====
-- `page_map` of a page whose slot of the directory has no table.
use treeos.Base.{
  ℕ, ◌*◌, ◌/◌, ◌%◌, ◌^◌, ◌<◌, ◌≡◌, ◌≢◌, refl, arith, Bool, true, false, Option, none, some, List,
  Result, ok, panicked, ◌>>=◌, ◌==◌, if◌then◌else◌, add32, ◌∙◌, sym, ap, subst, inl, inr,
  Bool-cases, ==_refl, ==_iff, ==_false→ne, ne→==_false,
}
use treeos.Bitmap.{bitmap_test_bit}
use treeos.Bitmap.Bits.{taken, test_bit_lem}
use treeos.Frames.{Entry, Frames, page_alloc}
use treeos.Frames.Region.{IsFrames}
use treeos.Frames.Alloc.{allocated, exhausted, page_alloc_lem}
use treeos.Paging.{
  Memory, walk, blank, page_map, page_map_fuel, need_table, fill_entry, paging_structure_alloc,
}
use treeos.Paging.Walk.{IsRooted, aliases, walk-dir}
use treeos.Paging.Map.{window, Maps, fresh, already, page_map_lem}
use treeos.Paging.Table.{IsOwned, Built, need_table_lem}
use treeos.Paging.Map.{to_fill}

-- `page` was mapped through a new table: it is in page `p`, which was free and is in use, and to which the
-- page of the placement heap, with the pages that have its table entry, is mapped now; every other page
-- below the window on the tables is as before, and so is every other slot of the directory.
pub record Extended (m : Memory) (words : List ℕ) (page frame : ℕ) (result : Result Memory)
    : Type 0 where
  pub after : Memory
  pub p : ℕ
  pub out : List ℕ
  pub returns : result ≡ ok after
  pub was_free : taken words p ≡ false
  pub below : p < 32768
  pub frames : IsFrames after.frames out
  pub used : (j : ℕ) → taken out j ≡ (if p == j then true else taken words j)
  pub present : (after.tables m.dir (page / 1024)).present ≡ true
  pub address : (after.tables m.dir (page / 1024)).address ≡ p
  pub slots : (j : ℕ) → j ≢ page / 1024 → after.tables m.dir j ≡ m.tables m.dir j
  pub same_dir : after.dir ≡ m.dir
  pub same_count : after.frames.page_bitmap.word_count ≡ m.frames.page_bitmap.word_count
  pub heap : after.placement_heap ≡ add32 m.placement_heap 4096
  pub rooted : IsRooted after
  pub each :
      (q : ℕ)
      → q / 1024 < 1023
      → walk after q ≡ (
          if page == q
          then some frame
          else if aliases m (m.placement_heap / 4096) q
          then some p
          else walk m q)

-- The outcomes of `page_map` for a page without a table: it is mapped through a new one; or every page is in
-- use, and it panics.
pub data Extends (m : Memory) (words : List ℕ) (page frame : ℕ) (result : Result Memory)
    : Type 0 where
  extended : Extended m words page frame result → Extends m words page frame result
  no_page_left :
      result ≡ panicked "out of memory"
      → ((j : ℕ) → j < m.frames.page_bitmap.word_count * 32 → taken words j ≡ true)
      → Extends m words page frame result

module _ (m : Memory) (words : List ℕ) (own : IsOwned m words) (vaddr : ℕ) (low : vaddr < window)
    (aligned : vaddr % 4096 ≡ 0) (absent : (m.tables m.dir (vaddr / 2 ^ 22)).present ≡ false)
    (phys : ℕ) (phys_aligned : phys % 4096 ≡ 0) (inside : phys / 4096 < 32768)
    (in_use : taken words (phys / 4096) ≡ true) (rw_flag user : Bool) where
  test_used : bitmap_test_bit m.frames.page_bitmap (phys / 4096) ≡ ok true
  test_used =
      test_bit_lem own.frames.holds (phys / 4096) (omega (arith, own.frames.size, inside))
      ∙ ap ok in_use

  index : vaddr / 4096 / 1024 ≡ vaddr / 2 ^ 22
  index = omega arith

  guards : page_map phys vaddr rw_flag user m ≡ (
      need_table (page_map_fuel 2) (vaddr / 2 ^ 22) m >>= λ m. fill_entry phys vaddr rw_flag user m)
  unfolding page_map
  guards = rw (phys_aligned, aligned, test_used) refl

  -- Without a page for the table.
  exhausted_panics :
      page_alloc (some blank) m.frames ≡ ok (none, m.frames)
      → page_map phys vaddr rw_flag user m ≡ panicked "out of memory"
  unfolding need_table paging_structure_alloc
  exhausted_panics none_left =
      guards
      ∙ (rw
          (
            walk-dir m own.rooted.recursive (vaddr / 2 ^ 22),
            absent,
            walk-dir m own.rooted.recursive (vaddr / 2 ^ 22),
            own.heap_aligned,
            none_left,
          )
          refl)

  module _ (p : ℕ) (g : Frames) (out : List ℕ) (free : taken words p ≡ false) (small : p < 32768)
      (valid : IsFrames g out)
      (used : (j : ℕ) → taken out j ≡ (if p == j then true else taken words j))
      (count : g.page_bitmap.word_count ≡ m.frames.page_bitmap.word_count)
      (b : Built m (vaddr / 2 ^ 22) p g (need_table (page_map_fuel 2) (vaddr / 2 ^ 22) m)) where
    b-IsRooted : IsRooted b.after
    b-IsRooted = record {
      recursive = record {
        present = rw (b.same_dir, b.slots 1023 (omega (arith, low))) own.rooted.recursive.present;
        address = rw (b.same_dir, b.slots 1023 (omega (arith, low))) own.rooted.recursive.address;
      };
      not_dir = λ j lt. rw b.same_dir (elim (Bool-cases (j == vaddr / 2 ^ 22)) [
        | inl e ↦ λ here same. free_dir (
            sym b.address
            ∙ ap (λ (z : ℕ). (b.after.tables m.dir z).address) (sym ((==_iff _ _).0 e))
            ∙ same)
        | inr e ↦ rw (b.slots j (==_false→ne _ _ e)) (own.rooted.not_dir j lt)
      ]);
    }
      where
        free_dir : p ≢ m.dir
        free_dir e = clash (ap (taken words) e ∙ own.dir_used)
          where
            clash : taken words p ≡ true → ⊥
            clash z = ground (arith, free, z)

    used_then : bitmap_test_bit b.after.frames.page_bitmap (phys / 4096) ≡ ok true
    used_then =
        ap (λ (f : Frames). bitmap_test_bit f.page_bitmap (phys / 4096)) b.frames
        ∙ test_bit_lem valid.holds (phys / 4096) (omega (arith, valid.size, inside))
        ∙ ap ok (ground (arith, used (phys / 4096), in_use))

    there : (b.after.tables b.after.dir (vaddr / 2 ^ 22)).present ≡ true
    there = rw b.same_dir b.present

    filled : page_map phys vaddr rw_flag user b.after ≡ fill_entry phys vaddr rw_flag user b.after
    filled =
        to_fill b.after b-IsRooted vaddr low aligned there phys (omega (arith, inside)) phys_aligned
          used_then rw_flag user

    through : page_map phys vaddr rw_flag user m ≡ page_map phys vaddr rw_flag user b.after
    through = guards ∙ (rw b.returns (sym filled))

    page_slot :
        (q : ℕ) → q / 1024 ≡ vaddr / 2 ^ 22 → q % 1024 ≡ vaddr / 4096 % 1024 → vaddr / 4096 ≡ q
    page_slot q e f = omega (arith, e, f)

    -- The new table serves its own slot alone.
    aliases-new : (q : ℕ) → q / 1024 < 1023 → aliases b.after (vaddr / 4096) q ≡ (vaddr / 4096 == q)
    aliases-new q lt = elim (Bool-cases (q / 1024 == vaddr / 2 ^ 22)) [
      | inl e ↦
          let here = (==_iff (q / 1024) (vaddr / 2 ^ 22)).0 e in
          rw
            (
              b.same_dir,
              index,
              here,
              b.present,
              ==_refl (b.after.tables m.dir (vaddr / 2 ^ 22)).address,
            )
            (same_page q here)
      | inr e ↦
          let ne = ==_false→ne (q / 1024) (vaddr / 2 ^ 22) e in
          let other : (vaddr / 4096 == q) ≡ false =
            ne→==_false (vaddr / 4096) q (λ z. ne (ap (λ (x : ℕ). x / 1024) (sym z) ∙ index)) in
          rw (b.same_dir, index, b.slots (q / 1024) ne, b.address, other)
            (elim (Bool-cases (m.tables m.dir (q / 1024)).present) [
              | inr none_there ↦ rw none_there refl
              | inl there ↦
                  rw (there, ne→==_false p _ (not_table (q / 1024) (omega arith) there)) refl
            ])
    ]
      where
        same_page :
            (q : ℕ)
            → q / 1024 ≡ vaddr / 2 ^ 22
            → (vaddr / 4096 % 1024 == q % 1024) ≡ (vaddr / 4096 == q)
        same_page q e = let f : vaddr / 4096 / 1024 ≡ vaddr / 2 ^ 22 = index in ground (arith, e, f)

        not_table :
            (j : ℕ) → j < 1024 → (m.tables m.dir j).present ≡ true → p ≢ (m.tables m.dir j).address
        not_table j lt here e = clash (ap (taken words) e ∙ own.tables_used j lt here)
          where
            clash : taken words p ≡ true → ⊥
            clash z = ground (arith, free, z)

    then-Maps :
        Maps b.after (vaddr / 4096) (phys / 4096) (page_map phys vaddr rw_flag user b.after)
        → Extended m words (vaddr / 4096) (phys / 4096) (page_map phys vaddr rw_flag user m)
    then-Maps (already old here r) = absurd (clash (sym (b.empty (vaddr / 4096) index) ∙ here))
      where
        clash : ◌≡◌ {A = Option ℕ} none (some old) → ⊥
        clash e = cc
    then-Maps (fresh none_there w) = record {
      after = w.after;
      p = p;
      out = out;
      returns = through ∙ w.returns;
      was_free = free;
      below = small;
      frames = subst (λ (f : Frames). IsFrames f out) (sym (w.same_frames ∙ b.frames)) valid;
      used = used;
      present =
          ap (λ (j : ℕ). (w.after.tables m.dir j).present) index
          ∙ ap (λ (e : Entry). e.present) (same_slot (vaddr / 2 ^ 22))
          ∙ b.present;
      address =
          ap (λ (j : ℕ). (w.after.tables m.dir j).address) index
          ∙ ap (λ (e : Entry). e.address) (same_slot (vaddr / 2 ^ 22))
          ∙ b.address;
      slots = λ j ne. same_slot j ∙ b.slots j (λ e. ne (e ∙ sym index));
      same_dir = w.same_dir ∙ b.same_dir;
      same_count = ap (λ (f : Frames). f.page_bitmap.word_count) (w.same_frames ∙ b.frames) ∙ count;
      heap = w.same_heap ∙ b.heap;
      rooted = w.tree;
      each = λ q lt. w.each q ∙ (rw (aliases-new q lt) (rest q lt));
    }
      where
        same_slot : (j : ℕ) → w.after.tables m.dir j ≡ b.after.tables m.dir j
        same_slot j =
            ap (λ (d : ℕ). w.after.tables d j) (sym b.same_dir)
            ∙ w.same_slots j
            ∙ ap (λ (d : ℕ). b.after.tables d j) b.same_dir

        rest :
            (q : ℕ)
            → q / 1024 < 1023
            → (if vaddr / 4096 == q then some (phys / 4096) else walk b.after q) ≡ (
                if vaddr / 4096 == q
                then some (phys / 4096)
                else if aliases m (m.placement_heap / 4096) q
                then some p
                else walk m q)
        rest q lt =
            ap (λ (w : Option ℕ). if vaddr / 4096 == q then some (phys / 4096) else w) (before q lt)
          where
            before :
                (q : ℕ)
                → q / 1024 < 1023
                → walk b.after q
                  ≡ (if aliases m (m.placement_heap / 4096) q then some p else walk m q)
            before q lt = elim (Bool-cases (q / 1024 == vaddr / 2 ^ 22)) [
              | inl e ↦
                  let here = (==_iff (q / 1024) (vaddr / 2 ^ 22)).0 e in
                  b.empty q here ∙ (rw (here, absent) refl)
              | inr e ↦ b.walks q lt (==_false→ne _ _ e)
            ]

    mapped_then : Extended m words (vaddr / 4096) (phys / 4096) (page_map phys vaddr rw_flag user m)
    mapped_then = then-Maps (
        page_map_lem b.after b-IsRooted vaddr low aligned there phys (omega (arith, inside))
          phys_aligned used_then rw_flag user)

-- Where the directory is owned and has no table for an aligned address below the window on the tables,
-- `page_map` makes one from a page that was free, or panics because no page is. The page that is mapped
-- is one in use.
pub page_map-Extends :
    (m : Memory) (words : List ℕ)
    → IsOwned m words
    → (vaddr : ℕ) → vaddr < window
    → vaddr % 4096 ≡ 0
    → (m.tables m.dir (vaddr / 2 ^ 22)).present ≡ false
    → (phys : ℕ) → phys % 4096 ≡ 0
    → phys / 4096 < 32768
    → taken words (phys / 4096) ≡ true
    → (rw_flag user : Bool)
    → Extends m words (vaddr / 4096) (phys / 4096) (page_map phys vaddr rw_flag user m)
page_map-Extends m words own vaddr low aligned absent phys phys_aligned inside in_use rw_flag user =
    elim (page_alloc_lem blank own.frames) [
      | exhausted r all ↦
          no_page_left
            (exhausted_panics m words own vaddr low aligned absent phys phys_aligned inside in_use
              rw_flag user r)
            all
      | allocated p g out r lt free before valid each count worries ↦
          let small : p < 32768 = omega (arith, lt, own.frames.size, own.frames.holds.enough) in
          let b =
            need_table_lem m words own (vaddr / 2 ^ 22) (omega (arith, low)) absent p g out r free
              small valid each in
          extended (
            mapped_then m words own vaddr low aligned absent phys phys_aligned inside in_use rw_flag
              user p g out free small valid each count b)
    ]
