-- ===== src/Paging/Map.antt =====
-- `page_map`, `page_unmap` and `virt_to_phys` against the walk of the hardware, for an address
-- whose table exists and which is below the window on the tables.
use Prim.Native.String.{String}
use treeos.Base.{
  ℕ, ◌+◌, ◌*◌, ◌/◌, ◌%◌, ◌^◌, ◌<◌, ◌≡◌, refl, arith, Bool, true, false, Option, none, some, Result,
  ok, panicked, ◌==◌, ◌∙◌, sym, inl, inr, ==_refl, ◌&&◌, if◌then◌else◌, Bool-cases, subst, ==_iff,
}
use treeos.Bitmap.{bitmap_test_bit}
use treeos.Frames.{Entry}
use treeos.Paging.{
  Memory, update, walk, blank, read_entry, write_entry, dir_page, table_page, page_map, page_unmap,
  virt_to_phys, need_table, fill_entry,
}
use treeos.Paging.Walk.{
  IsRecursive, IsRooted, aliases, walk-dir, walk-table, stored, stored-IsRooted, walk-stored,
  stored-dir, target,
}

-- The first address of the window on the tables.
abbrev pub window : ℕ
window = 0xffc00000

module _ (m : Memory) (rec : IsRecursive m) where
  pub read-dir : (i : ℕ) → read_entry dir_page i m ≡ ok (m.tables m.dir i)
  read-dir i = rw (walk-dir m rec) refl

  module _ (i : ℕ) (low : i < 1023) (here : (m.tables m.dir i).present ≡ true) where
    pub read-table :
        (slot : ℕ)
        → read_entry (table_page i) slot m ≡ ok (m.tables (m.tables m.dir i).address slot)
    read-table slot = rw (walk-table m rec i (omega arith) here) refl

    pub write-table :
        (slot : ℕ) (e : Entry)
        → write_entry (table_page i) slot e m
          ≡ ok (record m { tables = update m.tables (m.tables m.dir i).address slot e })
    write-table slot e = rw (walk-table m rec i (omega arith) here) refl

-- The outcomes of `virt_to_phys`: the address that the hardware would use, or a panic that says
-- what is missing.
pub data Resolves (m : Memory) (vaddr : ℕ) : Result ℕ → Type 0 where
  resolved :
      {result : Result ℕ} (frame : ℕ)
      → walk m (vaddr / 4096) ≡ some frame
      → result ≡ ok (frame * 4096 + vaddr % 4096)
      → Resolves m vaddr result
  no_table :
      {result : Result ℕ}
      → (m.tables m.dir (vaddr / 2 ^ 22)).present ≡ false
      → walk m (vaddr / 4096) ≡ none
      → result ≡ panicked "virtual address %x references invalid page directory entry %u"
      → Resolves m vaddr result
  no_page :
      {result : Result ℕ}
      → (m.tables m.dir (vaddr / 2 ^ 22)).present ≡ true
      → walk m (vaddr / 4096) ≡ none
      → result
        ≡ panicked "virtual address %x references invalid page table entry %u in page directory %u"
      → Resolves m vaddr result

module _ (m : Memory) (rec : IsRecursive m) (vaddr : ℕ) (low : vaddr < window) where
  abbrev pub pde : Entry
  pde = m.tables m.dir (vaddr / 2 ^ 22)

  abbrev pub slot : ℕ
  slot = vaddr / 2 ^ 12 % 2 ^ 10

  abbrev pub pte : Entry
  pte = m.tables pde.address slot

  index : vaddr / 4096 / 1024 ≡ vaddr / 2 ^ 22
  index = omega arith

  below : vaddr / 2 ^ 22 < 1023
  below = omega arith

  -- Where the last slot leads back to the directory, `virt_to_phys` of an address below the window on the
  -- tables gives the physical address that the hardware's walk gives, and panics where that walk finds no
  -- table or no page.
  pub virt_to_phys_lem : Resolves m vaddr (virt_to_phys vaddr m)
  unfolding virt_to_phys
  virt_to_phys_lem = rw (read-dir m rec (vaddr / 2 ^ 22)) (elim (Bool-cases pde.present) [
    | inr absent ↦ no_table absent (rw (index, absent) refl) (rw absent refl)
    | inl there ↦
        rw (there, read-table m rec (vaddr / 2 ^ 22) below there slot)
          (elim (Bool-cases pte.present) [
            | inr absent ↦ no_page there (rw (index, there, absent) refl) (rw absent refl)
            | inl mapped ↦ resolved pte.address (rw (index, there, mapped) refl) (rw mapped refl)
          ])
  ])

-- `result` is `m` with virtual page `page`, and every page that has its table entry, mapped to `frame`,
-- or to nothing, and no other page of the address space moved; the other state is as it was.
pub record Rewires (m : Memory) (page : ℕ) (frame : Option ℕ) (result : Result Memory)
    : Type 0 where
  pub after : Memory
  pub returns : result ≡ ok after
  pub maps : walk after page ≡ frame
  pub each : (q : ℕ) → walk after q ≡ (if aliases m page q then frame else walk m q)
  pub tree : IsRooted after
  pub same_dir : after.dir ≡ m.dir
  pub same_slots : (i : ℕ) → after.tables m.dir i ≡ m.tables m.dir i
  pub same_frames : after.frames ≡ m.frames
  pub same_heap : after.placement_heap ≡ m.placement_heap

abbrev pub already_present : String
already_present =
    "page table entry already present for virtual address %x (mapped to physical address %x)"

-- The outcomes of mapping `page` to `frame`: it is done, or the page is mapped and it panics.
pub data Maps (m : Memory) (page frame : ℕ) : Result Memory → Type 0 where
  fresh :
      {result : Result Memory}
      → walk m page ≡ none
      → Rewires m page (some frame) result
      → Maps m page frame result
  already :
      {result : Result Memory} (old : ℕ)
      → walk m page ≡ some old
      → result ≡ panicked already_present
      → Maps m page frame result

-- The outcomes of unmapping `page`, whose table exists.
pub data Unmaps (m : Memory) (page : ℕ) : Result Memory → Type 0 where
  gone :
      {result : Result Memory} (old : ℕ)
      → walk m page ≡ some old
      → Rewires m page none result
      → Unmaps m page result
  nothing :
      {result : Result Memory}
      → walk m page ≡ none
      → result ≡ panicked "page table entry not present for virtual address %x\n"
      → Unmaps m page result

and_parts : (a b : Bool) → (a && b) ≡ true → (a ≡ true) × (b ≡ true)
and_parts true b h = (refl, h)
and_parts false b h = absurd cc

-- Pages that have one table entry have one translation.
pub alias-walk :
    (m : Memory) (page q : ℕ)
    → (m.tables m.dir (page / 1024)).present ≡ true
    → aliases m page q ≡ true
    → walk m q ≡ walk m page
alias-walk m page q there h =
    let (sharing, entry) = and_parts _ (page % 1024 == q % 1024) h in
    let (here, table) = and_parts (m.tables m.dir (q / 1024)).present _ sharing in
    rw (here, there, (==_iff _ _).0 table, (==_iff _ _).0 entry) refl

module _ (m : Memory) (tree : IsRooted m) (vaddr : ℕ) (low : vaddr < window)
    (aligned : vaddr % 4096 ≡ 0) (there : (pde m tree.recursive vaddr low).present ≡ true) where
  abbrev i : ℕ
  i = vaddr / 2 ^ 22

  abbrev s : ℕ
  s = vaddr / 2 ^ 12 % 2 ^ 10

  abbrev entry : Entry
  entry = m.tables (m.tables m.dir i).address s

  walk-entry : walk m (vaddr / 4096) ≡ target entry
  walk-entry = let e : vaddr / 4096 / 1024 ≡ vaddr / 2 ^ 22 = omega arith in rw (e, there) refl

  rewires :
      (e : Entry) {result : Result Memory}
      → result ≡ write_entry (table_page i) s e m
      → Rewires m (vaddr / 4096) (target e) result
  rewires e is =
      let low' : i < 1023 = omega arith in
      let short : s < 1024 = omega arith in
      let moved = walk-stored m tree i s low' short there e in
      let slot_of : vaddr / 4096 / 1024 ≡ i = omega arith in
      let entry_of : vaddr / 4096 % 1024 ≡ s = omega arith in
      record {
        after = stored m tree i s low' short there e;
        returns = is ∙ write-table m tree.recursive i low' there s e;
        maps =
            moved (vaddr / 4096)
            ∙ rw (slot_of, entry_of, there, ==_refl (m.tables m.dir i).address, ==_refl s) refl;
        each = λ q. moved q ∙ rw (slot_of, entry_of) refl;
        tree = stored-IsRooted m tree i s low' short there e;
        same_dir = refl;
        same_slots = stored-dir m tree i s low' short there e;
        same_frames = refl;
        same_heap = refl;
      }

  module _ (phys : ℕ) (fits : phys < 2 ^ 32) (phys_aligned : phys % 4096 ≡ 0)
      (used : bitmap_test_bit m.frames.page_bitmap (phys / 4096) ≡ ok true)
      (rw_flag user : Bool) where
    pub to_fill : page_map phys vaddr rw_flag user m ≡ fill_entry phys vaddr rw_flag user m
    unfolding page_map need_table
    to_fill = rw (phys_aligned, aligned, used, read-dir m tree.recursive i, there) refl

    entry_to_write : Entry
    entry_to_write = record entry {
      present = true;
      rw = rw_flag;
      user = user;
      address = phys / 2 ^ 12;
    }

    fill-absent :
        entry.present ≡ false
        → fill_entry phys vaddr rw_flag user m ≡ write_entry (table_page i) s entry_to_write m
    unfolding fill_entry entry_to_write
    fill-absent absent = rw (read-table m tree.recursive i (omega arith) there s, absent) refl

    fill-present :
        entry.present ≡ true → fill_entry phys vaddr rw_flag user m ≡ panicked already_present
    unfolding fill_entry
    fill-present here = rw (read-table m tree.recursive i (omega arith) there s, here) refl

    -- In a directory that only its last slot leads back to, where the address is below the window on the
    -- tables and its table exists, `page_map` of aligned addresses and a page in use maps the page, and
    -- with it the pages that have the same table entry through another slot, and moves no other
    -- translation; or it panics if the page is mapped already.
    pub page_map_lem : Maps m (vaddr / 4096) (phys / 4096) (page_map phys vaddr rw_flag user m)
    unfolding entry_to_write
    page_map_lem = elim (Bool-cases entry.present) [
      | inl here ↦ already entry.address (walk-entry ∙ rw here refl) (to_fill ∙ fill-present here)
      | inr absent ↦
          fresh (walk-entry ∙ rw absent refl)
            (rewires entry_to_write (to_fill ∙ fill-absent absent))
    ]

  -- Where the table exists, `page_unmap` of an aligned address takes the translation of the page away,
  -- and of the pages that have its table entry, and no other, or panics if there is none.
  pub page_unmap_lem : Unmaps m (vaddr / 4096) (page_unmap vaddr m)
  unfolding page_unmap
  page_unmap_lem = elim (Bool-cases entry.present) [
    | inl here ↦ gone entry.address (walk-entry ∙ rw here refl) (
        rewires blank (
          rw
            (
              aligned,
              read-dir m tree.recursive i,
              there,
              read-table m tree.recursive i (omega arith) there s,
              here,
            )
            refl))
    | inr absent ↦ nothing (walk-entry ∙ rw absent refl) (
        rw
          (
            aligned,
            read-dir m tree.recursive i,
            there,
            read-table m tree.recursive i (omega arith) there s,
            absent,
          )
          refl)
  ]

-- In a directory that only its last slot leads back to, where the table exists, unmapping what `page_map`
-- has just mapped gives back every translation.
pub page_unmap-page_map :
    (m g : Memory) (tree : IsRooted m) (vaddr : ℕ) (low : vaddr < window)
    → vaddr % 4096 ≡ 0
    → (pde m tree.recursive vaddr low).present ≡ true
    → (phys : ℕ) → phys < 2 ^ 32
    → phys % 4096 ≡ 0
    → bitmap_test_bit m.frames.page_bitmap (phys / 4096) ≡ ok true
    → (rw_flag user : Bool) → page_map phys vaddr rw_flag user m ≡ ok g
    → (h : Memory) × (page_unmap vaddr g ≡ ok h) × IsRooted h × ((q : ℕ) → walk h q ≡ walk m q)
page_unmap-page_map m g tree vaddr low aligned there phys fits phys_aligned used rw_flag user run =
    go (page_map_lem m tree vaddr low aligned there phys fits phys_aligned used rw_flag user)
  where
    page : ℕ
    page = vaddr / 4096

    Undone : Memory → Type 0
    Undone g =
        (h : Memory) × (page_unmap vaddr g ≡ ok h) × IsRooted h × ((q : ℕ) → walk h q ≡ walk m q)

    at_slot : (m.tables m.dir (page / 1024)).present ≡ true
    at_slot = let e : vaddr / 4096 / 1024 ≡ vaddr / 2 ^ 22 = omega arith in rw e there

    undo :
        (k : Memory)
        → walk k page ≡ some (phys / 4096)
        → walk m page ≡ none
        → ((q : ℕ) → walk k q ≡ (if aliases m page q then some (phys / 4096) else walk m q))
        → ((q : ℕ) → aliases k page q ≡ aliases m page q)
        → Unmaps k page (page_unmap vaddr k)
        → Undone k
    undo k maps free others same (nothing unmapped panics) = absurd (clash (sym maps ∙ unmapped))
      where
        clash : ◌≡◌ {A = Option ℕ} (some (phys / 4096)) none → ⊥
        clash e = cc
    undo k maps free others same (gone old was r) = (
      r.after,
      r.returns,
      r.tree,
      λ q. elim (Bool-cases (aliases m page q)) [
        | inl here ↦ r.each q ∙ rw (same q, here) (sym (alias-walk m page q at_slot here ∙ free))
        | inr away ↦ r.each q ∙ rw (same q, away) (others q ∙ rw away refl)
      ],
    )

    go : Maps m page (phys / 4096) (page_map phys vaddr rw_flag user m) → Undone g
    go (already frame mapped panics) = absurd (clash (sym run ∙ panics))
      where
        clash : ◌≡◌ {A = Result Memory} (ok g) (panicked already_present) → ⊥
        clash e = cc
    go (fresh free r) =
        let same : ◌≡◌ {A = Result Memory} (ok g) (ok r.after) = sym run ∙ r.returns in
        let eg : g ≡ r.after = cc same in
        let still : (pde r.after r.tree.recursive vaddr low).present ≡ true =
          rw (r.same_dir, r.same_slots (vaddr / 2 ^ 22)) there in
        subst Undone (sym eg) (
          undo r.after r.maps free r.each
            (λ q. rw (r.same_dir, r.same_slots (page / 1024), r.same_slots (q / 1024)) refl)
            (page_unmap_lem r.after r.tree vaddr low aligned still))
