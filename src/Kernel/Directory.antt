-- ===== src/Kernel/Directory.antt =====
-- The page directory that a new process gets.
use treeos.Base.{
  ℕ, ◌+◌, ◌*◌, ◌/◌, ◌%◌, ◌^◌, ◌≤◌, ◌<◌, ◌≡◌, ◌≢◌, refl, arith, true, false, ◌&&◌, Option, none,
  some, Result, ok, ◌==◌, if◌then◌else◌, ltb, leb, ne→==_false, ==_refl, ==_false→ne, ◌∙◌, sym, ap,
  inl, inr, Bool-cases, subst,
}
use treeos.Frames.{Entry}
use treeos.Paging.{Memory, blank, walk, update, virt_to_phys}
use treeos.Paging.Walk.{IsRecursive}
use treeos.Paging.Map.{window, Resolves, resolved, no_table, no_page, virt_to_phys_lem}
use treeos.Kernel.{copy_high, fill_dir}

copy_high-ne :
    (from to : ℕ) (tables : ℕ → ℕ → Entry) (frame i : ℕ)
    → frame ≢ to
    → copy_high from to tables frame i ≡ tables frame i
unfolding copy_high
copy_high-ne from to tables frame i ne = rw (ne→==_false frame to ne) refl

-- Entry 831 of the copy: the flags and 12 bits of the address of `e`, the others of `old`.
abbrev pub cut_off : Entry → Entry → Entry
cut_off e old = record e { address = e.address % 2 ^ 12 + old.address / 2 ^ 12 * 2 ^ 12 }

-- The directory in frame `to` after it was filled in: entries 768 to 830 are the kernel's, entry 831
-- is a part of the kernel's, the last leads to the directory itself, and the others are as before.
abbrev pub filled_entry : (from to : ℕ) → (ℕ → ℕ → Entry) → ℕ → Entry
filled_entry from to tables i =
    if i == 1023
    then record (tables to 1023) { present = true; rw = true; address = to }
    else if leb 768 i && ltb i 831
    then tables from i
    else if i == 831
    then cut_off (tables from 831) (tables to 831)
    else tables to i

copy_high-1023 :
    (from to : ℕ) (tables : ℕ → ℕ → Entry) → copy_high from to tables to 1023 ≡ tables to 1023
unfolding copy_high
copy_high-1023 from to tables = rw (==_refl to) refl

copy_high_self :
    (from to : ℕ) (tables : ℕ → ℕ → Entry) (i : ℕ)
    → i ≢ 1023
    → copy_high from to tables to i ≡ filled_entry from to tables i
unfolding copy_high
copy_high_self from to tables i ne =
    rw (==_refl to, ne→==_false i 1023 ne)
      (elim (Bool-cases (leb 768 i && ltb i 831)) [
        | inl e ↦ rw e refl
        | inr e ↦ elim (Bool-cases (i == 831)) [
          | inl last ↦
              rw (e, last)
                (subst
                  (λ (k : ℕ).
                    cut_off (tables from k) (tables to k)
                    ≡ cut_off (tables from 831) (tables to 831))
                  (ground (arith, last)) refl)
          | inr other ↦ rw (e, other) refl
        ]
      ])

-- What filling the directory in frame `to` does.
pub record Fills (from to : ℕ) (m : Memory) (result : Result Memory) : Type 0 where
  pub after : Memory
  pub returns : result ≡ ok after
  pub entries : (i : ℕ) → after.tables to i ≡ filled_entry from to m.tables i
  pub others : (frame i : ℕ) → frame ≢ to → after.tables frame i ≡ m.tables frame i
  pub same_dir : after.dir ≡ m.dir
  pub same_frames : after.frames ≡ m.frames

module _ (g_kernel_page_dir pgdir from to : ℕ) (m : Memory) (rec : IsRecursive m)
    (low : pgdir < window) (aligned : pgdir % 4096 ≡ 0)
    (source : walk m (g_kernel_page_dir / 4096) ≡ some from)
    (target : walk m (pgdir / 4096) ≡ some to) (not_dir : m.dir ≢ to)
    (not_table : (m.tables m.dir (pgdir / 4096 / 1024)).address ≢ to) where
  abbrev copied : Memory
  copied = record m { tables = copy_high from to m.tables }

  same_slot : (i : ℕ) → copied.tables m.dir i ≡ m.tables m.dir i
  same_slot i = copy_high-ne from to m.tables m.dir i not_dir

  copied-IsRecursive : IsRecursive copied
  copied-IsRecursive = record {
    present = rw (same_slot 1023) rec.present;
    address = rw (same_slot 1023) rec.address;
  }

  still : walk copied (pgdir / 4096) ≡ some to
  still =
      rw
        (
          same_slot (pgdir / 4096 / 1024),
          copy_high-ne from to m.tables (m.tables m.dir (pgdir / 4096 / 1024)).address
              (pgdir / 4096 % 1024) not_table,
        )
        target

  physical : virt_to_phys pgdir copied ≡ ok (to * 4096)
  physical = go (virt_to_phys_lem copied copied-IsRecursive pgdir low)
    where
      absent : walk copied (pgdir / 4096) ≡ none → ⊥
      absent e = clash (sym still ∙ e)
        where
          clash : ◌≡◌ {A = Option ℕ} (some to) none → ⊥
          clash e = cc

      go :
          Resolves copied pgdir (virt_to_phys pgdir copied)
          → virt_to_phys pgdir copied ≡ ok (to * 4096)
      go (no_table missing unmapped r) = absurd (absent unmapped)
      go (no_page there unmapped r) = absurd (absent unmapped)
      go (resolved frame mapped r) =
          let same : ◌≡◌ {A = Option ℕ} (some to) (some frame) = sym still ∙ mapped in
          let e : to ≡ frame = cc same in
          let address : frame * 4096 + pgdir % 4096 ≡ to * 4096 = omega (arith, e, aligned) in
          r ∙ ap ok address

  -- The new directory has the kernel's entries 768 to 830, a part of entry 831, and in its last entry
  -- itself; no other frame changes.
  pub fill_dir_lem : Fills from to m (fill_dir g_kernel_page_dir pgdir m)
  unfolding fill_dir
  fill_dir_lem =
      let own : Entry = record (copied.tables to 1023) {
        present = true;
        rw = true;
        address = to;
      } in
      let number : to * 4096 / 4096 ≡ to = omega arith in
      record {
        after = record copied { tables = update copied.tables to 1023 own };
        returns = rw (source, target, physical, still, number) refl;
        entries = λ i. entry i;
        others = λ frame i ne.
            rw (ne→==_false to frame (λ e. ne (sym e))) (copy_high-ne from to m.tables frame i ne);
        same_dir = refl;
        same_frames = refl;
      }
    where
      last : copy_high from to m.tables to 1023 ≡ m.tables to 1023
      last = copy_high-1023 from to m.tables

      entry :
          (i : ℕ)
          → (if to == to && 1023 == i
              then record (copy_high from to m.tables to 1023) {
                present = true;
                rw = true;
                address = to;
              }
              else copy_high from to m.tables to i)
            ≡ filled_entry from to m.tables i
      entry i = elim (Bool-cases (i == 1023)) [
        | inl e ↦
            let same : (1023 == i) ≡ true = ground (arith, e) in rw (==_refl to, same, e, last) refl
        | inr e ↦
            let differs : (1023 == i) ≡ false = ground (arith, e) in
            rw (==_refl to, differs) (copy_high_self from to m.tables i (==_false→ne i 1023 e))
      ]

  -- The last slot of the directory in use leads back to it; the page of the kernel's directory and the page of
  -- the new one, which is aligned and below the window on the tables, are mapped; and the new one's frame is
  -- neither that of the directory in use nor that of the table which its page is walked through. If it was
  -- empty before, as `paging_structure_alloc` gives it, then it has the kernel's entries 768 to 830, and the
  -- heap, the modules and the remapped text buffer have no table in it: entry 832 and those behind it are
  -- not copied.
  pub walk-fill_dir :
      ((i : ℕ) → m.tables to i ≡ blank)
      → (after : Memory) × (fill_dir g_kernel_page_dir pgdir m ≡ ok after)
        × ((q : ℕ) → 832 ≤ q / 1024 → q / 1024 < 1023 → walk (record after { dir = to }) q ≡ none)
        × ((q : ℕ)
            → 768 ≤ q / 1024
            → q / 1024 < 831
            → after.tables to (q / 1024) ≡ m.tables from (q / 1024))
  walk-fill_dir empty =
      let f = fill_dir_lem in
      (
        f.after,
        f.returns,
        λ q lo hi. absent f.after q (f.entries (q / 1024) ∙ above (q / 1024) lo hi),
        λ q lo hi. f.entries (q / 1024) ∙ within (q / 1024) lo hi,
      )
    where
      above : (i : ℕ) → 832 ≤ i → i < 1023 → filled_entry from to m.tables i ≡ blank
      above i lo hi =
          let a : (i == 1023) ≡ false = ground arith in
          let b : (leb 768 i && ltb i 831) ≡ false = ground arith in
          let c : (i == 831) ≡ false = ground arith in rw (a, b, c) (empty i)

      within : (i : ℕ) → 768 ≤ i → i < 831 → filled_entry from to m.tables i ≡ m.tables from i
      within i lo hi =
          let a : (i == 1023) ≡ false = ground arith in
          let b : (leb 768 i && ltb i 831) ≡ true = ground arith in rw (a, b) refl

      absent :
          (after : Memory) (q : ℕ)
          → after.tables to (q / 1024) ≡ blank
          → walk (record after { dir = to }) q ≡ none
      absent after q e = rw e refl
