-- ===== src/Paging/Range.antt =====
-- Pages that are mapped, or unmapped, one after the other: the loops of `tty_remap` and of
-- `module_table_init`.
use treeos.Base.{
  ℕ, zero, suc, ◌+◌, ◌*◌, ◌/◌, ◌%◌, ◌^◌, ◌≤◌, ◌<◌, ◌≡◌, ◌≢◌, refl, arith, Bool, true, Option, none,
  some, Result, ok, ◌>>=◌, ◌==◌, add32, ne→==_false, ◌&&◌, false, ◌∙◌, sym, ap, subst, inl, inr,
  Bool-cases, ==_iff,
}
use treeos.Bitmap.{bitmap_test_bit}
use treeos.Frames.{Frames, Entry, page_size}
use treeos.Paging.{Memory, walk, page_map, page_unmap}
use treeos.Paging.Walk.{IsRooted, shares, aliases}
use treeos.Paging.Map.{
  window, Rewires, Maps, fresh, already, Unmaps, gone, nothing, page_map_lem, page_unmap_lem,
}

-- `left` pages of the range at `virt` are mapped to those of the range at `phys`, from page `k` on.
unfoldable pub map_pages : (writable user : Bool) (left k phys virt : ℕ) → Memory → Result Memory
map_pages writable user zero k phys virt m = ok m
map_pages writable user (suc left) k phys virt m = do
  m ← page_map (add32 phys (k * page_size)) (add32 virt (k * page_size)) writable user m
  map_pages writable user left (k + 1) phys virt m

-- `left` pages of the range at `virt` are unmapped, from page `k` on.
unfoldable pub unmap_pages : (left k virt : ℕ) → Memory → Result Memory
unmap_pages zero k virt m = ok m
unmap_pages (suc left) k virt m = do
  m ← page_unmap (add32 virt (k * page_size)) m
  unmap_pages left (k + 1) virt m

-- Page `j` is one of the `n` pages from `k` on.
abbrev pub Among : (n k j : ℕ) → Type 0
Among n k j = (k ≤ j) × (j < k + n)

-- The pages lie in one slot of the directory, which has a table; it is below the window on the tables.
pub record HasTables (n k virt : ℕ) (m : Memory) : Type 0 where
  pub rooted : IsRooted m
  pub aligned : virt % 4096 ≡ 0
  pub low : virt < window
  pub within : virt % 2 ^ 22 + (k + n) * 4096 ≤ 2 ^ 22
  pub table : (m.tables m.dir (virt / 2 ^ 22)).present ≡ true

-- The pages of the range at `virt` are not mapped, and those of the range at `phys` are in use.
pub record IsVacant (n k phys virt : ℕ) (m : Memory) : Type 0 where
  pub has : HasTables n k virt m
  pub phys_aligned : phys % 4096 ≡ 0
  pub inside : phys + (k + n) * 4096 ≤ 2 ^ 32
  pub used :
      (j : ℕ) → Among n k j → bitmap_test_bit m.frames.page_bitmap (phys / 4096 + j) ≡ ok true
  pub free : (j : ℕ) → Among n k j → walk m (virt / 4096 + j) ≡ none

-- `result` is `m` with page `j` of the range at `virt` mapped to `target j`, and no page moved that has
-- none of their table entries.
pub record Moves (n k virt : ℕ) (target : ℕ → Option ℕ) (m : Memory) (result : Result Memory)
    : Type 0 where
  pub after : Memory
  pub returns : result ≡ ok after
  pub maps : (j : ℕ) → Among n k j → walk after (virt / 4096 + j) ≡ target j
  pub others :
      (q : ℕ)
      → ((j : ℕ) → Among n k j → aliases m (virt / 4096 + j) q ≡ false)
      → walk after q ≡ walk m q
  pub rooted : IsRooted after
  pub same_dir : after.dir ≡ m.dir
  pub same_slots : (i : ℕ) → after.tables m.dir i ≡ m.tables m.dir i
  pub same_frames : after.frames ≡ m.frames
  pub same_heap : after.placement_heap ≡ m.placement_heap

-- Two pages with different entries have no entry in common.
pub aliases-entry : (m : Memory) (page q : ℕ) → page % 1024 ≢ q % 1024 → aliases m page q ≡ false
aliases-entry m page q ne = rw (ne→==_false _ _ ne) (and_false (shares m (page / 1024) (q / 1024)))
  where
    and_false : (b : Bool) → (b && false) ≡ false
    and_false true = refl
    and_false false = refl

-- Where the slots are the same, so are the pages with one entry.
pub aliases-slots :
    (m w : Memory)
    → w.dir ≡ m.dir
    → ((i : ℕ) → w.tables m.dir i ≡ m.tables m.dir i)
    → (page q : ℕ) → aliases w page q ≡ aliases m page q
aliases-slots m w dir slots page q = rw (dir, slots (page / 1024), slots (q / 1024)) refl

module _ {k virt : ℕ} {target : ℕ → Option ℕ} {m : Memory} where
  none_left : IsRooted m → Moves 0 k virt target m (ok m)
  none_left rooted = record {
    after = m;
    returns = refl;
    maps = λ j (low, high). absurd (omega arith);
    others = λ q away. refl;
    rooted = rooted;
    same_dir = refl;
    same_slots = λ i. refl;
    same_frames = refl;
    same_heap = refl;
  }

  -- One page and then the others.
  join :
      {n page : ℕ} {step rest result : Result Memory}
      → page ≡ virt / 4096 + k
      → virt % 2 ^ 22 + (k + suc n) * 4096 ≤ 2 ^ 22
      → (w : Rewires m page (target k) step) → (r : Moves n (k + 1) virt target w.after rest)
      → result ≡ rest
      → Moves (suc n) k virt target m result
  join {n} {page} {step} {rest} here within w r is = record {
    after = r.after;
    returns = is ∙ r.returns;
    maps = λ j among. elim (Bool-cases (k == j)) [
      | inl e ↦
          subst (λ (x : ℕ). walk r.after (virt / 4096 + x) ≡ target x) ((==_iff k j).0 e)
            (subst (λ (x : ℕ). walk r.after x ≡ target k) here
              (r.others page (λ i (low, high).
                  aliases-entry w.after (virt / 4096 + i) page
                    (λ same. omega (arith, here, same, within)))
                ∙ w.maps))
      | inr e ↦ r.maps j (ground (arith, e, among.0), omega (arith, among.1))
    ];
    others = λ q away.
        r.others q (λ j (low, high).
          aliases-slots m w.after w.same_dir w.same_slots (virt / 4096 + j) q
          ∙ away j (omega arith, omega arith))
        ∙ w.each q
        ∙ (rw (ap (λ (x : ℕ). aliases m x q) here ∙ away k (omega arith, omega arith)) refl);
    rooted = r.rooted;
    same_dir = r.same_dir ∙ w.same_dir;
    same_slots = λ i.
        ap (λ (d : ℕ). r.after.tables d i) (sym w.same_dir)
        ∙ r.same_slots i
        ∙ ap (λ (d : ℕ). w.after.tables d i) w.same_dir
        ∙ w.same_slots i;
    same_frames = r.same_frames ∙ w.same_frames;
    same_heap = r.same_heap ∙ w.same_heap;
  }

-- Another page of the slot does not move.
still :
    (virt k n : ℕ) {page : ℕ} {target : Option ℕ} {m : Memory} {step : Result Memory}
    → page ≡ virt / 4096 + k
    → virt % 2 ^ 22 + (k + suc n) * 4096 ≤ 2 ^ 22
    → (w : Rewires m page target step) (j : ℕ) → Among n (k + 1) j
    → walk w.after (virt / 4096 + j) ≡ walk m (virt / 4096 + j)
still virt k n {page} {m = m} here within w j among =
    w.each (virt / 4096 + j)
    ∙ (rw
        (aliases-entry m page (virt / 4096 + j)
          (λ same. omega (arith, here, same, within, among.0, among.1)))
        refl)

-- The table is there for the rest of the range.
HasTables-step :
    {n k virt page : ℕ} {target : Option ℕ} {m : Memory} {step : Result Memory}
    → HasTables (suc n) k virt m
    → (w : Rewires m page target step) → HasTables n (k + 1) virt w.after
HasTables-step {n} {k} {virt} {m = m} h w = record {
  rooted = w.tree;
  aligned = h.aligned;
  low = h.low;
  within = omega (arith, h.within);
  table =
      ap (λ (d : ℕ). (w.after.tables d (virt / 2 ^ 22)).present) w.same_dir
      ∙ ap (λ (e : Entry). e.present) (w.same_slots (virt / 2 ^ 22))
      ∙ h.table;
}

IsVacant-step :
    {n k phys virt page : ℕ} {target : Option ℕ} {m : Memory} {step : Result Memory}
    → page ≡ virt / 4096 + k
    → IsVacant (suc n) k phys virt m
    → (w : Rewires m page target step) → IsVacant n (k + 1) phys virt w.after
IsVacant-step {n} {k} {virt = virt} here v w = record {
  has = HasTables-step v.has w;
  phys_aligned = v.phys_aligned;
  inside = omega (arith, v.inside);
  used = λ j among.
      ap (λ (f : Frames). bitmap_test_bit f.page_bitmap (_ + j)) w.same_frames
      ∙ v.used j (omega (arith, among.0), omega (arith, among.1));
  free = λ j among.
      still virt k n here v.has.within w j among
      ∙ v.free j (omega (arith, among.0), omega (arith, among.1));
}

module _ (writable user : Bool) where
  -- Pages that are in use are mapped, in order, to a range of pages that has a table and where nothing
  -- is mapped; only pages that have one of their table entries move with them.
  pub map_pages_lem :
      (n k phys virt : ℕ) (m : Memory)
      → IsVacant n k phys virt m
      → Moves n k virt (λ j. some (phys / 4096 + j)) m (map_pages writable user n k phys virt m)
  unfolding map_pages
  map_pages_lem zero k phys virt m v = none_left v.has.rooted
  map_pages_lem (suc n) k phys virt m v =
      let vaddr = virt + k * 4096 in
      let paddr = phys + k * 4096 in
      let here : Among (suc n) k k = (omega arith, omega arith) in
      let page : vaddr / 4096 ≡ virt / 4096 + k = omega arith in
      let frame : paddr / 4096 ≡ phys / 4096 + k = omega arith in
      let low : vaddr < window = omega (arith, v.has.within, v.has.low) in
      let fits : paddr < 2 ^ 32 = omega (arith, v.inside) in
      let used =
        subst (λ (x : ℕ). bitmap_test_bit m.frames.page_bitmap x ≡ ok true) (sym frame)
          (v.used k here) in
      go (map_pages_lem n (k + 1) phys virt) page frame low fits (v.free k here) (
        page_map_lem m v.has.rooted vaddr low (omega (arith, v.has.aligned))
          (ap (λ (i : ℕ). (m.tables m.dir i).present) (omega (arith, v.has.within)) ∙ v.has.table)
          paddr fits (omega (arith, v.phys_aligned)) used writable user)
    where
      go :
          ((g : Memory)
            → IsVacant n (k + 1) phys virt g
            → Moves n
                (k + 1)
                virt
                (λ j. some (phys / 4096 + j))
                g
                (map_pages writable user n (k + 1) phys virt g))
          → (virt + k * 4096) / 4096 ≡ virt / 4096 + k
          → (phys + k * 4096) / 4096 ≡ phys / 4096 + k
          → virt + k * 4096 < window
          → phys + k * 4096 < 2 ^ 32
          → walk m (virt / 4096 + k) ≡ none
          → Maps m
              ((virt + k * 4096) / 4096)
              ((phys + k * 4096) / 4096)
              (page_map (phys + k * 4096) (virt + k * 4096) writable user m)
          → Moves
              (suc n)
              k
              virt
              (λ j. some (phys / 4096 + j))
              m
              (map_pages writable user (suc n) k phys virt m)
      go rest page frame low fits free (already old here r) =
          absurd (clash (sym free ∙ ap (λ (x : ℕ). walk m x) (sym page) ∙ here))
        where
          clash : ◌≡◌ {A = Option ℕ} none (some old) → ⊥
          clash e = cc
      go rest page frame low fits free (fresh absent w) = through (
          subst
            (λ (f : ℕ).
              Rewires m ((virt + k * 4096) / 4096) (some f)
                (page_map (phys + k * 4096) (virt + k * 4096) writable user m))
            frame w)
        where
          wrap_phys : add32 phys (k * 4096) ≡ phys + k * 4096
          wrap_phys = omega (arith, fits)

          wrap_virt : add32 virt (k * 4096) ≡ virt + k * 4096
          wrap_virt = omega (arith, low)

          through :
              Rewires m
                ((virt + k * 4096) / 4096)
                (some (phys / 4096 + k))
                (page_map (phys + k * 4096) (virt + k * 4096) writable user m)
              → Moves
                  (suc n)
                  k
                  virt
                  (λ j. some (phys / 4096 + j))
                  m
                  (map_pages writable user (suc n) k phys virt m)
          through w =
              join page v.has.within w (rest w.after (IsVacant-step page v w))
                (rw (wrap_phys, wrap_virt, w.returns) refl)

-- Pages that are mapped are unmapped, in order, and only pages that have one of their table entries
-- with them.
pub unmap_pages_lem :
    (n k virt : ℕ) (m : Memory)
    → HasTables n k virt m
    → ((j : ℕ) → Among n k j → (frame : ℕ) × (walk m (virt / 4096 + j) ≡ some frame))
    → Moves n k virt (λ j. none) m (unmap_pages n k virt m)
unfolding unmap_pages
unmap_pages_lem zero k virt m h mapped = none_left h.rooted
unmap_pages_lem (suc n) k virt m h mapped =
    let vaddr = virt + k * 4096 in
    let here : Among (suc n) k k = (omega arith, omega arith) in
    let page : vaddr / 4096 ≡ virt / 4096 + k = omega (arith, h.aligned) in
    let low : vaddr < window = omega (arith, h.within, h.low) in
    go (unmap_pages_lem n (k + 1) virt) page low (mapped k here) (
      page_unmap_lem m h.rooted vaddr low (omega (arith, h.aligned))
        (ap (λ (i : ℕ). (m.tables m.dir i).present) (omega (arith, h.within)) ∙ h.table))
  where
    go :
        ((g : Memory)
          → HasTables n (k + 1) virt g
          → ((j : ℕ) → Among n (k + 1) j → (frame : ℕ) × (walk g (virt / 4096 + j) ≡ some frame))
          → Moves n (k + 1) virt (λ j. none) g (unmap_pages n (k + 1) virt g))
        → (virt + k * 4096) / 4096 ≡ virt / 4096 + k
        → virt + k * 4096 < window
        → ((frame : ℕ) × (walk m (virt / 4096 + k) ≡ some frame))
        → Unmaps m ((virt + k * 4096) / 4096) (page_unmap (virt + k * 4096) m)
        → Moves (suc n) k virt (λ j. none) m (unmap_pages (suc n) k virt m)
    go rest page low (frame, there) (nothing absent r) =
        absurd (clash (sym absent ∙ ap (λ (x : ℕ). walk m x) page ∙ there))
      where
        clash : ◌≡◌ {A = Option ℕ} none (some frame) → ⊥
        clash e = cc
    go rest page low (frame, there) (gone old was w) =
        join page h.within w
          (rest w.after (HasTables-step h w) (λ j among.
            let (f, e) = mapped j (omega (arith, among.0), omega (arith, among.1)) in
            (f, still virt k n page h.within w j among ∙ e)))
          (rw (wrap, w.returns) refl)
      where
        wrap : add32 virt (k * 4096) ≡ virt + k * 4096
        wrap = omega (arith, low)
