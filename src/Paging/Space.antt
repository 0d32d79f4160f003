-- ===== src/Paging/Space.antt =====
-- Pages that are mapped one after the other into a slot of the directory that may have no table yet.
use treeos.Base.{
  ℕ, zero, suc, ◌+◌, ◌*◌, ◌/◌, ◌%◌, ◌^◌, ◌≤◌, ◌<◌, ◌≡◌, ◌≢◌, refl, arith, Bool, true, false, none,
  some, List, Result, ok, panicked, ◌==◌, if◌then◌else◌, add32, ◌∙◌, sym, ap, subst, inl, inr,
  Bool-cases, ==_refl, ==_iff, ==_false→ne, ne→==_false,
}
use treeos.Bitmap.Bits.{taken, test_bit_lem}
use treeos.Frames.{Entry}
use treeos.Paging.{Memory, walk, page_map}
use treeos.Paging.Walk.{IsRooted, shares, aliases}
use treeos.Paging.Map.{window}
use treeos.Paging.Table.{IsOwned}
use treeos.Paging.Extend.{Extended, Extends, extended, no_page_left, page_map-Extends}
use treeos.Paging.Range.{map_pages, IsVacant, Moves, map_pages_lem, aliases-entry}

-- The `n` pages from `virt` lie in one slot of the directory, below the window on the tables, and are not
-- mapped; those from `phys` are in use.
pub record IsSpace (n phys virt : ℕ) (m : Memory) (words : List ℕ) : Type 0 where
  pub own : IsOwned m words
  pub aligned : virt % 4096 ≡ 0
  pub low : virt < window
  pub within : virt % 2 ^ 22 + n * 4096 ≤ 2 ^ 22
  pub phys_aligned : phys % 4096 ≡ 0
  pub inside : phys + n * 4096 ≤ 2 ^ 27
  pub used : (j : ℕ) → j < n → taken words (phys / 4096 + j) ≡ true
  pub free : (j : ℕ) → j < n → walk m (virt / 4096 + j) ≡ none

-- Page `q` moves with page `page` of the slot: it has the page's table entry or, where the slot has no
-- table, that of the placement heap's page.
abbrev pub follows : (virt : ℕ) → Memory → (page q : ℕ) → Bool
follows virt m page q =
    if (m.tables m.dir (virt / 2 ^ 22)).present
    then aliases m page q
    else aliases m (m.placement_heap / 4096) q

-- The pages were mapped, and every other page below the window stays that does not move with one of them.
pub record Settled (n phys virt : ℕ) (m : Memory) (result : Result Memory) : Type 0 where
  pub after : Memory
  pub returns : result ≡ ok after
  pub maps : (j : ℕ) → j < n → walk after (virt / 4096 + j) ≡ some (phys / 4096 + j)
  pub others :
      (q : ℕ)
      → q / 1024 < 1023
      → ((j : ℕ) → j < n → (virt / 4096 + j ≢ q) × (follows virt m (virt / 4096 + j) q ≡ false))
      → walk after q ≡ walk m q
  pub rooted : IsRooted after
  pub same_dir : after.dir ≡ m.dir
  pub slots : (i : ℕ) → i ≢ virt / 2 ^ 22 → after.tables m.dir i ≡ m.tables m.dir i
  pub unshared :
      (m.tables m.dir (virt / 2 ^ 22)).present ≡ false
      → (i : ℕ) → i < 1024
      → i ≢ virt / 2 ^ 22
      → (m.tables m.dir i).present ≡ true
      → 0 < n
      → (m.tables m.dir i).address ≢ (after.tables m.dir (virt / 2 ^ 22)).address

-- The outcomes: the pages are mapped, or every page is in use and none is left for the table.
pub data Settles (n phys virt : ℕ) (m : Memory) (words : List ℕ) (result : Result Memory)
    : Type 0 where
  settled : Settled n phys virt m result → Settles n phys virt m words result
  no_table_left :
      (m.tables m.dir (virt / 2 ^ 22)).present ≡ false
      → result ≡ panicked "out of memory"
      → ((j : ℕ) → j < m.frames.page_bitmap.word_count * 32 → taken words j ≡ true)
      → Settles n phys virt m words result

-- The page that became the table was not in use, so no slot with a table has it.
pub new_table :
    {m : Memory} {words : List ℕ} {page frame : ℕ} {result : Result Memory}
    → IsOwned m words
    → (w : Extended m words page frame result) (i : ℕ) → i < 1024
    → (m.tables m.dir i).present ≡ true
    → (m.tables m.dir i).address ≢ w.p
new_table {m} {words} own w i lt here e =
    clash (sym w.was_free ∙ sym (ap (taken words) e) ∙ own.tables_used i lt here)
  where
    clash : false ≡ true → ⊥
    clash z = cc

module _ (n phys virt : ℕ) (m : Memory) (words : List ℕ) (space : IsSpace n phys virt m words)
    (writable user : Bool) where
  -- Where the slot has its table.
  through_table :
      (m.tables m.dir (virt / 2 ^ 22)).present ≡ true
      → Moves n 0 virt (λ j. some (phys / 4096 + j)) m (map_pages writable user n 0 phys virt m)
      → Settled n phys virt m (map_pages writable user n 0 phys virt m)
  through_table there r = record {
    after = r.after;
    returns = r.returns;
    maps = λ j h. r.maps j (omega arith, omega (arith, h));
    others = λ q lt away. r.others q (λ j among. follow j q (away j (omega (arith, among.1))).1);
    rooted = r.rooted;
    same_dir = r.same_dir;
    slots = λ i ne. r.same_slots i;
    unshared = λ absent. absurd (clash (sym there ∙ absent));
  }
    where
      follow :
          (j q : ℕ)
          → follows virt m (virt / 4096 + j) q ≡ false
          → aliases m (virt / 4096 + j) q ≡ false
      follow j q h = sym (rw there refl) ∙ h

      clash : true ≡ false → ⊥
      clash z = cc

  vacant : (m.tables m.dir (virt / 2 ^ 22)).present ≡ true → IsVacant n 0 phys virt m
  vacant there = record {
    has = record {
      rooted = space.own.rooted;
      aligned = space.aligned;
      low = space.low;
      within = omega (arith, space.within);
      table = there;
    };
    phys_aligned = space.phys_aligned;
    inside = omega (arith, space.inside);
    used = λ j among.
        test_bit_lem space.own.frames.holds (phys / 4096 + j)
          (omega (arith, among.1, space.inside, space.own.frames.size))
        ∙ ap ok (space.used j (omega (arith, among.1)));
    free = λ j among. space.free j (omega (arith, among.1));
  }

module _ (n phys virt : ℕ) (m : Memory) (words : List ℕ) (space : IsSpace (suc n) phys virt m words)
    (writable user : Bool) (absent : (m.tables m.dir (virt / 2 ^ 22)).present ≡ false)
    (w : Extended m words (virt / 4096) (phys / 4096) (page_map phys virt writable user m)) where
  slot : virt / 4096 / 1024 ≡ virt / 2 ^ 22
  slot = omega arith

  no_shares : (i : ℕ) → shares m i (virt / 2 ^ 22) ≡ false
  no_shares i = rw absent refl

  rest-IsVacant : IsVacant n 1 phys virt w.after
  rest-IsVacant = record {
    has = record {
      rooted = w.rooted;
      aligned = space.aligned;
      low = space.low;
      within = omega (arith, space.within);
      table =
          ap (λ (d : ℕ). (w.after.tables d (virt / 2 ^ 22)).present) w.same_dir
          ∙ ap (λ (i : ℕ). (w.after.tables m.dir i).present) (sym slot)
          ∙ w.present;
    };
    phys_aligned = space.phys_aligned;
    inside = omega (arith, space.inside);
    used = λ j among.
        test_bit_lem w.frames.holds (phys / 4096 + j)
          (omega (arith, among.1, space.inside, w.frames.size))
        ∙ ap ok (ground (arith, w.used (phys / 4096 + j), space.used j (omega (arith, among.1))));
    free = λ j among. unmapped j among.0 (omega (arith, among.1));
  }
    where
      unmapped : (j : ℕ) → 1 ≤ j → j < suc n → walk w.after (virt / 4096 + j) ≡ none
      unmapped j pos lt =
          let e : (virt / 4096 + j) / 1024 ≡ virt / 2 ^ 22 =
            omega (arith, space.within, space.aligned, lt) in
          let other : (virt / 4096 == virt / 4096 + j) ≡ false =
            ne→==_false _ _ (λ z. omega (arith, z, pos)) in
          w.each (virt / 4096 + j) (omega (arith, e, space.low)) ∙ (rw (other, e, absent) refl)

  -- No page of another slot has an entry of the new table.
  alone :
      (j q : ℕ)
      → j < suc n
      → q / 1024 < 1023
      → virt / 4096 + j ≢ q
      → aliases w.after (virt / 4096 + j) q ≡ false
  alone j q lt low ne = elim (Bool-cases (q / 1024 == virt / 2 ^ 22)) [
    | inl e ↦
        let same : q / 1024 ≡ virt / 2 ^ 22 = (==_iff _ _).0 e in
        aliases-entry w.after (virt / 4096 + j) q (λ z. ne (omega (arith, z, same, at)))
    | inr e ↦
        let other : q / 1024 ≢ virt / 4096 / 1024 = λ z. ==_false→ne _ _ e (z ∙ slot) in
        rw (w.same_dir, at, sym slot, w.slots (q / 1024) other, w.address)
          (elim (Bool-cases (m.tables m.dir (q / 1024)).present) [
            | inr none_there ↦ rw none_there refl
            | inl there ↦
                rw
                  (
                    there,
                    ne→==_false w.p _
                        (λ z. new_table space.own w (q / 1024) (omega (arith, low)) there (sym z)),
                  )
                  refl
          ])
  ]
    where
      at : (virt / 4096 + j) / 1024 ≡ virt / 2 ^ 22
      at = omega (arith, space.within, space.aligned, lt)

  through_new :
      Moves n 1 virt
        (λ j. some (phys / 4096 + j))
        w.after
        (map_pages writable user n 1 phys virt w.after)
      → Settled (suc n) phys virt m (map_pages writable user (suc n) 0 phys virt m)
  unfolding map_pages
  through_new r = record {
    after = r.after;
    returns =
        let a : add32 phys 0 ≡ phys = omega (arith, space.inside) in
        let b : add32 virt 0 ≡ virt = omega (arith, space.low) in rw (a, b, w.returns) r.returns;
    maps = λ j h. elim (Bool-cases (j == 0)) [
      | inl e ↦
          let z : 0 ≡ j = sym ((==_iff j 0).0 e) in
          subst (λ (x : ℕ). walk r.after (virt / 4096 + x) ≡ some (phys / 4096 + x)) z first
      | inr e ↦ r.maps j (ground (arith, e), omega (arith, h))
    ];
    others = λ q low away.
        r.others q
          (λ j among. alone j q (omega (arith, among.1)) low (away j (omega (arith, among.1))).0)
        ∙ w.each q low
        ∙ (rw
            (
              ne→==_false (virt / 4096) q (λ z. (away 0 (omega arith)).0 (omega (arith, z))),
              clear q (away 0 (omega arith)).1,
            )
            refl);
    rooted = r.rooted;
    same_dir = r.same_dir ∙ w.same_dir;
    slots = λ i ne. kept i ∙ w.slots i (λ z. ne (z ∙ slot));
    unshared = λ none_there i lt ne there pos same. new_table space.own w i lt there (
        same
        ∙ ap (λ (e : Entry). e.address) (kept (virt / 2 ^ 22))
        ∙ ap (λ (i : ℕ). (w.after.tables m.dir i).address) (sym slot)
        ∙ w.address);
  }
    where
      kept : (i : ℕ) → r.after.tables m.dir i ≡ w.after.tables m.dir i
      kept i =
          ap (λ (d : ℕ). r.after.tables d i) (sym w.same_dir)
          ∙ r.same_slots i
          ∙ ap (λ (d : ℕ). w.after.tables d i) w.same_dir

      clear :
          (q : ℕ)
          → follows virt m (virt / 4096 + 0) q ≡ false
          → aliases m (m.placement_heap / 4096) q ≡ false
      clear q h = sym (rw absent refl) ∙ h

      zero_page : virt / 4096 ≡ virt / 4096 + 0
      zero_page = omega arith

      frame_0 : phys / 4096 ≡ phys / 4096 + 0
      frame_0 = omega arith

      first : walk r.after (virt / 4096 + 0) ≡ some (phys / 4096 + 0)
      first =
          subst (λ (x : ℕ). walk r.after x ≡ some (phys / 4096 + 0)) zero_page
            (r.others (virt / 4096) (λ j among.
                aliases-entry w.after (virt / 4096 + j) (virt / 4096)
                  (λ same. omega (arith, same, space.within, space.aligned, among.0, among.1)))
              ∙ w.each (virt / 4096) (omega (arith, space.low))
              ∙ (rw (==_refl (virt / 4096)) (ap some frame_0)))

-- Pages that are in use are mapped, in order, to pages of one slot of the directory that are not mapped:
-- where the slot has no table, one is made of a page that was free, or it panics as there is none.
pub map_pages-Settles :
    (n phys virt : ℕ) (m : Memory) (words : List ℕ)
    → IsSpace n phys virt m words
    → (writable user : Bool) → Settles n phys virt m words (map_pages writable user n 0 phys virt m)
unfolding map_pages
map_pages-Settles zero phys virt m words space writable user = settled (record {
  after = m;
  returns = refl;
  maps = λ j h. absurd (omega arith);
  others = λ q low away. refl;
  rooted = space.own.rooted;
  same_dir = refl;
  slots = λ i ne. refl;
  unshared = λ a i lt ne there pos. absurd (omega (arith, pos));
})
map_pages-Settles (suc n) phys virt m words space writable user =
    elim (Bool-cases (m.tables m.dir (virt / 2 ^ 22)).present) [
      | inl there ↦ settled (
          through_table (suc n) phys virt m words space writable user there (
            map_pages_lem writable user (suc n) 0 phys virt m
              (vacant (suc n) phys virt m words space writable user there)))
      | inr absent ↦ go absent (
          page_map-Extends m words space.own virt space.low space.aligned absent phys
            space.phys_aligned (omega (arith, space.inside))
            (subst (λ (x : ℕ). taken words x ≡ true) (omega arith) (space.used 0 (omega arith)))
            writable user)
    ]
  where
    go :
        (m.tables m.dir (virt / 2 ^ 22)).present ≡ false
        → Extends m words (virt / 4096) (phys / 4096) (page_map phys virt writable user m)
        → Settles (suc n) phys virt m words (map_pages writable user (suc n) 0 phys virt m)
    go absent (no_page_left r all) =
        let a : add32 phys 0 ≡ phys = omega (arith, space.inside) in
        let b : add32 virt 0 ≡ virt = omega (arith, space.low) in
        no_table_left absent (rw (a, b, r) refl) all
    go absent (extended w) = settled (
        through_new n phys virt m words space writable user absent w (
          map_pages_lem writable user n 1 phys virt w.after
            (rest-IsVacant n phys virt m words space writable user absent w)))
