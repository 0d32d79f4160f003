-- ===== src/Paging/Walk.antt =====
-- Reading and writing the tables through the directory's last slot.
use treeos.Base.{
  ℕ, ◌+◌, ◌/◌, ◌%◌, ◌<◌, ◌≡◌, ◌≢◌, refl, arith, Bool, true, ◌&&◌, Option, none, some, ◌==◌,
  if◌then◌else◌, ne→==_false, inl, inr, Bool-cases,
}
use treeos.Frames.{Entry}
use treeos.Paging.{Memory, walk, walk_slots, update, dir_page, table_page}

-- The last slot of the directory leads back to the directory.
pub record IsRecursive (m : Memory) : Type 0 where
  pub present : (m.tables m.dir 1023).present ≡ true
  pub address : (m.tables m.dir 1023).address ≡ m.dir

module _ (m : Memory) (rec : IsRecursive m) (i : ℕ) where
  pub walk-dir : walk m dir_page ≡ some m.dir
  walk-dir = rw (rec.present, rec.address, rec.present, rec.address) refl

  pub walk-table :
      i < 1024
      → (m.tables m.dir i).present ≡ true
      → walk m (table_page i) ≡ some (m.tables m.dir i).address
  walk-table lt here =
      let a : (0xffc00 + i) / 1024 ≡ 1023 = omega arith in
      let b : (0xffc00 + i) % 1024 ≡ i = omega arith in
      rw (a, b, rec.present, rec.address, here) refl

-- The last slot of the directory leads back to it, and no other slot does.
pub record IsRooted (m : Memory) : Type 0 where
  pub recursive : IsRecursive m
  pub not_dir :
      (i : ℕ) → i < 1023 → (m.tables m.dir i).present ≡ true → (m.tables m.dir i).address ≢ m.dir

-- Slot `j` of the directory has the table of slot `i`.
abbrev pub shares : Memory → (i j : ℕ) → Bool
shares m i j =
    (m.tables m.dir j).present && ((m.tables m.dir i).address == (m.tables m.dir j).address)

-- Page `q` is translated by the table entry that page `page` is translated by.
abbrev pub aliases : Memory → (page q : ℕ) → Bool
aliases m page q = shares m (page / 1024) (q / 1024) && (page % 1024 == q % 1024)

-- What a page is mapped to, if its table entry is `e`.
abbrev pub target : Entry → Option ℕ
target e = if e.present then some e.address else none

module _ (m : Memory) (tree : IsRooted m) (i slot : ℕ) (low : i < 1023) (short : slot < 1024)
    (here : (m.tables m.dir i).present ≡ true) (e : Entry) where
  -- `m` with `e` in slot `slot` of table `i`.
  abbrev pub stored : Memory
  stored = record m { tables = update m.tables (m.tables m.dir i).address slot e }

  pub stored-dir : (j : ℕ) → stored.tables m.dir j ≡ m.tables m.dir j
  stored-dir j = rw (ne→==_false _ _ (tree.not_dir i low here)) refl

  pub stored-IsRooted : IsRooted stored
  stored-IsRooted = record {
    recursive = record {
      present = rw (stored-dir 1023) tree.recursive.present;
      address = rw (stored-dir 1023) tree.recursive.address;
    };
    not_dir = λ j p. rw (stored-dir j) (tree.not_dir j p);
  }

  walk_slots-stored :
      (j t : ℕ)
      → walk_slots stored j t ≡ (if shares m i j && (slot == t) then target e else walk_slots m j t)
  walk_slots-stored j t = rw (stored-dir j) (elim (Bool-cases (m.tables m.dir j).present) [
    | inr absent ↦ rw absent refl
    | inl there ↦ elim (Bool-cases ((m.tables m.dir i).address == (m.tables m.dir j).address)) [
      | inr other ↦ rw (there, other) refl
      | inl same ↦ elim (Bool-cases (slot == t)) [
        | inr away ↦ rw (there, same, away) refl
        | inl at ↦ rw (there, same, at) refl
      ]
    ]
  ])

  pub walk-stored :
      (page : ℕ)
      → walk stored page
        ≡ (if shares m i (page / 1024) && (slot == page % 1024) then target e else walk m page)
  walk-stored page = walk_slots-stored (page / 1024) (page % 1024)
