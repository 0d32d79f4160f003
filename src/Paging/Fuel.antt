-- ===== src/Paging/Fuel.antt =====
-- Three calls deep is as deep as `page_map` nests: more fuel changes nothing.
use treeos.Base.{
  ℕ, suc, ◌*◌, ◌/◌, ◌^◌, ◌≡◌, refl, arith, Bool, true, false, not, none, some, Result, ok, panicked,
  panic_if, kassert, ◌>>=◌, ◌>>◌, ==_refl, ◌∙◌, sym, inl, inr, Bool-cases, add32,
}
use treeos.Frames.{Frames, page_size, page_alloc}
use treeos.Bitmap.{bitmap_test_bit}
use treeos.Paging.{
  fill_entry, Memory, Mapper, update, blank, zero_page, page_map, page_map_fuel, need_table,
  paging_structure_alloc, is_page_aligned,
}
use treeos.Paging.Walk.{IsRecursive, walk-dir}

-- `paging_structure_alloc`, as a function of what its call of `page_map` gives.
abbrev with_map : (ℕ → Frames → Result Memory) → Memory → Result (ℕ × Memory)
with_map call m = do
  kassert (is_page_aligned m.placement_heap) "KASSERT failed: IS_PAGE_ALIGNED(placement_heap)"
  (got, frames) ← page_alloc (some blank) m.frames
  pte ← elim got [ none ↦ panicked "out of memory" | some e ↦ ok e ]
  m ← call (pte.address * page_size) frames
  m ← zero_page (m.placement_heap / page_size) m
  ok (m.placement_heap, record m { placement_heap = add32 m.placement_heap page_size })

structure_alloc_cong :
    (F G : Mapper) (m : Memory)
    → ((phys : ℕ) (frames : Frames)
        → F phys m.placement_heap true false (record m { frames = frames })
          ≡ G phys m.placement_heap true false (record m { frames = frames }))
    → paging_structure_alloc F m ≡ paging_structure_alloc G m
unfolding paging_structure_alloc
structure_alloc_cong F G m h = λ j. with_map (λ phys frames. h phys frames j) m

module _ (m : Memory) (rec : IsRecursive m) (i : ℕ) where
  need_table-present : (F : Mapper) → (m.tables m.dir i).present ≡ true → need_table F i m ≡ ok m
  unfolding need_table
  need_table-present F there = rw (walk-dir m rec i, there) refl

  -- `m` with slot `i` of the directory marked present.
  abbrev marked : Memory
  marked = record m {
    tables =
        update m.tables m.dir i
          (record (m.tables m.dir i) { present = true; rw = true; user = true });
  }

  need_table_cong :
      (F G : Mapper)
      → (m.tables m.dir i).present ≡ false
      → paging_structure_alloc F marked ≡ paging_structure_alloc G marked
      → need_table F i m ≡ need_table G i m
  unfolding need_table
  need_table_cong F G absent h = rw (walk-dir m rec i, absent, walk-dir m rec i) (rw h refl)

  marked-present : (marked.tables m.dir i).present ≡ true
  marked-present = rw (==_refl m.dir, ==_refl i) refl

  marked-IsRecursive : (m.tables m.dir i).present ≡ false → IsRecursive marked
  marked-IsRecursive absent = record {
    present = ground (arith, rec.present);
    address = ground (arith, rec.present, rec.address);
  }

  marked-keeps :
      (j : ℕ) → (m.tables m.dir j).present ≡ true → (marked.tables m.dir j).present ≡ true
  marked-keeps j there = ground (arith, there)

kept : {m : Memory} → IsRecursive m → (frames : Frames) → IsRecursive (record m { frames = frames })
kept rec frames = record { present = rec.present; address = rec.address }

-- The guards of `page_map`, before what it does.
abbrev guarded : ℕ → ℕ → Memory → Result Memory → Result Memory
guarded phys vaddr m rest = do
  panic_if (not (is_page_aligned phys)) "physical address is not page-aligned"
  panic_if (not (is_page_aligned vaddr)) "virtual address is not page-aligned"
  used ← bitmap_test_bit m.frames.page_bitmap (phys / page_size)
  panic_if (not used) "mapping page that is not allocated in page_bitmap"
  rest

fuel_step :
    (f g phys vaddr : ℕ) (w u : Bool) (m : Memory)
    → need_table (page_map_fuel f) (vaddr / 2 ^ 22) m
      ≡ need_table (page_map_fuel g) (vaddr / 2 ^ 22) m
    → page_map_fuel (suc f) phys vaddr w u m ≡ page_map_fuel (suc g) phys vaddr w u m
unfolding page_map_fuel
fuel_step f g phys vaddr w u m h = λ j. guarded phys vaddr m (h j >>= fill_entry phys vaddr w u)

-- Where the table is there, one call is enough.
pub fuel_one :
    (f phys vaddr : ℕ) (w u : Bool) (m : Memory)
    → IsRecursive m
    → (m.tables m.dir (vaddr / 2 ^ 22)).present ≡ true
    → page_map_fuel (suc f) phys vaddr w u m ≡ page_map_fuel 1 phys vaddr w u m
fuel_one f phys vaddr w u m rec there = fuel_step f 0 phys vaddr w u m (
    need_table-present m rec _ (page_map_fuel f) there
    ∙ sym (need_table-present m rec _ (page_map_fuel 0) there))

-- Where the table for the placement heap is there, two are.
fuel_two :
    (f phys vaddr : ℕ) (w u : Bool) (m : Memory)
    → IsRecursive m
    → (m.tables m.dir (m.placement_heap / 2 ^ 22)).present ≡ true
    → page_map_fuel (suc (suc f)) phys vaddr w u m ≡ page_map_fuel 2 phys vaddr w u m
fuel_two f phys vaddr w u m rec heap = elim (Bool-cases (m.tables m.dir (vaddr / 2 ^ 22)).present) [
  | inl there ↦
      fuel_one (suc f) phys vaddr w u m rec there ∙ sym (fuel_one 1 phys vaddr w u m rec there)
  | inr absent ↦ fuel_step (suc f) 1 phys vaddr w u m (
      need_table_cong m rec _ (page_map_fuel (suc f)) (page_map_fuel 1) absent (
        structure_alloc_cong (page_map_fuel (suc f)) (page_map_fuel 1) (marked m rec _) λ p frames.
          fuel_one f p m.placement_heap true false
            (record (marked m rec (vaddr / 2 ^ 22)) { frames = frames })
            (kept (marked-IsRecursive m rec _ absent) frames) (marked-keeps m rec _ _ heap)))
]

-- Mapping the page of the placement heap: its own table may be missing, but then it is marked.
heap_map :
    (f phys : ℕ) (m : Memory)
    → IsRecursive m
    → page_map_fuel (suc (suc f)) phys m.placement_heap true false m
      ≡ page_map_fuel 2 phys m.placement_heap true false m
heap_map f phys m rec = elim (Bool-cases (m.tables m.dir (m.placement_heap / 2 ^ 22)).present) [
  | inl there ↦ fuel_two f phys m.placement_heap true false m rec there
  | inr absent ↦ fuel_step (suc f) 1 phys m.placement_heap true false m (
      need_table_cong m rec _ (page_map_fuel (suc f)) (page_map_fuel 1) absent (
        structure_alloc_cong (page_map_fuel (suc f)) (page_map_fuel 1) (marked m rec _) λ p frames.
          fuel_one f p m.placement_heap true false
            (record (marked m rec (m.placement_heap / 2 ^ 22)) { frames = frames })
            (kept (marked-IsRecursive m rec _ absent) frames) (marked-present m rec _)))
]

-- However much fuel there is beyond three calls, `page_map` does the same: it has enough.
pub page_map_fuel_enough :
    (extra phys vaddr : ℕ) (w u : Bool) (m : Memory)
    → IsRecursive m
    → page_map_fuel (suc (suc (suc extra))) phys vaddr w u m ≡ page_map phys vaddr w u m
unfolding page_map
page_map_fuel_enough extra phys vaddr w u m rec =
    elim (Bool-cases (m.tables m.dir (vaddr / 2 ^ 22)).present) [
      | inl there ↦
          fuel_one (suc (suc extra)) phys vaddr w u m rec there
          ∙ sym (fuel_one 2 phys vaddr w u m rec there)
      | inr absent ↦ fuel_step (suc (suc extra)) 2 phys vaddr w u m (
          need_table_cong m rec _ (page_map_fuel (suc (suc extra))) (page_map_fuel 2) absent (
            structure_alloc_cong (page_map_fuel (suc (suc extra))) (page_map_fuel 2)
              (marked m rec _)
              λ p frames.
                heap_map extra p (record (marked m rec (vaddr / 2 ^ 22)) { frames = frames })
                  (kept (marked-IsRecursive m rec _ absent) frames)))
    ]
