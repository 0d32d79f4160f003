-- ===== src/Paging/Examples.antt =====
-- Runs of the paging functions, and their theorems at a small address space.
use treeos.Base.{
  ℕ, ◌/◌, ◌≡◌, refl, arith, true, false, ◌&&◌, some, Result, ok, panicked, ◌>>=◌, ◌==◌,
  if◌then◌else◌, [], ◌∷◌,
}
use treeos.Bitmap.{bitmap_test_bit, bitmap_set_bit, bitmap_first_free}
use treeos.Frames.{Entry, page_alloc}
use treeos.Paging.{Memory, walk, blank, page_map, page_map_fuel, page_unmap, virt_to_phys}
use treeos.Paging.Walk.{IsRooted}
use treeos.Paging.Map.{Maps, Resolves, virt_to_phys_lem, page_map_lem, page_unmap-page_map}
use treeos.Paging.Fuel.{page_map_fuel_enough}

abbrev mapped_to : ℕ → Entry
mapped_to frame = record { present = true; rw = true; user = false; rest = 0; address = frame }

-- The directory is frame 1; slots 0 and 768 have their table in frame 2, which maps
-- 0 and 0xc0000000 to frame 3.
abbrev slots : ℕ → ℕ → Entry
slots frame i =
    if frame == 1
    then (if i == 1023
        then mapped_to 1
        else if i == 768
        then mapped_to 2
        else if i == 0
        then mapped_to 2
        else blank)
    else if frame == 2
    then (if i == 0 then mapped_to 3 else blank)
    else blank

-- Pages 0 to 5 are in use; the placement heap starts at 0xc0001000.
abbrev small : Memory
small = record {
  frames = record {
    page_count = 32;
    page_bitmap = record { word_count = 1; bits = some (0x3f ∷ []); flags = 0 };
    worries = [];
  };
  tables = slots;
  dir = 1;
  placement_heap = 0xc0001000;
}

small-IsRooted : IsRooted small
small-IsRooted = record {
  recursive = record { present = refl; address = refl };
  not_dir = λ i lt here. ground arith;
}

-- A table is made for 0xd0000000, in frame 6, mapped at the placement heap.
abbrev grown : Result Memory
grown = page_map 0x4000 0xd0000000 true false small

grown_address : (grown >>= virt_to_phys 0xd0000123) ≡ ok 0x4123
unfolding page_map virt_to_phys bitmap_test_bit bitmap_set_bit bitmap_first_free page_alloc
grown_address = refl

grown_table : (grown >>= virt_to_phys 0xc0001000) ≡ ok 0x6000
unfolding page_map virt_to_phys bitmap_test_bit bitmap_set_bit bitmap_first_free page_alloc
grown_table = refl

grown_heap : (grown >>= λ m. ok m.placement_heap) ≡ ok 0xc0002000
unfolding page_map virt_to_phys bitmap_test_bit bitmap_set_bit bitmap_first_free page_alloc
grown_heap = refl

not_allocated :
    page_map 0x7000 0xc0002000 true false small
    ≡ panicked "mapping page that is not allocated in page_bitmap"
unfolding page_map bitmap_test_bit
not_allocated = refl

page_4_used : bitmap_test_bit small.frames.page_bitmap (0x4000 / 4096) ≡ ok true
unfolding bitmap_test_bit
page_4_used = refl

virt_to_phys_lem_example : Resolves small 0xc0000abc (virt_to_phys 0xc0000abc small)
virt_to_phys_lem_example = virt_to_phys_lem small small-IsRooted.recursive 0xc0000abc (omega arith)

page_map_lem_example : Maps small 0xc0005 4 (page_map 0x4000 0xc0005000 true false small)
page_map_lem_example =
    page_map_lem small small-IsRooted 0xc0005000 (omega arith) refl refl 0x4000 (omega arith) refl
      page_4_used true false

after_map :
    page_map 0x4000 0xc0005000 true false small
    ≡ ok (record small {
      tables = λ frame i. if (2 == frame) && (5 == i) then mapped_to 4 else slots frame i;
    })
unfolding page_map bitmap_test_bit
after_map = refl

page_unmap-page_map_example :
    (h : Memory) × (page_unmap 0xc0005000 (record small {
      tables = λ frame i. if (2 == frame) && (5 == i) then mapped_to 4 else slots frame i;
    })
      ≡ ok h)
    × IsRooted h
    × ((q : ℕ) → walk h q ≡ walk small q)
page_unmap-page_map_example =
    page_unmap-page_map small _ small-IsRooted 0xc0005000 (omega arith) refl refl 0x4000
      (omega arith) refl page_4_used true false after_map

page_map_fuel_enough_example :
    page_map_fuel 40 0x4000 0xd0000000 true false small
    ≡ page_map 0x4000 0xd0000000 true false small
page_map_fuel_enough_example =
    page_map_fuel_enough 37 0x4000 0xd0000000 true false small small-IsRooted.recursive
