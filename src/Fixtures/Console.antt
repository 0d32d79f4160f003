-- ===== src/Fixtures/Console.antt =====
-- A memory as it is after the boot code: the kernel's table is in slots 0 and 768 of the directory.
use treeos.Base.{
  none, ◌==◌, false, ◌^◌, ℕ, zero, suc, ◌+◌, ◌/◌, ◌<◌, ◌≡◌, ◌≢◌, refl, arith, true, some, List, ◌∷◌,
  if◌then◌else◌, ltb, ◌&&◌, replicate, get_elem?, inl, inr, Bool-cases, [],
}
use treeos.Bits.{bit}
use treeos.Bitmap.Bits.{taken}
use treeos.Frames.{Entry}
use treeos.Paging.{Memory, blank as empty_entry, walk}
use treeos.Paging.Walk.{IsRooted}
use treeos.Paging.Table.{IsOwned}
use treeos.Paging.Space.{IsSpace}

abbrev pub entry_of : ℕ → Entry
entry_of frame = record { present = true; rw = true; user = false; rest = 0; address = frame }

-- The directory is frame 0x101. Frame 0x102 is the table of the first 4 MiB and of those at 0xc0000000: the
-- pages from the second one to the end of the kernel are mapped.
abbrev pub boot_tables : ℕ → ℕ → Entry
boot_tables frame i =
    if frame == 0x101
    then (if i == 1023
        then entry_of 0x101
        else if i == 0
        then entry_of 0x102
        else if i == 768
        then entry_of 0x102
        else empty_entry)
    else if frame == 0x102
    then (if ltb 0 i && ltb i 0x111 then entry_of i else empty_entry)
    else empty_entry

-- `n` words of ones and then zeros.
abbrev pub filled : (n left : ℕ) → List ℕ
filled zero left = replicate left 0
filled (suc n) left = 0xffffffff ∷ filled n left

filled_below : (n left i w : ℕ) → get_elem? (filled n left) i ≡ some w → w < 2 ^ 32
filled_below zero zero i w h = cc
filled_below zero (suc left) zero w h = ground arith
filled_below zero (suc left) (suc i) w h = filled_below zero left i w h
filled_below (suc n) left zero w h = ground arith
filled_below (suc n) left (suc i) w h = filled_below n left i w h

-- The first 1024 pages are in use.
abbrev pub used_words : List ℕ
used_words = filled 32 992

abbrev pub boot_memory : Memory
boot_memory = record {
  frames = record {
    page_count = 1056;
    page_bitmap = record { word_count = 33; bits = some used_words; flags = 0 };
    worries = [];
  };
  tables = boot_tables;
  dir = 0x101;
  placement_heap = 0xc0111000;
}

-- A property of the first eight numbers.
pub below_8 :
    (P : ℕ → Type 0) → P 0 × P 1 × P 2 × P 3 × P 4 × P 5 × P 6 × P 7 → (j : ℕ) → j < 8 → P j
below_8 P p zero h = p.0
below_8 P p (suc zero) h = p.1
below_8 P p (suc (suc zero)) h = p.2
below_8 P p (suc (suc (suc zero))) h = p.3
below_8 P p (suc (suc (suc (suc zero)))) h = p.4
below_8 P p (suc (suc (suc (suc (suc zero))))) h = p.5
below_8 P p (suc (suc (suc (suc (suc (suc zero)))))) h = p.6
below_8 P p (suc (suc (suc (suc (suc (suc (suc zero))))))) h = p.7
below_8 P p (suc (suc (suc (suc (suc (suc (suc (suc j)))))))) h = absurd (omega arith)

pub boot-IsRooted : IsRooted boot_memory
boot-IsRooted = record {
  recursive = record { present = refl; address = refl };
  not_dir = λ i lt here. ground arith;
}

-- What holds of the frames of the directory and of its table holds of every slot that has a table.
pub every_table :
    (P : ℕ → Type 0)
    → P 0x101
    → P 0x102
    → (i : ℕ) → (boot_tables 0x101 i).present ≡ true
    → P (boot_tables 0x101 i).address
every_table P dir table i = elim (Bool-cases (i == 1023)) [
  | inl e ↦ rw e (λ here. dir)
  | inr e ↦ elim (Bool-cases (i == 0)) [
    | inl e' ↦ rw (e, e') (λ here. table)
    | inr e' ↦ elim (Bool-cases (i == 768)) [
      | inl e2 ↦ rw (e, e', e2) (λ here. table)
      | inr e2 ↦ rw (e, e', e2) (λ here. absurd (absent here))
    ]
  ]
]
  where
    absent : false ≡ true → ⊥
    absent h = cc

pub boot_stale : (i : ℕ) → i < 1023 → (boot_tables 0x101 i).address ≢ 0x101
boot_stale i lt e = ground (arith, e)

pub boot-IsOwned : IsOwned boot_memory used_words
unfolding bit
boot-IsOwned = record {
  frames = record {
    holds = record { bits = refl; fit = λ i w h. filled_below 32 992 i w h; enough = omega arith };
    size = refl;
  };
  rooted = boot-IsRooted;
  stale = boot_stale;
  dir_used = refl;
  tables_used = λ i lt here. every_table (λ (f : ℕ). taken used_words f ≡ true) refl refl i here;
  heap_aligned = refl;
  heap_low = omega arith;
  heap_table = refl;
  heap_free = refl;
}

pub buffer_mapped :
    (j : ℕ) → j < 8 → (frame : ℕ) × (walk boot_memory (0xb8000 / 4096 + j) ≡ some frame)
buffer_mapped j h = (
  0xb8 + j,
  below_8 (λ (j : ℕ). walk boot_memory (0xb8000 / 4096 + j) ≡ some (0xb8 + j))
      (refl, refl, refl, refl, refl, refl, refl, refl) j h,
)

pub high-IsSpace : IsSpace 8 0xb8000 0xf00b8000 boot_memory used_words
unfolding bit
high-IsSpace = record {
  own = boot-IsOwned;
  aligned = refl;
  low = omega arith;
  within = omega arith;
  phys_aligned = refl;
  inside = omega arith;
  used =
      below_8 (λ (j : ℕ). taken used_words (0xb8000 / 4096 + j) ≡ true)
        (refl, refl, refl, refl, refl, refl, refl, refl);
  free =
      below_8 (λ (j : ℕ). walk boot_memory (0xf00b8000 / 4096 + j) ≡ none)
        (refl, refl, refl, refl, refl, refl, refl, refl);
}
