-- ===== src/Module/Examples.antt =====
-- A machine with one module named "init", and the theorems there.
use treeos.Base.{
  ℕ, zero, suc, ◌+◌, ◌<◌, ◌≡◌, refl, arith, true, some, none, [], ◌∷◌, Result, ok, ◌>>=◌, ◌==◌,
  if◌then◌else◌, Option,
}
use treeos.Bitmap.{bitmap_test_bit, bitmap_set_bit, bitmap_first_free}
use treeos.Str.{Bytes, poke_word, memset, strncpy, strcmp}
use treeos.Str.Strings.{StringAt}
use treeos.Frames.{page_alloc}
use treeos.Bits.{bit}
use treeos.Bitmap.Bits.{taken}
use treeos.Fixtures.Console.{boot_memory, boot-IsOwned, used_words}
use treeos.Paging.{walk, page_map}
use treeos.Paging.{virt_to_phys}
use treeos.Paging.Range.{map_pages}
use treeos.Paging.Space.{IsSpace}
use treeos.Multiboot.{MultibootInfo, mod_list_at}
use treeos.Module.{
  Modules, module_table_init, place_modules, place_module, fill_module, get_module_by_name,
  find_module,
}
use treeos.Module.Place.{Outcome, place_module_lem}
use treeos.Module.Find.{Finds, get_module_by_name_lem}

-- The module's entry at 0x2000, its command line at 0x2100.
abbrev bytes : Bytes
bytes a =
    if a == 0x2002
    then 0x30
    else if a == 0x2005
    then 0x28
    else if a == 0x2006
    then 0x30
    else if a == 0x2009
    then 0x21
    else if a == 0x2102
    then 105
    else if a == 0x2103
    then 110
    else if a == 0x2104
    then 105
    else if a == 0x2105
    then 116
    else 0

abbrev start : Modules
start = record {
  module_table = 0x5000;
  module_table_size = 1;
  bytes = bytes;
  memory = boot_memory;
  printed = [];
}

abbrev info : MultibootInfo
info = record {
  flags = 0x49;
  mem_lower = 640;
  mem_upper = 15360;
  boot_device = 0;
  cmdline = 0;
  mods_count = 1;
  mods_addr = 0x2000;
  u0 = 0;
  u1 = 0;
  u2 = 0;
  u3 = 0;
  mmap_length = 48;
  mmap_addr = 0x1000;
}

abbrev loaded : Result (ℕ × Option ℕ × Option ℕ × Option ℕ)
loaded = do
  s ← module_table_init 0x5000 info start
  addr ← get_module_by_name 10 0x2102 s
  ok (addr, walk s.memory 0xe0000, walk s.memory 0xe0002, walk s.memory 0xe0003)

loads_init : loaded ≡ ok (0xe0000000, some 0x300, some 0x302, none)
unfolding module_table_init place_modules place_module fill_module poke_word memset strncpy strcmp
    map_pages page_map virt_to_phys page_alloc bitmap_test_bit bitmap_set_bit bitmap_first_free
    get_module_by_name find_module
loads_init = refl

below_3 : (P : ℕ → Type 0) → P 0 × P 1 × P 2 → (j : ℕ) → j < 3 → P j
below_3 P p zero h = p.0
below_3 P p (suc zero) h = p.1
below_3 P p (suc (suc zero)) h = p.2
below_3 P p (suc (suc (suc j))) h = absurd (omega arith)

space : IsSpace 3 0x300000 0xe0000000 boot_memory used_words
unfolding bit
space = record {
  own = boot-IsOwned;
  aligned = refl;
  low = omega arith;
  within = omega arith;
  phys_aligned = refl;
  inside = omega arith;
  used = below_3 (λ (j : ℕ). taken used_words (0x300 + j) ≡ true) (refl, refl, refl);
  free = below_3 (λ (j : ℕ). walk boot_memory (0xe0000 + j) ≡ none) (refl, refl, refl);
}

place_module_lem_example :
    Outcome (mod_list_at bytes 0x2000) 0 0 start used_words (place_module 0 0x2000 0 start)
place_module_lem_example =
    place_module_lem 0 0x2000 0 start used_words (omega arith) (omega arith) (omega arith) refl
      space

-- A table at 0x2102 with one entry, which is named "init".
abbrev table : Modules
table = record start { module_table = 0x2102 }

bytes-small : (a : ℕ) → bytes a < 256
bytes-small a = ground arith

get_module_by_name_lem_example :
    Finds bytes
      (105 ∷ 110 ∷ 105 ∷ 116 ∷ [])
      (get_module_by_name 10 0x2102 table)
      0x2102
      ((105 ∷ 110 ∷ 105 ∷ 116 ∷ []) ∷ [])
get_module_by_name_lem_example =
    get_module_by_name_lem table ((105 ∷ 110 ∷ 105 ∷ 116 ∷ []) ∷ []) (105 ∷ 110 ∷ 105 ∷ 116 ∷ [])
      0x2102 10 bytes-small init (omega arith) (init, tt) refl
  where
    init : StringAt bytes 0x2102 (105 ∷ 110 ∷ 105 ∷ 116 ∷ [])
    init = (
      refl,
      (λ e. omega (arith, e)),
      (
        refl,
        (λ e. omega (arith, e)),
        (refl, (λ e. omega (arith, e)), (refl, (λ e. omega (arith, e)), refl)),
      ),
    )
