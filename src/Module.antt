-- ===== src/Module.antt =====
-- kernel/kernel/module.c: the table of the modules that the boot loader passes on, over Paging. The
-- table and the names are in memory, which is bytes as in Str; an entry of the table is 16 bytes: the
-- name, the address at 8 and the size at 12. What is printed is recorded as the calls of `printf`.
pub mod Place
pub mod Find
mod Examples
use treeos.Base.{
  ℕ, zero, suc, ◌+◌, ◌*◌, ◌/◌, ◌%◌, ◌^◌, Bool, true, false, not, List, [], ◌∷◌, ◌++◌, Result, ok,
  fault, kassert, ◌>>=◌, ◌>>◌, ◌==◌, if◌then◌else◌, add32, sub32,
}
use treeos.Str.{Bytes, poke_word, word, memset, strncpy, strcmp}
use treeos.Frames.{page_size}
use treeos.Paging.{Memory}
use treeos.Paging.Range.{map_pages}
use treeos.Multiboot.{MultibootInfo, ModList, mod_list_at}
use treeos.Pmm.{Print}

abbrev pub modules_start_addr : ℕ
modules_start_addr = 0xe0000000

-- `PAGE_ALIGN_DOWN` and `PAGE_ALIGN_UP`.
abbrev pub page_align_down : ℕ → ℕ
page_align_down addr = addr / page_size * page_size

abbrev pub page_align_up : ℕ → ℕ
page_align_up addr = add32 addr 0xfff / page_size * page_size

-- `struct module`, where the static variables are: the table's address and the number of its entries.
pub record Modules : Type 0 where
  pub module_table : ℕ
  pub module_table_size : ℕ
  pub bytes : Bytes
  pub memory : Memory
  pub printed : List Print

abbrev pub module_prints : (i mod_ptr : ℕ) → ModList → List Print
module_prints i mod_ptr m =
    ("   module %u (%p):\n", i ∷ mod_ptr ∷ [])
    ∷ ("      mod_start = %p\n", m.mod_start ∷ [])
    ∷ ("      mod_end   = %p\n", m.mod_end ∷ [])
    ∷ ("      cmdline   = %p (\"%s\")\n", m.cmdline ∷ [])
    ∷ []

abbrev pub module_size : ModList → ℕ
module_size m = sub32 (page_align_up m.mod_end) (page_align_down m.mod_start)

abbrev pub entry_addr : (table i : ℕ) → ℕ
entry_addr table i = table + 16 * i

-- Entry `i` of the table for a module at `addr`.
unfoldable pub fill_module : (entry addr : ℕ) → ModList → Bytes → Bytes
fill_module entry addr m b =
    let b : Bytes =
      poke_word (entry + 12) (sub32 m.mod_end m.mod_start) (poke_word (entry + 8) addr b) in
    if m.cmdline == 0 then b else (strncpy entry (m.cmdline + 2) 7 b).1

-- The body of the loop of `module_table_init` on module `m`; the result is the new `offset`.
unfoldable pub put_module : ModList → (i mod_ptr offset : ℕ) → Modules → Result (ℕ × Modules)
put_module m i mod_ptr offset s = do
  let virt = add32 modules_start_addr offset
  memory ←
      map_pages false false (module_size m / page_size) 0 (page_align_down m.mod_start) virt
        s.memory
  ok (
    add32 offset (add32 (module_size m) page_size),
    record s {
      bytes =
          fill_module (entry_addr s.module_table i) (add32 virt (m.mod_start % page_size)) m
            s.bytes;
      memory = memory;
      printed = s.printed ++ module_prints i mod_ptr m;
    },
  )

unfoldable pub place_module : (i mod_ptr offset : ℕ) → Modules → Result (ℕ × Modules)
unfolding put_module
place_module i mod_ptr offset s = do
  kassert (not (mod_ptr == 0)) "KASSERT failed: mod"
  put_module (mod_list_at s.bytes mod_ptr) i mod_ptr offset s

-- The loop, with `left` modules to go from `i` on.
unfoldable pub place_modules : (left i mod_ptr offset : ℕ) → Modules → Result Modules
place_modules zero i mod_ptr offset s = ok s
place_modules (suc left) i mod_ptr offset s = do
  (offset, s) ← place_module i mod_ptr offset s
  place_modules left (i + 1) (add32 mod_ptr 16) offset s

-- `kcalloc` is the block that the allocator gives, 0 for none, which the loop then writes to.
unfoldable pub module_table_init : (kcalloc : ℕ) → MultibootInfo → Modules → Result Modules
module_table_init kcalloc mbi s =
    let line =
      if mbi.mods_count == 1
      then "%u Multiboot module found\n"
      else "%u Multiboot modules found\n" in
    let s : Modules = record s {
      module_table_size = mbi.mods_count;
      printed = s.printed ++ (line, mbi.mods_count ∷ []) ∷ [];
    } in
    if mbi.mods_count == 0
    then ok s
    else if kcalloc == 0
    then fault
    else place_modules mbi.mods_count 0 mbi.mods_addr 0 (record s {
      module_table = kcalloc;
      bytes = memset kcalloc 0 (16 * mbi.mods_count) s.bytes;
    })

-- The loop of `get_module_by_name`, with `left` entries to go from `entry` on; 0 is `NULL`.
unfoldable pub find_module : (fuel name : ℕ) → Bytes → (left entry : ℕ) → Result ℕ
find_module fuel name b zero entry = ok 0
find_module fuel name b (suc left) entry =
    let rest = find_module fuel name b left (entry + 16) in
    strcmp fuel name entry b >>= λ r. if r == 0 then ok (word b (entry + 8)) else rest

unfoldable pub get_module_by_name : (fuel name : ℕ) → Modules → Result ℕ
get_module_by_name fuel name s = find_module fuel name s.bytes s.module_table_size s.module_table
