-- ===== src/Pmm/Modules.antt =====
-- What `preserve_modules` does, and that the pages it marks hold every byte of a module.
use treeos.Base.{
  ℕ, zero, suc, ◌+◌, ◌*◌, ◌/◌, ◌^◌, ◌≤◌, ◌<◌, ◌≡◌, refl, arith, Bool, true, false, not, ◌&&◌, List,
  [], ◌∷◌, ◌++◌, ◌==◌, if◌then◌else◌, ◌∙◌, add32,
}
use treeos.Frames.{Frames, pages_of}
use treeos.Frames.Region.{IsFrames, in_range, paging_deinit_region_lem}
use treeos.Str.{Bytes}
use treeos.Multiboot.{MultibootInfo, ModList, mod_list_at, has_flag}
use treeos.Pmm.{Print, kept_size, module_line, preserve_from, preserve_modules}
use treeos.Pmm.MemoryMap.{Reports}

-- The modules from `mod` on.
abbrev pub mods_at : Bytes → (left mod_ptr : ℕ) → List ModList
mods_at b zero mod_ptr = []
mods_at b (suc left) mod_ptr = mod_list_at b mod_ptr ∷ mods_at b left (mod_ptr + 16)

-- Whether page `j` is in use after a module was preserved.
abbrev pub after_module : ModList → ℕ → Bool → Bool
after_module m j t = if in_range (m.mod_start / 4096) (pages_of (kept_size m)) j then true else t

abbrev pub after_modules : List ModList → ℕ → Bool → Bool
after_modules [] j t = t
after_modules (m ∷ ms) j t = after_modules ms j (after_module m j t)

-- The pages of the module lie within the bitmap.
abbrev pub Within : ModList → Type 0
Within m = m.mod_start / 4096 + pages_of (kept_size m) < 32768

abbrev pub AllWithin : List ModList → Type 0
AllWithin [] = Unit {0}
AllWithin (m ∷ ms) = Within m × AllWithin ms

abbrev pub module_lines : List ModList → List Print → List Print
module_lines [] log = log
module_lines (m ∷ ms) log = module_lines ms (log ++ module_line m ∷ [])

preserve_from_lem :
    (b : Bytes) (left mod_ptr : ℕ) {f : Frames} {words : List ℕ} (log : List Print)
    → 0 < mod_ptr
    → mod_ptr + 16 * left < 2 ^ 32
    → IsFrames f words
    → AllWithin (mods_at b left mod_ptr)
    → Reports f words
        (after_modules (mods_at b left mod_ptr))
        (module_lines (mods_at b left mod_ptr) log)
        (preserve_from b left mod_ptr (f, log))
unfolding preserve_from
preserve_from_lem b zero mod_ptr {f} {words} log ptr small valid fit = record {
  frames = f;
  out = words;
  returns = refl;
  valid = valid;
  each = λ j. refl;
  same_count = refl;
}
preserve_from_lem b (suc left) mod_ptr log ptr small valid (fits, fit) =
    let m = mod_list_at b mod_ptr in
    let r = paging_deinit_region_lem valid m.mod_start (kept_size m) fits in
    let rest =
      preserve_from_lem b left (mod_ptr + 16) (log ++ module_line m ∷ []) (omega arith)
        (omega arith) r.valid fit in
    let exact : add32 mod_ptr 16 ≡ mod_ptr + 16 = omega arith in
    let valid_ptr : (mod_ptr == 0) ≡ false = ground arith in
    record {
      frames = rest.frames;
      out = rest.out;
      returns = rw (valid_ptr, r.returns, exact) rest.returns;
      valid = rest.valid;
      each = λ j. rest.each j ∙ (rw (r.each j) refl);
      same_count = rest.same_count ∙ r.same_count;
    }

-- With the flag for modules, or no module, `preserve_modules` reports every module and marks the
-- pages of its region as in use, and changes no other page.
pub preserve_modules_lem :
    (b : Bytes) (mbi : MultibootInfo) {f : Frames} {words : List ℕ} (log : List Print)
    → not (mbi.mods_count == 0) && not (has_flag mbi 8) ≡ false
    → 0 < mbi.mods_addr
    → mbi.mods_addr + 16 * mbi.mods_count < 2 ^ 32
    → IsFrames f words
    → AllWithin (mods_at b mbi.mods_count mbi.mods_addr)
    → Reports f words
        (after_modules (mods_at b mbi.mods_count mbi.mods_addr))
        (module_lines (mods_at b mbi.mods_count mbi.mods_addr) log)
        (preserve_modules b mbi (f, log))
unfolding preserve_modules
preserve_modules_lem b mbi log flag ptr small valid fit =
    rw flag (preserve_from_lem b mbi.mods_count mbi.mods_addr log ptr small valid fit)

-- The page of byte `at` is one of the pages of a region that the byte is in, also just behind its end.
pub in_range-pages_of :
    (start size at : ℕ)
    → start ≤ at
    → at ≤ start + size
    → in_range (start / 4096) (pages_of size) (at / 4096) ≡ true
unfolding pages_of
in_range-pages_of start size at low high = ground arith

-- A byte of the module.
abbrev pub InModule : ℕ → ModList → Type 0
InModule at m = (m.mod_start ≤ at) × (at < m.mod_end) × (m.mod_end < 2 ^ 32)

pub data AnyModule (at : ℕ) : List ModList → Type 0 where
  first : {m : ModList} {ms : List ModList} → InModule at m → AnyModule at (m ∷ ms)
  later : {m : ModList} {ms : List ModList} → AnyModule at ms → AnyModule at (m ∷ ms)

pub after_modules-true : (ms : List ModList) (j : ℕ) → after_modules ms j true ≡ true
after_modules-true [] j = refl
after_modules-true (m ∷ ms) j = ground (arith, after_modules-true ms j)

after_module-InModule :
    (m : ModList) (at : ℕ) (t : Bool) → InModule at m → after_module m (at / 4096) t ≡ true
after_module-InModule m at t (low, high, small) =
    rw (in_range-pages_of m.mod_start (kept_size m) at low (omega arith)) refl

-- The page of every byte of a module is in use after `preserve_modules`.
pub after_modules-AnyModule :
    {at : ℕ} {ms : List ModList} (t : Bool)
    → AnyModule at ms
    → after_modules ms (at / 4096) t ≡ true
after_modules-AnyModule t (first {m} {ms} inside) =
    rw (after_module-InModule m _ t inside) (after_modules-true ms _)
after_modules-AnyModule t (later {m} {ms} there) =
    after_modules-AnyModule (after_module m _ t) there
