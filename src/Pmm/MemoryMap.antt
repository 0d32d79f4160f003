-- ===== src/Pmm/MemoryMap.antt =====
-- What `parse_memory_map` does with a map whose entries follow one another.
use treeos.Base.{
  ℕ, zero, suc, ◌+◌, ◌/◌, ◌^◌, ◌≤◌, ◌<◌, ◌≡◌, refl, arith, Bool, true, false, List, [], ◌∷◌, ◌++◌,
  Result, ok, ◌==◌, if◌then◌else◌, ◌∙◌, inl, inr, Bool-cases, lt→ltb, le→ltb_false, add32, u32,
}
use treeos.Bitmap.Bits.{taken}
use treeos.Frames.{Frames, pages_of}
use treeos.Frames.Region.{IsFrames, in_range, paging_init_region_lem}
use treeos.Str.{Bytes}
use treeos.Multiboot.{MultibootInfo, MmapEntry, mmap_entry_at}
use treeos.Pmm.{
  Print, addr32, len32, is_available, region_line, take_entry, parse_entries, parse_memory_map,
}

-- The entries from `mmap` to `stop`, each behind the one before by the size that this states.
pub data Entries (b : Bytes) (stop : ℕ) : ℕ → List MmapEntry → Type 0 where
  done : {mmap : ℕ} → stop ≤ mmap → Entries b stop mmap []
  next :
      {mmap : ℕ} {es : List MmapEntry}
      → mmap < stop
      → mmap + (mmap_entry_at b mmap).size + 4 < 2 ^ 32
      → Entries b stop (mmap + (mmap_entry_at b mmap).size + 4) es
      → Entries b stop mmap (mmap_entry_at b mmap ∷ es)

-- What an entry makes of page `j`, which was in use or not. The length of the region is its address.
abbrev pub after_entry : MmapEntry → ℕ → Bool → Bool
after_entry e j t =
    if is_available e
    then (if j == 0
        then true
        else if in_range (addr32 e / 4096) (pages_of (len32 e)) j
        then false
        else t)
    else t

abbrev pub after_entries : List MmapEntry → ℕ → Bool → Bool
after_entries [] j t = t
after_entries (e ∷ es) j t = after_entries es j (after_entry e j t)

-- An available region lies within the bitmap.
abbrev pub Fits : MmapEntry → Type 0
Fits e = is_available e ≡ true → addr32 e / 4096 + pages_of (len32 e) < 32768

abbrev pub AllFit : List MmapEntry → Type 0
AllFit [] = Unit {0}
AllFit (e ∷ es) = Fits e × AllFit es

abbrev pub lines : List MmapEntry → List Print → List Print
lines [] log = log
lines (e ∷ es) log = lines es (log ++ region_line e ∷ [])

-- `result` is `f` with a new bitmap, in which page `j` is `change j` of what it was, and the log.
pub record Reports (f : Frames) (words : List ℕ) (change : ℕ → Bool → Bool) (log : List Print)
    (result : Result (Frames × List Print)) : Type 0 where
  pub frames : Frames
  pub out : List ℕ
  pub returns : result ≡ ok (frames, log)
  pub valid : IsFrames frames out
  pub each : (j : ℕ) → taken out j ≡ change j (taken words j)
  pub same_count : frames.page_bitmap.word_count ≡ f.page_bitmap.word_count

take_entry_lem :
    (e : MmapEntry) {f : Frames} {words : List ℕ} (log : List Print)
    → IsFrames f words
    → Fits e
    → Reports f words (after_entry e) (log ++ region_line e ∷ []) (take_entry e (f, log))
unfolding take_entry
take_entry_lem e {f} {words} log valid fits = elim (Bool-cases (is_available e)) [
  | inl yes' ↦
      let r = paging_init_region_lem valid (addr32 e) (len32 e) (fits yes') in
      record {
        frames = r.frames;
        out = r.out;
        returns = rw (yes', r.returns) refl;
        valid = r.valid;
        each = λ j. rw yes' (r.each j);
        same_count = r.same_count;
      }
  | inr no' ↦ record {
    frames = f;
    out = words;
    returns = rw no' refl;
    valid = valid;
    each = λ j. rw no' refl;
    same_count = refl;
  }
]

parse_entries_lem :
    (b : Bytes) (fuel : ℕ) {mmap stop : ℕ} {es : List MmapEntry} {f : Frames} {words : List ℕ}
    (log : List Print)
    → Entries b stop mmap es
    → 0 < fuel
    → stop < mmap + fuel
    → IsFrames f words
    → AllFit es
    → Reports f words (after_entries es) (lines es log) (parse_entries b fuel mmap stop (f, log))
unfolding parse_entries
parse_entries_lem b zero log chain some_left enough valid fit = absurd (omega arith)
parse_entries_lem b (suc fuel) {mmap} {stop} {f = f} {words = words} log (done past) some_left
      enough valid fit =
    record {
      frames = f;
      out = words;
      returns = rw (le→ltb_false mmap stop past) refl;
      valid = valid;
      each = λ j. refl;
      same_count = refl;
    }
parse_entries_lem b (suc fuel) {mmap} {stop} {f = f} {words = words} log
      (next {es = es} before small chain) some_left enough valid (fits, fit) =
    let e = mmap_entry_at b mmap in
    let r = take_entry_lem e log valid fits in
    let rest =
      parse_entries_lem b fuel (log ++ region_line e ∷ []) chain (omega arith) (omega arith) r.valid
        fit in
    let exact : u32 (mmap + e.size + 4) ≡ mmap + e.size + 4 = omega arith in
    record {
      frames = rest.frames;
      out = rest.out;
      returns = rw (lt→ltb mmap stop before, r.returns, exact) rest.returns;
      valid = rest.valid;
      each = λ j. rest.each j ∙ (rw (r.each j) refl);
      same_count = rest.same_count ∙ r.same_count;
    }

-- When the entries of the map follow one another without wrapping around, and the pages that the available
-- ones free (from their address to twice the address) lie within the bitmap, `parse_memory_map` comes
-- to its end: it reports every entry, frees the pages of the available ones as `paging_init_region`
-- does, with the address of each in the place of its length, and changes no other page.
pub parse_memory_map_lem :
    (b : Bytes) (mbi : MultibootInfo) {es : List MmapEntry} {f : Frames} {words : List ℕ}
    (log : List Print)
    → mbi.mmap_addr + mbi.mmap_length < 2 ^ 32
    → Entries b (mbi.mmap_addr + mbi.mmap_length) mbi.mmap_addr es
    → IsFrames f words
    → AllFit es
    → Reports f words (after_entries es) (lines es log) (parse_memory_map b mbi (f, log))
unfolding parse_memory_map
parse_memory_map_lem b mbi {es} {f} {words} log small chain valid fit =
    let exact : add32 mbi.mmap_addr mbi.mmap_length ≡ mbi.mmap_addr + mbi.mmap_length =
      omega arith in
    rw exact
      (parse_entries_lem b (mbi.mmap_length + 1) log chain (omega arith) (omega arith) valid fit)

-- A page that the map leaves free was free before, or is a page other than 0 of an available region.
pub free-after_entries :
    (es : List MmapEntry) (j : ℕ) (t : Bool) → after_entries es j t ≡ false → (j ≡ 0 → t ≡ false)
free-after_entries [] j t h e = h
free-after_entries (m ∷ es) j t h e =
    ground (arith, free-after_entries es j (after_entry m j t) h e)
