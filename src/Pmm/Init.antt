-- ===== src/Pmm/Init.antt =====
-- The state that `pmm_init` leaves, and what `page_alloc` can give out of it.
use treeos.Base.{
  ℕ, ◌+◌, ◌*◌, ◌/◌, ◌^◌, ◌≤◌, ◌<◌, ◌≡◌, ◌≢◌, refl, arith, Bool, true, false, not, ◌&&◌, Option,
  none, some, List, [], ◌∷◌, ◌++◌, Result, ok, ◌==◌, if◌then◌else◌, ltb, ◌∙◌, sym, ap, ◌⊎◌, inl,
  inr, length, add32, u32, get_elem?,
}
use treeos.Bitmap.{words_for}
use treeos.Bitmap.Bits.{taken, IsWords}
use treeos.Frames.{Frames, Entry, pages_of, page_alloc, paging_init_bitmap, bitmap_array_size}
use treeos.Frames.Region.{IsFrames, in_range, paging_deinit_region_lem}
use treeos.Frames.Init.{Initialises, initialised, too_large, paging_init_bitmap_lem}
use treeos.Frames.Alloc.{Allocates, allocated, exhausted, page_alloc_lem}
use treeos.Paging.{paging_allocator_init}
use treeos.Interrupt.{Interrupts, int_register_handler}
use treeos.Interrupt.Handlers.{Registers, int_register_handler_lem}
use treeos.Interrupt.Handlers
use treeos.Str.{Bytes}
use treeos.Multiboot.{MultibootInfo, MmapEntry, has_flag}
use treeos.Pmm.{
  Pmm, Print, Kernel, kib, real_kernel_start, real_kernel_end, kernel_size, page_fault_int_handler,
  pmm_init,
}
use treeos.Pmm.MemoryMap.{Entries, AllFit, after_entries, lines, parse_memory_map_lem}
use treeos.Pmm.Modules.{
  mods_at, AllWithin, after_modules, module_lines, preserve_modules_lem, in_range-pages_of,
  AnyModule, after_modules-true, after_modules-AnyModule,
}

-- What the boot loader and the linker give: both kinds of memory information, a memory map of entries
-- that follow one another, and a kernel and modules that lie within the bitmap.
pub record IsBootable (k : Kernel) (b : Bytes) (mbi : MultibootInfo) (es : List MmapEntry)
    : Type 0 where
  pub memory_flag : has_flag mbi 0x1 ≡ true
  pub map_flag : has_flag mbi 0x40 ≡ true
  pub mods_flag : not (mbi.mods_count == 0) && not (has_flag mbi 0x8) ≡ false
  pub sized : words_for (pages_of (u32 (kib mbi * 1024))) < 1024
  pub map_small : mbi.mmap_addr + mbi.mmap_length < 2 ^ 32
  pub entries : Entries b (mbi.mmap_addr + mbi.mmap_length) mbi.mmap_addr es
  pub regions : AllFit es
  pub kernel_order : real_kernel_start k ≤ real_kernel_end k
  pub kernel_within : real_kernel_start k / 4096 + pages_of (kernel_size k) < 32768
  pub mods_ptr : 0 < mbi.mods_addr
  pub mods_small : mbi.mods_addr + 16 * mbi.mods_count < 2 ^ 32
  pub modules : AllWithin (mods_at b mbi.mods_count mbi.mods_addr)

-- Whether page `j` is in use after `pmm_init`.
abbrev pub after_init : List ℕ → Kernel → Bytes → MultibootInfo → List MmapEntry → ℕ → Bool
after_init array k b mbi es j = after_modules (mods_at b mbi.mods_count mbi.mods_addr) j (
    if in_range (real_kernel_start k / 4096) (pages_of (kernel_size k)) j
    then true
    else after_entries es j (if ltb j 8192 then true else taken array j))

-- What `pmm_init` leaves.
pub record Prepared (array : List ℕ) (k : Kernel) (b : Bytes) (mbi : MultibootInfo)
    (es : List MmapEntry) (s : Pmm) (result : Result Pmm) : Type 0 where
  pub after : Pmm
  pub out : List ℕ
  pub returns : result ≡ ok after
  pub valid : IsFrames after.memory.frames out
  pub each : (j : ℕ) → taken out j ≡ after_init array k b mbi es j
  pub heap : after.memory.placement_heap ≡ add32 (k.kern_end / 4096 * 4096) 4096
  pub count :
      after.memory.frames.page_bitmap.word_count ≡ words_for (pages_of (u32 (kib mbi * 1024)))
  pub unmoved : after.memory ≡ record s.memory {
    frames = after.memory.frames;
    placement_heap = after.memory.placement_heap;
  }
  pub handler : get_elem? after.interrupts.handler_table 14 ≡ some page_fault_int_handler
  pub same_irqs :
      record after.interrupts { handler_table = s.interrupts.handler_table } ≡ s.interrupts

-- The entry of interrupt 14 can be set.
registers_14 :
    (i : Interrupts)
    → length i.handler_table ≡ 49
    → (t : Interrupts) × (int_register_handler 14 page_fault_int_handler i ≡ ok t)
      × (get_elem? t.handler_table 14 ≡ some page_fault_int_handler)
      × (record t { handler_table = i.handler_table } ≡ i)
registers_14 i size = go (int_register_handler_lem i 14 page_fault_int_handler size)
  where
    go :
        Registers i 14 page_fault_int_handler (int_register_handler 14 page_fault_int_handler i)
        → (t : Interrupts) × (int_register_handler 14 page_fault_int_handler i ≡ ok t)
          × (get_elem? t.handler_table 14 ≡ some page_fault_int_handler)
          × (record t { handler_table = i.handler_table } ≡ i)
    go (Handlers.registered t lt returns each same) = (t, returns, each 14, same)
    go (Handlers.no_such_interrupt le returns) = absurd (omega arith)
    go (Handlers.syscall_interrupt e returns) = absurd (omega arith)
    go (Handlers.irq_interrupt le lt returns) = absurd (omega arith)

-- A byte of the kernel or of a module.
abbrev pub Reserved : Kernel → Bytes → MultibootInfo → ℕ → Type 0
Reserved k b mbi at =
    ((real_kernel_start k ≤ at) × (at < real_kernel_end k))
    ⊎ AnyModule at (mods_at b mbi.mods_count mbi.mods_addr)

-- The outcomes of `page_alloc` where the bytes of `Held` are not to be given out.
pub data Spares (Held : ℕ → Type 0) (f : Frames) : Result (Option Entry × Frames) → Type 0 where
  spared :
      {result : Result (Option Entry × Frames)} (d : Entry) (g : Frames)
      → result ≡ ok (some d, g)
      → ((at : ℕ) → Held at → d.address ≢ at / 4096)
      → Spares Held f result
  out_of_pages :
      {result : Result (Option Entry × Frames)} → result ≡ ok (none, f) → Spares Held f result

module _ (array : List ℕ) (size : length array ≡ bitmap_array_size) (fit : IsWords array)
    (k : Kernel) (b : Bytes) (mbi : MultibootInfo) {es : List MmapEntry}
    (boot : IsBootable k b mbi es) (s : Pmm) (table : length s.interrupts.handler_table ≡ 49) where
  abbrev log0 : List Print
  log0 =
      s.printed
      ++ ("mem_lower = %u KiB\n", mbi.mem_lower ∷ [])
        ∷ ("mem_upper = %u KiB\n", mbi.mem_upper ∷ [])
        ∷ ("mem_total = %u KiB\n", kib mbi ∷ [])
        ∷ []

  from_bitmap :
      Initialises array
        (u32 (kib mbi * 1024))
        s.memory.frames
        (paging_init_bitmap array (u32 (kib mbi * 1024)) s.memory.frames)
      → Prepared array k b mbi es s (pmm_init array k b mbi s)
  unfolding pmm_init
  from_bitmap (too_large large returns) = absurd (omega (arith, boot.sized))
  from_bitmap (initialised g out lt returns valid count each) =
      let p = parse_memory_map_lem b mbi log0 boot.map_small boot.entries valid boot.regions in
      let d =
        paging_deinit_region_lem p.valid (real_kernel_start k) (kernel_size k) boot.kernel_within in
      let m =
        preserve_modules_lem b mbi (lines es log0) boot.mods_flag boot.mods_ptr boot.mods_small
          d.valid boot.modules in
      let (t, registers, handler, same_irqs) = registers_14 s.interrupts table in
      record {
        after = record {
          memory = paging_allocator_init k.kern_end (record s.memory { frames = m.frames });
          interrupts = t;
          printed =
              module_lines (mods_at b mbi.mods_count mbi.mods_addr) (lines es log0)
              ++ ("[mm] paging enabled\n", []) ∷ [];
        };
        out = m.out;
        returns =
            rw
              (boot.memory_flag, boot.map_flag, returns, p.returns, d.returns, m.returns, registers)
              refl;
        valid = unfold paging_allocator_init in m.valid;
        each = λ j. m.each j ∙ (rw (d.each j, p.each j, each j) refl);
        heap = unfold paging_allocator_init in refl;
        count =
            unfold paging_allocator_init in (m.same_count ∙ d.same_count ∙ p.same_count ∙ count);
        unmoved = unfold paging_allocator_init in refl;
        handler = handler;
        same_irqs = same_irqs;
      }

  -- With what the boot loader gives, and with its regions, the kernel and the modules within the bitmap,
  -- `pmm_init` returns, and each page is in use or not as follows. The first 8192 pages start in use, the
  -- others as the array has them. An available region, whose length is taken to be its address, frees the
  -- pages from its address to twice the address (page 0 excepted), so not all pages of every region. Then
  -- the pages from the start of the kernel and of each module to the page after their end are in use. The
  -- placement heap starts on the page after the kernel's last, and page faults have their handler.
  pub pmm_init_lem : Prepared array k b mbi es s (pmm_init array k b mbi s)
  pmm_init_lem =
      from_bitmap (paging_init_bitmap_lem array size (u32 (kib mbi * 1024)) s.memory.frames fit)

  Reserved-after_init :
      (at : ℕ) → Reserved k b mbi at → after_init array k b mbi es (at / 4096) ≡ true
  Reserved-after_init at (inl (low, high)) =
      rw
        (in_range-pages_of (real_kernel_start k) (kernel_size k) at low
          (omega (arith, boot.kernel_order)))
        (after_modules-true (mods_at b mbi.mods_count mbi.mods_addr) (at / 4096))
  Reserved-after_init at (inr there) = after_modules-AnyModule _ there

  -- After `pmm_init` returned, `page_alloc` gives no page that holds a byte of the kernel or of a
  -- module.
  pub page_alloc-pmm_init :
      (page : Entry)
      → (t : Pmm) × (pmm_init array k b mbi s ≡ ok t)
        × Spares (Reserved k b mbi) t.memory.frames (page_alloc (some page) t.memory.frames)
  page_alloc-pmm_init page =
      let p = pmm_init_lem in (p.after, p.returns, spares p (page_alloc_lem page p.valid))
    where
      spares :
          (p : Prepared array k b mbi es s (pmm_init array k b mbi s))
          → Allocates page p.after.memory.frames p.out
              (page_alloc (some page) p.after.memory.frames)
          → Spares
              (Reserved k b mbi)
              p.after.memory.frames
              (page_alloc (some page) p.after.memory.frames)
      spares p (exhausted returns all) = out_of_pages returns
      spares p (allocated q g out returns lt free before valid each count worries) =
          spared (record page { address = q }) g returns
            (λ at held same.
              let used = Reserved-after_init at held in
              let e : taken p.out (at / 4096) ≡ true = p.each (at / 4096) ∙ used in
              let f : taken p.out (at / 4096) ≡ false =
                ap (λ (x : ℕ). taken p.out x) (sym same) ∙ free in
              cc)
