-- ===== src/Module/Place.antt =====
-- Where `module_table_init` puts a module, and what it writes down of it.
use treeos.Base.{
  ℕ, zero, suc, ◌+◌, ◌-◌, ◌*◌, ◌/◌, ◌%◌, ◌^◌, ◌≤◌, ◌<◌, ◌≡◌, ◌≢◌, ◌⊎◌, inl, inr, refl, arith, true,
  false, some, ◌++◌, List, Result, ok, panicked, ◌==◌, add32, sub32, ne→==_false, ◌∙◌, sym, ap,
  subst, Bool-cases,
}
use treeos.Str.{Bytes, poke, word, poke_word, strncpy}
use treeos.Paging.{Memory, walk}
use treeos.Bitmap.Bits.{taken}
use treeos.Paging.Walk.{IsRooted}
use treeos.Paging.Range.{map_pages}
use treeos.Paging.Space.{IsSpace, Settled, settled, no_table_left, map_pages-Settles, follows}
use treeos.Multiboot.{ModList, mod_list_at}
use treeos.Module.{
  Modules, modules_start_addr, page_align_down, module_size, entry_addr, fill_module, module_prints,
  put_module, place_module,
}

word-poke_word : (at v : ℕ) (b : Bytes) → v < 2 ^ 32 → word (poke_word at v b) at ≡ v
unfolding poke_word
word-poke_word at v b small = ground arith

poke_word-outside : (at v a : ℕ) (b : Bytes) → (a < at) ⊎ (at + 4 ≤ a) → poke_word at v b a ≡ b a
unfolding poke_word
poke_word-outside at v a b (inl below) = ground arith
poke_word-outside at v a b (inr above) = ground arith

strncpy-outside :
    (dest src num a : ℕ) (b : Bytes) → dest + num ≤ a → (strncpy dest src num b).1 a ≡ b a
unfolding strncpy
strncpy-outside dest src zero a b above = refl
strncpy-outside dest src (suc num) a b above =
    let differs : (a == dest) ≡ false = ne→==_false a dest (λ e. omega (arith, e)) in
    strncpy-outside (dest + 1) (src + 1) num a (poke dest (b src) b) (omega arith)
    ∙ (rw differs refl)

-- Four bytes that are the same make the same word.
word-same :
    (at : ℕ) (b c : Bytes) → ((j : ℕ) → j < 4 → c (at + j) ≡ b (at + j)) → word c at ≡ word b at
word-same at b c same = omega (
  arith,
  move 0 at (omega arith) (omega arith),
  move 1 (at + 1) (omega arith) (omega arith),
  move 2 (at + 2) (omega arith) (omega arith),
  move 3 (at + 2 + 1) (omega arith) (omega arith),
)
  where
    move : (j a : ℕ) → j < 4 → at + j ≡ a → c a ≡ b a
    move j a h e = subst (λ (x : ℕ). c x ≡ b x) e (same j h)

-- An entry holds the address and the size; the name does not reach them.
fill_module_lem :
    (entry addr : ℕ) (m : ModList) (b : Bytes)
    → addr < 2 ^ 32
    → (word (fill_module entry addr m b) (entry + 8) ≡ addr)
      × (word (fill_module entry addr m b) (entry + 12) ≡ sub32 m.mod_end m.mod_start)
unfolding fill_module
fill_module_lem entry addr m b small = elim (Bool-cases (m.cmdline == 0)) [
  | inl e ↦ rw e both
  | inr e ↦ rw e (
    word-same (entry + 8) filled named
          (λ j h. strncpy-outside entry (m.cmdline + 2) 7 (entry + 8 + j) filled (omega arith))
        ∙ both.0,
    word-same (entry + 12) filled named
          (λ j h. strncpy-outside entry (m.cmdline + 2) 7 (entry + 12 + j) filled (omega arith))
        ∙ both.1,
  )
]
  where
    size : ℕ
    size = sub32 m.mod_end m.mod_start

    with_addr : Bytes
    with_addr = poke_word (entry + 8) addr b

    filled : Bytes
    filled = poke_word (entry + 12) size with_addr

    named : Bytes
    named = (strncpy entry (m.cmdline + 2) 7 filled).1

    both : (word filled (entry + 8) ≡ addr) × (word filled (entry + 12) ≡ size)
    both = (
      word-same (entry + 8) with_addr filled (λ j h.
            poke_word-outside (entry + 12) size (entry + 8 + j) with_addr (inl (omega arith)))
          ∙ word-poke_word (entry + 8) addr b small,
      word-poke_word (entry + 12) size with_addr (omega arith),
    )

-- The frame and the offset of every byte of the module `m` at the virtual address that the table has
-- for it.
abbrev pub Reaches : (m : ModList) (addr : ℕ) → Memory → Type 0
Reaches m addr memory =
    (at : ℕ)
    → m.mod_start ≤ at
    → at < m.mod_end
    → let vaddr = addr + (at - m.mod_start) in
      (walk memory (vaddr / 4096) ≡ some (at / 4096)) × (vaddr % 4096 ≡ at % 4096)

-- What placing a module at `offset` does.
pub record Places (m : ModList) (i offset : ℕ) (s : Modules) (result : Result (ℕ × Modules))
    : Type 0 where
  pub after : Modules
  pub addr : ℕ
  pub size : ℕ
  pub returns : result ≡ ok (offset + size + 4096, after)
  pub reaches : Reaches m addr after.memory
  pub addr_in_table : word after.bytes (entry_addr s.module_table i + 8) ≡ addr
  pub size_in_table : word after.bytes (entry_addr s.module_table i + 12) ≡ m.mod_end - m.mod_start
  pub above : modules_start_addr + offset ≤ addr
  pub within : addr + (m.mod_end - m.mod_start) ≤ modules_start_addr + offset + size
  pub others :
      (q : ℕ)
      → q / 1024 < 1023
      → (q < (modules_start_addr + offset) / 4096)
        ⊎ ((modules_start_addr + offset + size) / 4096 ≤ q)
      → ((j : ℕ)
          → j < size / 4096
          → follows
              (modules_start_addr + offset)
              s.memory
              ((modules_start_addr + offset) / 4096 + j)
              q
            ≡ false)
      → walk after.memory q ≡ walk s.memory q
  pub rooted : IsRooted after.memory

-- The outcomes: the module is placed, or every page is in use and none is left for a table.
pub data Outcome (m : ModList) (i offset : ℕ) (s : Modules) (words : List ℕ)
    (result : Result (ℕ × Modules)) : Type 0 where
  placed : Places m i offset s result → Outcome m i offset s words result
  no_memory :
      result ≡ panicked "out of memory"
      → ((j : ℕ) → j < s.memory.frames.page_bitmap.word_count * 32 → taken words j ≡ true)
      → Outcome m i offset s words result

module _ (m : ModList) (i mod_ptr offset : ℕ) (s : Modules) (order : m.mod_start ≤ m.mod_end)
    (small : m.mod_end + 0xfff < 2 ^ 32) (aligned : offset % 4096 ≡ 0) (words : List ℕ)
    (space : IsSpace
      (module_size m / 4096)
      (page_align_down m.mod_start)
      (modules_start_addr + offset)
      s.memory
      words) where
  exact : module_size m ≡ (m.mod_end + 0xfff) / 4096 * 4096 - m.mod_start / 4096 * 4096
  exact = omega (arith, order, small)

  ends : modules_start_addr + offset + module_size m ≤ 0xffc00000
  ends = omega (arith, space.low, space.within, exact)

  abbrev Mapped : Type 0
  Mapped =
      Settled (module_size m / 4096) (page_align_down m.mod_start) (modules_start_addr + offset)
        s.memory
        (map_pages false false (module_size m / 4096) 0 (page_align_down m.mod_start)
          (modules_start_addr + offset) s.memory)

  reached :
      (moves : Mapped) → Reaches m (modules_start_addr + offset + m.mod_start % 4096) moves.after
  reached moves at low high = (
    subst (λ (x : ℕ). walk moves.after x ≡ some (at / 4096)) page
        (moves.maps (at / 4096 - m.mod_start / 4096) inside ∙ ap some frame),
    omega (arith, aligned, low),
  )
    where
      inside : at / 4096 - m.mod_start / 4096 < module_size m / 4096
      inside = omega (arith, exact, low, high)

      frame : page_align_down m.mod_start / 4096 + (at / 4096 - m.mod_start / 4096) ≡ at / 4096
      frame = omega (arith, low)

      page :
          (modules_start_addr + offset) / 4096 + (at / 4096 - m.mod_start / 4096)
          ≡ (modules_start_addr + offset + m.mod_start % 4096 + (at - m.mod_start)) / 4096
      page = omega (arith, aligned, low)

  -- A module whose pages are in use is mapped at the next free place from 0xe0000000 on, or there is no
  -- page for the table there.
  pub put_module_lem : Outcome m i offset s words (put_module m i mod_ptr offset s)
  unfolding put_module
  put_module_lem =
      elim (map_pages-Settles (module_size m / 4096) (page_align_down m.mod_start)
        (modules_start_addr + offset) s.memory words space false false) [
          | settled moves ↦ placed (go moves)
          | no_table_left absent r all ↦ no_memory (rw (virt, r) refl) all
        ]
    where
      virt : add32 modules_start_addr offset ≡ modules_start_addr + offset
      virt = omega (arith, ends)

      next : add32 offset (add32 (module_size m) 4096) ≡ offset + module_size m + 4096
      next = omega (arith, ends)

      address :
          add32 (modules_start_addr + offset) (m.mod_start % 4096)
          ≡ modules_start_addr + offset + m.mod_start % 4096
      address = omega (arith, ends)

      size : sub32 m.mod_end m.mod_start ≡ m.mod_end - m.mod_start
      size = omega (arith, order, small)

      entry : ℕ
      entry = entry_addr s.module_table i

      go : Mapped → Places m i offset s (put_module m i mod_ptr offset s)
      go moves =
          let filled =
            fill_module_lem entry (modules_start_addr + offset + m.mod_start % 4096) m s.bytes
              (omega (arith, ends)) in
          record {
            after = record s {
              bytes =
                  fill_module entry (modules_start_addr + offset + m.mod_start % 4096) m s.bytes;
              memory = moves.after;
              printed = s.printed ++ module_prints i mod_ptr m;
            };
            addr = modules_start_addr + offset + m.mod_start % 4096;
            size = module_size m;
            returns = rw (virt, moves.returns, address, next) refl;
            reaches = reached moves;
            addr_in_table = filled.0;
            size_in_table = filled.1 ∙ size;
            above = omega arith;
            within = omega (arith, exact, order);
            others = λ q fits away apart.
                moves.others q fits (λ j h. (λ same. elsewhere q j away h (sym same), apart j h));
            rooted = moves.rooted;
          }
        where
          elsewhere :
              (q j : ℕ)
              → (q < (modules_start_addr + offset) / 4096)
                ⊎ ((modules_start_addr + offset + module_size m) / 4096 ≤ q)
              → j < module_size m / 4096
              → q ≢ (modules_start_addr + offset) / 4096 + j
          elsewhere q j (inl below) h same = omega (arith, same)
          elsewhere q j (inr above) h same = omega (arith, same, exact, aligned)

pub place_module_lem :
    (i mod_ptr offset : ℕ) (s : Modules) (words : List ℕ)
    → 0 < mod_ptr
    → (mod_list_at s.bytes mod_ptr).mod_start ≤ (mod_list_at s.bytes mod_ptr).mod_end
    → (mod_list_at s.bytes mod_ptr).mod_end + 0xfff < 2 ^ 32
    → offset % 4096 ≡ 0
    → IsSpace
        (module_size (mod_list_at s.bytes mod_ptr) / 4096)
        (page_align_down (mod_list_at s.bytes mod_ptr).mod_start)
        (modules_start_addr + offset)
        s.memory
        words
    → Outcome (mod_list_at s.bytes mod_ptr) i offset s words (place_module i mod_ptr offset s)
unfolding place_module
place_module_lem i mod_ptr offset s words ptr order small aligned space =
    rw (ne→==_false mod_ptr 0 (omega arith)) (
      put_module_lem (mod_list_at s.bytes mod_ptr) i mod_ptr offset s order small aligned words
        space)
