-- ===== src/KernelHeap/Step.antt =====
-- One page more for the heap: the loop of `liballoc_alloc`, with a table for the heap's slot or without.
use treeos.Base.{
  ℕ, suc, ◌+◌, ◌*◌, ◌/◌, ◌%◌, ◌^◌, ◌≤◌, ◌<◌, ◌≡◌, ◌≢◌, refl, arith, Bool, true, false, Option, none,
  some, List, [], ◌∷◌, length, ok, panicked, ◌==◌, ◌||◌, if◌then◌else◌, add32, ◌∙◌, sym, ap, subst,
  ne→==_false, le→ltb_false, ◌⊎◌, inl, inr, Bool-cases, ==_refl, ==_iff, ==_false→ne,
}
use treeos.Bitmap.{bitmap_test_bit}
use treeos.Bitmap.Bits.{taken, test_bit_lem}
use treeos.Frames.{Frames, page_alloc}
use treeos.Frames.Region.{IsFrames}
use treeos.Paging.{Memory, walk, blank, page_map}
use treeos.Paging.Walk.{IsRooted, aliases}
use treeos.Paging.Map.{Maps, fresh, already, page_map_lem}
use treeos.Paging.Table.{IsOwned}
use treeos.Paging.Extend.{Extended, extended, no_page_left, page_map-Extends}
use treeos.Paging.Range.{aliases-entry}
use treeos.Paging.Space.{new_table}
use treeos.KernelHeap.{KernelHeap, alloc_pages, kheap_start, kheap_max_size}

-- The first page behind the heap.
abbrev pub heap_end : KernelHeap → ℕ
heap_end k = (kheap_start + k.kheap.size) / 4096

-- The slot of the heap has a table, which no other slot has; or it has none, and there is what it takes to
-- make one.
pub data Backed (m : Memory) (words : List ℕ) : Type 0 where
  has_table :
      (m.tables m.dir 832).present ≡ true
      → ((i : ℕ)
          → i < 1023
          → i ≢ 832
          → (m.tables m.dir i).present ≡ true
          → (m.tables m.dir 832).address ≢ (m.tables m.dir i).address)
      → Backed m words
  no_table : (m.tables m.dir 832).present ≡ false → IsOwned m words → Backed m words

-- The heap is at its address, and nothing is mapped behind its end; `words` are those of the bitmap.
pub record IsHeap (k : KernelHeap) (words : List ℕ) : Type 0 where
  pub frames : IsFrames k.memory.frames words
  pub rooted : IsRooted k.memory
  pub base : k.kheap.base ≡ kheap_start
  pub whole : k.kheap.size % 4096 ≡ 0
  pub backed : Backed k.memory words
  pub behind : (q : ℕ) → heap_end k ≤ q → q < 0xd0100 → walk k.memory q ≡ none

-- The page for a table that the heap is short of.
abbrev pub missing : KernelHeap → ℕ
missing k = if (k.memory.tables k.memory.dir 832).present then 0 else 1

-- Page `q` would be seen through the table entry of the placement heap's page, in which a table is made.
abbrev pub moves_with_table : KernelHeap → ℕ → Bool
moves_with_table k q =
    if (k.memory.tables k.memory.dir 832).present
    then false
    else aliases k.memory (k.memory.placement_heap / 4096) q

-- `j` is one of `pages`.
abbrev pub listed : List ℕ → ℕ → Bool
listed [] j = false
listed (p ∷ pages) j = (p == j) || listed pages j

-- Where only page `p` was taken, a page in use is `p` or was in use.
taken_by :
    (words out : List ℕ) (p : ℕ)
    → ((j : ℕ) → taken out j ≡ (if p == j then true else taken words j))
    → (j : ℕ) → taken out j ≡ true
    → (taken words j ≡ true) ⊎ (p == j ≡ true)
taken_by words out p each j h = elim (Bool-cases (p == j)) [
  | inl e ↦ inr e
  | inr e ↦ inl (ground (arith, each j, e, h))
]

module _ (k : KernelHeap) (words : List ℕ) (heap : IsHeap k words)
    (room : k.kheap.size + 4096 ≤ kheap_max_size) where
  -- One round of the loop: the state behind it.
  pub record Stepped (n : ℕ) : Type 0 where
    pub next : KernelHeap
    pub out : List ℕ
    pub frame : ℕ
    pub table_page : List ℕ
    pub goes : alloc_pages (suc n) k ≡ alloc_pages n next
    pub heap' : IsHeap next out
    pub table : (next.memory.tables next.memory.dir 832).present ≡ true
    pub size : next.kheap.size ≡ k.kheap.size + 4096
    pub maps : walk next.memory (heap_end k) ≡ some frame
    pub was_free : taken words frame ≡ false
    pub used : taken out frame ≡ true
    pub kept : (j : ℕ) → taken words j ≡ true → taken out j ≡ true
    pub by :
        (j : ℕ)
        → taken out j ≡ true
        → (taken words j ≡ true) ⊎ (listed (frame ∷ table_page) j ≡ true)
    pub few : length table_page ≤ missing k
    pub count : next.memory.frames.page_bitmap.word_count ≡ k.memory.frames.page_bitmap.word_count
    pub others :
        (q : ℕ)
        → q < 0xffc00
        → q ≢ heap_end k
        → moves_with_table k q ≡ false
        → walk next.memory q ≡ walk k.memory q

  -- The next state, or the table's page is wanting.
  pub data Steps (n : ℕ) : Type 0 where
    went : Stepped n → Steps n
    stuck :
        alloc_pages (suc n) k ≡ panicked "out of memory"
        → (pages : List ℕ) → length pages < suc n + missing k
        → ((j : ℕ)
            → j < k.memory.frames.page_bitmap.word_count * 32
            → (taken words j ≡ true) ⊎ (listed pages j ≡ true))
        → Steps n

  abbrev vaddr : ℕ
  vaddr = kheap_start + k.kheap.size

  wrap : add32 k.kheap.base k.kheap.size ≡ vaddr
  wrap = omega (arith, heap.base, room)

  more : add32 k.kheap.size 4096 ≡ k.kheap.size + 4096
  more = omega (arith, room)

  slot : vaddr / 2 ^ 22 ≡ 832
  slot = omega (arith, room)

  slot' : vaddr / 4096 / 1024 ≡ 832
  slot' = omega (arith, room)

  module _ (n p : ℕ) (g : Frames) (out : List ℕ)
      (alloc : page_alloc (some blank) k.memory.frames
        ≡ ok (some (record blank { address = p }), g))
      (small : p < 32768) (free : taken words p ≡ false) (valid : IsFrames g out)
      (each : (j : ℕ) → taken out j ≡ (if p == j then true else taken words j))
      (count : g.page_bitmap.word_count ≡ k.memory.frames.page_bitmap.word_count) where
    abbrev m1 : Memory
    m1 = record k.memory { frames = g }

    m1-IsRooted : IsRooted m1
    m1-IsRooted = record {
      recursive = record {
        present = heap.rooted.recursive.present;
        address = heap.rooted.recursive.address;
      };
      not_dir = heap.rooted.not_dir;
    }

    still : (j : ℕ) → taken words j ≡ true → taken out j ≡ true
    still j used = ground (arith, each j, used)

    m1-IsOwned : IsOwned k.memory words → IsOwned m1 out
    m1-IsOwned own = record {
      frames = valid;
      rooted = m1-IsRooted;
      stale = own.stale;
      dir_used = still _ own.dir_used;
      tables_used = λ i lt here. still _ (own.tables_used i lt here);
      heap_aligned = own.heap_aligned;
      heap_low = own.heap_low;
      heap_table = own.heap_table;
      heap_free = own.heap_free;
    }

    p_used : taken out p ≡ true
    p_used = each p ∙ rw (==_refl p) refl

    marked : bitmap_test_bit g.page_bitmap (p * 4096 / 4096) ≡ ok true
    marked =
        subst (λ (i : ℕ). bitmap_test_bit g.page_bitmap i ≡ ok true) (omega arith)
          (test_bit_lem valid.holds p (omega (arith, valid.size, small)) ∙ ap ok p_used)

    -- Where the table is there.
    module _ (there : (k.memory.tables k.memory.dir 832).present ≡ true)
        (alone : (i : ℕ)
          → i < 1023
          → i ≢ 832
          → (k.memory.tables k.memory.dir i).present ≡ true
          → (k.memory.tables k.memory.dir 832).address
            ≢ (k.memory.tables k.memory.dir i).address) where
      own_entry : (q : ℕ) → q < 0xffc00 → q ≢ heap_end k → aliases m1 (vaddr / 4096) q ≡ false
      own_entry q low ne = elim (Bool-cases (q / 1024 == 832)) [
        | inl e ↦
            let same : q / 1024 ≡ 832 = (==_iff _ _).0 e in
            aliases-entry m1 (vaddr / 4096) q (λ z. ne (omega (arith, z, same, slot')))
        | inr e ↦ rw slot' (elim (Bool-cases (k.memory.tables k.memory.dir (q / 1024)).present) [
          | inr absent ↦ rw absent refl
          | inl here ↦
              rw (here, ne→==_false _ _ (alone (q / 1024) (omega arith) (==_false→ne _ _ e) here))
                refl
        ])
      ]

      round :
          Maps m1 (vaddr / 4096) (p * 4096 / 4096) (page_map (p * 4096) vaddr true false m1)
          → Stepped n
      unfolding alloc_pages
      round (already old here r) =
          absurd
            (clash (sym (heap.behind (vaddr / 4096) (omega arith) (omega (arith, room))) ∙ here))
        where
          clash : ◌≡◌ {A = Option ℕ} none (some old) → ⊥
          clash e = cc
      round (fresh none_there w) = record {
        next = record k { kheap = record k.kheap { size = k.kheap.size + 4096 }; memory = w.after };
        out = out;
        frame = p;
        table_page = [];
        goes =
            rw
              (alloc, wrap, w.returns, more, le→ltb_false kheap_max_size (k.kheap.size + 4096) room)
              refl;
        heap' = record {
          frames = subst (λ (f : Frames). IsFrames f out) (sym w.same_frames) valid;
          rooted = w.tree;
          base = heap.base;
          whole = omega (arith, heap.whole);
          backed = has_table table (λ i lt ne here. apart i lt ne here);
          behind = λ q h h'.
              others q (omega (arith, h')) (omega (arith, h)) ∙ heap.behind q (omega (arith, h)) h';
        };
        table = table;
        size = refl;
        maps = w.maps ∙ ap some (omega arith);
        was_free = free;
        used = p_used;
        kept = still;
        by =
            λ j h. elim (taken_by words out p each j h) [ inl e ↦ inl e | inr e ↦ inr (rw e refl) ];
        few = omega arith;
        count = ap (λ (f : Frames). f.page_bitmap.word_count) w.same_frames ∙ count;
        others = λ q low ne away. others q low ne;
      }
        where
          dir_slot : (i : ℕ) → w.after.tables w.after.dir i ≡ k.memory.tables k.memory.dir i
          dir_slot i = ap (λ (d : ℕ). w.after.tables d i) w.same_dir ∙ w.same_slots i

          table : (w.after.tables w.after.dir 832).present ≡ true
          table = rw (dir_slot 832) there

          apart :
              (i : ℕ)
              → i < 1023
              → i ≢ 832
              → (w.after.tables w.after.dir i).present ≡ true
              → (w.after.tables w.after.dir 832).address ≢ (w.after.tables w.after.dir i).address
          apart i lt ne = rw (dir_slot i, dir_slot 832) (alone i lt ne)

          others : (q : ℕ) → q < 0xffc00 → q ≢ heap_end k → walk w.after q ≡ walk k.memory q
          others q low ne = w.each q ∙ (rw (own_entry q low ne) refl)

    -- Where it is made.
    made :
        (k.memory.tables k.memory.dir 832).present ≡ false
        → IsOwned k.memory words
        → Extended m1 out (vaddr / 4096) (p * 4096 / 4096) (page_map (p * 4096) vaddr true false m1)
        → Stepped n
    unfolding alloc_pages
    made absent own w = record {
      next = record k { kheap = record k.kheap { size = k.kheap.size + 4096 }; memory = w.after };
      out = w.out;
      frame = p;
      table_page = w.p ∷ [];
      goes =
          rw (alloc, wrap, w.returns, more, le→ltb_false kheap_max_size (k.kheap.size + 4096) room)
            refl;
      heap' = record {
        frames = w.frames;
        rooted = w.rooted;
        base = heap.base;
        whole = omega (arith, heap.whole);
        backed = has_table table (λ i lt ne here. apart i lt ne here);
        behind = λ q h h'. behind q h h';
      };
      table = table;
      size = refl;
      maps =
          w.each (vaddr / 4096) (omega (arith, slot'))
          ∙ (rw (==_refl (vaddr / 4096)) (ap some (omega arith)));
      was_free = free;
      used = ground (arith, w.used p, p_used);
      kept = λ j h. ground (arith, w.used j, still j h);
      by = λ j h. elim (taken_by out w.out w.p w.used j h) [
        | inr e ↦ inr (elim (Bool-cases (p == j)) [ inl f ↦ rw f refl | inr f ↦ rw (f, e) refl ])
        | inl h' ↦ elim (taken_by words out p each j h') [ inl e ↦ inl e | inr e ↦ inr (rw e refl) ]
      ];
      few = rw absent (omega arith);
      count = w.same_count ∙ count;
      others = λ q low ne away.
          w.each q (omega arith)
          ∙ (rw (ne→==_false (vaddr / 4096) q (λ e. ne (sym e)), clear q away) refl);
    }
      where
        clear :
            (q : ℕ)
            → moves_with_table k q ≡ false
            → aliases k.memory (k.memory.placement_heap / 4096) q ≡ false
        clear q away = sym (rw absent refl) ∙ away

        table : (w.after.tables w.after.dir 832).present ≡ true
        table =
            ap (λ (d : ℕ). (w.after.tables d 832).present) w.same_dir
            ∙ ap (λ (i : ℕ). (w.after.tables k.memory.dir i).present) (sym slot')
            ∙ w.present

        address : (w.after.tables w.after.dir 832).address ≡ w.p
        address =
            ap (λ (d : ℕ). (w.after.tables d 832).address) w.same_dir
            ∙ ap (λ (i : ℕ). (w.after.tables k.memory.dir i).address) (sym slot')
            ∙ w.address

        apart :
            (i : ℕ)
            → i < 1023
            → i ≢ 832
            → (w.after.tables w.after.dir i).present ≡ true
            → (w.after.tables w.after.dir 832).address ≢ (w.after.tables w.after.dir i).address
        apart i lt ne =
            rw (address, w.same_dir, w.slots i (λ e. ne (e ∙ slot')))
              (λ here same. new_table (m1-IsOwned own) w i (omega arith) here (sym same))

        behind :
            (q : ℕ)
            → (kheap_start + (k.kheap.size + 4096)) / 4096 ≤ q
            → q < 0xd0100
            → walk w.after q ≡ none
        behind q h h' =
            let here : q / 1024 ≡ 832 = omega (arith, h, h') in
            let other : (vaddr / 4096 == q) ≡ false = ne→==_false _ _ (λ e. omega (arith, e, h)) in
            w.each q (omega (arith, here)) ∙ (rw (other, here, absent) refl)

    pub stepped : Steps n
    unfolding alloc_pages
    stepped = elim heap.backed [
      | has_table there alone ↦ went (
          round there alone (
            page_map_lem m1 m1-IsRooted vaddr (omega (arith, room)) (omega (arith, heap.whole))
              (ap (λ (i : ℕ). (k.memory.tables k.memory.dir i).present) slot ∙ there) (p * 4096)
              (omega (arith, small)) (omega arith) marked true false))
      | no_table absent own ↦
          elim (page_map-Extends m1 out (m1-IsOwned own) vaddr (omega (arith, room))
            (omega (arith, heap.whole))
            (ap (λ (i : ℕ). (k.memory.tables k.memory.dir i).present) slot ∙ absent) (p * 4096)
            (omega arith) (omega (arith, small))
            (subst (λ (j : ℕ). taken out j ≡ true) (omega arith) p_used) true false) [
              | extended w ↦ went (made absent own w)
              | no_page_left r all ↦
                  stuck (rw (alloc, wrap, r) refl) (p ∷ []) (rw absent (omega arith)) (λ j lt.
                    elim (taken_by words out p each j (all j (omega (arith, lt, count)))) [
                      | inl e ↦ inl e
                      | inr e ↦ inr (rw e refl)
                    ])
            ]
    ]
