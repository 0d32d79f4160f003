-- ===== src/KernelHeap/Grow.antt =====
-- `liballoc_alloc`: the pages behind the end of the heap are mapped to frames that were free.
use treeos.Base.{
  ℕ, zero, suc, ◌+◌, ◌*◌, ◌≤◌, ◌<◌, ◌≡◌, ◌≢◌, refl, arith, Bool, true, false, Option, some, List,
  [], ◌∷◌, ◌++◌, length, length-append, Result, ok, panicked, ◌>>=◌, ◌==◌, ◌||◌, add32, ◌∙◌, sym,
  ap, ne→==_false, ◌⊎◌, inl, inr, Bool-cases,
}
use treeos.Bitmap.Bits.{taken}
use treeos.Frames.Alloc.{allocated, exhausted, page_alloc_lem}
use treeos.Paging.{walk, blank}
use treeos.KernelHeap.{KernelHeap, alloc_pages, liballoc_alloc, kheap_start, kheap_max_size}
use treeos.KernelHeap.Step.{
  heap_end, IsHeap, missing, moves_with_table, listed, Stepped, went, stuck, stepped,
}

-- The outcomes of growing the heap by `n` pages; where it panics, the pages that were free, of which there
-- were too few for the pages and their table, are `pages`.
pub data Grows (n : ℕ) (k : KernelHeap) (words : List ℕ) (result : Result KernelHeap) : Type 0 where
  grown :
      (t : KernelHeap) (out : List ℕ)
      → result ≡ ok t
      → IsHeap t out
      → t.kheap.size ≡ k.kheap.size + n * 4096
      → ((q : ℕ)
          → heap_end k ≤ q
          → q < heap_end k + n
          → (frame : ℕ) × (walk t.memory q ≡ some frame)
            × (taken words frame ≡ false)
            × (taken out frame ≡ true))
      → ((p q : ℕ)
          → heap_end k ≤ p
          → p < q
          → q < heap_end k + n
          → walk t.memory p ≢ walk t.memory q)
      → ((q : ℕ)
          → q < 0xffc00
          → q < heap_end k
          → moves_with_table k q ≡ false
          → walk t.memory q ≡ walk k.memory q)
      → ((j : ℕ) → taken words j ≡ true → taken out j ≡ true)
      → Grows n k words result
  no_memory :
      result ≡ panicked "out of memory"
      → (pages : List ℕ) → length pages < n + missing k
      → ((j : ℕ)
          → j < k.memory.frames.page_bitmap.word_count * 32
          → (taken words j ≡ true) ⊎ (listed pages j ≡ true))
      → Grows n k words result

listed-append : (l l' : List ℕ) (j : ℕ) → listed (l ++ l') j ≡ (listed l j || listed l' j)
listed-append [] l' j = refl
listed-append (p ∷ l) l' j = elim (Bool-cases (p == j)) [
  | inl e ↦ rw e refl
  | inr e ↦ rw e (listed-append l l' j)
]

module _ (k : KernelHeap) (words : List ℕ) (heap : IsHeap k words)
    (room : k.kheap.size + 4096 ≤ kheap_max_size) where
  combine :
      (n : ℕ) (s : Stepped k words heap room n)
      → Grows n s.next s.out (alloc_pages n s.next)
      → Grows (suc n) k words (alloc_pages (suc n) k)
  combine n s (no_memory e pages short all) =
      no_memory (s.goes ∙ e) ((s.frame ∷ s.table_page) ++ pages) enough (λ j lt.
        elim (all j (omega (arith, lt, s.count))) [
          | inr e ↦ inr (listed-append (s.frame ∷ s.table_page) pages j ∙ rw e (or_true _))
          | inl used ↦ elim (s.by j used) [
            | inl e ↦ inl e
            | inr e ↦ inr (listed-append (s.frame ∷ s.table_page) pages j ∙ rw e refl)
          ]
        ])
    where
      or_true : (b : Bool) → (b || true) ≡ true
      or_true true = refl
      or_true false = refl

      enough : length ((s.frame ∷ s.table_page) ++ pages) < suc n + missing k
      enough =
          let whole : missing s.next ≡ 0 = rw s.table refl in
          let short' : length pages < n = omega (arith, short, whole) in
          omega (arith, short', s.few, length-append s.table_page pages)
  combine n s (grown t out r h size back apart others kept) =
      grown t out (s.goes ∙ r) h (omega (arith, size, s.size)) back' apart'
        (λ q fits low away.
          others q fits (omega (arith, end, low)) (covered q) ∙ s.others q fits (omega arith) away)
        (λ j used. kept j (s.kept j used))
    where
      end : heap_end s.next ≡ heap_end k + 1
      end = omega (arith, s.size)

      covered : (q : ℕ) → moves_with_table s.next q ≡ false
      covered q = rw s.table refl

      first : walk t.memory (heap_end k) ≡ some s.frame
      first =
          others (heap_end k) (omega (arith, room)) (omega (arith, end)) (covered (heap_end k))
          ∙ s.maps

      back' :
          (q : ℕ)
          → heap_end k ≤ q
          → q < heap_end k + suc n
          → (frame : ℕ) × (walk t.memory q ≡ some frame)
            × (taken words frame ≡ false)
            × (taken out frame ≡ true)
      back' q lo hi = elim (Bool-cases (heap_end k == q)) [
        | inl e ↦ (
          s.frame,
          ap (λ (i : ℕ). walk t.memory i) (ground (arith, e)) ∙ first,
          s.was_free,
          kept s.frame s.used,
        )
        | inr e ↦ through (back q (ground (arith, end, e, lo)) (omega (arith, end, hi)))
      ]
        where
          through :
              (frame : ℕ) × (walk t.memory q ≡ some frame)
                × (taken s.out frame ≡ false)
                × (taken out frame ≡ true)
              → (frame : ℕ) × (walk t.memory q ≡ some frame)
                × (taken words frame ≡ false)
                × (taken out frame ≡ true)
          through (f, w, free, used) = (f, w, not_taken (taken words f) refl, used)
            where
              not_taken : (b : Bool) → taken words f ≡ b → b ≡ false
              not_taken true e = sym (s.kept f e) ∙ free
              not_taken false e = refl

      apart' :
          (p q : ℕ)
          → heap_end k ≤ p
          → p < q
          → q < heap_end k + suc n
          → walk t.memory p ≢ walk t.memory q
      apart' p q lo lt hi same = elim (Bool-cases (heap_end k == p)) [
        | inr e ↦ apart p q (ground (arith, end, e, lo)) lt (omega (arith, end, hi)) same
        | inl e ↦
            other (back q (ground (arith, end, e, lt)) (omega (arith, end, hi)))
              (ap (λ (i : ℕ). walk t.memory i) (ground (arith, e)) ∙ same)
      ]
        where
          other :
              (frame : ℕ) × (walk t.memory q ≡ some frame)
                × (taken s.out frame ≡ false)
                × (taken out frame ≡ true)
              → walk t.memory (heap_end k) ≡ walk t.memory q
              → ⊥
          other (f, w, free, used) e = clash (same_frame (sym first ∙ e ∙ w))
            where
              same_frame : ◌≡◌ {A = Option ℕ} (some s.frame) (some f) → s.frame ≡ f
              same_frame z = cc

              clash : s.frame ≡ f → ⊥
              clash z = different (sym s.used ∙ ap (taken s.out) z ∙ free)
                where
                  different : true ≡ false → ⊥
                  different z = cc

grow :
    (n : ℕ) (k : KernelHeap) (words : List ℕ)
    → IsHeap k words
    → k.kheap.size + n * 4096 ≤ kheap_max_size
    → Grows n k words (alloc_pages n k)
unfolding alloc_pages
grow zero k words heap room =
    grown k words refl heap (omega arith) (λ q lo hi. absurd (omega arith))
      (λ p q lo lt hi. absurd (omega arith)) (λ q fits low away. refl) (λ j used. used)
grow (suc n) k words heap room = elim (page_alloc_lem blank heap.frames) [
  | exhausted r all ↦ no_memory (rw r refl) [] (omega arith) (λ j lt. inl (all j lt))
  | allocated p g out r lt free before valid each count worries ↦
      elim (stepped k words heap (omega (arith, room)) n p g out r
        (omega (arith, lt, heap.frames.size, heap.frames.holds.enough)) free valid each count) [
          | stuck e pages short all ↦ no_memory e pages short all
          | went s ↦
              combine k words heap (omega (arith, room)) n s
                (grow n s.next s.out s.heap' (omega (arith, s.size, room)))
        ]
]

-- The outcomes of `liballoc_alloc`: the block, which is what the heap grows by, or no memory, where fewer
-- pages were free than the block and a table that is not there take.
pub data Block (n : ℕ) (k : KernelHeap) (words : List ℕ) (result : Result (ℕ × KernelHeap))
    : Type 0 where
  given :
      (t : KernelHeap)
      → result ≡ ok (kheap_start + k.kheap.size, t)
      → Grows n k words (ok t)
      → Block n k words result
  none_left :
      result ≡ panicked "out of memory"
      → (pages : List ℕ) → length pages < n + missing k
      → ((j : ℕ)
          → j < k.memory.frames.page_bitmap.word_count * 32
          → (taken words j ≡ true) ⊎ (listed pages j ≡ true))
      → Block n k words result

-- On a heap with room for them, behind whose end nothing is mapped, `liballoc_alloc` of one or more pages
-- gives the address behind the end of the heap and grows it by the pages, whether its slot of the directory
-- has a table (which then is no other slot's) or not: each page is mapped to a frame that was free and is in
-- use then, no two to the same. Where a table is made, the directory and its tables are in frames in use,
-- and the placement heap's page has a table and is not mapped. The pages below the end stay as they were,
-- but where a table is made those that have the table entry of the placement heap's page. It panics only
-- if fewer frames are free than the pages and the table take.
pub liballoc_alloc_lem :
    (n : ℕ) (k : KernelHeap) (words : List ℕ)
    → IsHeap k words
    → 0 < n
    → k.kheap.size + n * 4096 ≤ kheap_max_size
    → Block n k words (liballoc_alloc n k)
unfolding liballoc_alloc
liballoc_alloc_lem n k words heap positive room =
    rw (ne→==_false n 0 (omega arith)) (done (grow n k words heap room))
  where
    start : add32 k.kheap.base k.kheap.size ≡ kheap_start + k.kheap.size
    start = omega (arith, heap.base, room)

    done :
        Grows n k words (alloc_pages n k)
        → Block n k words (alloc_pages n k >>= λ k'. ok (add32 k.kheap.base k.kheap.size, k'))
    done (no_memory e pages short all) = none_left (rw e refl) pages short all
    done (grown t out r h size back apart others kept) =
        given t (rw (r, start) refl) (grown t out refl h size back apart others kept)
