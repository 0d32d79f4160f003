-- ===== src/KernelHeap.antt =====
-- kernel/kernel/vmm/heap.c, kernel/kernel/vmm/kernel_heap.c and kernel/include/kernel/vmm/heap.h: the
-- kernel heap, which liballoc grows and shrinks by these functions.
pub mod Step
pub mod Grow
mod Examples
use Prim.Native.String.{String}
use treeos.Base.{
  ℕ, zero, suc, ◌+◌, ◌*◌, ◌/◌, ◌%◌, ◌^◌, ◌-◌, Bool, true, false, not, ◌||◌, Option, none, some,
  List, [], ◌∷◌, ◌++◌, Result, ok, panicked, kassert, panic_if, ◌>>=◌, ◌>>◌, ◌==◌, if◌then◌else◌,
  ltb, add32,
}
use treeos.Frames.{page_alloc, page_free, page_size}
use treeos.Paging.{Memory, blank, is_page_aligned, page_map, page_unmap, virt_to_phys}

abbrev pub kheap_start : ℕ
kheap_start = 0xd0000000

abbrev pub kheap_max_size : ℕ
kheap_max_size = 0x100000

-- `struct heap`.
pub record Heap : Type 0 where
  pub base : ℕ
  pub size : ℕ
  pub flags : ℕ

-- The static variables of kernel_heap.c, the interrupt flag of the processor, the memory and the
-- warnings.
pub record KernelHeap : Type 0 where
  pub kheap : Heap
  pub enable_int : Bool
  pub int_enabled : Bool
  pub memory : Memory
  pub worries : List String

-- `if (!heap) heap = kcalloc (1, sizeof (struct heap));`
abbrev pub heap_or_new : Option Heap → Option Heap → Option Heap
heap_or_new none kcalloc = kcalloc
heap_or_new (some heap) kcalloc = some heap

-- `none` is a null pointer, and what `kcalloc` gives.
unfoldable pub heap_alloc : (kcalloc : Option Heap) → Option Heap → (base size : ℕ) → Result Heap
heap_alloc kcalloc heap base size = do
  kassert (not (base == 0)) "KASSERT failed: base"
  panic_if (not (base % page_size == 0) || not (size % page_size == 0))
      "heap %p not page-aligned: base=%u, size=%u"
  elim (heap_or_new heap kcalloc) [
    | none ↦ panicked "KASSERT failed: heap"
    | some h ↦ ok (record h { base = base; size = size })
  ]

unfoldable pub heap_grow : {A : Type 0} → Option Heap → (pages : ℕ) → Result A
heap_grow heap pages = panicked "THIS FUNCTION IS UNIMPLEMENTED AND SHOULD NOT BE USED"

unfoldable pub heap_shrink : {A : Type 0} → Option Heap → (ptr pages : ℕ) → Result A
heap_shrink heap ptr pages = panicked "THIS FUNCTION IS UNIMPLEMENTED AND SHOULD NOT BE USED"

unfoldable pub kernel_heap_init : KernelHeap → Result KernelHeap
kernel_heap_init k = do
  heap ← heap_alloc none (some k.kheap) kheap_start 0
  ok (record k { kheap = heap })

unfoldable pub liballoc_lock : KernelHeap → Result (ℕ × KernelHeap)
liballoc_lock k =
    if k.int_enabled
    then ok (0, record k { enable_int = true; int_enabled = false })
    else ok (0, record k { enable_int = false })

unfoldable pub liballoc_unlock : KernelHeap → Result (ℕ × KernelHeap)
liballoc_unlock k =
    if k.enable_int
    then (kassert (not k.int_enabled) "KASSERT failed: !int_enabled()"
        >> ok (0, record k { int_enabled = true }))
    else ok (0, k)

-- The loop of `liballoc_alloc`.
unfoldable pub alloc_pages : ℕ → KernelHeap → Result KernelHeap
alloc_pages zero k = ok k
alloc_pages (suc pages) k = do
  (got, frames) ← page_alloc (some blank) k.memory.frames
  pte ← elim got [ none ↦ panicked "out of memory" | some e ↦ ok e ]
  let vaddr = add32 k.kheap.base k.kheap.size
  m ← page_map (pte.address * page_size) vaddr true false (record k.memory { frames = frames })
  let size = add32 k.kheap.size page_size
  panic_if (ltb kheap_max_size size) "maximum kernel heap size exceeded"
  alloc_pages pages (record k { kheap = record k.kheap { size = size }; memory = m })

unfoldable pub liballoc_alloc : ℕ → KernelHeap → Result (ℕ × KernelHeap)
liballoc_alloc pages k =
    if pages == 0
    then ok (0, record k { worries = k.worries ++ "allocating zero pages" ∷ [] })
    else (alloc_pages pages k >>= λ k'. ok (add32 k.kheap.base k.kheap.size, k'))

-- The loop of `liballoc_free`, from the last page of the block to the first.
unfoldable pub free_pages : (pages base : ℕ) → Memory → Result Memory
free_pages zero base m = ok m
free_pages (suc pages) base m = do
  let vaddr = add32 base (pages * page_size)
  paddr ← virt_to_phys vaddr m
  m ← page_unmap vaddr m
  frames ← page_free (some (record blank { address = paddr / 2 ^ 12 })) m.frames
  free_pages pages base (record m { frames = frames })

unfoldable pub liballoc_free : (block pages : ℕ) → KernelHeap → Result (ℕ × KernelHeap)
liballoc_free block pages k = do
  kassert (not (block == 0)) "KASSERT failed: block"
  kassert (is_page_aligned block) "KASSERT failed: IS_PAGE_ALIGNED(block)"
  if pages == 0
      then ok (2 ^ 32 - 1, record k { worries = k.worries ++ "freeing zero pages" ∷ [] })
      else do
        panic_if (ltb (add32 k.kheap.base k.kheap.size) block)
            "freeing block outside range of kernel heap"
        m ← free_pages pages block k.memory
        ok (0, record k { memory = m })
