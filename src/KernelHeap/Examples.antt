-- ===== src/KernelHeap/Examples.antt =====
-- Runs of the heap's functions, and the theorem on `liballoc_alloc` at a heap that is empty.
use treeos.Base.{ℕ, ◌/◌, ◌≡◌, refl, arith, Bool, true, false, none, [], Result, ok, ◌>>=◌}
use treeos.Bitmap.{bitmap_test_bit, bitmap_set_bit, bitmap_clear_bit, bitmap_first_free}
use treeos.Frames.{page_alloc, page_free}
use treeos.Paging.{walk, page_map, page_unmap, virt_to_phys}
use treeos.KernelHeap.{
  KernelHeap, liballoc_alloc, liballoc_free, alloc_pages, free_pages, kheap_start,
}
use treeos.Fixtures.Console.{boot_memory, boot-IsOwned, used_words}
use treeos.KernelHeap.Step.{IsHeap, no_table}
use treeos.KernelHeap.Grow.{Block, liballoc_alloc_lem}

-- The heap is empty and has no table.
abbrev empty_heap : KernelHeap
empty_heap = record {
  kheap = record { base = kheap_start; size = 0; flags = 0 };
  enable_int = false;
  int_enabled = true;
  memory = boot_memory;
  worries = [];
}

empty_heap-IsHeap : IsHeap empty_heap used_words
empty_heap-IsHeap = record {
  frames = boot-IsOwned.frames;
  rooted = boot-IsOwned.rooted;
  base = refl;
  whole = refl;
  backed = no_table refl boot-IsOwned;
  behind = λ q lo hi. unmapped q (omega arith);
}
  where
    unmapped : (q : ℕ) → q / 1024 ≡ 832 → walk empty_heap.memory q ≡ none
    unmapped q e = rw e refl

-- The pages that a block takes and gives back.
abbrev take_and_give : Result (ℕ × ℕ × Bool)
take_and_give = do
  (block, k) ← liballoc_alloc 2 empty_heap
  (status, k') ← liballoc_free block 2 k
  used ← bitmap_test_bit k'.memory.frames.page_bitmap 1024
  ok (block, status, used)

given_back : take_and_give ≡ ok (0xd0000000, 0, false)
unfolding liballoc_alloc liballoc_free alloc_pages free_pages page_map page_unmap virt_to_phys
    page_alloc page_free bitmap_test_bit bitmap_set_bit bitmap_clear_bit bitmap_first_free
given_back = refl

liballoc_alloc_lem_example : Block 3 empty_heap used_words (liballoc_alloc 3 empty_heap)
liballoc_alloc_lem_example =
    liballoc_alloc_lem 3 empty_heap used_words empty_heap-IsHeap (omega arith) (omega arith)
