-- ===== src/Frames.antt =====
-- kernel/arch/i386/pmm/paging.c, the physical half: which page frames are in use
-- (`paging_init_bitmap`, `paging_init_region`, `paging_deinit_region`, `page_alloc`, `page_free`).
pub mod Region
pub mod Alloc
pub mod Init
pub mod Pool
mod Examples
use Prim.Native.String.{String}
use treeos.Base.{
  ℕ, zero, suc, ◌+◌, ◌-◌, ◌*◌, ◌/◌, ◌%◌, ◌^◌, Bool, true, false, Option, none, some, List, [], ◌∷◌,
  ◌++◌, Result, ok, kassert, ◌>>=◌, ◌>>◌, ltb, ◌==◌, if◌then◌else◌,
}
use treeos.Bitmap.{
  Bitmap, bitmap_set_bit, bitmap_clear_bit, bitmap_test_bit, bitmap_first_free, words_for,
}

-- `PAGE_SIZE_SHIFT` and `PAGE_SIZE`.
abbrev pub page_size_shift : ℕ
page_size_shift = 12

abbrev pub page_size : ℕ
page_size = 2 ^ page_size_shift

-- `BITMAP_ARRAY_SIZE`, the number of words of `page_bitmap_bits`.
abbrev pub bitmap_array_size : ℕ
bitmap_array_size = 1024

-- An entry of a page directory or of a page table; `rest` is bits 3 to 11, `address` 20 bits.
pub record Entry : Type 0 where
  pub present : Bool
  pub rw : Bool
  pub user : Bool
  pub rest : ℕ
  pub address : ℕ

-- The file's static variables, with the warnings printed so far.
pub record Frames : Type 0 where
  pub page_count : ℕ
  pub page_bitmap : Bitmap
  pub worries : List String

-- The number of pages that `size` bytes take.
unfoldable pub pages_of : ℕ → ℕ
pages_of size = if size % page_size == 0 then size / page_size else size / page_size + 1

-- `memset (bits, 0xFF, 4 * n)`: the first `n` words become all ones.
unfoldable pub fill_ones : ℕ → List ℕ → List ℕ
fill_ones zero words = words
fill_ones (suc n) [] = []
fill_ones (suc n) (w ∷ words) = (2 ^ 32 - 1) ∷ fill_ones n words

-- `array` is what `page_bitmap_bits` holds. The `memset` writes `BITMAP_ARRAY_SIZE` bytes.
unfoldable pub paging_init_bitmap : List ℕ → ℕ → Frames → Result (ℕ × Frames)
unfolding pages_of words_for fill_ones
paging_init_bitmap array mem_size f = do
  let page_count = pages_of mem_size
  let word_count = words_for page_count
  kassert (ltb word_count bitmap_array_size)
      "KASSERT failed: page_bitmap.word_count < BITMAP_ARRAY_SIZE"
  ok (
    word_count * 4,
    record f {
      page_count = page_count;
      page_bitmap = record {
        word_count = word_count;
        bits = some (fill_ones (bitmap_array_size / 4) array);
        flags = 0;
      };
    },
  )

-- The loops of `paging_init_region` and `paging_deinit_region`: `op` is applied while
-- `(int) size_bits >= 0`, so `size_bits + 1` times.
pub region_loop : (Bitmap → ℕ → Result Bitmap) → ℕ → ℕ → Bitmap → Result Bitmap
region_loop op zero base bitmap = op bitmap base
region_loop op (suc size_bits) base bitmap = do
  b ← op bitmap base
  region_loop op size_bits (base + 1) b

unfoldable pub paging_init_region : ℕ → ℕ → Frames → Result Frames
unfolding pages_of region_loop
paging_init_region base size f = do
  b ← region_loop bitmap_clear_bit (pages_of size) (base / page_size) f.page_bitmap
  b' ← bitmap_set_bit b 0
  ok (record f { page_bitmap = b' })

unfoldable pub paging_deinit_region : ℕ → ℕ → Frames → Result Frames
unfolding pages_of region_loop
paging_deinit_region base size f = do
  b ← region_loop bitmap_set_bit (pages_of size) (base / page_size) f.page_bitmap
  ok (record f { page_bitmap = b })

-- `page` is the structure behind the pointer, `none` for `NULL`. The answer `none` is `NULL`.
unfoldable pub page_alloc : Option Entry → Frames → Result (Option Entry × Frames)
page_alloc none f = kassert false "KASSERT failed: page" >> ok (none, f)
page_alloc (some page) f = do
  bit ← bitmap_first_free f.page_bitmap
  if bit == 2 ^ 32 - 1 then ok (none, f) else do
    b ← bitmap_set_bit f.page_bitmap bit
    ok (some (record page { address = bit % 2 ^ 20 }), record f { page_bitmap = b })

unfoldable pub page_free : Option Entry → Frames → Result Frames
page_free none f = kassert false "KASSERT failed: page" >> ok f
page_free (some page) f = do
  used ← bitmap_test_bit f.page_bitmap page.address
  b ← bitmap_clear_bit f.page_bitmap page.address
  ok (record f {
    page_bitmap = b;
    worries = if used then f.worries else f.worries ++ "clearing unset bit" ∷ [];
  })
