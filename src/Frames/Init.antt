-- ===== src/Frames/Init.antt =====
-- What `paging_init_bitmap` leaves: the `memset` reaches 1024 bytes, which is 256 of the 1024 words.
use treeos.Base.{
  ℕ, zero, suc, ◌-◌, ◌*◌, ◌/◌, ◌%◌, ◌^◌, ◌≤◌, ◌<◌, ◌≡◌, refl, arith, true, some, List, [], ◌∷◌,
  Result, ok, panicked, length, get_elem?, ltb, if◌then◌else◌, ap, ◌∙◌, ◌&&◌, lt→ltb, le→ltb_false,
}
use native.Mathlib.Decide.{dec_lt}
use treeos.Bits.{bit_ones}
use treeos.Bitmap.{words_for}
use treeos.Bitmap.Bits.{taken, IsWords}
use treeos.Frames.{Frames, fill_ones, pages_of, paging_init_bitmap, bitmap_array_size}
use treeos.Frames.Region.{IsFrames}

length-fill_ones : (n : ℕ) (words : List ℕ) → length (fill_ones n words) ≡ length words
unfolding fill_ones
length-fill_ones zero words = refl
length-fill_ones (suc n) [] = refl
length-fill_ones (suc n) (w ∷ words) = ap suc (length-fill_ones n words)

get_elem?-fill_ones :
    (n : ℕ) (words : List ℕ) (i : ℕ)
    → get_elem? (fill_ones n words) i
      ≡ (if ltb i n && ltb i (length words) then some (2 ^ 32 - 1) else get_elem? words i)
unfolding fill_ones
get_elem?-fill_ones zero words i = ground arith
get_elem?-fill_ones (suc n) [] i = ground arith
get_elem?-fill_ones (suc n) (w ∷ words) zero = ground arith
get_elem?-fill_ones (suc n) (w ∷ words) (suc i) = ground (arith, get_elem?-fill_ones n words i)

-- The outcomes of `paging_init_bitmap`: a bitmap in which the first 8192 pages are in use and the
-- others are as the array had them; or a panic, if the words for the memory do not fit the array.
pub data Initialises (array : List ℕ) (mem_size : ℕ) (f : Frames)
    : Result (ℕ × Frames) → Type 0 where
  initialised :
      {result : Result (ℕ × Frames)} (g : Frames) (out : List ℕ)
      → words_for (pages_of mem_size) < bitmap_array_size
      → result ≡ ok (words_for (pages_of mem_size) * 4, g)
      → IsFrames g out
      → g.page_bitmap.word_count ≡ words_for (pages_of mem_size)
      → ((j : ℕ) → taken out j ≡ (if ltb j 8192 then true else taken array j))
      → Initialises array mem_size f result
  too_large :
      {result : Result (ℕ × Frames)}
      → bitmap_array_size ≤ words_for (pages_of mem_size)
      → result ≡ panicked "KASSERT failed: page_bitmap.word_count < BITMAP_ARRAY_SIZE"
      → Initialises array mem_size f result

module _ (array : List ℕ) (size : length array ≡ bitmap_array_size) where
  fill_fits : IsWords array → IsWords (fill_ones 256 array)
  fill_fits fit i w h = ground (arith, get_elem?-fill_ones 256 array i, fit i w)

  fill_taken :
      (j : ℕ) → taken (fill_ones 256 array) j ≡ (if ltb j 8192 then true else taken array j)
  fill_taken j = ground (arith, get_elem?-fill_ones 256 array (j / 32), bit_ones (j % 32))

  -- `paging_init_bitmap` marks the first 8192 pages as in use and leaves the others as the array had
  -- them, and it panics when the memory needs 1024 words or more.
  pub paging_init_bitmap_lem :
      (mem_size : ℕ) (f : Frames)
      → IsWords array
      → Initialises array mem_size f (paging_init_bitmap array mem_size f)
  unfolding paging_init_bitmap
  paging_init_bitmap_lem mem_size f fit = elim (dec_lt (words_for (pages_of mem_size)) 1024) [
    | yes p ↦
        initialised
          (record f {
            page_count = pages_of mem_size;
            page_bitmap = record {
              word_count = words_for (pages_of mem_size);
              bits = some (fill_ones 256 array);
              flags = 0;
            };
          })
          (fill_ones 256 array) p (rw (lt→ltb _ _ p))
          (record {
            holds = record {
              bits = refl;
              fit = fill_fits fit;
              enough = omega (arith, length-fill_ones 256 array);
            };
            size = length-fill_ones 256 array ∙ size;
          })
          refl fill_taken
    | no p ↦
        let large : 1024 ≤ words_for (pages_of mem_size) = omega arith in
        too_large large (rw (le→ltb_false _ _ large))
  ]
