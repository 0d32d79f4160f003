-- ===== src/Frames/Examples.antt =====
-- Runs of the frame allocator, and its theorems at concrete memories.
use treeos.Base.{
  ℕ, zero, suc, ◌-◌, Option, ◌*◌, ◌^◌, ◌+◌, ◌/◌, ◌<◌, ◌≡◌, refl, arith, true, false, none, some,
  List, [], ◌∷◌, ok, ◌>>=◌, replicate, if◌then◌else◌, get_elem?, ◌==◌, Result,
}
use treeos.Bitmap.Bits.{IsWords}
use treeos.Bitmap.{bitmap_set_bit, bitmap_clear_bit, bitmap_test_bit, bitmap_first_free}
use treeos.Frames.{
  pages_of, Frames, Entry, page_alloc, page_free, paging_init_bitmap, paging_init_region,
}
use treeos.Frames.Region.{IsFrames, in_range, Updates, paging_init_region_lem}
use treeos.Frames.Alloc.{Allocates, page_alloc_lem}
use treeos.Frames.Pool.{Request, alloc, free, serve_all, Implements, serve_all-Implements}

abbrev blank : Entry
blank = record { present = false; rw = false; user = false; rest = 0; address = 0 }

abbrev at_boot : Frames
at_boot = record {
  page_count = 0;
  page_bitmap = record { word_count = 0; bits = none; flags = 0 };
  worries = [];
}

abbrev zeros : List ℕ
zeros = replicate 1024 0

-- 16 MiB of memory, of which the first 4 MiB are available.
boot : Result Frames
unfolding paging_init_bitmap paging_init_region bitmap_clear_bit bitmap_set_bit
boot = do
  (bytes, f) ← paging_init_bitmap zeros (16 * 2 ^ 20) at_boot
  paging_init_region 0 (2 ^ 22) f

-- A state as `paging_init_bitmap` leaves it for 16 MiB, here with two free pages.
abbrev words : List ℕ
words = (2 ^ 32 - 1 - 2 ^ 5 - 2 ^ 9) ∷ replicate 1023 (2 ^ 32 - 1)

abbrev two_free : Frames
two_free = record {
  page_count = 4096;
  page_bitmap = record { word_count = 128; bits = some words; flags = 0 };
  worries = [];
}

replicate_below : (n v i w : ℕ) → v < 2 ^ 32 → get_elem? (replicate n v) i ≡ some w → w < 2 ^ 32
replicate_below zero v i w small h = cc
replicate_below (suc n) v zero w small h = ground arith
replicate_below (suc n) v (suc i) w small h = replicate_below n v i w small h

words-IsWords : IsWords words
words-IsWords zero w h = ground arith
words-IsWords (suc i) w h = replicate_below 1023 (2 ^ 32 - 1) i w (omega arith) h

two_free-IsFrames : IsFrames two_free words
two_free-IsFrames = record {
  holds = record { bits = refl; fit = words-IsWords; enough = omega arith };
  size = refl;
}

-- The first two answers of `page_alloc` after `f`.
abbrev two_pages : Frames → Result (Option Entry × Option Entry)
two_pages f = do (e, g) ← page_alloc (some blank) f; (d, h) ← page_alloc (some blank) g; ok (e, d)

abbrev entry_at : ℕ → Entry
entry_at p = record blank { address = p }

first_two : two_pages two_free ≡ ok (some (entry_at 5), some (entry_at 9))
unfolding page_alloc bitmap_set_bit bitmap_first_free
first_two = refl

boot_first : (boot >>= two_pages) ≡ ok (some (entry_at 1), some (entry_at 2))
unfolding boot page_alloc bitmap_set_bit bitmap_first_free
boot_first = refl

-- `two_free` after one `page_alloc`, and after two.
abbrev after : ℕ → Frames
after w = record two_free {
  page_bitmap = record {
    word_count = 128;
    bits = some (w ∷ replicate 1023 (2 ^ 32 - 1));
    flags = 0;
  };
}

abbrev one_free : Frames
one_free = after (2 ^ 32 - 1 - 2 ^ 9)

abbrev none_free : Frames
none_free = after (2 ^ 32 - 1)

one : page_alloc (some blank) two_free ≡ ok (some (entry_at 5), one_free)
unfolding page_alloc bitmap_set_bit bitmap_first_free
one = refl

two : page_alloc (some blank) one_free ≡ ok (some (entry_at 9), none_free)
unfolding page_alloc bitmap_set_bit bitmap_first_free
two = refl

three : page_alloc (some blank) none_free ≡ ok (none, none_free)
unfolding page_alloc bitmap_set_bit bitmap_first_free
three = refl

double_free :
    (page_free (some (entry_at 9)) two_free >>= λ g. ok g.worries) ≡ ok ("clearing unset bit" ∷ [])
unfolding page_free bitmap_clear_bit bitmap_test_bit
double_free = refl

page_alloc_lem_example : Allocates blank two_free words (page_alloc (some blank) two_free)
page_alloc_lem_example = page_alloc_lem blank two_free-IsFrames

zeros-IsWords : IsWords zeros
zeros-IsWords i w h = replicate_below 1024 0 i w (omega arith) h

pages_small : 0x100000 / 4096 + pages_of 0x2001 < 32768
unfolding pages_of
pages_small = omega arith

paging_init_region_lem_example :
    Updates two_free words
      (λ j t. if j == 0 then true else if in_range 256 (pages_of 0x2001) j then false else t)
      (paging_init_region 0x100000 0x2001 two_free)
paging_init_region_lem_example =
    paging_init_region_lem two_free-IsFrames 0x100000 0x2001 pages_small

-- Page 5 comes back and is given again.
abbrev requests : List Request
requests = alloc ∷ free 5 ∷ alloc ∷ alloc ∷ alloc ∷ []

serve_all-Implements_example :
    Implements
      (two_free.page_bitmap.word_count * 32)
      words
      requests
      (serve_all blank requests two_free)
serve_all-Implements_example =
    serve_all-Implements blank requests two_free words two_free-IsFrames (omega arith, tt)
