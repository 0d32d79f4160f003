-- ===== src/Bitmap.antt =====
-- kernel/kernel/util/bitmap.c and kernel/include/kernel/util/bitmap.h: a bitmap that spans words.
-- `1 << 31` on `int` is taken as GCC makes it, the top bit alone.
pub mod Bits
pub mod Search
mod Examples
use Prim.Native.String.{String}
use treeos.Base.{
  ℕ, zero, suc, ◌+◌, ◌-◌, ◌*◌, ◌/◌, ◌%◌, ◌^◌, bit_and, bit_or, Bool, true, false, not, Option, none,
  some, List, [], ◌∷◌, Result, ok, fault, or_fault, ◌>>=◌, get_elem?, set, replicate, ◌==◌,
  if◌then◌else◌, not32, u32,
}

-- `BITS_PER_WORD`.
abbrev pub bits_per_word : ℕ
bits_per_word = 32

-- The flags of `struct bitmap`.
abbrev pub bitmap_free_struct : ℕ
bitmap_free_struct = 2 ^ 0

abbrev pub bitmap_free_nothing : ℕ
bitmap_free_nothing = 2 ^ 1

-- `struct bitmap`; `none` is the pointer `NULL`.
pub record Bitmap : Type 0 where
  pub word_count : ℕ
  pub bits : Option (List ℕ)
  pub flags : ℕ

-- `bitmap->bits[bit / BITS_PER_WORD] = f bitmap->bits[bit / BITS_PER_WORD]`.
abbrev update_word : Bitmap → ℕ → (ℕ → ℕ) → Result Bitmap
update_word bitmap bit f = do
  words ← or_fault bitmap.bits
  w ← or_fault (get_elem? words (bit / bits_per_word))
  ok (record bitmap { bits = some (set words (bit / bits_per_word) (f w)) })

unfoldable pub bitmap_set_bit : Bitmap → ℕ → Result Bitmap
bitmap_set_bit bitmap bit = update_word bitmap bit λ w. bit_or w (2 ^ (bit % bits_per_word))

unfoldable pub bitmap_clear_bit : Bitmap → ℕ → Result Bitmap
bitmap_clear_bit bitmap bit =
    update_word bitmap bit λ w. bit_and w (not32 (2 ^ (bit % bits_per_word)))

unfoldable pub bitmap_test_bit : Bitmap → ℕ → Result Bool
bitmap_test_bit bitmap bit = do
  words ← or_fault bitmap.bits
  w ← or_fault (get_elem? words (bit / bits_per_word))
  ok (not (bit_and w (2 ^ (bit % bits_per_word)) == 0))

-- The number of words for `num_bits` bits.
unfoldable pub words_for : ℕ → ℕ
words_for num_bits =
    if num_bits % bits_per_word == 0 then num_bits / bits_per_word else num_bits / bits_per_word + 1

-- `kcalloc n m` is whether the allocator has `n * m` bytes; what it gives is zeroed. A structure
-- that it does not give is written through `NULL`; words that it does not give leave `bits` null.
unfoldable pub bitmap_alloc : (kcalloc : ℕ → ℕ → Bool) → Option Bitmap → ℕ → Result Bitmap
unfolding words_for
bitmap_alloc kcalloc bitmap num_bits = do
  b ← start bitmap
  let n = words_for num_bits
  ok (record b { word_count = n; bits = if kcalloc n 4 then some (replicate n 0) else none })
  where
    start : Option Bitmap → Result Bitmap
    start (some b) = ok b
    start none =
        if kcalloc 1 12
        then ok (record { word_count = 0; bits = none; flags = bit_or 0 bitmap_free_struct })
        else fault

-- What `bitmap_free` leaves: the structure, or `none` if it was freed, or was null; the blocks
-- given to `kfree` (the words, or `NULL`, and the structure); and the warnings.
pub record Freed : Type 0 where
  pub bitmap : Option Bitmap
  pub words_freed : List (Option (List ℕ))
  pub struct_freed : Bool
  pub worries : List String

unfoldable pub bitmap_free : Option Bitmap → Freed
bitmap_free none = record {
  bitmap = none;
  words_freed = [];
  struct_freed = false;
  worries = "freeing NULL bitmap" ∷ [];
}
bitmap_free (some b) =
    if not (bit_and b.flags bitmap_free_nothing == 0)
    then record {
      bitmap = some b;
      words_freed = [];
      struct_freed = false;
      worries = "tried to free un-freeable bitmap" ∷ [];
    }
    else let worries : List String = elim b.bits [
      | none ↦ "freeing bitmap with null bits" ∷ []
      | some _ ↦ []
    ] in
      if not (bit_and b.flags bitmap_free_struct == 0)
      then record {
        bitmap = none;
        words_freed = b.bits ∷ [];
        struct_freed = true;
        worries = worries;
      }
      else record {
        bitmap = some (record { word_count = 0; bits = none; flags = 0 });
        words_freed = b.bits ∷ [];
        struct_freed = false;
        worries = worries;
      }

-- The inner loop of `bitmap_first_free`, with `left` bits to go.
pub scan_bits : ℕ → ℕ → ℕ → Option ℕ
scan_bits zero bit w = none
scan_bits (suc left) bit w =
    let rest = scan_bits left (bit + 1) w in if bit_and w (2 ^ bit) == 0 then some bit else rest

-- The outer loop, with `left` words to go. `(unsigned) -1` says that there is no free bit.
pub scan_words : ℕ → ℕ → List ℕ → Result ℕ
unfolding scan_bits
scan_words zero word words = ok (2 ^ 32 - 1)
scan_words (suc left) word words =
    let rest = scan_words left (word + 1) words in
    do
      w ← or_fault (get_elem? words word)
      if w == 2 ^ 32 - 1 then rest else elim (scan_bits bits_per_word 0 w) [
        | none ↦ rest
        | some k ↦ ok (u32 (word * bits_per_word + k))
      ]

unfoldable pub bitmap_first_free : Bitmap → Result ℕ
unfolding scan_words
bitmap_first_free bitmap = elim bitmap.bits [
  | none ↦ if bitmap.word_count == 0 then ok (2 ^ 32 - 1) else fault
  | some words ↦ scan_words bitmap.word_count 0 words
]
