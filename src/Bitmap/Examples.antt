-- ===== src/Bitmap/Examples.antt =====
-- Runs of the bitmap functions, and `first_free_lem` at a bitmap of two words.
use treeos.Base.{
  ℕ, zero, suc, ◌-◌, ◌^◌, ◌≡◌, refl, arith, true, none, some, List, [], ◌∷◌, ok, ◌>>=◌,
}
use treeos.Bitmap.{
  Bitmap, bitmap_alloc, bitmap_free, bitmap_set_bit, bitmap_clear_bit, bitmap_first_free,
}
use treeos.Bitmap.Bits.{IsWords, Holds}

abbrev words : List ℕ
words = (2 ^ 32 - 1) ∷ 7 ∷ []

abbrev two_words : Bitmap
two_words = record { word_count = 2; bits = some words; flags = 0 }

first_is_35 : bitmap_first_free two_words ≡ ok 35
unfolding bitmap_first_free
first_is_35 = refl

allocated :
    bitmap_alloc (λ n m. true) none 33
    ≡ ok (record { word_count = 2; bits = some (0 ∷ 0 ∷ []); flags = 1 })
unfolding bitmap_alloc
allocated = refl

freed_twice :
    (bitmap_free (some (record { word_count = 2; bits = none; flags = 0 }))).worries
    ≡ "freeing bitmap with null bits" ∷ []
unfolding bitmap_free
freed_twice = refl

set_and_clear :
    (bitmap_set_bit two_words 63 >>= λ b. bitmap_clear_bit b 0 >>= bitmap_first_free) ≡ ok 0
unfolding bitmap_set_bit bitmap_clear_bit bitmap_first_free
set_and_clear = refl

words-IsWords : IsWords words
words-IsWords zero w h = ground arith
words-IsWords (suc zero) w h = ground arith
words-IsWords (suc (suc i)) w h = cc

two_words-Holds : Holds two_words words
two_words-Holds = record { bits = refl; fit = words-IsWords; enough = omega arith }
