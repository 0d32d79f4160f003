-- ===== src/Bitmap/Bits.antt =====
-- The bitmap as a set of numbers, and what the three macros do to it.
use treeos.Base.{
  ℕ, ◌*◌, ◌/◌, ◌%◌, ◌^◌, ◌≤◌, ◌<◌, ◌≡◌, arith, Bool, true, false, ◌&&◌, none, some, List, Result,
  ok, if◌then◌else◌, refl, length, get_elem?, set, length-set, get_elem?-set_self, get_elem?-set_ne,
  get_elem?_in_range, lt_of_get_elem?, ◌==◌,
}
use treeos.Bits.{bit, test_mask, bit_set, bit_clear, bit_set-lt, bit_clear-lt}
use treeos.Bitmap.{Bitmap, update_word, bitmap_set_bit, bitmap_clear_bit, bitmap_test_bit}

-- Bit `i` of the words; a bit past their end is clear.
abbrev pub taken : List ℕ → ℕ → Bool
taken words i = elim (get_elem? words (i / 32)) [ none ↦ false | some w ↦ bit w (i % 32) ]

abbrev pub IsWords : List ℕ → Type 0
IsWords words = (i : ℕ) (w : ℕ) → get_elem? words i ≡ some w → w < 2 ^ 32

-- The bitmap's words are `words`, and they are words.
pub record Holds (b : Bitmap) (words : List ℕ) : Type 0 where
  pub bits : b.bits ≡ some words
  pub fit : IsWords words
  pub enough : b.word_count ≤ length words

IsWords-set :
    (words : List ℕ) (i v : ℕ)
    → IsWords words
    → i < length words
    → v < 2 ^ 32
    → IsWords (set words i v)
IsWords-set words i v fit inside small j w h =
    ground (arith, fit j w, get_elem?-set_self words i v inside, get_elem?-set_ne words i j v)

-- What an update of the words of `b` does to each bit: the new words, and bit `j` of them is
-- `change j` of what it was. The rest of the structure stays.
pub record Changes (b : Bitmap) (words : List ℕ) (change : ℕ → Bool → Bool) (result : Result Bitmap)
    : Type 0 where
  pub out : List ℕ
  pub returns : result ≡ ok (record b { bits = some out })
  pub fit : IsWords out
  pub same_length : length out ≡ length words
  pub each : (j : ℕ) → taken out j ≡ change j (taken words j)

split_index : (i j : ℕ) → (i == j) ≡ ((i / 32 == j / 32) && (i % 32 == j % 32))
split_index i j = ground arith

taken-set :
    (words : List ℕ) (i w u : ℕ) (v : Bool)
    → get_elem? words (i / 32) ≡ some w
    → ((j : ℕ) → bit u j ≡ (if i % 32 == j then v else bit w j))
    → (j : ℕ) → taken (set words (i / 32) u) j ≡ (if i == j then v else taken words j)
taken-set words i w u v old acts j = ground (
  arith,
  lt_of_get_elem? words (i / 32) old,
  get_elem?-set_self words (i / 32) u,
  get_elem?-set_ne words (i / 32) (j / 32) u,
  acts (j % 32),
)

module _ {b : Bitmap} {words : List ℕ} (holds : Holds b words) (i : ℕ)
    (inside : i < 32 * length words) where
  update_lem :
      (f : ℕ → ℕ) (v : Bool)
      → ((w : ℕ) → w < 2 ^ 32 → f w < 2 ^ 32)
      → ((w : ℕ) → w < 2 ^ 32 → (j : ℕ) → bit (f w) j ≡ (if i % 32 == j then v else bit w j))
      → Changes b words (λ j t. if i == j then v else t) (update_word b i f)
  update_lem f v keeps acts =
      let (w, old) = get_elem?_in_range words (i / 32) (omega arith) in
      let small : w < 2 ^ 32 = holds.fit (i / 32) w old in
      record {
        out = set words (i / 32) (f w);
        returns = rw (holds.bits, old);
        fit = IsWords-set words (i / 32) (f w) holds.fit (omega arith) (keeps w small);
        same_length = length-set words (i / 32) (f w);
        each = taken-set words i w (f w) v old (acts w small);
      }

  -- `bitmap_set_bit` sets one bit and leaves every other.
  pub set_bit_lem : Changes b words (λ j t. if i == j then true else t) (bitmap_set_bit b i)
  unfolding bitmap_set_bit
  set_bit_lem =
      update_lem _ true (λ w small. bit_set-lt 32 w (i % 32) (omega arith) small (omega arith))
        (λ w small j. rw (bit_set w (i % 32) small (omega arith) j) (ground arith))

  pub clear_bit_lem : Changes b words (λ j t. if i == j then false else t) (bitmap_clear_bit b i)
  unfolding bitmap_clear_bit
  clear_bit_lem =
      update_lem _ false (λ w small. bit_clear-lt 32 w (i % 32) (omega arith) small (omega arith))
        (λ w small j. rw (bit_clear w (i % 32) small (omega arith) j) (ground arith))

  pub test_bit_lem : bitmap_test_bit b i ≡ ok (taken words i)
  unfolding bitmap_test_bit
  test_bit_lem =
      let (w, hw) = get_elem?_in_range words (i / 32) (omega arith) in
      rw (holds.bits, hw, test_mask w (i % 32)) (ground arith)

pub Changes-Holds :
    {b : Bitmap} {words : List ℕ} {change : ℕ → Bool → Bool} {result : Result Bitmap}
    → Holds b words
    → (c : Changes b words change result) → Holds (record b { bits = some c.out }) c.out
Changes-Holds holds c = record {
  bits = refl;
  fit = c.fit;
  enough = omega (arith, c.same_length, holds.enough);
}
