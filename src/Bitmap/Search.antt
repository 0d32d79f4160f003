-- ===== src/Bitmap/Search.antt =====
-- `bitmap_first_free` finds the first clear bit, or says that there is none.
use treeos.Base.{
  ℕ, zero, suc, ◌+◌, ◌-◌, ◌*◌, ◌/◌, ◌%◌, ◌^◌, ◌≤◌, ◌<◌, ◌≡◌, refl, inl, inr, arith, true, false,
  Option, none, some, List, ok, length, get_elem?, get_elem?_in_range, Result, ◌==◌, Bool-cases,
  u32, ==_iff, ◌∙◌,
}
use native.Mathlib.Decide.{dec_lt}
use treeos.Bits.{bit, test_mask, bit_ones}
use treeos.Bitmap.{Bitmap, scan_bits, scan_words, bitmap_first_free}
use treeos.Bitmap.Bits.{taken, IsWords, Holds}

-- What the inner loop finds from bit `lo` on.
abbrev Scanned : ℕ → ℕ → Option ℕ → Type 0
Scanned lo w none = (j : ℕ) → lo ≤ j → j < 32 → bit w j ≡ true
Scanned lo w (some k) =
    (lo ≤ k) × (k < 32) × (bit w k ≡ false) × ((j : ℕ) → lo ≤ j → j < k → bit w j ≡ true)

scan_bits-Scanned : (left lo w : ℕ) → left + lo ≡ 32 → Scanned lo w (scan_bits left lo w)
unfolding scan_bits
scan_bits-Scanned zero lo w e = λ j p q. absurd (omega arith)
scan_bits-Scanned (suc left) lo w e = elim (Bool-cases (bit w lo)) [
  | inl up ↦
      rw (test_mask w lo, up)
        (later up (scan_bits left (lo + 1) w) (scan_bits-Scanned left (lo + 1) w (omega arith)))
  | inr down ↦
      rw (test_mask w lo, down) (omega arith, omega arith, down, λ j p q. absurd (omega arith))
]
  where
    later : bit w lo ≡ true → (r : Option ℕ) → Scanned (lo + 1) w r → Scanned lo w r
    later up none s = λ j p q. ground (arith, s j)
    later up (some k) s = (omega arith, s.1, s.2, λ j p q. ground (arith, s.3 j))

-- `r` is the first clear bit below `n`; or all are set and `r` is the answer for that.
pub data FirstFree (words : List ℕ) (n : ℕ) : ℕ → Type 0 where
  found :
      {r : ℕ}
      → r < n
      → taken words r ≡ false
      → ((j : ℕ) → j < r → taken words j ≡ true)
      → FirstFree words n r
  full : {r : ℕ} → r ≡ 2 ^ 32 - 1 → ((j : ℕ) → j < n → taken words j ≡ true) → FirstFree words n r

abbrev Finds : List ℕ → ℕ → Result ℕ → Type 0
Finds words n result = (r : ℕ) × (result ≡ ok r) × FirstFree words n r

taken_at :
    (words : List ℕ) (i w : ℕ) → get_elem? words (i / 32) ≡ some w → taken words i ≡ bit w (i % 32)
taken_at words i w e = ground arith

taken_word :
    (words : List ℕ) (word w j : ℕ)
    → get_elem? words word ≡ some w
    → j < 32
    → taken words (word * 32 + j) ≡ bit w j
taken_word words word w j e h = ground (arith, taken_at words (word * 32 + j) w)

-- All bits below `word * 32` are set, and so are the first `k` of word `word`.
taken_below :
    (words : List ℕ) (word w k : ℕ)
    → get_elem? words word ≡ some w
    → ((j : ℕ) → j < word * 32 → taken words j ≡ true)
    → k ≤ 32
    → ((j : ℕ) → j < k → bit w j ≡ true)
    → (j : ℕ) → j < word * 32 + k
    → taken words j ≡ true
taken_below words word w k e before h ones j q = elim (dec_lt j (word * 32)) [
  | yes p ↦ before j p
  | no p ↦
      let same : word * 32 + (j - word * 32) ≡ j = omega arith in
      let rest : j - word * 32 < k = omega arith in
      ground (arith, taken_word words word w (j - word * 32), ones (j - word * 32))
]

module _ (words : List ℕ) (n : ℕ) (fit : IsWords words) (enough : n ≤ length words)
    (small : n ≤ 2 ^ 27 - 1) where
  hit :
      (word w k : ℕ)
      → get_elem? words word ≡ some w
      → word < n
      → ((j : ℕ) → j < word * 32 → taken words j ≡ true)
      → Scanned 0 w (some k)
      → FirstFree words (n * 32) (u32 (word * 32 + k))
  hit word w k e lt before s =
      let same : u32 (word * 32 + k) ≡ word * 32 + k = omega arith in
      rw same (
        found (omega arith) (taken_word words word w k e s.1 ∙ s.2)
          (taken_below words word w k e before (omega arith) (λ j q. s.3 j (omega arith) q)))

  scan_words-Finds :
      (left word : ℕ)
      → left + word ≡ n
      → ((j : ℕ) → j < word * 32 → taken words j ≡ true)
      → Finds words (n * 32) (scan_words left word words)
  unfolding scan_words
  scan_words-Finds zero word e before =
      (2 ^ 32 - 1, refl, full refl (λ j q. before j (omega arith)))
  scan_words-Finds (suc left) word e before =
      let (w, at) = get_elem?_in_range words word (omega arith) in
      let go = scan_words-Finds left (word + 1) (omega arith) in
      rw at (elim (Bool-cases (w == 2 ^ 32 - 1)) [
        | inl all ↦
            let is : w ≡ 2 ^ 32 - 1 = (==_iff _ _).0 all in
            rw all (next go w at (λ j q. rw is (bit_ones j q)))
        | inr some_clear ↦
            rw some_clear
              (branch go w at (scan_bits 32 0 w) (scan_bits-Scanned 32 0 w (omega arith)))
      ])
    where
      next :
          (((j : ℕ) → j < (word + 1) * 32 → taken words j ≡ true)
            → Finds words (n * 32) (scan_words left (word + 1) words))
          → (w : ℕ) → get_elem? words word ≡ some w
          → ((j : ℕ) → j < 32 → bit w j ≡ true)
          → Finds words (n * 32) (scan_words left (word + 1) words)
      next go w at ones =
          go (λ j q. taken_below words word w 32 at before (omega arith) ones j (omega arith))

      branch :
          (((j : ℕ) → j < (word + 1) * 32 → taken words j ≡ true)
            → Finds words (n * 32) (scan_words left (word + 1) words))
          → (w : ℕ) → get_elem? words word ≡ some w
          → (r : Option ℕ) → Scanned 0 w r
          → Finds words (n * 32) (elim r [
            | none ↦ scan_words left (word + 1) words
            | some k ↦ ok (u32 (word * 32 + k))
          ])
      branch go w at none s = next go w at (λ j q. s j (omega arith) q)
      branch go w at (some k) s =
          (u32 (word * 32 + k), refl, hit word w k at (omega arith) before s)

-- With words for every bit, `bitmap_first_free` returns, and what it returns is the first bit that
-- is clear, or 0xffffffff when all are set.
pub first_free_lem :
    {b : Bitmap} {words : List ℕ}
    → Holds b words
    → b.word_count < 2 ^ 27
    → Finds words (b.word_count * 32) (bitmap_first_free b)
unfolding bitmap_first_free
first_free_lem {b} {words} holds small =
    rw (bitmap_first_free, holds.bits)
      (scan_words-Finds words b.word_count holds.fit holds.enough (omega arith) b.word_count 0
        (omega arith) (λ j q. absurd (omega arith)))
