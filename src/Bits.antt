-- ===== src/Bits.antt =====
-- The bits of a word: what `&`, `|` and `~` do to each of them, at every width.
mod Step
use Step.{bit_or_step, bit_and_step}
use native.Mathlib.Nat.{pow-suc, mod-lt, div-add-mod, add-mul-mod_self_left, mod-eq_of_lt}
use native.Mathlib.Decide.{dec_lt}
use treeos.Base.{
  ℕ, zero, suc, ◌+◌, ◌-◌, ◌*◌, ◌/◌, ◌%◌, ◌^◌, ◌≤◌, ◌<◌, bit_and, bit_or, ◌≡◌, refl, arith, Bool,
  true, false, not, ◌&&◌, ◌||◌, ◌==◌, ◌≢◌, not32, ap, sym, ◌∙◌, inl, inr, Bool-cases, ==_refl,
  ==_iff, ne→==_false, eq→==, ltb, lt→ltb, le→ltb_false,
}

-- Bit `j` of `n`.
unfoldable pub bit : ℕ → ℕ → Bool
bit n zero = n % 2 == 1
bit n (suc j) = bit (n / 2) j

pub bit-bit_and : (a b j : ℕ) → bit (bit_and a b) j ≡ (bit a j && bit b j)
unfolding bit
bit-bit_and a b zero = ground (arith, bit_and_step a b)
bit-bit_and a b (suc j) =
    let half : bit_and a b / 2 ≡ bit_and (a / 2) (b / 2) = omega (arith, bit_and_step a b) in
    rw half (bit-bit_and (a / 2) (b / 2) j)

pub bit-bit_or : (a b j : ℕ) → bit (bit_or a b) j ≡ (bit a j || bit b j)
unfolding bit
bit-bit_or a b zero = ground (arith, bit_or_step a b)
bit-bit_or a b (suc j) =
    let half : bit_or a b / 2 ≡ bit_or (a / 2) (b / 2) = omega (arith, bit_or_step a b) in
    rw half (bit-bit_or (a / 2) (b / 2) j)

bit-zero : (j : ℕ) → bit 0 j ≡ false
unfolding bit
bit-zero zero = refl
bit-zero (suc j) = bit-zero j

pub bit_pow : (k j : ℕ) → bit (2 ^ k) j ≡ (k == j)
unfolding bit
bit_pow zero zero = refl
bit_pow zero (suc j) = rw (bit-zero j) (sym (ne→==_false 0 (suc j) (omega arith)))
bit_pow (suc k) zero = ground (arith, pow-suc 2 k)
bit_pow (suc k) (suc j) =
    let half : 2 ^ suc k / 2 ≡ 2 ^ k = omega (arith, pow-suc 2 k) in
    rw half (bit_pow k j ∙ ground arith)

bit_complement : (w n j : ℕ) → n < 2 ^ w → j < w → bit (2 ^ w - 1 - n) j ≡ not (bit n j)
unfolding bit
bit_complement zero n j h k = absurd (omega arith)
bit_complement (suc w) n zero h k = ground (arith, pow-suc 2 w)
bit_complement (suc w) n (suc j) h k =
    let half : (2 ^ suc w - 1 - n) / 2 ≡ 2 ^ w - 1 - n / 2 = omega (arith, pow-suc 2 w) in
    let fits : n / 2 < 2 ^ w = omega (arith, pow-suc 2 w) in
    rw half (bit_complement w (n / 2) j fits (omega arith))

bit_high : (w n j : ℕ) → n < 2 ^ w → w ≤ j → bit n j ≡ false
unfolding bit
bit_high zero n j h k = let e : n ≡ 0 = omega arith in rw e (bit-zero j)
bit_high (suc w) n zero h k = absurd (omega arith)
bit_high (suc w) n (suc j) h k = bit_high w (n / 2) j (omega (arith, pow-suc 2 w)) (omega arith)

bit_ext_below : (w a b : ℕ) → a < 2 ^ w → b < 2 ^ w → ((j : ℕ) → bit a j ≡ bit b j) → a ≡ b
unfolding bit
bit_ext_below zero a b ha hb h = omega arith
bit_ext_below (suc w) a b ha hb h = ground (
  arith,
  h 0,
  bit_ext_below w (a / 2) (b / 2) (omega (arith, pow-suc 2 w)) (omega (arith, pow-suc 2 w))
      (λ j. h (suc j)),
)

-- Words of 32 bits with the same bits are equal.
pub bit_ext : (a b : ℕ) → a < 2 ^ 32 → b < 2 ^ 32 → ((j : ℕ) → bit a j ≡ bit b j) → a ≡ b
bit_ext a b ha hb h = bit_ext_below 32 a b ha hb h

below_of_bits : (w n : ℕ) → ((j : ℕ) → w ≤ j → bit n j ≡ false) → n < 2 ^ w
unfolding bit
below_of_bits zero n h = small n n (omega arith) (λ j. h j (omega arith))
  where
    small : (k n : ℕ) → n ≤ k → ((j : ℕ) → bit n j ≡ false) → n < 2 ^ 0
    small zero n p g = omega arith
    small (suc k) n p g =
        ground (arith, g 0, small k (n / 2) (ground (arith, g 0)) (λ j. g (suc j)))
below_of_bits (suc w) n h =
    omega (arith, pow-suc 2 w, below_of_bits w (n / 2) (λ j k. h (suc j) (omega arith)))

pow-lt-32 : (k : ℕ) → k < 32 → 2 ^ k < 2 ^ 32
pow-lt-32 k h = below_of_bits 32 (2 ^ k) (λ j q. rw (bit_pow k j) (ne→==_false k j (omega arith)))

-- `n & (1 << k)` is zero exactly when bit `k` is clear.
pub test_mask : (n k : ℕ) → (bit_and n (2 ^ k) == 0) ≡ not (bit n k)
test_mask n k = elim (Bool-cases (bit n k)) [
  | inl up ↦ rw up (
      ne→==_false _ 0
        (λ e. ground (arith, ap (λ (t : ℕ). bit t k) e, masked k, up, bit-zero k, ==_refl k)))
  | inr down ↦ rw down (
      eq→== _ 0 (
        nothing (
          below_of_bits 0 _
            (λ j _. rw (bit-bit_and n (2 ^ k) j, bit_pow k j) (ground (arith, down))))))
]
  where
    masked : (j : ℕ) → bit (bit_and n (2 ^ k)) j ≡ (bit n j && (k == j))
    masked j = rw (bit-bit_and n (2 ^ k) j, bit_pow k j)

    nothing : bit_and n (2 ^ k) < 2 ^ 0 → bit_and n (2 ^ k) ≡ 0
    nothing h = omega arith

module _ (n k : ℕ) (fits : n < 2 ^ 32) (low : k < 32) where
  -- `n | (1 << k)` sets bit `k` and leaves the others.
  pub bit_set : (j : ℕ) → bit (bit_or n (2 ^ k)) j ≡ ((k == j) || bit n j)
  bit_set j = rw (bit-bit_or n (2 ^ k) j, bit_pow k j) (ground arith)

  -- `n & ~(1 << k)` clears bit `k` and leaves the others.
  pub bit_clear : (j : ℕ) → bit (bit_and n (not32 (2 ^ k))) j ≡ (not (k == j) && bit n j)
  bit_clear j = elim (dec_lt j 32) [
    | yes p ↦
        rw
          (
            bit-bit_and n (not32 (2 ^ k)) j,
            bit_complement 32 (2 ^ k) j (pow-lt-32 k low) p,
            bit_pow k j,
          )
          (ground arith)
    | no p ↦ rw (bit-bit_and n (not32 (2 ^ k)) j, bit_high 32 n j fits (omega arith)) (ground arith)
  ]

-- Neither leaves a width that holds the word and the bit.
module _ (w n k : ℕ) (wide : w ≤ 32) (fits : n < 2 ^ w) (low : k < w) where
  pub bit_set-lt : bit_or n (2 ^ k) < 2 ^ w
  bit_set-lt =
      below_of_bits w _
        (λ j q. rw (bit-bit_or n (2 ^ k) j, bit_pow k j, bit_high w n j fits q) (ground arith))

  pub bit_clear-lt : bit_and n (not32 (2 ^ k)) < 2 ^ w
  bit_clear-lt =
      below_of_bits w _ (λ j q. rw (bit-bit_and n (not32 (2 ^ k)) j, bit_high w n j fits q) refl)

module _ (n k : ℕ) (fits : n < 2 ^ 32) (low : k < 32) where
  -- Setting a clear bit and clearing it again gives the word back.
  pub clear-set : bit n k ≡ false → bit_and (bit_or n (2 ^ k)) (not32 (2 ^ k)) ≡ n
  clear-set down =
      let inside : bit_or n (2 ^ k) < 2 ^ 32 = bit_set-lt 32 n k (omega arith) fits low in
      bit_ext _ n (bit_clear-lt 32 _ k (omega arith) inside low) fits
        λ j. rw (bit_clear _ k inside low j, bit_set n k fits low j) (same j)
    where
      same : (j : ℕ) → (not (k == j) && ((k == j) || bit n j)) ≡ bit n j
      same j = elim (Bool-cases (k == j)) [
        | inl e ↦ let e' : k ≡ j = (==_iff k j).0 e in rw (e, ← e', down)
        | inr e ↦ rw e
      ]

  -- Clearing a set bit and setting it again gives the word back.
  pub set-clear : bit n k ≡ true → bit_or (bit_and n (not32 (2 ^ k))) (2 ^ k) ≡ n
  set-clear up =
      let inside : bit_and n (not32 (2 ^ k)) < 2 ^ 32 =
        bit_clear-lt 32 n k (omega arith) fits low in
      bit_ext _ n (bit_set-lt 32 _ k (omega arith) inside low) fits
        λ j. rw (bit_set _ k inside low j, bit_clear n k fits low j) (same j)
    where
      same : (j : ℕ) → ((k == j) || (not (k == j) && bit n j)) ≡ bit n j
      same j = elim (Bool-cases (k == j)) [
        | inl e ↦ let e' : k ≡ j = (==_iff k j).0 e in rw (e, ← e', up)
        | inr e ↦ rw e
      ]

pow_pos : (w : ℕ) → 0 < 2 ^ w
pow_pos zero = omega arith
pow_pos (suc w) = omega (arith, pow-suc 2 w, pow_pos w)

ones_below : (w j : ℕ) → j < w → bit (2 ^ w - 1) j ≡ true
ones_below w j h =
    let e : 2 ^ w - 1 ≡ 2 ^ w - 1 - 0 = omega arith in
    rw (e, bit_complement w 0 j (pow_pos w) h, bit-zero j) refl

-- All 32 bits of the word `0xffffffff` are set.
pub bit_ones : (j : ℕ) → j < 32 → bit (2 ^ 32 - 1) j ≡ true
bit_ones = ones_below 32

mod_double : (x p : ℕ) → 0 < p → x % (p * 2) ≡ x / 2 % p * 2 + x % 2
mod_double x p h =
    let low : x / 2 % p < p = mod-lt (x / 2) h in
    let e : x ≡ x / 2 % p * 2 + x % 2 + p * 2 * (x / 2 / p) =
      omega (arith, div-add-mod (x / 2) p) in
    ap (λ (t : ℕ). t % (p * 2)) e
    ∙ add-mul-mod_self_left (x / 2 % p * 2 + x % 2) (p * 2) (x / 2 / p)
    ∙ mod-eq_of_lt (omega arith)

-- `x & (2 ^ w - 1)` is the remainder by `2 ^ w`.
pub bit_and_low : (w x : ℕ) → bit_and x (2 ^ w - 1) ≡ x % 2 ^ w
bit_and_low zero x =
    below_one
      (below_of_bits 0 (bit_and x 0) (λ j _. rw (bit-bit_and x 0 j, bit-zero j) (ground arith)))
  where
    below_one : bit_and x 0 < 2 ^ 0 → bit_and x 0 ≡ x % 1
    below_one h = omega arith
bit_and_low (suc w) x =
    let half : (2 ^ suc w - 1) / 2 ≡ 2 ^ w - 1 = omega (arith, pow-suc 2 w, pow_pos w) in
    let odd : (2 ^ suc w - 1) % 2 ≡ 1 = omega (arith, pow-suc 2 w, pow_pos w) in
    bit_and_step x (2 ^ suc w - 1)
    ∙ rw (half, odd, bit_and_low w (x / 2), pow-suc 2 w, mod_double x (2 ^ w) (pow_pos w))
        (omega arith)

module _ (w : ℕ) (h : w ≤ 32) where
  low_ones-lt : 2 ^ w - 1 < 2 ^ 32
  low_ones-lt =
      below_of_bits 32 (2 ^ w - 1)
        λ j q. bit_high w (2 ^ w - 1) j (omega (arith, pow_pos w)) (omega arith)

  bit_high_ones : (j : ℕ) → j < 32 → bit (not32 (2 ^ w - 1)) j ≡ not (ltb j w)
  bit_high_ones j q = elim (dec_lt j w) [
    | yes p ↦
        rw (bit_complement 32 (2 ^ w - 1) j low_ones-lt q, ones_below w j p, lt→ltb j w p) refl
    | no p ↦
        rw
          (
            bit_complement 32 (2 ^ w - 1) j low_ones-lt q,
            bit_high w (2 ^ w - 1) j (omega (arith, pow_pos w)) (omega arith),
            le→ltb_false j w (omega arith),
          )
          refl
  ]

  masked-bit :
      (x : ℕ)
      → x < 2 ^ 32
      → (j : ℕ) → bit (bit_and x (not32 (2 ^ w - 1))) j ≡ (bit x j && not (ltb j w))
  masked-bit x fits j = elim (dec_lt j 32) [
    | yes q ↦ rw (bit-bit_and x (not32 (2 ^ w - 1)) j, bit_high_ones j q) refl
    | no q ↦ rw (bit-bit_and x (not32 (2 ^ w - 1)) j, bit_high 32 x j fits (omega arith)) refl
  ]

  -- `x & ~(2 ^ w - 1)` is zero exactly when `x` fits `w` bits.
  pub high_mask : (x : ℕ) → x < 2 ^ 32 → (bit_and x (not32 (2 ^ w - 1)) == 0) ≡ ltb x (2 ^ w)
  high_mask x fits = elim (dec_lt x (2 ^ w)) [
    | yes p ↦
        rw (lt→ltb x (2 ^ w) p)
          (eq→== _ 0 (nothing (below_of_bits 0 _ λ j _. rw (masked-bit x fits j) (clear p j))))
    | no p ↦
        rw (le→ltb_false x (2 ^ w) (omega arith))
          (ne→==_false _ 0 λ e. p (below_of_bits w x λ j q. high e j q))
  ]
    where
      nothing : bit_and x (not32 (2 ^ w - 1)) < 2 ^ 0 → bit_and x (not32 (2 ^ w - 1)) ≡ 0
      nothing h = omega arith

      clear : x < 2 ^ w → (j : ℕ) → (bit x j && not (ltb j w)) ≡ false
      clear p j = ground (arith, bit_high w x j p)

      high : bit_and x (not32 (2 ^ w - 1)) ≡ 0 → (j : ℕ) → w ≤ j → bit x j ≡ false
      high e j q = ground (arith, masked-bit x fits j, ap (λ (t : ℕ). bit t j) e, bit-zero j)

-- A test of every number below `n`, for facts about small words that evaluation settles.
unfoldable pub each_below : ℕ → (ℕ → Bool) → Bool
each_below zero p = true
each_below (suc n) p = p n && each_below n p

pub each_below_sound : (n : ℕ) (p : ℕ → Bool) (x : ℕ) → each_below n p ≡ true → x < n → p x ≡ true
unfolding each_below
each_below_sound zero p x h lt = absurd (omega arith)
each_below_sound (suc n) p x h lt = ground (arith, each_below_sound n p x)
