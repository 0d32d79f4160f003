-- ===== src/Format/Number.antt =====
-- Reading a number back from the digits that were written.
use treeos.Base.{
  ℕ, zero, suc, ◌+◌, ◌-◌, ◌*◌, ◌/◌, ◌%◌, ◌^◌, ◌≤◌, ◌<◌, ◌≡◌, ◌≢◌, refl, arith, Bool, true, false,
  none, some, List, [], ◌∷◌, ◌==◌, if◌then◌else◌, ltb, leb, ◌∙◌, sym, ap, subst, length, get_elem?,
  inl, inr, Bool-cases, ==_false→ne,
}
use native.Mathlib.Nat.{div-add-mod', mod-lt}
use treeos.Format.{low_digits, in_order, ultoa, ultox, ltoa, hex_char}
use treeos.Format.Swap.{in_order_lem, in_order-length}

-- The number without its `k` lowest digits.
shifted : (base k : ℕ) → ℕ → ℕ
shifted base zero v = v
shifted base (suc k) v = shifted base k (v / base)

shifted-suc : (base k v : ℕ) → shifted base (suc k) v ≡ shifted base k v / base
unfolding shifted
shifted-suc base zero v = refl
shifted-suc base (suc k) v = shifted-suc base k (v / base)

-- The number that the first `k` digits of `s` stand for, read from left to right.
abbrev pub read : (base : ℕ) (digit_of : ℕ → ℕ) → List ℕ → ℕ → ℕ
read base digit_of s zero = 0
read base digit_of s (suc k) =
    read base digit_of s k * base + elim (get_elem? s k) [ none ↦ 0 | some c ↦ digit_of c ]

-- `s` is the numeral of `v`: at least one digit and at most `most`, that read as `v`, and no zero
-- before other digits.
pub record Numeral (base : ℕ) (digit_of : ℕ → ℕ) (most v : ℕ) (s : List ℕ) : Type 0 where
  pub some_digit : 1 ≤ length s
  pub size : length s ≤ most
  pub reads : read base digit_of s (length s) ≡ v
  pub no_zero : 1 < length s → read base digit_of s 1 ≢ 0

module _ (base : ℕ) (char : ℕ → ℕ) where
  digit_at :
      (fuel v k : ℕ)
      → k < length (low_digits fuel base char v)
      → get_elem? (low_digits fuel base char v) k ≡ some (char (shifted base k v % base))
  unfolding low_digits shifted
  digit_at zero v k h = absurd (omega arith)
  digit_at (suc fuel) v zero h = refl
  digit_at (suc fuel) v (suc k) h = elim (Bool-cases (v / base == 0)) [
    | inl t ↦ absurd (none_left t (omega arith))
    | inr f ↦ rw f (digit_at fuel (v / base) k (inside f (omega arith)))
  ]
    where
      nothing : k < 0 → ⊥
      nothing h = omega arith

      none_left :
          (v / base == 0) ≡ true
          → k < length (if v / base == 0 then [] else low_digits fuel base char (v / base))
          → ⊥
      none_left t h = nothing (
          subst (λ (b : Bool). k < length (if b then [] else low_digits fuel base char (v / base)))
            t h)

      inside :
          (v / base == 0) ≡ false
          → k < length (if v / base == 0 then [] else low_digits fuel base char (v / base))
          → k < length (low_digits fuel base char (v / base))
      inside f h =
          subst (λ (b : Bool). k < length (if b then [] else low_digits fuel base char (v / base)))
            f h

  -- Where the fuel is enough, the loop ends with no digit left, after the highest one.
  exhausts :
      (fuel v : ℕ)
      → shifted base fuel v ≡ 0
      → 0 < fuel
      → shifted base (length (low_digits fuel base char v)) v ≡ 0
  unfolding low_digits shifted
  exhausts zero v e h = absurd (omega arith)
  exhausts (suc zero) v e h = elim (Bool-cases (v / base == 0)) [ inl t ↦ rw t e | inr f ↦ rw f e ]
  exhausts (suc (suc fuel)) v e h = elim (Bool-cases (v / base == 0)) [
    | inl t ↦ rw t (is_zero t)
    | inr f ↦ rw f (exhausts (suc fuel) (v / base) e (omega arith))
  ]
    where
      is_zero : (v / base == 0) ≡ true → v / base ≡ 0
      is_zero t = ground arith

  highest :
      (fuel v k : ℕ)
      → suc (suc k) ≡ length (low_digits fuel base char v)
      → shifted base (suc k) v ≢ 0
  unfolding low_digits shifted
  highest zero v k e z = cc
  highest (suc fuel) v k e z = elim (Bool-cases (v / base == 0)) [
    | inl t ↦ ends (
        subst
          (λ (b : Bool).
            suc (suc k) ≡ suc (length (if b then [] else low_digits fuel base char (v / base))))
          t e)
    | inr f ↦
        goes_on (λ j h z. highest fuel (v / base) j h z) k
          (subst
            (λ (b : Bool).
              suc (suc k) ≡ suc (length (if b then [] else low_digits fuel base char (v / base))))
            f e)
          z f
  ]
    where
      ends : suc (suc k) ≡ 1 → ⊥
      ends h = omega arith

      goes_on :
          ((j : ℕ)
            → suc (suc j) ≡ length (low_digits fuel base char (v / base))
            → shifted base (suc j) (v / base) ≡ 0
            → ⊥)
          → (k : ℕ) → suc (suc k) ≡ suc (length (low_digits fuel base char (v / base)))
          → shifted base (suc k) v ≡ 0
          → (v / base == 0) ≡ false
          → ⊥
      goes_on higher zero h z f = ==_false→ne (v / base) 0 f z
      goes_on higher (suc k) h z f = higher k (omega arith) z

  at_most : (fuel v : ℕ) → length (low_digits fuel base char v) ≤ fuel
  unfolding low_digits
  at_most zero v = omega arith
  at_most (suc fuel) v = elim (Bool-cases (v / base == 0)) [
    | inl t ↦ rw t (omega arith)
    | inr f ↦ rw f (omega (arith, at_most fuel (v / base)))
  ]

  at_least : (fuel v : ℕ) → 0 < fuel → 1 ≤ length (low_digits fuel base char v)
  unfolding low_digits
  at_least zero v h = absurd (omega arith)
  at_least (suc fuel) v h = omega arith

  module _ (digit_of : ℕ → ℕ) (inverse : (d : ℕ) → d < base → digit_of (char d) ≡ d)
      (positive : 0 < base) (fuel v : ℕ) (enough : shifted base fuel v ≡ 0)
      (some_fuel : 0 < fuel) where
    abbrev ds : List ℕ
    ds = low_digits fuel base char v

    read-shifted :
        (k : ℕ)
        → k ≤ length ds
        → read base digit_of (in_order ds) k ≡ shifted base (length ds - k) v
    read-shifted zero h =
        sym (exhausts fuel v enough some_fuel) ∙ ap (λ (n : ℕ). shifted base n v) (omega arith)
    read-shifted (suc k) h =
        rw
          (
            in_order_lem ds k (omega arith),
            digit_at fuel v (length ds - 1 - k) (omega arith),
            inverse (shifted base (length ds - 1 - k) v % base)
                (mod-lt (shifted base (length ds - 1 - k) v) positive),
            read-shifted k (omega arith),
          )
          (next (length ds - k) (length ds - 1 - k) (length ds - suc k) (omega arith) (omega arith))
      where
        next :
            (a b c : ℕ)
            → a ≡ suc b
            → b ≡ c
            → shifted base a v * base + shifted base b v % base ≡ shifted base c v
        next a b c p q = rw (p, sym q, shifted-suc base b v) (div-add-mod' (shifted base b v) base)

    numeral : Numeral base digit_of fuel v (in_order ds)
    numeral = record {
      some_digit = omega (arith, in_order-length ds, at_least fuel v some_fuel);
      size = omega (arith, in_order-length ds, at_most fuel v);
      reads =
          ap (read base digit_of (in_order ds)) (in_order-length ds)
          ∙ read-shifted (length ds) (omega arith)
          ∙ all (length ds - length ds) (omega arith);
      no_zero = λ h z. highest fuel v (length ds - 2) (omega (arith, in_order-length ds, h)) (
          ap (λ (n : ℕ). shifted base n v) (omega (arith, in_order-length ds, h))
          ∙ sym (read-shifted 1 (at_least fuel v some_fuel))
          ∙ z);
    }
      where
        all : (n : ℕ) → n ≡ 0 → shifted base n v ≡ v
        all n e = ap (λ (k : ℕ). shifted base k v) e ∙ unfold shifted in refl

-- A decimal digit, and a hexadecimal one.
abbrev pub dec_digit : ℕ → ℕ
dec_digit c = c - 48

abbrev pub hex_digit : ℕ → ℕ
hex_digit c = if ltb c 65 then c - 48 else c - 55

ten : (value : ℕ) → value < 2 ^ 32 → shifted 10 10 value ≡ 0
unfolding shifted
ten value h = omega arith

eight : (value : ℕ) → value < 2 ^ 32 → shifted 16 8 value ≡ 0
unfolding shifted
eight value h = omega arith

pub ultoa_lem : (value : ℕ) → value < 2 ^ 32 → Numeral 10 dec_digit 10 value (ultoa value)
unfolding ultoa
ultoa_lem value h =
    numeral 10 (λ d. d + 48) dec_digit (λ d p. omega arith) (omega arith) 10 value (ten value h)
      (omega arith)

-- `ultox` writes `0x` and the hexadecimal numeral of every word, of at most eight digits.
pub ultox_lem :
    (value : ℕ)
    → value < 2 ^ 32
    → (s : List ℕ) × (ultox value ≡ 48 ∷ 120 ∷ s) × Numeral 16 hex_digit 8 value s
unfolding ultox
ultox_lem value h = (
  in_order (low_digits 8 16 hex_char value),
  refl,
  numeral 16 hex_char hex_digit (λ d p. ground arith) (omega arith) 8 value (eight value h)
      (omega arith),
)

-- The outcomes of `ltoa`: the numeral of the number, behind a sign if it is negative.
pub data Signed (value : ℕ) : List ℕ → Type 0 where
  positive : {s : List ℕ} → value < 2 ^ 31 → Numeral 10 dec_digit 10 value s → Signed value s
  negative :
      {s : List ℕ}
      → 2 ^ 31 ≤ value
      → Numeral 10 dec_digit 10 (2 ^ 32 - value) s
      → Signed value (45 ∷ s)

-- `ltoa` writes the decimal numeral of a number that is not negative, and a minus with the numeral of
-- its absolute value for one that is, the least `int32_t` included.
pub ltoa_lem : (value : ℕ) → value < 2 ^ 32 → Signed value (ltoa value)
unfolding ltoa
ltoa_lem value h = elim (Bool-cases (leb (2 ^ 31) value)) [
  | inl t ↦ rw t (negative (ground (arith, t)) (ultoa_lem (2 ^ 32 - value) (ground (arith, t))))
  | inr f ↦ rw f (positive (ground (arith, f)) (ultoa_lem value h))
]
