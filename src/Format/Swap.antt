-- ===== src/Format/Swap.antt =====
-- The swaps turn the digits around.
use treeos.Base.{
  ℕ, zero, suc, ◌+◌, ◌-◌, ◌*◌, ◌/◌, ◌≤◌, ◌<◌, ◌≡◌, ◌≢◌, refl, arith, Bool, true, false, ◌&&◌, ◌||◌,
  Option, none, some, List, ◌==◌, if◌then◌else◌, leb, ltb, ◌∙◌, sym, ap, subst, length, get_elem?,
  set, length-set, get_elem?-set_self, get_elem?-set_ne, get_elem?_in_range, inl, inr, Bool-cases,
}
use treeos.Format.{swap, swaps, in_order}

-- The buffer after a swap, at every place.
record Swapped (i j : ℕ) (buf out : List ℕ) : Type 0 where
  same_length : length out ≡ length buf
  first : get_elem? out i ≡ get_elem? buf j
  second : get_elem? out j ≡ get_elem? buf i
  others : (k : ℕ) → k ≢ i → k ≢ j → get_elem? out k ≡ get_elem? buf k

swap-Swapped : (i j : ℕ) (buf : List ℕ) → i < j → j < length buf → Swapped i j buf (swap i j buf)
unfolding swap
swap-Swapped i j buf h h' =
    let (a, at_i) = get_elem?_in_range buf i (omega arith) in
    let (b, at_j) = get_elem?_in_range buf j h' in go a b at_i at_j
  where
    is :
        (a b : ℕ)
        → get_elem? buf i ≡ some a
        → get_elem? buf j ≡ some b
        → swap i j buf ≡ set (set buf i b) j a
    is a b at_i at_j = rw (swap, at_i, at_j) refl

    go :
        (a b : ℕ)
        → get_elem? buf i ≡ some a
        → get_elem? buf j ≡ some b
        → Swapped i j buf (swap i j buf)
    go a b at_i at_j =
        subst (λ (out : List ℕ). Swapped i j buf out) (sym (is a b at_i at_j))
          record {
            same_length = length-set (set buf i b) j a ∙ length-set buf i b;
            first =
                get_elem?-set_ne (set buf i b) j i a (omega arith)
                ∙ get_elem?-set_self buf i b (omega arith)
                ∙ sym at_j;
            second =
                get_elem?-set_self (set buf i b) j a (omega (arith, length-set buf i b)) ∙ sym at_i;
            others = λ k p q.
                get_elem?-set_ne (set buf i b) j k a (λ e. q (sym e))
                ∙ get_elem?-set_ne buf i k b (λ e. p (sym e));
          }

-- The places that the swaps from `i` to below `hi` reach.
abbrev reached : (n i hi k : ℕ) → Bool
reached n i hi k = (leb i k && ltb k hi) || (leb (n - hi) k && ltb k (n - i))

swaps_lem :
    (n left i : ℕ) (buf : List ℕ) (k : ℕ)
    → length buf ≡ n
    → (i + left) * 2 ≤ n
    → k < n
    → get_elem? (swaps n left i buf) k
      ≡ (if reached n i (i + left) k then get_elem? buf (n - 1 - k) else get_elem? buf k)
unfolding swaps
swaps_lem n zero i buf k e h p = ground arith
swaps_lem n (suc left) i buf k e h p =
    let s = swap-Swapped i (n - (i + 1)) buf (omega arith) (omega arith) in
    swaps_lem n left (i + 1) (swap i (n - (i + 1)) buf) k (s.same_length ∙ e) (omega arith) p
    ∙ step s
  where
    is_eq : (p q : ℕ) → (p == q) ≡ true → p ≡ q
    is_eq p q h = ground arith

    step :
        Swapped i (n - (i + 1)) buf (swap i (n - (i + 1)) buf)
        → (if reached n (i + 1) (i + 1 + left) k
            then get_elem? (swap i (n - (i + 1)) buf) (n - 1 - k)
            else get_elem? (swap i (n - (i + 1)) buf) k)
          ≡ (if reached n i (i + suc left) k then get_elem? buf (n - 1 - k) else get_elem? buf k)
    step s = elim (Bool-cases (k == i)) [
      | inl t ↦
          rw (out_low (ground (arith, t)), in_low (ground (arith, t)), at_low (ground (arith, t)))
            (ap (get_elem? (swap i (n - (i + 1)) buf)) (is_eq k i t) ∙ s.first)
      | inr f ↦ elim (Bool-cases (k == n - (i + 1))) [
        | inl t ↦
            rw
              (
                out_high (ground (arith, t)),
                in_high (ground (arith, t)),
                at_high (ground (arith, t)),
              )
              (ap (get_elem? (swap i (n - (i + 1)) buf)) (is_eq k (n - (i + 1)) t) ∙ s.second)
        | inr g ↦
            rw
              (
                same (ground (arith, f)) (ground (arith, g)),
                s.others k (ground (arith, f)) (ground (arith, g)),
                s.others (n - 1 - k) (ground (arith, g)) (ground (arith, f)),
              )
              refl
      ]
    ]
      where
        out_low : k ≡ i → reached n (i + 1) (i + 1 + left) k ≡ false
        out_low z = ground arith

        in_low : k ≡ i → reached n i (i + suc left) k ≡ true
        in_low z = ground arith

        at_low : k ≡ i → get_elem? buf (n - 1 - k) ≡ get_elem? buf (n - (i + 1))
        at_low z = ap (get_elem? buf) (omega arith)

        out_high : k ≡ n - (i + 1) → reached n (i + 1) (i + 1 + left) k ≡ false
        out_high z = ground arith

        in_high : k ≡ n - (i + 1) → reached n i (i + suc left) k ≡ true
        in_high z = ground arith

        at_high : k ≡ n - (i + 1) → get_elem? buf (n - 1 - k) ≡ get_elem? buf i
        at_high z = ap (get_elem? buf) (omega arith)

        same :
            k ≢ i
            → k ≢ n - (i + 1)
            → reached n (i + 1) (i + 1 + left) k ≡ reached n i (i + suc left) k
        same p q = ground arith

-- The digits in order: each place holds what the place as far from the other end held.
pub in_order_lem :
    (buf : List ℕ) (k : ℕ)
    → k < length buf
    → get_elem? (in_order buf) k ≡ get_elem? buf (length buf - 1 - k)
in_order_lem buf k h = swaps_lem (length buf) (length buf / 2) 0 buf k refl (omega arith) h ∙ middle
  where
    middle :
        (if reached (length buf) 0 (0 + length buf / 2) k
          then get_elem? buf (length buf - 1 - k)
          else get_elem? buf k)
        ≡ get_elem? buf (length buf - 1 - k)
    middle = elim (Bool-cases (reached (length buf) 0 (0 + length buf / 2) k)) [
      | inl t ↦ rw t refl
      | inr f ↦ rw f (ap (get_elem? buf) (ground (arith, f, h)))
    ]

swap-length : (i j : ℕ) (buf : List ℕ) → length (swap i j buf) ≡ length buf
unfolding swap
swap-length i j buf = go (get_elem? buf i) (get_elem? buf j) refl refl
  where
    go :
        (a b : Option ℕ)
        → get_elem? buf i ≡ a
        → get_elem? buf j ≡ b
        → length (swap i j buf) ≡ length buf
    go none b p q = rw (swap, p) refl
    go (some a) none p q = rw (swap, p, q) refl
    go (some a) (some b) p q = rw (swap, p, q) (length-set (set buf i b) j a ∙ length-set buf i b)

swaps-length : (n left i : ℕ) (buf : List ℕ) → length (swaps n left i buf) ≡ length buf
unfolding swaps
swaps-length n zero i buf = refl
swaps-length n (suc left) i buf =
    swaps-length n left (i + 1) (swap i (n - (i + 1)) buf) ∙ swap-length i (n - (i + 1)) buf

pub in_order-length : (buf : List ℕ) → length (in_order buf) ≡ length buf
in_order-length buf = swaps-length (length buf) (length buf / 2) 0 buf
