-- ===== src/Str/Blocks.antt =====
-- Blocks of memory.
use treeos.Base.{
  ℕ, zero, suc, ◌+◌, ◌-◌, ◌^◌, ◌%◌, ◌≤◌, ◌<◌, ◌≡◌, ◌≢◌, ◌⊎◌, inl, inr, refl, arith, Bool, true,
  false, ◌&&◌, ◌==◌, if◌then◌else◌, leb, ltb, ◌∙◌, sym, ap, u8, sub32, Bool-cases, ne→==_false,
  ==_false→ne, subst,
}
use treeos.Str.{
  Bytes, poke, memcpy, memset, memmove, move_forward, move_backward, memcmp, compare_bytes,
}

-- `lo <= a && a < lo + n`.
abbrev pub within : ℕ → ℕ → ℕ → Bool
within lo n a = leb lo a && ltb a (lo + n)

-- The memory with the `n` bytes from `src` on also from `dest` on.
abbrev pub copied : (dest src n : ℕ) → Bytes → Bytes
copied dest src n m a = if within dest n a then m (src + (a - dest)) else m a

-- What one step of a copy leaves to the rest.
copied-step :
    (dest src n : ℕ) (m : Bytes)
    → (dest ≤ src) ⊎ (src + suc n ≤ dest)
    → (a : ℕ) → copied (dest + 1) (src + 1) n (poke dest (m src) m) a ≡ copied dest src (suc n) m a
copied-step dest src n m h a = elim (Bool-cases (within (dest + 1) n a)) [
  | inl t ↦
      rw
        (
          t,
          ne→==_false (src + 1 + (a - (dest + 1))) dest
              (apart h (ground (arith, t)) (ground (arith, t))),
          inside (ground (arith, t)) (ground (arith, t)),
        )
        (ap m (same (ground (arith, t))))
  | inr f ↦ rw f (elim (Bool-cases (a == dest)) [
    | inl t ↦ rw (t, first (ground (arith, t))) (ap m (start (ground (arith, t))))
    | inr g ↦ rw (g, outside (ground (arith, f, g))) refl
  ])
]
  where
    apart :
        (dest ≤ src) ⊎ (src + suc n ≤ dest)
        → dest < a
        → a < dest + suc n
        → src + 1 + (a - (dest + 1)) ≢ dest
    apart (inl p) q r e = omega arith
    apart (inr p) q r e = omega arith

    same : dest < a → src + 1 + (a - (dest + 1)) ≡ src + (a - dest)
    same p = omega arith

    start : a ≡ dest → src ≡ src + (a - dest)
    start p = omega arith

    inside : dest < a → a < dest + suc n → within dest (suc n) a ≡ true
    inside p q = ground arith

    first : a ≡ dest → within dest (suc n) a ≡ true
    first p = ground arith

    outside : (a < dest) ⊎ (dest + suc n ≤ a) → within dest (suc n) a ≡ false
    outside p = ground arith

-- Bytes are copied in order, so a copy is right if the blocks are apart or `dest` is not above
-- `src`: then the `n` bytes are those that `src` had, and no other byte changes.
pub memcpy_lem :
    (dest src n : ℕ) (m : Bytes)
    → (dest ≤ src) ⊎ (src + n ≤ dest)
    → (a : ℕ) → memcpy dest src n m a ≡ copied dest src n m a
unfolding memcpy
memcpy_lem dest src zero m h a = ground arith
memcpy_lem dest src (suc n) m h a =
    memcpy_lem (dest + 1) (src + 1) n (poke dest (m src) m) (below h) a
    ∙ copied-step dest src n m h a
  where
    below : (dest ≤ src) ⊎ (src + suc n ≤ dest) → (dest + 1 ≤ src + 1) ⊎ (src + 1 + n ≤ dest + 1)
    below (inl p) = inl (omega arith)
    below (inr p) = inr (omega arith)

-- `memset` stores the low byte of its value in the block and changes nothing else.
pub memset_lem :
    (dest value n : ℕ) (m : Bytes) (a : ℕ)
    → memset dest value n m a ≡ (if within dest n a then value % 2 ^ 8 else m a)
unfolding memset
memset_lem dest value zero m a = ground arith
memset_lem dest value (suc n) m a =
    memset_lem (dest + 1) value n (poke dest (u8 value) m) a ∙ ground arith

-- The first loop of `memmove` is the copy of `memcpy`.
move_forward-memcpy :
    (dest src n i : ℕ) (m : Bytes) (d e : ℕ)
    → d ≡ dest + i
    → e ≡ src + i
    → move_forward dest src n i m ≡ memcpy d e n m
unfolding move_forward memcpy
move_forward-memcpy dest src zero i m d e p q = refl
move_forward-memcpy dest src (suc n) i m d e p q =
    rw (p, q)
      (move_forward-memcpy dest src n (i + 1) (poke (dest + i) (m (src + i)) m) (dest + i + 1)
        (src + i + 1) (omega arith) (omega arith))

move_backward-still : (dest src n : ℕ) (m : Bytes) → move_backward dest src n 0 m ≡ m
unfolding move_backward
move_backward-still dest src zero m = refl
move_backward-still dest src (suc n) m = refl

-- `memmove` copies when `dest` is below `src`; otherwise its loop does not run and the memory stays
-- as it was.
pub memmove_lem :
    (dest src n : ℕ) (m : Bytes) (a : ℕ)
    → memmove dest src n m a ≡ (if ltb dest src then copied dest src n m a else m a)
unfolding memmove
memmove_lem dest src n m a = elim (Bool-cases (ltb dest src)) [
  | inl t ↦
      rw (t, move_forward-memcpy dest src n 0 m dest src (omega arith) (omega arith))
        (memcpy_lem dest src n m (inl (ground (arith, t))) a)
  | inr f ↦ rw (f, move_backward-still dest src n m) refl
]

-- How two blocks compare: they are equal, or differ first at `k`.
pub data Compared (m : Bytes) (a b n : ℕ) : ℕ → Type 0 where
  same : ((j : ℕ) → j < n → m (a + j) ≡ m (b + j)) → Compared m a b n 0
  differ :
      (k : ℕ)
      → k < n
      → ((j : ℕ) → j < k → m (a + j) ≡ m (b + j))
      → m (a + k) ≢ m (b + k)
      → Compared m a b n (sub32 (m (a + k)) (m (b + k)))

one_on : (m : Bytes) (a j : ℕ) → m (a + 1 + j) ≡ m (a + suc j)
one_on m a j = ap m (omega arith)

Compared-suc :
    (m : Bytes) (a b n r : ℕ)
    → m a ≡ m b
    → Compared m (a + 1) (b + 1) n r
    → Compared m a b (suc n) r
Compared-suc m a b n r e (same eqs) = same λ j h. at j h
  where
    at : (j : ℕ) → j < suc n → m (a + j) ≡ m (b + j)
    at zero h = ap m (omega arith) ∙ e ∙ ap m (omega arith)
    at (suc j) h = sym (one_on m a j) ∙ eqs j (omega arith) ∙ one_on m b j
Compared-suc m a b n r e (differ k h eqs ne) =
    rw (one_on m a k, one_on m b k)
      (differ (suc k) (omega arith) (λ j h'. at j h')
        (λ z. ne (one_on m a k ∙ z ∙ sym (one_on m b k))))
  where
    at : (j : ℕ) → j < suc k → m (a + j) ≡ m (b + j)
    at zero h = ap m (omega arith) ∙ e ∙ ap m (omega arith)
    at (suc j) h = sym (one_on m a j) ∙ eqs j (omega arith) ∙ one_on m b j

compare_bytes_lem : (m : Bytes) (a b n : ℕ) → Compared m a b n (compare_bytes a b n m)
unfolding compare_bytes
compare_bytes_lem m a b zero = same λ j h. absurd (omega arith)
compare_bytes_lem m a b (suc n) = elim (Bool-cases (m a == m b)) [
  | inl t ↦
      rw t (Compared-suc m a b n _ (ground (arith, t)) (compare_bytes_lem m (a + 1) (b + 1) n))
  | inr f ↦ rw f (
      here (
        differ 0 (omega arith) (λ j h. absurd (omega arith))
          (λ e. ==_false→ne (m a) (m b) f (sym (at0 a) ∙ e ∙ at0 b))))
]
  where
    at0 : (x : ℕ) → m (x + 0) ≡ m x
    at0 x = ap m (omega arith)

    here :
        Compared m a b (suc n) (sub32 (m (a + 0)) (m (b + 0)))
        → Compared m a b (suc n) (sub32 (m a) (m b))
    here c =
        subst (λ (x : ℕ). Compared m a b (suc n) (sub32 x (m b))) (at0 a)
          (subst (λ (y : ℕ). Compared m a b (suc n) (sub32 (m (a + 0)) y)) (at0 b) c)

-- `memcmp` returns 0 for equal blocks, and otherwise the difference of the first bytes that differ,
-- of the second block's byte less the first's.
pub memcmp_lem : (m : Bytes) (ptr1 ptr2 n : ℕ) → Compared m ptr2 ptr1 n (memcmp ptr1 ptr2 n m)
unfolding memcmp
memcmp_lem m ptr1 ptr2 n = compare_bytes_lem m ptr2 ptr1 n
