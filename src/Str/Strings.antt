-- ===== src/Str/Strings.antt =====
-- Strings: bytes that are not zero, up to a zero byte.
use treeos.Base.{
  ℕ, zero, suc, ◌+◌, ◌≤◌, ◌<◌, ◌≡◌, ◌≢◌, ◌⊎◌, inl, inr, refl, arith, true, false, List, [], ◌∷◌,
  Result, ok, ◌==◌, ◌∙◌, sym, ap, sub32, length, Bool-cases, eq→==, ne→==_false, ==_false→ne,
}
use treeos.Str.{Bytes, poke, memcpy, find_end, strlen, strcpy, strcat, strcmp}
use treeos.Str.Blocks.{within, copied, memcpy_lem}

-- The string at `a`.
abbrev pub StringAt : Bytes → ℕ → List ℕ → Type 0
StringAt m a [] = m a ≡ 0
StringAt m a (b ∷ bs) = (m a ≡ b) × (b ≢ 0) × StringAt m (a + 1) bs

find_end_lem :
    (bs : List ℕ) (fuel a : ℕ) (m : Bytes)
    → StringAt m a bs
    → length bs < fuel
    → find_end fuel a m ≡ ok (a + length bs)
unfolding find_end
find_end_lem bs zero a m s h = absurd (omega arith)
find_end_lem [] (suc fuel) a m s h = rw (eq→== (m a) 0 s) (ap ok (omega arith))
find_end_lem (b ∷ bs) (suc fuel) a m (e, ne, s) h =
    rw (ne→==_false (m a) 0 (λ z. ne (sym e ∙ z)), find_end_lem bs fuel (a + 1) m s (omega arith))
      (ap ok (omega arith))

-- `strlen` is the number of bytes before the zero byte; more fuel than that is enough.
pub strlen_lem :
    (bs : List ℕ) (fuel a : ℕ) (m : Bytes)
    → StringAt m a bs
    → length bs < fuel
    → strlen fuel a m ≡ ok (length bs)
unfolding strlen
strlen_lem bs fuel a m s h = rw (find_end_lem bs fuel a m s h) (ap ok (omega arith))

-- Two memories that agree from `a` on hold the same string there.
pub StringAt-same :
    (bs : List ℕ) (m k : Bytes) (a c : ℕ)
    → ((j : ℕ) → j ≤ length bs → k (c + j) ≡ m (a + j))
    → StringAt m a bs
    → StringAt k c bs
StringAt-same [] m k a c same s =
    sym (ap k (omega arith)) ∙ same 0 (omega arith) ∙ ap m (omega arith) ∙ s
StringAt-same (b ∷ bs) m k a c same (e, ne, s) = (
  sym (ap k (omega arith)) ∙ same 0 (omega arith) ∙ ap m (omega arith) ∙ e,
  ne,
  StringAt-same bs m k (a + 1) (c + 1)
      (λ j h. ap k (omega arith) ∙ same (suc j) (omega arith) ∙ ap m (omega arith)) s,
)

-- Copying a string copies its bytes and the zero byte.
strcpy-memcpy :
    (bs : List ℕ) (fuel dest src : ℕ) (m : Bytes)
    → StringAt m src bs
    → (dest ≤ src) ⊎ (src + length bs < dest)
    → length bs < fuel
    → strcpy fuel dest src m ≡ ok (dest + length bs + 1, memcpy dest src (suc (length bs)) m)
unfolding strcpy memcpy
strcpy-memcpy bs zero dest src m s d h = absurd (omega arith)
strcpy-memcpy [] (suc fuel) dest src m s d h =
    rw (eq→== (m src) 0 s) (ap (λ (at : ℕ). ok (at, poke dest (m src) m)) (omega arith))
strcpy-memcpy (b ∷ bs) (suc fuel) dest src m (e, ne, s) d h =
    rw
      (
        ne→==_false (m src) 0 (λ z. ne (sym e ∙ z)),
        strcpy-memcpy bs fuel (dest + 1) (src + 1) (poke dest (m src) m)
            (StringAt-same bs m (poke dest (m src) m) (src + 1) (src + 1) untouched s) (later d)
            (omega arith),
      )
      (ap (λ (at : ℕ). ok (at, memcpy (dest + 1) (src + 1) (suc (length bs)) (poke dest (m src) m)))
        end)
  where
    end : dest + 1 + length bs + 1 ≡ dest + suc (length bs) + 1
    end = omega arith

    later :
        (dest ≤ src) ⊎ (src + suc (length bs) < dest)
        → (dest + 1 ≤ src + 1) ⊎ (src + 1 + length bs < dest + 1)
    later (inl p) = inl (omega arith)
    later (inr p) = inr (omega arith)

    apart :
        (dest ≤ src) ⊎ (src + suc (length bs) < dest) → (j : ℕ) → j ≤ length bs → src + 1 + j ≢ dest
    apart (inl p) j q z = omega arith
    apart (inr p) j q z = omega arith

    untouched : (j : ℕ) → j ≤ length bs → poke dest (m src) m (src + 1 + j) ≡ m (src + 1 + j)
    untouched j q = rw (ne→==_false (src + 1 + j) dest (apart d j q)) refl

-- `strcpy` of a string to a block that is apart from it, or not above it, makes the same string
-- there and changes no other byte. It returns the address behind the copied zero byte.
pub strcpy_lem :
    (bs : List ℕ) (fuel dest src : ℕ) (m : Bytes)
    → StringAt m src bs
    → (dest ≤ src) ⊎ (src + length bs < dest)
    → length bs < fuel
    → (t : Bytes) × (strcpy fuel dest src m ≡ ok (dest + length bs + 1, t))
      × StringAt t dest bs
      × ((a : ℕ) → within dest (suc (length bs)) a ≡ false → t a ≡ m a)
strcpy_lem bs fuel dest src m s d h = (
  memcpy dest src (suc (length bs)) m,
  strcpy-memcpy bs fuel dest src m s d h,
  StringAt-same bs m _ src dest (λ j q. copy (dest + j) ∙ inside j q) s,
  λ a out. copy a ∙ rw out refl,
)
  where
    copy : (a : ℕ) → memcpy dest src (suc (length bs)) m a ≡ copied dest src (suc (length bs)) m a
    copy = memcpy_lem dest src (suc (length bs)) m (wide d)
      where
        wide :
            (dest ≤ src) ⊎ (src + length bs < dest) → (dest ≤ src) ⊎ (src + suc (length bs) ≤ dest)
        wide (inl p) = inl p
        wide (inr p) = inr (omega arith)

    inside : (j : ℕ) → j ≤ length bs → copied dest src (suc (length bs)) m (dest + j) ≡ m (src + j)
    inside j q = rw (holds j q) (ap m (omega arith))
      where
        holds : (j : ℕ) → j ≤ length bs → within dest (suc (length bs)) (dest + j) ≡ true
        holds j q = ground arith

-- How strings compare: 0 if they are equal, and otherwise something else.
pub data Orders (xs ys : List ℕ) : Result ℕ → Type 0 where
  equal : xs ≡ ys → Orders xs ys (ok 0)
  unequal : (r : ℕ) → xs ≢ ys → r ≢ 0 → Orders xs ys (ok r)

diff : (x y : ℕ) → x < 256 → y < 256 → x ≢ y → sub32 x y ≢ 0
diff x y h h' ne = omega arith

Orders-cons :
    {x y : ℕ} {xs ys : List ℕ} {r : Result ℕ} → x ≡ y → Orders xs ys r → Orders (x ∷ xs) (y ∷ ys) r
Orders-cons e (equal p) = equal cc
Orders-cons e (unequal r ne nz) = unequal r (λ z. ne cc) nz

-- `strcmp` returns 0 exactly for equal strings, and reads no further than the shorter one's zero
-- byte.
pub strcmp_lem :
    (m : Bytes)
    → ((a : ℕ) → m a < 256)
    → (xs ys : List ℕ) (fuel str1 str2 : ℕ) → StringAt m str1 xs
    → StringAt m str2 ys
    → length xs < fuel
    → Orders xs ys (strcmp fuel str1 str2 m)
unfolding strcmp
strcmp_lem m bytes xs ys zero a b s t h = absurd (omega arith)
strcmp_lem m bytes [] [] (suc fuel) a b s t h = rw (s, t) (equal refl)
strcmp_lem m bytes [] (y ∷ ys) (suc fuel) a b s (e, ne, t) h = rw (eq→== (m a) 0 s) (
    unequal (sub32 (m a) (m b)) (λ z. cc)
      (diff (m a) (m b) (bytes a) (bytes b) (λ z. ne (sym e ∙ sym z ∙ s))))
strcmp_lem m bytes (x ∷ xs) [] (suc fuel) a b (e, ne, s) t h =
    rw
      (ne→==_false (m a) 0 (λ z. ne (sym e ∙ z)), ne→==_false (m a) (m b) (λ z. ne (sym e ∙ z ∙ t)))
      (unequal (sub32 (m a) (m b)) (λ z. cc)
        (diff (m a) (m b) (bytes a) (bytes b) (λ z. ne (sym e ∙ z ∙ t))))
strcmp_lem m bytes (x ∷ xs) (y ∷ ys) (suc fuel) a b (e, ne, s) (e', ne', t) h =
    rw (ne→==_false (m a) 0 (λ z. ne (sym e ∙ z))) (elim (Bool-cases (m a == m b)) [
      | inl same ↦ rw same (
          Orders-cons (sym e ∙ ==→eq (m a) (m b) same ∙ e')
            (strcmp_lem m bytes xs ys fuel (a + 1) (b + 1) s t (omega arith)))
      | inr f ↦ rw f (
          unequal (sub32 (m a) (m b)) (λ z. ==_false→ne (m a) (m b) f (e ∙ first z ∙ sym e'))
            (diff (m a) (m b) (bytes a) (bytes b) (==_false→ne (m a) (m b) f)))
    ])
  where
    first : ◌≡◌ {A = List ℕ} (x ∷ xs) (y ∷ ys) → x ≡ y
    first z = cc

    ==→eq : (p q : ℕ) → (p == q) ≡ true → p ≡ q
    ==→eq p q h = ground arith

-- Where `src` lies behind the string at `dest`, or with its zero byte wholly below it, `strcat` copies `src`
-- behind the zero byte of `dest`, so that the string at `dest` stays the one it was.
pub strcat_lem :
    (bs cs : List ℕ) (fuel dest src : ℕ) (m : Bytes)
    → StringAt m dest bs
    → StringAt m src cs
    → (dest + length bs + 1 ≤ src) ⊎ (src + length cs < dest)
    → length bs < fuel
    → length cs < fuel
    → (t : Bytes) × (strcat fuel dest src m ≡ ok (dest + length bs + 1 + length cs + 1, t))
      × StringAt t dest bs
      × StringAt t (dest + length bs + 1) cs
unfolding strcat
strcat_lem bs cs fuel dest src m s t apart h h' =
    let (k, returns, copy, others) = strcpy_lem cs fuel (dest + length bs + 1) src m t place h' in
    (
      k,
      rw (find_end_lem bs fuel dest m s h) returns,
      StringAt-same bs m k dest dest (λ j q. others (dest + j) (out j q)) s,
      copy,
    )
  where
    place : (dest + length bs + 1 ≤ src) ⊎ (src + length cs < dest + length bs + 1)
    place = elim apart [ inl behind ↦ inl behind | inr below ↦ inr (omega (arith, below)) ]

    out :
        (j : ℕ) → j ≤ length bs → within (dest + length bs + 1) (suc (length cs)) (dest + j) ≡ false
    out j q = ground arith
