-- ===== src/Format/Length.antt =====
-- How long a formatted text can be.
use treeos.Base.{
  ℕ, zero, suc, ◌+◌, ◌*◌, ◌^◌, ◌≤◌, ◌<◌, ◌≡◌, refl, arith, Bool, true, false, not, ◌&&◌, List, [],
  ◌∷◌, ◌++◌, Result, ok, ◌>>=◌, ◌==◌, if◌then◌else◌, length, length-append, map, Bool-cases, inl,
  inr,
}
use treeos.Format.{
  word, is_directive, convert, prefix, formatted, vsprintf, ultoa, ultox, ltoa, true_text,
  false_text,
}
use treeos.Format.Number.{Signed, ultoa_lem, ultox_lem, ltoa_lem}

-- Every conversion of the format is one of a number, and there is an argument for it.
abbrev pub takes : List ℕ → (args : ℕ) → Bool
takes [] n = true
takes (c ∷ []) n = true
takes (c ∷ d ∷ format) zero =
    let plain = takes (d ∷ format) zero in
    let literal = takes format zero in
    if c == 37 then (if is_directive d then false else literal) else plain
takes (c ∷ d ∷ format) (suc n) =
    let plain = takes (d ∷ format) (suc n) in
    let literal = takes format (suc n) in
    let converted = takes format n in
    if c == 37 then (if is_directive d then not (d == 115) && converted else literal) else plain

abbrev pub AllWords : List ℕ → Type 0
AllWords [] = Unit {0}
AllWords (w ∷ ws) = (w < 2 ^ 32) × AllWords ws

-- A text of at most `n` bytes comes out.
pub record Within (n : ℕ) (result : Result (List ℕ)) : Type 0 where
  pub out : List ℕ
  pub returns : result ≡ ok out
  pub short : length out ≤ n

choose :
    {n : ℕ} {x y : Result (List ℕ)} (b : Bool)
    → Within n x
    → Within n y
    → Within n (if b then x else y)
choose true p q = p
choose false p q = q

within : {n : ℕ} (s : List ℕ) → length s ≤ n → Within n (ok s)
within s h = record { out = s; returns = refl; short = h }

length-ultoa : (w : ℕ) → w < 2 ^ 32 → length (ultoa w) ≤ 11
length-ultoa w h = let n = ultoa_lem w h in omega (arith, n.size)

pub length-ultox : (w : ℕ) → w < 2 ^ 32 → length (ultox w) ≤ 11
length-ultox w h = let (s, e, n) = ultox_lem w h in rw e (omega (arith, n.size))

pub length-ltoa : (w : ℕ) → w < 2 ^ 32 → length (ltoa w) ≤ 11
length-ltoa w h = signed (ltoa_lem w h)
  where
    signed : {s : List ℕ} → Signed w s → length s ≤ 11
    signed (Signed.positive lt n) = omega (arith, n.size)
    signed (Signed.negative le n) = omega (arith, n.size)

-- A number is converted to at most eleven bytes.
convert_bound : (d w : ℕ) → (d == 115) ≡ false → w < 2 ^ 32 → Within 11 (convert d (word w))
unfolding convert
convert_bound d w other h = rw other (
    choose (d == 99) (within _ (omega arith)) (
      choose (d == 100) (within _ (length-ltoa w h)) (
        choose (d == 105) (within _ (length-ltoa w h)) (
          choose (d == 117) (within _ (length-ultoa w h)) (
            choose (d == 120) (within _ (length-ultox w h))
              (choose (d == 112) (within _ (length-ultox w h)) (within _ (bool_text (w == 0)))))))))
  where
    bool_text : (b : Bool) → length (if b then false_text else true_text) ≤ 11
    bool_text true = omega arith
    bool_text false = omega arith

after :
    {n k : ℕ} (s : List ℕ) {r : Result (List ℕ)}
    → Within n r
    → length s + n ≤ k
    → Within k (prefix s r)
after s p fits = record {
  out = s ++ p.out;
  returns = rw p.returns refl;
  short = omega (arith, length-append s p.out, p.short);
}

converted_within :
    {n k : ℕ} {c r : Result (List ℕ)}
    → Within 11 c
    → Within n r
    → 11 + n ≤ k
    → Within k (c >>= λ s. prefix s r)
converted_within p q fits = record {
  out = p.out ++ q.out;
  returns = rw (p.returns, q.returns) refl;
  short = omega (arith, length-append p.out q.out, p.short, q.short);
}

formatted_bound :
    (format ws : List ℕ)
    → takes format (length ws) ≡ true
    → AllWords ws
    → Within (length format + 9 * length ws) (formatted format (map word ws))
unfolding formatted
formatted_bound [] ws t words = within [] (omega arith)
formatted_bound (c ∷ []) ws t words =
    choose (c == 37) (within [] (omega arith)) (within (c ∷ []) (omega arith))
formatted_bound (c ∷ d ∷ format) [] t words = elim (Bool-cases (c == 37)) [
  | inr e ↦ rw e (after (c ∷ []) (formatted_bound (d ∷ format) [] (rw e at t) words) (omega arith))
  | inl e ↦ elim (Bool-cases (is_directive d)) [
    | inl i ↦ absurd (clash e i)
    | inr i ↦
        rw (e, i) (after (d ∷ []) (formatted_bound format [] (rw (e, i) at t) words) (omega arith))
  ]
]
  where
    clash : (c == 37) ≡ true → is_directive d ≡ true → ⊥
    clash e i = let wrong = rw (e, i) at t in cc
formatted_bound (c ∷ d ∷ format) (w ∷ ws) t (small, words) = elim (Bool-cases (c == 37)) [
  | inr e ↦ rw e (
      after (c ∷ []) (formatted_bound (d ∷ format) (w ∷ ws) (rw e at t) (small, words))
        (omega arith))
  | inl e ↦ elim (Bool-cases (is_directive d)) [
    | inr i ↦
        rw (e, i)
          (after (d ∷ []) (formatted_bound format (w ∷ ws) (rw (e, i) at t) (small, words))
            (omega arith))
    | inl i ↦ elim (Bool-cases (d == 115)) [
      | inl string ↦ absurd (clash e i string)
      | inr number ↦
          rw (e, i)
            (converted_within (convert_bound d w number small)
              (formatted_bound format ws (rw (e, i, number) at t) words) (omega arith))
    ]
  ]
]
  where
    clash : (c == 37) ≡ true → is_directive d ≡ true → (d == 115) ≡ true → ⊥
    clash e i string = let wrong = rw (e, i, string) at t in cc

-- Where every conversion of the format is one of a number that is given, `vsprintf` returns, and it
-- writes at most the length of the format and nine bytes more for each number, and a zero byte.
pub vsprintf_bound :
    (format ws : List ℕ)
    → takes format (length ws) ≡ true
    → AllWords ws
    → (out : List ℕ) × (vsprintf format (map word ws) ≡ ok (length out, out ++ 0 ∷ []))
      × (length out ≤ length format + 9 * length ws)
unfolding vsprintf
vsprintf_bound format ws t words =
    let p = formatted_bound format ws t words in (p.out, rw p.returns refl, p.short)
