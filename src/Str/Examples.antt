-- ===== src/Str/Examples.antt =====
-- Runs of the memory and string functions, and their theorems there.
use treeos.Base.{inr, ℕ, ◌-◌, ◌^◌, ◌<◌, ◌≡◌, refl, arith, [], ◌∷◌, ok, ◌==◌, if◌then◌else◌}
use treeos.Str.{Bytes, memmove, memcmp, strcat, compare_bytes}
use treeos.Str.Blocks.{memmove_lem}
use treeos.Str.Strings.{StringAt, strcat_lem}

-- "ab" at 10 and "c" at 20.
abbrev text : Bytes
text a = if a == 10 then 97 else if a == 11 then 98 else if a == 20 then 99 else 0

text-bytes : (a : ℕ) → text a < 256
text-bytes a = ground arith

ab : StringAt text 10 (97 ∷ 98 ∷ [])
ab = (refl, λ e. omega (arith, e), (refl, λ e. omega (arith, e), refl))

c : StringAt text 20 (99 ∷ [])
c = (refl, λ e. omega (arith, e), refl)

-- `memcmp` on "c" and "ab": positive by the standard, negative here.
memcmp_sign : memcmp 20 10 1 text ≡ 2 ^ 32 - 2
unfolding memcmp compare_bytes
memcmp_sign = refl

memmove_lem_example : memmove 11 10 2 text 12 ≡ 0
memmove_lem_example = memmove_lem 11 10 2 text 12

strcat_lem_example :
    (t : Bytes) × (strcat 3 20 10 text ≡ ok (25, t))
    × StringAt t 20 (99 ∷ [])
    × StringAt t 22 (97 ∷ 98 ∷ [])
strcat_lem_example =
    strcat_lem (99 ∷ []) (97 ∷ 98 ∷ []) 3 20 10 text c ab (inr (omega arith)) (omega arith)
      (omega arith)
