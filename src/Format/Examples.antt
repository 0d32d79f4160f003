-- ===== src/Format/Examples.antt =====
-- Runs of the formatting functions, and their theorems there.
use treeos.Base.{◌≡◌, refl, arith, List, [], ◌∷◌, ok}
use treeos.Format.{text, convert, vsprintf, ultoa, ultox, low_digits, swap, swaps}
use treeos.Format.Number.{Numeral, dec_digit, ultoa_lem}
use treeos.Format.Pieces.{Piece, plain, literal, conversion, vsprintf_lem}

-- "10" and "0xFF".
ten : ultoa 10 ≡ 49 ∷ 48 ∷ []
unfolding ultoa low_digits swaps swap
ten = refl

hex : ultox 255 ≡ 48 ∷ 120 ∷ 70 ∷ 70 ∷ []
unfolding ultox low_digits swaps swap
hex = refl

-- "a%s%%", with "bc".
pieces : List Piece
pieces =
    plain 97 (λ e. omega (arith, e))
    ∷ conversion 115 (text (98 ∷ 99 ∷ [])) (98 ∷ 99 ∷ []) refl (unfold convert in refl)
    ∷ literal 37 refl
    ∷ []

ultoa_lem_example : Numeral 10 dec_digit 10 4294967295 (ultoa 4294967295)
ultoa_lem_example = ultoa_lem 4294967295 (omega arith)

vsprintf_lem_example :
    vsprintf (97 ∷ 37 ∷ 115 ∷ 37 ∷ 37 ∷ []) (text (98 ∷ 99 ∷ []) ∷ [])
    ≡ ok (4, 97 ∷ 98 ∷ 99 ∷ 37 ∷ 0 ∷ [])
unfolding pieces
vsprintf_lem_example = vsprintf_lem pieces
