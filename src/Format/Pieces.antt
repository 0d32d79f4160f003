-- ===== src/Format/Pieces.antt =====
-- A format as the pieces that it is made of.
use treeos.Base.{
  ℕ, ◌≡◌, ◌≢◌, refl, true, false, List, [], ◌∷◌, ◌++◌, ok, ◌∙◌, ap, length, ne→==_false,
}
use treeos.Format.{Arg, is_directive, convert, prefix, formatted, vsprintf}

-- A character that is not `%`; `%` with a letter that the switch has no case for; or `%` with a
-- letter that it has one for, an argument, and what is written of it.
pub data Piece : Type 0 where
  plain : (c : ℕ) → c ≢ 37 → Piece
  literal : (d : ℕ) → is_directive d ≡ false → Piece
  conversion :
      (d : ℕ) (arg : Arg) (out : List ℕ) → is_directive d ≡ true → convert d arg ≡ ok out → Piece

abbrev pub format_of : List Piece → List ℕ
format_of [] = []
format_of (plain c n ∷ ps) = c ∷ format_of ps
format_of (literal d n ∷ ps) = 37 ∷ d ∷ format_of ps
format_of (conversion d arg out i e ∷ ps) = 37 ∷ d ∷ format_of ps

abbrev pub args_of : List Piece → List Arg
args_of [] = []
args_of (plain c n ∷ ps) = args_of ps
args_of (literal d n ∷ ps) = args_of ps
args_of (conversion d arg out i e ∷ ps) = arg ∷ args_of ps

abbrev pub text_of : List Piece → List ℕ
text_of [] = []
text_of (plain c n ∷ ps) = c ∷ text_of ps
text_of (literal d n ∷ ps) = d ∷ text_of ps
text_of (conversion d arg out i e ∷ ps) = out ++ text_of ps

formatted-plain :
    (c : ℕ) (fs : List ℕ) (rest : List Arg)
    → c ≢ 37
    → formatted (c ∷ fs) rest ≡ prefix (c ∷ []) (formatted fs rest)
unfolding formatted
formatted-plain c [] rest n = rw (ne→==_false c 37 n) refl
formatted-plain c (d ∷ fs) [] n = rw (ne→==_false c 37 n) refl
formatted-plain c (d ∷ fs) (a ∷ rest) n = rw (ne→==_false c 37 n) refl

formatted-literal :
    (d : ℕ) (fs : List ℕ) (rest : List Arg)
    → is_directive d ≡ false
    → formatted (37 ∷ d ∷ fs) rest ≡ prefix (d ∷ []) (formatted fs rest)
unfolding formatted
formatted-literal d fs [] n = rw n refl
formatted-literal d fs (a ∷ rest) n = rw n refl

formatted_lem : (ps : List Piece) → formatted (format_of ps) (args_of ps) ≡ ok (text_of ps)
unfolding formatted
formatted_lem [] = refl
formatted_lem (plain c n ∷ ps) =
    formatted-plain c (format_of ps) (args_of ps) n ∙ ap (prefix (c ∷ [])) (formatted_lem ps)
formatted_lem (literal d n ∷ ps) =
    formatted-literal d (format_of ps) (args_of ps) n ∙ ap (prefix (d ∷ [])) (formatted_lem ps)
formatted_lem (conversion d arg out i e ∷ ps) = rw (i, e, formatted_lem ps) refl

-- `vsprintf` writes the text of the pieces of its format, one after the other, and a zero byte, and
-- returns the length of the text.
pub vsprintf_lem :
    (ps : List Piece)
    → vsprintf (format_of ps) (args_of ps) ≡ ok (length (text_of ps), text_of ps ++ 0 ∷ [])
unfolding vsprintf
vsprintf_lem ps = rw (formatted_lem ps) refl
