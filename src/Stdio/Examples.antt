-- ===== src/Stdio/Examples.antt =====
-- A text that is longer than the buffer of `vprintf`.
use treeos.Base.{◌≡◌, refl, arith, List, [], ◌∷◌, fault, replicate}
use treeos.Format.{text, convert}
use treeos.Format.Pieces.{Piece, conversion, format_of, args_of}
use treeos.Fixtures.{running, empty}
use treeos.Stdio.{printf}
use treeos.Stdio.Print.{printf_too_long}

-- 512 letters.
long_text : List Piece
long_text =
    conversion 115 (text (replicate 512 97)) (replicate 512 97) refl (unfold convert in refl) ∷ []

overflows : printf (format_of long_text) (args_of long_text) (running, empty) ≡ fault
overflows = printf_too_long long_text (running, empty) (unfold long_text in omega arith)
