-- ===== src/Panic/Examples.antt =====
-- Failures that are reported, and the theorems there.
use treeos.Base.{ℕ, ◌≡◌, refl, List, [], ◌∷◌, ok, bytes_of}
use treeos.Format.{vsprintf, formatted, convert, ultox, ultoa, ltoa, low_digits, swaps, swap}
use treeos.Fixtures.{context, context-IsContext}
use treeos.Panic.{strcat_registers, append_line}
use treeos.Panic.Registers.{Extends, strcat_registers_bound}

-- The last line is "  int=14 err=0x0".
last_line :
    append_line (bytes_of "  int=%d err=%x\n") (14 ∷ 0 ∷ []) (97 ∷ [])
    ≡ ok (97 ∷ bytes_of "  int=14 err=0x0\n")
unfolding append_line bytes_of vsprintf formatted convert ltoa ultoa ultox low_digits swaps swap
last_line = refl

strcat_registers_bound_example : Extends 299 (97 ∷ []) (strcat_registers (97 ∷ []) context)
strcat_registers_bound_example = strcat_registers_bound (97 ∷ []) context context-IsContext

-- A file "a.c" and a message "no".
abbrev file : List ℕ
file = 97 ∷ 46 ∷ 99 ∷ []

abbrev msg : List ℕ
msg = 110 ∷ 111 ∷ []
