-- ===== src/Stdio/Print.antt =====
-- What `printf` and `puts` show on the screen.
use treeos.Base.{
  ℕ, ◌+◌, ◌≤◌, ◌<◌, ◌≡◌, ◌≢◌, refl, arith, true, false, some, List, [], ◌∷◌, ◌++◌, ok, fault,
  length, length-append, le→ltb_false, lt→ltb, ne→==_false, ◌∙◌, subst,
}
use treeos.Interrupt.{Interrupts}
use treeos.Interrupt.Mask.{InSync}
use treeos.Interrupt.Critical.{Returns}
use treeos.Tty.{Tty, tty_puts, tty_color_screen}
use treeos.Tty.Rows.{OnScreen}
use treeos.Tty.Text.{Prints, ints, tty_puts_color_lem}
use treeos.Format.{Arg, vsprintf}
use treeos.Format.Pieces.{Piece, format_of, args_of, text_of, vsprintf_lem}
use treeos.Serio.{c_string}
use treeos.Stdio.{vprintf, printf, puts}

-- No character of the text is zero.
abbrev pub NoZero : List ℕ → Type 0
NoZero [] = Unit {0}
NoZero (c ∷ cs) = (c ≢ 0) × NoZero cs

pub c_string-append : (cs rest : List ℕ) → NoZero cs → c_string (cs ++ 0 ∷ rest) ≡ cs
unfolding c_string
c_string-append [] rest clean = refl
c_string-append (c ∷ cs) rest (n, clean) =
    rw (ne→==_false c 0 n, c_string-append cs rest clean) refl

-- A longer text is written past the end of the buffer of 512 bytes.
pub printf_too_long :
    (ps : List Piece) (k : Interrupts × Tty)
    → 512 ≤ length (text_of ps)
    → printf (format_of ps) (args_of ps) k ≡ fault
unfolding printf vprintf
printf_too_long ps k long =
    let past : 512 < length (text_of ps ++ 0 ∷ []) =
      omega (arith, length-append (text_of ps) (0 ∷ [])) in
    rw (vsprintf_lem ps, lt→ltb 512 (length (text_of ps ++ 0 ∷ [])) past) refl

module _ {s : Tty} {i : Interrupts} (sync : InSync i) (on : OnScreen s) where
  -- What a format makes is shown up to its first zero byte.
  pub printf-vsprintf :
      (format : List ℕ) (args : List Arg) (out : List ℕ)
      → vsprintf format args ≡ ok (length out, out ++ 0 ∷ [])
      → length out < 512
      → (t : Tty) × Returns i (length (c_string (out ++ 0 ∷ []))) t (printf format args (i, s))
        × Prints tty_color_screen s (ints (c_string (out ++ 0 ∷ [])) false) t
  unfolding printf vprintf tty_puts
  printf-vsprintf format args out makes short =
      let shown = c_string (out ++ 0 ∷ []) in
      let fits : length (out ++ 0 ∷ []) ≤ 512 = omega (arith, length-append out (0 ∷ [])) in
      let (t, returns, prints) = tty_puts_color_lem shown tty_color_screen false s sync on in
      let count : length shown + 0 ≡ length shown = omega arith in
      (
        t,
        record {
          after = returns.after;
          returns =
              rw (makes, le→ltb_false 512 (length (out ++ 0 ∷ [])) fits)
                (returns.returns ∙ (rw count refl));
          sync = returns.sync;
          same = returns.same;
        },
        prints,
      )

  -- A text of less than 512 characters, none of them zero, that a format and its arguments make is
  -- shown on the screen in the screen's colour; its length is returned.
  pub printf_lem :
      (ps : List Piece)
      → NoZero (text_of ps)
      → length (text_of ps) < 512
      → (t : Tty) × Returns i (length (text_of ps)) t (printf (format_of ps) (args_of ps) (i, s))
        × Prints tty_color_screen s (ints (text_of ps) false) t
  printf_lem ps clean short =
      subst
        (λ (shown : List ℕ).
          (t : Tty) × Returns i (length shown) t (printf (format_of ps) (args_of ps) (i, s))
          × Prints tty_color_screen s (ints shown false) t)
        (c_string-append (text_of ps) [] clean)
        (printf-vsprintf (format_of ps) (args_of ps) (text_of ps) (vsprintf_lem ps) short)

  -- `puts` shows the string and a newline.
  pub puts_lem :
      (str : List ℕ)
      → (t : Tty) × Returns i (length str + 1) t (puts (some str) (i, s))
        × Prints tty_color_screen s (ints str true) t
  unfolding puts tty_puts
  puts_lem str = tty_puts_color_lem str tty_color_screen true s sync on
