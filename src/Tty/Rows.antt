-- ===== src/Tty/Rows.antt =====
-- Positions on the screen, and the move to the next row.
use treeos.Base.{
  ℕ, ◌+◌, ◌*◌, ◌/◌, ◌%◌, ◌^◌, ◌<◌, ◌≡◌, refl, arith, ◌||◌, List, [], ◌∷◌, ◌==◌, if◌then◌else◌, ltb,
  ◌∙◌, add32, sub32, fun_ext, subst, eq→==, ne→==_false, inl, inr, Bool-cases,
}
use treeos.Interrupt.{Interrupts}
use treeos.Interrupt.Mask.{InSync}
use treeos.Interrupt.Critical.{Returns, critical_lem}
use treeos.Tty.{Tty, move_up, blank, put, clear_char, scroll, next_row}
use treeos.Tty.Screen.{move_up_lem, blank_lem}

-- The position as an offset in the screen.
abbrev pub position : Tty → ℕ
position s = s.tty_row * 80 + s.tty_col

abbrev pub OnScreen : Tty → Type 0
OnScreen s = (s.tty_row < 24) × (s.tty_col < 80)

-- The screen one line up, with a blank last line; what is below the screen stays.
abbrev pub scrolled : (ℕ → ℕ) → ℕ → ℕ
scrolled cells a = if ltb a 1840 then cells (a + 80) else if ltb a 1920 then clear_char else cells a

-- What a character writes, and the position that it asks for.
abbrev pub written : (c encoded_char : ℕ) → Tty → ℕ → ℕ
written c e s = if (c == 10) || (c == 9) then s.cells else put (position s) e s.cells

abbrev pub target : ℕ → Tty → ℕ
target c s =
    if c == 10
    then (s.tty_row + 1) * 80
    else if c == 9
    then (if ltb (s.tty_col + 4) 80 then position s + 4 else (s.tty_row + 1) * 80)
    else position s + 1

-- The bytes that set the cursor.
abbrev pub cursor : ℕ → List (ℕ × ℕ)
cursor at = (0x3d4, 14) ∷ (0x3d5, at / 2 ^ 8) ∷ (0x3d4, 15) ∷ (0x3d5, at % 2 ^ 8) ∷ []

-- `t` has the screen `cells` and the position `p`; past the last cell, the screen is scrolled and its
-- last line started.
pub record Settles (p : ℕ) (cells : ℕ → ℕ) (t : Tty) : Type 0 where
  pub screen : t.cells ≡ (if p == 1920 then scrolled cells else cells)
  pub at : position t ≡ (if p == 1920 then 1840 else p)
  pub on_screen : OnScreen t

scroll_cells : (cells : ℕ → ℕ) → blank 80 1840 (move_up 1920 0 cells) ≡ scrolled cells
scroll_cells cells =
    fun_ext
      λ a. blank_lem 80 1840 (move_up 1920 0 cells) a ∙ rw (move_up_lem 1920 0 cells a) ground arith

scroll_lem :
    {i : Interrupts} (s : Tty)
    → InSync i
    → Returns i tt
        (record s { cells = scrolled s.cells; tty_row = sub32 s.tty_row 1 })
        (scroll (i, s))
unfolding scroll
scroll_lem s sync = critical_lem _ s sync λ j synced. record {
  after = j;
  returns = rw (scroll_cells s.cells) refl;
  sync = synced;
  same = refl;
}

-- The next row, or the last one of a screen that moves up.
unfoldable pub after_row : Tty → Tty
after_row s =
    if s.tty_row + 1 == 24
    then record s { cells = scrolled s.cells }
    else record s { tty_row = s.tty_row + 1 }

pub next_row_lem :
    {i : Interrupts} (s : Tty)
    → InSync i
    → s.tty_row < 24
    → Returns i tt (after_row s) (next_row (i, s))
unfolding next_row after_row
next_row_lem {i} s sync h = rw (one_more s.tty_row h) (elim (Bool-cases (s.tty_row + 1 == 24)) [
  | inl t ↦ rw t (
      subst
        (λ (n : ℕ).
          Returns i tt (record s { cells = scrolled s.cells; tty_row = n })
            (scroll (i, record s { tty_row = s.tty_row + 1 })))
        (back s.tty_row h) (scroll_lem (record s { tty_row = s.tty_row + 1 }) sync))
  | inr f ↦ rw f record { after = i; returns = refl; sync = sync; same = refl }
])
  where
    one_more : (n : ℕ) → n < 24 → add32 n 1 ≡ n + 1
    one_more n h = omega arith

    back : (n : ℕ) → n < 24 → sub32 (n + 1) 1 ≡ n
    back n h = omega arith

Settles-past :
    (p : ℕ) (cells : ℕ → ℕ) (t : Tty)
    → p ≡ 1920
    → t.cells ≡ scrolled cells
    → position t ≡ 1840
    → OnScreen t
    → Settles p cells t
Settles-past p cells t e screen at on = record {
  screen = rw (eq→== p 1920 e) screen;
  at = rw (eq→== p 1920 e) at;
  on_screen = on;
}

pub stays :
    (p : ℕ) (s : Tty) → s.tty_row < 24 → s.tty_col < 80 → position s ≡ p → Settles p s.cells s
stays p s h h' e = record {
  screen = rw (ne→==_false p 1920 (omega (arith, h, h', e))) refl;
  at = rw (ne→==_false p 1920 (omega (arith, h, h', e))) e;
  on_screen = (h, h');
}

pub after_row-Settles :
    (s : Tty)
    → s.tty_row < 24
    → s.tty_col ≡ 0
    → Settles ((s.tty_row + 1) * 80) s.cells (after_row s)
unfolding after_row
after_row-Settles s h e = elim (Bool-cases (s.tty_row + 1 == 24)) [
  | inl t ↦ rw t (
      Settles-past ((s.tty_row + 1) * 80) s.cells (record s { cells = scrolled s.cells })
        (ground (arith, t)) refl (ground (arith, t, e)) (h, omega (arith, e)))
  | inr f ↦ rw f (
      stays ((s.tty_row + 1) * 80) (record s { tty_row = s.tty_row + 1 }) (ground (arith, f, h))
        (omega (arith, e)) (omega (arith, e)))
]
