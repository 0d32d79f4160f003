-- ===== src/Tty/Put.antt =====
-- One character on the screen.
use treeos.Base.{
  ℕ, ◌+◌, ◌*◌, ◌/◌, ◌%◌, ◌^◌, ◌<◌, ◌≡◌, refl, arith, true, List, ◌++◌, ◌==◌, if◌then◌else◌, leb,
  bit_or, u8, u16, u32, add32, ap, subst, lt→ltb, inl, inr, Bool-cases, le→ltb_false,
}
use treeos.Interrupt.{Interrupts}
use treeos.Interrupt.Mask.{InSync}
use treeos.Interrupt.Critical.{Returns, critical_lem, same_trans}
use treeos.Tty.{Tty, put, place_char, update_cursor, tty_putchar_color}
use treeos.Tty.Rows.{
  position, OnScreen, written, target, cursor, Settles, after_row, next_row_lem, stays,
  after_row-Settles,
}

-- The switch of `tty_putchar_color`, without the regions and on a position that is on the screen.
placed : (c e : ℕ) → Tty → Tty
placed c e s =
    if c == 10
    then after_row (record s { tty_col = 0 })
    else if c == 9
    then (if leb 80 (s.tty_col + 4)
        then after_row (record s { tty_col = 0 })
        else record s { tty_col = s.tty_col + 4 })
    else if s.tty_col + 1 == 80
    then after_row (record s { cells = put (position s) e s.cells; tty_col = 0 })
    else record s { cells = put (position s) e s.cells; tty_col = s.tty_col + 1 }

after_row-ports : (s : Tty) → (after_row s).ports ≡ s.ports
unfolding after_row
after_row-ports s = elim (Bool-cases (s.tty_row + 1 == 24)) [
  | inl t ↦ rw t refl
  | inr f ↦ rw f refl
]

placed-ports : (c e : ℕ) (s : Tty) → (placed c e s).ports ≡ s.ports
unfolding placed
placed-ports c e s = elim (Bool-cases (c == 10)) [
  | inl t ↦ rw t (after_row-ports (record s { tty_col = 0 }))
  | inr f ↦ rw f (elim (Bool-cases (c == 9)) [
    | inl t ↦ rw t (elim (Bool-cases (leb 80 (s.tty_col + 4))) [
      | inl u ↦ rw u (after_row-ports (record s { tty_col = 0 }))
      | inr v ↦ rw v refl
    ])
    | inr g ↦ rw g (elim (Bool-cases (s.tty_col + 1 == 80)) [
      | inl u ↦
          rw u (after_row-ports (record s { cells = put (position s) e s.cells; tty_col = 0 }))
      | inr v ↦ rw v refl
    ])
  ])
]

module _ (c e : ℕ) (s : Tty) (on : OnScreen s) where
  row : s.tty_row < 24
  row = on.0

  col : s.tty_col < 80
  col = on.1

  place_char_lem : {i : Interrupts} → InSync i → Returns i tt (placed c e s) (place_char c e (i, s))
  unfolding place_char placed
  place_char_lem {i} sync = elim (Bool-cases (c == 10)) [
    | inl t ↦ rw t (next_row_lem (record s { tty_col = 0 }) sync row)
    | inr f ↦ rw f (elim (Bool-cases (c == 9)) [
      | inl t ↦
          rw (t, four s.tty_col col)
            (elim (Bool-cases (leb 80 (s.tty_col + 4))) [
              | inl u ↦ rw u (next_row_lem (record s { tty_col = 0 }) sync row)
              | inr v ↦ rw v record { after = i; returns = refl; sync = sync; same = refl }
            ])
      | inr g ↦
          rw
            (
              g,
              flat s.tty_row s.tty_col row col,
              lt→ltb (s.tty_row * 80 + s.tty_col) 16384 (omega (arith, row, col)),
              one s.tty_col col,
            )
            (elim (Bool-cases (s.tty_col + 1 == 80)) [
              | inl u ↦ rw u (
                  next_row_lem (record s { cells = put (position s) e s.cells; tty_col = 0 }) sync
                    row)
              | inr v ↦ rw v record { after = i; returns = refl; sync = sync; same = refl }
            ])
    ])
  ]
    where
      four : (n : ℕ) → n < 80 → add32 n 4 ≡ n + 4
      four n h = omega arith

      one : (n : ℕ) → n < 80 → add32 n 1 ≡ n + 1
      one n h = omega arith

      flat : (m n : ℕ) → m < 24 → n < 80 → u32 (m * 80 + n) ≡ m * 80 + n
      flat m n h h' = omega arith

  placed_lem : Settles (target c s) (written c e s) (placed c e s)
  unfolding placed
  placed_lem = elim (Bool-cases (c == 10)) [
    | inl t ↦ rw t (after_row-Settles (record s { tty_col = 0 }) row refl)
    | inr f ↦ rw f (elim (Bool-cases (c == 9)) [
      | inl t ↦ rw t (elim (Bool-cases (leb 80 (s.tty_col + 4))) [
        | inl u ↦
            rw (u, le→ltb_false (s.tty_col + 4) 80 (ground (arith, u)))
              (after_row-Settles (record s { tty_col = 0 }) row refl)
        | inr v ↦
            rw (v, lt→ltb (s.tty_col + 4) 80 (ground (arith, v)))
              (stays (position s + 4) (record s { tty_col = s.tty_col + 4 }) row (ground (arith, v))
                (omega arith))
      ])
      | inr g ↦ rw g (elim (Bool-cases (s.tty_col + 1 == 80)) [
        | inl u ↦ rw u (
            subst
              (λ (p : ℕ).
                Settles p (put (position s) e s.cells)
                  (after_row (record s { cells = put (position s) e s.cells; tty_col = 0 })))
              (line_end u)
              (after_row-Settles (record s { cells = put (position s) e s.cells; tty_col = 0 }) row
                refl))
        | inr v ↦ rw v (
            stays (position s + 1)
              (record s { cells = put (position s) e s.cells; tty_col = s.tty_col + 1 }) row
              (ground (arith, v, col)) (omega arith))
      ])
    ])
  ]
    where
      line_end : (s.tty_col + 1 == 80) ≡ true → (s.tty_row + 1) * 80 ≡ position s + 1
      line_end h = ground arith

pub update_cursor_lem :
    {i : Interrupts} (s : Tty)
    → InSync i
    → OnScreen s
    → Returns i tt (record s { ports = s.ports ++ cursor (position s) }) (update_cursor (i, s))
unfolding update_cursor
update_cursor_lem s sync on = critical_lem _ s sync λ j synced. record {
  after = j;
  returns =
      rw
        (
          high (position s) (omega (arith, on.0, on.1)),
          low (position s) (omega (arith, on.0, on.1)),
        )
        refl;
  sync = synced;
  same = refl;
}
  where
    high : (p : ℕ) → p < 1920 → u8 (u16 p / 2 ^ 8) ≡ p / 2 ^ 8
    high p h = omega arith

    low : (p : ℕ) → p < 1920 → u8 (u16 p) ≡ p % 2 ^ 8
    low p h = omega arith

-- The character and its colour in one cell.
abbrev pub encoded : (c color : ℕ) → ℕ
encoded c color = bit_or (u16 c) (u16 (color * 2 ^ 8))

-- `t` is `s` after one character.
pub record Shows (c color : ℕ) (s t : Tty) : Type 0 where
  pub settles : Settles (target c s) (written c (encoded c color) s) t
  pub cursor_follows : t.ports ≡ s.ports ++ cursor (position t)

pub shown : (c color : ℕ) → Tty → Tty
shown c color s = record (placed c (encoded c color) s) {
  ports = (placed c (encoded c color) s).ports ++ cursor (position (placed c (encoded c color) s));
}

module _ (c color : ℕ) (s : Tty) (on : OnScreen s) where
  pub putchar-Returns :
      {i : Interrupts} → InSync i → Returns i c (shown c color s) (tty_putchar_color c color (i, s))
  unfolding tty_putchar_color shown
  putchar-Returns sync = critical_lem _ s sync (λ j synced.
      let a = place_char_lem c (encoded c color) s on synced in
      let b =
        update_cursor_lem (placed c (encoded c color) s) a.sync
          (placed_lem c (encoded c color) s on).on_screen in
      record {
        after = b.after;
        returns = rw (a.returns, b.returns) refl;
        sync = b.sync;
        same = same_trans j a.after b.after a.same b.same;
      })

  pub shown-Shows : Shows c color s (shown c color s)
  unfolding shown
  shown-Shows =
      let p = placed_lem c (encoded c color) s on in
      record {
        settles = record { screen = p.screen; at = p.at; on_screen = p.on_screen };
        cursor_follows =
            ap (λ (ps : List (ℕ × ℕ)). ps ++ cursor (position (placed c (encoded c color) s)))
              (placed-ports c (encoded c color) s);
      }

  -- On a position of the screen, every character leaves one. A printable character is written there
  -- with its colour and the position moves on; a newline goes to the next row, a tab four cells on or,
  -- past the line's end, to the next row; past the last cell the screen scrolls by a line. The cursor
  -- follows, and the character is returned.
  pub tty_putchar_color_lem :
      {i : Interrupts}
      → InSync i
      → (t : Tty) × Returns i c t (tty_putchar_color c color (i, s)) × Shows c color s t
  tty_putchar_color_lem sync = (shown c color s, putchar-Returns sync, shown-Shows)
