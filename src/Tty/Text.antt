-- ===== src/Tty/Text.antt =====
-- Strings on the screen, and the empty screen.
use treeos.Base.{
  ℕ, ◌+◌, ◌≡◌, refl, arith, Bool, true, false, some, List, [], ◌∷◌, ◌++◌, Result, ok, ◌>>=◌,
  if◌then◌else◌, ltb, ◌∙◌, length,
}
use treeos.Interrupt.{Interrupts}
use treeos.Interrupt.Mask.{InSync}
use treeos.Interrupt.Critical.{Returns, critical_lem, same_trans}
use treeos.Tty.{
  Tty, clear_char, tty_putchar_color, put_all, tty_puts_color, tty_clear, blank_rows, char_to_int,
}
use treeos.Tty.Screen.{blank_rows_lem}
use treeos.Tty.Rows.{OnScreen, cursor}
use treeos.Tty.Put.{Shows, shown, shown-Shows, putchar-Returns, update_cursor_lem}

-- The characters of `cs` take `s` to `t`, one after the other.
pub data Prints (color : ℕ) : Tty → List ℕ → Tty → Type 0 where
  done : {s : Tty} → Prints color s [] s
  next :
      {s u : Tty} {c : ℕ} {cs : List ℕ} (t : Tty)
      → Shows c color s t
      → Prints color t cs u
      → Prints color s (c ∷ cs) u

shown_all : List ℕ → ℕ → Tty → Tty
shown_all [] color s = s
shown_all (b ∷ bs) color s = shown_all bs color (shown (char_to_int b) color s)

-- The characters of a string as `int`, and the newline if there is one.
abbrev pub ints : List ℕ → Bool → List ℕ
ints [] newline = if newline then 10 ∷ [] else []
ints (b ∷ bs) newline = char_to_int b ∷ ints bs newline

last_char : Bool → ℕ → Tty → Tty
last_char newline color s = if newline then shown 10 color s else s

module _ (color : ℕ) (newline : Bool) where
  shown_all-Prints :
      (bs : List ℕ) (s : Tty)
      → OnScreen s
      → Prints color s (ints bs newline) (last_char newline color (shown_all bs color s))
  unfolding shown_all last_char
  shown_all-Prints [] s on = ends newline
    where
      ends :
          (b : Bool)
          → Prints color s (if b then 10 ∷ [] else []) (if b then shown 10 color s else s)
      ends true = next (shown 10 color s) (shown-Shows 10 color s on) done
      ends false = done
  shown_all-Prints (b ∷ bs) s on =
      let t = shown (char_to_int b) color s in
      let shows = shown-Shows (char_to_int b) color s on in
      next t shows (shown_all-Prints bs t shows.settles.on_screen)

-- What `put_all` does to both states.
record Puts (i : Interrupts) (t : Tty) (result : Result (Interrupts × Tty)) : Type 0 where
  after : Interrupts
  returns : result ≡ ok (after, t)
  sync : InSync after
  same : record after { ports = i.ports } ≡ i
  on_screen : OnScreen t

put_all_lem :
    (bs : List ℕ) (color : ℕ) (s : Tty) {i : Interrupts}
    → InSync i
    → OnScreen s
    → Puts i (shown_all bs color s) (put_all bs color (i, s))
unfolding put_all shown_all
put_all_lem [] color s {i} sync on = record {
  after = i;
  returns = refl;
  sync = sync;
  same = refl;
  on_screen = on;
}
put_all_lem (b ∷ bs) color s {i} sync on =
    let r = putchar-Returns (char_to_int b) color s on sync in
    let rest =
      put_all_lem bs color (shown (char_to_int b) color s) r.sync
        (shown-Shows (char_to_int b) color s on).settles.on_screen in
    record {
      after = rest.after;
      returns = rw r.returns rest.returns;
      sync = rest.sync;
      same = same_trans i r.after rest.after r.same rest.same;
      on_screen = rest.on_screen;
    }

-- A string that is not null is written character by character, with its newline if one is asked
-- for, and the number of the characters is returned.
pub tty_puts_color_lem :
    (str : List ℕ) (color : ℕ) (newline : Bool) (s : Tty) {i : Interrupts}
    → InSync i
    → OnScreen s
    → (t : Tty) × Returns i
        (length str + (if newline then 1 else 0))
        t
        (tty_puts_color (some str) color newline (i, s))
      × Prints color s (ints str newline) t
unfolding tty_puts_color last_char
tty_puts_color_lem str color newline s {i} sync on = (
  last_char newline color (shown_all str color s),
  critical_lem _ s sync (λ j synced. closes newline j (put_all_lem str color s synced on)),
  shown_all-Prints color newline str s on,
)
  where
    closes :
        (newline : Bool) (j : Interrupts)
        → Puts j (shown_all str color s) (put_all str color (j, s))
        → Returns j
            (length str + (if newline then 1 else 0))
            (last_char newline color (shown_all str color s))
            (put_all str color (j, s) >>= λ k.
              (if newline then (tty_putchar_color 10 color k >>= λ (c, k). ok k) else ok k) >>= λ k.
              ok (length str + (if newline then 1 else 0), k))
    closes true j p =
        let r = putchar-Returns 10 color (shown_all str color s) p.on_screen p.sync in
        record {
          after = r.after;
          returns = rw (p.returns, r.returns) refl;
          sync = r.sync;
          same = same_trans j p.after r.after p.same r.same;
        }
    closes false j p = record {
      after = p.after;
      returns = rw p.returns refl;
      sync = p.sync;
      same = p.same;
    }

-- Clearing blanks the 24 lines of 80 cells, no others, and puts the position and the cursor at their
-- start.
pub tty_clear_lem :
    (s : Tty) {i : Interrupts}
    → InSync i
    → (t : Tty) × Returns i tt t (tty_clear (i, s))
      × (t.tty_row ≡ 0)
      × (t.tty_col ≡ 0)
      × ((a : ℕ) → t.cells a ≡ (if ltb a 1920 then clear_char else s.cells a))
      × (t.ports ≡ s.ports ++ cursor 0)
unfolding tty_clear
tty_clear_lem s {i} sync = (
  record s {
    tty_row = 0;
    tty_col = 0;
    cells = blank_rows 24 0 s.cells;
    ports = s.ports ++ cursor 0;
  },
  critical_lem _ s sync (λ j synced.
      let r =
        update_cursor_lem (record s { tty_row = 0; tty_col = 0 }) synced
          (omega arith, omega arith) in
      record { after = r.after; returns = rw r.returns refl; sync = r.sync; same = r.same }),
  refl,
  refl,
  λ a. blank_rows_lem 24 0 s.cells a ∙ ground arith,
  refl,
)
