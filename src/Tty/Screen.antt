-- ===== src/Tty/Screen.antt =====
-- The loops over video memory.
use treeos.Base.{ℕ, zero, suc, ◌+◌, ◌*◌, ◌≡◌, arith, Bool, ◌&&◌, if◌then◌else◌, leb, ltb, ◌∙◌}
use treeos.Tty.{move_up, blank, blank_rows, put, clear_char, vga_width}

-- `lo <= a && a < hi`.
abbrev pub within : ℕ → ℕ → ℕ → Bool
within lo hi a = leb lo a && ltb a hi

-- The cells from `line` on hold what was a line below them.
pub move_up_lem :
    (left line : ℕ) (cells : ℕ → ℕ) (a : ℕ)
    → move_up left line cells a ≡ (if within line (line + left) a then cells (a + 80) else cells a)
unfolding move_up
move_up_lem zero line cells a = ground arith
move_up_lem (suc left) line cells a =
    move_up_lem left (line + 1) (put line (cells (line + vga_width)) cells) a ∙ ground arith

pub blank_lem :
    (left x : ℕ) (cells : ℕ → ℕ) (a : ℕ)
    → blank left x cells a ≡ (if within x (x + left) a then clear_char else cells a)
unfolding blank
blank_lem zero x cells a = ground arith
blank_lem (suc left) x cells a = blank_lem left (x + 1) (put x clear_char cells) a ∙ ground arith

pub blank_rows_lem :
    (rows y : ℕ) (cells : ℕ → ℕ) (a : ℕ)
    → blank_rows rows y cells a
      ≡ (if within (y * 80) ((y + rows) * 80) a then clear_char else cells a)
unfolding blank_rows
blank_rows_lem zero y cells a = ground arith
blank_rows_lem (suc rows) y cells a =
    rw (blank_rows_lem rows (y + 1) (blank 80 (y * 80) cells) a, blank_lem 80 (y * 80) cells a)
      (ground arith)
