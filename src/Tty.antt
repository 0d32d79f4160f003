-- ===== src/Tty.antt =====
-- kernel/arch/i386/tty.c and kernel/include/kernel/tty.h: the text console. A string of C is its
-- bytes before the zero that ends it.
pub mod Screen
pub mod Rows
pub mod Put
pub mod Text
pub mod Remap
mod Examples
use treeos.Base.{
  ℕ, zero, suc, ◌+◌, ◌-◌, ◌*◌, ◌/◌, ◌^◌, ◌%◌, bit_or, Bool, true, false, not, ◌&&◌, Option, none,
  some, List, [], ◌∷◌, ◌++◌, Result, ok, fault, panicked, ◌>>=◌, ◌>>◌, ◌==◌, if◌then◌else◌, leb,
  ltb, length, u8, u16, u32, add32, sub32,
}
use treeos.Frames.{page_size}
use treeos.Paging.{Memory}
use treeos.Paging.Range.{map_pages, unmap_pages}
use treeos.Interrupt.{Interrupts, critical, worry}

abbrev pub vga_width : ℕ
vga_width = 80

abbrev pub vga_height : ℕ
vga_height = 24

abbrev pub tty_color_screen : ℕ
tty_color_screen = 0x1f

-- The cells from `VGA_TEXT_BUFFER_START` to `VGA_TEXT_BUFFER_END`, of two bytes each.
abbrev pub text_cells : ℕ
text_cells = (0xbffff + 1 - 0xb8000) / 2

-- The static variables, the cells of video memory by their index from `tty_buf`, and what was sent
-- to the ports of the controller.
pub record Tty : Type 0 where
  pub tty_row : ℕ
  pub tty_col : ℕ
  pub cells : ℕ → ℕ
  pub ports : List (ℕ × ℕ)

abbrev pub put : ℕ → ℕ → (ℕ → ℕ) → ℕ → ℕ
put at v f a = if a == at then v else f a

-- `tty_buf[at] = v;`, which faults outside video memory.
abbrev pub write_cell : ℕ → ℕ → Tty → Result Tty
write_cell at v s = if ltb at text_cells then ok (record s { cells = put at v s.cells }) else fault

abbrev pub clear_char : ℕ
clear_char = bit_or 0x20 (u16 (tty_color_screen * 2 ^ 8))

unfoldable pub update_cursor : Interrupts × Tty → Result (Unit {0} × (Interrupts × Tty))
update_cursor (i, s) =
    critical
      (λ (i, s).
        let current_location = u16 (s.tty_row * vga_width + s.tty_col) in
        ok (
          tt,
          (
            i,
            record s {
              ports =
                  s.ports
                  ++ (0x3d4, 14)
                    ∷ (0x3d5, u8 (current_location / 2 ^ 8))
                    ∷ (0x3d4, 15)
                    ∷ (0x3d5, u8 current_location)
                    ∷ [];
            },
          ),
        ))
      (i, s)

-- The loop of `scroll` that moves the lines up, with `left` cells to go from `line` on. It reads the
-- line below the last, which video memory still has.
unfoldable pub move_up : ℕ → ℕ → (ℕ → ℕ) → ℕ → ℕ
move_up zero line cells = cells
move_up (suc left) line cells = move_up left (line + 1) (put line (cells (line + vga_width)) cells)

-- `left` blank cells from `x` on.
unfoldable pub blank : ℕ → ℕ → (ℕ → ℕ) → ℕ → ℕ
blank zero x cells = cells
blank (suc left) x cells = blank left (x + 1) (put x clear_char cells)

unfoldable pub scroll : Interrupts × Tty → Result (Unit {0} × (Interrupts × Tty))
scroll (i, s) =
    critical
      (λ (i, s). ok (
        tt,
        (
          i,
          record s {
            cells =
                blank vga_width (vga_width * (vga_height - 1))
                  (move_up (vga_width * vga_height) 0 s.cells);
            tty_row = sub32 s.tty_row 1;
          },
        ),
      ))
      (i, s)

-- The two loops of `tty_clear`, `rows` of them to go from row `y` on.
unfoldable pub blank_rows : ℕ → ℕ → (ℕ → ℕ) → ℕ → ℕ
blank_rows zero y cells = cells
blank_rows (suc rows) y cells = blank_rows rows (y + 1) (blank vga_width (y * vga_width) cells)

unfoldable pub tty_clear : Interrupts × Tty → Result (Unit {0} × (Interrupts × Tty))
tty_clear (i, s) =
    critical
      (λ (i, s). do
        (x, (i, s)) ← update_cursor (i, record s { tty_row = 0; tty_col = 0 })
        ok (tt, (i, record s { cells = blank_rows vga_height 0 s.cells })))
      (i, s)

-- `if (++tty_row == VGA_HEIGHT) scroll ();`.
unfoldable pub next_row : Interrupts × Tty → Result (Unit {0} × (Interrupts × Tty))
next_row (i, s) =
    let s' : Tty = record s { tty_row = add32 s.tty_row 1 } in
    if s'.tty_row == vga_height then scroll (i, s') else ok (tt, (i, s'))

-- The switch of `tty_putchar_color`.
unfoldable pub place_char :
    (c encoded_char : ℕ) → Interrupts × Tty → Result (Unit {0} × (Interrupts × Tty))
place_char c encoded_char (i, s) =
    if c == 10
    then next_row (i, record s { tty_col = 0 })
    else if c == 9
    then (let s' : Tty = record s { tty_col = add32 s.tty_col 4 } in
        if leb vga_width s'.tty_col
        then next_row (i, record s' { tty_col = 0 })
        else ok (tt, (i, s')))
    else (write_cell (u32 (s.tty_row * vga_width + s.tty_col)) encoded_char s >>= λ s.
        let s' : Tty = record s { tty_col = add32 s.tty_col 1 } in
        if s'.tty_col == vga_width
        then next_row (i, record s' { tty_col = 0 })
        else ok (tt, (i, s')))

-- `c` is the `int` as its 32 bits.
unfoldable pub tty_putchar_color :
    (c color : ℕ) → Interrupts × Tty → Result (ℕ × (Interrupts × Tty))
tty_putchar_color c color (i, s) =
    critical
      (λ (i, s). do
        (x, (i, s)) ← place_char c (bit_or (u16 c) (u16 (color * 2 ^ 8))) (i, s)
        (x, (i, s)) ← update_cursor (i, s)
        ok (c, (i, s)))
      (i, s)

unfoldable pub tty_putchar : ℕ → Interrupts × Tty → Result (ℕ × (Interrupts × Tty))
tty_putchar c k = tty_putchar_color c tty_color_screen k

-- A `char` as an `int`: the sign is extended.
abbrev pub char_to_int : ℕ → ℕ
char_to_int b = if ltb b 128 then b else b + 2 ^ 32 - 2 ^ 8

unfoldable pub put_all : List ℕ → ℕ → Interrupts × Tty → Result (Interrupts × Tty)
put_all [] color k = ok k
put_all (b ∷ bs) color k = do (c, k) ← tty_putchar_color (char_to_int b) color k; put_all bs color k

-- `none` is a null pointer.
unfoldable pub tty_puts_color :
    Option (List ℕ)
    → (color : ℕ) (newline : Bool) → Interrupts × Tty
    → Result (ℕ × (Interrupts × Tty))
tty_puts_color none color newline (i, s) =
    critical (λ (i, s). panicked "KASSERT failed: str != NULL") (i, s)
tty_puts_color (some str) color newline (i, s) =
    critical
      (λ k. do
        k ← put_all str color k
        k ← (if newline then (tty_putchar_color 10 color k >>= λ (c, k). ok k) else ok k)
        ok (length str + (if newline then 1 else 0), k))
      (i, s)

unfoldable pub tty_puts :
    Option (List ℕ) → Bool → Interrupts × Tty → Result (ℕ × (Interrupts × Tty))
tty_puts str newline k = tty_puts_color str tty_color_screen newline k

-- `initialized` is the function's own static variable, and `worry` is the kernel's.
unfoldable pub tty_init :
    (initialized : Bool) → Interrupts × Tty → Result (Unit {0} × (Interrupts × Tty))
tty_init initialized (i, s) =
    tty_clear (if initialized then worry "tty driver is already initialized" i else i, s)

abbrev pub io_mmap_high_offset : ℕ
io_mmap_high_offset = 0xf0000000

-- The pages of the text buffer: its end less its start, rounded up.
abbrev pub text_pages : ℕ
text_pages = (0xbffff - 0xb8000 + page_size - 1) / page_size

-- The address `tty_buf` points to is passed in, and the new one is returned; the cells behind it are
-- those of the same frames.
unfoldable pub tty_remap : (tty_buf : ℕ) → Memory → Result (ℕ × Memory)
tty_remap tty_buf m = do
  let high = add32 tty_buf io_mmap_high_offset
  m ← map_pages true false text_pages 0 tty_buf high m
  m ← unmap_pages text_pages 0 tty_buf m
  ok (high, m)
