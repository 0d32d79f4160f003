-- ===== src/Tty/Examples.antt =====
-- The console's functions on a screen, and their theorems there.
use treeos.Base.{
  Option, none, ℕ, ◌+◌, ◌≡◌, refl, arith, true, some, List, [], ◌∷◌, Result, ok, ◌>>=◌, replicate,
}
use treeos.Bitmap.{bitmap_test_bit}
use treeos.Paging.{walk, page_map, page_unmap}
use treeos.Paging.Range.{map_pages, unmap_pages}
use treeos.Interrupt.{
  Interrupts, driver, unexpected_int_handler, int_lock_region, int_unlock_region, int_irq_enabled,
  int_mask_irq, int_unmask_irq, set_raw_mask, critical,
}
use treeos.Interrupt.Mask.{InSync}
use treeos.Interrupt.Critical.{Returns}
use treeos.Tty.{
  tty_remap, Tty, tty_putchar_color, tty_puts_color, tty_puts, put_all, place_char, next_row,
  scroll, update_cursor,
}
use treeos.Paging.{virt_to_phys}
use treeos.Frames.{page_alloc}
use treeos.Bitmap.{bitmap_set_bit, bitmap_first_free}
use treeos.Tty.Remap.{Remaps, tty_remap_lem}
use treeos.Fixtures.Console.{boot_memory, used_words, high-IsSpace, buffer_mapped}
use treeos.Tty.Put.{Shows, tty_putchar_color_lem}

abbrev unmasked : Interrupts
unmasked = record {
  handler_table = replicate 49 unexpected_int_handler;
  irq_handler_list = (driver 1 ∷ []) ∷ replicate 15 [];
  irq_mask = 0xfffa;
  ports = (0x21, 0xfa) ∷ (0xa1, 0xff) ∷ [];
  worries = [];
}

unmasked-InSync : InSync unmasked
unmasked-InSync = record { fits = omega arith; master = refl; slave = refl }

-- The last cell of the screen is next.
abbrev full : Tty
full = record { tty_row = 23; tty_col = 79; cells = λ a. 0x1f00 + a; ports = [] }

abbrev typed : List ℕ → Result (ℕ × ℕ × ℕ)
typed str = do
  (n, (i, s)) ← tty_puts (some str) true (unmasked, record full { tty_row = 3; tty_col = 78 })
  ok (n, s.tty_row, s.tty_col)

three_letters : typed (65 ∷ 66 ∷ 67 ∷ []) ≡ ok (4, 5, 0)
unfolding tty_puts tty_puts_color put_all tty_putchar_color place_char next_row scroll update_cursor
    critical int_lock_region int_unlock_region int_irq_enabled int_mask_irq int_unmask_irq
    set_raw_mask
three_letters = refl

-- The buffer after `tty_remap`, and the frames of its first and last page and of the page that the kernel's
-- table has with the low page, which goes with it.
abbrev remapped : Result (ℕ × Option ℕ × Option ℕ × Option ℕ × Option ℕ)
remapped = do
  (buf, m) ← tty_remap 0xb8000 boot_memory
  ok (buf, walk m 0xf00b8, walk m 0xf00bf, walk m 0xb8, walk m 0xc00b8)

remapped_high : remapped ≡ ok (0xf00b8000, some 0xb8, some 0xbf, none, none)
unfolding tty_remap map_pages unmap_pages page_map page_unmap virt_to_phys page_alloc
    bitmap_test_bit bitmap_set_bit bitmap_first_free
remapped_high = refl

tty_remap_lem_example : Remaps 0xb8000 boot_memory used_words (tty_remap 0xb8000 boot_memory)
tty_remap_lem_example = tty_remap_lem 0xb8000 boot_memory used_words (record {
  small = omega arith;
  space = high-IsSpace;
  table = refl;
  no_table = refl;
  mapped = buffer_mapped;
})

tty_putchar_color_lem_example :
    (t : Tty) × Returns unmasked 65 t (tty_putchar_color 65 0x1f (unmasked, full))
    × Shows 65 0x1f full t
tty_putchar_color_lem_example =
    tty_putchar_color_lem 65 0x1f full (omega arith, omega arith) unmasked-InSync
