-- ===== src/Examples/Console.antt =====
-- The console at work on sample states.
use chp_os.Base.{ℕ, ◌*◌, ◌+◌, ◌/◌, ◌%◌, ◌≡◌, refl, arith, List, [], ◌∷◌}
use chp_os.Tty.{Tty, vga_cols, tty_putc, tty_puts, tty_set_fg, tty_set_bg}
use chp_os.Tty.Cells.{cell_at}
use chp_os.Tty.Bounds.{IsValid}
use chp_os.Tty.Colors.{tty_set_color}
use chp_os.Tty.Screen
use chp_os.Tty.Screen.{Screen}
use chp_os.Tty.Refine.{Shows, tty_putc-Shows}
use chp_os.Tty.Output.{AreBytes, IsText, Simulates, put_all-Simulates, tty_puts-Shows}
use chp_os.Tty.Chart.{chart, tty_ascii_printable_table-prints}
use chp_os.Tty.Colormap.{paint, colormap, tty_print_colormap-Simulates}
use chp_os.Tty.Tables.{tty_print_colormap, tty_ascii_printable_table, put_all}
use chp_os.Examples.{sample_tty, last_cell_tty}

-- The screen that a console state shows.
abbrev screen_of : Tty → Screen
screen_of t = record { grid = λ r c. cell_at t.mem (vga_cols * r + c); row = t.row; col = t.col }

screen_of-Shows : (t : Tty) → Shows t (screen_of t)
screen_of-Shows t = record { same_row = refl; same_col = refl; same_cells = λ r c hr hc. refl }

last_cell_tty-IsValid : IsValid last_cell_tty
last_cell_tty-IsValid = record {
  col_in = omega arith;
  row_in = omega arith;
  color_in = omega arith;
}

sample_tty-IsValid : IsValid sample_tty
sample_tty-IsValid = record { col_in = omega arith; row_in = omega arith; color_in = omega arith }

-- The character after which the screen scrolls.
tty_putc-Shows_example :
    Shows (tty_putc b'x' last_cell_tty) (Screen.putc 0x0f b'x' (screen_of last_cell_tty))
tty_putc-Shows_example =
    tty_putc-Shows last_cell_tty-IsValid (screen_of-Shows last_cell_tty) b'x' (omega arith)

abbrev two_lines : List ℕ
two_lines = b'a' ∷ b'\n' ∷ b'b' ∷ []

two_lines-IsText : IsText two_lines
two_lines-IsText = ground arith

tty_puts-Shows_example :
    Shows (tty_puts two_lines last_cell_tty) (Screen.puts 0x0f two_lines (screen_of last_cell_tty))
tty_puts-Shows_example =
    tty_puts-Shows two_lines two_lines-IsText last_cell_tty-IsValid (screen_of-Shows last_cell_tty)

last_cell_tty-Simulates : Simulates 0x0f last_cell_tty (screen_of last_cell_tty)
last_cell_tty-Simulates = record {
  valid = last_cell_tty-IsValid;
  same_color = refl;
  shows = screen_of-Shows last_cell_tty;
}

-- A letter, a byte that is no ASCII character, and a zero.
abbrev three_bytes : List ℕ
three_bytes = b'a' ∷ 200 ∷ 0 ∷ []

three_bytes-AreBytes : AreBytes three_bytes
three_bytes-AreBytes = ground arith

put_all-Simulates_example :
    Simulates 0x0f
      (put_all three_bytes last_cell_tty)
      (Screen.puts 0x0f three_bytes (screen_of last_cell_tty))
put_all-Simulates_example =
    put_all-Simulates three_bytes 0x0f three_bytes-AreBytes last_cell_tty-Simulates

tty_print_colormap-Simulates_example :
    Simulates 0x0f
      (tty_print_colormap last_cell_tty)
      (paint (colormap 0x0f) (screen_of last_cell_tty))
tty_print_colormap-Simulates_example =
    tty_print_colormap-Simulates last_cell_tty-IsValid (screen_of-Shows last_cell_tty)

tty_ascii_printable_table-prints_example :
    tty_ascii_printable_table last_cell_tty ≡ put_all chart last_cell_tty
tty_ascii_printable_table-prints_example = tty_ascii_printable_table-prints last_cell_tty

tty_set_color_example :
    ((tty_set_fg 0x15 sample_tty).color ≡ 0x0f / 16 * 16 + 0x15 % 16)
    × ((tty_set_bg 0x15 sample_tty).color ≡ 0x15 % 16 * 16 + 0x0f % 16)
tty_set_color_example = tty_set_color 0x15 sample_tty (omega arith)
