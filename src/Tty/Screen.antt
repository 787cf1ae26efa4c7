-- ===== src/Tty/Screen.antt =====
-- What the console promises: a grid of 25 rows of 80 cells with a cursor, written like a teletype.
use chp_os.Base.{ℕ, ◌+◌, ◌-◌, List, [], ◌∷◌, ◌==◌, ltb, if◌then◌else◌, ◌&&◌}
use chp_os.Tty.{vga_cols, vga_rows}
use chp_os.Tty.Colors.{glyph}

pub record Screen : Type 0 where
  pub grid : ℕ → ℕ → ℕ
  pub row : ℕ
  pub col : ℕ

-- To the start of the next row; at the last one the screen moves up by a row.
unfoldable pub next_line : (blank : ℕ) → Screen → Screen
next_line blank s =
    if s.row == vga_rows - 1
    then record s { grid = λ r c. if r == vga_rows - 1 then blank else s.grid (r + 1) c; col = 0 }
    else record s { row = s.row + 1; col = 0 }

-- The cell at the cursor replaced.
unfoldable pub written : (cell : ℕ) → Screen → Screen
written cell s = record s {
  grid = λ r c. if (r == s.row) && (c == s.col) then cell else s.grid r c;
}

-- A cell at the cursor, which moves on.
unfoldable pub write : (blank cell : ℕ) → Screen → Screen
write blank cell s =
    if s.col == vga_cols - 1
    then next_line blank (written cell s)
    else record (written cell s) { col = s.col + 1 }

-- What a byte looks like in a colour: from 128 on the attribute is 255 whatever the colour is.
unfoldable pub cell : (color c : ℕ) → ℕ
cell color c = if ltb c 128 then glyph color c else glyph 255 c

unfoldable pub putc : (color c : ℕ) → Screen → Screen
putc color c s =
    if c == b'\n' then next_line (glyph color b' ') s else write (glyph color b' ') (cell color c) s

unfoldable pub puts : (color : ℕ) → List ℕ → Screen → Screen
puts color [] s = s
puts color (c ∷ cs) s = puts color cs (putc color c s)

-- The screen after `tty_init`.
abbrev pub empty : (color : ℕ) → Screen
empty color = record { grid = λ r c. glyph color b' '; row = 0; col = 0 }
