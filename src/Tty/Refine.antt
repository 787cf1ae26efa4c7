-- ===== src/Tty/Refine.antt =====
-- The console of tty.c behaves as the abstract screen.
use chp_os.Base.{
  ℕ, ◌+◌, ◌-◌, ◌*◌, ◌^◌, ◌<◌, ◌≡◌, ◌≢◌, refl, sym, arith, ◌∙◌, ◌==◌, leb, inl, inr, Bool-cases,
  ==→eq, true, false,
}
use native.Mathlib.Decide.{ℕ_discrete}
use chp_os.Tty.{
  Tty, vga_cols, vga_rows, set_cell, char_cell, put_char, wrap_row, scroll_past_end, tty_putc,
  get_blank, tty_init,
}
use chp_os.Tty.Cells.{
  cell_at, cell_at-set, get_blank-set, tty_scroll_up-cells, SameCursor, tty_scroll_up-SameCursor,
  tty_clear-cursor, tty_clear-cells,
}
use chp_os.Tty.Bounds.{IsValid, Draws-set_cell, Draws-tty_clear}
use chp_os.Tty.Colors.{glyph, get_blank-glyph}
use chp_os.Tty.Looks.{char_cell-shown, cell-lt}
use chp_os.Tty.Screen
use chp_os.Tty.Screen.{Screen}

-- The console state shows the screen.
pub record Shows (t : Tty) (s : Screen) : Type 0 where
  pub same_row : t.row ≡ s.row
  pub same_col : t.col ≡ s.col
  pub same_cells :
      (r c : ℕ) → r < vga_rows → c < vga_cols → cell_at t.mem (vga_cols * r + c) ≡ s.grid r c

-- One line down from row `row`, as the two tests of `tty_putc` make it.
abbrev line_down : Tty → Tty
line_down t = scroll_past_end (record t { col = 0; row = t.row + 1 })

module _ {t : Tty} {s : Screen} (v : IsValid t) (shows : Shows t s) (blank : ℕ)
    (is_blank : blank ≡ get_blank t) where
  next_line-above : s.row ≢ vga_rows - 1 → Shows (line_down t) (Screen.next_line blank s)
  unfolding scroll_past_end Screen.next_line
  next_line-above ne =
      let below : leb vga_rows (t.row + 1) ≡ false = ground (arith, shows.same_row) in
      let above : (s.row == vga_rows - 1) ≡ false = ground arith in
      rw (below, above)
        (record {
          same_row = omega (arith, shows.same_row);
          same_col = refl;
          same_cells = shows.same_cells;
        })

  next_line-last : s.row ≡ vga_rows - 1 → Shows (line_down t) (Screen.next_line blank s)
  unfolding scroll_past_end Screen.next_line
  next_line-last e =
      let past : leb vga_rows (t.row + 1) ≡ true = ground (arith, shows.same_row) in
      let last : (s.row == vga_rows - 1) ≡ true = ground arith in
      let back = record t { col = 0; row = t.row + 1 - 1 } in
      let cursor = tty_scroll_up-SameCursor back in
      let same_blank : get_blank back ≡ get_blank t = unfold get_blank in refl in
      rw (past, last)
        (record {
          same_row = omega (arith, shows.same_row, cursor);
          same_col = cursor.1;
          same_cells = λ r c hr hc. ground (
            arith,
            tty_scroll_up-cells back (vga_cols * r + c),
            shows.same_cells (r + 1) c,
            same_blank,
            is_blank,
            cell_shift r c,
          );
        })
    where
      cell_shift : (r c : ℕ) → vga_cols * r + c + vga_cols ≡ vga_cols * (r + 1) + c
      cell_shift r c = omega arith

  next_line-Shows : Shows (line_down t) (Screen.next_line blank s)
  next_line-Shows = elim (ℕ_discrete s.row (vga_rows - 1)) [
    | yes e ↦ next_line-last e
    | no ne ↦ next_line-above ne
  ]

-- The cell at the cursor, in the buffer and on the screen.
written-Shows :
    {t : Tty} {s : Screen} (cell : ℕ)
    → IsValid t
    → Shows t s
    → cell < 2 ^ 16
    → Shows (set_cell (vga_cols * t.row + t.col) cell t) (Screen.written cell s)
unfolding Screen.written
written-Shows {t} {s} cell v shows fits =
    let index = vga_cols * t.row + t.col in
    let keeps : SameCursor t (set_cell index cell t) = unfold set_cell in (refl, refl) in
    record {
      same_row = omega (arith, keeps, shows.same_row);
      same_col = omega (arith, keeps, shows.same_col);
      same_cells = λ r c hr hc. ground (
        arith,
        cell_at-set t index cell (vga_cols * r + c),
        shows.same_cells r c,
        shows.same_row,
        shows.same_col,
      );
    }

module _ {t : Tty} {s : Screen} (v : IsValid t) (shows : Shows t s) where
  newline-Shows : Shows (tty_putc b'\n' t) (Screen.putc t.color b'\n' s)
  unfolding tty_putc put_char wrap_row Screen.putc
  newline-Shows =
      let blank : glyph t.color b' ' ≡ get_blank t = sym (get_blank-glyph t v.color_in) in
      next_line-Shows v shows (glyph t.color b' ') blank

  -- After the write the cursor moves on, or a line down at the end of the row.
  advance-Shows :
      (blank cell : ℕ)
      → blank ≡ get_blank t
      → cell < 2 ^ 16
      → let t' = set_cell (vga_cols * t.row + t.col) cell t in
        Shows
          (scroll_past_end (wrap_row (record t' { col = t.col + 1 })))
          (Screen.write blank cell s)
  unfolding Screen.write wrap_row
  advance-Shows blank cell eb fits =
      let index = vga_cols * t.row + t.col in
      let t' = set_cell index cell t in
      let wrote = written-Shows cell v shows fits in
      let v' : IsValid t' = (Draws-set_cell {t = t} index cell (omega (arith, v)) v).valid in
      let row_in : leb vga_rows t'.row ≡ false = ground (arith, v'.row_in) in
      elim (ℕ_discrete t.col (vga_cols - 1)) [
        | yes e ↦
            let past : leb vga_cols (t.col + 1) ≡ true = ground arith in
            let last : (s.col == vga_cols - 1) ≡ true = ground (arith, shows.same_col) in
            rw (past, last) (next_line-Shows v' wrote blank (eb ∙ sym (get_blank-set t index cell)))
        | no ne ↦
            let inside : leb vga_cols (t.col + 1) ≡ false = ground (arith, v) in
            let before : (s.col == vga_cols - 1) ≡ false = ground (arith, shows.same_col) in
            rw (inside, before)
              (unfold scroll_past_end in
                rw row_in (record {
                  same_row = wrote.same_row;
                  same_col = omega (arith, shows.same_col);
                  same_cells = wrote.same_cells;
                }))
      ]

  -- Where a valid console shows a screen, printing a byte does to the console what it does to the
  -- screen: the byte is shown at the cursor, an ASCII character in the current colour and any other
  -- with the attribute 255; a newline or the end of a row moves the cursor to the next line, where
  -- the last row makes the screen scroll.
  pub tty_putc-Shows : (c : ℕ) → c < 2 ^ 8 → Shows (tty_putc c t) (Screen.putc t.color c s)
  unfolding tty_putc put_char Screen.putc
  tty_putc-Shows c byte = elim (Bool-cases (c == b'\n')) [
    | inl e ↦ rw (==→eq c b'\n' e) newline-Shows
    | inr ne ↦
        let shown : Screen.cell t.color c ≡ char_cell t.color c =
          sym (char_cell-shown t.color c v.color_in byte) in
        let blank : glyph t.color b' ' ≡ get_blank t = sym (get_blank-glyph t v.color_in) in
        rw (ne, ← shown)
          (advance-Shows (glyph t.color b' ') (Screen.cell t.color c) blank
            (cell-lt t.color c v.color_in byte))
  ]

-- From any state whose colour is a byte, `tty_init` leaves a valid console that shows an empty
-- screen in the current colour.
pub tty_init-Shows :
    (t : Tty) → t.color < 2 ^ 8 → IsValid (tty_init t) × Shows (tty_init t) (Screen.empty t.color)
unfolding tty_init
tty_init-Shows t h = (
  (Draws-tty_clear h).valid,
  record {
    same_row = (tty_clear-cursor t).0;
    same_col = (tty_clear-cursor t).1;
    same_cells = λ r c hr hc. tty_clear-cells t _ (omega arith) ∙ get_blank-glyph t h;
  },
)
