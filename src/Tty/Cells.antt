-- ===== src/Tty/Cells.antt =====
-- What the text buffer holds, cell by cell, after the loops of tty.c.
use chp_os.Base.{
  ℕ, zero, suc, ◌+◌, ◌-◌, ◌*◌, ◌/◌, ◌%◌, ◌^◌, ◌<◌, ◌&&◌, ◌≡◌, refl, arith, ltb, leb, ◌==◌,
  if◌then◌else◌, ◌∙◌,
}
use chp_os.Memory.{Mem, load16}
use chp_os.Memory.Access.{load16-store16, load16-store16_other}
use chp_os.Libc.{memmove}
use chp_os.Libc.Move.{moved, memmove-moved}
use chp_os.Tty.{
  Tty, vga_cols, vga_rows, vga_buffer, cell_addr, set_cell, get_blank, blank_last_row, move_size,
  tty_scroll_up, clear_rows, clear_cols, tty_clear,
}

-- The number of cells.
abbrev pub vga_size : ℕ
vga_size = vga_cols * vga_rows

-- `vga_buffer[index]`
abbrev pub cell_at : Mem → ℕ → ℕ
cell_at m index = load16 m (cell_addr index)

pub cell_at-set :
    (t : Tty) (i v j : ℕ)
    → i < vga_size
    → j < vga_size
    → v < 2 ^ 16
    → cell_at (set_cell i v t).mem j ≡ (if j == i then v else cell_at t.mem j)
unfolding set_cell
cell_at-set t i v j hi hj hv = ground (
  arith,
  load16-store16 t.mem (cell_addr i) v,
  load16-store16_other t.mem (cell_addr i) v (cell_addr j),
)

pub get_blank-lt : (t : Tty) → get_blank t < 2 ^ 16
unfolding get_blank
get_blank-lt t = omega arith

-- `get_blank` reads nothing but the colour.
pub get_blank-set : (t : Tty) (i v : ℕ) → get_blank (set_cell i v t) ≡ get_blank t
unfolding get_blank set_cell
get_blank-set t i v = refl

blank_last_row-cells :
    (left col : ℕ) (t : Tty) (j : ℕ)
    → col + left ≡ vga_cols
    → j < vga_size
    → cell_at (blank_last_row left col t).mem j
      ≡ (if leb (vga_cols * (vga_rows - 1) + col) j then get_blank t else cell_at t.mem j)
unfolding blank_last_row
blank_last_row-cells zero col t j h hj = ground arith
blank_last_row-cells (suc left) col t j h hj =
    let index = vga_cols * (vga_rows - 1) + col in
    let t' = set_cell index (get_blank t) t in
    ground (
      arith,
      blank_last_row-cells left (col + 1) t' j,
      cell_at-set t index (get_blank t) j,
      get_blank-lt t,
      get_blank-set t index (get_blank t),
    )

-- The cells of the rows that memmove fills.
moved-cells :
    (m : Mem) (j : ℕ)
    → j < vga_cols * (vga_rows - 1)
    → cell_at (moved vga_buffer (cell_addr vga_cols) move_size m) j ≡ cell_at m (j + vga_cols)
unfolding moved load16
moved-cells m j hj = ground arith

-- Scrolling moves the cell one row below to each cell of the screen, and blanks the cells of
-- the last row.
pub tty_scroll_up-cells :
    (t : Tty) (j : ℕ)
    → j < vga_size
    → cell_at (tty_scroll_up t).mem j
      ≡ (if ltb j (vga_cols * (vga_rows - 1)) then cell_at t.mem (j + vga_cols) else get_blank t)
unfolding tty_scroll_up
tty_scroll_up-cells t j hj =
    let moving =
      memmove-moved vga_buffer (cell_addr vga_cols) move_size t.mem (omega arith) (omega arith)
        (omega arith) in
    let t' = record t { mem = memmove vga_buffer (cell_addr vga_cols) move_size t.mem } in
    let blanked = blank_last_row-cells vga_cols 0 t' j refl hj in
    let same : get_blank t' ≡ get_blank t = unfold get_blank in refl in
    rw (blanked, same, moving) (ground (arith, moved-cells t.mem j))

clear_rows-cells :
    (col left row : ℕ) (t : Tty) (j : ℕ)
    → col < vga_cols
    → row + left ≡ vga_rows
    → j < vga_size
    → cell_at (clear_rows col left row t).mem j
      ≡ (if leb row (j / vga_cols) && (j % vga_cols == col) then get_blank t else cell_at t.mem j)
unfolding clear_rows
clear_rows-cells col zero row t j hc h hj = ground arith
clear_rows-cells col (suc left) row t j hc h hj =
    let index = vga_cols * row + col in
    let t' = set_cell index (get_blank t) t in
    ground (
      arith,
      clear_rows-cells col left (row + 1) t' j,
      cell_at-set t index (get_blank t) j,
      get_blank-lt t,
      get_blank-set t index (get_blank t),
    )

get_blank-clear_rows :
    (col left row : ℕ) (t : Tty) → get_blank (clear_rows col left row t) ≡ get_blank t
unfolding clear_rows
get_blank-clear_rows col zero row t = refl
get_blank-clear_rows col (suc left) row t =
    get_blank-clear_rows col left (row + 1) (set_cell (vga_cols * row + col) (get_blank t) t)
    ∙ get_blank-set t _ _

clear_cols-cells :
    (left col : ℕ) (t : Tty) (j : ℕ)
    → col + left ≡ vga_cols
    → j < vga_size
    → cell_at (clear_cols left col t).mem j
      ≡ (if leb col (j % vga_cols) then get_blank t else cell_at t.mem j)
unfolding clear_cols
clear_cols-cells zero col t j h hj = ground arith
clear_cols-cells (suc left) col t j h hj = ground (
  arith,
  clear_cols-cells left (col + 1) (clear_rows col vga_rows 0 t) j,
  clear_rows-cells col vga_rows 0 t j,
  get_blank-clear_rows col vga_rows 0 t,
)

-- Clearing blanks every cell of the screen.
pub tty_clear-cells : (t : Tty) (j : ℕ) → j < vga_size → cell_at (tty_clear t).mem j ≡ get_blank t
unfolding tty_clear
tty_clear-cells t j hj =
    clear_cols-cells vga_cols 0 (record t { col = 0; row = 0 }) j refl hj
    ∙ unfold get_blank in ground arith

-- The loops move no cursor.
abbrev pub SameCursor : Tty → Tty → Type 0
SameCursor t u = (u.row ≡ t.row) × (u.col ≡ t.col)

blank_last_row-SameCursor : (left col : ℕ) (t : Tty) → SameCursor t (blank_last_row left col t)
unfolding blank_last_row set_cell
blank_last_row-SameCursor zero col t = (refl, refl)
blank_last_row-SameCursor (suc left) col t =
    blank_last_row-SameCursor left (col + 1) (set_cell _ (get_blank t) t)

pub tty_scroll_up-SameCursor : (t : Tty) → SameCursor t (tty_scroll_up t)
unfolding tty_scroll_up
tty_scroll_up-SameCursor t = blank_last_row-SameCursor vga_cols 0 _

clear_rows-SameCursor : (col left row : ℕ) (t : Tty) → SameCursor t (clear_rows col left row t)
unfolding clear_rows set_cell
clear_rows-SameCursor col zero row t = (refl, refl)
clear_rows-SameCursor col (suc left) row t =
    clear_rows-SameCursor col left (row + 1) (set_cell _ (get_blank t) t)

clear_cols-SameCursor : (left col : ℕ) (t : Tty) → SameCursor t (clear_cols left col t)
unfolding clear_cols
clear_cols-SameCursor zero col t = (refl, refl)
clear_cols-SameCursor (suc left) col t = omega (
  arith,
  clear_cols-SameCursor left (col + 1) (clear_rows col vga_rows 0 t),
  clear_rows-SameCursor col vga_rows 0 t,
)

pub tty_clear-cursor : (t : Tty) → ((tty_clear t).row ≡ 0) × ((tty_clear t).col ≡ 0)
unfolding tty_clear
tty_clear-cursor t = clear_cols-SameCursor vga_cols 0 _
