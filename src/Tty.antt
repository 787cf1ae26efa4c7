-- ===== src/Tty.antt =====
-- kernel/src/io/tty/tty.c: the VGA text console.
pub mod Cells
pub mod Bounds
pub mod Colors
pub mod Screen
pub mod Looks
pub mod Refine
pub mod Tables
pub mod Pictures
pub mod Output
pub mod Chart
pub mod Colormap
use chp_os.Base.{
  ℕ, zero, suc, ◌+◌, ◌-◌, ◌*◌, List, [], ◌∷◌, bit_and, bit_or, ◌==◌, ltb, leb, if◌then◌else◌, u8,
  u16, ptr_add, char_to_int, ◌<<<◌,
}
use chp_os.Memory.{Mem, store16}
use chp_os.Libc.{memmove}

abbrev pub vga_cols : ℕ
vga_cols = 80

abbrev pub vga_rows : ℕ
vga_rows = 25

-- `vga_buffer`
abbrev pub vga_buffer : ℕ
vga_buffer = 0xb8000

-- The memory and the three variables of tty.c. `vga_col` and `vga_row` are never negative.
pub record Tty : Type 0 where
  pub mem : Mem
  pub col : ℕ
  pub row : ℕ
  pub color : ℕ

-- The address of `vga_buffer[index]`.
abbrev pub cell_addr : ℕ → ℕ
cell_addr index = ptr_add vga_buffer (index * 2)

-- `vga_buffer[index] = value`
unfoldable pub set_cell : (index value : ℕ) → Tty → Tty
set_cell index value t = record t { mem = store16 t.mem (cell_addr index) value }

unfoldable pub get_blank : Tty → ℕ
get_blank t = u16 (bit_or (t.color <<< 8) b' ')

-- The inner loop of `tty_clear`, over rows.
unfoldable pub clear_rows : (col left row : ℕ) → Tty → Tty
clear_rows col zero row t = t
clear_rows col (suc left) row t =
    clear_rows col left (row + 1) (set_cell (vga_cols * row + col) (get_blank t) t)

-- The outer loop of `tty_clear`, over columns.
unfoldable pub clear_cols : (left col : ℕ) → Tty → Tty
clear_cols zero col t = t
clear_cols (suc left) col t = clear_cols left (col + 1) (clear_rows col vga_rows 0 t)

unfoldable pub tty_clear : Tty → Tty
tty_clear t = clear_cols vga_cols 0 (record t { col = 0; row = 0 })

-- The loop of `tty_scroll_up`, over the columns of the last row.
unfoldable pub blank_last_row : (left col : ℕ) → Tty → Tty
blank_last_row zero col t = t
blank_last_row (suc left) col t =
    blank_last_row left (col + 1) (set_cell (vga_cols * (vga_rows - 1) + col) (get_blank t) t)

-- The size of the rows that `tty_scroll_up` moves, in bytes.
abbrev pub move_size : ℕ
move_size = vga_cols * (vga_rows - 1) * 2

unfoldable pub tty_scroll_up : Tty → Tty
tty_scroll_up t =
    blank_last_row vga_cols 0
      (record t { mem = memmove vga_buffer (cell_addr vga_cols) move_size t.mem })

unfoldable pub tty_init : Tty → Tty
tty_init t = tty_clear t

-- `((uint16_t)tty_color << 8) | c` for a `char` c, stored into a `uint16_t`.
unfoldable pub char_cell : (color c : ℕ) → ℕ
char_cell color c = u16 (bit_or (color <<< 8) (char_to_int c))

-- The `switch` of `tty_putc`.
unfoldable pub put_char : ℕ → Tty → Tty
put_char c t =
    if c == b'\n'
    then record t { col = 0; row = t.row + 1 }
    else record (set_cell (vga_cols * t.row + t.col) (char_cell t.color c) t) { col = t.col + 1 }

-- "If past the end of a row, go to next row."
unfoldable pub wrap_row : Tty → Tty
wrap_row t = if leb vga_cols t.col then record t { col = 0; row = t.row + 1 } else t

-- "If past the last row, scroll up one row."
unfoldable pub scroll_past_end : Tty → Tty
scroll_past_end t =
    if leb vga_rows t.row then tty_scroll_up (record t { col = 0; row = t.row - 1 }) else t

unfoldable pub tty_putc : ℕ → Tty → Tty
tty_putc c t = scroll_past_end (wrap_row (put_char c t))

unfoldable pub tty_set_fg : ℕ → Tty → Tty
tty_set_fg c t = record t { color = bit_or (bit_and t.color 0xf0) (bit_and c 0x0f) }

unfoldable pub tty_set_bg : ℕ → Tty → Tty
tty_set_bg c t = record t { color = bit_or (bit_and (c <<< 4) 0xf0) (bit_and t.color 0x0f) }

-- The list holds the bytes of the string up to its terminator.
unfoldable pub tty_puts : List ℕ → Tty → Tty
tty_puts [] t = t
tty_puts (c ∷ cs) t = if c == 0 then t else tty_puts cs (tty_putc c t)

unfoldable pub output_num : ℕ → Tty → Tty
output_num n t =
    let t1 = tty_putc b' ' t in
    let t2 =
      if ltb n 10
      then tty_putc (u8 (b'0' + n)) (tty_putc b'0' t1)
      else tty_putc (u8 (b'0' + (n - 10))) (tty_putc b'1' t1) in
    tty_putc b' ' t2
