-- ===== src/Tty/Tables.antt =====
-- The two test pictures of tty.c, and the character output of printf.
use chp_os.Base.{
  ℕ, zero, suc, ◌+◌, ◌%◌, List, [], ◌∷◌, codes, ◌==◌, ltb, leb, if◌then◌else◌, not, ◌&&◌, ◌||◌, u8,
}
use chp_os.Tty.{Tty, tty_putc, tty_puts, tty_set_fg, tty_set_bg, output_num}

-- `for (uint8_t fg = 0; fg < 16; ++fg)`
unfoldable pub colormap_fg : (left fg : ℕ) → Tty → Tty
colormap_fg zero fg t = t
colormap_fg (suc left) fg t = colormap_fg left (fg + 1) (output_num fg (tty_set_fg fg t))

-- `for (uint8_t bg = 0; bg < 16; ++bg)`
unfoldable pub colormap_bg : (left bg : ℕ) → Tty → Tty
colormap_bg zero bg t = t
colormap_bg (suc left) bg t =
    let t1 = if leb 8 bg then tty_set_fg 0 t else t in
    colormap_bg left (bg + 1) (output_num bg (tty_set_bg bg t1))

unfoldable pub tty_print_colormap : Tty → Tty
tty_print_colormap t =
    let t1 = colormap_fg 16 0 (tty_puts (codes "--- Term Colors ---\n") t) in
    let t2 = tty_putc b'\n' (tty_set_fg 0xf t1) in
    let t3 = colormap_bg 16 0 t2 in tty_putc b'\n' (tty_set_fg 0xf (tty_set_bg 0 t3))

-- One round of the loop of `tty_ascii_printable_table`.
unfoldable pub ascii_entry : ℕ → Tty → Tty
ascii_entry c t =
    let t1 = if (c % 32 == 0) && ltb 0 c then tty_putc b'\n' t else t in
    let t2 = if not (c % 32 == 0) then tty_putc b' ' t1 else t1 in
    if (c == 0) || (c == 0x20) then tty_putc b' ' t2 else tty_putc (u8 c) t2

-- `for (uint16_t c = 0; c < 256; ++c)`
unfoldable pub ascii_rows : (left c : ℕ) → Tty → Tty
ascii_rows zero c t = t
ascii_rows (suc left) c t = ascii_rows left (c + 1) (ascii_entry c t)

unfoldable pub tty_ascii_printable_table : Tty → Tty
tty_ascii_printable_table t = tty_putc b'\n' (ascii_rows 256 0 t)

-- `_putchar`, to which printf gives each byte of its output.
unfoldable pub putchar : ℕ → Tty → Tty
putchar character t = tty_putc character t

-- The calls of `_putchar` that one call of printf makes.
unfoldable pub put_all : List ℕ → Tty → Tty
put_all [] t = t
put_all (c ∷ cs) t = put_all cs (putchar c t)
