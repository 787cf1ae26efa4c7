-- ===== src/Tty/Colors.antt =====
-- Colours and cells: the attribute byte in the upper half, the character in the lower.
use chp_os.Base.{
  ℕ, ◌+◌, ◌*◌, ◌/◌, ◌%◌, ◌^◌, ◌≤◌, ◌<◌, ◌≡◌, refl, ap, ap₂, ◌∙◌, arith, bit_or, char_to_int, ◌==◌,
  ==→eq, all_below, all_below_sound, bit_or_fields, bit_or_halves, bit_and_field, bit_and_low,
  bit_or_zero_left, bit_or-mod,
}
use chp_os.Tty.{Tty, char_cell, get_blank, tty_set_fg, tty_set_bg}

-- The value of a cell that shows character `c` in colour `color`.
abbrev pub glyph : (color c : ℕ) → ℕ
glyph color c = color * 2 ^ 8 + c

pub get_blank-glyph : (t : Tty) → t.color < 2 ^ 8 → get_blank t ≡ glyph t.color b' '
unfolding get_blank
get_blank-glyph t h = omega (arith, bit_or_fields 8 t.color b' ' (omega arith))

-- An ASCII character is shown in the current colour.
pub char_cell-ascii : (color c : ℕ) → color < 2 ^ 8 → c < 128 → char_cell color c ≡ glyph color c
unfolding char_cell
char_cell-ascii color c h ascii = ground (arith, bit_or_fields 8 color c)

ones_absorb : (x : ℕ) → x < 256 → bit_or x 255 ≡ 255
unfolding all_below
ones_absorb x h = ==→eq _ _ (all_below_sound 256 (λ y. bit_or y 255 == 255) refl x h)

-- Where the colour is a byte, the cell of a character from 128 up to 255 has the attribute 255
-- whatever the colour is: the sign bits of the negative `char` take its place.
pub char_cell-negative :
    (color c : ℕ) → color < 2 ^ 8 → 128 ≤ c → c < 256 → char_cell color c ≡ glyph 255 c
unfolding char_cell
char_cell-negative color c h neg byte =
    let sign : char_to_int c ≡ c + 0xffffff00 = ground arith in
    let colored : color * 2 ^ 8 % 2 ^ 16 ≡ color * 2 ^ 8 + 0 = omega arith in
    let signed : (c + 0xffffff00) % 2 ^ 16 ≡ 255 * 2 ^ 8 + c = omega arith in
    ap (λ x. bit_or (color * 2 ^ 8) x % 2 ^ 16) sign
    ∙ bit_or-mod 16 (color * 2 ^ 8) (c + 0xffffff00)
    ∙ ap₂ bit_or colored signed
    ∙ bit_or_halves 8 color 255 0 c (omega arith) byte
    ∙ ap₂ (λ x y. x * 2 ^ 8 + y) (ones_absorb color h) (bit_or_zero_left c)

-- The low four bits of the argument become the foreground.
pub tty_set_fg-color :
    (c : ℕ) (t : Tty) → t.color < 2 ^ 8 → (tty_set_fg c t).color ≡ t.color / 16 * 16 + c % 16
unfolding tty_set_fg
tty_set_fg-color c t h =
    ap₂ bit_or (bit_and_field 4 4 t.color) (bit_and_low 4 c)
    ∙ bit_or_fields 4 (t.color / 16 % 16) (c % 16) (omega arith)
    ∙ omega arith

-- The low four bits of the argument become the background.
pub tty_set_bg-color :
    (c : ℕ) (t : Tty) → t.color < 2 ^ 8 → (tty_set_bg c t).color ≡ c % 16 * 16 + t.color % 16
unfolding tty_set_bg
tty_set_bg-color c t h =
    ap₂ bit_or (bit_and_field 4 4 (c * 16)) (bit_and_low 4 t.color)
    ∙ bit_or_fields 4 (c * 16 / 16 % 16) (t.color % 16) (omega arith)
    ∙ omega arith

-- Where the colour is a byte, setting the foreground makes the low four bits of the argument the
-- foreground and keeps the background, and setting the background makes them the background and
-- keeps the foreground.
pub tty_set_color :
    (c : ℕ) (t : Tty)
    → t.color < 2 ^ 8
    → ((tty_set_fg c t).color ≡ t.color / 16 * 16 + c % 16)
      × ((tty_set_bg c t).color ≡ c % 16 * 16 + t.color % 16)
tty_set_color c t h = (tty_set_fg-color c t h, tty_set_bg-color c t h)
