-- ===== src/Tty/Pictures.antt =====
-- The test pictures change the text buffer alone and leave the console usable.
use chp_os.Base.{
  ℕ, zero, suc, ◌+◌, ◌≡◌, refl, List, [], ◌∷◌, arith, ◌∙◌, true, false, if◌then◌else◌, leb, codes,
  u8,
}
use chp_os.Tty.{Tty, tty_putc, tty_puts, tty_set_fg, tty_set_bg}
use chp_os.Tty.Bounds.{
  IsValid, SameOutside, Draws, Draws-refl, Draws-trans, Draws-if, Draws-tty_putc, Draws-tty_puts,
  Draws-output_num,
}
use chp_os.Tty.Colors.{tty_set_fg-color, tty_set_bg-color}
use chp_os.Tty.Tables.{
  colormap_fg, colormap_bg, tty_print_colormap, ascii_entry, ascii_rows, tty_ascii_printable_table,
  putchar, put_all,
}

-- As `Draws`, for code that also sets the colour.
pub record Paints (t u : Tty) : Type 0 where
  pub valid : IsValid u
  pub outside : SameOutside t.mem u.mem

Draws→Paints : {t u : Tty} → Draws t u → Paints t u
Draws→Paints d = record { valid = d.valid; outside = d.outside }

Paints-trans : {t u w : Tty} → Paints t u → (IsValid u → Paints u w) → Paints t w
Paints-trans p q =
    let r = q p.valid in record { valid = r.valid; outside = λ a h. r.outside a h ∙ p.outside a h }

pub Paints-tty_set_fg : (c : ℕ) {t : Tty} → IsValid t → Paints t (tty_set_fg c t)
Paints-tty_set_fg c {t} v =
    let color = tty_set_fg-color c t v.color_in in
    unfold tty_set_fg in
    record {
      valid = record {
        col_in = v.col_in;
        row_in = v.row_in;
        color_in = omega (arith, color, v.color_in);
      };
      outside = λ a h. refl;
    }

pub Paints-tty_set_bg : (c : ℕ) {t : Tty} → IsValid t → Paints t (tty_set_bg c t)
Paints-tty_set_bg c {t} v =
    let color = tty_set_bg-color c t v.color_in in
    unfold tty_set_bg in
    record {
      valid = record {
        col_in = v.col_in;
        row_in = v.row_in;
        color_in = omega (arith, color, v.color_in);
      };
      outside = λ a h. refl;
    }

Paints-colormap_fg : (left fg : ℕ) {t : Tty} → IsValid t → Paints t (colormap_fg left fg t)
unfolding colormap_fg
Paints-colormap_fg zero fg v = Draws→Paints (Draws-refl v)
Paints-colormap_fg (suc left) fg v =
    Paints-trans (Paints-tty_set_fg fg v)
      λ v1. Paints-trans (Draws→Paints (Draws-output_num fg v1)) (Paints-colormap_fg left (fg + 1))

Paints-light : (bg : ℕ) {t : Tty} → IsValid t → Paints t (if leb 8 bg then tty_set_fg 0 t else t)
Paints-light bg {t} v = elim (leb 8 bg) as (λ b. Paints t (if b then tty_set_fg 0 t else t)) [
  | true ↦ Paints-tty_set_fg 0 v
  | false ↦ Draws→Paints (Draws-refl v)
]

Paints-colormap_bg : (left bg : ℕ) {t : Tty} → IsValid t → Paints t (colormap_bg left bg t)
unfolding colormap_bg
Paints-colormap_bg zero bg v = Draws→Paints (Draws-refl v)
Paints-colormap_bg (suc left) bg v = Paints-trans (Paints-light bg v) λ v1.
    Paints-trans (Paints-tty_set_bg bg v1)
      λ v2. Paints-trans (Draws→Paints (Draws-output_num bg v2)) (Paints-colormap_bg left (bg + 1))

white_on_black : {t : Tty} → IsValid t → (tty_set_fg 0xf (tty_set_bg 0 t)).color ≡ 0x0f
white_on_black {t} v =
    let back = tty_set_bg-color 0 t v.color_in in
    omega (arith, back, tty_set_fg-color 0xf (tty_set_bg 0 t) (omega (arith, back, v.color_in)))

-- From a valid console, the colour map changes no memory outside the text buffer, keeps the
-- console valid, and leaves the colour white on black, whatever it was.
pub tty_print_colormap-Paints :
    {t : Tty}
    → IsValid t
    → IsValid (tty_print_colormap t)
      × SameOutside t.mem (tty_print_colormap t).mem
      × ((tty_print_colormap t).color ≡ 0x0f)
unfolding tty_print_colormap
tty_print_colormap-Paints {t} v =
    let title = codes "--- Term Colors ---\n" in
    let t1 = colormap_fg 16 0 (tty_puts title t) in
    let upper : Paints t (tty_putc b'\n' (tty_set_fg 0xf t1)) =
      Paints-trans (Draws→Paints (Draws-tty_puts title v)) λ v0.
        Paints-trans (Paints-colormap_fg 16 0 v0) λ v1.
          Paints-trans (Paints-tty_set_fg 0xf v1) λ v2. Draws→Paints (Draws-tty_putc b'\n' v2) in
    let t2 = tty_putc b'\n' (tty_set_fg 0xf t1) in
    let lower : Paints t (colormap_bg 16 0 t2) = Paints-trans upper (Paints-colormap_bg 16 0) in
    let reset =
      Paints-trans lower λ w. Paints-trans (Paints-tty_set_bg 0 w) (Paints-tty_set_fg 0xf) in
    let last = Draws-tty_putc b'\n' reset.valid in
    let all = Paints-trans reset λ w. Draws→Paints last in
    (all.valid, all.outside, last.same_color ∙ white_on_black lower.valid)

Draws-ascii_entry : (c : ℕ) {t : Tty} → IsValid t → Draws t (ascii_entry c t)
unfolding ascii_entry
Draws-ascii_entry c v = Draws-trans (Draws-if _ (Draws-tty_putc b'\n' v) (Draws-refl v)) λ v1.
    Draws-trans (Draws-if _ (Draws-tty_putc b' ' v1) (Draws-refl v1))
      λ v2. Draws-if _ (Draws-tty_putc b' ' v2) (Draws-tty_putc (u8 c) v2)

Draws-ascii_rows : (left c : ℕ) {t : Tty} → IsValid t → Draws t (ascii_rows left c t)
unfolding ascii_rows
Draws-ascii_rows zero c v = Draws-refl v
Draws-ascii_rows (suc left) c v =
    Draws-trans (Draws-ascii_entry c v) (Draws-ascii_rows left (c + 1))

-- From a valid console, the table of characters keeps the console valid and its colour as it
-- was, and changes no memory outside the text buffer.
pub Draws-tty_ascii_printable_table : {t : Tty} → IsValid t → Draws t (tty_ascii_printable_table t)
unfolding tty_ascii_printable_table
Draws-tty_ascii_printable_table v = Draws-trans (Draws-ascii_rows 256 0 v) (Draws-tty_putc b'\n')

-- From a valid console, any bytes that printf passes to `_putchar` leave a valid console and
-- its colour, and change no memory outside the text buffer.
pub Draws-put_all : (cs : List ℕ) {t : Tty} → IsValid t → Draws t (put_all cs t)
unfolding put_all putchar
Draws-put_all [] v = Draws-refl v
Draws-put_all (c ∷ cs) v = Draws-trans (Draws-tty_putc c v) (Draws-put_all cs)
