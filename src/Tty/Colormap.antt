-- ===== src/Tty/Colormap.antt =====
-- What the colour map of tty.c shows.
use chp_os.Base.{
  ℕ, zero, suc, ◌+◌, ◌-◌, ◌*◌, ◌/◌, ◌%◌, ◌^◌, ◌<◌, ◌≡◌, refl, ap, ◌∙◌, subst, arith, List, [], ◌∷◌,
  ltb, leb, if◌then◌else◌, Bool-cases, inl, inr, codes,
}
use chp_os.Tty.{Tty, tty_putc, tty_set_fg, tty_set_bg, output_num}
use chp_os.Tty.Bounds.{IsValid}
use chp_os.Tty.Colors.{tty_set_fg-color, tty_set_bg-color}
use chp_os.Tty.Screen
use chp_os.Tty.Screen.{Screen}
use chp_os.Tty.Refine.{Shows}
use chp_os.Tty.Tables.{colormap_fg, colormap_bg, tty_print_colormap, putchar, put_all}
use chp_os.Tty.Pictures.{Paints-tty_set_fg, Paints-tty_set_bg}
use chp_os.Tty.Output.{Simulates, put_all-Simulates, tty_puts-put_all}

-- A picture: texts, each in a colour of its own.
abbrev pub Picture : Type 0
Picture = List (ℕ × List ℕ)

abbrev pub paint : Picture → Screen → Screen
paint [] s = s
paint ((color, cs) ∷ rest) s = paint rest (Screen.puts color cs s)

-- A number of two decimal digits between blanks.
abbrev label : ℕ → List ℕ
label n = b' ' ∷ (b'0' + n / 10) ∷ (b'0' + n % 10) ∷ b' ' ∷ []

-- The labels from `n` on, in the colours that `color` gives.
abbrev labels : (color : ℕ → ℕ) (left n : ℕ) → Picture
labels color zero n = []
labels color (suc left) n = (color n, label n) ∷ labels color left (n + 1)

-- The rest of the picture after the two rows.
abbrev pub joined : Picture → Picture → Picture
joined [] q = q
joined (p ∷ ps) q = p ∷ joined ps q

abbrev upper_half : (back : ℕ) → Picture
upper_half back = labels (λ fg. back + fg) 16 0

abbrev lower_half : Picture
lower_half = labels (λ bg. bg * 16 + (if leb 8 bg then 0 else 15)) 16 0

-- The colour map on a console with the background `back`: the foregrounds in a row on it, then the
-- backgrounds, the dark ones in white and the light ones in black.
abbrev pub colormap : (color : ℕ) → Picture
colormap color =
    let back = color / 16 * 16 in
    (color, codes "--- Term Colors ---\n")
    ∷ joined (upper_half back)
        ((back + 15, b'\n' ∷ []) ∷ joined lower_half ((0x0f, b'\n' ∷ []) ∷ []))

output_num-put_all : (n : ℕ) (t : Tty) → n < 16 → output_num n t ≡ put_all (label n) t
unfolding output_num put_all putchar
output_num-put_all n t h = elim (Bool-cases (ltb n 10)) [
  | inl e ↦
      let tens : b'0' + n / 10 ≡ b'0' = ground arith in
      let ones : b'0' + n % 10 ≡ (b'0' + n) % 2 ^ 8 = ground arith in rw (e, tens, ones) refl
  | inr e ↦
      let tens : b'0' + n / 10 ≡ b'1' = ground arith in
      let ones : b'0' + n % 10 ≡ (b'0' + (n - 10)) % 2 ^ 8 = ground arith in rw (e, tens, ones) refl
]

paint-joined : (p q : Picture) (s : Screen) → paint (joined p q) s ≡ paint q (paint p s)
paint-joined [] q s = refl
paint-joined ((color, cs) ∷ p) q s = paint-joined p q _

module _ {color : ℕ} {t : Tty} {s : Screen} (sim : Simulates color t s) where
  after_label : (n : ℕ) → n < 16 → Simulates color (output_num n t) (Screen.puts color (label n) s)
  after_label n h =
      rw (output_num-put_all n t h) (put_all-Simulates (label n) color (ground arith) sim)

  after_newline : Simulates color (tty_putc b'\n' t) (Screen.puts color (b'\n' ∷ []) s)
  after_newline =
      let typed : Simulates color (put_all (b'\n' ∷ []) t) (Screen.puts color (b'\n' ∷ []) s) =
        put_all-Simulates (b'\n' ∷ []) color (ground arith) sim in
      unfold put_all putchar in typed

  after_fg : (c : ℕ) → Simulates (color / 16 * 16 + c % 16) (tty_set_fg c t) s
  after_fg c = record {
    valid = (Paints-tty_set_fg c sim.valid).valid;
    same_color =
        tty_set_fg-color c t sim.valid.color_in ∙ ap (λ k. k / 16 * 16 + c % 16) sim.same_color;
    shows =
        unfold tty_set_fg in
        record {
          same_row = sim.shows.same_row;
          same_col = sim.shows.same_col;
          same_cells = sim.shows.same_cells;
        };
  }

  after_bg : (c : ℕ) → Simulates (c % 16 * 16 + color % 16) (tty_set_bg c t) s
  after_bg c = record {
    valid = (Paints-tty_set_bg c sim.valid).valid;
    same_color =
        tty_set_bg-color c t sim.valid.color_in ∙ ap (λ k. c % 16 * 16 + k % 16) sim.same_color;
    shows =
        unfold tty_set_bg in
        record {
          same_row = sim.shows.same_row;
          same_col = sim.shows.same_col;
          same_cells = sim.shows.same_cells;
        };
  }

-- The row of the foregrounds, on a background that stays.
fg_row :
    (back left fg : ℕ) {color : ℕ} {t : Tty} {s : Screen}
    → fg + left ≡ 16
    → color / 16 * 16 ≡ back
    → Simulates color t s
    → (last : ℕ) × (last / 16 * 16 ≡ back)
      × Simulates last (colormap_fg left fg t) (paint (labels (λ n. back + n) left fg) s)
unfolding colormap_fg
fg_row back zero fg {color} bound e sim = (color, e, sim)
fg_row back (suc left) fg {color} {t} {s} bound e sim =
    let colored : Simulates (back + fg) (tty_set_fg fg t) s =
      subst (λ k. Simulates k (tty_set_fg fg t) s) (omega arith) (after_fg sim fg) in
    fg_row back left (fg + 1) (omega arith) (omega arith) (after_label colored fg (omega arith))

-- The test for the light backgrounds.
after_light :
    (bg : ℕ) {color : ℕ} {t : Tty} {s : Screen}
    → (bg < 8 → color % 16 ≡ 15)
    → Simulates color t s
    → (next : ℕ) × (next % 16 ≡ (if leb 8 bg then 0 else 15))
      × Simulates next (if leb 8 bg then tty_set_fg 0 t else t) s
after_light bg {color} white sim = elim (Bool-cases (leb 8 bg)) [
  | inl e ↦ rw e (color / 16 * 16 + 0 % 16, omega arith, after_fg sim 0)
  | inr e ↦ rw e (color, white (ground arith), sim)
]

bg_row :
    (left bg : ℕ) {color : ℕ} {t : Tty} {s : Screen}
    → bg + left ≡ 16
    → (bg < 8 → color % 16 ≡ 15)
    → Simulates color t s
    → (last : ℕ) × Simulates last
        (colormap_bg left bg t)
        (paint (labels (λ n. n * 16 + (if leb 8 n then 0 else 15)) left bg) s)
unfolding colormap_bg
bg_row zero bg {color} bound white sim = (color, sim)
bg_row (suc left) bg {color} {t} {s} bound white sim =
    let (next, fore, lit) = after_light bg white sim in
    let colors = tty_set_bg bg (if leb 8 bg then tty_set_fg 0 t else t) in
    let own = bg * 16 + (if leb 8 bg then 0 else 15) in
    let colored : Simulates own colors s =
      subst (λ k. Simulates k colors s) (omega arith) (after_bg lit bg) in
    bg_row left (bg + 1) (omega arith) (λ h. ground arith) (after_label colored bg (omega arith))

recolored : {a b : ℕ} {t : Tty} {s : Screen} → a ≡ b → Simulates a t s → Simulates b t s
recolored {t = t} {s = s} e sim = subst (λ k. Simulates k t s) e sim

module _ {color : ℕ} {t : Tty} {s : Screen} (sim : Simulates color t s) where
  upper-Simulates :
      let back = color / 16 * 16 in
      Simulates
        (back + 15)
        (tty_putc b'\n' (tty_set_fg 0xf (colormap_fg 16 0 t)))
        (Screen.puts (back + 15) (b'\n' ∷ []) (paint (upper_half back) s))
  upper-Simulates =
      let (last, on_back, row) = fg_row (color / 16 * 16) 16 0 refl refl sim in
      after_newline (recolored (omega arith) (after_fg row 0xf))

  lower-Simulates :
      color % 16 ≡ 15
      → Simulates 0x0f
          (tty_putc b'\n' (tty_set_fg 0xf (tty_set_bg 0 (colormap_bg 16 0 t))))
          (Screen.puts 0x0f (b'\n' ∷ []) (paint lower_half s))
  lower-Simulates white =
      let (last, row) = bg_row 16 0 refl (λ h. white) sim in
      after_newline (recolored (omega arith) (after_fg (after_bg row 0) 0xf))

-- Where a valid console shows a screen, the colour map paints its picture on it: the title in the
-- colour before, the labels 00 to 15 each in the foreground of its number, on the background as it
-- was, and then each on the background of its number, in white up to 07 and in black from 08. The
-- console stays valid, and its colour becomes white on black.
pub tty_print_colormap-Simulates :
    {t : Tty} {s : Screen}
    → IsValid t
    → Shows t s
    → Simulates 0x0f (tty_print_colormap t) (paint (colormap t.color) s)
unfolding tty_print_colormap
tty_print_colormap-Simulates {t} {s} v shows =
    let title = codes "--- Term Colors ---\n" in
    let begun : Simulates t.color t s = record { valid = v; same_color = refl; shows = shows } in
    let titled = put_all-Simulates title t.color (ground arith) begun in
    let back = t.color / 16 * 16 in
    let typed = Screen.puts t.color title s in
    let half = Screen.puts (back + 15) (b'\n' ∷ []) (paint (upper_half back) typed) in
    let last = (0x0f, b'\n' ∷ []) ∷ [] in
    let whole : paint (colormap t.color) s ≡ Screen.puts 0x0f (b'\n' ∷ []) (paint lower_half half) =
      paint-joined (upper_half back) ((back + 15, b'\n' ∷ []) ∷ joined lower_half last) typed
      ∙ paint-joined lower_half last half in
    rw (tty_puts-put_all title t (ground arith), whole)
      (lower-Simulates (upper-Simulates titled) (omega arith))
