-- ===== src/Tty/Bounds.antt =====
-- The cursor stays on the screen, and the console writes to no memory but the text buffer.
use chp_os.Base.{
  ℕ, zero, suc, ◌+◌, ◌-◌, ◌*◌, ◌^◌, ◌≤◌, ◌<◌, ◌≡◌, refl, ◌⊎◌, arith, List, [], ◌∷◌, ◌∙◌, ltb, ◌==◌,
  if◌then◌else◌, Bool, Bool-cases, true, false, inl, inr, leb,
}
use chp_os.Memory.{Mem}
use chp_os.Memory.Access.{store16-other}
use chp_os.Libc.{memmove}
use chp_os.Libc.Move.{moved, memmove-moved}
use chp_os.Tty.{
  Tty, vga_cols, vga_rows, vga_buffer, cell_addr, set_cell, clear_rows, clear_cols, tty_clear,
  blank_last_row, move_size, tty_scroll_up, char_cell, put_char, wrap_row, scroll_past_end,
  tty_putc, tty_puts, output_num,
}
use chp_os.Tty.Cells.{vga_size}

-- The cursor is on the screen and the colour is a byte.
pub record IsValid (t : Tty) : Type 0 where
  pub col_in : t.col < vga_cols
  pub row_in : t.row < vga_rows
  pub color_in : t.color < 2 ^ 8

-- Outside the text buffer the two memories agree.
abbrev pub SameOutside : Mem → Mem → Type 0
SameOutside m m' = (a : ℕ) → (a < vga_buffer) ⊎ (vga_buffer + vga_size * 2 ≤ a) → m' a ≡ m a

-- `u` may stand where the console was in state `t`: it writes the text buffer and keeps the colour.
pub record Draws (t u : Tty) : Type 0 where
  pub valid : IsValid u
  pub outside : SameOutside t.mem u.mem
  pub same_color : u.color ≡ t.color

module _ {t : Tty} where
  pub Draws-refl : IsValid t → Draws t t
  Draws-refl v = record { valid = v; outside = λ a h. refl; same_color = refl }

  pub Draws-trans : {u w : Tty} → Draws t u → (IsValid u → Draws u w) → Draws t w
  Draws-trans d e =
      let f = e d.valid in
      record {
        valid = f.valid;
        outside = λ a h. f.outside a h ∙ d.outside a h;
        same_color = f.same_color ∙ d.same_color;
      }

  pub Draws-if : {u w : Tty} (b : Bool) → Draws t u → Draws t w → Draws t (if b then u else w)
  Draws-if true d e = d
  Draws-if false d e = e

  pub Draws-set_cell : (i v : ℕ) → i < vga_size → IsValid t → Draws t (set_cell i v t)
  unfolding set_cell
  Draws-set_cell i v hi valid = record {
    valid = omega arith;
    outside = λ a h. store16-other t.mem (cell_addr i) v a (omega arith);
    same_color = refl;
  }

pub Draws-clear_rows :
    (col left row : ℕ) {t : Tty}
    → col < vga_cols
    → row + left ≡ vga_rows
    → IsValid t
    → Draws t (clear_rows col left row t)
unfolding clear_rows
Draws-clear_rows col zero row hc h v = Draws-refl v
Draws-clear_rows col (suc left) row hc h v =
    Draws-trans (Draws-set_cell _ _ (omega arith) v)
      (Draws-clear_rows col left (row + 1) hc (omega arith))

pub Draws-clear_cols :
    (left col : ℕ) {t : Tty} → col + left ≡ vga_cols → IsValid t → Draws t (clear_cols left col t)
unfolding clear_cols
Draws-clear_cols zero col h v = Draws-refl v
Draws-clear_cols (suc left) col h v =
    Draws-trans (Draws-clear_rows col vga_rows 0 (omega arith) refl v)
      (Draws-clear_cols left (col + 1) (omega arith))

pub Draws-blank_last_row :
    (left col : ℕ) {t : Tty}
    → col + left ≡ vga_cols
    → IsValid t
    → Draws t (blank_last_row left col t)
unfolding blank_last_row
Draws-blank_last_row zero col h v = Draws-refl v
Draws-blank_last_row (suc left) col h v =
    Draws-trans (Draws-set_cell _ _ (omega arith) v)
      (Draws-blank_last_row left (col + 1) (omega arith))

Draws-moved :
    {t : Tty}
    → IsValid t
    → Draws t (record t { mem = memmove vga_buffer (cell_addr vga_cols) move_size t.mem })
Draws-moved {t} v = record {
  valid = omega arith;
  outside = λ a h.
      rw
        (memmove-moved vga_buffer (cell_addr vga_cols) move_size t.mem (omega arith) (omega arith)
          (omega arith))
        (unfold moved in ground arith);
  same_color = refl;
}

-- Scrolling copies within the text buffer.
pub Draws-tty_scroll_up : {t : Tty} → IsValid t → Draws t (tty_scroll_up t)
unfolding tty_scroll_up
Draws-tty_scroll_up v = Draws-trans (Draws-moved v) (Draws-blank_last_row vga_cols 0 refl)

-- Clearing sets the cursor to the top left corner, from wherever it was.
pub Draws-tty_clear : {t : Tty} → t.color < 2 ^ 8 → Draws t (tty_clear t)
unfolding tty_clear
Draws-tty_clear {t} hc =
    let t' = record t { col = 0; row = 0 } in
    let d : Draws t' (clear_cols vga_cols 0 t') = Draws-clear_cols vga_cols 0 refl (omega arith) in
    record { valid = d.valid; outside = d.outside; same_color = d.same_color }

-- The state between the `switch` of `tty_putc` and its last test: the row may be one too far.
record Pending (t u : Tty) : Type 0 where
  outside : SameOutside t.mem u.mem
  same_color : u.color ≡ t.color
  col_in : u.col < vga_cols
  row_le : u.row ≤ vga_rows

Pending-wrap_row : (c : ℕ) {t : Tty} → IsValid t → Pending t (wrap_row (put_char c t))
unfolding put_char wrap_row
Pending-wrap_row c {t} v =
    let d =
      Draws-set_cell {t = t} (vga_cols * t.row + t.col) (char_cell t.color c) (omega arith) v in
    record {
      outside = λ a h. ground (arith, d.outside a h);
      same_color = ground (arith, d.same_color);
      col_in = ground arith;
      row_le = ground arith;
    }

Draws-scroll_past_end : {t u : Tty} → IsValid t → Pending t u → Draws t (scroll_past_end u)
unfolding scroll_past_end
Draws-scroll_past_end {t} {u} v p = elim (Bool-cases (leb vga_rows u.row)) [
  | inl e ↦
      let back = record u { col = 0; row = u.row - 1 } in
      let valid : IsValid back = ground arith in
      let d = Draws-tty_scroll_up valid in
      rw e (record {
        valid = d.valid;
        outside = λ a h. d.outside a h ∙ p.outside a h;
        same_color = d.same_color ∙ p.same_color;
      })
  | inr e ↦ rw e (record { valid = ground arith; outside = p.outside; same_color = p.same_color })
]

-- Printing a character at a valid cursor leaves a valid cursor, keeps the colour, and writes to no
-- memory outside the text buffer.
pub Draws-tty_putc : (c : ℕ) {t : Tty} → IsValid t → Draws t (tty_putc c t)
unfolding tty_putc
Draws-tty_putc c v = Draws-scroll_past_end v (Pending-wrap_row c v)

-- So does printing a string.
pub Draws-tty_puts : (cs : List ℕ) {t : Tty} → IsValid t → Draws t (tty_puts cs t)
unfolding tty_puts
Draws-tty_puts [] v = Draws-refl v
Draws-tty_puts (c ∷ cs) {t} v =
    let printed = Draws-tty_putc c v in
    elim (Bool-cases (c == 0)) [
      | inl e ↦ rw e (Draws-refl v)
      | inr e ↦ rw e (Draws-trans printed (Draws-tty_puts cs))
    ]

pub Draws-output_num : (n : ℕ) {t : Tty} → IsValid t → Draws t (output_num n t)
unfolding output_num
Draws-output_num n {t} v = Draws-trans (Draws-tty_putc b' ' v) λ v1.
    Draws-trans
      (Draws-if (ltb n 10) (Draws-trans (Draws-tty_putc b'0' v1) (Draws-tty_putc _))
        (Draws-trans (Draws-tty_putc b'1' v1) (Draws-tty_putc _)))
      (Draws-tty_putc b' ')
