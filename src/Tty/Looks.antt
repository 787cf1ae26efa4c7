-- ===== src/Tty/Looks.antt =====
-- The cell of a byte: what the screen promises is what tty.c stores.
use chp_os.Base.{ℕ, ◌^◌, ◌<◌, ◌≡◌, arith, ltb, Bool-cases, inl, inr}
use chp_os.Tty.{char_cell}
use chp_os.Tty.Colors.{char_cell-ascii, char_cell-negative}
use chp_os.Tty.Screen

pub char_cell-shown :
    (color c : ℕ) → color < 2 ^ 8 → c < 2 ^ 8 → char_cell color c ≡ Screen.cell color c
unfolding Screen.cell
char_cell-shown color c h byte = elim (Bool-cases (ltb c 128)) [
  | inl e ↦ rw e (char_cell-ascii color c h (ground arith))
  | inr e ↦ rw e (char_cell-negative color c h (ground arith) byte)
]

pub cell-lt : (color c : ℕ) → color < 2 ^ 8 → c < 2 ^ 8 → Screen.cell color c < 2 ^ 16
unfolding Screen.cell
cell-lt color c h byte = elim (Bool-cases (ltb c 128)) [
  | inl e ↦ rw e (omega arith)
  | inr e ↦ rw e (omega arith)
]
