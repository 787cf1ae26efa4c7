-- ===== src/Tty/Chart.antt =====
-- The bytes of the table of characters of tty.c.
use chp_os.Base.{
  ℕ, zero, suc, ◌+◌, ◌%◌, ◌≡◌, refl, sym, ap, ◌∙◌, List, [], ◌∷◌, ◌++◌, ◌==◌, ltb, if◌then◌else◌,
  Bool, true, false, not, ◌&&◌, ◌||◌, u8,
}
use chp_os.Tty.{Tty, tty_putc}
use chp_os.Tty.Tables.{ascii_entry, ascii_rows, tty_ascii_printable_table, putchar, put_all}
use chp_os.Tty.Output.{put_all-++}

-- The rest of a row: a blank and a character for each, and the end of the line.
abbrev spaced : (left c : ℕ) → List ℕ
spaced zero c = b'\n' ∷ []
spaced (suc left) c = b' ' ∷ c ∷ spaced left (c + 1)

-- The 32 characters from `first` on, the zero as a blank.
abbrev chart_row : (first : ℕ) → List ℕ
chart_row first = (if first == 0 then b' ' else first) ∷ spaced 31 (first + 1)

abbrev chart_rows : (left first : ℕ) → List ℕ
chart_rows zero first = []
chart_rows (suc left) first = chart_row first ++ chart_rows left (first + 32)

-- The 256 characters in eight rows.
abbrev pub chart : List ℕ
chart = chart_rows 8 0

-- What one round of the loop prints.
abbrev before_entry : ℕ → List ℕ
before_entry c = if (c % 32 == 0) && ltb 0 c then b'\n' ∷ [] else []

abbrev space_entry : ℕ → List ℕ
space_entry c = if not (c % 32 == 0) then b' ' ∷ [] else []

abbrev entry_bytes : ℕ → List ℕ
entry_bytes c =
    before_entry c ++ space_entry c ++ (if (c == 0) || (c == 0x20) then b' ' else u8 c) ∷ []

print_if :
    (b : Bool) (d : ℕ) (t : Tty)
    → (if b then tty_putc d t else t) ≡ put_all (if b then d ∷ [] else []) t
unfolding put_all putchar
print_if true d t = refl
print_if false d t = refl

print_choice :
    (b : Bool) (d e : ℕ) (t : Tty)
    → (if b then tty_putc d t else tty_putc e t) ≡ put_all ((if b then d else e) ∷ []) t
unfolding put_all putchar
print_choice true d e t = refl
print_choice false d e t = refl

ascii_entry-put_all : (c : ℕ) (t : Tty) → ascii_entry c t ≡ put_all (entry_bytes c) t
unfolding ascii_entry
ascii_entry-put_all c t =
    let last = (if (c == 0) || (c == 0x20) then b' ' else u8 c) ∷ [] in
    print_choice ((c == 0) || (c == 0x20)) b' ' (u8 c) _
    ∙ ap (put_all last) (
        print_if (not (c % 32 == 0)) b' ' _
        ∙ ap (put_all (space_entry c)) (print_if ((c % 32 == 0) && ltb 0 c) b'\n' t)
        ∙ sym (put_all-++ (before_entry c) (space_entry c) t))
    ∙ sym (put_all-++ (before_entry c ++ space_entry c) last t)

abbrev rows_bytes : (left c : ℕ) → List ℕ
rows_bytes zero c = []
rows_bytes (suc left) c = entry_bytes c ++ rows_bytes left (c + 1)

ascii_rows-put_all : (left c : ℕ) (t : Tty) → ascii_rows left c t ≡ put_all (rows_bytes left c) t
unfolding ascii_rows
ascii_rows-put_all zero c t = unfold put_all in refl
ascii_rows-put_all (suc left) c t =
    ascii_rows-put_all left (c + 1) _
    ∙ ap (put_all (rows_bytes left (c + 1))) (ascii_entry-put_all c t)
    ∙ sym (put_all-++ (entry_bytes c) (rows_bytes left (c + 1)) t)

rows_bytes-chart : rows_bytes 256 0 ++ b'\n' ∷ [] ≡ chart
rows_bytes-chart = refl

-- The table of characters prints eight rows, each with the 32 characters from a multiple of 32 on,
-- separated by blanks, and with the end of the line; the zero is printed as a blank, and the others,
-- the newline at 10 among them, as they are.
pub tty_ascii_printable_table-prints : (t : Tty) → tty_ascii_printable_table t ≡ put_all chart t
unfolding tty_ascii_printable_table
tty_ascii_printable_table-prints t =
    let ended : tty_putc b'\n' (ascii_rows 256 0 t)
        ≡ put_all (b'\n' ∷ []) (put_all (rows_bytes 256 0) t) =
      unfold put_all putchar in ap (tty_putc b'\n') (ascii_rows-put_all 256 0 t) in
    ended
    ∙ sym (put_all-++ (rows_bytes 256 0) (b'\n' ∷ []) t)
    ∙ ap (λ cs. put_all cs t) rows_bytes-chart
