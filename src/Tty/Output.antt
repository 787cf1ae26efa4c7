-- ===== src/Tty/Output.antt =====
-- Text on the screen: the bytes of printf, and the strings of `tty_puts`.
use chp_os.Base.{ℕ, ◌^◌, ◌<◌, ◌≡◌, ◌≢◌, refl, ◌∙◌, subst, List, [], ◌∷◌, ◌++◌, ◌==◌, arith, false}
use chp_os.Tty.{Tty, tty_putc, tty_puts}
use chp_os.Tty.Bounds.{IsValid, Draws-tty_putc}
use chp_os.Tty.Screen
use chp_os.Tty.Screen.{Screen}
use chp_os.Tty.Refine.{Shows, tty_putc-Shows}
use chp_os.Tty.Tables.{putchar, put_all}

-- Two texts, one after the other.
pub put_all-++ : (cs ds : List ℕ) (t : Tty) → put_all (cs ++ ds) t ≡ put_all ds (put_all cs t)
unfolding put_all
put_all-++ [] ds t = refl
put_all-++ (c ∷ cs) ds t = put_all-++ cs ds _

abbrev pub AreBytes : List ℕ → Type 0
AreBytes [] = Unit
AreBytes (c ∷ cs) = (c < 2 ^ 8) × AreBytes cs

-- The bytes of a string before its terminator.
abbrev pub IsText : List ℕ → Type 0
IsText [] = Unit
IsText (c ∷ cs) = (c ≢ 0) × (c < 2 ^ 8) × IsText cs

IsText→AreBytes : (cs : List ℕ) → IsText cs → AreBytes cs
IsText→AreBytes [] text = tt
IsText→AreBytes (c ∷ cs) (ne, byte, text) = (byte, IsText→AreBytes cs text)

-- A valid console in the colour `color`, and the screen that it shows.
pub record Simulates (color : ℕ) (t : Tty) (s : Screen) : Type 0 where
  pub valid : IsValid t
  pub same_color : t.color ≡ color
  pub shows : Shows t s

-- Whatever bytes printf gives to `_putchar`, a valid console that shows a screen goes on to a valid
-- console in the same colour, which shows the screen with these bytes typed on it in that colour.
pub put_all-Simulates :
    (cs : List ℕ) (color : ℕ) {t : Tty} {s : Screen}
    → AreBytes cs
    → Simulates color t s
    → Simulates color (put_all cs t) (Screen.puts color cs s)
unfolding put_all putchar Screen.puts
put_all-Simulates [] color bytes sim = sim
put_all-Simulates (c ∷ cs) color {t} {s} (byte, bytes) sim =
    let d = Draws-tty_putc c sim.valid in
    put_all-Simulates cs color bytes (record {
      valid = d.valid;
      same_color = d.same_color ∙ sim.same_color;
      shows =
          subst (λ k. Shows (tty_putc c t) (Screen.putc k c s)) sim.same_color
            (tty_putc-Shows sim.valid sim.shows c byte);
    })

-- A string without a zero inside is printed to its end.
pub tty_puts-put_all : (cs : List ℕ) (t : Tty) → IsText cs → tty_puts cs t ≡ put_all cs t
unfolding tty_puts put_all putchar
tty_puts-put_all [] t text = refl
tty_puts-put_all (c ∷ cs) t (ne, byte, text) =
    let go_on : (c == 0) ≡ false = ground arith in rw go_on (tty_puts-put_all cs _ text)

-- Where a valid console shows a screen, printing a string of bytes other than 0 does to the console
-- what it does to the screen, byte by byte.
pub tty_puts-Shows :
    (cs : List ℕ) {t : Tty} {s : Screen}
    → IsText cs
    → IsValid t
    → Shows t s
    → Shows (tty_puts cs t) (Screen.puts t.color cs s)
tty_puts-Shows cs {t} {s} text v shows =
    rw (tty_puts-put_all cs t text)
      (put_all-Simulates cs t.color (IsText→AreBytes cs text)
        (record { valid = v; same_color = refl; shows = shows })).shows
