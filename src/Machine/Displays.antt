-- ===== src/Machine/Displays.antt =====
-- What the console shows while kernel code runs.
use chp_os.Base.{ℕ, ◌<◌, ◌≡◌, ap, ◌∙◌, arith, List, [], ◌∷◌, String, leb, true}
use chp_os.Memory.{Mem}
use chp_os.Memory.Access.{load16-same}
use chp_os.Machine.{
  Arg, World, Machine, ◌>>=◌, debug, level, log_get_current_level, printf, log_debug, on_mem,
}
use chp_os.Machine.Changes.{vga_end}
use chp_os.Tty.Screen
use chp_os.Tty.Screen.{Screen}
use chp_os.Tty.Output.{AreBytes, Simulates, put_all-Simulates}

-- Texts typed on a screen in one colour, one after the other.
abbrev pub typed : (color : ℕ) → List (List ℕ) → Screen → Screen
typed color [] s = s
typed color (cs ∷ texts) s = typed color texts (Screen.puts color cs s)

-- printf gives characters to `_putchar`.
abbrev pub RendersBytes : World → Type 0
RendersBytes w = (fmt : String) (args : List Arg) → AreBytes (w.render fmt args)

-- The console, valid and in the colour `color`, shows the screen, and debug messages are printed.
pub record Displays (color : ℕ) (s : Machine) (screen : Screen) : Type 0 where
  pub simulates : Simulates color s.tty screen
  pub logs : s.log_current_level ≡ debug

module _ {color : ℕ} {s : Machine} {screen : Screen} (d : Displays color s screen) where
  pub Displays-printf :
      (w : World) (bytes : RendersBytes w) (fmt : String) (args : List Arg)
      → Displays color (printf w fmt args s).1 (Screen.puts color (w.render fmt args) screen)
  unfolding printf
  Displays-printf w bytes fmt args = record {
    simulates = put_all-Simulates (w.render fmt args) color (bytes fmt args) d.simulates;
    logs = d.logs;
  }

  pub Displays-log_debug :
      (w : World) (bytes : RendersBytes w) (fmt : String) (args : List Arg)
      → Displays color (log_debug w fmt args s).1 (Screen.puts color (w.render fmt args) screen)
  unfolding log_debug log_get_current_level ◌>>=◌
  Displays-log_debug w bytes fmt args =
      let loud : leb (level debug) (level s.log_current_level) ≡ true =
        ap (λ l. leb (level debug) (level l)) d.logs in
      rw loud (Displays-printf w bytes fmt args)

  -- Memory behind the text buffer does not show.
  pub Displays-mem :
      (f : Mem → Mem)
      → ((a : ℕ) → a < vga_end → f s.tty.mem a ≡ s.tty.mem a)
      → Displays color (on_mem f s).1 screen
  Displays-mem f same =
      let sim = d.simulates in
      record {
        simulates = record {
          valid = record {
            col_in = sim.valid.col_in;
            row_in = sim.valid.row_in;
            color_in = sim.valid.color_in;
          };
          same_color = sim.same_color;
          shows = record {
            same_row = sim.shows.same_row;
            same_col = sim.shows.same_col;
            same_cells = λ r c hr hc.
                load16-same s.tty.mem (f s.tty.mem) _ (same _ (omega arith)) (same _ (omega arith))
                ∙ sim.shows.same_cells r c hr hc;
          };
        };
        logs = d.logs;
      }
