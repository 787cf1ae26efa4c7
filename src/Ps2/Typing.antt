-- ===== src/Ps2/Typing.antt =====
-- What the PS/2 driver shows on the screen.
use chp_os.Base.{ℕ, sym, subst, List, [], ◌∷◌}
use chp_os.Machine.{Machine, World}
use chp_os.Machine.Displays.{RendersBytes, typed}
use chp_os.Tty.{Tty}
use chp_os.Tty.Screen.{Screen}
use chp_os.Tty.Output.{Simulates, put_all-Simulates}
use chp_os.Ps2.Init.{ps2_init}
use chp_os.Ps2.Messages.{Message, say, rendered, driver_messages}
use chp_os.Ps2.Result.{given}
use chp_os.Ps2.Printed.{ps2_init-prints}

-- What the driver prints from `s` on.
abbrev pub driver_lines : World → Machine → List (List ℕ)
driver_lines w s = rendered w (driver_messages (given w s) s.ps2)

module _ (w : World) (bytes : RendersBytes w) (color : ℕ) where
  say-Simulates :
      (ms : List Message) {t : Tty} {screen : Screen}
      → Simulates color t screen
      → Simulates color (say (rendered w ms) t) (typed color (rendered w ms) screen)
  unfolding say
  say-Simulates [] sim = sim
  say-Simulates ((fmt, args) ∷ ms) sim =
      say-Simulates ms (put_all-Simulates (w.render fmt args) color (bytes fmt args) sim)

  pub ps2_init-Simulates :
      (s : Machine) (screen : Screen)
      → Simulates color s.tty screen
      → Simulates color (ps2_init w s).1.tty (typed color (driver_lines w s) screen)
  ps2_init-Simulates s screen sim =
      subst (λ t. Simulates color t (typed color (driver_lines w s) screen))
        (sym (ps2_init-prints w s)) (say-Simulates (driver_messages (given w s) s.ps2) sim)
