-- ===== src/Kernel/Shown.antt =====
-- What the screen shows once the kernel has booted.
use chp_os.Base.{ℕ, ◌^◌, ◌<◌, ◌≡◌, sym, subst, ◌∙◌, arith, List, [], ◌∷◌, Bool}
use chp_os.Machine.{Machine, ◌>>=◌, World, debug, on_tty}
use chp_os.Machine.Displays.{RendersBytes, Displays, Displays-printf, typed}
use chp_os.Tty.Screen
use chp_os.Tty.Screen.{Screen}
use chp_os.Tty.Output.{Simulates}
use chp_os.Tty.Tables.{tty_print_colormap}
use chp_os.Tty.Colormap.{paint, colormap, tty_print_colormap-Simulates}
use chp_os.Segment.Shown.{descriptor_line, gdt-Displays}
use chp_os.Ps2.Typing.{driver_lines, ps2_init-Simulates}
use chp_os.Kernel.{after_interrupts, kernel_early_main, kernel_main}
use chp_os.Kernel.Main.{IsBootable, after_first, kernel_main-comes_back}
use chp_os.Kernel.Lines.{AreBehind, test_memcpy-Displays, test_memmove-Displays, set_up-Displays}
use chp_os.Kernel.Start.{test_constructor, start}
use chp_os.Kernel.Boot.{
  magic_message, early-Changes, early_elsewhere, IsBootable-kept, kernel_early_main-Simulates,
}

-- The lines of `kernel_main` up to the colour map, where debug messages are printed.
abbrev pub boot_lines : World → List (List ℕ)
boot_lines w =
    w.render "chp-os kernel_main\n" []
    ∷ w.render "[self-test]: memutil\n" []
    ∷ w.render "memcpy okay\n" []
    ∷ w.render "memmove okay\n" []
    ∷ descriptor_line w 0 0
    ∷ descriptor_line w 0x00cf9a00 0x0000ffff
    ∷ descriptor_line w 0x00cf9200 0x0000ffff
    ∷ w.render "[sys]: Init GDT done (basic flat model)\n" []
    ∷ w.render "[sys]: Flushed GDT, reloaded segment regs\n" []
    ∷ w.render "[sys]: Flushed IDT\n" []
    ∷ w.render "Interrupt handler works!\n" []
    ∷ []

-- The message on the magic number, on an empty screen.
abbrev pub greeted : World → (color magic : ℕ) → Screen
greeted w color magic = Screen.puts color (magic_message w magic) (Screen.empty color)

-- The machine when `kernel_main` starts the driver.
abbrev pub driver_start : World → (src dst array handler : ℕ) → Machine → Machine
driver_start w src dst array handler s =
    (on_tty tty_print_colormap (after_first w src dst array handler s)).1

module _ (w : World) (bytes : RendersBytes w) (src dst array handler : ℕ)
    (behind : AreBehind src dst array) where
  module _ {color : ℕ} {s : Machine} {screen : Screen} (boot : IsBootable w src dst array handler s)
      (d : Displays color s screen) where
    lines_shown :
        Displays color (after_first w src dst array handler s) (typed color (boot_lines w) screen)
    lines_shown =
        let one = Displays-printf d w bytes "chp-os kernel_main\n" [] in
        let two = Displays-printf one w bytes "[self-test]: memutil\n" [] in
        let three = test_memcpy-Displays w bytes two src dst array boot.placed.arrays behind in
        let four = test_memmove-Displays w bytes three src dst array boot.placed.arrays behind in
        let five = gdt-Displays w bytes boot.placed.table boot.placed.operand four in
        let six =
          set_up-Displays w bytes five boot.placed.laid_out 32 handler (omega arith)
            (omega arith) in
        Displays-printf six w bytes "Interrupt handler works!\n" []

    -- The screen before the driver starts.
    abbrev booted : Screen
    booted = paint (colormap color) (typed color (boot_lines w) screen)

    -- The machine when the driver starts.
    abbrev colored : Machine
    colored = driver_start w src dst array handler s

    driver_shown :
        Simulates 0x0f
          (after_interrupts w (after_first w src dst array handler s)).1.tty
          (typed 0x0f (driver_lines w colored) booted)
    unfolding after_interrupts ◌>>=◌
    driver_shown =
        let sim = lines_shown.simulates in
        let painted =
          subst
            (λ c.
              Simulates 0x0f colored.tty (paint (colormap c) (typed color (boot_lines w) screen)))
            sim.same_color (tty_print_colormap-Simulates sim.valid sim.shows) in
        ps2_init-Simulates w bytes 0x0f colored booted painted

    kernel_main-Simulates :
        Simulates 0x0f
          (kernel_main w src dst array handler s).1.tty
          (typed 0x0f (driver_lines w colored) booted)
    kernel_main-Simulates =
        subst
          (λ (r : Bool × Machine).
            Simulates 0x0f r.1.tty (typed 0x0f (driver_lines w colored) booted))
          (sym (kernel_main-comes_back w src dst array handler s boot d.simulates.valid))
          driver_shown

  module _ (s : Machine) (color_in : s.tty.color < 2 ^ 8) (logs : s.log_current_level ≡ debug)
      (magic : ℕ) where
    -- The screen after the boot.
    pub start-Simulates :
        IsBootable w src dst array handler s
        → Simulates 0x0f (start w magic src dst array handler s).1.tty (
            typed 0x0f
              (driver_lines w
                (driver_start w src dst array handler (kernel_early_main w magic s).1))
              (paint
                (colormap s.tty.color)
                (typed s.tty.color (boot_lines w) (greeted w s.tty.color magic))))
    unfolding start test_constructor ◌>>=◌
    start-Simulates boot =
        let early = (kernel_early_main w magic s).1 in
        let sim = kernel_early_main-Simulates w magic s color_in (bytes _ _) in
        kernel_main-Simulates
          (IsBootable-kept w src dst array handler s early boot
            (early_elsewhere w magic s color_in))
          (record { simulates = sim; logs = (early-Changes w magic s color_in).same_level ∙ logs })
