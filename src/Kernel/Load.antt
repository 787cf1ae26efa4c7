-- ===== src/Kernel/Load.antt =====
-- The kernel from its image in memory on: the data of asm_bits.s and the entry point of start.s.
use chp_os.Base.{ℕ, ◌^◌, ◌<◌, ◌≡◌, ◌∙◌, refl, ltb, false, arith}
use chp_os.Machine.{Machine, World, Code, debug, on_mem}
use chp_os.Machine.Displays.{RendersBytes, typed}
use chp_os.Tty.Colormap.{paint, colormap}
use chp_os.Tty.Output.{Simulates}
use chp_os.Interrupt.Image.{load_data}
use chp_os.Interrupt.Linked.{IsLinked, load_data-dispatches}
use chp_os.Ps2.Typing.{driver_lines}
use chp_os.Kernel.{kernel_early_main}
use chp_os.Kernel.Start.{start}
use chp_os.Kernel.Main.{IsPlaced, IsBootable}
use chp_os.Kernel.Lines.{AreBehind}
use chp_os.Kernel.Shown.{boot_lines, driver_start, greeted, start-Simulates}

-- The data of the interrupt code is loaded.
abbrev pub load_image : World → (address : Code → ℕ) → Machine → Machine
load_image w address s = (on_mem (λ m. (load_data address (w.layout.isr_dispatch_table, m)).1) s).1

module _ (w : World) (address : Code → ℕ) (linked : IsLinked w address) (src dst array handler : ℕ)
    (placed : IsPlaced w src dst array handler) (s : Machine) (color_in : s.tty.color < 2 ^ 8)
    (magic : ℕ) where
  abbrev image : Machine
  image = load_image w address s

  image-IsBootable : IsBootable w src dst array handler image
  image-IsBootable = record {
    placed = placed;
    stubs = λ i ge lt.
        let user : ltb i 32 ≡ false = ground arith in
        (load_data-dispatches w address linked s.tty.mem i lt).0 ∙ rw user refl;
    unset = (load_data-dispatches w address linked s.tty.mem 33 (omega arith)).1;
  }

  -- Where the linker gives each stub an address of 32 bits, each object a place of its own and
  -- the handler of kernel.c an address other than 0, the arrays of the self tests are behind the
  -- text buffer, the colour is a byte, printf makes bytes and debug messages are printed, then
  -- from the entry point, with the data of asm_bits.s loaded, the kernel ends with a valid
  -- console, white on black, on a screen that shows, one after the other, the message on the
  -- magic number, the lines of the self tests, of the three descriptors with their two words
  -- each, of both tables and of the interrupt handler, then the colour map, and then, in white
  -- on black, the messages that `driver_messages` lists by the answers that the driver gets,
  -- whatever was on the console before and whatever the controller and the devices answer.
  pub start-load_image-Simulates :
      RendersBytes w
      → AreBehind src dst array
      → s.log_current_level ≡ debug
      → let early = (kernel_early_main w magic (load_image w address s)).1 in
        Simulates 0x0f (start w magic src dst array handler (load_image w address s)).1.tty (
          typed 0x0f (driver_lines w (driver_start w src dst array handler early)) (
            paint
              (colormap s.tty.color)
              (typed s.tty.color (boot_lines w) (greeted w s.tty.color magic))))
  start-load_image-Simulates bytes behind logs =
      start-Simulates w bytes src dst array handler behind image color_in logs magic
        image-IsBootable
