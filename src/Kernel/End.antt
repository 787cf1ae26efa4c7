-- ===== src/Kernel/End.antt =====
-- The state in which `kernel_main` ends.
use chp_os.Base.{ℕ, ◌-◌, ◌≤◌, ◌≡◌, refl, ap, sym, subst, [], ◌∙◌, inr, arith, true, Bool}
use chp_os.Machine.{Machine, ◌>>=◌, World, on_tty}
use chp_os.Machine.Changes.{vga_end, Changes, Changes-printf}
use chp_os.Tty.Bounds.{IsValid}
use chp_os.Tty.Tables.{tty_print_colormap}
use chp_os.Tty.Pictures.{tty_print_colormap-Paints}
use chp_os.Segment.Loaded.{IsFlat, IsLoaded, IsLoaded-IsFlat, IsLoaded-kept, SameSegments}
use chp_os.Interrupt.Table.{sizeof_idt}
use chp_os.Ps2.Frame.{ps2_init-Within}
use chp_os.Kernel.{after_interrupts, kernel_main}
use chp_os.Kernel.SetUp.{HasStubs, set_up, third, set_up-elsewhere, set_up-SameSegments}
use chp_os.Kernel.Main.{
  IsBootable, before_interrupts, calm, stubs-calm, after_first, before-IsLoaded,
  kernel_main-comes_back,
}

-- What comes after the interrupts, from a state with a valid console: printing, and the ports and
-- variables of the driver.
record Closes (t u : Machine) : Type 0 where
  valid : IsValid u.tty
  white_on_black : u.tty.color ≡ 0x0f
  apart : (a : ℕ) → vga_end ≤ a → u.tty.mem a ≡ t.tty.mem a
  same_cpu : u.cpu ≡ t.cpu

after_interrupts-Closes :
    (w : World) (t : Machine) → IsValid t.tty → Closes t (after_interrupts w t).1
unfolding after_interrupts ◌>>=◌
after_interrupts-Closes w t v =
    let (valid, outside, color) = tty_print_colormap-Paints v in
    let driver = ps2_init-Within w (on_tty tty_print_colormap t).1 valid in
    record {
      valid = driver.prints.valid;
      white_on_black = driver.prints.same_color ∙ color;
      apart = λ a h. driver.prints.outside a (inr h) ∙ outside a (inr h);
      same_cpu = driver.same_cpu;
    }

after_interrupts_done : (w : World) (t : Machine) → (after_interrupts w t).0 ≡ true
unfolding after_interrupts ◌>>=◌
after_interrupts_done w t = refl

-- The kernel is done: the console is valid, the segments are flat, and the interrupt table is
-- loaded.
pub record IsDone (w : World) (r : Bool × Machine) : Type 0 where
  pub came_back : r.0 ≡ true
  pub valid : IsValid r.1.tty
  pub white_on_black : r.1.tty.color ≡ 0x0f
  pub flat : IsFlat r.1
  pub idt_base : r.1.cpu.idtr_base ≡ w.layout.idt
  pub idt_limit : r.1.cpu.idtr_limit ≡ sizeof_idt - 1

module _ (w : World) (src dst array handler : ℕ) (s : Machine)
    (boot : IsBootable w src dst array handler s) (v : IsValid s.tty) where
  abbrev before : Machine
  before = before_interrupts w src dst array handler s

  abbrev ready : Machine
  ready = set_up w 32 handler before

  abbrev last : Machine
  last = after_first w src dst array handler s

  before-IsValid : IsValid before.tty
  before-IsValid = (calm w src dst array handler s boot v).valid

  loaded : IsLoaded w before
  loaded = before-IsLoaded w src dst array handler s boot v

  stubs : HasStubs w before.tty.mem
  stubs = stubs-calm w src dst array handler s boot v

  idt_loaded :
      (ready.cpu.idtr_base ≡ w.layout.idt)
      × (ready.cpu.idtr_limit ≡ sizeof_idt - 1)
      × IsValid ready.tty
  idt_loaded =
      let r =
        third w boot.placed.laid_out before before-IsValid stubs 32 handler (omega arith)
          boot.placed.handler_fits in
      (r.0, r.1, r.2)

  printed : Changes 0 0 ready last
  printed = Changes-printf w 0 0 "Interrupt handler works!\n" [] idt_loaded.2

  closes : Closes last (after_interrupts w last).1
  closes = after_interrupts-Closes w last printed.valid

  cpu_kept : (after_interrupts w last).1.cpu ≡ ready.cpu
  cpu_kept = closes.same_cpu ∙ printed.same_cpu

  last-IsLoaded : IsLoaded w (after_interrupts w last).1
  last-IsLoaded =
      IsLoaded-kept w before (after_interrupts w last).1 boot.placed.table.1 loaded
        (subst (SameSegments before.cpu) (sym cpu_kept) (
          set_up-SameSegments w boot.placed.laid_out before before-IsValid stubs 32 handler
            (omega arith) boot.placed.handler_fits))
        λ a from to.
          closes.apart a (omega (arith, boot.placed.table))
          ∙ printed.apart a (omega (arith, boot.placed.table), inr (omega arith))
          ∙ set_up-elsewhere w boot.placed.laid_out before before-IsValid stubs 32 handler
              (omega arith) boot.placed.handler_fits a (omega (arith, boot.placed.table))
              (ground (arith, boot.placed.gdt_apart)) (ground (arith, boot.placed.gdt_apart))
              (ground (arith, boot.placed.gdt_apart))

  -- Where the kernel is laid out as it needs to be and the console is valid, `kernel_main` comes to
  -- its end with a valid console, white on black, with flat segments, and with the interrupt table
  -- loaded.
  pub kernel_main-IsDone : IsDone w (kernel_main w src dst array handler s)
  kernel_main-IsDone =
      subst (IsDone w) (sym (kernel_main-comes_back w src dst array handler s boot v)) (record {
        came_back = after_interrupts_done w last;
        valid = closes.valid;
        white_on_black = closes.white_on_black;
        flat = IsLoaded-IsFlat w last-IsLoaded;
        idt_base = ap (λ c. c.idtr_base) cpu_kept ∙ idt_loaded.0;
        idt_limit = ap (λ c. c.idtr_limit) cpu_kept ∙ idt_loaded.1;
      })
