-- ===== src/Kernel/Boot.antt =====
-- From the entry point to the end of `kernel_main`.
use chp_os.Base.{ℕ, ◌*◌, ◌^◌, ◌≤◌, ◌<◌, ◌≡◌, ap, ◌∙◌, inr, arith, List, [], ◌∷◌, ◌==◌, u32, ptr_add}
use chp_os.Machine.{Machine, ◌>>=◌, World, printf, on_tty}
use chp_os.Memory.Access.{load32-same}
use chp_os.Machine.Changes.{vga_end, Changes, Changes-printf}
use chp_os.Tty.{tty_init}
use chp_os.Tty.Bounds.{Draws, Draws-tty_clear}
use chp_os.Tty.Screen
use chp_os.Tty.Screen.{Screen}
use chp_os.Tty.Refine.{tty_init-Shows}
use chp_os.Tty.Output.{AreBytes, Simulates, put_all-Simulates}
use chp_os.Ps2.{yes_no}
use chp_os.Interrupt.{handler_addr}
use chp_os.Kernel.{kernel_early_main}
use chp_os.Kernel.Main.{IsBootable}
use chp_os.Kernel.End.{IsDone, kernel_main-IsDone}
use chp_os.Kernel.Start.{test_constructor, start}

-- Memory behind the text buffer decides whether the kernel can boot.
pub IsBootable-kept :
    (w : World) (src dst array handler : ℕ) (s t : Machine)
    → IsBootable w src dst array handler s
    → ((a : ℕ) → vga_end ≤ a → t.tty.mem a ≡ s.tty.mem a)
    → IsBootable w src dst array handler t
IsBootable-kept w src dst array handler s t b same = record {
  placed = b.placed;
  stubs = λ i ge lt.
      ap (λ d. w.code (u32 d))
        (load32-same s.tty.mem t.tty.mem (ptr_add w.layout.isr_dispatch_table (i * 4)) λ a from to.
          same a
            (b.placed.dispatch_clear a (omega (arith, b.placed.laid_out.idt_placed))
              (omega (arith, b.placed.laid_out.idt_placed))).0)
      ∙ b.stubs i ge lt;
  unset =
      load32-same s.tty.mem t.tty.mem (handler_addr w 33) (λ a from to.
        same a
          (b.placed.handlers_clear a (omega (arith, b.placed.laid_out.handlers_placed))
            (omega (arith, b.placed.laid_out.handlers_placed))).0)
      ∙ b.unset;
}

-- The bytes of the message on the magic number.
abbrev pub magic_message : World → (magic : ℕ) → List ℕ
magic_message w magic =
    w.render "[early main]: mb_magic okay: %s\n" (yes_no (0x2badb002 == magic) ∷ [])

module _ (w : World) (magic : ℕ) (s : Machine) (color_in : s.tty.color < 2 ^ 8) where
  abbrev cleared : Machine
  cleared = (on_tty tty_init s).1

  cleared-Draws : Draws s.tty cleared.tty
  unfolding tty_init
  cleared-Draws = Draws-tty_clear color_in

  pub early-Changes : Changes 0 0 cleared (kernel_early_main w magic s).1
  unfolding kernel_early_main ◌>>=◌
  early-Changes = Changes-printf w 0 0 _ _ {s = cleared} cleared-Draws.valid

  pub early_elsewhere :
      (a : ℕ) → vga_end ≤ a → (kernel_early_main w magic s).1.tty.mem a ≡ s.tty.mem a
  early_elsewhere a h =
      early-Changes.apart a (h, inr (omega arith)) ∙ cleared-Draws.outside a (inr h)

  -- Where the colour is a byte and printf makes bytes of the message, after `kernel_early_main` a
  -- valid console in that colour shows the message alone, on a screen that is otherwise empty.
  pub kernel_early_main-Simulates :
      AreBytes (magic_message w magic)
      → Simulates s.tty.color
          (kernel_early_main w magic s).1.tty
          (Screen.puts s.tty.color (magic_message w magic) (Screen.empty s.tty.color))
  unfolding kernel_early_main printf ◌>>=◌
  kernel_early_main-Simulates bytes =
      let (valid, shows) = tty_init-Shows s.tty color_in in
      put_all-Simulates (magic_message w magic) s.tty.color bytes
        (record { valid = valid; same_color = cleared-Draws.same_color; shows = shows })

  -- The end of `kernel_main`, from the entry point.
  pub start-IsDone :
      (src dst array handler : ℕ)
      → IsBootable w src dst array handler s
      → IsDone w (start w magic src dst array handler s)
  unfolding start test_constructor ◌>>=◌
  start-IsDone src dst array handler boot =
      let early = (kernel_early_main w magic s).1 in
      kernel_main-IsDone w src dst array handler early
        (IsBootable-kept w src dst array handler s early boot early_elsewhere) early-Changes.valid
