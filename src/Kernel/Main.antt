-- ===== src/Kernel/Main.antt =====
-- `kernel_main` from its first line to the end of the two interrupts.
use chp_os.Base.{
  ℕ, ◌+◌, ◌*◌, ◌^◌, ◌≤◌, ◌<◌, ◌≡◌, ◌≢◌, refl, ap, ◌∙◌, inr, arith, ptr_add, [], some, if◌then◌else◌,
  Bool, true, false, u32,
}
use chp_os.Memory.{load32}
use chp_os.Machine.{Machine, pure, ◌>>=◌, World, test_handler, printf}
use chp_os.Machine.Changes.{Changes, Changes-printf}
use chp_os.Tty.Bounds.{IsValid}
use chp_os.Segment.{gdt_init, gdt_flush}
use chp_os.Segment.Flat.{IsTablePlaced}
use chp_os.Segment.Reach.{IsOperandPlaced}
use chp_os.Interrupt.{dispatch_entry, handler_addr}
use chp_os.Memory.Access.{load32-same}
use chp_os.Kernel.{test_memcpy, test_memmove, software_interrupt, after_interrupts, kernel_main}
use chp_os.Kernel.SetUp.{IsLaidOut, HasStubs, set_up, third}
use chp_os.Base.{sym, subst}
use chp_os.Segment.Reach.{gdt_flush-IsLoaded}
use chp_os.Segment.Loaded.{IsLoaded, IsLoaded-kept, SameSegments}
use chp_os.Kernel.Ignored.{ignored_later}
use chp_os.Kernel.Delivery.{IsTableApart, ready-IsLoaded, software_interrupt-handled}
use chp_os.Kernel.Calm.{
  AreArrays, IsClear, IsCalm, printf-IsCalm, test_memcpy-IsCalm, test_memmove-IsCalm, gdt-IsCalm,
}

-- What `kernel_main` asks of the linker: the objects do not overlap, and the handler is the one of
-- kernel.c.
pub record IsPlaced (w : World) (src dst array handler : ℕ) : Type 0 where
  pub arrays : AreArrays src dst array
  pub laid_out : IsLaidOut w
  pub table : IsTablePlaced w
  pub operand : IsOperandPlaced w
  pub dispatch_clear :
      (a : ℕ)
      → w.layout.isr_dispatch_table ≤ a
      → a < w.layout.isr_dispatch_table + 1024
      → IsClear w src dst array a
  pub handlers_clear :
      (a : ℕ)
      → w.layout.isr_user_handlers ≤ a
      → a < w.layout.isr_user_handlers + 1024
      → IsClear w src dst array a
  pub gdt_apart : IsTableApart w
  pub handler_fits : handler < 2 ^ 32
  pub handler_set : handler ≢ 0
  pub handler_code : w.code handler ≡ some test_handler

-- What `kernel_main` relies on: moreover the dispatch table leads to the stubs, and no handler is
-- set yet for vector 33.
pub record IsBootable (w : World) (src dst array handler : ℕ) (s : Machine) : Type 0 where
  pub placed : IsPlaced w src dst array handler
  pub stubs : HasStubs w s.tty.mem
  pub unset : load32 s.tty.mem (handler_addr w 33) ≡ 0

module _ (w : World) (src dst array handler : ℕ) (s : Machine) where
  -- The state after the self tests, and the one before `idt_init`.
  abbrev pub tested : Machine
  tested =
      let greeted =
        (printf w "[self-test]: memutil\n" [] (printf w "chp-os kernel_main\n" [] s).1).1 in
      (test_memmove w array (test_memcpy w src dst greeted).1).1

  abbrev pub before_interrupts : Machine
  before_interrupts = (gdt_flush w (gdt_init w tested).1).1

  -- The state after the handler has run.
  abbrev pub after_first : Machine
  after_first = (printf w "Interrupt handler works!\n" [] (set_up w 32 handler before_interrupts)).1

  module _ (boot : IsBootable w src dst array handler s) (v : IsValid s.tty) where
    pub tested-IsCalm : IsCalm w src dst array boot.placed.arrays s tested
    tested-IsCalm =
        let start : IsCalm w src dst array boot.placed.arrays s s = record {
          valid = v;
          same = λ a h. refl;
        } in
        test_memmove-IsCalm w src dst array boot.placed.arrays s (
          test_memcpy-IsCalm w src dst array boot.placed.arrays s (
            printf-IsCalm w src dst array boot.placed.arrays s _ _
              (printf-IsCalm w src dst array boot.placed.arrays s _ _ start)))

    pub calm : IsCalm w src dst array boot.placed.arrays s before_interrupts
    calm =
        gdt-IsCalm w src dst array boot.placed.arrays s boot.placed.table boot.placed.operand
          tested-IsCalm

    dispatch-calm :
        (i : ℕ)
        → i < 256
        → dispatch_entry w before_interrupts.tty.mem i ≡ dispatch_entry w s.tty.mem i
    dispatch-calm i h =
        load32-same s.tty.mem before_interrupts.tty.mem
          (ptr_add w.layout.isr_dispatch_table (i * 4))
          λ b from to. calm.same b (
            boot.placed.dispatch_clear b (omega (arith, boot.placed.laid_out.idt_placed))
              (omega (arith, boot.placed.laid_out.idt_placed)))

    pub stubs-calm : HasStubs w before_interrupts.tty.mem
    stubs-calm i ge lt = ap (λ d. w.code (u32 d)) (dispatch-calm i lt) ∙ boot.stubs i ge lt

    unset-calm : load32 before_interrupts.tty.mem (handler_addr w 33) ≡ 0
    unset-calm =
        load32-same s.tty.mem before_interrupts.tty.mem (handler_addr w 33) (λ b from to.
          calm.same b (
            boot.placed.handlers_clear b (omega (arith, boot.placed.laid_out.handlers_placed))
              (omega (arith, boot.placed.laid_out.handlers_placed))))
        ∙ boot.unset

    pub before-IsLoaded : IsLoaded w before_interrupts
    before-IsLoaded =
        gdt_flush-IsLoaded w boot.placed.table boot.placed.operand tested tested-IsCalm.valid

    printed : Changes 0 0 (set_up w 32 handler before_interrupts) after_first
    printed =
        Changes-printf w 0 0 "Interrupt handler works!\n" []
          (third w boot.placed.laid_out before_interrupts calm.valid stubs-calm 32 handler
            (omega arith) boot.placed.handler_fits).2

    after_first-IsLoaded : IsLoaded w after_first
    after_first-IsLoaded =
        IsLoaded-kept w (set_up w 32 handler before_interrupts) after_first boot.placed.table.1
          (ready-IsLoaded w boot.placed.laid_out before_interrupts calm.valid stubs-calm 32 handler
            (omega arith) boot.placed.handler_fits boot.placed.table boot.placed.gdt_apart
            before-IsLoaded)
          (subst (SameSegments (set_up w 32 handler before_interrupts).cpu) (sym printed.same_cpu)
            (refl, refl, refl, refl, refl, refl, refl, refl))
          λ a from to. printed.apart a (omega (arith, boot.placed.table), inr (omega arith))

    first_interrupt :
        software_interrupt w 32 (set_up w 32 handler before_interrupts) ≡ (true, after_first)
    first_interrupt =
        software_interrupt-handled w boot.placed.laid_out before_interrupts calm.valid stubs-calm 32
          handler (omega arith) boot.placed.handler_fits boot.placed.table boot.placed.gdt_apart
          before-IsLoaded (omega arith) (omega arith) boot.placed.handler_set
          boot.placed.handler_code

    second_interrupt : software_interrupt w 33 after_first ≡ (true, after_first)
    second_interrupt =
        ignored_later w boot.placed.laid_out before_interrupts calm.valid stubs-calm handler
          boot.placed.handler_fits after_first printed after_first-IsLoaded unset-calm

    -- From a valid console, where the objects that the kernel writes are apart, the dispatch
    -- table leads to the stubs, the handler given is the one of kernel.c and vector 33 has none,
    -- `kernel_main` comes back from both interrupts: the first one runs the handler, which
    -- prints its line, the second one does nothing, and the colour map and the PS/2 driver
    -- follow.
    pub kernel_main-comes_back :
        kernel_main w src dst array handler s ≡ after_interrupts w after_first
    unfolding kernel_main ◌>>=◌
    kernel_main-comes_back =
        ap
          (λ (r : Bool × Machine).
            (if r.0
                then (do
                  returned2 ← software_interrupt w 33
                  if returned2 then after_interrupts w else pure false)
                else pure false)
              r.1)
          first_interrupt
        ∙ ap (λ (r : Bool × Machine). (if r.0 then after_interrupts w else pure false) r.1)
            second_interrupt
