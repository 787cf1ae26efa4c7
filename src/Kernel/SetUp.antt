-- ===== src/Kernel/SetUp.antt =====
-- What the set up of the interrupts in `kernel_main` leaves in memory and in the registers.
use chp_os.Base.{
  ℕ, ◌+◌, ◌^◌, ◌≤◌, ◌<◌, ◌≡◌, ◌≢◌, ap, ◌∙◌, arith, u32, ◌==◌, ltb, none, some, if◌then◌else◌,
}
use chp_os.Memory.{Mem, load32}
use chp_os.Machine.{Machine, World, isr_user_stub}
use chp_os.Machine.Changes.{IsApart, Changes, load32-apart}
use chp_os.Tty.Bounds.{IsValid}
use chp_os.Interrupt
use chp_os.Interrupt.{
  sizeof_descriptor, idt_entry, dispatch_entry, idt_init, idt_flush, handler_addr,
  idt_register_handler,
}
use chp_os.Interrupt.Gates.{gate_at, interrupt_gate, gate_at-cong}
use chp_os.Memory.Access.{load32-same}
use chp_os.Interrupt.Table.{IsDisjoint, IsIdtPlaced, idt_init-Gates, idt_init-Changes}
use chp_os.Segment.Loaded.{SameSegments}
use chp_os.Base.{subst, ◌⊎◌}
use chp_os.Machine.Changes.{vga_end}
use chp_os.Interrupt.Flush.{idt_flush-SameSegments, IsIdtrPlaced, idt_flush-loads}
use chp_os.Interrupt.Handlers.{
  AreHandlersPlaced, idt_register_handler-Changes, idt_register_handler-stub,
}

-- The objects of the interrupt code do not overlap, and are behind the text buffer.
pub record IsLaidOut (w : World) : Type 0 where
  pub idt_placed : IsIdtPlaced w
  pub idtr_placed : IsIdtrPlaced w
  pub handlers_placed : AreHandlersPlaced w
  pub idtr_idt : IsDisjoint w.layout.idtr 6 w.layout.idt 2048
  pub idtr_handlers : IsDisjoint w.layout.idtr 6 w.layout.isr_user_handlers 1024
  pub handlers_idt : IsDisjoint w.layout.isr_user_handlers 1024 w.layout.idt 2048

-- The dispatch table leads each user vector to its stub.
abbrev pub HasStubs : World → Mem → Type 0
HasStubs w m =
    (i : ℕ) → 32 ≤ i → i < 256 → w.code (u32 (dispatch_entry w m i)) ≡ some (isr_user_stub i)

-- `idt_init`, `idt_register_handler` and `idt_flush`, in the order of `kernel_main`.
abbrev pub set_up : World → (vector handler : ℕ) → Machine → Machine
set_up w vector handler s =
    (idt_flush w (idt_register_handler w vector handler (idt_init w s).1).1).1

module _ (w : World) (out : IsLaidOut w) (s : Machine) (v : IsValid s.tty)
    (stubs : HasStubs w s.tty.mem) (vector handler : ℕ) (in_table : vector < 256)
    (fits : handler < 2 ^ 32) where
  abbrev filled : Machine
  filled = (idt_init w s).1

  abbrev registered : Machine
  registered = (idt_register_handler w vector handler filled).1

  abbrev ready : Machine
  ready = set_up w vector handler s

  first : Changes w.layout.idt (w.layout.idt + 2048) s filled
  first = idt_init-Changes w out.idt_placed s v

  second : Changes (handler_addr w vector) (handler_addr w vector + 4) filled registered
  second =
      idt_register_handler-Changes w out.handlers_placed filled first.valid vector handler in_table

  pub third :
      (ready.cpu.idtr_base ≡ w.layout.idt)
      × (ready.cpu.idtr_limit ≡ 2039)
      × IsValid ready.tty
      × ((a : ℕ)
          → IsApart w.layout.idtr (w.layout.idtr + 6) a
          → ready.tty.mem a ≡ registered.tty.mem a)
  third = idt_flush-loads w out.idtr_placed registered second.valid (omega (arith, out.idt_placed))

  -- What the set up leaves alone: memory behind the text buffer but for its three objects, and the
  -- registers for the segments.
  pub set_up-elsewhere :
      (a : ℕ)
      → vga_end ≤ a
      → (a < w.layout.idt) ⊎ (w.layout.idt + 2048 ≤ a)
      → (a < w.layout.isr_user_handlers) ⊎ (w.layout.isr_user_handlers + 1024 ≤ a)
      → (a < w.layout.idtr) ⊎ (w.layout.idtr + 6 ≤ a)
      → ready.tty.mem a ≡ s.tty.mem a
  set_up-elsewhere a behind out_idt out_handlers out_idtr =
      third.3 a (behind, out_idtr)
      ∙ second.apart a (behind, ground (arith, out.handlers_placed))
      ∙ first.apart a (behind, out_idt)

  pub set_up-SameSegments : SameSegments s.cpu ready.cpu
  set_up-SameSegments =
      let flushed = idt_flush-SameSegments w out.idtr_placed registered second.valid in
      subst (λ c. SameSegments c ready.cpu) (second.same_cpu ∙ first.same_cpu) flushed

  pub ready-gate :
      (n : ℕ)
      → n < 256
      → gate_at ready.tty.mem (idt_entry w n)
        ≡ interrupt_gate (u32 (dispatch_entry w s.tty.mem n)) 8 0
  ready-gate n h =
      gate_at-cong registered.tty.mem ready.tty.mem (idt_entry w n) (omega (arith, out.idt_placed))
        (λ a from to. third.3 a (ground (arith, out.idt_placed, out.idtr_idt)))
      ∙ gate_at-cong filled.tty.mem registered.tty.mem (idt_entry w n)
          (omega (arith, out.idt_placed))
          (λ a from to.
            second.apart a (ground (arith, out.idt_placed, out.handlers_placed, out.handlers_idt)))
      ∙ idt_init-Gates w out.idt_placed s n h

  pub ready-stub :
      (n : ℕ)
      → n < 256
      → (Interrupt.isr_user_stub w n ready).0 ≡ (Interrupt.isr_user_stub w n registered).0
  unfolding Interrupt.isr_user_stub
  ready-stub n h =
      ap (λ a. if ltb n 32 then none else if a == 0 then none else some a)
        (load32-same registered.tty.mem ready.tty.mem (handler_addr w n)
          λ b from to. third.3 b (ground (arith, out.handlers_placed, out.idtr_handlers)))

  pub registered-stub :
      ((Interrupt.isr_user_stub w vector registered).0
        ≡ (if ltb vector 32 then none else if handler == 0 then none else some handler))
      × ((u : ℕ)
          → u < 256
          → u ≢ vector
          → (Interrupt.isr_user_stub w u registered).0 ≡ (Interrupt.isr_user_stub w u filled).0)
  registered-stub =
      let (own, others, entry) =
        idt_register_handler-stub w out.handlers_placed filled first.valid vector handler in_table
          fits in
      (own, others)

  pub filled-stub :
      (n : ℕ)
      → n < 256
      → load32 s.tty.mem (handler_addr w n) ≡ 0
      → (Interrupt.isr_user_stub w n filled).0 ≡ none
  unfolding Interrupt.isr_user_stub
  filled-stub n h e =
      let same : load32 filled.tty.mem (handler_addr w n) ≡ load32 s.tty.mem (handler_addr w n) =
        load32-apart first (handler_addr w n) (omega (arith, out.handlers_placed))
          (ground (arith, out.handlers_placed, out.handlers_idt)) in
      rw (same, e) (ground arith)
