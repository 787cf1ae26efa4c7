-- ===== src/Kernel/Delivery.antt =====
-- The handler that an interrupt calls after the set up in `kernel_main`.
use chp_os.Base.{
  ℕ, ◌+◌, ◌-◌, ◌*◌, ◌^◌, ◌≤◌, ◌<◌, ◌≡◌, ◌≢◌, ap, ◌∙◌, arith, u32, ptr_add, ◌==◌, leb, ltb, Option,
  none, some, if◌then◌else◌, [], Bool, true, false,
}
use chp_os.Machine.{
  Machine, M, pure, ◌>>=◌, ◌>>◌, World, Code, isr_dispatch, isr_user_stub, test_handler, printf,
}
use chp_os.Tty.Bounds.{IsValid}
use chp_os.Interrupt
use chp_os.Interrupt.{
  sizeof_descriptor, idt_entry, dispatch_entry, idt_init, idt_flush, handler_addr,
  idt_register_handler,
}
use chp_os.Base.{◌&&◌}
use chp_os.Interrupt.Gates.{Gate, gate_at, is_open, interrupt_gate}
use chp_os.Interrupt.Table.{IsDisjoint}
use chp_os.Segment.Flat.{IsTablePlaced}
use chp_os.Segment.Translate.{is_code_segment}
use chp_os.Segment.Loaded.{IsLoaded, IsLoaded-kept, IsLoaded-is_code_segment}
use chp_os.Kernel.SetUp.{set_up-elsewhere, set_up-SameSegments}
use chp_os.Kernel.SetUp.{
  IsLaidOut, HasStubs, set_up, third, ready-gate, ready-stub, registered-stub,
}
use chp_os.Kernel.{call_handler, run_stub, software_interrupt}

-- At a gate that is within the limit and leads to a stub in a code segment, the processor runs the
-- stub.
pub software_interrupt-run_stub :
    (w : World) (n id base offset selector dpl : ℕ) (s : Machine)
    → s.cpu.idtr_base ≡ base
    → s.cpu.idtr_limit ≡ 2039
    → n < 255
    → gate_at s.tty.mem (ptr_add base (n * 8)) ≡ interrupt_gate offset selector dpl
    → is_code_segment s.cpu s.tty.mem selector ≡ true
    → w.code offset ≡ some (isr_user_stub id)
    → software_interrupt w n s ≡ run_stub w id s
unfolding software_interrupt
software_interrupt-run_stub w n id base offset selector dpl s eb el lt at segment code =
    let within : leb (n * sizeof_descriptor + (sizeof_descriptor - 1)) s.cpu.idtr_limit ≡ true =
      ground arith in
    let gate : gate_at s.tty.mem (ptr_add s.cpu.idtr_base (n * sizeof_descriptor))
        ≡ interrupt_gate offset selector dpl =
      ap (λ b. gate_at s.tty.mem (ptr_add b (n * 8))) eb ∙ at in
    ap
      (λ (g : Gate).
        let stub : M Bool = elim (w.code g.offset) [
          | some (isr_user_stub id) ↦ run_stub w id
          | some (isr_dispatch id) ↦ pure true
          | _ ↦ pure false
        ] in
        if leb (n * sizeof_descriptor + (sizeof_descriptor - 1)) s.cpu.idtr_limit
          && is_open g
          && is_code_segment s.cpu s.tty.mem g.selector
        then stub s
        else (false, s))
      gate
    ∙ rw (within, segment, code)

-- The table of segments is apart from what the set up of the interrupts writes.
abbrev pub IsTableApart : World → Type 0
IsTableApart w =
    IsDisjoint w.layout.gdt 24 w.layout.idt 2048
    × IsDisjoint w.layout.gdt 24 w.layout.isr_user_handlers 1024
    × IsDisjoint w.layout.gdt 24 w.layout.idtr 6

module _ (w : World) (out : IsLaidOut w) (s : Machine) (v : IsValid s.tty)
    (stubs : HasStubs w s.tty.mem) (vector handler : ℕ) (in_table : vector < 256)
    (fits : handler < 2 ^ 32) where
  abbrev ready : Machine
  ready = set_up w vector handler s

  delivered :
      (n : ℕ)
      → 32 ≤ n
      → n < 255
      → is_code_segment ready.cpu ready.tty.mem 8 ≡ true
      → software_interrupt w n ready ≡ run_stub w n ready
  delivered n ge lt segment =
      software_interrupt-run_stub w n n w.layout.idt (u32 (dispatch_entry w s.tty.mem n)) 8 0 ready
        (third w out s v stubs vector handler in_table fits).0
        (third w out s v stubs vector handler in_table fits).1 lt
        ((ready-gate w out s v stubs vector handler in_table fits) n (omega arith)) segment
        (stubs n ge (omega arith))

  abbrev run_found : Option ℕ → Bool × Machine
  run_found found =
      (elim found as (λ _. M Bool) [ none ↦ pure true | some address ↦ call_handler w address ])
        ready

  abbrev run_code : Option Code → Bool × Machine
  run_code code =
      (elim code as (λ _. M Bool) [
        | some test_handler ↦ do printf w "Interrupt handler works!\n" []; pure true
        | _ ↦ pure false
      ])
        ready

  run_stub-handler :
      (n : ℕ)
      → (Interrupt.isr_user_stub w n ready).0 ≡ some handler
      → w.code handler ≡ some test_handler
      → run_stub w n ready ≡ (true, (printf w "Interrupt handler works!\n" [] ready).1)
  unfolding run_stub Interrupt.isr_user_stub call_handler ◌>>=◌
  run_stub-handler n e code = ap run_found e ∙ ap run_code code

  -- The flat segments stay loaded, for a table apart from what the set up writes.
  pub ready-IsLoaded : IsTablePlaced w → IsTableApart w → IsLoaded w s → IsLoaded w ready
  ready-IsLoaded table apart loaded =
      IsLoaded-kept w s ready table.1 loaded
        (set_up-SameSegments w out s v stubs vector handler in_table fits)
        λ a from to.
          set_up-elsewhere w out s v stubs vector handler in_table fits a (omega (arith, table))
            (ground (arith, apart)) (ground (arith, apart)) (ground (arith, apart))

  -- With the objects laid out apart, the dispatch table leading to the stubs, the flat segments
  -- loaded and a valid console, after the set up of the interrupts an interrupt of the registered
  -- vector, from 32 up to 254, passes the processor's checks of the gate and of its code segment,
  -- runs the test handler, if that is the routine at the handler's address, and comes back.
  pub software_interrupt-handled :
      IsTablePlaced w
      → IsTableApart w
      → IsLoaded w s
      → 32 ≤ vector
      → vector < 255
      → handler ≢ 0
      → w.code handler ≡ some test_handler
      → software_interrupt w vector ready
        ≡ (true, (printf w "Interrupt handler works!\n" [] ready).1)
  software_interrupt-handled table apart loaded ge lt ne code =
      let found : (if ltb vector 32 then none else if handler == 0 then none else some handler)
          ≡ some handler =
        ground arith in
      delivered vector ge lt (IsLoaded-is_code_segment w (ready-IsLoaded table apart loaded))
      ∙ run_stub-handler vector
          ((ready-stub w out s v stubs vector handler in_table fits) vector in_table
            ∙ (registered-stub w out s v stubs vector handler in_table fits).0
            ∙ found)
          code

  -- With the objects laid out apart, the dispatch table leading to the stubs and a valid
  -- console, after the set up of the interrupts vector 255 faults: it lies past the limit of
  -- the table.
  pub software_interrupt-past_limit : software_interrupt w 255 ready ≡ (false, ready)
  unfolding software_interrupt
  software_interrupt-past_limit =
      let beyond : leb (255 * sizeof_descriptor + (sizeof_descriptor - 1)) ready.cpu.idtr_limit
          ≡ false =
        ground (arith, (third w out s v stubs vector handler in_table fits).1) in
      rw beyond
