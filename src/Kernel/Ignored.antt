-- ===== src/Kernel/Ignored.antt =====
-- An interrupt after the set up whose vector has no handler.
use chp_os.Base.{
  ℕ, ◌^◌, ◌<◌, ◌≡◌, ap, ◌∙◌, inr, arith, Option, none, some, ◌==◌, ltb, if◌then◌else◌, Bool, true,
  u32,
}
use chp_os.Memory.{load32}
use chp_os.Machine.{Machine, M, pure, ◌>>=◌, World}
use chp_os.Machine.Changes.{Changes}
use chp_os.Tty.Bounds.{IsValid}
use chp_os.Interrupt
use chp_os.Interrupt.{idt_entry, dispatch_entry, handler_addr}
use chp_os.Interrupt.Gates.{gate_at, interrupt_gate, gate_at-cong}
use chp_os.Memory.Access.{load32-same}
use chp_os.Kernel.{call_handler, run_stub, software_interrupt}
use chp_os.Kernel.SetUp.{
  IsLaidOut, HasStubs, set_up, third, ready-gate, ready-stub, registered-stub, filled-stub,
}
use chp_os.Segment.Loaded.{IsLoaded, IsLoaded-is_code_segment}
use chp_os.Kernel.Delivery.{software_interrupt-run_stub}

run_stub-none :
    (w : World) (n : ℕ) (t : Machine)
    → (Interrupt.isr_user_stub w n t).0 ≡ none
    → run_stub w n t ≡ (true, t)
unfolding run_stub Interrupt.isr_user_stub ◌>>=◌
run_stub-none w n t e =
    ap
      (λ (found : Option ℕ).
        (elim found as (λ _. M Bool) [ none ↦ pure true | some address ↦ call_handler w address ])
          t)
      e

stub-same :
    (w : World) (n : ℕ) (s t : Machine)
    → load32 t.tty.mem (handler_addr w n) ≡ load32 s.tty.mem (handler_addr w n)
    → (Interrupt.isr_user_stub w n t).0 ≡ (Interrupt.isr_user_stub w n s).0
unfolding Interrupt.isr_user_stub
stub-same w n s t e = ap (λ a. if ltb n 32 then none else if a == 0 then none else some a) e

module _ (w : World) (out : IsLaidOut w) (s : Machine) (v : IsValid s.tty)
    (stubs : HasStubs w s.tty.mem) (handler : ℕ) (fits : handler < 2 ^ 32) where
  abbrev ready : Machine
  ready = set_up w 32 handler s

  -- After some printing, the vector 33, whose handler is not set, still changes nothing.
  pub ignored_later :
      (t : Machine)
      → Changes 0 0 ready t
      → IsLoaded w t
      → load32 s.tty.mem (handler_addr w 33) ≡ 0
      → software_interrupt w 33 t ≡ (true, t)
  ignored_later t c loaded unset =
      let r = third w out s v stubs 32 handler (omega arith) fits in
      let gate : gate_at t.tty.mem (idt_entry w 33)
          ≡ interrupt_gate (u32 (dispatch_entry w s.tty.mem 33)) 8 0 =
        gate_at-cong ready.tty.mem t.tty.mem (idt_entry w 33) (omega (arith, out.idt_placed))
          (λ a from to. c.apart a (omega (arith, out.idt_placed), inr (omega arith)))
        ∙ ready-gate w out s v stubs 32 handler (omega arith) fits 33 (omega arith) in
      let found : (Interrupt.isr_user_stub w 33 t).0 ≡ none =
        stub-same w 33 ready t (
          load32-same ready.tty.mem t.tty.mem (handler_addr w 33)
            λ b from to. c.apart b (omega (arith, out.handlers_placed), inr (omega arith)))
        ∙ ready-stub w out s v stubs 32 handler (omega arith) fits 33 (omega arith)
        ∙ (registered-stub w out s v stubs 32 handler (omega arith) fits).1 33 (omega arith)
            (omega arith)
        ∙ filled-stub w out s v stubs 32 handler (omega arith) fits 33 (omega arith) unset in
      software_interrupt-run_stub w 33 33 w.layout.idt (u32 (dispatch_entry w s.tty.mem 33)) 8 0 t
        (ap (λ k. k.idtr_base) c.same_cpu ∙ r.0) (ap (λ k. k.idtr_limit) c.same_cpu ∙ r.1)
        (omega arith) gate (IsLoaded-is_code_segment w loaded)
        (stubs 33 (omega arith) (omega arith))
      ∙ run_stub-none w 33 t found
