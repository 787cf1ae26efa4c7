-- ===== src/Interrupt/Handlers.antt =====
-- The table of user handlers: registering a handler, and the stubs that look for one.
use chp_os.Base.{
  ℕ, ◌+◌, ◌^◌, ◌≤◌, ◌<◌, ◌≡◌, ◌≢◌, ap, arith, ◌==◌, leb, ltb, none, some, if◌then◌else◌, [], Bool,
  true, false,
}
use chp_os.Memory.{load32}
use chp_os.Memory.Access.{load32-store32}
use chp_os.Machine.{Machine, ◌>>=◌, World, printf, skip}
use chp_os.Machine.Changes.{
  vga_end, Changes, Changes-refl, Changes-trans, Changes-printf, Changes-store32, load32-apart,
}
use chp_os.Tty.Bounds.{IsValid}
use chp_os.Interrupt.{handler_addr, idt_register_handler, isr_user_stub}

-- The handlers of the 256 vectors.
abbrev pub AreHandlersPlaced : World → Type 0
AreHandlersPlaced w =
    (vga_end ≤ w.layout.isr_user_handlers) × (w.layout.isr_user_handlers + 1024 ≤ 2 ^ 32)

module _ (w : World) (placed : AreHandlersPlaced w) (s : Machine) (v : IsValid s.tty)
    (vector handler : ℕ) (in_table : vector < 256) where
  asserted :
      (lo hi : ℕ) (b : Bool)
      → Changes lo hi s ((if b then skip else printf w "Assertion failedvector >= 32" []) s).1
  asserted lo hi true = Changes-refl lo hi v
  asserted lo hi false = Changes-printf w lo hi "Assertion failedvector >= 32" [] v

  -- Registering a handler changes four bytes of memory and the text buffer at most.
  pub idt_register_handler-Changes :
      Changes
        (handler_addr w vector)
        (handler_addr w vector + 4)
        s
        (idt_register_handler w vector handler s).1
  unfolding idt_register_handler ◌>>=◌
  idt_register_handler-Changes =
      Changes-trans (asserted (handler_addr w vector) (handler_addr w vector + 4) (leb 32 vector))
        λ v1. Changes-store32 v1 (handler_addr w vector) handler

  stored :
      handler < 2 ^ 32
      → load32 (idt_register_handler w vector handler s).1.tty.mem (handler_addr w vector) ≡ handler
  unfolding idt_register_handler ◌>>=◌
  stored fits = load32-store32 _ (handler_addr w vector) handler fits

  -- With a valid console, the handler table behind the text buffer and a handler that fits 32
  -- bits, after registering it for a vector from 32 to 255 the stub of the vector calls it, if it is
  -- not the null pointer; registered for a vector below 32, it is called by no stub, though
  -- `idt_register_handler` stores it. In both cases the stub of another vector finds what it found
  -- before, and the entry of the vector in the table holds the handler.
  pub idt_register_handler-stub :
      handler < 2 ^ 32
      → let s' = (idt_register_handler w vector handler s).1 in
        ((isr_user_stub w vector s').0
          ≡ (if ltb vector 32 then none else if handler == 0 then none else some handler))
        × ((u : ℕ) → u < 256 → u ≢ vector → (isr_user_stub w u s').0 ≡ (isr_user_stub w u s).0)
        × (load32 s'.tty.mem (handler_addr w vector) ≡ handler)
  unfolding isr_user_stub
  idt_register_handler-stub fits = (
    ap (λ h. if ltb vector 32 then none else if h == 0 then none else some h) (stored fits),
    λ u h ne.
        ap (λ h. if ltb u 32 then none else if h == 0 then none else some h)
          (load32-apart idt_register_handler-Changes (handler_addr w u) (omega arith)
            (ground arith)),
    stored fits,
  )
