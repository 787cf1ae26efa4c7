-- ===== src/Interrupt/Stubs/Return.antt =====
-- The return from the stubs.
use chp_os.Base.{
  ℕ, ◌+◌, ◌-◌, ◌*◌, ◌^◌, ◌≤◌, ◌<◌, ◌≡◌, ◌≢◌, ◌⊎◌, refl, ap, ◌∙◌, sym, subst, ==→eq, arith, inl, inr,
  u16, u32, ◌==◌, if◌then◌else◌, false, Bool, Bool-cases, Option, none, some, ◌∷◌, [],
}
use chp_os.Memory.{load32}
use chp_os.Memory.Access.{load32-same, store32-other}
use chp_os.Memory.{Mem, store32}
use chp_os.Machine.{World, Machine}
use chp_os.Interrupt
use chp_os.Interrupt.{handler_addr}
use chp_os.Base.{List, true, ltb, bits}
use chp_os.Machine.Processor.{
  Instruction, push, test_flags, returns_to, stacked, Proc, eax, ebp, esp, pop, mov, mov_constant,
  mov_from, test, jz, call, iret, pushed, execute, run,
}
use chp_os.Interrupt.Stubs.{enter, enter_error, interrupt, generic_isr_dispatch, isr_user_stub_x}
use chp_os.Interrupt.Stubs.Frame.{
  IsReady, frame, saved, resume, saved_lem, leave, found_eip, found_cs, found_eflags,
}

-- The macro `generic_isr_dispatch` without its last instruction.
abbrev pub before_iret : List Instruction
before_iret = push ebp ∷ mov esp ebp ∷ pop ebp ∷ []

module _ (callee : ℕ → Proc → Proc) (p : Proc) where
  -- In the stub, with the address that is found, or 0, in EAX.
  abbrev inside : (handler : ℕ) → Proc
  inside handler = record (saved p) {
    ebp = p.esp - 16;
    eax = handler;
    eflags = test_flags handler (saved p).eflags;
  }

  -- Where the stub comes to, before it restores EBP: a handler that is found is called.
  abbrev pub served : Option ℕ → Proc
  served none = inside 0
  served (some handler) = callee handler (inside handler)

  -- A handler comes back as compiled code does: with the stack where it was and the frame in place,
  -- and with the segment of the interrupted code still there.
  pub record Returns (r : Proc) : Type 0 where
    pub same_esp : r.esp ≡ p.esp - 16
    pub same_frame : (b : ℕ) → p.esp - 16 ≤ b → b < p.esp → r.mem b ≡ frame p b
    pub same_code : returns_to r.cpu r.mem (u16 p.cpu.cs) ≡ true

-- `jz` after `test` jumps where the value is 0.
jumps_zero : (value eflags : ℕ) → (bits 6 1 (test_flags value eflags) == 1) ≡ (value == 0)
jumps_zero value eflags = elim (Bool-cases (value == 0)) [
  | inl e ↦ ground arith
  | inr e ↦ ground arith
]

module _ (callee : ℕ → Proc → Proc) (p : Proc) (ready : IsReady p)
    (accepted : returns_to p.cpu (frame p) (u16 p.cpu.cs) ≡ true) where
  -- A stub of the vectors 0 to 31 leads back.
  generic_isr_dispatch-resumes : interrupt callee generic_isr_dispatch p ≡ resume p (saved p)
  unfolding run execute enter
  generic_isr_dispatch-resumes =
      ap (run callee false (mov esp ebp ∷ pop ebp ∷ iret ∷ [])) (saved_lem p ready)
      ∙ leave p ready (record (saved p) { ebp = p.esp - 16 }) refl (λ b from to. refl) callee
          accepted

  module _ (w : World) (id : ℕ) (s : Machine) (memory : p.mem ≡ s.tty.mem)
      (apart : (handler_addr w id + 4 ≤ p.esp - 16) ⊎ (p.esp ≤ handler_addr w id)) where
    abbrev slot : ℕ
    slot = load32 s.tty.mem (handler_addr w id)

    slot-kept : load32 (frame p) (handler_addr w id) ≡ slot
    slot-kept =
        load32-same p.mem (frame p) (handler_addr w id) (λ b from to.
          below (p.esp - 16) p.ebp b _ (omega arith) (omega (arith, ready.room)) from to
          ∙ below (p.esp - 12) p.eip b _ (omega arith) (omega (arith, ready.room)) from to
          ∙ below (p.esp - 8) p.cpu.cs b _ (omega arith) (omega (arith, ready.room)) from to
          ∙ below (p.esp - 4) p.eflags b _ (omega arith) (omega (arith, ready.room)) from to)
        ∙ ap (λ m. load32 m (handler_addr w id)) memory
      where
        below :
            (a v b : ℕ) (m : Mem)
            → p.esp - 16 ≤ a
            → a + 4 ≤ p.esp
            → handler_addr w id ≤ b
            → b < handler_addr w id + 4
            → store32 m a v b ≡ m b
        below a v b m lo hi from to = store32-other m a v b (ground (arith, apart))

    -- The end of the stub, from the call on.
    abbrev tail : (over : Bool) → Proc → Proc
    tail over = run callee over (call eax ∷ pop ebp ∷ iret ∷ [])

    tail_lem :
        (h : ℕ)
        → (h ≢ 0 → Returns callee p (callee h (inside callee p h)))
        → tail (h == 0) (inside callee p h)
          ≡ resume p (served callee p (if h == 0 then none else some h))
    unfolding run execute
    tail_lem h returns = elim (Bool-cases (h == 0)) [
      | inl e ↦
          subst
            (λ n.
              tail (n == 0) (inside callee p n)
              ≡ resume p (served callee p (if n == 0 then none else some n)))
            (sym (==→eq _ _ e))
            (leave p ready (inside callee p 0) refl (λ b from to. refl) callee accepted)
      | inr e ↦
          let back = returns (ground arith) in
          subst
            (λ b.
              tail b (inside callee p h) ≡ resume p (served callee p (if b then none else some h)))
            (sym e)
            (leave p ready (callee h (inside callee p h)) back.same_esp back.same_frame callee
              back.same_code)
    ]

    -- Where there is room for the frame, the registers are words, CS names a code segment of the
    -- kernel, the stack is apart from the table of handlers, and the handler, if one is set, comes
    -- back with the stack where it was and the frame and the code segment in place, an interrupt
    -- through the stub of a vector from 32 on calls the handler that `isr_user_stub` finds and leads
    -- back to where it came from, with EBP, ESP, all of EFLAGS and the low 16 bits of CS as before.
    -- All else is as the handler leaves it; where no handler is found, EAX is 0 and of memory only
    -- the frame below the stack has changed.
    pub isr_user_stub_x-resumes :
        32 ≤ id
        → (slot ≢ 0 → Returns callee p (callee slot (inside callee p slot)))
        → interrupt callee (isr_user_stub_x w id) p
          ≡ resume p (served callee p (Interrupt.isr_user_stub w id s).0)
    unfolding run execute enter Interrupt.isr_user_stub
    isr_user_stub_x-resumes user returns =
        let below : ltb id 32 ≡ false = ground arith in
        ap
          (run callee false (
            mov esp ebp
            ∷ mov_constant w.layout.isr_user_handlers eax
            ∷ mov_from (id * 4) eax eax
            ∷ test eax
            ∷ jz
            ∷ call eax
            ∷ pop ebp
            ∷ iret
            ∷ []))
          (saved_lem p ready)
        ∙ ap (λ h. tail (bits 6 1 (test_flags h (saved p).eflags) == 1) (inside callee p h))
            slot-kept
        ∙ ap (λ b. tail b (inside callee p slot)) (jumps_zero slot (saved p).eflags)
        ∙ tail_lem slot returns
        ∙ ap
            (λ b.
              resume p
                (served callee p (if b then none else if slot == 0 then none else some slot)))
            (sym below)

-- Where there is room for the frame, the registers are words and CS names a code segment of the
-- kernel, an interrupt with no error code through the stub of one of the vectors from 0 to 31 leads
-- back to where it came from, with EBP, ESP, all of EFLAGS and the low 16 bits of CS as before, the
-- other registers as they were, and of memory only the frame below the stack changed. For an
-- exception with an error code the stub comes to its IRET with that code still on the stack: the
-- error code is where IRET takes the address from, the interrupted address where it takes the
-- selector, and the interrupted selector where it takes the flags.
pub generic_isr_dispatch-returns :
    (callee : ℕ → Proc → Proc) (p : Proc) (ready : IsReady p) (error_code : ℕ)
    → returns_to p.cpu (frame p) (u16 p.cpu.cs) ≡ true
    → 20 ≤ p.esp
    → error_code < 2 ^ 32
    → let at_iret = run callee false before_iret (enter_error error_code p) in
      (interrupt callee generic_isr_dispatch p ≡ resume p (saved p))
      × (run callee false generic_isr_dispatch (enter_error error_code p)
          ≡ execute callee iret at_iret)
      × (stacked 0 at_iret ≡ error_code)
      × (stacked 4 at_iret ≡ p.eip)
      × (stacked 8 at_iret ≡ p.cpu.cs)
unfolding run execute enter_error enter
generic_isr_dispatch-returns callee p ready error_code accepted room fits =
    let entered = enter_error error_code p in
    let shifted : Proc = record (pushed p.eflags p) {
      esp = p.esp - 4;
      eip = error_code;
      cpu = record p.cpu { cs = p.eip };
      eflags = p.cpu.cs;
    } in
    let r1 : u32 (p.esp + 2 ^ 32 - 4) ≡ p.esp - 4 = omega (arith, room, ready.esp_in) in
    let r2 : u32 (p.esp - 4 + 2 ^ 32 - 4) ≡ p.esp - 4 - 4 = omega (arith, room, ready.esp_in) in
    let r3 : u32 (p.esp - 4 - 4 + 2 ^ 32 - 4) ≡ p.esp - 4 - 8 = omega (arith, room, ready.esp_in) in
    let r4 : u32 (p.esp - 4 - 8 + 2 ^ 32 - 4) ≡ p.esp - 4 - 12 =
      omega (arith, room, ready.esp_in) in
    let r5 : u32 (p.esp - 4 - 12 + 2 ^ 32 - 4) ≡ p.esp - 4 - 16 =
      omega (arith, room, ready.esp_in) in
    let ready_shifted : IsReady shifted = record {
      room = omega (arith, room);
      esp_in = omega (arith, ready.esp_in);
      ebp_in = ready.ebp_in;
      eip_in = fits;
      cs_in = ready.eip_in;
      eflags_in = ready.cs_in;
    } in
    let top : (pushed p.ebp entered).esp ≡ shifted.esp - 16 = rw (r1, r2, r3, r4, r5) refl in
    let same : (pushed p.ebp entered).mem ≡ frame shifted = rw (r1, r2, r3, r4, r5) refl in
    let r = record (pushed p.ebp entered) { ebp = (pushed p.ebp entered).esp } in
    let frame_is : (b : ℕ) → shifted.esp - 16 ≤ b → b < shifted.esp → r.mem b ≡ frame shifted b =
      λ b from to. ap (λ (m : Mem). m b) same in
    (
      generic_isr_dispatch-resumes callee p ready accepted,
      refl,
      found_eip shifted ready_shifted r top frame_is,
      found_cs shifted ready_shifted r top frame_is,
      found_eflags shifted ready_shifted r top frame_is,
    )
