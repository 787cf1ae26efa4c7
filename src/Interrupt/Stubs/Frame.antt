-- ===== src/Interrupt/Stubs/Frame.antt =====
-- The frame of an interrupt on the stack: what is pushed, and that it is read back.
use chp_os.Base.{
  ℕ, ◌+◌, ◌-◌, ◌^◌, ◌≤◌, ◌<◌, ◌≡◌, refl, ap, ◌∙◌, arith, inr, bit_and, u16, u32, ptr_add, false,
  ◌∷◌, [],
}
use chp_os.Memory.{Mem, store32, load32}
use chp_os.Memory.Access.{load32-store32, load32-store32_other, load32-same}
use chp_os.Interrupt.{seg_sel}
use chp_os.Base.{true}
use chp_os.Machine.Processor.{Proc, returns_to, pushed, execute, pop, ebp, iret, run}
use chp_os.Interrupt.Stubs.{cleared_flags, enter}

-- There is room for the frame, and the registers are words.
pub record IsReady (p : Proc) : Type 0 where
  pub room : 16 ≤ p.esp
  pub esp_in : p.esp < 2 ^ 32
  pub ebp_in : p.ebp < 2 ^ 32
  pub eip_in : p.eip < 2 ^ 32
  pub cs_in : p.cpu.cs < 2 ^ 32
  pub eflags_in : p.eflags < 2 ^ 32

-- The stack below the interrupted code: EFLAGS, CS, EIP and, from the stub, EBP.
abbrev pub frame : Proc → Mem
frame p =
    let m1 = store32 p.mem (p.esp - 4) p.eflags in
    let m2 = store32 m1 (p.esp - 8) p.cpu.cs in
    let m3 = store32 m2 (p.esp - 12) p.eip in store32 m3 (p.esp - 16) p.ebp

-- The state in the stub, once EBP is pushed.
abbrev pub saved : Proc → Proc
saved p = record p {
  esp = p.esp - 16;
  mem = frame p;
  cpu = record p.cpu { cs = seg_sel };
  eflags = bit_and p.eflags (2 ^ 32 - 1 - cleared_flags);
}

-- Back in the interrupted code, with all else as in `r`; a selector has 16 bits.
abbrev pub resume : Proc → Proc → Proc
resume p r = record r {
  ebp = p.ebp;
  esp = p.esp;
  eip = p.eip;
  cpu = record r.cpu { cs = u16 p.cpu.cs };
  eflags = p.eflags;
}

module _ (p : Proc) (ready : IsReady p) where
  pub saved_lem : pushed p.ebp (enter p) ≡ saved p
  unfolding enter
  saved_lem =
      let r1 : u32 (p.esp + 2 ^ 32 - 4) ≡ p.esp - 4 = omega (arith, ready.room, ready.esp_in) in
      let r2 : u32 (p.esp - 4 + 2 ^ 32 - 4) ≡ p.esp - 8 = omega (arith, ready.room, ready.esp_in) in
      let r3 : u32 (p.esp - 8 + 2 ^ 32 - 4) ≡ p.esp - 12 =
        omega (arith, ready.room, ready.esp_in) in
      let r4 : u32 (p.esp - 12 + 2 ^ 32 - 4) ≡ p.esp - 16 =
        omega (arith, ready.room, ready.esp_in) in
      rw (r1, r2, r3, r4) refl

  -- The four words of the frame.
  pub frame_ebp : load32 (frame p) (p.esp - 16) ≡ p.ebp
  frame_ebp = load32-store32 _ (p.esp - 16) p.ebp ready.ebp_in

  pub frame_eip : load32 (frame p) (p.esp - 12) ≡ p.eip
  frame_eip =
      load32-store32_other _ (p.esp - 16) p.ebp (p.esp - 12) (inr (omega (arith, ready.room)))
      ∙ load32-store32 _ (p.esp - 12) p.eip ready.eip_in

  pub frame_cs : load32 (frame p) (p.esp - 8) ≡ p.cpu.cs
  frame_cs =
      load32-store32_other _ (p.esp - 16) p.ebp (p.esp - 8) (inr (omega (arith, ready.room)))
      ∙ load32-store32_other _ (p.esp - 12) p.eip (p.esp - 8) (inr (omega (arith, ready.room)))
      ∙ load32-store32 _ (p.esp - 8) p.cpu.cs (omega (arith, ready.cs_in))

  pub frame_eflags : load32 (frame p) (p.esp - 4) ≡ p.eflags
  frame_eflags =
      load32-store32_other _ (p.esp - 16) p.ebp (p.esp - 4) (inr (omega (arith, ready.room)))
      ∙ load32-store32_other _ (p.esp - 12) p.eip (p.esp - 4) (inr (omega (arith, ready.room)))
      ∙ load32-store32_other _ (p.esp - 8) p.cpu.cs (p.esp - 4) (inr (omega (arith, ready.room)))
      ∙ load32-store32 _ (p.esp - 4) p.eflags ready.eflags_in

  module _ (r : Proc) (top : r.esp ≡ p.esp - 16)
      (same : (b : ℕ) → p.esp - 16 ≤ b → b < p.esp → r.mem b ≡ frame p b) where
    -- The top of the stack, step by step.
    a0 : ptr_add r.esp 0 ≡ p.esp - 16
    a0 = omega (arith, top, ready.esp_in)

    a1 : ptr_add (ptr_add r.esp 4) 0 ≡ p.esp - 12
    a1 = omega (arith, top, ready.room, ready.esp_in)

    a2 : ptr_add (ptr_add r.esp 4) 4 ≡ p.esp - 8
    a2 = omega (arith, top, ready.room, ready.esp_in)

    a3 : ptr_add (ptr_add r.esp 4) 8 ≡ p.esp - 4
    a3 = omega (arith, top, ready.room, ready.esp_in)

    a4 : ptr_add (ptr_add r.esp 4) 12 ≡ p.esp
    a4 = omega (arith, top, ready.room, ready.esp_in)

    read : (a : ℕ) → p.esp - 16 ≤ a → a + 4 ≤ p.esp → load32 r.mem a ≡ load32 (frame p) a
    read a from to = load32-same (frame p) r.mem a λ b lo hi. same b (omega arith) (omega arith)

    -- What the end of a stub finds on a stack that is the frame.
    found_ebp : load32 r.mem (ptr_add r.esp 0) ≡ p.ebp
    found_ebp =
        ap (load32 r.mem) a0
        ∙ read (p.esp - 16) (omega arith) (omega (arith, ready.room))
        ∙ frame_ebp

    pub found_eip : load32 r.mem (ptr_add (ptr_add r.esp 4) 0) ≡ p.eip
    found_eip =
        ap (load32 r.mem) a1
        ∙ read (p.esp - 12) (omega arith) (omega (arith, ready.room))
        ∙ frame_eip

    pub found_cs : load32 r.mem (ptr_add (ptr_add r.esp 4) 4) ≡ p.cpu.cs
    found_cs =
        ap (load32 r.mem) a2 ∙ read (p.esp - 8) (omega arith) (omega (arith, ready.room)) ∙ frame_cs

    pub found_eflags : load32 r.mem (ptr_add (ptr_add r.esp 4) 8) ≡ p.eflags
    found_eflags =
        ap (load32 r.mem) a3
        ∙ read (p.esp - 4) (omega arith) (omega (arith, ready.room))
        ∙ frame_eflags

    -- From there the end of a stub leads back, if the processor accepts the selector.
    pub leave :
        (callee : ℕ → Proc → Proc)
        → returns_to r.cpu r.mem (u16 p.cpu.cs) ≡ true
        → run callee false (pop ebp ∷ iret ∷ []) r ≡ resume p r
    unfolding run execute
    leave callee accepted =
        ap (λ n. run callee false (iret ∷ []) (record r { ebp = n; esp = ptr_add r.esp 4 }))
          found_ebp
        ∙ rw (found_eip, found_cs, found_eflags, a4, accepted) refl
