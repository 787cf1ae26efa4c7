-- ===== src/Segment/Gdtr.antt =====
-- kernel/src/system/asm_bits.s: the routine that loads GDTR, instruction by instruction, and that
-- it does what the model of segment.c takes it for.
use chp_os.Base.{
  ℕ, ◌+◌, ◌-◌, ◌^◌, ◌≤◌, ◌<◌, ◌≡◌, ◌⊎◌, refl, ap, ◌∙◌, sym, subst, inr, arith, false, List, [], ◌∷◌,
  u16, u32, ptr_add,
}
use chp_os.Memory.{Mem, store16, load16, store32, load32}
use chp_os.Memory.Access.{store32-other, store16-other, load32-store32, load32-same, load16-same}
use chp_os.Machine.{Machine, World, Cpu, ◌>>=◌}
use chp_os.Machine.Processor.{
  Proc, Instruction, eax, ebx, esp, push, pop, mov_constant, mov_from, mov_to, movw_to, lgdt, ret,
  execute, run,
}
use chp_os.Machine.Routines.{IsCalled, Performs, store32-agree, store16-agree}
use chp_os.Segment.{segment_set_gdtr_asm_prot}

module _ (w : World) where
  -- `gdtr_base`, which stands behind `gdtr_limit`.
  abbrev gdtr_base : ℕ
  gdtr_base = ptr_add w.layout.gdtr_limit 2

  abbrev pub set_gdtr_code : List Instruction
  set_gdtr_code =
      push ebx
      ∷ mov_from 8 esp eax
      ∷ mov_constant gdtr_base ebx
      ∷ mov_to eax ebx
      ∷ mov_from 12 esp eax
      ∷ mov_constant w.layout.gdtr_limit ebx
      ∷ movw_to eax ebx
      ∷ pop ebx
      ∷ lgdt w.layout.gdtr_limit
      ∷ ret
      ∷ []

-- The state after the routine as the model has it, for the arguments on the stack.
abbrev pub loaded : World → Proc → Machine → Machine
loaded w p s =
    (segment_set_gdtr_asm_prot w (load32 p.mem (p.esp + 4)) (load32 p.mem (p.esp + 8)) s).1

module _ (w : World) (callee : ℕ → Proc → Proc) (p : Proc) (called : IsCalled 4 p)
    (placed : w.layout.gdtr_limit + 6 ≤ 2 ^ 32)
    (apart : (p.esp + 12 ≤ w.layout.gdtr_limit) ⊎ (w.layout.gdtr_limit + 6 ≤ p.esp - 4)) where
  abbrev operand : ℕ
  operand = w.layout.gdtr_limit

  -- The memory once EBX, the base and the limit are stored.
  abbrev with_ebx : Mem
  with_ebx = store32 p.mem (p.esp - 4) p.ebx

  abbrev with_base : Mem
  with_base = store32 with_ebx (ptr_add operand 2) (load32 with_ebx (p.esp + 4))

  abbrev stored : Mem
  stored = store16 with_base operand (u16 (load32 with_base (p.esp + 8)))

  abbrev final : Proc
  final = record p {
    eax = load32 with_base (p.esp + 8);
    ebx = load32 stored (p.esp - 4);
    esp = p.esp + 4;
    eip = load32 stored p.esp;
    cpu = record p.cpu {
      gdtr_limit = load16 stored operand;
      gdtr_base = load32 stored (ptr_add operand 2);
    };
    mem = stored;
  }

  run-set_gdtr : run callee false (set_gdtr_code w) p ≡ final
  unfolding run execute
  run-set_gdtr =
      let a1 : u32 (p.esp + 2 ^ 32 - 4) ≡ p.esp - 4 = omega (arith, called.room, called.top) in
      let a2 : ptr_add (p.esp - 4) 8 ≡ p.esp + 4 = omega (arith, called.room, called.top) in
      let a3 : ptr_add (p.esp - 4) 12 ≡ p.esp + 8 = omega (arith, called.room, called.top) in
      let a4 : ptr_add (p.esp - 4) 0 ≡ p.esp - 4 = omega (arith, called.room, called.top) in
      let a5 : ptr_add (p.esp - 4) 4 ≡ p.esp = omega (arith, called.room, called.top) in
      let a6 : ptr_add p.esp 0 ≡ p.esp = omega (arith, called.room, called.top) in
      let a7 : ptr_add p.esp 4 ≡ p.esp + 4 = omega (arith, called.room, called.top) in
      rw (a1, a2, a3, a4, a5, a6, a7) refl

  -- The words of the caller, and the one that is saved.
  above-kept : (b : ℕ) → p.esp ≤ b → b < p.esp + 12 → stored b ≡ p.mem b
  above-kept b from to =
      let at : ptr_add operand 2 ≡ operand + 2 = omega (arith, placed) in
      store16-other with_base operand _ b (ground (arith, apart))
      ∙ store32-other with_ebx (ptr_add operand 2) _ b (ground (arith, apart, at))
      ∙ store32-other p.mem (p.esp - 4) p.ebx b (inr (omega (arith, called.room)))

  ebx_read : load32 stored (p.esp - 4) ≡ p.ebx
  ebx_read =
      let at : ptr_add operand 2 ≡ operand + 2 = omega (arith, placed) in
      load32-same with_ebx stored (p.esp - 4) (λ b from to.
        store16-other with_base operand _ b (ground (arith, apart, called.room))
        ∙ store32-other with_ebx (ptr_add operand 2) _ b (ground (arith, apart, at, called.room)))
      ∙ load32-store32 p.mem (p.esp - 4) p.ebx called.ebx_in

  base_read : load32 with_ebx (p.esp + 4) ≡ load32 p.mem (p.esp + 4)
  base_read =
      load32-same p.mem with_ebx (p.esp + 4)
        λ b from to. store32-other p.mem (p.esp - 4) p.ebx b (inr (omega (arith, called.room)))

  limit_read : load32 with_base (p.esp + 8) ≡ load32 p.mem (p.esp + 8)
  limit_read = load32-same p.mem with_base (p.esp + 8) λ b from to.
      let at : ptr_add operand 2 ≡ operand + 2 = omega (arith, placed) in
      store32-other with_ebx (ptr_add operand 2) _ b (ground (arith, apart, at))
      ∙ store32-other p.mem (p.esp - 4) p.ebx b (inr (omega (arith, called.room)))

  module _ (s : Machine) (memory : p.mem ≡ s.tty.mem) (registers : p.cpu ≡ s.cpu) where
    stored-same : (a : ℕ) → (a < p.esp - 4) ⊎ (p.esp ≤ a) → stored a ≡ (loaded w p s).tty.mem a
    unfolding segment_set_gdtr_asm_prot ◌>>=◌
    stored-same a out =
        store16-agree with_base (store32 p.mem (ptr_add operand 2) (load32 with_ebx (p.esp + 4)))
          operand _ a
          (store32-agree with_ebx p.mem (ptr_add operand 2) _ a
            (store32-other p.mem (p.esp - 4) p.ebx a (ground (arith, out, called.room))))
        ∙ ap
            (λ l.
              store16 (store32 p.mem (ptr_add operand 2) (load32 with_ebx (p.esp + 4))) operand
                (u16 l) a)
            limit_read
        ∙ ap
            (λ v.
              store16 (store32 p.mem (ptr_add operand 2) v) operand (u16 (load32 p.mem (p.esp + 8)))
                a)
            base_read
        ∙ ap
            (λ m.
              store16 (store32 m (ptr_add operand 2) (load32 p.mem (p.esp + 4))) operand
                (u16 (load32 p.mem (p.esp + 8))) a)
            memory

    loaded-cpu : final.cpu ≡ (loaded w p s).cpu
    unfolding segment_set_gdtr_asm_prot ◌>>=◌
    loaded-cpu =
        let at : ptr_add operand 2 ≡ operand + 2 = omega (arith, placed) in
        let limit : load16 stored operand ≡ load16 (loaded w p s).tty.mem operand =
          load16-same (loaded w p s).tty.mem stored operand
            (stored-same operand (ground (arith, apart, called.room)))
            (stored-same (operand + 1) (ground (arith, apart, called.room))) in
        let base : load32 stored (ptr_add operand 2)
            ≡ load32 (loaded w p s).tty.mem (ptr_add operand 2) =
          load32-same (loaded w p s).tty.mem stored (ptr_add operand 2)
            λ b from to. stored-same b (ground (arith, apart, at, called.room)) in
        ap
          (λ (k : Cpu). record k {
            gdtr_limit = load16 stored operand;
            gdtr_base = load32 stored (ptr_add operand 2);
          })
          registers
        ∙ ap (λ x. record s.cpu { gdtr_limit = x; gdtr_base = load32 stored (ptr_add operand 2) })
            limit
        ∙ ap
            (λ x. record s.cpu {
              gdtr_limit = load16 (loaded w p s).tty.mem operand;
              gdtr_base = x;
            })
            base

    -- Called as a C function, with room on the stack and the operand of LGDT apart from it, the
    -- routine that loads GDTR comes back to its caller with EBX, EBP, ESP and EFLAGS as C code
    -- expects them, and does to GDTR, the other system registers and memory, but for four bytes
    -- below the stack, what `segment_set_gdtr_asm_prot` does for the two arguments on the stack.
    pub set_gdtr_code-Performs : Performs 4 (loaded w p s) p (run callee false (set_gdtr_code w) p)
    set_gdtr_code-Performs = subst (Performs 4 (loaded w p s) p) (sym run-set_gdtr) (record {
      comes_back =
          (load32-same p.mem stored p.esp (λ b from to. above-kept b from (omega arith)), refl);
      keeps = (ebx_read, refl, refl);
      same_cpu = loaded-cpu;
      same_mem = stored-same;
    })
