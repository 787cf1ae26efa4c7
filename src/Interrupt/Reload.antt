-- ===== src/Interrupt/Reload.antt =====
-- kernel/src/system/asm_bits.s: the routine that loads IDTR, instruction by instruction, and that it
-- does what the model of interrupt.c takes it for.
use chp_os.Base.{
  ℕ, ◌+◌, ◌-◌, ◌^◌, ◌≤◌, ◌<◌, ◌≡◌, ◌⊎◌, refl, ap, ◌∙◌, sym, subst, inr, arith, false, List, [], ◌∷◌,
  u32, ptr_add,
}
use chp_os.Memory.{Mem, load16, store32, load32}
use chp_os.Memory.Access.{
  store32-other, load32-store32, load32-store32_other, load32-same, load16-same,
}
use chp_os.Machine.{Machine, World, Cpu}
use chp_os.Machine.Processor.{
  Proc, Instruction, esp, push, pop, mov, pushf, popf, cli, lidt, ebp, ret, execute, run,
}
use chp_os.Machine.Routines.{IsCalled, Performs}
use chp_os.Interrupt.{idtr_reload}

abbrev pub idtr_reload_code : World → List Instruction
idtr_reload_code w =
    push ebp ∷ mov esp ebp ∷ pushf ∷ cli ∷ lidt w.layout.idtr ∷ popf ∷ pop ebp ∷ ret ∷ []

module _ (w : World) (callee : ℕ → Proc → Proc) (p : Proc) (called : IsCalled 8 p)
    (placed : w.layout.idtr + 6 ≤ 2 ^ 32)
    (apart : (p.esp ≤ w.layout.idtr) ⊎ (w.layout.idtr + 6 ≤ p.esp - 8)) (s : Machine)
    (memory : p.mem ≡ s.tty.mem) (registers : p.cpu ≡ s.cpu) where
  abbrev operand : ℕ
  operand = w.layout.idtr

  abbrev saved : Mem
  saved = store32 (store32 p.mem (p.esp - 4) p.ebp) (p.esp - 8) p.eflags

  abbrev final : Proc
  final = record p {
    ebp = load32 saved (p.esp - 4);
    eflags = load32 saved (p.esp - 8);
    esp = p.esp + 4;
    eip = load32 saved p.esp;
    cpu = record p.cpu {
      idtr_limit = load16 saved operand;
      idtr_base = load32 saved (ptr_add operand 2);
    };
    mem = saved;
  }

  run-idtr_reload : run callee false (idtr_reload_code w) p ≡ final
  unfolding run execute
  run-idtr_reload =
      let a1 : u32 (p.esp + 2 ^ 32 - 4) ≡ p.esp - 4 = omega (arith, called.room, called.top) in
      let a2 : u32 (p.esp - 4 + 2 ^ 32 - 4) ≡ p.esp - 8 = omega (arith, called.room, called.top) in
      let a3 : ptr_add (p.esp - 8) 0 ≡ p.esp - 8 = omega (arith, called.room, called.top) in
      let a4 : ptr_add (p.esp - 8) 4 ≡ p.esp - 4 = omega (arith, called.room, called.top) in
      let a5 : ptr_add (p.esp - 4) 0 ≡ p.esp - 4 = omega (arith, called.room, called.top) in
      let a6 : ptr_add (p.esp - 4) 4 ≡ p.esp = omega (arith, called.room, called.top) in
      let a7 : ptr_add p.esp 0 ≡ p.esp = omega (arith, called.room, called.top) in
      let a8 : ptr_add p.esp 4 ≡ p.esp + 4 = omega (arith, called.room, called.top) in
      rw (a1, a2, a3, a4, a5, a6, a7, a8) refl

  saved-same : (a : ℕ) → (a < p.esp - 8) ⊎ (p.esp ≤ a) → saved a ≡ s.tty.mem a
  saved-same a out =
      store32-other (store32 p.mem (p.esp - 4) p.ebp) (p.esp - 8) p.eflags a
        (ground (arith, out, called.room))
      ∙ store32-other p.mem (p.esp - 4) p.ebp a (ground (arith, out, called.room))
      ∙ ap (λ m. m a) memory

  ebp_read : load32 saved (p.esp - 4) ≡ p.ebp
  ebp_read =
      load32-store32_other (store32 p.mem (p.esp - 4) p.ebp) (p.esp - 8) p.eflags (p.esp - 4)
        (inr (omega (arith, called.room)))
      ∙ load32-store32 p.mem (p.esp - 4) p.ebp called.ebp_in

  loaded-cpu : final.cpu ≡ (idtr_reload w s).1.cpu
  unfolding idtr_reload
  loaded-cpu =
      let at : ptr_add operand 2 ≡ operand + 2 = omega (arith, placed) in
      let limit : load16 saved operand ≡ load16 s.tty.mem operand =
        load16-same s.tty.mem saved operand
          (saved-same operand (ground (arith, apart, called.room)))
          (saved-same (operand + 1) (ground (arith, apart, called.room))) in
      let base : load32 saved (ptr_add operand 2) ≡ load32 s.tty.mem (ptr_add operand 2) =
        load32-same s.tty.mem saved (ptr_add operand 2)
          λ b from to. saved-same b (ground (arith, apart, at, called.room)) in
      ap
        (λ (k : Cpu). record k {
          idtr_limit = load16 saved operand;
          idtr_base = load32 saved (ptr_add operand 2);
        })
        registers
      ∙ ap (λ x. record s.cpu { idtr_limit = x; idtr_base = load32 saved (ptr_add operand 2) })
          limit
      ∙ ap (λ x. record s.cpu { idtr_limit = load16 s.tty.mem operand; idtr_base = x }) base

  -- Called as a C function, with room on the stack and the operand of LIDT apart from it, the
  -- routine that loads IDTR comes back to its caller with EBX, EBP, ESP and EFLAGS, the interrupt
  -- flag that it clears meanwhile included, as before, and does to IDTR, the other system registers
  -- and memory, but for eight bytes below the stack, what `idtr_reload` does.
  pub idtr_reload_code-Performs :
      Performs 8 (idtr_reload w s).1 p (run callee false (idtr_reload_code w) p)
  unfolding idtr_reload
  idtr_reload_code-Performs =
      subst (Performs 8 (idtr_reload w s).1 p) (sym run-idtr_reload) (record {
        comes_back = (
          load32-same p.mem saved p.esp
              (λ b from to. saved-same b (inr from) ∙ ap (λ m. m b) (sym memory)),
          refl,
        );
        keeps = (
          refl,
          ebp_read,
          load32-store32 (store32 p.mem (p.esp - 4) p.ebp) (p.esp - 8) p.eflags called.eflags_in,
        );
        same_cpu = loaded-cpu;
        same_mem = saved-same;
      })
