-- ===== src/Interrupt/Stubs.antt =====
-- kernel/src/system/asm_bits.s: the stubs of the interrupts, instruction by instruction, with the
-- frame that the processor pushes before them.
pub mod Frame
pub mod Return
use chp_os.Base.{ℕ, ◌-◌, ◌*◌, ◌^◌, false, List, [], ◌∷◌, bit_and}
use chp_os.Machine.{World}
use chp_os.Machine.Processor.{
  Proc, Instruction, eax, ebp, esp, push, pop, mov, mov_constant, mov_from, test, jz, call, iret,
  pushed, run,
}
use chp_os.Interrupt.{seg_sel}

-- The body of the macro `generic_isr_dispatch`.
abbrev pub generic_isr_dispatch : List Instruction
generic_isr_dispatch = push ebp ∷ mov esp ebp ∷ pop ebp ∷ iret ∷ []

-- The body of the macro `isr_user_stubX`; the label is behind the call.
abbrev pub isr_user_stub_x : World → (id : ℕ) → List Instruction
isr_user_stub_x w id =
    push ebp
    ∷ mov esp ebp
    ∷ mov_constant w.layout.isr_user_handlers eax
    ∷ mov_from (id * 4) eax eax
    ∷ test eax
    ∷ jz
    ∷ call eax
    ∷ pop ebp
    ∷ iret
    ∷ []

-- The flags that the processor clears at an interrupt gate: TF, IF, NT, RF and VM.
abbrev pub cleared_flags : ℕ
cleared_flags = 0x34300

-- The processor pushes EFLAGS, CS and EIP and takes the code segment of the gate.
unfoldable pub enter : Proc → Proc
enter p =
    let framed = pushed p.eip (pushed p.cpu.cs (pushed p.eflags p)) in
    record framed {
      cpu = record p.cpu { cs = seg_sel };
      eflags = bit_and p.eflags (2 ^ 32 - 1 - cleared_flags);
    }

-- Some exceptions moreover push an error code.
unfoldable pub enter_error : (error_code : ℕ) → Proc → Proc
enter_error error_code p = pushed error_code (enter p)

-- An interrupt of the code of the kernel, up to the return.
abbrev pub interrupt : (callee : (address : ℕ) → Proc → Proc) → List Instruction → Proc → Proc
interrupt callee code p = run callee false code (enter p)
