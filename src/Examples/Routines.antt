-- ===== src/Examples/Routines.antt =====
-- The routines of asm_bits.s called from C code in the sample world.
use chp_os.Base.{ℕ, ◌≤◌, refl, arith, inl, false}
use chp_os.Memory.{Mem, store32}
use chp_os.Machine.{Machine}
use chp_os.Machine.Processor.{Proc, run}
use chp_os.Machine.Routines.{IsCalled, Performs}
use chp_os.Segment.Gdtr.{set_gdtr_code, loaded, set_gdtr_code-Performs}
use chp_os.Interrupt.{idtr_reload}
use chp_os.Interrupt.Reload.{idtr_reload_code, idtr_reload_code-Performs}
use chp_os.Examples.{sample_world, sample_machine, sample_mem}

-- The stack below 0x100000: a return address, the place of the table and its limit.
abbrev stack_mem : Mem
stack_mem = store32 (store32 (store32 sample_mem 0xfffe0 0x201000) 0xfffe4 0x110000) 0xfffe8 23

abbrev calling : Machine
calling = record sample_machine { tty = record sample_machine.tty { mem = stack_mem } }

abbrev called_proc : Proc
called_proc = record {
  eax = 7;
  ebx = 9;
  ebp = 0xffff0;
  esp = 0xfffe0;
  eip = 0;
  eflags = 0x202;
  fault = false;
  cpu = calling.cpu;
  mem = stack_mem;
}

abbrev no_callee : ℕ → Proc → Proc
no_callee address p = p

called_proc-IsCalled : (depth : ℕ) → depth ≤ 8 → IsCalled depth called_proc
called_proc-IsCalled depth small = record {
  room = omega arith;
  top = omega arith;
  ebx_in = omega arith;
  ebp_in = omega arith;
  eflags_in = omega arith;
}

set_gdtr_code-Performs_example :
    Performs 4
      (loaded sample_world called_proc calling)
      called_proc
      (run no_callee false (set_gdtr_code sample_world) called_proc)
set_gdtr_code-Performs_example =
    set_gdtr_code-Performs sample_world no_callee called_proc (called_proc-IsCalled 4 (omega arith))
      (omega arith) (inl (omega arith)) calling refl refl

idtr_reload_code-Performs_example :
    Performs 8
      (idtr_reload sample_world calling).1
      called_proc
      (run no_callee false (idtr_reload_code sample_world) called_proc)
idtr_reload_code-Performs_example =
    idtr_reload_code-Performs sample_world no_callee called_proc
      (called_proc-IsCalled 8 (omega arith)) (omega arith) (inl (omega arith)) calling refl refl
