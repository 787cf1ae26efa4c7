-- ===== src/Examples/Stubs.antt =====
-- The stubs at work in the sample world.
use chp_os.Base.{ℕ, ◌≡◌, refl, arith, inr, false, u16}
use chp_os.Machine.{Machine}
use chp_os.Interrupt
use chp_os.Interrupt.{idt_register_handler}
use chp_os.Base.{true}
use chp_os.Machine.{◌>>=◌}
use chp_os.Memory.{store32, load32}
use chp_os.Machine.Processor.{Proc, returns_to, stacked, iret, execute, run}
use chp_os.Interrupt.Stubs.{interrupt, generic_isr_dispatch, isr_user_stub_x, enter_error}
use chp_os.Interrupt.Stubs.Frame.{IsReady, frame, resume, saved}
use chp_os.Interrupt.Stubs.Return.{
  before_iret, served, isr_user_stub_x-resumes, generic_isr_dispatch-returns,
}
use chp_os.Examples.{sample_world, sample_machine, sample_mem, sample_handler}

-- The sample machine with a flat code segment in its table.
abbrev segmented : Machine
segmented = record sample_machine {
  tty = record sample_machine.tty {
    mem = store32 (store32 sample_mem 0x110008 0x0000ffff) 0x11000c 0x00cf9a00;
  };
  cpu = record sample_machine.cpu { gdtr_base = 0x110000; gdtr_limit = 23 };
}

-- The sample handler is set for the vector 32.
abbrev handled : Machine
handled = (idt_register_handler sample_world 32 sample_handler segmented).1

-- Kernel code with a stack below 0x100000.
abbrev sample_proc : Proc
sample_proc = record {
  eax = 7;
  ebx = 9;
  ebp = 0xffff0;
  esp = 0xfffe0;
  eip = 0x201000;
  eflags = 0x202;
  fault = false;
  cpu = record handled.cpu { cs = 8 };
  mem = handled.tty.mem;
}

sample_proc-IsReady : IsReady sample_proc
sample_proc-IsReady = record {
  room = omega arith;
  esp_in = omega arith;
  ebp_in = omega arith;
  eip_in = omega arith;
  cs_in = omega arith;
  eflags_in = omega arith;
}

sample_proc-returns : returns_to sample_proc.cpu (frame sample_proc) (u16 sample_proc.cpu.cs) ≡ true
unfolding idt_register_handler store32 load32 ◌>>=◌
sample_proc-returns = refl

-- A handler that leaves its result in EAX.
abbrev sample_callee : ℕ → Proc → Proc
sample_callee address p = record p { eax = 42 }

isr_user_stub_x-resumes_example :
    interrupt sample_callee (isr_user_stub_x sample_world 32) sample_proc
    ≡ resume sample_proc
        (served sample_callee sample_proc (Interrupt.isr_user_stub sample_world 32 handled).0)
isr_user_stub_x-resumes_example =
    isr_user_stub_x-resumes sample_callee sample_proc sample_proc-IsReady sample_proc-returns
      sample_world 32 handled refl (inr (omega arith)) (omega arith)
      (λ ne. record {
        same_esp = refl;
        same_frame = λ b from to. refl;
        same_code = sample_proc-returns;
      })

generic_isr_dispatch-returns_example :
    let at_iret = run sample_callee false before_iret (enter_error 0x18 sample_proc) in
    (interrupt sample_callee generic_isr_dispatch sample_proc
      ≡ resume sample_proc (saved sample_proc))
    × (run sample_callee false generic_isr_dispatch (enter_error 0x18 sample_proc)
        ≡ execute sample_callee iret at_iret)
    × (stacked 0 at_iret ≡ 0x18)
    × (stacked 4 at_iret ≡ 0x201000)
    × (stacked 8 at_iret ≡ 8)
generic_isr_dispatch-returns_example =
    generic_isr_dispatch-returns sample_callee sample_proc sample_proc-IsReady 0x18
      sample_proc-returns (omega arith) (omega arith)
