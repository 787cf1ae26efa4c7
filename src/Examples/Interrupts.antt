-- ===== src/Examples/Interrupts.antt =====
-- The interrupts of the sample world.
use chp_os.Base.{
  ℕ, ◌+◌, ◌*◌, ◌≤◌, ◌<◌, ◌≡◌, ◌≢◌, refl, arith, some, none, ◌==◌, ltb, if◌then◌else◌, false, u32,
}
use chp_os.Memory.{load32}
use chp_os.Machine.Changes.{Changes}
use chp_os.Interrupt
use chp_os.Interrupt.{dispatch_entry, idt_entry, idt_init, idt_flush, idt_register_handler}
use chp_os.Interrupt.Gates.{gate_at, interrupt_gate}
use chp_os.Interrupt.Table.{sizeof_idt, idt_init-Gates, idt_init-Changes, idt_init_past_end}
use chp_os.Interrupt.Handlers.{idt_register_handler-stub}
use chp_os.Kernel.{software_interrupt}
use chp_os.Kernel.SetUp.{IsLaidOut, HasStubs, set_up}
use chp_os.Kernel.Delivery.{software_interrupt-past_limit}
use chp_os.Examples.{sample_world, sample_mem, sample_machine, sample_handler}
use chp_os.Examples.Tables.{sample_machine-IsValid}

idt_init-Gates_example :
    gate_at (idt_init sample_world sample_machine).1.tty.mem (idt_entry sample_world 33)
    ≡ interrupt_gate (u32 (dispatch_entry sample_world sample_mem 33)) 8 0
idt_init-Gates_example = idt_init-Gates sample_world (ground arith) sample_machine 33 (omega arith)

idt_init-Changes_example :
    Changes 0x112000 0x112800 sample_machine (idt_init sample_world sample_machine).1
idt_init-Changes_example =
    idt_init-Changes sample_world (ground arith) sample_machine sample_machine-IsValid

idt_init_past_end_example :
    (a : ℕ) × (0x112000 + sizeof_idt ≤ a)
    × ((idt_init sample_world sample_machine).1.tty.mem a ≡ 0x8e)
idt_init_past_end_example = idt_init_past_end sample_world (omega arith) sample_machine

idt_register_handler-stub_example :
    let s' = (idt_register_handler sample_world 32 sample_handler sample_machine).1 in
    ((Interrupt.isr_user_stub sample_world 32 s').0
      ≡ (if ltb 32 32 then none else if sample_handler == 0 then none else some sample_handler))
    × ((u : ℕ)
        → u < 256
        → u ≢ 32
        → (Interrupt.isr_user_stub sample_world u s').0
          ≡ (Interrupt.isr_user_stub sample_world u sample_machine).0)
    × (load32 s'.tty.mem 0x114480 ≡ sample_handler)
idt_register_handler-stub_example =
    idt_register_handler-stub sample_world (omega arith) sample_machine sample_machine-IsValid 32
      sample_handler (omega arith) (omega arith)

pub sample_world-IsLaidOut : IsLaidOut sample_world
sample_world-IsLaidOut = record {
  idt_placed = ground arith;
  idtr_placed = omega arith;
  handlers_placed = omega arith;
  idtr_idt = ground arith;
  idtr_handlers = ground arith;
  handlers_idt = ground arith;
}

dispatched : (i : ℕ) → i < 256 → u32 (dispatch_entry sample_world sample_mem i) ≡ 256 * i + 7
unfolding load32
dispatched i h = ground arith

pub sample_world-HasStubs : HasStubs sample_world sample_mem
sample_world-HasStubs i ge lt = rw (dispatched i lt) (ground arith)

pub unset : load32 sample_mem 0x114484 ≡ 0
unfolding load32
unset = refl

software_interrupt-past_limit_example :
    let ready = set_up sample_world 32 sample_handler sample_machine in
    software_interrupt sample_world 255 ready ≡ (false, ready)
software_interrupt-past_limit_example =
    software_interrupt-past_limit sample_world sample_world-IsLaidOut sample_machine
      sample_machine-IsValid sample_world-HasStubs 32 sample_handler (omega arith) (omega arith)
