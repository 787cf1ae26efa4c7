-- ===== src/Examples.antt =====
-- Sample worlds and states, and the theorems of the library at work on them.
pub mod Console
pub mod Memory
pub mod Tables
pub mod Interrupts
pub mod Stubs
pub mod Routines
pub mod Boot
pub mod Driver
pub mod Controller
use chp_os.Base.{
  ℕ, ◌+◌, ◌-◌, ◌*◌, ◌/◌, ◌%◌, ◌==◌, leb, ltb, ◌&&◌, if◌then◌else◌, Option, none, some, [], ◌∷◌,
  List, String, true, false,
}
use chp_os.Memory.{Mem}
use chp_os.Tty.{Tty}
use chp_os.Interrupt.Linked.{stub_of}
use chp_os.Machine.{
  Arg, Io, Layout, Code, isr_dispatch, isr_user_stub, test_handler, World, Cpu, debug, type_unknown,
  not_connected, Device, Ps2Vars, Machine,
}

-- A place for each object, behind the text buffer and apart from the others.
abbrev pub sample_layout : Layout
sample_layout = record {
  gdt = 0x110000;
  idt = 0x112000;
  gdtr_limit = 0x111000;
  idtr = 0x113000;
  isr_dispatch_table = 0x114000;
  isr_user_handlers = 0x114400;
}

-- The address of the sample handler; the stub of vector `i` is at `256 * i + 7`.
abbrev pub sample_handler : ℕ
sample_handler = 0x200000

abbrev pub sample_code : ℕ → Option Code
sample_code address =
    if address == sample_handler
    then some test_handler
    else if address % 256 == 7
    then some (stub_of (address / 256))
    else none

abbrev pub sample_address : Code → ℕ
sample_address (isr_dispatch i) = 256 * i + 7
sample_address (isr_user_stub i) = 256 * i + 7
sample_address test_handler = sample_handler

-- printf gives one letter, and a port gives the byte that says "ready" and "nothing wrong".
abbrev pub sample_world : World
sample_world = record {
  render = λ fmt args. b'p' ∷ [];
  answer = λ io port. if port == 0x64 then 0x01 else 0;
  layout = sample_layout;
  code = sample_code;
}

-- Zero but for the dispatch table.
abbrev pub sample_mem : Mem
sample_mem a =
    if leb 0x114000 a && ltb a 0x114400
    then (if a % 4 == 0 then 7 else if a % 4 == 1 then (a - 0x114000) / 4 else 0)
    else 0

-- The state of the variables of tty.c at the start.
abbrev pub sample_tty : Tty
sample_tty = record { mem = sample_mem; col = 0; row = 0; color = 0x0f }

-- The cursor at the last cell of the screen.
abbrev pub last_cell_tty : Tty
last_cell_tty = record { mem = sample_mem; col = 79; row = 24; color = 0x0f }

abbrev sample_device : Device
sample_device = record { type = type_unknown; status = not_connected; is_port_1 = true }

abbrev pub sample_machine : Machine
sample_machine = record {
  tty = sample_tty;
  cpu = record {
    gdtr_base = 0;
    gdtr_limit = 0;
    idtr_base = 0;
    idtr_limit = 0;
    cs = 0;
    ss = 0;
    ds = 0;
    es = 0;
    fs = 0;
    gs = 0;
  };
  io = [];
  log_current_level = debug;
  gdt_limit = 0;
  ps2 = record {
    is_dual_channel = false;
    is_port1_valid = false;
    is_port2_valid = false;
    device1 = sample_device;
    device2 = record sample_device { is_port_1 = false };
  };
}
