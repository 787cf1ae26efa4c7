-- ===== src/Machine.antt =====
-- The state that the kernel's files share, the machine that they run on, and what of both stands
-- outside the sources: printf of libc/stdio.c (a copy of another project's library), the addresses
-- that the linker gives, and the devices behind the I/O ports.
-- kernel/src/io/arch/i686/inout.c and kernel/src/log are here.
pub mod Runs
pub mod Processor
pub mod Routines
pub mod Changes
pub mod Displays
use chp_os.Base.{ℕ, ◌+◌, List, [], ◌∷◌, leb, if◌then◌else◌, String, Bool, Option, u8}
use chp_os.Memory.{Mem, store16, store32}
use chp_os.Tty.{Tty}
use chp_os.Tty.Tables.{put_all}

-- An argument of printf.
pub data Arg : Type 0 where
  num : ℕ → Arg
  str : String → Arg

-- One access to an I/O port.
pub data Io : Type 0 where
  read : (port value : ℕ) → Io
  wrote : (port value : ℕ) → Io

-- Where the linker puts the objects that the processor or the assembly code reads.
pub record Layout : Type 0 where
  pub gdt : ℕ
  pub idt : ℕ
  pub gdtr_limit : ℕ
  pub idtr : ℕ
  pub isr_dispatch_table : ℕ
  pub isr_user_handlers : ℕ

-- The routines that the processor reaches through addresses in memory: the stubs of asm_bits.s
-- and the handlers.
pub data Code : Type 0 where
  isr_dispatch : (id : ℕ) → Code
  isr_user_stub : (id : ℕ) → Code
  test_handler : Code

-- What stands outside the sources. `render` is the bytes that printf passes to `_putchar` for a
-- format and its arguments; `answer` is the byte that a port gives after a history of accesses, the
-- latest first; `code` is the routine that the linker puts at an address.
pub record World : Type 0 where
  pub render : String → List Arg → List ℕ
  pub answer : List Io → ℕ → ℕ
  pub layout : Layout
  pub code : ℕ → Option Code

-- The registers of the processor that the kernel sets.
pub record Cpu : Type 0 where
  pub gdtr_base : ℕ
  pub gdtr_limit : ℕ
  pub idtr_base : ℕ
  pub idtr_limit : ℕ
  pub cs : ℕ
  pub ss : ℕ
  pub ds : ℕ
  pub es : ℕ
  pub fs : ℕ
  pub gs : ℕ

-- `enum log_level`: the higher, the more is said.
pub data LogLevel : Type 0 where
  info debug : LogLevel

abbrev pub level : LogLevel → ℕ
level info = 0
level debug = 1

-- `enum ps2_device_type`
pub data DeviceType : Type 0 where
  type_unknown type_none type_00 type_03 : DeviceType

-- `enum ps2_device_status`
pub data DeviceStatus : Type 0 where
  not_connected self_check_fail no_device_id okay : DeviceStatus

-- `struct ps2_device`
pub record Device : Type 0 where
  pub type : DeviceType
  pub status : DeviceStatus
  pub is_port_1 : Bool

-- The variables of ps2.c.
pub record Ps2Vars : Type 0 where
  pub is_dual_channel : Bool
  pub is_port1_valid : Bool
  pub is_port2_valid : Bool
  pub device1 : Device
  pub device2 : Device

pub record Machine : Type 0 where
  pub tty : Tty
  pub cpu : Cpu
  pub io : List Io
  pub log_current_level : LogLevel
  pub gdt_limit : ℕ
  pub ps2 : Ps2Vars

-- Kernel code: the state before to a result and the state after.
abbrev pub M : Type 0 → Type 0
M A = Machine → A × Machine

abbrev pub pure : {A : Type 0} → A → M A
pure a s = (a, s)

infixl 5 ◌>>=◌ ◌>>◌
unfoldable pub ◌>>=◌ : {A B : Type 0} → M A → (A → M B) → M B
◌>>=◌ m f s = let (a, s') = m s in f a s'

abbrev pub ◌>>◌ : {A B : Type 0} → M A → M B → M B
m >> k = m >>= λ _. k

-- Nothing to do.
abbrev pub skip : M (Unit {0})
skip = pure tt

abbrev pub get_state : M Machine
get_state s = (s, s)

abbrev pub modify : (Machine → Machine) → M (Unit {0})
modify f s = (tt, f s)

abbrev pub on_tty : (Tty → Tty) → M (Unit {0})
on_tty f = modify λ s. record s { tty = f s.tty }

abbrev pub on_mem : (Mem → Mem) → M (Unit {0})
on_mem f = on_tty λ t. record t { mem = f t.mem }

abbrev pub on_cpu : (Cpu → Cpu) → M (Unit {0})
on_cpu f = modify λ s. record s { cpu = f s.cpu }

abbrev pub on_ps2 : (Ps2Vars → Ps2Vars) → M (Unit {0})
on_ps2 f = modify λ s. record s { ps2 = f s.ps2 }

unfoldable pub log_get_current_level : M LogLevel
log_get_current_level s = (s.log_current_level, s)

module _ (w : World) where
  -- printf gives each byte of its output to `_putchar`.
  unfoldable pub printf : String → List Arg → M (Unit {0})
  printf fmt args = on_tty (put_all (w.render fmt args))

  -- `ASSERT`, which prints and goes on; `fmt` is the joined literal `"Assertion failed" #condition`.
  abbrev pub assert : (condition : Bool) → (fmt : String) → M (Unit {0})
  assert condition fmt = if condition then skip else printf fmt []

  -- `ASSERT_MSG`; `fmt` is `"Assertion failed: " #condition ", " msg "\n"`.
  abbrev pub assert_msg : (condition : Bool) → (fmt : String) → List Arg → M (Unit {0})
  assert_msg condition fmt args = if condition then skip else printf fmt args

  -- `LOG_DEBUG`; `fmt` is the joined literal `"[" mod "]: " fmt "\n"`.
  unfoldable pub log_debug : (fmt : String) → List Arg → M (Unit {0})
  log_debug fmt args = do
    current ← log_get_current_level
    if leb (level debug) (level current) then printf fmt args else skip

  unfoldable pub outb : (port val : ℕ) → M (Unit {0})
  outb port val = modify λ s. record s { io = wrote port val ∷ s.io }

  unfoldable pub inb : (port : ℕ) → M ℕ
  inb port s =
      let result = u8 (w.answer s.io port) in (result, record s { io = read port result ∷ s.io })
