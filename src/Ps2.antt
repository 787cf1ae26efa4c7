-- ===== src/Ps2.antt =====
-- kernel/src/io/ps2/ps2.c: the PS/2 controller driver, up to the self checks of the ports.
pub mod Device
pub mod Init
pub mod Keeps
pub mod Handshake
pub mod Frame
pub mod Polls
pub mod Wait
pub mod Writes
pub mod Config
pub mod SelfCheck
pub mod Outcome
pub mod Quiet
pub mod Exchange
pub mod Messages
pub mod Says
pub mod Reset
pub mod Typing
pub mod Report
pub mod Progress
pub mod Printed
pub mod Answers
pub mod Result
pub mod Ports
pub mod Receive
pub mod Controller
pub mod Queue
pub mod Ids
pub mod Meets
pub mod Course
pub mod Found
use chp_os.Base.{
  ℕ, zero, suc, ◌-◌, ◌==◌, if◌then◌else◌, Bool, true, false, not, ◌&&◌, List, [], ◌∷◌, bit_and,
  bit_or, ℤ, pos, negsuc, leb, u8, String,
}
use chp_os.Machine.{
  Machine, M, pure, ◌>>=◌, ◌>>◌, skip, on_ps2, World, printf, inb, outb, num, str, Arg, Ps2Vars,
}

abbrev pub io_port_ps2_data : ℕ
io_port_ps2_data = 0x60

abbrev pub io_port_ps2_status : ℕ
io_port_ps2_status = 0x64

abbrev pub io_port_ps2_command : ℕ
io_port_ps2_command = 0x64

-- `IO_COMMAND_PS2_*`
pub data Command : Type 0 where
  disable_1 disable_2 enable_1 enable_2 test_controller test_port_1 test_port_2 : Command
  read_config write_config write_port2_input : Command

abbrev pub command_byte : Command → ℕ
command_byte disable_1 = 0xad
command_byte disable_2 = 0xa7
command_byte enable_1 = 0xae
command_byte enable_2 = 0xa8
command_byte test_controller = 0xaa
command_byte test_port_1 = 0xab
command_byte test_port_2 = 0xa9
command_byte read_config = 0x20
command_byte write_config = 0x60
command_byte write_port2_input = 0xd4

-- `PS2_CONFIG_*_BIT`
abbrev pub config_interrupt_1_bit : ℕ
config_interrupt_1_bit = 0x01

abbrev pub config_interrupt_2_bit : ℕ
config_interrupt_2_bit = 0x02

abbrev pub config_clock_1_bit : ℕ
config_clock_1_bit = 0x10

abbrev pub config_clock_2_bit : ℕ
config_clock_2_bit = 0x20

abbrev pub config_translate_1_bit : ℕ
config_translate_1_bit = 0x20

-- `~x` of a byte, as far as a byte of it is used.
abbrev pub complement : ℕ → ℕ
complement x = 255 - x

-- `enum ps2_error`
pub data Ps2Error : Type 0 where
  error_none error_timeout : Ps2Error

-- `if (error != ps2_error_none) m else k`
abbrev pub if_timeout : {A : Type 0} → Ps2Error → M A → M A → M A
if_timeout error_timeout m k = m
if_timeout error_none m k = k

abbrev pub yes_no : Bool → Arg
yes_no b = str (if b then "yes" else "no")

-- `return timeout <= 0 ? ps2_error_timeout : ps2_error_none;`
abbrev pub timeout_error : ℤ → Ps2Error
timeout_error (pos zero) = error_timeout
timeout_error (pos (suc t)) = error_none
timeout_error (negsuc t) = error_timeout

-- `while (!ready() && timeout-- > 0);` gives the value that `timeout` ends with.
unfoldable pub wait_until : M Bool → (timeout : ℕ) → M ℤ
wait_until ready zero = do r ← ready; pure (if r then pos 0 else negsuc 0)
wait_until ready (suc timeout) = do
  r ← ready
  elim r [ true ↦ pure (pos (suc timeout)) | false ↦ wait_until ready timeout ]

-- The value of a variable of ps2.c.
abbrev pub get_var : {A : Type 0} → (Ps2Vars → A) → M A
get_var f s = (f s.ps2, s)

module _ (w : World) where
  unfoldable pub ps2_write_data : ℕ → M (Unit {0})
  ps2_write_data byte = outb w io_port_ps2_data byte

  unfoldable pub ps2_read_data : M ℕ
  ps2_read_data = inb w io_port_ps2_data

  unfoldable pub ps2_write_command : Command → M (Unit {0})
  ps2_write_command c = outb w io_port_ps2_command (command_byte c)

  unfoldable pub ps2_read_status : M ℕ
  ps2_read_status = inb w io_port_ps2_status

  unfoldable pub ps2_input_ready : M Bool
  ps2_input_ready = do
    status_data ← ps2_read_status
    pure (not (bit_and (complement status_data) 0x02 == 0))

  unfoldable pub ps2_wait_input_ready : M Ps2Error
  ps2_wait_input_ready = do
    timeout ← wait_until ps2_input_ready 100000000
    pure (timeout_error timeout)

  unfoldable pub ps2_output_ready : M Bool
  ps2_output_ready = do status_data ← ps2_read_status; pure (not (bit_and status_data 0x01 == 0))

  unfoldable pub ps2_wait_output_ready : M Ps2Error
  ps2_wait_output_ready = do
    timeout ← wait_until ps2_output_ready 10000
    pure (timeout_error timeout)

  -- `ps2_wait_input_ready(); ps2_write_command(c);`, which the driver does again and again.
  abbrev pub wait_command : Command → M (Unit {0})
  wait_command c = do ps2_wait_input_ready; ps2_write_command c

  -- `ps2_wait_input_ready(); ps2_write_data(byte);`
  abbrev pub wait_data : ℕ → M (Unit {0})
  wait_data byte = do ps2_wait_input_ready; ps2_write_data byte

  -- `ps2_wait_output_ready(); .. = ps2_read_data();`
  abbrev pub wait_read : M ℕ
  wait_read = do ps2_wait_output_ready; ps2_read_data

  unfoldable pub ps2_check_dual_channel : M (Unit {0})
  ps2_check_dual_channel = do
    wait_command enable_2
    wait_command read_config
    config ← wait_read
    let is_dual = not (bit_and (complement config) config_clock_2_bit == 0)
    on_ps2 (λ v. record v { is_dual_channel = is_dual })
    printf w "ps/2: dual channel: %s\n" (yes_no is_dual ∷ [])
    if is_dual
        then (do
          wait_command disable_2
          wait_command read_config
          config2 ← wait_read
          wait_command write_config
          wait_data
              (bit_and config2 (complement (bit_or config_interrupt_2_bit config_clock_2_bit))))
        else skip

  -- The rounds of the loop of `ps2_ports_self_check`: the command and the flag of a port.
  unfoldable pub port_self_check : Command → (port : ℕ) → (Bool → Ps2Vars → Ps2Vars) → M (Unit {0})
  port_self_check cmd port set_flag = do
    wait_command cmd
    response ← wait_read
    let port_okay = response == 0x00
    on_ps2 (set_flag port_okay)
    printf w "ps/2: port %u self-check okay: %s (response=0x%x)\n"
        (num port ∷ yes_no port_okay ∷ num response ∷ [])

  unfoldable pub ps2_ports_self_check : M (Unit {0})
  ps2_ports_self_check = do
    port_self_check test_port_1 1 (λ b v. record v { is_port1_valid = b })
    port_self_check test_port_2 2 (λ b v. record v { is_port2_valid = b })

  unfoldable pub ps2_enable_ports : M (Unit {0})
  ps2_enable_ports = do
    valid1 ← get_var (λ v. v.is_port1_valid)
    if valid1 then wait_command enable_1 else skip
    valid2 ← get_var (λ v. v.is_port2_valid)
    if valid2 then wait_command enable_2 else skip
    wait_command read_config
    config ← wait_read
    let config1 = if valid1 then bit_or config config_interrupt_1_bit else config
    let config2 = if valid2 then bit_or config1 config_interrupt_2_bit else config1
    wait_command write_config
    wait_data config2
    printf w "ps/2: ports enabled (1: %s, 2: %s)\n" (yes_no valid1 ∷ yes_no valid2 ∷ [])
