-- ===== src/Ps2/Device.antt =====
-- kernel/src/io/ps2/ps2.c: the exchange of bytes with a device, and its reset.
use chp_os.Base.{ℕ, ◌==◌, if◌then◌else◌, Bool, ◌||◌, List, [], ◌∷◌, bit_or, ◌<<<◌, u16, String}
use chp_os.Machine.{
  str, M, pure, ◌>>=◌, ◌>>◌, on_ps2, World, printf, num, Arg, Ps2Vars, Device, DeviceType,
  type_unknown, type_none, type_00, type_03, DeviceStatus, not_connected, self_check_fail, okay,
}
use chp_os.Ps2.{
  Ps2Error, error_none, error_timeout, if_timeout, ps2_wait_input_ready, ps2_wait_output_ready,
  ps2_write_command, ps2_write_data, ps2_read_data, write_port2_input,
}

-- A `ps2_device *`: the driver has two.
pub data DevicePtr : Type 0 where
  device1 device2 : DevicePtr

abbrev pub deref : DevicePtr → Ps2Vars → Device
deref device1 v = v.device1
deref device2 v = v.device2

abbrev pub assign : DevicePtr → (Device → Device) → Ps2Vars → Ps2Vars
assign device1 f v = record v { device1 = f v.device1 }
assign device2 f v = record v { device2 = f v.device2 }

abbrev pub load_device : DevicePtr → M Device
load_device p s = (deref p s.ps2, s)

-- `device->status = status`
abbrev pub set_status : DevicePtr → DeviceStatus → M (Unit {0})
set_status p status = on_ps2 (assign p λ d. record d { status = status })

-- `device->type = type`
abbrev pub set_type : DevicePtr → DeviceType → M (Unit {0})
set_type p type = on_ps2 (assign p λ d. record d { type = type })

abbrev pub type_code : DeviceType → ℕ
type_code type_unknown = 0
type_code type_none = 1
type_code type_00 = 2
type_code type_03 = 3

-- `reset_okay`: the order of the two response bytes may change.
abbrev pub reset_okay : (first second : ℕ) → Bool
reset_okay first second =
    let response = u16 (bit_or first (second <<< 8)) in (response == 0xaafa) || (response == 0xfaaa)

module _ (w : World) where
  -- `PS2_LOG_DEV`; `fmt` is the joined literal `"ps/2 (dev %u): " msg "\n"`.
  unfoldable pub ps2_log_dev : DevicePtr → (fmt : String) → List Arg → M (Unit {0})
  ps2_log_dev p fmt args = do
    d ← load_device p
    printf w fmt (num (if d.is_port_1 then 1 else 2) ∷ args)

  -- The part of `ps2_device_write_data` that both ports share.
  unfoldable pub write_when_ready : (byte : ℕ) → M Ps2Error
  write_when_ready byte = do
    error ← ps2_wait_input_ready w
    if_timeout error (pure error_timeout) (do ps2_write_data w byte; pure error_none)

  unfoldable pub ps2_device_write_data : DevicePtr → (byte : ℕ) → M Ps2Error
  ps2_device_write_data p byte = do
    d ← load_device p
    if d.is_port_1 then write_when_ready byte else (do
      error ← ps2_wait_input_ready w
      if_timeout error (pure error_timeout)
          (do ps2_write_command w write_port2_input; write_when_ready byte))

  -- The error, and what `*data` holds afterwards: on an error it keeps its value.
  unfoldable pub ps2_device_read_data : (old : ℕ) → M (Ps2Error × ℕ)
  ps2_device_read_data old = do
    error ← ps2_wait_output_ready w
    if_timeout error (pure (error_timeout, old))
        (do byte ← ps2_read_data w; pure (error_none, byte))

  -- The `switch` on the device id.
  unfoldable pub set_device_type : DevicePtr → (device_id : ℕ) → M (Unit {0})
  set_device_type p device_id = if device_id == 0x00 then set_type p type_00 else (do
    printf w "ps/2: WARN: unknown device id 0x%x\n" (num device_id ∷ [])
    set_type p type_unknown)

  -- From the successful self check on: the device id and the type.
  unfoldable pub identify_device : DevicePtr → M (Unit {0})
  identify_device p = do
    (error, device_id_1) ← ps2_device_read_data 0
    (error2, device_id_2) ← if_timeout error (pure (error_timeout, 0)) (ps2_device_read_data 0)
    set_status p okay
    set_device_type p (u16 (bit_or (device_id_2 <<< 8) device_id_1))
    d ← load_device p
    ps2_log_dev p "ps/2 (dev %u): initialized with type %u\n" (num (type_code d.type) ∷ [])

  -- `PS2_LOG_DEV(device, ..); device->status = status;`, before an early return.
  unfoldable pub give_up : DevicePtr → (fmt : String) → DeviceStatus → M (Unit {0})
  give_up p fmt status = do ps2_log_dev p fmt (str "" ∷ []); set_status p status

  -- After the first response byte, which is not FC: the second one, and the check of the two.
  unfoldable pub check_response : DevicePtr → (first : ℕ) → M (Unit {0})
  check_response p first = do
    (error, out) ← ps2_device_read_data first
    if_timeout error (give_up p "ps/2 (dev %u): self-check fail 2\n" self_check_fail) (
        if reset_okay first out
        then identify_device p
        else give_up p "ps/2 (dev %u): self-check fail 3\n" self_check_fail)

  unfoldable pub ps2_reset_device : DevicePtr → M (Unit {0})
  ps2_reset_device p = do
    set_status p not_connected
    ps2_device_write_data p 0xff
    (error, out) ← ps2_device_read_data 0
    if_timeout error (give_up p "ps/2 (dev %u): not connected\n" not_connected) (
        if 0xfc == out
        then give_up p "ps/2 (dev %u): self-check fail 1\n" self_check_fail
        else check_response p out)

  unfoldable pub ps2_reset_devices : M (Unit {0})
  ps2_reset_devices = do ps2_reset_device device1; ps2_reset_device device2
