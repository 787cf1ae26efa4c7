-- ===== src/Ps2/Keeps/Driver.antt =====
-- The devices and `ps2_init`, which writes two commands without a wait.
use chp_os.Base.{ℕ, List, String}
use chp_os.Base.{◌==◌, not, if◌then◌else◌, []}
use chp_os.Machine.{Machine, M, ◌>>=◌, ◌>>◌, printf, World, Arg, DeviceStatus, DeviceType}
use chp_os.Machine.Runs.{Ensures, bind}
use chp_os.Ps2.{
  Command, disable_1, disable_2, read_config, write_config, ps2_write_command, ps2_read_data,
  wait_command, wait_data, ps2_check_dual_channel, ps2_ports_self_check,
}
use chp_os.Ps2.Device.{
  DevicePtr, device1, device2, load_device, set_status, set_type, ps2_log_dev, write_when_ready,
  ps2_device_write_data, ps2_device_read_data, set_device_type, identify_device, give_up,
  check_response, ps2_reset_device, ps2_reset_devices,
}
use chp_os.Ps2.Init.{update_config, controller_self_check, start_ports, ps2_init}
use chp_os.Ps2.Keeps.{
  Invariant, Keeps, Keeps-pure, Keeps-if, Keeps-if_timeout, Keeps-get_var, Keeps-printf,
  Keeps-on_ps2, from_Ready, ps2_wait_input_ready-Ready, ps2_wait_output_ready-Ready,
  ps2_write_command-Keeps, ps2_write_data-Keeps, ps2_read_data-Keeps, wait_command-Keeps,
  wait_data-Keeps, wait_read-Keeps, ps2_check_dual_channel-Keeps, ps2_ports_self_check-Keeps,
  ps2_enable_ports-Keeps,
}

module _ {w : World} {P Ready : Machine → Type 0} (inv : Invariant w P Ready) where
  load_device-Keeps : (p : DevicePtr) → Keeps P (load_device p)
  load_device-Keeps p = record { run = λ s h. h }

  set_status-Keeps : (p : DevicePtr) (status : DeviceStatus) → Keeps P (set_status p status)
  set_status-Keeps p status = Keeps-on_ps2 inv _

  set_type-Keeps : (p : DevicePtr) (type : DeviceType) → Keeps P (set_type p type)
  set_type-Keeps p type = Keeps-on_ps2 inv _

  ps2_log_dev-Keeps :
      (p : DevicePtr) (fmt : String) (args : List Arg) → Keeps P (ps2_log_dev w p fmt args)
  unfolding ps2_log_dev
  ps2_log_dev-Keeps p fmt args = bind (load_device-Keeps p) λ d. Keeps-printf inv _ _

  write_when_ready-Keeps : (byte : ℕ) → Keeps P (write_when_ready w byte)
  unfolding write_when_ready
  write_when_ready-Keeps byte = bind (ps2_wait_input_ready-Ready inv) λ e.
      Keeps-if_timeout e (from_Ready inv (Keeps-pure _))
        (bind (ps2_write_data-Keeps inv byte) λ _. Keeps-pure _)

  pub ps2_device_write_data-Keeps :
      (p : DevicePtr) (byte : ℕ) → Keeps P (ps2_device_write_data w p byte)
  unfolding ps2_device_write_data
  ps2_device_write_data-Keeps p byte = bind (load_device-Keeps p) λ d.
      Keeps-if _ (write_when_ready-Keeps byte) (
        bind (ps2_wait_input_ready-Ready inv) λ e.
          Keeps-if_timeout e (from_Ready inv (Keeps-pure _))
            (bind (ps2_write_command-Keeps inv _) λ _. write_when_ready-Keeps byte))

  pub ps2_device_read_data-Keeps : (old : ℕ) → Keeps P (ps2_device_read_data w old)
  unfolding ps2_device_read_data
  ps2_device_read_data-Keeps old = bind (ps2_wait_output_ready-Ready inv) λ e.
      from_Ready inv
        (Keeps-if_timeout e (Keeps-pure _) (bind (ps2_read_data-Keeps inv) λ b. Keeps-pure _))

  give_up-Keeps :
      (p : DevicePtr) (fmt : String) (status : DeviceStatus) → Keeps P (give_up w p fmt status)
  unfolding give_up
  give_up-Keeps p fmt status = bind (ps2_log_dev-Keeps p _ _) λ _. set_status-Keeps p status

  set_device_type-Keeps : (p : DevicePtr) (id : ℕ) → Keeps P (set_device_type w p id)
  unfolding set_device_type
  set_device_type-Keeps p id =
      Keeps-if _ (set_type-Keeps p _) (bind (Keeps-printf inv _ _) λ _. set_type-Keeps p _)

  identify_device-Keeps : (p : DevicePtr) → Keeps P (identify_device w p)
  unfolding identify_device
  identify_device-Keeps p = bind (ps2_device_read_data-Keeps 0) λ (e, id1).
      bind (Keeps-if_timeout e (Keeps-pure _) (ps2_device_read_data-Keeps 0)) λ (e2, id2).
        bind (set_status-Keeps p _) λ _.
          bind (set_device_type-Keeps p _)
            λ _. bind (load_device-Keeps p) λ d. ps2_log_dev-Keeps p _ _

  check_response-Keeps : (p : DevicePtr) (first : ℕ) → Keeps P (check_response w p first)
  unfolding check_response
  check_response-Keeps p first = bind (ps2_device_read_data-Keeps first) λ (e, out).
      Keeps-if_timeout e (give_up-Keeps p _ _)
        (Keeps-if _ (identify_device-Keeps p) (give_up-Keeps p _ _))

  pub ps2_reset_device-Keeps : (p : DevicePtr) → Keeps P (ps2_reset_device w p)
  unfolding ps2_reset_device
  ps2_reset_device-Keeps p = bind (set_status-Keeps p _) λ _.
      bind (ps2_device_write_data-Keeps p _) λ _. bind (ps2_device_read_data-Keeps 0) λ (e, out).
        Keeps-if_timeout e (give_up-Keeps p _ _)
          (Keeps-if _ (give_up-Keeps p _ _) (check_response-Keeps p out))

  pub ps2_reset_devices-Keeps : Keeps P (ps2_reset_devices w)
  unfolding ps2_reset_devices
  ps2_reset_devices-Keeps =
      bind (ps2_reset_device-Keeps device1) λ _. ps2_reset_device-Keeps device2

  controller_self_check-Keeps : Keeps P (controller_self_check w)
  unfolding controller_self_check
  controller_self_check-Keeps =
      bind (wait_command-Keeps inv _)
        λ _. bind (wait_read-Keeps inv) λ r. bind (Keeps-printf inv _ _) λ _. Keeps-pure _

  start_ports-Keeps : Keeps P (start_ports w)
  unfolding start_ports
  start_ports-Keeps = bind (Keeps-get_var _) λ v1. bind (Keeps-get_var _) λ v2.
      Keeps-if _ (Keeps-printf inv _ _) (
        bind (ps2_enable_ports-Keeps inv)
          λ _. bind ps2_reset_devices-Keeps λ _. Keeps-printf inv _ _)

  -- `ps2_init` after the update of the configuration.
  abbrev pub after_config : (config : ℕ) → M (Unit {0})
  after_config config = do
    self_check_status ← controller_self_check w
    if not (self_check_status == 0x55) then printf w "ps/2: failed to initialize\n" [] else (do
      wait_command w write_config
      wait_data w config
      ps2_check_dual_channel w
      ps2_ports_self_check w
      start_ports w)

  pub after_config-Keeps : (config : ℕ) → Keeps P (after_config config)
  after_config-Keeps config = bind controller_self_check-Keeps λ status.
      Keeps-if _ (Keeps-printf inv _ _) (
        bind (wait_command-Keeps inv _) λ _. bind (wait_data-Keeps inv _) λ _.
          bind (ps2_check_dual_channel-Keeps inv)
            λ _. bind (ps2_ports_self_check-Keeps inv) λ _. start_ports-Keeps)

  -- Two of the writes of `update_config` do not follow a poll; the first has a premise of its own.
  module _ (always : (s : Machine) → P s → Ready s) where
    pub unpolled : (c : Command) → Keeps P (ps2_write_command w c)
    unpolled c = record { run = λ s p. (ps2_write_command-Keeps inv c).run s (always s p) }

    pub update_config_from :
        {P0 : Machine → Type 0}
        → Ensures P0 (ps2_write_command w read_config) (λ _. P)
        → Ensures P0 (update_config w) (λ _. P)
    unfolding update_config
    update_config_from first = bind first λ _. bind (wait_read-Keeps inv) λ b.
        bind (unpolled _) λ _.
          bind (wait_data-Keeps inv _)
            λ _. bind (wait_command-Keeps inv _) λ _. bind (wait_read-Keeps inv) λ r. Keeps-pure _

    pub ps2_init_from :
        {P0 P1 P2 P3 : Machine → Type 0}
        → Ensures P0 (wait_command w disable_1) (λ _. P1)
        → Ensures P1 (wait_command w disable_2) (λ _. P2)
        → Ensures P2 (ps2_read_data w) (λ _. P3)
        → Ensures P3 (ps2_write_command w read_config) (λ _. P)
        → Ensures P0 (ps2_init w) (λ _. P)
    unfolding ps2_init
    ps2_init_from one two flush first =
        bind one
          λ _. bind two λ _. bind flush λ _. bind (update_config_from first) after_config-Keeps

    pub ps2_init-Keeps : Keeps P (ps2_init w)
    ps2_init-Keeps =
        ps2_init_from (wait_command-Keeps inv _) (wait_command-Keeps inv _)
          (ps2_read_data-Keeps inv) (unpolled _)
