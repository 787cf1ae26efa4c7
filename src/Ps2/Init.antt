-- ===== src/Ps2/Init.antt =====
-- kernel/src/io/ps2/ps2.c: `ps2_init`.
use chp_os.Base.{ℕ, ◌==◌, if◌then◌else◌, not, ◌&&◌, [], ◌∷◌, bit_and, bit_or}
use chp_os.Machine.{M, pure, ◌>>=◌, ◌>>◌, World, printf, num}
use chp_os.Ps2.{
  disable_1, disable_2, read_config, write_config, test_controller, complement,
  config_translate_1_bit, config_clock_1_bit, config_interrupt_1_bit, yes_no, ps2_read_data,
  ps2_write_command, wait_command, wait_data, wait_read, get_var, ps2_check_dual_channel,
  ps2_ports_self_check, ps2_enable_ports,
}
use chp_os.Ps2.Device.{ps2_reset_devices}

-- The mask of `config &= ~(..)` in `ps2_init`.
abbrev pub init_mask : ℕ
init_mask =
    complement (bit_or (bit_or config_translate_1_bit config_clock_1_bit) config_interrupt_1_bit)

module _ (w : World) where
  -- The part of `ps2_init` under "Update config", not a function of its own: what is written back,
  -- which is also what is kept for later.
  unfoldable pub update_config : M ℕ
  update_config = do
    ps2_write_command w read_config
    byte ← wait_read w
    let config = bit_and byte init_mask
    ps2_write_command w write_config
    wait_data w config
    wait_command w read_config
    config_readback ← wait_read w
    pure config

  -- "Perform self-check": the status byte.
  unfoldable pub controller_self_check : M ℕ
  controller_self_check = do
    wait_command w test_controller
    self_check_status ← wait_read w
    printf w "ps/2: controller self-check passed: %s (response=0x%x)\n"
        (yes_no (self_check_status == 0x55) ∷ num self_check_status ∷ [])
    pure self_check_status

  -- What follows the checks of the ports.
  unfoldable pub start_ports : M (Unit {0})
  start_ports = do
    valid1 ← get_var (λ v. v.is_port1_valid)
    valid2 ← get_var (λ v. v.is_port2_valid)
    if not valid1 && not valid2
        then printf w "ps/2: failed to initialize\n" []
        else (do ps2_enable_ports w; ps2_reset_devices w; printf w "ps/2: init done\n" [])

  unfoldable pub ps2_init : M (Unit {0})
  ps2_init = do
    wait_command w disable_1
    wait_command w disable_2
    ps2_read_data w
    config ← update_config
    self_check_status ← controller_self_check
    if not (self_check_status == 0x55) then printf w "ps/2: failed to initialize\n" [] else (do
      wait_command w write_config
      wait_data w config
      ps2_check_dual_channel w
      ps2_ports_self_check w
      start_ports)
