-- ===== src/Examples/Driver.antt =====
-- The driver at work in the sample world.
use chp_os.Base.{ℕ, Bool, true, List, ◌==◌, if◌then◌else◌, ◌≡◌, refl, [], ◌∷◌, false, u8}
use chp_os.Machine.{Machine, World, Io, read, ◌>>=◌, wrote, inb, outb, not_connected}
use chp_os.Ps2.{
  ps2_wait_input_ready, ps2_check_dual_channel, ps2_ports_self_check, ps2_enable_ports, read_config,
}
use chp_os.Ps2.Device.{
  device1, device2, assign, set_status, ps2_device_write_data, ps2_device_read_data,
  ps2_reset_device,
}
use chp_os.Ps2.Init.{ps2_init, controller_self_check}
use chp_os.Ps2.{
  ps2_read_data, wait_until, ps2_output_ready, ps2_read_status, ps2_write_command,
  ps2_wait_output_ready,
}
use chp_os.Ps2.Polls.{polls}
use chp_os.Ps2.Receive.{Receives, ps2_device_read_data-Receives}
use chp_os.Ps2.Quiet.{reply}
use chp_os.Ps2.Answers.{is_dual, first_config}
use chp_os.Ps2.Ports.{
  enabled2, with_interrupts, check_writes, ps2_enable_ports-writes, ps2_check_dual_channel-writes,
}
use chp_os.Ps2.Result.{Comes, given, ps2_init-Comes}
use chp_os.Ps2.Writes.{writes, Delivers, ps2_device_write_data-Delivers}
use chp_os.Base.{◌++◌, List}
use chp_os.Ps2.Config.{cleared, flushed, ps2_init-configures}
use chp_os.Ps2.Messages.{say, rendered, driver_messages}
use chp_os.Ps2.Printed.{ps2_init-prints}
use chp_os.Ps2.Wait.{Waits, InputFree, ps2_wait_input_ready-Waits}
use chp_os.Ps2.Frame.{Within, ps2_init-Within}
use chp_os.Ps2.Handshake.{Handshakes, steps-Handshakes, ps2_init-not-Handshakes}
use chp_os.Ps2.Outcome.{reset_outcome}
use chp_os.Ps2.Reset.{device_id, ps2_reset_device-ps2}
use chp_os.Examples.{sample_world, sample_machine}
use chp_os.Examples.Tables.{sample_machine-IsValid}

-- The first port is valid.
abbrev enabled_machine : Machine
enabled_machine = record sample_machine {
  ps2 = record sample_machine.ps2 { is_port1_valid = true };
}

-- The self check of the controller is answered by 55 right after its command.
abbrev answering_world : World
answering_world = record sample_world {
  answer = λ io port. if port == 0x64 then 0x01 else (if asked io then 0x55 else 0);
}
  where
    asked : List Io → Bool
    asked [] = false
    asked (read port v ∷ io) = asked io
    asked (wrote port v ∷ io) = v == 0xaa

ps2_wait_input_ready-Waits_example :
    Waits sample_world
      (InputFree sample_world)
      100000000
      sample_machine
      (ps2_wait_input_ready sample_world sample_machine).0
      (ps2_wait_input_ready sample_world sample_machine).1
ps2_wait_input_ready-Waits_example = ps2_wait_input_ready-Waits sample_world sample_machine

ps2_device_read_data-Receives_example :
    Receives sample_world 7 sample_machine (ps2_device_read_data sample_world 7 sample_machine)
ps2_device_read_data-Receives_example = ps2_device_read_data-Receives sample_world 7 sample_machine

ps2_enable_ports-writes_example :
    let byte = (reply sample_world read_config (enabled2 sample_world enabled_machine)).0 in
    writes (ps2_enable_ports sample_world enabled_machine).1.io
    ≡ (0x60, with_interrupts true false byte) ∷ (0x64, 0x60) ∷ (0x64, 0x20) ∷ (0x64, 0xae) ∷ []
ps2_enable_ports-writes_example = ps2_enable_ports-writes sample_world enabled_machine

ps2_check_dual_channel-writes_example :
    writes (ps2_check_dual_channel sample_world sample_machine).1.io
    ≡ check_writes sample_world sample_machine
        (is_dual (first_config sample_world sample_machine).0)
ps2_check_dual_channel-writes_example = ps2_check_dual_channel-writes sample_world sample_machine

ps2_init-Comes_example :
    Comes
      (given answering_world sample_machine)
      sample_machine.ps2
      (ps2_init answering_world sample_machine).1.ps2
ps2_init-Comes_example = ps2_init-Comes answering_world sample_machine

ps2_init-Within_example : Within sample_machine (ps2_init sample_world sample_machine).1
ps2_init-Within_example = ps2_init-Within sample_world sample_machine sample_machine-IsValid

steps-Handshakes_example :
    Handshakes (ps2_check_dual_channel sample_world sample_machine).1.io
    × Handshakes (ps2_ports_self_check sample_world sample_machine).1.io
    × Handshakes (ps2_enable_ports sample_world sample_machine).1.io
    × Handshakes (ps2_reset_device sample_world device2 sample_machine).1.io
steps-Handshakes_example = steps-Handshakes sample_world sample_machine tt device2

ps2_init-not-Handshakes_example : ¬ Handshakes (ps2_init sample_world sample_machine).1.io
ps2_init-not-Handshakes_example = ps2_init-not-Handshakes sample_world sample_machine

ps2_reset_device-ps2_example :
    let sent =
      (ps2_device_write_data sample_world device1 0xff
        (set_status device1 not_connected sample_machine).1).1 in
    let first = ps2_device_read_data sample_world 0 sent in
    let second = ps2_device_read_data sample_world first.0.1 first.1 in
    (ps2_reset_device sample_world device1 sample_machine).1.ps2
    ≡ assign device1
        (reset_outcome first.0 second.0 (device_id sample_world device1 second.1))
        sample_machine.ps2
ps2_reset_device-ps2_example = ps2_reset_device-ps2 sample_world device1 sample_machine

ps2_init-prints_example :
    (ps2_init answering_world sample_machine).1.tty
    ≡ say
        (rendered answering_world
          (driver_messages (given answering_world sample_machine) sample_machine.ps2))
        sample_machine.tty
ps2_init-prints_example = ps2_init-prints answering_world sample_machine

ps2_device_write_data-Delivers_example :
    let r = ps2_device_write_data sample_world device2 0xff sample_machine in
    Delivers sample_world false 0xff [] r.0 (writes r.1.io)
ps2_device_write_data-Delivers_example =
    ps2_device_write_data-Delivers sample_world device2 0xff sample_machine

ps2_init-configures_example :
    (count : ℕ) × (later : List (ℕ × ℕ)) × let byte = u8 (
        sample_world.answer
          (polls sample_world count (wrote 0x64 0x20 ∷ (flushed sample_world sample_machine).io))
          0x60) in
      (writes (ps2_init sample_world sample_machine).1.io
        ≡ later
          ++ ((0x64, 0x20)
              ∷ (0x60, cleared byte)
              ∷ (0x64, 0x60)
              ∷ (0x64, 0x20)
              ∷ (0x64, 0xa7)
              ∷ (0x64, 0xad)
              ∷ []))
ps2_init-configures_example = ps2_init-configures sample_world sample_machine

-- In the answering world the third way is taken.
both_valid :
    ((given answering_world sample_machine).reply ≡ 0x55)
    × ((given answering_world sample_machine).reply1 ≡ 0)
unfolding controller_self_check ps2_read_data inb outb ps2_wait_output_ready wait_until
    ps2_output_ready ps2_read_status ps2_write_command ◌>>=◌
both_valid = (refl, refl)
