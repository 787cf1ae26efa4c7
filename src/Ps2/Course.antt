-- ===== src/Ps2/Course.antt =====
-- `ps2_init` with a controller in working order: what waits in the buffer from step to step.
use chp_os.Base.{ℕ, ◌≡◌, arith, [], true, false, Bool, Bool-cases, inl, inr}
use chp_os.Machine.{Machine, World, ◌>>=◌, printf, not_connected, Ps2Vars}
use chp_os.Ps2.{
  Command, disable_1, disable_2, enable_1, enable_2, read_config, write_config, test_controller,
  test_port_1, test_port_2, port_self_check, ps2_check_dual_channel, ps2_ports_self_check,
  ps2_enable_ports,
}
use chp_os.Ps2.Device.{
  DevicePtr, device1, device2, set_status, ps2_device_write_data, ps2_reset_device,
}
use chp_os.Ps2.Init.{update_config, controller_self_check}
use chp_os.Ps2.Quiet.{wait_read-lt, reply}
use chp_os.Ps2.SelfCheck.{self_check_reply, first_reply}
use chp_os.Ps2.Answers.{
  is_dual, is_dual_lem, first_config, stop_second, set_valid1, set_valid2, port_1_reply,
  port_2_reply, if_valid,
}
use chp_os.Ps2.Outcome.{recorded}
use chp_os.Ps2.Reset.{answers}
use chp_os.Ps2.Result.{restored}
use chp_os.Ps2.Controller.{
  Controller, Behaviour, Target, to_device1, SendsBytes, sent, found, Behaves,
}
use chp_os.Ps2.Queue.{
  Buffer, wait_command-Buffer, wait_data-Buffer, wait_read-Buffer, wait_read-first, command-Buffer,
  read-Buffer, write_first-Buffer, write_second-Buffer,
}
use chp_os.Ps2.Meets.{Behaviour-IsMet}

module _ (w : World) (c : Controller) (behaves : Behaves c w) where
  -- Nothing waits, and the next byte would go to the first device.
  abbrev pub IsIdle : Machine → Type 0
  IsIdle s = Buffer c [] to_device1 s

  configured : (s : Machine) → IsIdle s → IsIdle (update_config w s).1
  unfolding update_config ◌>>=◌
  configured s b =
      let asked = wait_read-Buffer w c behaves (command-Buffer w c behaves b read_config) in
      let written =
        wait_data-Buffer w c behaves (command-Buffer w c behaves asked write_config) _ in
      wait_read-Buffer w c behaves (wait_command-Buffer w c behaves written read_config)

  -- The question of the controller's self check, before its answer is read.
  checked :
      {t : Target} (s : Machine)
      → Buffer c [] t s
      → ((first_reply w s).0 ≡ 0x55) × IsIdle (first_reply w s).1
  checked s b =
      let one = wait_command-Buffer w c behaves b disable_1 in
      let two = wait_command-Buffer w c behaves one disable_2 in
      let flushed = read-Buffer w c behaves two in
      let asked = wait_command-Buffer w c behaves (configured _ flushed) test_controller in
      (wait_read-first w c behaves asked (omega arith), wait_read-Buffer w c behaves asked)

  pub self_check-idle :
      {t : Target} (s : Machine)
      → Buffer c [] t s
      → ((self_check_reply w s).0 ≡ 0x55) × IsIdle (self_check_reply w s).1
  unfolding controller_self_check printf ◌>>=◌
  self_check-idle s b =
      let (passed, idle) = checked s b in
      (passed, record { queued = idle.queued; aimed = idle.aimed })

  pub restored-idle : {t : Target} (s : Machine) → Buffer c [] t s → IsIdle (restored w s)
  restored-idle s b =
      wait_data-Buffer w c behaves
        (wait_command-Buffer w c behaves (self_check-idle s b).1 write_config) _

  stopped : (s : Machine) → IsIdle s → IsIdle (stop_second w s).1
  unfolding ◌>>=◌
  stopped s b =
      let off = wait_command-Buffer w c behaves b disable_2 in
      let read = wait_read-Buffer w c behaves (wait_command-Buffer w c behaves off read_config) in
      wait_data-Buffer w c behaves (wait_command-Buffer w c behaves read write_config) _

  pub dual-idle : (s : Machine) → IsIdle s → IsIdle (ps2_check_dual_channel w s).1
  unfolding ps2_check_dual_channel printf ◌>>=◌
  dual-idle s b =
      let on = wait_command-Buffer w c behaves b enable_2 in
      let read = wait_read-Buffer w c behaves (wait_command-Buffer w c behaves on read_config) in
      let same = is_dual_lem (first_config w s).0 (wait_read-lt w _) in
      rw same (elim (Bool-cases (is_dual (first_config w s).0)) [
        | inl e ↦ rw e (stopped _ (record { queued = read.queued; aimed = read.aimed }))
        | inr e ↦ rw e (record { queued = read.queued; aimed = read.aimed })
      ])

  port-idle :
      (cmd : Command) (port : ℕ) (set_flag : Bool → Ps2Vars → Ps2Vars) (s : Machine)
      → IsIdle (reply w cmd s).1
      → IsIdle (port_self_check w cmd port set_flag s).1
  unfolding port_self_check printf ◌>>=◌
  port-idle cmd port set_flag s b = record { queued = b.queued; aimed = b.aimed }

  pub ports-idle :
      (s : Machine)
      → IsIdle s
      → ((port_1_reply w s).0 ≡ 0)
        × ((port_2_reply w s).0 ≡ 0)
        × IsIdle (ps2_ports_self_check w s).1
  unfolding ps2_ports_self_check ◌>>=◌
  ports-idle s b =
      let asked = wait_command-Buffer w c behaves b test_port_1 in
      let first = port-idle test_port_1 1 set_valid1 s (wait_read-Buffer w c behaves asked) in
      let asked2 = wait_command-Buffer w c behaves first test_port_2 in
      (
        wait_read-first w c behaves asked (omega arith),
        wait_read-first w c behaves asked2 (omega arith),
        port-idle test_port_2 2 set_valid2 _ (wait_read-Buffer w c behaves asked2),
      )

  pub enabled-idle : (s : Machine) → IsIdle s → IsIdle (ps2_enable_ports w s).1
  unfolding ps2_enable_ports printf ◌>>=◌
  enabled-idle s b =
      let one = if_valid-idle s.ps2.is_port1_valid s b in
      let two = if_valid2-idle _ _ one in
      let read = wait_read-Buffer w c behaves (wait_command-Buffer w c behaves two read_config) in
      let written =
        wait_data-Buffer w c behaves (wait_command-Buffer w c behaves read write_config) _ in
      record { queued = written.queued; aimed = written.aimed }
    where
      if_valid-idle :
          (valid : Bool) (t : Machine) → IsIdle t → IsIdle (if_valid w valid enable_1 t).1
      if_valid-idle true t b = wait_command-Buffer w c behaves b enable_1
      if_valid-idle false t b = b

      if_valid2-idle :
          (valid : Bool) (t : Machine) → IsIdle t → IsIdle (if_valid w valid enable_2 t).1
      if_valid2-idle true t b = wait_command-Buffer w c behaves b enable_2
      if_valid2-idle false t b = b

  -- The reset of a device that is asked.
  met :
      (p : DevicePtr) (d : Behaviour) (s : Machine)
      → SendsBytes d
      → Buffer c
          (sent d)
          to_device1
          (ps2_device_write_data w p 0xff (set_status p not_connected s).1).1
      → (recorded (answers w p s) ≡ found d) × IsIdle (ps2_reset_device w p s).1
  unfolding ps2_reset_device ◌>>=◌
  met p d s bytes asked =
      let m = Behaviour-IsMet w c behaves p d bytes to_device1 _ asked in (m.known, m.left)

  pub device1-met :
      SendsBytes c.device1
      → (s : Machine) → s.ps2.device1.is_port_1 ≡ true
      → IsIdle s
      → (recorded (answers w device1 s) ≡ found c.device1) × IsIdle (ps2_reset_device w device1 s).1
  device1-met bytes s first b = met device1 c.device1 s bytes (
      write_first-Buffer w c behaves device1 0xff {s = (set_status device1 not_connected s).1} first
        (record { queued = b.queued; aimed = b.aimed }))

  pub device2-met :
      SendsBytes c.device2
      → (s : Machine) → s.ps2.device2.is_port_1 ≡ false
      → IsIdle s
      → (recorded (answers w device2 s) ≡ found c.device2) × IsIdle (ps2_reset_device w device2 s).1
  device2-met bytes s second b = met device2 c.device2 s bytes (
      write_second-Buffer w c behaves device2 0xff {t = to_device1}
        {s = (set_status device2 not_connected s).1} second
        (record { queued = b.queued; aimed = b.aimed }))
