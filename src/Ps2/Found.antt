-- ===== src/Ps2/Found.antt =====
-- What `ps2_init` finds with a controller in working order.
use chp_os.Base.{ℕ, ◌≡◌, refl, ap, ◌∙◌, [], ◌==◌, true, false}
use chp_os.Machine.{Machine, World, Ps2Vars, Device}
use chp_os.Ps2.{ps2_enable_ports}
use chp_os.Ps2.Device.{device1, device2, assign, ps2_reset_device}
use chp_os.Ps2.Init.{ps2_init}
use chp_os.Ps2.Answers.{is_dual, ps2_enable_ports-ps2}
use chp_os.Ps2.Reset.{ps2_reset_device-ps2}
use chp_os.Ps2.Outcome.{Answers, recorded}
use chp_os.Ps2.Result.{
  Comes, no_controller, no_port, devices_reset, checked, given, restored, dual_checked,
  ports_checked, flags, ps2_init-Comes,
}
use chp_os.Ps2.Controller.{Controller, Target, SendsBytes, found, Follows, IsPrompt, Behaves}
use chp_os.Ps2.Queue.{Buffer}
use chp_os.Ps2.Course.{
  IsIdle, self_check-idle, restored-idle, dual-idle, ports-idle, enabled-idle, device1-met,
  device2-met,
}

-- Where all checks pass, the devices are reset.
reset_reached :
    {a : Answers} {v v' : Ps2Vars}
    → Comes a v v'
    → a.reply ≡ 0x55
    → a.reply1 ≡ 0
    → v' ≡ assign device2 (recorded a.reset2) (assign device1 (recorded a.reset1) (checked a v))
reset_reached (no_controller ne) passed valid = absurd (ne passed)
reset_reached (no_port e ne1 ne2) passed valid = absurd (ne1 valid)
reset_reached (devices_reset e some) passed valid = refl

module _ (w : World) (c : Controller) (follows : Follows c w) (prompt : IsPrompt c w)
    (bytes1 : SendsBytes c.device1) (bytes2 : SendsBytes c.device2) (s : Machine) (t : Target)
    (nothing : Buffer c [] t s) (first : s.ps2.device1.is_port_1 ≡ true)
    (second : s.ps2.device2.is_port_1 ≡ false) where
  abbrev behaves : Behaves c w
  behaves = record { follows = follows; prompt = prompt }

  checks :
      ((given w s).reply1 ≡ 0) × ((given w s).reply2 ≡ 0) × IsIdle w c behaves (ports_checked w s)
  checks =
      ports-idle w c behaves (dual_checked w s)
        (dual-idle w c behaves (restored w s) (restored-idle w c behaves s nothing))

  abbrev enabled : Machine
  enabled = (ps2_enable_ports w (ports_checked w s)).1

  kept : enabled.ps2 ≡ checked (given w s) s.ps2
  kept = ps2_enable_ports-ps2 w (ports_checked w s) ∙ flags w s

  device1_found :
      (recorded (given w s).reset1 ≡ found c.device1)
      × IsIdle w c behaves (ps2_reset_device w device1 enabled).1
  device1_found =
      device1-met w c behaves bytes1 enabled
        (ap (λ (v : Ps2Vars). v.device1.is_port_1) kept ∙ first)
        (enabled-idle w c behaves (ports_checked w s) checks.2)

  device2_found : recorded (given w s).reset2 ≡ found c.device2
  device2_found =
      (device2-met w c behaves bytes2 (ps2_reset_device w device1 enabled).1
        (ap (λ (v : Ps2Vars). v.device2.is_port_1) (ps2_reset_device-ps2 w device1 enabled)
          ∙ ap (λ (v : Ps2Vars). v.device2.is_port_1) kept
          ∙ second)
        device1_found.1).0

  -- The variables by the answers and the records of the devices.
  abbrev left : (reply1 reply2 : ℕ) → (record1 record2 : Device → Device) → Ps2Vars
  left reply1 reply2 record1 record2 = record s.ps2 {
    is_dual_channel = is_dual (given w s).config;
    is_port1_valid = reply1 == 0;
    is_port2_valid = reply2 == 0;
    device1 = record1 s.ps2.device1;
    device2 = record2 s.ps2.device2;
  }

  -- Where the ports behave like a controller whose self checks pass (`Follows`), under the separate
  -- assumption on the timing that it gets ready within 100000000 polls and announces each byte
  -- within 10000 polls (`IsPrompt`), and from a state in which no byte waits to be read and the
  -- records of the devices name their ports, `ps2_init` finds both ports valid and records of each
  -- device: not connected where none answers, failing where its self check fails, and otherwise
  -- okay with a type. A device that names no id is recorded with the type of the id 0, like a mouse;
  -- one that names an id of one byte or two has the type of the id 0 if it is 0 and is unknown for
  -- every other id, 3 among them. The second channel is by the configuration byte.
  pub ps2_init-finds : (ps2_init w s).1.ps2 ≡ record s.ps2 {
    is_dual_channel = is_dual (given w s).config;
    is_port1_valid = true;
    is_port2_valid = true;
    device1 = found c.device1 s.ps2.device1;
    device2 = found c.device2 s.ps2.device2;
  }
  ps2_init-finds =
      let a = given w s in
      reset_reached (ps2_init-Comes w s) (self_check-idle w c behaves s nothing).0 checks.0
      ∙ ap (λ n. left n a.reply2 (recorded a.reset1) (recorded a.reset2)) checks.0
      ∙ ap (λ n. left 0 n (recorded a.reset1) (recorded a.reset2)) checks.1
      ∙ ap (λ f. left 0 0 f (recorded a.reset2)) device1_found.0
      ∙ ap (λ f. left 0 0 (found c.device1) f) device2_found
