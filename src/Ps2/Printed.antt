-- ===== src/Ps2/Printed.antt =====
-- kernel/src/io/ps2/ps2.c: all that `ps2_init` prints.
use chp_os.Base.{
  ◌≡◌, refl, ap, ◌∙◌, subst, Bool, Bool-cases, true, false, inl, inr, ◌==◌, not, ◌&&◌, ◌||◌,
  if◌then◌else◌, [], ◌∷◌, ◌++◌,
}
use chp_os.Machine.{Machine, ◌>>=◌, ◌>>◌, World, printf, num, Ps2Vars}
use chp_os.Ps2.{
  yes_no, write_config, wait_command, wait_data, ps2_check_dual_channel, ps2_ports_self_check,
  ps2_enable_ports,
}
use chp_os.Ps2.Device.{device1, device2, ps2_reset_device, ps2_reset_devices}
use chp_os.Ps2.Init.{controller_self_check, start_ports, ps2_init}
use chp_os.Ps2.SelfCheck.{self_check_reply, first_reply, first_reply-Quiet}
use chp_os.Ps2.Answers.{ps2_enable_ports-ps2}
use chp_os.Ps2.Reset.{ps2_reset_device-ps2}
use chp_os.Ps2.Outcome.{Answers}
use chp_os.Ps2.Result.{
  checked, given, restored, restored-Quiet, dual_checked, ports_checked, flags, config_kept,
}
use chp_os.Ps2.Messages.{
  say, rendered, port_number, device_messages, start_messages, check_messages, failed_messages,
  driver_messages,
}
use chp_os.Ps2.Says.{Says, Says-then, Says-after, Says-printf}
use chp_os.Ps2.Report.{ps2_reset_device-Says}
use chp_os.Ps2.Progress.{enabled_message, dual-Says, ports-Says, enable-Says}

module _ (w : World) (s : Machine) where
  abbrev a : Answers
  a = given w s

  abbrev checked_state : Machine
  checked_state = ports_checked w s

  kept : (ps2_enable_ports w checked_state).1.ps2 ≡ checked a s.ps2
  kept = ps2_enable_ports-ps2 w checked_state ∙ flags w s

  devices-Says :
      Says w
        (device_messages (port_number s.ps2.device1) a.reset1
          ++ device_messages (port_number s.ps2.device2) a.reset2)
        (ps2_enable_ports w checked_state).1
        (ps2_reset_devices w (ps2_enable_ports w checked_state).1).1
  unfolding ps2_reset_devices ◌>>=◌
  devices-Says =
      let enabled = (ps2_enable_ports w checked_state).1 in
      let first = (ps2_reset_device w device1 enabled).1 in
      let at1 = ap (λ (u : Ps2Vars). port_number u.device1) kept in
      let at2 =
        ap (λ (u : Ps2Vars). port_number u.device2) (ps2_reset_device-ps2 w device1 enabled)
        ∙ ap (λ (u : Ps2Vars). port_number u.device2) kept in
      Says-then w (ps2_reset_device-Says w device1 (port_number s.ps2.device1) enabled at1)
        (ps2_reset_device-Says w device2 (port_number s.ps2.device2) first at2)

  -- What follows the checks of the ports, where one is valid.
  abbrev ports_started : Unit {0} × Machine
  ports_started =
      (do ps2_enable_ports w; ps2_reset_devices w; printf w "ps/2: init done\n" []) checked_state

  started-Says : Says w (start_messages a s.ps2) checked_state ports_started.1
  unfolding ◌>>=◌
  started-Says =
      let enabled =
        subst
          (λ (v : Ps2Vars).
            Says w (enabled_message v.is_port1_valid v.is_port2_valid) checked_state
              (ps2_enable_ports w checked_state).1)
          (flags w s) (enable-Says w checked_state) in
      let done =
        Says-printf w "ps/2: init done\n" []
          (ps2_reset_devices w (ps2_enable_ports w checked_state).1).1 in
      Says-then w enabled (Says-then w devices-Says done)

  start-Says :
      Says w
        (if (a.reply1 == 0) || (a.reply2 == 0) then start_messages a s.ps2 else failed_messages)
        checked_state
        (start_ports w checked_state).1
  unfolding start_ports ◌>>=◌
  start-Says =
      let neither : (not checked_state.ps2.is_port1_valid && not checked_state.ps2.is_port2_valid)
          ≡ not ((a.reply1 == 0) || (a.reply2 == 0)) =
        ap (λ (v : Ps2Vars). not v.is_port1_valid && not v.is_port2_valid) (flags w s)
        ∙ negated (a.reply1 == 0) (a.reply2 == 0) in
      rw neither (elim (Bool-cases ((a.reply1 == 0) || (a.reply2 == 0))) [
        | inl e ↦ rw e started-Says
        | inr e ↦ rw e (Says-printf w _ [] checked_state)
      ])
    where
      negated : (x y : Bool) → (not x && not y) ≡ not (x || y)
      negated true y = refl
      negated false y = refl

  checks-Says : Says w (check_messages a s.ps2) (restored w s) (start_ports w checked_state).1
  checks-Says =
      Says-then w (dual-Says w (restored w s))
        (Says-then w (ports-Says w (dual_checked w s)) start-Says)

  reply-Says :
      Says w
        ((
          "ps/2: controller self-check passed: %s (response=0x%x)\n",
          yes_no (a.reply == 0x55) ∷ num a.reply ∷ [],
        )
          ∷ [])
        s
        (self_check_reply w s).1
  unfolding controller_self_check ◌>>=◌
  reply-Says = Says-after w (first_reply-Quiet w s) (Says-printf w _ _ (first_reply w s).1)

  -- The state after what follows the self check of the controller.
  abbrev after_reply : (passed : Bool) → Machine
  after_reply passed =
      ((if not passed then printf w "ps/2: failed to initialize\n" [] else (do
        wait_command w write_config
        wait_data w (config_kept w s)
        ps2_check_dual_channel w
        ps2_ports_self_check w
        start_ports w))
        (self_check_reply w s).1).1

  after_reply-Says :
      (passed : Bool)
      → Says w
          (if passed then check_messages a s.ps2 else failed_messages)
          (self_check_reply w s).1
          (after_reply passed)
  unfolding ◌>>=◌
  after_reply-Says true = Says-after w (restored-Quiet w s) checks-Says
  after_reply-Says false = Says-printf w _ [] (self_check_reply w s).1

  -- Whatever the controller and the devices answer, the console after `ps2_init` is the one before
  -- with the messages printed that `driver_messages` lists by the answers, in this order and no
  -- others: the answer to the self check; then, where it is 55, the second channel, the two ports
  -- and, where one of these is valid, the ports enabled, the lines of each device and the end; and
  -- the failure otherwise.
  pub ps2_init-prints :
      (ps2_init w s).1.tty ≡ say (rendered w (driver_messages (given w s) s.ps2)) s.tty
  unfolding ps2_init ◌>>=◌
  ps2_init-prints = (Says-then w reply-Says (after_reply-Says (a.reply == 0x55))).said
