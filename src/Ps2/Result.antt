-- ===== src/Ps2/Result.antt =====
-- What `ps2_init` leaves in the variables of the driver.
use chp_os.Base.{
  ℕ, ◌≡◌, ◌≢◌, refl, ap, ◌∙◌, sym, arith, ◌==◌, ==→eq, not, ◌&&◌, Bool, Bool-cases, true, false,
  ◌⊎◌, inl, inr, [], subst, if◌then◌else◌,
}
use native.Mathlib.Decide.{ℕ_discrete}
use chp_os.Machine.{Machine, ◌>>=◌, ◌>>◌, World, printf, Ps2Vars}
use chp_os.Ps2.{
  write_config, disable_1, disable_2, ps2_read_data, wait_command, wait_data,
  ps2_check_dual_channel, ps2_ports_self_check, ps2_enable_ports,
}
use chp_os.Ps2.Device.{device1, device2, assign, ps2_reset_device, ps2_reset_devices}
use chp_os.Ps2.Init.{ps2_init, start_ports, update_config}
use chp_os.Ps2.Outcome.{DeviceAnswers, Answers, recorded}
use chp_os.Ps2.Reset.{answers, ps2_reset_device-ps2}
use chp_os.Ps2.SelfCheck.{self_check_reply, self_check_reply-ps2}
use chp_os.Ps2.Quiet.{Quiet, Quiet-trans, same_ps2, wait_command-Quiet, wait_data-Quiet}
use chp_os.Ps2.Answers.{
  is_dual, first_config, port_1_reply, port_2_reply, ps2_check_dual_channel-ps2,
  ps2_ports_self_check-ps2, ps2_enable_ports-ps2,
}

-- The variables after the checks: the configuration byte decides on the second channel, and the
-- answers to the self checks on the ports.
abbrev pub checked : Answers → Ps2Vars → Ps2Vars
checked a v = record v {
  is_dual_channel = is_dual a.config;
  is_port1_valid = a.reply1 == 0;
  is_port2_valid = a.reply2 == 0;
}

-- What the driver may come to, from its variables before to those after: the controller fails its
-- self check; neither port passes its own; or both devices are reset.
pub data Comes (a : Answers) (v : Ps2Vars) : Ps2Vars → Type 0 where
  no_controller : a.reply ≢ 0x55 → Comes a v v
  no_port : a.reply ≡ 0x55 → a.reply1 ≢ 0 → a.reply2 ≢ 0 → Comes a v (checked a v)
  devices_reset :
      a.reply ≡ 0x55
      → (a.reply1 ≡ 0) ⊎ (a.reply2 ≡ 0)
      → Comes a v
          (assign device2 (recorded a.reset2) (assign device1 (recorded a.reset1) (checked a v)))

-- What the devices answer where the ports are enabled from `s` on.
abbrev pub device1_answers : World → Machine → DeviceAnswers
device1_answers w s = answers w device1 (ps2_enable_ports w s).1

abbrev pub device2_answers : World → Machine → DeviceAnswers
device2_answers w s = answers w device2 (ps2_reset_device w device1 (ps2_enable_ports w s).1).1

module _ (w : World) (a : Answers) (v : Ps2Vars) (passed : a.reply ≡ 0x55) (s : Machine)
    (checks : s.ps2 ≡ checked a v) (one : a.reset1 ≡ device1_answers w s)
    (two : a.reset2 ≡ device2_answers w s) where
  flag1 : s.ps2.is_port1_valid ≡ (a.reply1 == 0)
  flag1 = ap (λ (v : Ps2Vars). v.is_port1_valid) checks

  flag2 : s.ps2.is_port2_valid ≡ (a.reply2 == 0)
  flag2 = ap (λ (v : Ps2Vars). v.is_port2_valid) checks

  both_reset :
      (ps2_reset_devices w (ps2_enable_ports w s).1).1.ps2
      ≡ assign device2 (recorded a.reset2) (assign device1 (recorded a.reset1) (checked a v))
  unfolding ps2_reset_devices ◌>>=◌
  both_reset =
      let enabled = (ps2_enable_ports w s).1 in
      ps2_reset_device-ps2 w device2 (ps2_reset_device w device1 enabled).1
      ∙ ap (λ f. assign device2 f (ps2_reset_device w device1 enabled).1.ps2)
          (ap recorded (sym two))
      ∙ ap (assign device2 (recorded a.reset2)) (
          ps2_reset_device-ps2 w device1 enabled
          ∙ ap (λ f. assign device1 f enabled.ps2) (ap recorded (sym one))
          ∙ ap (assign device1 (recorded a.reset1)) (ps2_enable_ports-ps2 w s ∙ checks))

  after_neither : a.reply1 ≢ 0 → a.reply2 ≢ 0 → Comes a v (start_ports w s).1.ps2
  unfolding start_ports printf ◌>>=◌
  after_neither ne1 ne2 =
      let none_valid : (not s.ps2.is_port1_valid && not s.ps2.is_port2_valid) ≡ true =
        rw (flag1, flag2) (ground arith) in
      rw none_valid (subst (Comes a v) (sym checks) (no_port passed ne1 ne2))

  after_some : (a.reply1 ≡ 0) ⊎ (a.reply2 ≡ 0) → Comes a v (start_ports w s).1.ps2
  unfolding start_ports printf ◌>>=◌
  after_some valid =
      let some_valid : (not s.ps2.is_port1_valid && not s.ps2.is_port2_valid) ≡ false =
        rw (flag1, flag2) (ground (arith, valid)) in
      rw some_valid (subst (Comes a v) (sym both_reset) (devices_reset passed valid))

  after_checks : Comes a v (start_ports w s).1.ps2
  after_checks = elim (ℕ_discrete a.reply1 0) [
    | yes e ↦ after_some (inl e)
    | no ne1 ↦ elim (ℕ_discrete a.reply2 0) [
      | yes e ↦ after_some (inr e)
      | no ne2 ↦ after_neither ne1 ne2
    ]
  ]

module _ (w : World) (s : Machine) where
  -- The configuration that is written before the self check and after it.
  abbrev pub config_kept : ℕ
  config_kept =
      let stopped = (wait_command w disable_2 (wait_command w disable_1 s).1).1 in
      (update_config w (ps2_read_data w stopped).1).0

  -- The state in which the configuration is back after the self check.
  abbrev pub restored : Machine
  restored =
      let begun = (self_check_reply w s).1 in
      (wait_data w (config_kept) (wait_command w write_config begun).1).1

  abbrev pub dual_checked : Machine
  dual_checked = (ps2_check_dual_channel w restored).1

  pub restored-Quiet : Quiet (self_check_reply w s).1 restored
  restored-Quiet =
      Quiet-trans (wait_command-Quiet w write_config (self_check_reply w s).1)
        (wait_data-Quiet w _ _)

  restored-ps2 : restored.ps2 ≡ s.ps2
  restored-ps2 = same_ps2 restored-Quiet ∙ self_check_reply-ps2 w s

  abbrev pub ports_checked : Machine
  ports_checked = (ps2_ports_self_check w dual_checked).1

  -- The answers that the driver gets from `s` on; those after a failed check stand for nothing.
  abbrev pub given : Answers
  given = record {
    reply = (self_check_reply w s).0;
    config = (first_config w restored).0;
    reply1 = (port_1_reply w dual_checked).0;
    reply2 = (port_2_reply w dual_checked).0;
    reset1 = device1_answers w ports_checked;
    reset2 = device2_answers w ports_checked;
  }

  abbrev set_ports : Ps2Vars → Ps2Vars
  set_ports v = record v {
    is_port1_valid = (port_1_reply w dual_checked).0 == 0;
    is_port2_valid = (port_2_reply w dual_checked).0 == 0;
  }

  pub flags : ports_checked.ps2 ≡ checked given s.ps2
  flags =
      ps2_ports_self_check-ps2 w dual_checked
      ∙ ap set_ports (ps2_check_dual_channel-ps2 w restored)
      ∙ ap (checked given) restored-ps2

  -- The variables after what follows the self check of the controller.
  abbrev after_reply : (passed : Bool) → Ps2Vars
  after_reply passed =
      ((if not passed then printf w "ps/2: failed to initialize\n" [] else (do
        wait_command w write_config
        wait_data w config_kept
        ps2_check_dual_channel w
        ps2_ports_self_check w
        start_ports w))
        (self_check_reply w s).1).1.ps2

  -- Whatever the controller and the devices answer, `ps2_init` ends, and its variables have come to
  -- what the answers say in one of three ways. Where the controller answers anything but 55 to its
  -- self check, they are as before. Where it answers 55 but no port answers 0 to its own check, only
  -- the second channel and the two ports are recorded, by the configuration and the answers. Where a
  -- port answers 0, moreover both devices are recorded, each by `reset_outcome` on its answers.
  pub ps2_init-Comes : Comes given s.ps2 (ps2_init w s).1.ps2
  unfolding ps2_init ◌>>=◌
  ps2_init-Comes = elim (Bool-cases (given.reply == 0x55)) [
    | inr no_reply ↦
        let kept : after_reply false ≡ s.ps2 = unfold printf in self_check_reply-ps2 w s in
        subst (λ b. Comes given s.ps2 (after_reply b)) (sym no_reply)
          (subst (Comes given s.ps2) (sym kept) (no_controller (ground arith)))
    | inl passed ↦
        subst (λ b. Comes given s.ps2 (after_reply b)) (sym passed)
          (after_checks w given s.ps2 (==→eq _ _ passed) ports_checked flags refl refl)
  ]
