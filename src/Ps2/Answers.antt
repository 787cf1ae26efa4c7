-- ===== src/Ps2/Answers.antt =====
-- What the steps of the driver do to its variables, by the answers of the controller.
use chp_os.Base.{
  ℕ, ◌/◌, ◌%◌, ◌^◌, ◌<◌, ◌≡◌, refl, ap, ◌∙◌, ◌==◌, not, Bool, Bool-cases, true, false, inl, inr,
  bit_and, bit_or, all_below, all_below_sound, agree, agree→eq, if◌then◌else◌,
}
use chp_os.Machine.{Machine, M, ◌>>=◌, ◌>>◌, World, printf, Ps2Vars, skip}
use chp_os.Ps2.{
  Command, enable_1, enable_2, disable_2, read_config, write_config, test_port_1, test_port_2,
  complement, config_clock_2_bit, config_interrupt_2_bit, wait_command, wait_data, wait_read,
  port_self_check, ps2_check_dual_channel, ps2_ports_self_check, ps2_enable_ports, get_var,
  config_interrupt_1_bit,
}
use chp_os.Ps2.Quiet.{
  Quiet, Quiet-refl, Quiet-trans, same_ps2, wait_command-Quiet, wait_data-Quiet, wait_read-lt,
  reply, reply-Quiet,
}

abbrev set_dual : Bool → Ps2Vars → Ps2Vars
set_dual b v = record v { is_dual_channel = b }

abbrev pub set_valid1 : Bool → Ps2Vars → Ps2Vars
set_valid1 b v = record v { is_port1_valid = b }

abbrev pub set_valid2 : Bool → Ps2Vars → Ps2Vars
set_valid2 b v = record v { is_port2_valid = b }

-- Bit 5 of the configuration is clear: the second clock runs.
abbrev pub is_dual : (config : ℕ) → Bool
is_dual config = config / 2 ^ 5 % 2 == 0

pub is_dual_lem :
    (config : ℕ)
    → config < 2 ^ 8
    → not (bit_and (complement config) config_clock_2_bit == 0) ≡ is_dual config
unfolding all_below agree
is_dual_lem config h = agree→eq _ (is_dual config) (
    all_below_sound 256
      (λ x. agree (not (bit_and (complement x) config_clock_2_bit == 0)) (is_dual x)) refl config h)

module _ (w : World) where
  -- The configuration byte that `ps2_check_dual_channel` reads first.
  abbrev pub first_config : Machine → ℕ × Machine
  first_config s = reply w read_config (wait_command w enable_2 s).1

  port_self_check-ps2 :
      (cmd : Command) (port : ℕ) (set_flag : Bool → Ps2Vars → Ps2Vars) (s : Machine)
      → (port_self_check w cmd port set_flag s).1.ps2 ≡ set_flag ((reply w cmd s).0 == 0) s.ps2
  unfolding port_self_check printf ◌>>=◌
  port_self_check-ps2 cmd port set_flag s =
      ap (set_flag ((reply w cmd s).0 == 0)) (same_ps2 (reply-Quiet w cmd s))

  -- The answers to the self checks of the two ports.
  abbrev pub port_1_reply : Machine → ℕ × Machine
  port_1_reply s = reply w test_port_1 s

  abbrev pub port_2_reply : Machine → ℕ × Machine
  port_2_reply s = reply w test_port_2 (port_self_check w test_port_1 1 set_valid1 s).1

  pub ps2_ports_self_check-ps2 :
      (s : Machine)
      → (ps2_ports_self_check w s).1.ps2 ≡ record s.ps2 {
        is_port1_valid = (port_1_reply s).0 == 0;
        is_port2_valid = (port_2_reply s).0 == 0;
      }
  unfolding ps2_ports_self_check ◌>>=◌
  ps2_ports_self_check-ps2 s =
      port_self_check-ps2 test_port_2 2 set_valid2 _
      ∙ ap (set_valid2 ((port_2_reply s).0 == 0)) (port_self_check-ps2 test_port_1 1 set_valid1 s)

  -- What follows where the second channel is there.
  abbrev pub stop_second : M (Unit {0})
  stop_second = do
    wait_command w disable_2
    wait_command w read_config
    config2 ← wait_read w
    wait_command w write_config
    wait_data w (bit_and config2 (complement (bit_or config_interrupt_2_bit config_clock_2_bit)))

  pub stop_second-Quiet : (s : Machine) → Quiet s (stop_second s).1
  unfolding ◌>>=◌
  stop_second-Quiet s =
      let stopped = Quiet-trans (wait_command-Quiet w disable_2 s) (reply-Quiet w read_config _) in
      Quiet-trans stopped
        (Quiet-trans (wait_command-Quiet w write_config _) (wait_data-Quiet w _ _))

  pub first_config-Quiet : (s : Machine) → Quiet s (first_config s).1
  first_config-Quiet s = Quiet-trans (wait_command-Quiet w enable_2 s) (reply-Quiet w read_config _)

  pub ps2_check_dual_channel-ps2 :
      (s : Machine)
      → (ps2_check_dual_channel w s).1.ps2
        ≡ record s.ps2 { is_dual_channel = is_dual (first_config s).0 }
  unfolding ps2_check_dual_channel printf ◌>>=◌
  ps2_check_dual_channel-ps2 s =
      let config = first_config s in
      let same = is_dual_lem config.0 (wait_read-lt w _) in
      let kept : config.1.ps2 ≡ s.ps2 = same_ps2 (first_config-Quiet s) in
      rw same (elim (Bool-cases (is_dual config.0)) [
        | inl e ↦ rw e (same_ps2 (stop_second-Quiet _) ∙ ap (set_dual true) kept)
        | inr e ↦ rw e (ap (set_dual false) kept)
      ])

  -- `if (valid) { ps2_wait_input_ready(); ps2_write_command(c); }`
  abbrev pub if_valid : Bool → Command → M (Unit {0})
  if_valid valid c = if valid then wait_command w c else skip

  pub if_valid-Quiet : (valid : Bool) (c : Command) (s : Machine) → Quiet s (if_valid valid c s).1
  if_valid-Quiet true c s = wait_command-Quiet w c s
  if_valid-Quiet false c s = Quiet-refl

  -- What `ps2_enable_ports` does before its message.
  abbrev pub enable : M (Unit {0})
  enable = do
    valid1 ← get_var (λ v. v.is_port1_valid)
    if_valid valid1 enable_1
    valid2 ← get_var (λ v. v.is_port2_valid)
    if_valid valid2 enable_2
    wait_command w read_config
    config ← wait_read w
    let config1 = if valid1 then bit_or config config_interrupt_1_bit else config
    let config2 = if valid2 then bit_or config1 config_interrupt_2_bit else config1
    wait_command w write_config
    wait_data w config2

  pub enable-Quiet : (s : Machine) → Quiet s (enable s).1
  unfolding ◌>>=◌
  enable-Quiet s =
      let commands = Quiet-trans (if_valid-Quiet _ enable_1 s) (if_valid-Quiet _ enable_2 _) in
      Quiet-trans (Quiet-trans commands (reply-Quiet w read_config _))
        (Quiet-trans (wait_command-Quiet w write_config _) (wait_data-Quiet w _ _))

  pub ps2_enable_ports-ps2 : (s : Machine) → (ps2_enable_ports w s).1.ps2 ≡ s.ps2
  unfolding ps2_enable_ports printf ◌>>=◌
  ps2_enable_ports-ps2 s = same_ps2 (enable-Quiet s)
