-- ===== src/Ps2/Progress.antt =====
-- kernel/src/io/ps2/ps2.c: what the checks of the channels and the ports print.
use chp_os.Base.{ℕ, subst, Bool, true, false, ◌==◌, if◌then◌else◌, [], ◌∷◌, List}
use chp_os.Machine.{Machine, M, ◌>>=◌, ◌>>◌, World, printf, num, Ps2Vars, on_ps2, skip}
use chp_os.Ps2.{
  Command, yes_no, enable_1, test_port_1, test_port_2, port_self_check, ps2_check_dual_channel,
  ps2_ports_self_check, ps2_enable_ports,
}
use chp_os.Ps2.Quiet.{Quiet-refl, same_ps2, wait_read-lt, reply, reply-Quiet}
use chp_os.Ps2.Answers.{
  is_dual, is_dual_lem, first_config, first_config-Quiet, stop_second, stop_second-Quiet,
  set_valid1, set_valid2, port_1_reply, port_2_reply, if_valid-Quiet, enable, enable-Quiet,
}
use chp_os.Ps2.Messages.{Message, port_message}
use chp_os.Ps2.Says.{Says, Says-nothing, Says-then, Says-after, Says-printf}

abbrev pub dual_message : (dual : Bool) → List Message
dual_message dual = ("ps/2: dual channel: %s\n", yes_no dual ∷ []) ∷ []

abbrev pub enabled_message : (valid1 valid2 : Bool) → List Message
enabled_message valid1 valid2 =
    ("ps/2: ports enabled (1: %s, 2: %s)\n", yes_no valid1 ∷ yes_no valid2 ∷ []) ∷ []

module _ (w : World) where
  -- What follows the first configuration byte.
  abbrev after_config : (dual : Bool) → M (Unit {0})
  after_config dual = do
    on_ps2 (λ v. record v { is_dual_channel = dual })
    printf w "ps/2: dual channel: %s\n" (yes_no dual ∷ [])
    if dual then stop_second w else skip

  after_config-Says :
      (dual : Bool) (s : Machine) → Says w (dual_message dual) s (after_config dual s).1
  unfolding ◌>>=◌
  after_config-Says dual s =
      let noted = (on_ps2 (λ v. record v { is_dual_channel = dual }) s).1 in
      let told = Says-printf w "ps/2: dual channel: %s\n" (yes_no dual ∷ []) noted in
      let stopped =
        elim dual
          as (λ b.
            Says w [] (printf w "ps/2: dual channel: %s\n" (yes_no dual ∷ []) noted).1
              ((if b then stop_second w else skip)
                (printf w "ps/2: dual channel: %s\n" (yes_no dual ∷ []) noted).1).1) [
                  | true ↦ Says-nothing w (stop_second-Quiet w _)
                  | false ↦ Says-nothing w Quiet-refl
                ] in
      record { said = (Says-then w told stopped).said }

  pub dual-Says :
      (s : Machine)
      → Says w (dual_message (is_dual (first_config w s).0)) s (ps2_check_dual_channel w s).1
  unfolding ps2_check_dual_channel ◌>>=◌
  dual-Says s =
      let config = first_config w s in
      rw (is_dual_lem config.0 (wait_read-lt w _))
        (Says-after w (first_config-Quiet w s) (after_config-Says (is_dual config.0) config.1))

  port-Says :
      (cmd : Command) (port : ℕ) (set_flag : Bool → Ps2Vars → Ps2Vars) (s : Machine)
      → Says w
          (port_message port (reply w cmd s).0 ∷ [])
          s
          (port_self_check w cmd port set_flag s).1
  unfolding port_self_check ◌>>=◌
  port-Says cmd port set_flag s =
      let response = reply w cmd s in
      let flagged = (on_ps2 (set_flag (response.0 == 0)) response.1).1 in
      let told =
        Says-printf w _ (num port ∷ yes_no (response.0 == 0) ∷ num response.0 ∷ []) flagged in
      Says-after w (reply-Quiet w cmd s) (record { said = told.said })

  pub ports-Says :
      (s : Machine)
      → Says w
          (port_message 1 (port_1_reply w s).0 ∷ port_message 2 (port_2_reply w s).0 ∷ [])
          s
          (ps2_ports_self_check w s).1
  unfolding ps2_ports_self_check ◌>>=◌
  ports-Says s =
      Says-then w (port-Says test_port_1 1 set_valid1 s) (port-Says test_port_2 2 set_valid2 _)

  pub enable-Says :
      (s : Machine)
      → Says w
          (enabled_message s.ps2.is_port1_valid s.ps2.is_port2_valid)
          s
          (ps2_enable_ports w s).1
  unfolding ps2_enable_ports ◌>>=◌
  enable-Says s =
      let same = same_ps2 (if_valid-Quiet w s.ps2.is_port1_valid enable_1 s) in
      subst
        (λ (v : Ps2Vars).
          Says w (enabled_message s.ps2.is_port1_valid v.is_port2_valid) s (ps2_enable_ports w s).1)
        same (Says-after w (enable-Quiet w s) (Says-printf w _ _ (enable w s).1))
