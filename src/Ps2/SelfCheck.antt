-- ===== src/Ps2/SelfCheck.antt =====
-- `ps2_init` up to the answer of the controller to its self check.
use chp_os.Base.{ℕ, ◌≡◌, refl, ◌==◌, [], ◌∷◌}
use chp_os.Machine.{Machine, M, ◌>>=◌, ◌>>◌, num, World, printf}
use chp_os.Ps2.{
  disable_1, disable_2, ps2_read_data, wait_command, yes_no, read_config, write_config,
  test_controller,
}
use chp_os.Ps2.Quiet.{
  Quiet, Quiet-trans, same_ps2, write_command-Quiet, read_data-Quiet, wait_command-Quiet,
  wait_data-Quiet, wait_read-Quiet, reply, reply-Quiet,
}
use chp_os.Ps2.Init.{update_config, controller_self_check}

-- `ps2_init` up to the answer of the controller to its self check.
abbrev pub self_check_reply : World → M ℕ
self_check_reply w = do
  wait_command w disable_1
  wait_command w disable_2
  ps2_read_data w
  config ← update_config w
  controller_self_check w

module _ (w : World) (s : Machine) where
  update_config-Quiet : (t : Machine) → Quiet t (update_config w t).1
  unfolding update_config ◌>>=◌
  update_config-Quiet t =
      let asked = Quiet-trans (write_command-Quiet w t read_config) (wait_read-Quiet w _) in
      let written = Quiet-trans (write_command-Quiet w _ write_config) (wait_data-Quiet w _ _) in
      Quiet-trans (Quiet-trans asked written) (reply-Quiet w read_config _)

  -- The state before the self check.
  abbrev configured : Machine
  configured =
      let stopped = (wait_command w disable_2 (wait_command w disable_1 s).1).1 in
      (update_config w (ps2_read_data w stopped).1).1

  -- The answer, before it is printed.
  abbrev pub first_reply : ℕ × Machine
  first_reply = reply w test_controller configured

  pub first_reply-Quiet : Quiet s first_reply.1
  first_reply-Quiet =
      let stopped =
        Quiet-trans (wait_command-Quiet w disable_1 s) (wait_command-Quiet w disable_2 _) in
      let flushed = Quiet-trans stopped (read_data-Quiet w _) in
      Quiet-trans (Quiet-trans flushed (update_config-Quiet _))
        (reply-Quiet w test_controller configured)

  pub self_check_reply_lem : self_check_reply w s ≡ (
    first_reply.0,
    (printf w "ps/2: controller self-check passed: %s (response=0x%x)\n"
        (yes_no (first_reply.0 == 0x55) ∷ num first_reply.0 ∷ [])
        first_reply.1).1,
  )
  unfolding controller_self_check ◌>>=◌
  self_check_reply_lem = refl

  pub self_check_reply-ps2 : (self_check_reply w s).1.ps2 ≡ s.ps2
  unfolding controller_self_check printf ◌>>=◌
  self_check_reply-ps2 = same_ps2 first_reply-Quiet
