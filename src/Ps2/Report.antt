-- ===== src/Ps2/Report.antt =====
-- kernel/src/io/ps2/ps2.c: what the reset of a device prints, by the answers of the device.
use chp_os.Base.{ℕ, ◌^◌, ◌<◌, ap, ◌∙◌, arith, Bool-cases, inl, inr, ◌==◌, if◌then◌else◌}
use chp_os.Machine.{Machine, ◌>>=◌, World, not_connected, self_check_fail}
use chp_os.Ps2.{Ps2Error, error_none, error_timeout, if_timeout}
use chp_os.Ps2.Device.{
  DevicePtr, set_status, ps2_device_write_data, ps2_device_read_data, identify_device, give_up,
  check_response, reset_okay, ps2_reset_device,
}
use chp_os.Ps2.Outcome.{is_passed, reset_okay-is_passed}
use chp_os.Ps2.Quiet.{Quiet-trans}
use chp_os.Ps2.Exchange.{read-Quiet, read-lt, write-Quiet}
use chp_os.Ps2.Reset.{device_id, answers}
use chp_os.Ps2.Messages.{port_number, second_messages, device_messages}
use chp_os.Ps2.Says.{
  Says, Says-after, IsPort, IsPort-kept, deref-assign, give_up-Says, identify_device-Says,
}

module _ (w : World) (p : DevicePtr) (port : ℕ) where
  judge_second :
      (a : ℕ) (r : (Ps2Error × ℕ) × Machine)
      → a < 2 ^ 8
      → r.0.1 < 2 ^ 8
      → IsPort w p port r.1
      → Says w
          (second_messages port a r.0 (device_id w p r.1))
          r.1
          (if_timeout r.0.0
            (give_up w p "ps/2 (dev %u): self-check fail 2\n" self_check_fail)
            (if reset_okay a r.0.1
              then identify_device w p
              else give_up w p "ps/2 (dev %u): self-check fail 3\n" self_check_fail)
            r.1).1
  judge_second a ((error_timeout, b), s) ha hb at = give_up-Says w p _ self_check_fail port s at
  judge_second a ((error_none, b), s) ha hb at = elim (Bool-cases (is_passed a b)) [
    | inl e ↦ rw (reset_okay-is_passed a b ha hb, e) (identify_device-Says w p port s at)
    | inr e ↦ rw (reset_okay-is_passed a b ha hb, e) (give_up-Says w p _ self_check_fail port s at)
  ]

  check_response-Says :
      (a : ℕ) (s : Machine)
      → a < 2 ^ 8
      → IsPort w p port s
      → let second = ps2_device_read_data w a s in
        Says w
          (second_messages port a second.0 (device_id w p second.1))
          s
          (check_response w p a s).1
  unfolding check_response ◌>>=◌
  check_response-Says a s ha at =
      let q = read-Quiet w a s in
      Says-after w q
        (judge_second a (ps2_device_read_data w a s) ha (read-lt w a s ha) (IsPort-kept w p q at))

  judge_first :
      (r : (Ps2Error × ℕ) × Machine)
      → r.0.1 < 2 ^ 8
      → IsPort w p port r.1
      → let second = ps2_device_read_data w r.0.1 r.1 in
        Says w
          (device_messages port (r.0, second.0, device_id w p second.1))
          r.1
          (if_timeout r.0.0
            (give_up w p "ps/2 (dev %u): not connected\n" not_connected)
            (if 0xfc == r.0.1
              then give_up w p "ps/2 (dev %u): self-check fail 1\n" self_check_fail
              else check_response w p r.0.1)
            r.1).1
  judge_first ((error_timeout, a), s) ha at = give_up-Says w p _ not_connected port s at
  judge_first ((error_none, a), s) ha at = elim (Bool-cases (0xfc == a)) [
    | inl e ↦ rw e (give_up-Says w p _ self_check_fail port s at)
    | inr e ↦ rw e (check_response-Says a s ha at)
  ]

  -- The reset of a device prints what its answers call for.
  pub ps2_reset_device-Says :
      (s : Machine)
      → IsPort w p port s
      → Says w (device_messages port (answers w p s)) s (ps2_reset_device w p s).1
  unfolding ps2_reset_device ◌>>=◌
  ps2_reset_device-Says s at =
      let reset = (set_status p not_connected s).1 in
      let sent = (ps2_device_write_data w p 0xff reset).1 in
      let asked = Quiet-trans (write-Quiet w p 0xff reset) (read-Quiet w 0 sent) in
      let at_port =
        ap port_number (deref-assign w p (λ d. record d { status = not_connected }) s.ps2) ∙ at in
      let told = Says-after w asked (
        judge_first (ps2_device_read_data w 0 sent) (read-lt w 0 sent (omega arith))
          (IsPort-kept w p asked at_port)) in
      record { said = told.said }
