-- ===== src/Ps2/Reset.antt =====
-- How the answers of a device decide what the driver records of it.
use chp_os.Base.{
  ℕ, ◌^◌, ◌<◌, ◌≡◌, refl, sym, ap, ◌∙◌, arith, Bool-cases, inl, inr, ◌==◌, if◌then◌else◌, String,
  bit_or, ◌<<<◌, u16,
}
use chp_os.Machine.{
  Machine, pure, ◌>>=◌, World, printf, Ps2Vars, Device, DeviceStatus, not_connected,
  self_check_fail, okay,
}
use chp_os.Ps2.{Ps2Error, error_none, error_timeout, if_timeout}
use chp_os.Ps2.Device.{
  DevicePtr, device1, device2, assign, set_status, set_device_type, ps2_log_dev,
  ps2_device_write_data, ps2_device_read_data, identify_device, give_up, check_response, reset_okay,
  ps2_reset_device,
}
use chp_os.Ps2.Outcome.{
  device_type, is_passed, reset_okay-is_passed, reset_outcome, refused, overrides,
}
use chp_os.Ps2.Quiet.{Quiet, Quiet-refl, Quiet-trans, same_ps2}
use chp_os.Ps2.Exchange.{read-Quiet, read-lt, write-Quiet}

module _ (w : World) where
  module _ (p : DevicePtr) where
    give_up-ps2 :
        (fmt : String) (status : DeviceStatus) (s : Machine)
        → (give_up w p fmt status s).1.ps2 ≡ assign p (λ d. record d { status = status }) s.ps2
    unfolding give_up ps2_log_dev printf ◌>>=◌
    give_up-ps2 fmt status s = refl

    -- The reads of the device id: its first and its second byte, 0 where none came.
    abbrev pub ids : Machine → (ℕ × ℕ) × Machine
    ids s =
        let third = ps2_device_read_data w 0 s in
        let fourth =
          if_timeout third.0.0 (pure (error_timeout, 0)) (ps2_device_read_data w 0) third.1 in
        ((third.0.1, fourth.0.1), fourth.1)

    pub ids-Quiet : (s : Machine) → Quiet s (ids s).1
    ids-Quiet s = Quiet-trans (read-Quiet w 0 s) (go (ps2_device_read_data w 0 s).0.0 _)
      where
        go :
            (e : Ps2Error) (t : Machine)
            → Quiet t
                (if_timeout {A = Ps2Error × ℕ} e
                  (pure (error_timeout, 0))
                  (ps2_device_read_data w 0)
                  t).1
        go error_none t = read-Quiet w 0 t
        go error_timeout t = Quiet-refl

    set_device_type-ps2 :
        (id : ℕ) (s : Machine)
        → (set_device_type w p id s).1.ps2
          ≡ assign p (λ d. record d { type = device_type id }) s.ps2
    unfolding set_device_type printf ◌>>=◌
    set_device_type-ps2 id s = elim (Bool-cases (id == 0)) [ inl e ↦ rw e | inr e ↦ rw e ]

    pub assign-assign :
        (f g : Device → Device) (v : Ps2Vars)
        → assign p g (assign p f v) ≡ assign p (λ d. g (f d)) v
    assign-assign f g v = elim p as (λ q. assign q g (assign q f v) ≡ assign q (λ d. g (f d)) v) [
      | device1 ↦ refl
      | device2 ↦ refl
    ]

    -- The device once its self check has passed.
    abbrev identified : Machine → Device → Device
    identified s d = record d {
      status = okay;
      type = device_type (u16 (bit_or ((ids s).0.1 <<< 8) (ids s).0.0));
    }

    identify_device-ps2 :
        (s : Machine) → (identify_device w p s).1.ps2 ≡ assign p (identified s) s.ps2
    unfolding identify_device ps2_log_dev printf ◌>>=◌
    identify_device-ps2 s =
        set_device_type-ps2 _ _
        ∙ assign-assign (λ d. record d { status = okay }) _ _
        ∙ ap (assign p (identified s)) (same_ps2 (ids-Quiet s))

    -- The id that the reads from `s` on give.
    abbrev pub device_id : Machine → ℕ
    device_id s = u16 (bit_or ((ids s).0.1 <<< 8) (ids s).0.0)

    judge_second :
        (a : ℕ) (r : (Ps2Error × ℕ) × Machine)
        → a < 2 ^ 8
        → r.0.1 < 2 ^ 8
        → (if_timeout r.0.0
            (give_up w p "ps/2 (dev %u): self-check fail 2\n" self_check_fail)
            (if reset_okay a r.0.1
              then identify_device w p
              else give_up w p "ps/2 (dev %u): self-check fail 3\n" self_check_fail)
            r.1).1.ps2
          ≡ assign p (reset_outcome (error_none, a) r.0 (device_id r.1)) r.1.ps2
    judge_second a ((error_timeout, b), s) ha hb = give_up-ps2 _ self_check_fail s
    judge_second a ((error_none, b), s) ha hb = elim (Bool-cases (is_passed a b)) [
      | inl e ↦ rw (reset_okay-is_passed a b ha hb, e) (identify_device-ps2 s)
      | inr e ↦ rw (reset_okay-is_passed a b ha hb, e) (give_up-ps2 _ self_check_fail s)
    ]

    check_response-ps2 :
        (a : ℕ) (s : Machine)
        → a < 2 ^ 8
        → let second = ps2_device_read_data w a s in
          (check_response w p a s).1.ps2
          ≡ assign p (reset_outcome (error_none, a) second.0 (device_id second.1)) s.ps2
    unfolding check_response ◌>>=◌
    check_response-ps2 a s ha =
        let second = ps2_device_read_data w a s in
        judge_second a second ha (read-lt w a s ha)
        ∙ ap (assign p (reset_outcome (error_none, a) second.0 (device_id second.1)))
            (same_ps2 (read-Quiet w a s))

    judge_first :
        (r : (Ps2Error × ℕ) × Machine)
        → r.0.1 < 2 ^ 8
        → let second = ps2_device_read_data w r.0.1 r.1 in
          (if_timeout r.0.0
            (give_up w p "ps/2 (dev %u): not connected\n" not_connected)
            (if 0xfc == r.0.1
              then give_up w p "ps/2 (dev %u): self-check fail 1\n" self_check_fail
              else check_response w p r.0.1)
            r.1).1.ps2
          ≡ assign p (reset_outcome r.0 second.0 (device_id second.1)) r.1.ps2
    judge_first ((error_timeout, a), s) ha = give_up-ps2 _ not_connected s
    judge_first ((error_none, a), s) ha = elim (Bool-cases (0xfc == a)) [
      | inl e ↦
          rw e
            (give_up-ps2 _ self_check_fail s ∙ ap (λ f. assign p f s.ps2) (sym (refused a e _ _)))
      | inr e ↦ rw e (check_response-ps2 a s ha)
    ]

    -- What a device answers to the reset from `s`: the first two reads after the command, and the id.
    abbrev pub answers : Machine → (Ps2Error × ℕ) × (Ps2Error × ℕ) × ℕ
    answers s =
        let sent = (ps2_device_write_data w p 0xff (set_status p not_connected s).1).1 in
        let first = ps2_device_read_data w 0 sent in
        let second = ps2_device_read_data w first.0.1 first.1 in
        (first.0, second.0, device_id second.1)

    -- Whatever the device answers, the variables of the driver after its reset are those
    -- before but for the record of this device, which follows `reset_outcome` on the first two
    -- answers after the command and on the id: the kind of failure, or success with the type
    -- by the id.
    pub ps2_reset_device-ps2 :
        (s : Machine)
        → let sent = (ps2_device_write_data w p 0xff (set_status p not_connected s).1).1 in
          let first = ps2_device_read_data w 0 sent in
          let second = ps2_device_read_data w first.0.1 first.1 in
          (ps2_reset_device w p s).1.ps2
          ≡ assign p (reset_outcome first.0 second.0 (device_id second.1)) s.ps2
    unfolding ps2_reset_device ◌>>=◌
    ps2_reset_device-ps2 s =
        let reset = (set_status p not_connected s).1 in
        let sent = (ps2_device_write_data w p 0xff reset).1 in
        let first = ps2_device_read_data w 0 sent in
        let second = ps2_device_read_data w first.0.1 first.1 in
        let f = reset_outcome first.0 second.0 (device_id second.1) in
        judge_first first (read-lt w 0 sent (omega arith))
        ∙ ap (assign p f)
            (same_ps2 (Quiet-trans (write-Quiet w p 0xff reset) (read-Quiet w 0 sent)))
        ∙ assign-assign (λ d. record d { status = not_connected }) f s.ps2
        ∙ ap (λ g. assign p g s.ps2) (overrides first.0 second.0 (device_id second.1))
