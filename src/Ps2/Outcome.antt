-- ===== src/Ps2/Outcome.antt =====
-- What the answers to a reset mean, as a function of the answers.
use chp_os.Base.{
  ℕ, ◌+◌, ◌*◌, ◌%◌, ◌^◌, ◌<◌, ◌≡◌, refl, fun_ext, ap, ap₂, ◌∙◌, bit_or_halves, bit_or_zero_left,
  bit_or_zero_right, arith, Bool-cases, inl, inr, ◌==◌, ◌&&◌, ◌||◌, if◌then◌else◌, Bool, true,
  false, bit_or, ◌<<<◌,
}
use chp_os.Machine.{Device, not_connected, self_check_fail, okay, DeviceType, type_00, type_unknown}
use chp_os.Ps2.{Ps2Error, error_none, error_timeout}
use chp_os.Ps2.Device.{reset_okay}

-- What the two id bytes say: the driver knows one kind of device.
abbrev pub device_type : (device_id : ℕ) → DeviceType
device_type device_id = if device_id == 0 then type_00 else type_unknown

-- `reset_okay` asks for the bytes FA and AA, in either order.
abbrev pub is_passed : (first second : ℕ) → Bool
is_passed first second = (first == 0xfa) && (second == 0xaa) || (first == 0xaa) && (second == 0xfa)

pub reset_okay-is_passed : (a b : ℕ) → a < 2 ^ 8 → b < 2 ^ 8 → reset_okay a b ≡ is_passed a b
reset_okay-is_passed a b ha hb =
    let word : bit_or a (b <<< 8) % 2 ^ 16 ≡ b * 2 ^ 8 + a =
      ap (λ x. x % 2 ^ 16)
        (ap₂ bit_or {x = a} {y = 0 * 2 ^ 8 + a} {u = b <<< 8} {v = b * 2 ^ 8 + 0} (omega arith)
            (omega arith)
          ∙ bit_or_halves 8 0 b a 0 ha (omega arith))
      ∙ ground (arith, bit_or_zero_left b, bit_or_zero_right a) in
    rw word (ground arith)

-- The new record of a device by the first two answers to the reset command and by the id.
abbrev pub reset_outcome : Ps2Error × ℕ → Ps2Error × ℕ → (device_id : ℕ) → Device → Device
reset_outcome (error_timeout, _) second id = λ d. record d { status = not_connected }
reset_outcome (error_none, a) (error_timeout, _) id = λ d. record d { status = self_check_fail }
reset_outcome (error_none, a) (error_none, b) id =
    if is_passed a b
    then (λ d. record d { status = okay; type = device_type id })
    else (λ d. record d { status = self_check_fail })

-- What a device answers to its reset: the first two reads, and the id.
abbrev pub DeviceAnswers : Type 0
DeviceAnswers = (Ps2Error × ℕ) × (Ps2Error × ℕ) × ℕ

-- The new record of a device.
abbrev pub recorded : DeviceAnswers → Device → Device
recorded (first, second, id) = reset_outcome first second id

-- What the driver is answered: by the controller to its self check, for the configuration after the
-- second port is enabled, and to the self checks of the ports; and by the devices.
pub record Answers : Type 0 where
  pub reply : ℕ
  pub config : ℕ
  pub reply1 : ℕ
  pub reply2 : ℕ
  pub reset1 : DeviceAnswers
  pub reset2 : DeviceAnswers

-- FC is no good answer, whatever follows.
pub refused :
    (a : ℕ)
    → (0xfc == a) ≡ true
    → (second : Ps2Error × ℕ) (id : ℕ)
    → reset_outcome (error_none, a) second id ≡ (λ d. record d { status = self_check_fail })
refused a e (error_timeout, b) id = refl
refused a e (error_none, b) id = let failed : is_passed a b ≡ false = ground arith in rw failed

-- The outcome does not depend on the status before.
pub overrides :
    (first second : Ps2Error × ℕ) (id : ℕ)
    → (λ (d : Device). reset_outcome first second id (record d { status = not_connected }))
      ≡ reset_outcome first second id
overrides (error_timeout, a) second id = refl
overrides (error_none, a) (error_timeout, b) id = refl
overrides (error_none, a) (error_none, b) id = elim (Bool-cases (is_passed a b)) [
  | inl e ↦ fun_ext λ d. rw e
  | inr e ↦ fun_ext λ d. rw e
]
