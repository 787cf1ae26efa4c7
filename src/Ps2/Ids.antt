-- ===== src/Ps2/Ids.antt =====
-- The bytes with which a device names itself, from the buffer into the id.
use chp_os.Base.{
  ℕ, ◌+◌, ◌*◌, ◌^◌, ◌<◌, ◌≡◌, refl, ap, ap₂, ◌∙◌, arith, List, [], ◌∷◌, ◌==◌, Bool-cases, inl, inr,
  bit_or, bit_or_halves, bit_or_zero_left, bit_or_zero_right, ◌<<<◌, u16, String,
}
use chp_os.Machine.{Machine, World, pure, ◌>>=◌, printf, DeviceStatus}
use chp_os.Ps2.{Ps2Error, error_timeout, if_timeout}
use chp_os.Ps2.Device.{
  DevicePtr, ps2_device_read_data, identify_device, set_device_type, ps2_log_dev, give_up,
}
use chp_os.Ps2.Reset.{ids, device_id}
use chp_os.Ps2.Controller.{Controller, Target, Behaves, drop_first}
use chp_os.Ps2.Queue.{Buffer, taken, AreBytes, device_read-Buffer}

-- The id of two bytes, the low one first.
id_word : (a b : ℕ) → a < 2 ^ 8 → b < 2 ^ 8 → u16 (bit_or (b <<< 8) a) ≡ b * 2 ^ 8 + a
id_word a b ha hb =
    ap u16 (
      ap₂ bit_or {x = b <<< 8} {y = b * 2 ^ 8 + 0} {u = a} {v = 0 * 2 ^ 8 + a} (omega arith)
        (omega arith)
      ∙ bit_or_halves 8 b 0 0 a (omega arith) ha)
    ∙ ground (arith, bit_or_zero_left a, bit_or_zero_right b)

-- The first byte of an id, and the second one.
abbrev pub byte_1 : List ℕ → ℕ
byte_1 [] = 0
byte_1 (a ∷ q) = a

abbrev pub byte_2 : List ℕ → ℕ
byte_2 q = byte_1 (drop_first q)

byte_1-lt : (q : List ℕ) → AreBytes q → byte_1 q < 2 ^ 8
byte_1-lt [] bytes = omega arith
byte_1-lt (a ∷ q) (byte, bytes) = byte

module _ (w : World) (c : Controller) (behaves : Behaves c w) (p : DevicePtr) where
  pub give_up-Buffer :
      (fmt : String) (status : DeviceStatus) {q : List ℕ} {t : Target} {s : Machine}
      → Buffer c q t s
      → Buffer c q t (give_up w p fmt status s).1
  unfolding give_up ps2_log_dev printf ◌>>=◌
  give_up-Buffer fmt status b = record { queued = b.queued; aimed = b.aimed }

  -- The read of the second byte of the id, by the outcome of the first read.
  second_id :
      (e : Ps2Error × ℕ) (q : List ℕ) {t : Target} {s : Machine}
      → e ≡ taken 0 q
      → AreBytes q
      → Buffer c (drop_first q) t s
      → let r =
          if_timeout {A = Ps2Error × ℕ} e.0
            (pure (error_timeout, 0))
            (ps2_device_read_data w 0)
            s in
        (r.0.1 ≡ byte_2 q) × Buffer c (drop_first (drop_first q)) t r.1
  second_id e [] {s} same bytes b = rw same (refl, b)
  second_id e (a ∷ []) {s} same (byte, bytes) b =
      let read = device_read-Buffer w c behaves 0 [] {s = s} tt b in
      rw same (ap (λ (x : Ps2Error × ℕ). x.1) read.0, read.1)
  second_id e (a ∷ a' ∷ q) {s} same (byte, bytes) b =
      let read = device_read-Buffer w c behaves 0 (a' ∷ q) {s = s} bytes b in
      rw same (ap (λ (x : Ps2Error × ℕ). x.1) read.0, read.1)

  pub ids-Buffer :
      (q : List ℕ) {t : Target} {s : Machine}
      → AreBytes q
      → Buffer c q t s
      → (device_id w p s ≡ byte_2 q * 2 ^ 8 + byte_1 q)
        × Buffer c (drop_first (drop_first q)) t (ids w p s).1
  ids-Buffer q {s} bytes b =
      let first = device_read-Buffer w c behaves 0 q {s = s} bytes b in
      let second = second_id (ps2_device_read_data w 0 s).0 q first.0 bytes first.1 in
      (
        ap₂ (λ b a. u16 (bit_or (b <<< 8) a)) second.0
              (ap (λ (x : Ps2Error × ℕ). x.1) first.0 ∙ value q)
            ∙ id_word (byte_1 q) (byte_2 q) (byte_1-lt q bytes)
                (byte_1-lt (drop_first q) (rest q bytes)),
        second.1,
      )
    where
      value : (q : List ℕ) → (taken 0 q).1 ≡ byte_1 q
      value [] = refl
      value (a ∷ q) = refl

      rest : (q : List ℕ) → AreBytes q → AreBytes (drop_first q)
      rest [] bytes = tt
      rest (a ∷ q) (byte, bytes) = bytes

  pub identify-Buffer :
      {q : List ℕ} {t : Target} (s : Machine)
      → Buffer c q t (ids w p s).1
      → Buffer c q t (identify_device w p s).1
  unfolding identify_device set_device_type ps2_log_dev printf ◌>>=◌
  identify-Buffer s b = elim (Bool-cases (device_id w p s == 0)) [
    | inl e ↦ rw e (record { queued = b.queued; aimed = b.aimed })
    | inr e ↦ rw e (record { queued = b.queued; aimed = b.aimed })
  ]
