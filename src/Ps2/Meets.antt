-- ===== src/Ps2/Meets.antt =====
-- The reset of a device that answers: what is recorded, and that no byte of the answer is left.
use chp_os.Base.{
  ℕ, ◌+◌, ◌*◌, ◌^◌, ◌≡◌, refl, ap, ◌∙◌, sym, arith, List, [], ◌∷◌, subst, ◌==◌, if◌then◌else◌,
}
use chp_os.Machine.{Machine, World, ◌>>=◌, Device, not_connected, self_check_fail, okay}
use chp_os.Ps2.{Ps2Error, error_none, if_timeout}
use chp_os.Ps2.Device.{DevicePtr, ps2_device_read_data, identify_device, give_up, check_response}
use chp_os.Ps2.Outcome.{DeviceAnswers, recorded, refused, device_type}
use chp_os.Ps2.Reset.{device_id}
use chp_os.Ps2.Controller.{
  Controller, Behaviour, absent, failing, nameless, one_id, two_ids, sent, SendsBytes, found,
  Target, Behaves, drop_first,
}
use chp_os.Ps2.Queue.{Buffer, AreBytes, device_read-Buffer}
use chp_os.Ps2.Ids.{byte_1, byte_2, give_up-Buffer, ids-Buffer, identify-Buffer}

module _ (w : World) (c : Controller) (behaves : Behaves c w) (p : DevicePtr) where
  -- What the reset does after the command, once the first read is over.
  abbrev pub judge : (Ps2Error × ℕ) × Machine → Unit {0} × Machine
  judge (e, s) =
      if_timeout e.0 (give_up w p "ps/2 (dev %u): not connected\n" not_connected)
        (if 0xfc == e.1
          then give_up w p "ps/2 (dev %u): self-check fail 1\n" self_check_fail
          else check_response w p e.1)
        s

  -- The answers that are read from `u` on.
  abbrev pub heard : Machine → DeviceAnswers
  heard u =
      let first = ps2_device_read_data w 0 u in
      let second = ps2_device_read_data w first.0.1 first.1 in
      (first.0, second.0, device_id w p second.1)

  -- What was sent is recorded as `found` says, and all of it is read.
  pub record IsMet (d : Behaviour) (t : Target) (u : Machine) : Type 0 where
    pub known : recorded (heard u) ≡ found d
    pub left : Buffer c [] t (judge (ps2_device_read_data w 0 u)).1

  absent-IsMet : (t : Target) (u : Machine) → Buffer c [] t u → IsMet absent t u
  absent-IsMet t u b =
      let first = device_read-Buffer w c behaves 0 [] {s = u} tt b in
      record {
        known = ap (λ e. recorded (e, (heard u).1, (heard u).2)) first.0;
        left = rw (first.0) (give_up-Buffer w c behaves p _ not_connected first.1);
      }

  failing-IsMet : (t : Target) (u : Machine) → Buffer c (0xfc ∷ []) t u → IsMet failing t u
  failing-IsMet t u b =
      let first = device_read-Buffer w c behaves 0 (0xfc ∷ []) {s = u} (omega arith, tt) b in
      record {
        known =
            ap (λ e. recorded (e, (heard u).1, (heard u).2)) first.0
            ∙ refused 0xfc refl (heard u).1 (heard u).2;
        left = rw (first.0) (give_up-Buffer w c behaves p _ self_check_fail first.1);
      }

  module _ (l : List ℕ) (bytes : AreBytes l) (t : Target) (u : Machine)
      (b : Buffer c (0xfa ∷ 0xaa ∷ l) t u) where
    first_read : (ps2_device_read_data w 0 u).0 ≡ (error_none, 0xfa)
    first_read =
        (device_read-Buffer w c behaves 0 (0xfa ∷ 0xaa ∷ l) {s = u}
          (omega arith, (omega arith, bytes)) b).0

    abbrev after_first : Machine
    after_first = (ps2_device_read_data w 0 u).1

    second_read :
        (old : ℕ)
        → let r = ps2_device_read_data w old after_first in
          (r.0 ≡ (error_none, 0xaa)) × Buffer c l t r.1
    second_read old =
        device_read-Buffer w c behaves old (0xaa ∷ l) {s = after_first} (omega arith, bytes)
          (device_read-Buffer w c behaves 0 (0xfa ∷ 0xaa ∷ l) {s = u}
            (omega arith, (omega arith, bytes)) b).1

    passed-known :
        recorded (heard u)
        ≡ (λ d. record d { status = okay; type = device_type (byte_2 l * 2 ^ 8 + byte_1 l) })
    passed-known =
        let second = second_read (ps2_device_read_data w 0 u).0.1 in
        let id = (ids-Buffer w c behaves p l bytes second.1).0 in
        ap (λ e. recorded (e, (heard u).1, (heard u).2)) first_read
        ∙ ap (λ e. recorded ((error_none, 0xfa), e, (heard u).2)) second.0
        ∙ ap (λ n. recorded ((error_none, 0xfa), (error_none, 0xaa), n)) id

    passed-left :
        drop_first (drop_first l) ≡ [] → Buffer c [] t (judge (ps2_device_read_data w 0 u)).1
    unfolding check_response ◌>>=◌
    passed-left short =
        let second = second_read 0xfa in
        let id = (ids-Buffer w c behaves p l bytes second.1).1 in
        rw (first_read, second.0)
          (subst
            (λ q. Buffer c q t (identify_device w p (ps2_device_read_data w 0xfa after_first).1).1)
            short (identify-Buffer w c behaves p _ id))

  passed-IsMet :
      (d : Behaviour) (l : List ℕ)
      → AreBytes l
      → drop_first (drop_first l) ≡ []
      → found d
        ≡ (λ e. record e { status = okay; type = device_type (byte_2 l * 2 ^ 8 + byte_1 l) })
      → (t : Target) (u : Machine) → Buffer c (0xfa ∷ 0xaa ∷ l) t u
      → IsMet d t u
  passed-IsMet d l bytes short same t u b = record {
    known = passed-known l bytes t u b ∙ sym same;
    left = passed-left l bytes t u b short;
  }

  pub Behaviour-IsMet :
      (d : Behaviour)
      → SendsBytes d
      → (t : Target) (u : Machine) → Buffer c (sent d) t u
      → IsMet d t u
  Behaviour-IsMet absent bytes t u b = absent-IsMet t u b
  Behaviour-IsMet failing bytes t u b = failing-IsMet t u b
  Behaviour-IsMet nameless bytes t u b = passed-IsMet nameless [] tt refl refl t u b
  Behaviour-IsMet (one_id id) byte t u b =
      let same : id ≡ 0 * 2 ^ 8 + id = omega arith in
      passed-IsMet (one_id id) (id ∷ []) (byte, tt) refl
        (ap (λ n (e : Device). record e { status = okay; type = device_type n }) same) t u b
  Behaviour-IsMet (two_ids first second) (byte, byte') t u b =
      passed-IsMet (two_ids first second) (first ∷ second ∷ []) (byte, (byte', tt)) refl refl t u b
