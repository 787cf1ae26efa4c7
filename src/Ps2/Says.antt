-- ===== src/Ps2/Says.antt =====
-- kernel/src/io/ps2/ps2.c: what the reset of a device prints.
use chp_os.Base.{
  ℕ, ◌≡◌, refl, ap, ◌∙◌, sym, subst, Bool-cases, inl, inr, ◌==◌, List, [], ◌∷◌, ◌++◌, String,
}
use chp_os.Machine.{
  str, Machine, ◌>>=◌, ◌>>◌, World, Arg, num, printf, Ps2Vars, Device, DeviceStatus, DeviceType,
  type_00, type_unknown, M, okay,
}
use chp_os.Ps2.Device.{
  DevicePtr, device1, device2, deref, assign, set_status, set_type, load_device, type_code,
  set_device_type, ps2_log_dev, identify_device, give_up,
}
use chp_os.Ps2.Quiet.{Quiet, same_ps2, same_tty}
use chp_os.Ps2.Reset.{ids, ids-Quiet, device_id}
use chp_os.Ps2.Messages.{
  Message, say, say-++, rendered, rendered-++, port_number, initialized_message,
  identified_messages,
}

module _ (w : World) where
  -- From `s` to `t` the messages have been printed.
  pub record Says (ms : List Message) (s t : Machine) : Type 0 where
    pub said : t.tty ≡ say (rendered w ms) s.tty

  pub Says-nothing : {s t : Machine} → Quiet s t → Says [] s t
  unfolding say
  Says-nothing q = record { said = same_tty q }

  pub Says-then :
      {ms ns : List Message} {s t u : Machine} → Says ms s t → Says ns t u → Says (ms ++ ns) s u
  Says-then {ms} {ns} {s} one two = record {
    said =
        two.said
        ∙ ap (say (rendered w ns)) one.said
        ∙ sym (
            ap (λ texts. say texts s.tty) (rendered-++ w ms ns)
            ∙ say-++ (rendered w ms) (rendered w ns) s.tty);
  }

  -- Accesses to the ports before it do not show.
  pub Says-after : {ms : List Message} {s t u : Machine} → Quiet s t → Says ms t u → Says ms s u
  Says-after {ms} q says = record { said = says.said ∙ ap (say (rendered w ms)) (same_tty q) }

  pub Says-printf :
      (fmt : String) (args : List Arg) (s : Machine)
      → Says ((fmt, args) ∷ []) s (printf w fmt args s).1
  unfolding printf say
  Says-printf fmt args s = record { said = refl }

module _ (w : World) (p : DevicePtr) where
  -- The device is the one that the messages call `port`.
  abbrev pub IsPort : (port : ℕ) → Machine → Type 0
  IsPort port s = port_number (deref p s.ps2) ≡ port

  pub IsPort-kept : {port : ℕ} {s t : Machine} → Quiet s t → IsPort port s → IsPort port t
  IsPort-kept q at = ap (λ v. port_number (deref p v)) (same_ps2 q) ∙ at

  pub deref-assign : (f : Device → Device) (v : Ps2Vars) → deref p (assign p f v) ≡ f (deref p v)
  deref-assign f v = elim p as (λ q. deref q (assign q f v) ≡ f (deref q v)) [
    | device1 ↦ refl
    | device2 ↦ refl
  ]

  ps2_log_dev-Says :
      (fmt : String) (args : List Arg) (port : ℕ) (s : Machine)
      → IsPort port s
      → Says w ((fmt, num port ∷ args) ∷ []) s (ps2_log_dev w p fmt args s).1
  unfolding ps2_log_dev ◌>>=◌
  ps2_log_dev-Says fmt args port s at =
      subst (λ n. Says w ((fmt, num n ∷ args) ∷ []) s (ps2_log_dev w p fmt args s).1) at
        (Says-printf w fmt (num (port_number (deref p s.ps2)) ∷ args) s)

  pub give_up-Says :
      (fmt : String) (status : DeviceStatus) (port : ℕ) (s : Machine)
      → IsPort port s
      → Says w ((fmt, num port ∷ str "" ∷ []) ∷ []) s (give_up w p fmt status s).1
  unfolding give_up ◌>>=◌
  give_up-Says fmt status port s at = record {
    said = (ps2_log_dev-Says fmt (str "" ∷ []) port s at).said;
  }

  -- The type is set and then printed.
  typed_as :
      (type : DeviceType) (port : ℕ) (s : Machine)
      → IsPort port s
      → Says w
          (initialized_message port type ∷ [])
          s
          ((do
            set_type p type
            d ← load_device p
            ps2_log_dev w p "ps/2 (dev %u): initialized with type %u\n"
                (num (type_code d.type) ∷ []))
            s).1
  unfolding ◌>>=◌
  typed_as type port s at =
      let after = (set_type p type s).1 in
      let at_port : IsPort port after =
        ap port_number (deref-assign (λ d. record d { type = type }) s.ps2) ∙ at in
      let shown : (deref p after.ps2).type ≡ type =
        ap (λ (d : Device). d.type) (deref-assign (λ d. record d { type = type }) s.ps2) in
      rw shown
        (record { said = (ps2_log_dev-Says _ (num (type_code type) ∷ []) port after at_port).said })

  -- After the id is read.
  abbrev name_device : (id : ℕ) → M (Unit {0})
  name_device id = do
    set_device_type w p id
    d ← load_device p
    ps2_log_dev w p "ps/2 (dev %u): initialized with type %u\n" (num (type_code d.type) ∷ [])

  name_device-Says :
      (id port : ℕ) (s : Machine)
      → IsPort port s
      → Says w (identified_messages port id) s (name_device id s).1
  unfolding set_device_type ◌>>=◌
  name_device-Says id port s at = elim (Bool-cases (id == 0)) [
    | inl e ↦ rw e (typed_as type_00 port s at)
    | inr e ↦
        let warned = Says-printf w "ps/2: WARN: unknown device id 0x%x\n" (num id ∷ []) s in
        rw e (Says-then w warned (typed_as type_unknown port _ (unfold printf in at)))
  ]

  pub identify_device-Says :
      (port : ℕ) (s : Machine)
      → IsPort port s
      → Says w (identified_messages port (device_id w p s)) s (identify_device w p s).1
  unfolding identify_device ◌>>=◌
  identify_device-Says port s at =
      let read = (ids w p s).1 in
      let at_port : IsPort port (set_status p okay read).1 =
        ap port_number (deref-assign (λ d. record d { status = okay }) read.ps2)
        ∙ IsPort-kept (ids-Quiet w p s) at in
      let named = name_device-Says (device_id w p s) port (set_status p okay read).1 at_port in
      Says-after w (ids-Quiet w p s) (record { said = named.said })
