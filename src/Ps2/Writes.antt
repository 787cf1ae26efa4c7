-- ===== src/Ps2/Writes.antt =====
-- What the driver writes to the ports: the bytes for a device, and the configuration.
use chp_os.Base.{
  ℕ, zero, suc, ◌≡◌, refl, ap, ◌∙◌, ◌⊎◌, inl, inr, List, [], ◌∷◌, Bool, true, false, Bool-cases,
  subst,
}
use chp_os.Machine.{Machine, M, pure, ◌>>=◌, ◌>>◌, World, Io, read, wrote, outb}
use chp_os.Ps2.{
  Ps2Error, error_none, error_timeout, if_timeout, write_port2_input, ps2_write_data,
  ps2_write_command, ps2_wait_input_ready, ps2_wait_output_ready,
}
use chp_os.Ps2.Polls.{polls}
use chp_os.Ps2.Wait.{ps2_wait_input_ready-Waits, ps2_wait_output_ready-Waits}
use chp_os.Ps2.Device.{DevicePtr, deref, write_when_ready, ps2_device_write_data}

-- The writes of a history, with their ports, the latest first.
abbrev pub writes : List Io → List (ℕ × ℕ)
writes [] = []
writes (read port v ∷ h) = writes h
writes (wrote port v ∷ h) = (port, v) ∷ writes h

module _ (w : World) where
  writes-polls : (n : ℕ) (io : List Io) → writes (polls w n io) ≡ writes io
  writes-polls zero io = refl
  writes-polls (suc n) io = writes-polls n _

  pub input_wait-writes : (s : Machine) → writes (ps2_wait_input_ready w s).1.io ≡ writes s.io
  input_wait-writes s =
      let wait = ps2_wait_input_ready-Waits w s in
      ap (λ (t : Machine). writes t.io) wait.effect ∙ writes-polls wait.count s.io

  pub output_wait-writes : (s : Machine) → writes (ps2_wait_output_ready w s).1.io ≡ writes s.io
  output_wait-writes s =
      let wait = ps2_wait_output_ready-Waits w s in
      ap (λ (t : Machine). writes t.io) wait.effect ∙ writes-polls wait.count s.io

  -- A write that is sent, or that is given up with nothing written.
  abbrev Sends : (byte : ℕ) → List (ℕ × ℕ) → Ps2Error × Machine → Type 0
  Sends byte before r =
      ((r.0 ≡ error_none) × (writes r.1.io ≡ (0x60, byte) ∷ before))
      ⊎ ((r.0 ≡ error_timeout) × (writes r.1.io ≡ before))

  send_after :
      (byte : ℕ) (e : Ps2Error) (t : Machine)
      → Sends byte
          (writes t.io)
          (if_timeout e (pure error_timeout) (do ps2_write_data w byte; pure error_none) t)
  unfolding ps2_write_data outb ◌>>=◌
  send_after byte error_none t = inl (refl, refl)
  send_after byte error_timeout t = inr (refl, refl)

  write_when_ready-Sends :
      (byte : ℕ) (s : Machine) → Sends byte (writes s.io) (write_when_ready w byte s)
  unfolding write_when_ready ◌>>=◌
  write_when_ready-Sends byte s =
      subst (λ before. Sends byte before (write_when_ready w byte s)) (input_wait-writes s)
        (send_after byte (ps2_wait_input_ready w s).0 (ps2_wait_input_ready w s).1)

  -- The writes before the byte itself: the command that names the second port.
  abbrev pub addressed : (is_port_1 : Bool) → List (ℕ × ℕ) → List (ℕ × ℕ)
  addressed true before = before
  addressed false before = (0x64, 0xd4) ∷ before

  -- What writing to a device leaves in the history.
  pub record Delivers (is_port_1 : Bool) (byte : ℕ) (before : List (ℕ × ℕ)) (e : Ps2Error)
      (after : List (ℕ × ℕ)) : Type 0 where
    pub outcome :
        ((e ≡ error_none) × (after ≡ (0x60, byte) ∷ addressed is_port_1 before))
        ⊎ ((e ≡ error_timeout) × ((after ≡ before) ⊎ (after ≡ addressed is_port_1 before)))

  -- The part for the second port once the first wait is over.
  abbrev second_port : (byte : ℕ) → Ps2Error → M Ps2Error
  second_port byte e =
      if_timeout e (pure error_timeout)
        (do ps2_write_command w write_port2_input; write_when_ready w byte)

  abbrev commanded : Machine → Machine
  commanded t = record t { io = wrote 0x64 0xd4 ∷ t.io }

  second_port_after :
      (byte : ℕ) (e : Ps2Error) (t : Machine)
      → let r = second_port byte e t in Delivers false byte (writes t.io) r.0 (writes r.1.io)
  unfolding ps2_write_command outb ◌>>=◌
  second_port_after byte error_timeout t = record { outcome = inr (refl, inl refl) }
  second_port_after byte error_none t = elim (write_when_ready-Sends byte (commanded t)) [
    | inl (e, sent) ↦ record { outcome = inl (e, sent) }
    | inr (e, same) ↦ record { outcome = inr (e, inr same) }
  ]

  first_port :
      (byte : ℕ) (s : Machine)
      → let r = write_when_ready w byte s in Delivers true byte (writes s.io) r.0 (writes r.1.io)
  first_port byte s = elim (write_when_ready-Sends byte s) [
    | inl (e, sent) ↦ record { outcome = inl (e, sent) }
    | inr (e, same) ↦ record { outcome = inr (e, inl same) }
  ]

  -- Writing to a device either reports success, with its byte as the last write, to the data
  -- port, and for the second port the command D4 right before, or reports a timeout, with
  -- nothing written but, for the second port, possibly that command.
  pub ps2_device_write_data-Delivers :
      (p : DevicePtr) (byte : ℕ) (s : Machine)
      → let r = ps2_device_write_data w p byte s in
        Delivers (deref p s.ps2).is_port_1 byte (writes s.io) r.0 (writes r.1.io)
  unfolding ps2_device_write_data ◌>>=◌
  ps2_device_write_data-Delivers p byte s = elim (Bool-cases (deref p s.ps2).is_port_1) [
    | inl e ↦ rw e (first_port byte s)
    | inr e ↦
        let waited = ps2_wait_input_ready w s in
        let r = second_port byte waited.0 waited.1 in
        rw e (
          subst (λ before. Delivers false byte before r.0 (writes r.1.io)) (input_wait-writes s)
            (second_port_after byte waited.0 waited.1))
  ]
