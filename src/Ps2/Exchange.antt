-- ===== src/Ps2/Exchange.antt =====
-- kernel/src/io/ps2/ps2.c: exchanging bytes with a device does no more than access the ports.
use chp_os.Base.{ℕ, ◌^◌, ◌<◌, Bool-cases, inl, inr}
use chp_os.Machine.{Machine, M, pure, ◌>>=◌, World, ◌>>◌}
use chp_os.Ps2.{Ps2Error, error_none, error_timeout, if_timeout}
use chp_os.Ps2.{
  ps2_read_data, ps2_write_data, ps2_write_command, write_port2_input, ps2_wait_input_ready,
}
use chp_os.Ps2.Quiet.{
  Quiet, Quiet-refl, Quiet-trans, input_ready-Quiet, output_ready-Quiet, write_command-Quiet,
  write_data-Quiet, read_data-Quiet, read_data-lt,
}
use chp_os.Ps2.Device.{
  DevicePtr, deref, write_when_ready, ps2_device_write_data, ps2_device_read_data,
}

module _ (w : World) where
  -- What a read does once the wait is over.
  abbrev finish : (old : ℕ) → Ps2Error → M (Ps2Error × ℕ)
  finish old e =
      if_timeout {A = Ps2Error × ℕ} e (pure (error_timeout, old))
        (do byte ← ps2_read_data w; pure (error_none, byte))

  finish-Quiet : (old : ℕ) (e : Ps2Error) (s : Machine) → Quiet s (finish old e s).1
  unfolding ◌>>=◌
  finish-Quiet old error_none s = read_data-Quiet w s
  finish-Quiet old error_timeout s = Quiet-refl

  pub read-Quiet : (old : ℕ) (s : Machine) → Quiet s (ps2_device_read_data w old s).1
  unfolding ps2_device_read_data ◌>>=◌
  read-Quiet old s = Quiet-trans (output_ready-Quiet w s) (finish-Quiet old _ _)

  finish-lt : (old : ℕ) (e : Ps2Error) (s : Machine) → old < 2 ^ 8 → (finish old e s).0.1 < 2 ^ 8
  unfolding ◌>>=◌
  finish-lt old error_none s h = read_data-lt w s
  finish-lt old error_timeout s h = h

  -- What is read is a byte.
  pub read-lt : (old : ℕ) (s : Machine) → old < 2 ^ 8 → (ps2_device_read_data w old s).0.1 < 2 ^ 8
  unfolding ps2_device_read_data ◌>>=◌
  read-lt old s h = finish-lt old _ _ h

  -- What the two waits of a write lead to.
  shared_part :
      (byte : ℕ) (e : Ps2Error) (s : Machine)
      → Quiet s (if_timeout e (pure error_timeout) (do ps2_write_data w byte; pure error_none) s).1
  unfolding ◌>>=◌
  shared_part byte error_timeout s = Quiet-refl
  shared_part byte error_none s = write_data-Quiet w s byte

  write_when_ready-Quiet : (byte : ℕ) (s : Machine) → Quiet s (write_when_ready w byte s).1
  unfolding write_when_ready ◌>>=◌
  write_when_ready-Quiet byte s =
      Quiet-trans (input_ready-Quiet w s) (shared_part byte (ps2_wait_input_ready w s).0 _)

  second_port :
      (byte : ℕ) (e : Ps2Error) (s : Machine)
      → Quiet s
          (if_timeout e
            (pure error_timeout)
            (do ps2_write_command w write_port2_input; write_when_ready w byte)
            s).1
  unfolding ◌>>=◌
  second_port byte error_timeout s = Quiet-refl
  second_port byte error_none s =
      Quiet-trans (write_command-Quiet w s write_port2_input) (write_when_ready-Quiet byte _)

  pub write-Quiet :
      (p : DevicePtr) (byte : ℕ) (s : Machine) → Quiet s (ps2_device_write_data w p byte s).1
  unfolding ps2_device_write_data ◌>>=◌
  write-Quiet p byte s = elim (Bool-cases (deref p s.ps2).is_port_1) [
    | inl e ↦ rw e (write_when_ready-Quiet byte s)
    | inr e ↦
        rw e (Quiet-trans (input_ready-Quiet w s) (second_port byte (ps2_wait_input_ready w s).0 _))
  ]
