-- ===== src/Ps2/Receive.antt =====
-- Reading a byte from a device: kernel/src/io/ps2/ps2.c, `ps2_device_read_data`.
use chp_os.Base.{ℕ, ◌≤◌, ◌<◌, ◌≡◌, refl, ap, ◌⊎◌, inl, inr, ◌∷◌, u8}
use chp_os.Machine.{Machine, pure, ◌>>=◌, World, read, inb}
use chp_os.Ps2.{Ps2Error, error_none, error_timeout, if_timeout, ps2_read_data}
use chp_os.Ps2.Device.{ps2_device_read_data}
use chp_os.Ps2.Polls.{polls, status_at}
use chp_os.Ps2.Wait.{Waits, OutputFull, ps2_wait_output_ready-Waits}

module _ (w : World) (old : ℕ) (s : Machine) where
  -- A byte is there at one of the next 10000 polls.
  abbrev Arrives : Type 0
  Arrives = (i : ℕ) × (i < 10000) × OutputFull w (status_at w i s.io)

  -- The byte of the data port after `count` polls.
  abbrev arrived : (count : ℕ) → ℕ
  arrived count = u8 (w.answer (polls w count s.io) 0x60)

  -- The reading that a caller may rely on: after the polls the byte is taken, or nothing is.
  pub record Receives (r : (Ps2Error × ℕ) × Machine) : Type 0 where
    pub count : ℕ
    pub bounded : (0 < count) × (count ≤ 10001)
    pub outcome :
        (Arrives
          × (r ≡ (
            (error_none, arrived count),
            record s { io = read 0x60 (arrived count) ∷ polls w count s.io },
          )))
        ⊎ ((¬ Arrives) × (r ≡ ((error_timeout, old), record s { io = polls w count s.io })))

  -- The read once the wait is over.
  abbrev after_wait : Ps2Error → Machine → (Ps2Error × ℕ) × Machine
  after_wait e t =
      if_timeout {A = Ps2Error × ℕ} e (pure (error_timeout, old))
        (do byte ← ps2_read_data w; pure (error_none, byte)) t

  after_wait-Receives :
      (e : Ps2Error) (t : Machine) → Waits w (OutputFull w) 10000 s e t → Receives (after_wait e t)
  unfolding ps2_read_data inb ◌>>=◌
  after_wait-Receives error_none t wait = record {
    count = wait.count;
    bounded = wait.bounded;
    outcome = inl (wait.succeeds.0 refl, ap (after_wait error_none) wait.effect);
  }
  after_wait-Receives error_timeout t wait = record {
    count = wait.count;
    bounded = wait.bounded;
    outcome =
        inr (λ found. late (wait.succeeds.1 found), ap (after_wait error_timeout) wait.effect);
  }
    where
      late : ¬ (error_timeout ≡ error_none)
      late e = cc

  -- Where one of the next 10000 reads of the status has bit 0 set, reading from a device gives
  -- the byte of the data port and no error, and otherwise a timeout with the caller's byte as it
  -- was. It reads the status at least once and at most 10001 times, then the data port once where
  -- it gives a byte, and does nothing else.
  pub ps2_device_read_data-Receives : Receives (ps2_device_read_data w old s)
  unfolding ps2_device_read_data ◌>>=◌
  ps2_device_read_data-Receives = after_wait-Receives _ _ (ps2_wait_output_ready-Waits w s)
