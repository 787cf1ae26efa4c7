-- ===== src/Ps2/Queue.antt =====
-- The steps of the driver with a controller in working order: what waits in the buffer after them.
use chp_os.Base.{
  ℕ, zero, suc, ◌^◌, ◌<◌, ◌≡◌, refl, ap, ◌∙◌, arith, List, [], ◌∷◌, ◌++◌, true, false,
}
use chp_os.Machine.{Machine, World, Io, pure, ◌>>=◌, inb, outb}
use chp_os.Ps2.{
  Ps2Error, error_none, error_timeout, if_timeout, Command, command_byte, write_port2_input,
  ps2_wait_input_ready, ps2_wait_output_ready, ps2_write_command, ps2_write_data, ps2_read_data,
  wait_command, wait_data, wait_read,
}
use chp_os.Ps2.Device.{
  DevicePtr, deref, write_when_ready, ps2_device_write_data, ps2_device_read_data,
}
use chp_os.Ps2.Polls.{polls, status_at}
use chp_os.Ps2.Wait.{OutputFull, ps2_wait_input_ready-Waits, ps2_wait_output_ready-Waits}
use chp_os.Ps2.Controller.{
  Controller, Target, to_device1, to_device2, target, command_target, queue, command_reply,
  data_reply, drop_first, Behaves,
}

-- The first byte that waits, or nothing.
abbrev pub taken : (old : ℕ) → List ℕ → Ps2Error × ℕ
taken old [] = (error_timeout, old)
taken old (v ∷ q) = (error_none, v)

abbrev pub AreBytes : List ℕ → Type 0
AreBytes [] = Unit
AreBytes (v ∷ q) = (v < 2 ^ 8) × AreBytes q

-- What waits to be read, and where the next byte for the data port goes.
pub record Buffer (c : Controller) (q : List ℕ) (t : Target) (s : Machine) : Type 0 where
  pub queued : queue c s.io ≡ q
  pub aimed : target s.io ≡ t

module _ (w : World) (c : Controller) (behaves : Behaves c w) where
  queue-polls : (n : ℕ) (io : List Io) → queue c (polls w n io) ≡ queue c io
  unfolding queue
  queue-polls zero io = refl
  queue-polls (suc n) io = queue-polls n _

  target-polls : (n : ℕ) (io : List Io) → target (polls w n io) ≡ target io
  unfolding target
  target-polls zero io = refl
  target-polls (suc n) io = target-polls n _

  module _ {q : List ℕ} {t : Target} {s : Machine} (b : Buffer c q t s) where
    polled-Buffer : (n : ℕ) (s' : Machine) → s' ≡ record s { io = polls w n s.io } → Buffer c q t s'
    polled-Buffer n s' effect = record {
      queued = ap (λ (m : Machine). queue c m.io) effect ∙ queue-polls n s.io ∙ b.queued;
      aimed = ap (λ (m : Machine). target m.io) effect ∙ target-polls n s.io ∙ b.aimed;
    }

    pub input_wait-Buffer : Buffer c q t (ps2_wait_input_ready w s).1
    input_wait-Buffer =
        let wait = ps2_wait_input_ready-Waits w s in polled-Buffer wait.count _ wait.effect

    pub output_wait-Buffer : Buffer c q t (ps2_wait_output_ready w s).1
    output_wait-Buffer =
        let wait = ps2_wait_output_ready-Waits w s in polled-Buffer wait.count _ wait.effect

    -- A command and its answer.
    pub command-Buffer :
        (cmd : Command)
        → Buffer c
            (q ++ command_reply c s.io (command_byte cmd))
            (command_target (command_byte cmd))
            (ps2_write_command w cmd s).1
    unfolding ps2_write_command outb queue target
    command-Buffer cmd = record {
      queued = ap (λ r. r ++ command_reply c s.io (command_byte cmd)) b.queued;
      aimed = refl;
    }

    data-Buffer :
        (byte : ℕ) → Buffer c (q ++ data_reply c t byte) to_device1 (ps2_write_data w byte s).1
    unfolding ps2_write_data outb queue target
    data-Buffer byte = record {
      queued =
          ap (λ r. r ++ data_reply c (target s.io) byte) b.queued
          ∙ ap (λ k. q ++ data_reply c k byte) b.aimed;
      aimed = refl;
    }

    pub read-Buffer : Buffer c (drop_first q) t (ps2_read_data w s).1
    unfolding ps2_read_data inb queue target
    read-Buffer = record { queued = ap drop_first b.queued; aimed = b.aimed }

  -- A byte that waits is read.
  read-first :
      {v : ℕ} {q : List ℕ} {t : Target} {s : Machine}
      → Buffer c (v ∷ q) t s
      → v < 2 ^ 8
      → (ps2_read_data w s).0 ≡ v
  unfolding ps2_read_data inb
  read-first {v} {q} {s} b byte = omega (arith, behaves.follows.data_port s.io v q b.queued)

  module _ {q : List ℕ} {t : Target} {s : Machine} (b : Buffer c q t s) where
    pub wait_command-Buffer :
        (cmd : Command)
        → Buffer c
            (q ++ command_reply c (ps2_wait_input_ready w s).1.io (command_byte cmd))
            (command_target (command_byte cmd))
            (wait_command w cmd s).1
    unfolding ◌>>=◌
    wait_command-Buffer cmd = command-Buffer (input_wait-Buffer b) cmd

    pub wait_data-Buffer :
        (byte : ℕ) → Buffer c (q ++ data_reply c t byte) to_device1 (wait_data w byte s).1
    unfolding ◌>>=◌
    wait_data-Buffer byte = data-Buffer (input_wait-Buffer b) byte

    pub wait_read-Buffer : Buffer c (drop_first q) t (wait_read w s).1
    unfolding ◌>>=◌
    wait_read-Buffer = read-Buffer (output_wait-Buffer b)

  pub wait_read-first :
      {v : ℕ} {q : List ℕ} {t : Target} {s : Machine}
      → Buffer c (v ∷ q) t s
      → v < 2 ^ 8
      → (wait_read w s).0 ≡ v
  unfolding ◌>>=◌
  wait_read-first b byte = read-first (output_wait-Buffer b) byte

  -- What a read from a device does once the wait is over.
  abbrev finish : (old : ℕ) → Ps2Error → Machine → (Ps2Error × ℕ) × Machine
  finish old e =
      if_timeout {A = Ps2Error × ℕ} e (pure (error_timeout, old))
        (do byte ← ps2_read_data w; pure (error_none, byte))

  pub device_read-Buffer :
      (old : ℕ) (q : List ℕ) {t : Target} {s : Machine}
      → AreBytes q
      → Buffer c q t s
      → let r = ps2_device_read_data w old s in (r.0 ≡ taken old q) × Buffer c (drop_first q) t r.1
  unfolding ps2_device_read_data ◌>>=◌
  device_read-Buffer old [] {t} {s} bytes b =
      let wait = ps2_wait_output_ready-Waits w s in
      let late : (ps2_wait_output_ready w s).0 ≡ error_timeout =
        timed_out _ (λ ok. none_full (wait.succeeds.0 ok)) in
      let r = finish old (ps2_wait_output_ready w s).0 (ps2_wait_output_ready w s).1 in
      rw late (refl, output_wait-Buffer b)
    where
      timed_out : (e : Ps2Error) → ¬ (e ≡ error_none) → e ≡ error_timeout
      timed_out error_none ne = absurd (ne refl)
      timed_out error_timeout ne = refl

      none_full : ¬ ((i : ℕ) × (i < 10000) × OutputFull w (status_at w i s.io))
      none_full (i, lt, full) =
          behaves.follows.empty (polls w i s.io) (queue-polls i s.io ∙ b.queued) full
  device_read-Buffer old (v ∷ q) {s} (byte, bytes) b =
      let wait = ps2_wait_output_ready-Waits w s in
      let in_time : (ps2_wait_output_ready w s).0 ≡ error_none =
        wait.succeeds.1 (behaves.prompt.full s.io v q b.queued) in
      let after = output_wait-Buffer b in
      rw in_time (ap (λ x. (error_none, x)) (read-first after byte), read-Buffer after)

  write_when_ready-Buffer :
      (byte : ℕ) {q : List ℕ} {t : Target} {s : Machine}
      → Buffer c q t s
      → Buffer c (q ++ data_reply c t byte) to_device1 (write_when_ready w byte s).1
  unfolding write_when_ready ◌>>=◌
  write_when_ready-Buffer byte {s} b =
      let ready = (ps2_wait_input_ready-Waits w s).succeeds.1 (behaves.prompt.free s.io) in
      rw ready (data-Buffer (input_wait-Buffer b) byte)

  -- A byte for the first device, and one for the second.
  pub write_first-Buffer :
      (p : DevicePtr) (byte : ℕ) {q : List ℕ} {s : Machine}
      → (deref p s.ps2).is_port_1 ≡ true
      → Buffer c q to_device1 s
      → Buffer c (q ++ data_reply c to_device1 byte) to_device1 (ps2_device_write_data w p byte s).1
  unfolding ps2_device_write_data ◌>>=◌
  write_first-Buffer p byte first b = rw first (write_when_ready-Buffer byte b)

  pub write_second-Buffer :
      (p : DevicePtr) (byte : ℕ) {t : Target} {s : Machine}
      → (deref p s.ps2).is_port_1 ≡ false
      → Buffer c [] t s
      → Buffer c (data_reply c to_device2 byte) to_device1 (ps2_device_write_data w p byte s).1
  unfolding ps2_device_write_data ◌>>=◌
  write_second-Buffer p byte {s} second b =
      let ready = (ps2_wait_input_ready-Waits w s).succeeds.1 (behaves.prompt.free s.io) in
      let named = command-Buffer (input_wait-Buffer b) write_port2_input in
      rw (second, ready) (write_when_ready-Buffer byte named)
