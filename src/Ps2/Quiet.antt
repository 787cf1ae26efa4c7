-- ===== src/Ps2/Quiet.antt =====
-- Polls, commands and data bytes: of the state they change the history of the ports only.
use chp_os.Base.{ℕ, ◌^◌, ◌<◌, ◌≡◌, refl, ap, ◌∙◌, sym, arith, List}
use chp_os.Machine.{Machine, World, Io, ◌>>=◌, inb, outb}
use chp_os.Ps2.{
  Command, ps2_read_data, ps2_write_data, ps2_write_command, ps2_wait_input_ready,
  ps2_wait_output_ready, wait_command, wait_data, wait_read,
}
use chp_os.Ps2.Wait.{ps2_wait_input_ready-Waits, ps2_wait_output_ready-Waits}

-- From `s` to `t` only the history of the ports may have changed.
pub record Quiet (s t : Machine) : Type 0 where
  pub only_io : t ≡ record s { io = t.io }

pub Quiet-refl : {s : Machine} → Quiet s s
Quiet-refl = record { only_io = refl }

pub Quiet-trans : {s t u : Machine} → Quiet s t → Quiet t u → Quiet s u
Quiet-trans {u} q r = record {
  only_io = r.only_io ∙ ap (λ (t : Machine). record t { io = u.io }) q.only_io;
}

-- One more access.
Quiet-access : {s t : Machine} (io : List Io) → Quiet s t → Quiet s (record t { io = io })
Quiet-access io q = record { only_io = ap (λ (t : Machine). record t { io = io }) q.only_io }

module _ {s t : Machine} (q : Quiet s t) where
  pub same_ps2 : t.ps2 ≡ s.ps2
  same_ps2 = ap (λ (m : Machine). m.ps2) q.only_io

  pub same_tty : t.tty ≡ s.tty
  same_tty = ap (λ (m : Machine). m.tty) q.only_io

module _ (w : World) (s : Machine) where
  pub input_ready-Quiet : Quiet s (ps2_wait_input_ready w s).1
  input_ready-Quiet =
      let e = (ps2_wait_input_ready-Waits w s).effect in
      record { only_io = e ∙ ap (λ (t : Machine). record s { io = t.io }) (sym e) }

  pub output_ready-Quiet : Quiet s (ps2_wait_output_ready w s).1
  output_ready-Quiet =
      let e = (ps2_wait_output_ready-Waits w s).effect in
      record { only_io = e ∙ ap (λ (t : Machine). record s { io = t.io }) (sym e) }

  pub write_command-Quiet : (c : Command) → Quiet s (ps2_write_command w c s).1
  unfolding ps2_write_command outb
  write_command-Quiet c = Quiet-access _ Quiet-refl

  pub write_data-Quiet : (byte : ℕ) → Quiet s (ps2_write_data w byte s).1
  unfolding ps2_write_data outb
  write_data-Quiet byte = Quiet-access _ Quiet-refl

  pub read_data-Quiet : Quiet s (ps2_read_data w s).1
  unfolding ps2_read_data inb
  read_data-Quiet = Quiet-access _ Quiet-refl

  pub read_data-lt : (ps2_read_data w s).0 < 2 ^ 8
  unfolding ps2_read_data inb
  read_data-lt = omega arith

module _ (w : World) where
  pub wait_command-Quiet : (c : Command) (s : Machine) → Quiet s (wait_command w c s).1
  unfolding ◌>>=◌
  wait_command-Quiet c s = Quiet-trans (input_ready-Quiet w s) (write_command-Quiet w _ c)

  pub wait_data-Quiet : (byte : ℕ) (s : Machine) → Quiet s (wait_data w byte s).1
  unfolding ◌>>=◌
  wait_data-Quiet byte s = Quiet-trans (input_ready-Quiet w s) (write_data-Quiet w _ byte)

  pub wait_read-Quiet : (s : Machine) → Quiet s (wait_read w s).1
  unfolding ◌>>=◌
  wait_read-Quiet s = Quiet-trans (output_ready-Quiet w s) (read_data-Quiet w _)

  -- A byte is read.
  pub wait_read-lt : (s : Machine) → (wait_read w s).0 < 2 ^ 8
  unfolding ◌>>=◌
  wait_read-lt s = read_data-lt w _

  -- The answer to a command.
  abbrev pub reply : Command → Machine → ℕ × Machine
  reply c s = wait_read w (wait_command w c s).1

  pub reply-Quiet : (c : Command) (s : Machine) → Quiet s (reply c s).1
  reply-Quiet c s = Quiet-trans (wait_command-Quiet c s) (wait_read-Quiet _)
