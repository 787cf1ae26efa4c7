-- ===== src/Ps2/Handshake.antt =====
-- The protocol of the two ports: "must be true before writing port 0x60 or 0x64".
use chp_os.Base.{◌≡◌, refl, arith, List, [], ◌∷◌}
use chp_os.Machine.{Machine, World, Io, read, wrote, inb, outb}
use chp_os.Machine.Runs.{Ensures}
use chp_os.Ps2.{
  io_port_ps2_data, io_port_ps2_status, read_config, ps2_read_data, ps2_write_command,
  ps2_check_dual_channel, ps2_ports_self_check, ps2_enable_ports,
}
use chp_os.Ps2.Device.{DevicePtr, ps2_reset_device}
use chp_os.Ps2.Init.{ps2_init}
use chp_os.Ps2.Keeps.{
  Invariant, wait_command-Keeps, ps2_check_dual_channel-Keeps, ps2_ports_self_check-Keeps,
  ps2_enable_ports-Keeps,
}
use chp_os.Ps2.Keeps.Driver.{ps2_reset_device-Keeps, ps2_init_from}

-- The latest access is a read of the status register.
abbrev pub IsPolled : List Io → Type 0
IsPolled [] = ⊥
IsPolled (read port v ∷ h) = port ≡ io_port_ps2_status
IsPolled (wrote port v ∷ h) = ⊥

-- In the history, latest first, each write comes right after a read of the status register.
abbrev pub Handshakes : List Io → Type 0
Handshakes [] = Unit
Handshakes (read port v ∷ h) = Handshakes h
Handshakes (wrote port v ∷ h) = IsPolled h × Handshakes h

polite : (w : World) → Invariant w (λ s. Handshakes s.io) (λ s. IsPolled s.io × Handshakes s.io)
polite w = record {
  weaken = λ s h. h.1;
  poll = λ s v h. (refl, h);
  receive = λ s v h. h;
  send = λ s port v h. h;
  output = λ s fmt args h. h;
  vars = λ s v h. h;
}

module _ (w : World) (s : Machine) (before : Handshakes s.io) where
  -- Where each write so far came right after a read of the status register, so does each write
  -- of the channel check, of the port checks, of the enabling of the ports and of the reset of
  -- a device.
  pub steps-Handshakes :
      (p : DevicePtr)
      → Handshakes (ps2_check_dual_channel w s).1.io
        × Handshakes (ps2_ports_self_check w s).1.io
        × Handshakes (ps2_enable_ports w s).1.io
        × Handshakes (ps2_reset_device w p s).1.io
  steps-Handshakes p = (
    (ps2_check_dual_channel-Keeps (polite w)).run s before,
    (ps2_ports_self_check-Keeps (polite w)).run s before,
    (ps2_enable_ports-Keeps (polite w)).run s before,
    (ps2_reset_device-Keeps (polite w) p).run s before,
  )

-- Once broken, the protocol stays broken.
broken : (w : World) → Invariant w (λ s. ¬ Handshakes s.io) (λ s. ¬ Handshakes s.io)
broken w = record {
  weaken = λ s n. n;
  poll = λ s v n. n;
  receive = λ s v n. n;
  send = λ s port v n h. n h.1;
  output = λ s fmt args n. n;
  vars = λ s v n. n;
}

-- Nothing is known, and nothing need be.
anything : (w : World) → Invariant w (λ s. Unit) (λ s. Unit)
anything w = record {
  weaken = λ s h. tt;
  poll = λ s v h. tt;
  receive = λ s v h. tt;
  send = λ s port v h. tt;
  output = λ s fmt args h. tt;
  vars = λ s v h. tt;
}

-- The latest access is a read of the data port.
abbrev Flushed : List Io → Type 0
Flushed [] = ⊥
Flushed (read port v ∷ h) = port ≡ io_port_ps2_data
Flushed (wrote port v ∷ h) = ⊥

flush : (w : World) → Ensures (λ s. Unit) (ps2_read_data w) (λ _ s. Flushed s.io)
flush w = record { run = λ s h. unfold ps2_read_data inb in refl }

unpolled_breaks : (h : List Io) → Flushed h → ¬ IsPolled h
unpolled_breaks [] f p = elim f [ ]
unpolled_breaks (read port v ∷ h) f p = omega (arith, f, p)
unpolled_breaks (wrote port v ∷ h) f p = elim f [ ]

breach :
    (w : World)
    → Ensures (λ s. Flushed s.io) (ps2_write_command w read_config) (λ _ s. ¬ Handshakes s.io)
breach w = record { run = λ s f. unfold ps2_write_command outb in λ h. unpolled_breaks s.io f h.0 }

-- Whatever the controller answers and whatever came before, after `ps2_init` some write in the
-- history did not come right after a read of the status register.
pub ps2_init-not-Handshakes : (w : World) (s : Machine) → ¬ Handshakes (ps2_init w s).1.io
ps2_init-not-Handshakes w s =
    (ps2_init_from (broken w) (λ s n. n) (wait_command-Keeps (anything w) _)
        (wait_command-Keeps (anything w) _) (flush w) (breach w)).run
      s tt
