-- ===== src/Ps2/Keeps.antt =====
-- What the primitives of the driver keep, the driver keeps.
pub mod Driver
use chp_os.Base.{
  ℕ, zero, suc, ◌≡◌, List, [], ◌∷◌, Bool, Bool-cases, true, false, pos, if◌then◌else◌, inl, inr, ℤ,
  u8, String, ◌==◌, not, ◌&&◌,
}
use chp_os.Machine.{
  Machine, M, pure, ◌>>=◌, ◌>>◌, skip, on_ps2, World, printf, Arg, Io, read, wrote, Ps2Vars, inb,
  outb,
}
use chp_os.Machine.Runs.{Ensures, bind}
use chp_os.Tty.Tables.{put_all}
use chp_os.Ps2.{
  io_port_ps2_data, io_port_ps2_status, Command, Ps2Error, error_none, error_timeout, if_timeout,
  wait_until, ps2_write_data, ps2_read_data, ps2_write_command, ps2_read_status, ps2_input_ready,
  ps2_wait_input_ready, ps2_output_ready, ps2_wait_output_ready, wait_command, wait_data, wait_read,
  ps2_check_dual_channel, port_self_check, ps2_ports_self_check, ps2_enable_ports, command_byte,
  get_var,
}

-- `P` holds between the steps of the driver, and `Ready` right after a status poll.
pub record Invariant (w : World) (P Ready : Machine → Type 0) : Type 0 where
  pub weaken : (s : Machine) → Ready s → P s
  pub poll :
      (s : Machine) (v : ℕ) → P s → Ready (record s { io = read io_port_ps2_status v ∷ s.io })
  pub receive : (s : Machine) (v : ℕ) → P s → P (record s { io = read io_port_ps2_data v ∷ s.io })
  pub send : (s : Machine) (port v : ℕ) → Ready s → P (record s { io = wrote port v ∷ s.io })
  pub output :
      (s : Machine) (fmt : String) (args : List Arg)
      → P s
      → P (record s { tty = put_all (w.render fmt args) s.tty })
  pub vars : (s : Machine) (v : Ps2Vars) → P s → P (record s { ps2 = v })

-- An operation that starts and ends between the steps.
abbrev pub Keeps : {A : Type 0} → (Machine → Type 0) → M A → Type 0
Keeps P m = Ensures P m (λ _. P)

pub Keeps-pure : {A : Type 0} {P : Machine → Type 0} (a : A) → Keeps P (pure a)
Keeps-pure a = record { run = λ s p. p }

pub Keeps-get_var : {A : Type 0} {P : Machine → Type 0} (f : Ps2Vars → A) → Keeps P (get_var f)
Keeps-get_var f = record { run = λ s p. p }

pub Keeps-if :
    {A : Type 0} {P : Machine → Type 0} {Q : A → Machine → Type 0} (b : Bool) {m k : M A}
    → Ensures P m Q
    → Ensures P k Q
    → Ensures P (if b then m else k) Q
Keeps-if true h g = h
Keeps-if false h g = g

pub Keeps-if_timeout :
    {A : Type 0} {P : Machine → Type 0} {Q : A → Machine → Type 0} (e : Ps2Error) {m k : M A}
    → Ensures P m Q
    → Ensures P k Q
    → Ensures P (if_timeout e m k) Q
Keeps-if_timeout error_timeout h g = h
Keeps-if_timeout error_none h g = g

module _ {w : World} {P Ready : Machine → Type 0} (inv : Invariant w P Ready) where
  pub Keeps-printf : (fmt : String) (args : List Arg) → Keeps P (printf w fmt args)
  unfolding printf
  Keeps-printf fmt args = record { run = λ s p. inv.output s fmt args p }

  pub Keeps-on_ps2 : (f : Ps2Vars → Ps2Vars) → Keeps P (on_ps2 f)
  Keeps-on_ps2 f = record { run = λ s p. inv.vars s (f s.ps2) p }

  pub from_Ready :
      {A : Type 0} {m : M A} {Q : A → Machine → Type 0} → Ensures P m Q → Ensures Ready m Q
  from_Ready h = record { run = λ s p. h.run s (inv.weaken s p) }

  read_status-Ready : Ensures P (ps2_read_status w) (λ _. Ready)
  unfolding ps2_read_status inb
  read_status-Ready = record { run = λ s p. inv.poll s (u8 (w.answer s.io io_port_ps2_status)) p }

  input_ready-Ready : Ensures P (ps2_input_ready w) (λ _. Ready)
  unfolding ps2_input_ready
  input_ready-Ready = bind read_status-Ready λ v. Keeps-pure _

  output_ready-Ready : Ensures P (ps2_output_ready w) (λ _. Ready)
  unfolding ps2_output_ready
  output_ready-Ready = bind read_status-Ready λ v. Keeps-pure _

  wait_until-Ready :
      (ready : M Bool) (timeout : ℕ)
      → Ensures P ready (λ _. Ready)
      → Ensures P (wait_until ready timeout) (λ _. Ready)
  unfolding wait_until
  wait_until-Ready ready zero h = bind h (λ b. Keeps-pure _)
  wait_until-Ready ready (suc timeout) h =
      let rest = wait_until-Ready ready timeout h in
      bind h λ b.
        elim b
          as (λ r.
            Ensures {A = ℤ} Ready
              (elim r [ true ↦ pure (pos (suc timeout)) | false ↦ wait_until ready timeout ])
              (λ _. Ready)) [ true ↦ Keeps-pure _ | false ↦ from_Ready rest ]

  pub ps2_wait_input_ready-Ready : Ensures P (ps2_wait_input_ready w) (λ _. Ready)
  unfolding ps2_wait_input_ready
  ps2_wait_input_ready-Ready =
      bind (wait_until-Ready (ps2_input_ready w) 100000000 input_ready-Ready) λ t. Keeps-pure _

  pub ps2_wait_output_ready-Ready : Ensures P (ps2_wait_output_ready w) (λ _. Ready)
  unfolding ps2_wait_output_ready
  ps2_wait_output_ready-Ready =
      bind (wait_until-Ready (ps2_output_ready w) 10000 output_ready-Ready) λ t. Keeps-pure _

  pub ps2_write_command-Keeps : (c : Command) → Ensures Ready (ps2_write_command w c) (λ _. P)
  unfolding ps2_write_command outb
  ps2_write_command-Keeps c = record { run = λ s p. inv.send s _ (command_byte c) p }

  pub ps2_write_data-Keeps : (byte : ℕ) → Ensures Ready (ps2_write_data w byte) (λ _. P)
  unfolding ps2_write_data outb
  ps2_write_data-Keeps byte = record { run = λ s p. inv.send s _ byte p }

  pub ps2_read_data-Keeps : Keeps P (ps2_read_data w)
  unfolding ps2_read_data inb
  ps2_read_data-Keeps = record {
    run = λ s p. inv.receive s (u8 (w.answer s.io io_port_ps2_data)) p;
  }

  pub wait_command-Keeps : (c : Command) → Keeps P (wait_command w c)
  wait_command-Keeps c = bind ps2_wait_input_ready-Ready (λ e. ps2_write_command-Keeps c)

  pub wait_data-Keeps : (byte : ℕ) → Keeps P (wait_data w byte)
  wait_data-Keeps byte = bind ps2_wait_input_ready-Ready (λ e. ps2_write_data-Keeps byte)

  pub wait_read-Keeps : Keeps P (wait_read w)
  wait_read-Keeps = bind ps2_wait_output_ready-Ready λ e. from_Ready ps2_read_data-Keeps

  pub ps2_check_dual_channel-Keeps : Keeps P (ps2_check_dual_channel w)
  unfolding ps2_check_dual_channel
  ps2_check_dual_channel-Keeps = bind (wait_command-Keeps _) λ _. bind (wait_command-Keeps _) λ _.
      bind wait_read-Keeps λ c. bind (Keeps-on_ps2 _) λ _. bind (Keeps-printf _ _) λ _.
        Keeps-if _
          (bind (wait_command-Keeps _) λ _.
            bind (wait_command-Keeps _)
              λ _. bind wait_read-Keeps λ c2. bind (wait_command-Keeps _) λ _. wait_data-Keeps _)
          (Keeps-pure tt)

  port_self_check-Keeps :
      (cmd : Command) (port : ℕ) (set_flag : Bool → Ps2Vars → Ps2Vars)
      → Keeps P (port_self_check w cmd port set_flag)
  unfolding port_self_check
  port_self_check-Keeps cmd port set_flag =
      bind (wait_command-Keeps cmd)
        λ _. bind wait_read-Keeps λ r. bind (Keeps-on_ps2 _) λ _. Keeps-printf _ _

  pub ps2_ports_self_check-Keeps : Keeps P (ps2_ports_self_check w)
  unfolding ps2_ports_self_check
  ps2_ports_self_check-Keeps = bind (port_self_check-Keeps _ _ _) λ _. port_self_check-Keeps _ _ _

  pub ps2_enable_ports-Keeps : Keeps P (ps2_enable_ports w)
  unfolding ps2_enable_ports
  ps2_enable_ports-Keeps = bind (Keeps-get_var _) λ v1.
      bind (Keeps-if v1 (wait_command-Keeps _) (Keeps-pure tt)) λ _. bind (Keeps-get_var _) λ v2.
        bind (Keeps-if v2 (wait_command-Keeps _) (Keeps-pure tt)) λ _.
          bind (wait_command-Keeps _) λ _.
            bind wait_read-Keeps
              λ c. bind (wait_command-Keeps _) λ _. bind (wait_data-Keeps _) λ _. Keeps-printf _ _
