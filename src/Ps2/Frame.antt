-- ===== src/Ps2/Frame.antt =====
-- What the driver leaves alone.
use chp_os.Base.{ℕ, ◌≡◌, refl}
use chp_os.Machine.{Machine, World, Cpu, LogLevel}
use chp_os.Tty.{Tty}
use chp_os.Tty.Bounds.{IsValid, Draws, Draws-refl, Draws-trans}
use chp_os.Tty.Pictures.{Draws-put_all}
use chp_os.Ps2.Init.{ps2_init}
use chp_os.Ps2.Keeps.{Invariant}
use chp_os.Ps2.Keeps.Driver.{ps2_init-Keeps}

-- The console prints, in its buffer alone, and the other values are as in `s`.
pub record PrintsOnly (s : Machine) (tty : Tty) (cpu : Cpu) (level : LogLevel) (gdt_limit : ℕ)
    : Type 0 where
  pub prints : Draws s.tty tty
  pub same_cpu : cpu ≡ s.cpu
  pub same_level : level ≡ s.log_current_level
  pub same_gdt_limit : gdt_limit ≡ s.gdt_limit

-- From `s` to `s'` the ports and the variables of the driver may have changed, and the text buffer
-- by printing, but nothing else.
abbrev pub Within : Machine → Machine → Type 0
Within s s' = PrintsOnly s s'.tty s'.cpu s'.log_current_level s'.gdt_limit

pub Within-refl : {s : Machine} → IsValid s.tty → Within s s
Within-refl v = record {
  prints = Draws-refl v;
  same_cpu = refl;
  same_level = refl;
  same_gdt_limit = refl;
}

within : (w : World) (s : Machine) → Invariant w (Within s) (Within s)
within w s = record {
  weaken = λ t h. h;
  poll = λ t v h. h;
  receive = λ t v h. h;
  send = λ t port v h. h;
  output = λ t fmt args h. record {
    prints = Draws-trans h.prints (Draws-put_all (w.render fmt args));
    same_cpu = h.same_cpu;
    same_level = h.same_level;
    same_gdt_limit = h.same_gdt_limit;
  };
  vars = λ t v h. h;
}

-- With a valid console, initialising the controller writes to no memory outside the text buffer,
-- keeps the console valid and its colour, and changes no register and no variable of another file,
-- whatever the devices answer.
pub ps2_init-Within : (w : World) (s : Machine) → IsValid s.tty → Within s (ps2_init w s).1
ps2_init-Within w s v = (ps2_init-Keeps (within w s) (λ t h. h)).run s (Within-refl v)
