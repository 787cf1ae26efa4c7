-- ===== src/Examples/Controller.antt =====
-- A controller in working order, with a mouse at its first port and a keyboard at its second.
use chp_os.Base.{ℕ, ◌/◌, ◌%◌, ◌≡◌, refl, ap, arith, List, [], ◌∷◌, ◌==◌, if◌then◌else◌, u8, true}
use chp_os.Machine.{World, okay, type_00, type_unknown}
use chp_os.Ps2.Init.{ps2_init}
use chp_os.Ps2.Answers.{is_dual}
use chp_os.Ps2.Result.{given}
use chp_os.Ps2.Controller.{
  Controller, one_id, two_ids, to_device1, queue, target, Follows, IsPrompt,
}
use chp_os.Ps2.Queue.{Buffer}
use chp_os.Ps2.Found.{ps2_init-finds}
use chp_os.Examples.{sample_world, sample_machine}

abbrev sample_controller : Controller
sample_controller = record { config = λ io. 0x45; device1 = one_id 0; device2 = two_ids 0xab 0x83 }

abbrev status_of : List ℕ → ℕ
status_of [] = 0
status_of (v ∷ q) = 1

abbrev first_of : List ℕ → ℕ
first_of [] = 0
first_of (v ∷ q) = v

abbrev working_world : World
working_world = record sample_world {
  answer = λ io port.
      let q = queue sample_controller io in if port == 0x64 then status_of q else first_of q;
}

never_busy : (q : List ℕ) → u8 (status_of q) / 2 % 2 ≡ 0
never_busy [] = refl
never_busy (v ∷ q) = refl

working_world-Follows : Follows sample_controller working_world
working_world-Follows = record {
  empty = λ io e full. absurd (omega (arith, ap (λ r. u8 (status_of r) % 2) e, full));
  data_port = λ io v q e. ap first_of e;
}

working_world-IsPrompt : IsPrompt sample_controller working_world
working_world-IsPrompt = record {
  free = λ io. (0, omega arith, never_busy (queue sample_controller io));
  full = λ io v q e. (0, omega arith, ap (λ r. u8 (status_of r) % 2) e);
}

idle : Buffer sample_controller [] to_device1 sample_machine
unfolding queue target
idle = record { queued = refl; aimed = refl }

ps2_init-finds_example : (ps2_init working_world sample_machine).1.ps2 ≡ record sample_machine.ps2 {
  is_dual_channel = is_dual (given working_world sample_machine).config;
  is_port1_valid = true;
  is_port2_valid = true;
  device1 = record sample_machine.ps2.device1 { status = okay; type = type_00 };
  device2 = record sample_machine.ps2.device2 { status = okay; type = type_unknown };
}
ps2_init-finds_example =
    ps2_init-finds working_world sample_controller working_world-Follows working_world-IsPrompt
      (omega arith) (omega arith, omega arith) sample_machine to_device1 idle refl refl
