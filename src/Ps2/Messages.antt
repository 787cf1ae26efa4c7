-- ===== src/Ps2/Messages.antt =====
-- kernel/src/io/ps2/ps2.c: what the driver prints, as a function of the answers that it gets.
use chp_os.Base.{ℕ, ◌≡◌, refl, ap, List, [], ◌∷◌, ◌++◌, String, ◌==◌, ◌||◌, if◌then◌else◌}
use chp_os.Machine.{Arg, num, str, Device, DeviceType, type_00, type_unknown, Ps2Vars, World}
use chp_os.Tty.{Tty}
use chp_os.Tty.Tables.{put_all}
use chp_os.Ps2.{Ps2Error, error_none, error_timeout, yes_no}
use chp_os.Ps2.Device.{type_code}
use chp_os.Ps2.Outcome.{DeviceAnswers, Answers, is_passed}
use chp_os.Ps2.Answers.{is_dual}

-- A call of printf: the format and its arguments.
abbrev pub Message : Type 0
Message = String × List Arg

-- The texts of some messages.
abbrev pub rendered : World → List Message → List (List ℕ)
rendered w [] = []
rendered w ((fmt, args) ∷ ms) = w.render fmt args ∷ rendered w ms

-- The console after some texts.
unfoldable pub say : List (List ℕ) → Tty → Tty
say [] t = t
say (text ∷ texts) t = say texts (put_all text t)

-- Some texts and then some more.
pub say-++ : (xs ys : List (List ℕ)) (t : Tty) → say (xs ++ ys) t ≡ say ys (say xs t)
unfolding say
say-++ [] ys t = refl
say-++ (x ∷ xs) ys t = say-++ xs ys _

pub rendered-++ :
    (w : World) (ms ns : List Message) → rendered w (ms ++ ns) ≡ rendered w ms ++ rendered w ns
rendered-++ w [] ns = refl
rendered-++ w ((fmt, args) ∷ ms) ns = ap (λ ts. w.render fmt args ∷ ts) (rendered-++ w ms ns)

-- The number by which the messages name a device.
abbrev pub port_number : Device → ℕ
port_number d = if d.is_port_1 then 1 else 2

abbrev pub initialized_message : (port : ℕ) → DeviceType → Message
initialized_message port type =
    ("ps/2 (dev %u): initialized with type %u\n", num port ∷ num (type_code type) ∷ [])

-- Once the self check has passed: of a device of another kind than 0 it is also warned.
abbrev pub identified_messages : (port id : ℕ) → List Message
identified_messages port id =
    if id == 0
    then initialized_message port type_00 ∷ []
    else ("ps/2: WARN: unknown device id 0x%x\n", num id ∷ [])
      ∷ initialized_message port type_unknown
      ∷ []

-- After a first byte that is not FC.
abbrev pub second_messages : (port first : ℕ) → Ps2Error × ℕ → (id : ℕ) → List Message
second_messages port first (error_timeout, _) id =
    ("ps/2 (dev %u): self-check fail 2\n", num port ∷ str "" ∷ []) ∷ []
second_messages port first (error_none, second) id =
    if is_passed first second
    then identified_messages port id
    else ("ps/2 (dev %u): self-check fail 3\n", num port ∷ str "" ∷ []) ∷ []

abbrev pub device_messages : (port : ℕ) → DeviceAnswers → List Message
device_messages port ((error_timeout, _), second, id) =
    ("ps/2 (dev %u): not connected\n", num port ∷ str "" ∷ []) ∷ []
device_messages port ((error_none, first), second, id) =
    if 0xfc == first
    then ("ps/2 (dev %u): self-check fail 1\n", num port ∷ str "" ∷ []) ∷ []
    else second_messages port first second id

-- The last messages, where a port is valid.
abbrev pub start_messages : Answers → Ps2Vars → List Message
start_messages a v =
    ("ps/2: ports enabled (1: %s, 2: %s)\n", yes_no (a.reply1 == 0) ∷ yes_no (a.reply2 == 0) ∷ [])
      ∷ (device_messages (port_number v.device1) a.reset1
          ++ device_messages (port_number v.device2) a.reset2)
    ++ ("ps/2: init done\n", []) ∷ []

abbrev pub port_message : (port response : ℕ) → Message
port_message port response = (
  "ps/2: port %u self-check okay: %s (response=0x%x)\n",
  num port ∷ yes_no (response == 0) ∷ num response ∷ [],
)

abbrev pub failed_messages : List Message
failed_messages = ("ps/2: failed to initialize\n", []) ∷ []

-- After the self check of the controller has passed.
abbrev pub check_messages : Answers → Ps2Vars → List Message
check_messages a v =
    ("ps/2: dual channel: %s\n", yes_no (is_dual a.config) ∷ [])
    ∷ port_message 1 a.reply1
    ∷ port_message 2 a.reply2
    ∷ (if (a.reply1 == 0) || (a.reply2 == 0) then start_messages a v else failed_messages)

-- What `ps2_init` prints, by the answers and the variables before it.
abbrev pub driver_messages : Answers → Ps2Vars → List Message
driver_messages a v =
    (
      "ps/2: controller self-check passed: %s (response=0x%x)\n",
      yes_no (a.reply == 0x55) ∷ num a.reply ∷ [],
    )
    ∷ (if a.reply == 0x55 then check_messages a v else failed_messages)
