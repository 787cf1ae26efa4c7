-- ===== src/Ps2/Controller.antt =====
-- A PS/2 controller in working order with its devices, as its documents have it: what waits in the
-- output buffer after a history of accesses; and, as a separate assumption, that it is in time for
-- the driver's polls.
use chp_os.Base.{ℕ, ◌*◌, ◌+◌, ◌^◌, ◌<◌, ◌≡◌, ◌==◌, if◌then◌else◌, List, [], ◌∷◌, ◌++◌}
use chp_os.Machine.{World, Io, read, wrote, Device, not_connected, self_check_fail, okay}
use chp_os.Ps2.Outcome.{device_type}
use chp_os.Ps2.Polls.{status_at}
use chp_os.Ps2.Wait.{InputFree, OutputFull}

-- What a device does on its reset: none is connected; its self check fails; or it passes, and the
-- device names itself with no byte, one or two.
pub data Behaviour : Type 0 where
  absent failing nameless : Behaviour
  one_id : (id : ℕ) → Behaviour
  two_ids : (first second : ℕ) → Behaviour

-- The bytes that it sends.
abbrev pub sent : Behaviour → List ℕ
sent absent = []
sent failing = 0xfc ∷ []
sent nameless = 0xfa ∷ 0xaa ∷ []
sent (one_id id) = 0xfa ∷ 0xaa ∷ id ∷ []
sent (two_ids first second) = 0xfa ∷ 0xaa ∷ first ∷ second ∷ []

abbrev pub SendsBytes : Behaviour → Type 0
SendsBytes (one_id id) = id < 2 ^ 8
SendsBytes (two_ids first second) = (first < 2 ^ 8) × (second < 2 ^ 8)
SendsBytes _ = Unit

-- The record that the driver makes of it; a device that names no id is recorded as one with the id
-- 0 is, and `device_type` knows no id but 0.
abbrev pub found : Behaviour → Device → Device
found absent d = record d { status = not_connected }
found failing d = record d { status = self_check_fail }
found nameless d = record d { status = okay; type = device_type 0 }
found (one_id id) d = record d { status = okay; type = device_type id }
found (two_ids first second) d = record d {
  status = okay;
  type = device_type (second * 2 ^ 8 + first);
}

-- The configuration byte by the history, and the two devices.
pub record Controller : Type 0 where
  pub config : List Io → ℕ
  pub device1 : Behaviour
  pub device2 : Behaviour

-- Where the next byte for the data port goes.
pub data Target : Type 0 where
  to_config to_device1 to_device2 : Target

-- After a command that a byte follows, and otherwise.
abbrev pub command_target : (command : ℕ) → Target
command_target command =
    if command == 0x60 then to_config else if command == 0xd4 then to_device2 else to_device1

unfoldable pub target : List Io → Target
target [] = to_device1
target (read port v ∷ io) = target io
target (wrote port v ∷ io) = if port == 0x64 then command_target v else to_device1

abbrev pub drop_first : List ℕ → List ℕ
drop_first [] = []
drop_first (v ∷ q) = q

module _ (c : Controller) where
  -- What a command makes the controller put into the buffer: the configuration, and that the self
  -- checks of the controller and of the ports pass.
  abbrev pub command_reply : List Io → (command : ℕ) → List ℕ
  command_reply io command =
      if command == 0x20
      then c.config io ∷ []
      else if command == 0xaa
      then 0x55 ∷ []
      else if command == 0xab
      then 0 ∷ []
      else if command == 0xa9
      then 0 ∷ []
      else []

  -- A device answers a reset, and acknowledges any other byte.
  abbrev pub device_reply : Behaviour → (byte : ℕ) → List ℕ
  device_reply device byte = if byte == 0xff then sent device else 0xfa ∷ []

  abbrev pub data_reply : Target → (byte : ℕ) → List ℕ
  data_reply to_config byte = []
  data_reply to_device1 byte = device_reply c.device1 byte
  data_reply to_device2 byte = device_reply c.device2 byte

  -- The bytes that wait to be read, the first one first.
  unfoldable pub queue : List Io → List ℕ
  queue [] = []
  queue (read port v ∷ io) = let q = queue io in if port == 0x60 then drop_first q else q
  queue (wrote port v ∷ io) =
      let q = queue io in
      if port == 0x64 then q ++ command_reply io v else q ++ data_reply (target io) v

  -- The ports behave like this controller: where no byte waits, none is announced; and the data port
  -- gives the first byte that waits.
  pub record Follows (w : World) : Type 0 where
    pub empty : (io : List Io) → queue io ≡ [] → ¬ OutputFull w (status_at w 0 io)
    pub data_port : (io : List Io) (v : ℕ) (q : List ℕ) → queue io ≡ v ∷ q → w.answer io 0x60 ≡ v

  -- An assumption on the timing, which no document gives: at any time the controller gets ready for
  -- a byte within 100000000 polls, and announces a byte that waits within 10000 polls, the bytes of
  -- a reset and of a device's self check among them.
  pub record IsPrompt (w : World) : Type 0 where
    pub free : (io : List Io) → (i : ℕ) × (i < 100000000) × InputFree w (status_at w i io)
    pub full :
        (io : List Io) (v : ℕ) (q : List ℕ)
        → queue io ≡ v ∷ q
        → (i : ℕ) × (i < 10000) × OutputFull w (status_at w i io)

  pub record Behaves (w : World) : Type 0 where
    pub follows : Follows w
    pub prompt : IsPrompt w
