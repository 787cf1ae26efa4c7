-- ===== src/Ps2/Ports.antt =====
-- What the driver writes where it checks for a second channel and where it enables the ports.
use chp_os.Base.{
  ℕ, ◌+◌, ◌*◌, ◌/◌, ◌%◌, ◌^◌, ◌<◌, ◌≡◌, refl, ap, ◌∙◌, ◌==◌, ==→eq, Bool, not, true, false, List,
  ◌∷◌, [], if◌then◌else◌, bit_and, bit_or, all_below, all_below_sound,
}
use chp_os.Machine.{Machine, ◌>>=◌, World, printf, inb, outb, on_ps2, skip}
use chp_os.Ps2.{
  Command, command_byte, enable_1, enable_2, disable_2, read_config, write_config, complement,
  config_interrupt_1_bit, config_interrupt_2_bit, config_clock_2_bit, yes_no, ps2_read_data,
  ps2_write_data, ps2_write_command, wait_command, wait_data, ps2_check_dual_channel,
  ps2_enable_ports,
}
use chp_os.Ps2.Writes.{writes, input_wait-writes, output_wait-writes}
use chp_os.Ps2.Quiet.{same_ps2, wait_read-lt, reply}
use chp_os.Ps2.Answers.{is_dual, is_dual_lem, first_config, stop_second, if_valid, if_valid-Quiet}

-- The byte with the bits of the valid ports set: bit 0 for the first and bit 1 for the second.
abbrev pub with_interrupts : (valid1 valid2 : Bool) → ℕ → ℕ
with_interrupts valid1 valid2 byte =
    (if valid1 then 1 else byte % 2) + (if valid2 then 2 else byte / 2 % 2 * 2) + byte / 4 * 4

-- The byte with bit 1, the second interrupt, and bit 5, the second clock, cleared.
abbrev pub without_second : ℕ → ℕ
without_second byte = byte % 2 + byte / 2 ^ 2 % 2 ^ 3 * 2 ^ 2 + byte / 2 ^ 6 * 2 ^ 6

-- What `ps2_enable_ports` computes.
abbrev interrupts_set : (valid1 valid2 : Bool) → ℕ → ℕ
interrupts_set valid1 valid2 config =
    let config1 = if valid1 then bit_or config config_interrupt_1_bit else config in
    if valid2 then bit_or config1 config_interrupt_2_bit else config1

interrupts_set_lem :
    (valid1 valid2 : Bool) (byte : ℕ)
    → byte < 2 ^ 8
    → interrupts_set valid1 valid2 byte ≡ with_interrupts valid1 valid2 byte
unfolding all_below
interrupts_set_lem valid1 valid2 byte h = ==→eq _ _ (
    all_below_sound 256 (λ x. interrupts_set valid1 valid2 x == with_interrupts valid1 valid2 x)
      (checked valid1 valid2) byte h)
  where
    checked :
        (valid1 valid2 : Bool)
        → all_below 256 (λ x. interrupts_set valid1 valid2 x == with_interrupts valid1 valid2 x)
          ≡ true
    checked true true = refl
    checked true false = refl
    checked false true = refl
    checked false false = refl

stop_mask_lem :
    (byte : ℕ)
    → byte < 2 ^ 8
    → bit_and byte (complement (bit_or config_interrupt_2_bit config_clock_2_bit))
      ≡ without_second byte
unfolding all_below
stop_mask_lem byte h = ==→eq _ _ (
    all_below_sound 256
      (λ x.
        bit_and x (complement (bit_or config_interrupt_2_bit config_clock_2_bit))
        == without_second x)
      refl byte h)

module _ (w : World) where
  wait_command-writes :
      (c : Command) (s : Machine)
      → writes (wait_command w c s).1.io ≡ (0x64, command_byte c) ∷ writes s.io
  unfolding ps2_write_command outb ◌>>=◌
  wait_command-writes c s = ap (λ l. (0x64, command_byte c) ∷ l) (input_wait-writes w s)

  wait_data-writes :
      (byte : ℕ) (s : Machine) → writes (wait_data w byte s).1.io ≡ (0x60, byte) ∷ writes s.io
  unfolding ps2_write_data outb ◌>>=◌
  wait_data-writes byte s = ap (λ l. (0x60, byte) ∷ l) (input_wait-writes w s)

  reply-writes :
      (c : Command) (s : Machine) → writes (reply w c s).1.io ≡ (0x64, command_byte c) ∷ writes s.io
  unfolding ps2_read_data inb ◌>>=◌
  reply-writes c s = output_wait-writes w _ ∙ wait_command-writes c s

  -- The configuration is read, and a byte is written back.
  write_back :
      (byte : ℕ) (s : Machine) (before : List (ℕ × ℕ))
      → writes s.io ≡ before
      → writes (wait_data w byte (wait_command w write_config (reply w read_config s).1).1).1.io
        ≡ (0x60, byte) ∷ (0x64, 0x60) ∷ (0x64, 0x20) ∷ before
  write_back byte s before e =
      wait_data-writes byte _
      ∙ ap (λ l. (0x60, byte) ∷ l)
          (wait_command-writes write_config _
            ∙ ap (λ l. (0x64, 0x60) ∷ l)
                (reply-writes read_config s ∙ ap (λ l. (0x64, 0x20) ∷ l) e))

  abbrev pub enables : Bool → Command → List (ℕ × ℕ) → List (ℕ × ℕ)
  enables valid c before = if valid then (0x64, command_byte c) ∷ before else before

  if_valid-writes :
      (valid : Bool) (c : Command) (s : Machine)
      → writes (if_valid w valid c s).1.io ≡ enables valid c (writes s.io)
  if_valid-writes true c s = wait_command-writes c s
  if_valid-writes false c s = refl

  module _ (s : Machine) where
    abbrev enabled1 : Machine
    enabled1 = (if_valid w s.ps2.is_port1_valid enable_1 s).1

    abbrev pub enabled2 : Machine
    enabled2 = (if_valid w s.ps2.is_port2_valid enable_2 enabled1).1

    -- Enabling the ports sends, in this order, the command that enables the first port where that
    -- port is valid, the one for the second where that is valid, the commands to read and to write
    -- the configuration, and the byte that the controller gave for it with the interrupt bits of
    -- the valid ports set and all other bits as they were; it writes nothing else.
    pub ps2_enable_ports-writes :
        let byte = (reply w read_config enabled2).0 in
        writes (ps2_enable_ports w s).1.io
        ≡ (0x60, with_interrupts s.ps2.is_port1_valid s.ps2.is_port2_valid byte)
          ∷ (0x64, 0x60)
          ∷ (0x64, 0x20)
          ∷ enables s.ps2.is_port2_valid enable_2
              (enables s.ps2.is_port1_valid enable_1 (writes s.io))
    unfolding ps2_enable_ports printf ◌>>=◌
    ps2_enable_ports-writes =
        let valid1 = s.ps2.is_port1_valid in
        let valid2 = s.ps2.is_port2_valid in
        let byte = (reply w read_config enabled2).0 in
        let before = enables valid2 enable_2 (enables valid1 enable_1 (writes s.io)) in
        let enabled =
          if_valid-writes valid2 enable_2 enabled1
          ∙ ap (enables valid2 enable_2) (if_valid-writes valid1 enable_1 s) in
        rw (ap (λ v. v.is_port2_valid) (same_ps2 (if_valid-Quiet w valid1 enable_1 s))) (
          write_back (interrupts_set valid1 valid2 byte) enabled2 before enabled
          ∙ ap (λ b. (0x60, b) ∷ (0x64, 0x60) ∷ (0x64, 0x20) ∷ before)
              (interrupts_set_lem valid1 valid2 byte (wait_read-lt w _)))

    -- The state after the message on the second channel.
    abbrev noted : (dual : Bool) → Machine
    noted dual =
        (printf w "ps/2: dual channel: %s\n" (yes_no dual ∷ [])
          (on_ps2 (λ v. record v { is_dual_channel = dual }) (first_config w s).1).1).1

    -- The byte of the configuration that comes after the command to disable the second port.
    abbrev second_config : (dual : Bool) → ℕ
    second_config dual = (reply w read_config (wait_command w disable_2 (noted dual)).1).0

    -- The writes up to the first byte of the configuration.
    abbrev asked : List (ℕ × ℕ)
    asked = (0x64, 0x20) ∷ (0x64, 0xa8) ∷ writes s.io

    -- The writes of the whole check.
    abbrev pub check_writes : (dual : Bool) → List (ℕ × ℕ)
    check_writes dual =
        if dual
        then (0x60, without_second (second_config dual))
          ∷ (0x64, 0x60)
          ∷ (0x64, 0x20)
          ∷ (0x64, 0xa7)
          ∷ asked
        else asked

    noted-writes : (dual : Bool) → writes (noted dual).io ≡ asked
    unfolding printf
    noted-writes dual =
        reply-writes read_config _ ∙ ap (λ l. (0x64, 0x20) ∷ l) (wait_command-writes enable_2 s)

    after_note :
        (dual : Bool)
        → writes ((if dual then stop_second w else skip) (noted dual)).1.io ≡ check_writes dual
    unfolding ◌>>=◌
    after_note true =
        write_back _ (wait_command w disable_2 (noted true)).1 ((0x64, 0xa7) ∷ asked) (
          wait_command-writes disable_2 (noted true)
          ∙ ap (λ l. (0x64, 0xa7) ∷ l) (noted-writes true))
        ∙ ap (λ b. (0x60, b) ∷ (0x64, 0x60) ∷ (0x64, 0x20) ∷ (0x64, 0xa7) ∷ asked)
            (stop_mask_lem (second_config true) (wait_read-lt w _))
    after_note false = noted-writes false

    -- The check for a second channel sends the command that enables the second port and the one to
    -- read the configuration. Where bit 5 of the byte that comes is clear, it goes on with the
    -- commands to disable the second port, to read and to write the configuration, and with the
    -- byte that then comes, bits 1 and 5 of it cleared; it writes nothing else.
    pub ps2_check_dual_channel-writes :
        writes (ps2_check_dual_channel w s).1.io ≡ check_writes (is_dual (first_config w s).0)
    unfolding ps2_check_dual_channel ◌>>=◌
    ps2_check_dual_channel-writes =
        let config = first_config w s in
        let test = not (bit_and (complement config.0) config_clock_2_bit == 0) in
        after_note test ∙ ap check_writes (is_dual_lem config.0 (wait_read-lt w _))
