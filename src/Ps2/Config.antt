-- ===== src/Ps2/Config.antt =====
-- The configuration byte that `ps2_init` writes.
use chp_os.Base.{
  ℕ, ◌+◌, ◌*◌, ◌^◌, ◌<◌, ◌≡◌, refl, ap, ◌∙◌, arith, List, ◌∷◌, bits, bit_and, u8, all_below,
  all_below_sound, ◌==◌, ==→eq,
}
use chp_os.Machine.{Machine, ◌>>=◌, World, Io, wrote, inb, outb}
use chp_os.Base.{[], ◌++◌}
use chp_os.Ps2.Keeps.{Invariant}
use chp_os.Ps2.Keeps.Driver.{after_config-Keeps}
use chp_os.Ps2.{
  disable_1, disable_2, wait_command, ps2_read_data, ps2_write_data, ps2_write_command, read_config,
  write_config, wait_read,
}
use chp_os.Ps2.Polls.{polls}
use chp_os.Ps2.Wait.{ps2_wait_output_ready-Waits}
use chp_os.Ps2.Init.{init_mask, update_config, ps2_init}
use chp_os.Ps2.Writes.{writes, input_wait-writes, output_wait-writes}

-- The byte with the bits for the first interrupt, the first clock and the second clock cleared.
abbrev pub cleared : ℕ → ℕ
cleared v =
    bits 1 1 v * 2 ^ 1
    + bits 2 1 v * 2 ^ 2
    + bits 3 1 v * 2 ^ 3
    + bits 6 1 v * 2 ^ 6
    + bits 7 1 v * 2 ^ 7

masked : (v : ℕ) → v < 256 → bit_and v init_mask ≡ cleared v
unfolding all_below
masked v h = ==→eq _ _ (all_below_sound 256 (λ x. bit_and x init_mask == cleared x) refl v h)

module _ (w : World) where
  -- The state in which `update_config` reads the byte.
  abbrev asked : Machine → Machine
  asked s = record s { io = wrote 0x64 0x20 ∷ s.io }

  -- The history before the byte is read.
  abbrev pub reading : Machine → List Io
  reading s = polls w (ps2_wait_output_ready-Waits w (asked s)).count (wrote 0x64 0x20 ∷ s.io)

  config_value :
      (s : Machine) → (update_config w s).0 ≡ bit_and (u8 (w.answer (reading s) 0x60)) init_mask
  unfolding update_config ps2_write_command outb ps2_read_data inb ps2_write_data ◌>>=◌
  config_value s =
      ap (λ (t : Machine). bit_and (u8 (w.answer t.io 0x60)) init_mask)
        (ps2_wait_output_ready-Waits w (asked s)).effect

  config_writes :
      (s : Machine)
      → writes (update_config w s).1.io
        ≡ (0x64, 0x20) ∷ (0x60, (update_config w s).0) ∷ (0x64, 0x60) ∷ (0x64, 0x20) ∷ writes s.io
  unfolding update_config ps2_write_command outb ps2_read_data inb ps2_write_data ◌>>=◌
  config_writes s =
      let got = wait_read w (ps2_write_command w read_config s).1 in
      let written = (ps2_write_command w write_config got.1).1 in
      output_wait-writes w _
      ∙ ap (λ l. (0x64, 0x20) ∷ l)
          (input_wait-writes w _
            ∙ ap (λ l. (0x60, bit_and got.0 init_mask) ∷ l)
                (input_wait-writes w written
                  ∙ ap (λ l. (0x64, 0x60) ∷ l) (output_wait-writes w (asked s))))

  -- The part of `ps2_init` that updates the configuration writes back the byte that the controller
  -- gives it with the bits 0, 4 and 5 cleared, and besides it the three commands.
  update_config-cleared :
      (s : Machine)
      → (count : ℕ) × let byte = u8 (w.answer (polls w count (wrote 0x64 0x20 ∷ s.io)) 0x60) in
          ((update_config w s).0 ≡ cleared byte)
          × (writes (update_config w s).1.io
              ≡ (0x64, 0x20) ∷ (0x60, cleared byte) ∷ (0x64, 0x60) ∷ (0x64, 0x20) ∷ writes s.io)
  update_config-cleared s =
      let count = (ps2_wait_output_ready-Waits w (asked s)).count in
      let byte = u8 (w.answer (reading s) 0x60) in
      let kept : (update_config w s).0 ≡ cleared byte =
        config_value s ∙ masked byte (omega arith) in
      (
        count,
        (
          kept,
          config_writes s
              ∙ ap (λ c. (0x64, 0x20) ∷ (0x60, c) ∷ (0x64, 0x60) ∷ (0x64, 0x20) ∷ writes s.io) kept,
        ),
      )

  -- The state in which the configuration is read: both ports are disabled, and a byte is dropped.
  abbrev pub flushed : Machine → Machine
  flushed s = (ps2_read_data w (wait_command w disable_2 (wait_command w disable_1 s).1).1).1

  flushed-writes : (s : Machine) → writes (flushed s).io ≡ (0x64, 0xa7) ∷ (0x64, 0xad) ∷ writes s.io
  unfolding ps2_write_command outb ps2_read_data inb ◌>>=◌
  flushed-writes s =
      ap (λ l. (0x64, 0xa7) ∷ l)
        (input_wait-writes w (wait_command w disable_1 s).1
          ∙ ap (λ l. (0x64, 0xad) ∷ l) (input_wait-writes w s))

  -- The writes of a state end with those that are given, in the order of their list.
  abbrev EndsWith : List (ℕ × ℕ) → Machine → Type 0
  EndsWith start t = (later : List (ℕ × ℕ)) × (writes t.io ≡ later ++ start)

  ends : (start : List (ℕ × ℕ)) → Invariant w (EndsWith start) (EndsWith start)
  ends start = record {
    weaken = λ t h. h;
    poll = λ t v h. h;
    receive = λ t v h. h;
    send = λ t port v (later, e). ((port, v) ∷ later, ap (λ l. (port, v) ∷ l) e);
    output = λ t fmt args h. h;
    vars = λ t v h. h;
  }

  -- `ps2_init` writes first the commands that disable the two ports, then the command to read the
  -- configuration, then the command to write it and the byte that the controller gave with the bits
  -- 0, 4 and 5 cleared and the others, bit 6 for the translation among them, as they were, and then
  -- the command to read it again; all else that it writes comes later.
  pub ps2_init-configures :
      (s : Machine)
      → (count : ℕ) × (later : List (ℕ × ℕ)) × let byte =
            u8 (w.answer (polls w count (wrote 0x64 0x20 ∷ (flushed s).io)) 0x60) in
          (writes (ps2_init w s).1.io
            ≡ later
              ++ ((0x64, 0x20)
                  ∷ (0x60, cleared byte)
                  ∷ (0x64, 0x60)
                  ∷ (0x64, 0x20)
                  ∷ (0x64, 0xa7)
                  ∷ (0x64, 0xad)
                  ∷ writes s.io))
  unfolding ps2_init ◌>>=◌
  ps2_init-configures s =
      let (count, (kept, written)) = update_config-cleared (flushed s) in
      let byte = u8 (w.answer (polls w count (wrote 0x64 0x20 ∷ (flushed s).io)) 0x60) in
      let start =
        (0x64, 0x20)
        ∷ (0x60, cleared byte)
        ∷ (0x64, 0x60)
        ∷ (0x64, 0x20)
        ∷ (0x64, 0xa7)
        ∷ (0x64, 0xad)
        ∷ writes s.io in
      let before =
        written
        ∙ ap (λ l. (0x64, 0x20) ∷ (0x60, cleared byte) ∷ (0x64, 0x60) ∷ (0x64, 0x20) ∷ l)
            (flushed-writes s) in
      let (later, ending) =
        (after_config-Keeps (ends start) (update_config w (flushed s)).0).run
          (update_config w (flushed s)).1 ([], before) in
      (count, later, ending)
