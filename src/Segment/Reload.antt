-- ===== src/Segment/Reload.antt =====
-- kernel/src/system/asm_bits.s: the routine that reloads the segment registers, instruction by
-- instruction, and that it does what the model of segment.c takes it for.
use chp_os.Base.{ℕ, ◌≡◌, List, [], ◌∷◌}
use chp_os.Machine.{Machine, World, Cpu}
use chp_os.Machine.Processor.{
  Proc, Instruction, eax, ss, ds, es, fs, gs, mov_half_constant, mov_selector, ljmp, ret,
}
use chp_os.Machine.Routines.{IsCalled}

abbrev pub reload_segments_code : List Instruction
reload_segments_code =
    ljmp 0x08
    ∷ mov_half_constant 0x10 eax
    ∷ mov_selector eax ss
    ∷ mov_selector eax ss
    ∷ mov_selector eax ds
    ∷ mov_selector eax es
    ∷ mov_selector eax fs
    ∷ mov_selector eax gs
    ∷ ret
    ∷ []

module _ (w : World) (callee : ℕ → Proc → Proc) (p : Proc) (called : IsCalled 0 p) (s : Machine)
    (memory : p.mem ≡ s.tty.mem) (registers : p.cpu ≡ s.cpu) where
  -- The registers with the selectors of the flat segments.
  abbrev reloaded : Cpu → Cpu
  reloaded k = record k { cs = 0x08; ss = 0x10; ds = 0x10; es = 0x10; fs = 0x10; gs = 0x10 }
