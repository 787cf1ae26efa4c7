-- ===== src/Examples/Tables.antt =====
-- The descriptor tables at their sample places.
use chp_os.Base.{◌≡◌, arith}
use chp_os.Tty.Bounds.{IsValid}
use chp_os.Segment.{code_exrd, gdt_init, init_segment_descriptor}
use chp_os.Segment.Stored.{descriptor_at}
use chp_os.Segment.Flags.{joined_flags, described, init_segment_descriptor-described}
use chp_os.Segment.Flat.{IsTable, gdt_init-IsTable}
use chp_os.Examples.{sample_world, sample_machine}

pub sample_machine-IsValid : IsValid sample_machine.tty
sample_machine-IsValid = record {
  col_in = omega arith;
  row_in = omega arith;
  color_in = omega arith;
}

init_segment_descriptor-described_example :
    descriptor_at
      (init_segment_descriptor sample_world 0x110008 0x12345678 0xabcde code_exrd
        (joined_flags 1 1 0 1 1 3 1)
        sample_machine).1.tty.mem
      0x110008
    ≡ described 1 1 0 1 1 3 1 0x12345678 0xabcde code_exrd
init_segment_descriptor-described_example =
    init_segment_descriptor-described 1 1 0 1 1 3 1 sample_world 0x110008 0x12345678 0xabcde
      code_exrd (omega arith) sample_machine sample_machine-IsValid

gdt_init-IsTable_example :
    IsTable sample_world sample_machine (gdt_init sample_world sample_machine).1
gdt_init-IsTable_example =
    gdt_init-IsTable sample_world (omega arith) sample_machine sample_machine-IsValid
