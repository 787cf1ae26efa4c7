-- ===== src/Segment/Reach.antt =====
-- `gdt_flush`: what the processor finds through its segment registers afterwards.
use chp_os.Base.{ℕ, ◌+◌, ◌^◌, ◌≤◌, ◌<◌, ◌≡◌, ap, ◌∙◌, arith, ◌⊎◌}
use chp_os.Machine.{Machine, World}
use chp_os.Machine.Changes.{vga_end, Changes}
use chp_os.Tty.Bounds.{IsValid}
use chp_os.Segment.{gdt_entry, gdt_flush, gdt_init}
use chp_os.Segment.Fields.{SegmentDescriptor}
use chp_os.Segment.Stored.{descriptor_at}
use chp_os.Segment.Flat.{IsTablePlaced, code_descriptor, data_descriptor, IsTable, gdt_init-IsTable}
use chp_os.Segment.Load.{
  limited, loaded_cpu, flushed, loaded_limit, loaded_base, flushed-descriptor,
}
use chp_os.Segment.Loaded.{IsLoaded}

-- The operand of LGDT: its place, and that it is not in the table.
abbrev pub IsOperandPlaced : World → Type 0
IsOperandPlaced w =
    (vga_end ≤ w.layout.gdtr_limit)
    × (w.layout.gdtr_limit + 8 ≤ 2 ^ 32)
    × ((w.layout.gdt + 24 ≤ w.layout.gdtr_limit) ⊎ (w.layout.gdtr_limit + 6 ≤ w.layout.gdt))

module _ (w : World) (placed : IsTablePlaced w) (operand_placed : IsOperandPlaced w) (s : Machine)
    (v : IsValid s.tty) where
  abbrev table : Machine
  table = (gdt_init w s).1

  abbrev after : Machine
  after = (gdt_flush w table).1

  t : IsTable w s table
  t = gdt_init-IsTable w placed s v

  f : Changes 0 0 (record (limited w table t.valid) { cpu = loaded_cpu w table t.valid }) after
  f = flushed w table t.valid operand_placed.0 operand_placed.1

  entry :
      (i : ℕ) (d : SegmentDescriptor)
      → i < 3
      → descriptor_at table.tty.mem (gdt_entry w i) ≡ d
      → descriptor_at after.tty.mem (gdt_entry w i) ≡ d
  entry i d h e =
      flushed-descriptor w table t.valid operand_placed.0 operand_placed.1 (gdt_entry w i)
        ((omega arith, omega arith)) (ground arith)
      ∙ e

  pub gdt_flush-IsLoaded : IsLoaded w after
  gdt_flush-IsLoaded = record {
    base =
        ap (λ c. c.gdtr_base) f.same_cpu
        ∙ loaded_base w table t.valid operand_placed.0 operand_placed.1 (omega arith);
    limit =
        ap (λ c. c.gdtr_limit) f.same_cpu
        ∙ loaded_limit w table t.valid operand_placed.0 operand_placed.1 (omega (arith, t.limit))
        ∙ t.limit;
    cs = ap (λ c. c.cs) f.same_cpu;
    ss = ap (λ c. c.ss) f.same_cpu;
    ds = ap (λ c. c.ds) f.same_cpu;
    es = ap (λ c. c.es) f.same_cpu;
    fs = ap (λ c. c.fs) f.same_cpu;
    gs = ap (λ c. c.gs) f.same_cpu;
    code = entry 1 code_descriptor (omega arith) t.code;
    rw_data = entry 2 data_descriptor (omega arith) t.rw_data;
  }
