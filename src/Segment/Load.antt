-- ===== src/Segment/Load.antt =====
-- `gdt_flush`: GDTR and the segment registers once they are loaded.
use chp_os.Base.{ℕ, ◌+◌, ◌^◌, ◌≤◌, ◌<◌, ◌≡◌, ◌∙◌, arith, inr, ◌⊎◌, ptr_add}
use chp_os.Memory.{store16, store32, load32, load16}
use chp_os.Memory.Access.{load32-store32, load16-store16}
use chp_os.Machine.{Machine, ◌>>=◌, World, Cpu, on_mem}
use chp_os.Machine.Changes.{
  IsApart, vga_end, Changes, Changes-trans, Changes-widen, Changes-log_debug, Changes-store32,
  Changes-store16, load32-apart,
}
use chp_os.Tty.Bounds.{IsValid}
use chp_os.Segment.{segment_set_gdtr_asm_prot, segment_reload_segments, gdt_flush}
use chp_os.Segment.Stored.{descriptor_at, IsPlaced, descriptor-apart}
use chp_os.Base.{u16}

module _ (w : World) (s : Machine) (v : IsValid s.tty) where
  abbrev based : Machine
  based = (on_mem (λ m. store32 m (ptr_add w.layout.gdtr_limit 2) w.layout.gdt) s).1

  abbrev pub limited : Machine
  limited = (on_mem (λ m. store16 m w.layout.gdtr_limit (u16 s.gdt_limit)) based).1

  -- GDTR and the segment registers once they are loaded.
  abbrev pub loaded_cpu : Cpu
  loaded_cpu = record s.cpu {
    gdtr_limit = load16 limited.tty.mem w.layout.gdtr_limit;
    gdtr_base = load32 limited.tty.mem (ptr_add w.layout.gdtr_limit 2);
    cs = 0x08;
    ss = 0x10;
    ds = 0x10;
    es = 0x10;
    fs = 0x10;
    gs = 0x10;
  }

  -- The operand of LGDT is behind the text buffer.
  module _ (behind : vga_end ≤ w.layout.gdtr_limit) (below : w.layout.gdtr_limit + 8 ≤ 2 ^ 32) where
    pub operand : Changes w.layout.gdtr_limit (w.layout.gdtr_limit + 6) s limited
    operand =
        Changes-trans
          (Changes-widen w.layout.gdtr_limit (w.layout.gdtr_limit + 6) (omega arith) (omega arith)
            (Changes-store32 v (ptr_add w.layout.gdtr_limit 2) w.layout.gdt))
          λ v1.
            Changes-widen w.layout.gdtr_limit (w.layout.gdtr_limit + 6) (omega arith) (omega arith)
              (Changes-store16 v1 w.layout.gdtr_limit (u16 s.gdt_limit))

    pub flushed : Changes 0 0 (record limited { cpu = loaded_cpu }) (gdt_flush w s).1
    unfolding gdt_flush segment_set_gdtr_asm_prot segment_reload_segments ◌>>=◌
    flushed = Changes-log_debug w 0 0 _ _ {s = record limited { cpu = loaded_cpu }} (record {
      col_in = operand.valid.col_in;
      row_in = operand.valid.row_in;
      color_in = operand.valid.color_in;
    })

    pub loaded_limit : s.gdt_limit < 2 ^ 16 → loaded_cpu.gdtr_limit ≡ s.gdt_limit
    loaded_limit fits =
        load16-store16 based.tty.mem w.layout.gdtr_limit (u16 s.gdt_limit) (omega arith)
        ∙ omega arith

    pub loaded_base : w.layout.gdt < 2 ^ 32 → loaded_cpu.gdtr_base ≡ w.layout.gdt
    loaded_base fits =
        load32-apart
          (Changes-store16 {s = based}
            (record { col_in = v.col_in; row_in = v.row_in; color_in = v.color_in })
            w.layout.gdtr_limit (u16 s.gdt_limit))
          (ptr_add w.layout.gdtr_limit 2) (omega arith) (inr (omega arith))
        ∙ load32-store32 s.tty.mem (ptr_add w.layout.gdtr_limit 2) w.layout.gdt fits

    -- A descriptor of the table is where it was.
    pub flushed-descriptor :
        (desc : ℕ)
        → IsPlaced desc
        → (desc + 8 ≤ w.layout.gdtr_limit) ⊎ (w.layout.gdtr_limit + 6 ≤ desc)
        → descriptor_at (gdt_flush w s).1.tty.mem desc ≡ descriptor_at s.tty.mem desc
    flushed-descriptor desc placed out =
        descriptor-apart flushed desc placed (inr (omega arith))
        ∙ descriptor-apart operand desc placed out

    -- `gdt_flush` changes no memory but the operand of LGDT and the text buffer.
    pub gdt_flush_elsewhere :
        IsValid (gdt_flush w s).1.tty
        × ((a : ℕ)
            → IsApart w.layout.gdtr_limit (w.layout.gdtr_limit + 6) a
            → (gdt_flush w s).1.tty.mem a ≡ s.tty.mem a)
    gdt_flush_elsewhere =
        (flushed.valid, λ a h. flushed.apart a (h.0, inr (omega arith)) ∙ operand.apart a h)
