-- ===== src/Interrupt/Flush.antt =====
-- `idt_flush`: what the processor's table register holds afterwards.
use chp_os.Base.{ℕ, ◌+◌, ◌-◌, ◌^◌, ◌≤◌, ◌<◌, ◌≡◌, ap, ◌∙◌, inl, inr, arith, u16, ptr_add}
use chp_os.Memory.{store16, store32, load16, load32}
use chp_os.Memory.Access.{load32-store32, load16-store16}
use chp_os.Machine.{Machine, ◌>>=◌, World, Cpu, on_mem}
use chp_os.Machine.Changes.{
  vga_end, IsApart, Changes, Changes-trans, Changes-widen, Changes-log_debug, Changes-store32,
  Changes-store16, load16-apart,
}
use chp_os.Segment.Loaded.{SameSegments}
use chp_os.Tty.Bounds.{IsValid}
use chp_os.Interrupt.{idt_entry, idtr_reload, idt_flush}
use chp_os.Interrupt.Table.{sizeof_idt}

-- The operand of LIDT.
abbrev pub IsIdtrPlaced : World → Type 0
IsIdtrPlaced w = (vga_end ≤ w.layout.idtr) × (w.layout.idtr + 8 ≤ 2 ^ 32)

module _ (w : World) (placed : IsIdtrPlaced w) (s : Machine) (v : IsValid s.tty) where
  abbrev limited : Machine
  limited = (on_mem (λ m. store16 m w.layout.idtr (u16 (sizeof_idt - 1))) s).1

  abbrev based : Machine
  based = (on_mem (λ m. store32 m (ptr_add w.layout.idtr 2) (idt_entry w 0)) limited).1

  abbrev loaded_cpu : Cpu
  loaded_cpu = record s.cpu {
    idtr_limit = load16 based.tty.mem w.layout.idtr;
    idtr_base = load32 based.tty.mem (ptr_add w.layout.idtr 2);
  }

  operand : Changes w.layout.idtr (w.layout.idtr + 6) s based
  operand =
      Changes-trans
        (Changes-widen w.layout.idtr (w.layout.idtr + 6) (omega arith) (omega arith)
          (Changes-store16 v w.layout.idtr (u16 (sizeof_idt - 1))))
        λ v1.
          Changes-widen w.layout.idtr (w.layout.idtr + 6) (omega arith) (omega arith)
            (Changes-store32 v1 (ptr_add w.layout.idtr 2) (idt_entry w 0))

  printed : Changes 0 0 (record based { cpu = loaded_cpu }) (idt_flush w s).1
  unfolding idt_flush idtr_reload ◌>>=◌
  printed = Changes-log_debug w 0 0 _ _ {s = record based { cpu = loaded_cpu }} (record {
    col_in = operand.valid.col_in;
    row_in = operand.valid.row_in;
    color_in = operand.valid.color_in;
  })

  -- With a valid console, and the table and the operand of LIDT below 2 ^ 32, the operand
  -- behind the text buffer, `idt_flush` loads the address of the table and its last byte,
  -- keeps the console valid, and changes no memory but the operand and the text buffer.
  pub idt_flush-loads :
      w.layout.idt < 2 ^ 32
      → ((idt_flush w s).1.cpu.idtr_base ≡ w.layout.idt)
        × ((idt_flush w s).1.cpu.idtr_limit ≡ sizeof_idt - 1)
        × IsValid (idt_flush w s).1.tty
        × ((a : ℕ)
            → IsApart w.layout.idtr (w.layout.idtr + 6) a
            → (idt_flush w s).1.tty.mem a ≡ s.tty.mem a)
  idt_flush-loads fits = (
    ap (λ c. c.idtr_base) printed.same_cpu
        ∙ load32-store32 limited.tty.mem (ptr_add w.layout.idtr 2) (idt_entry w 0) (omega arith)
        ∙ omega arith,
    ap (λ c. c.idtr_limit) printed.same_cpu
        ∙ load16-apart
            (Changes-store32 {s = limited}
              (record { col_in = v.col_in; row_in = v.row_in; color_in = v.color_in })
              (ptr_add w.layout.idtr 2) (idt_entry w 0))
            w.layout.idtr placed.0 (inl (omega arith))
        ∙ load16-store16 s.tty.mem w.layout.idtr (u16 (sizeof_idt - 1)) (omega arith),
    printed.valid,
    λ a h. printed.apart a (h.0, inr (omega arith)) ∙ operand.apart a h,
  )

  -- The registers for the segments are as before.
  pub idt_flush-SameSegments : SameSegments s.cpu (idt_flush w s).1.cpu
  idt_flush-SameSegments = (
    ap (λ c. c.gdtr_base) printed.same_cpu,
    ap (λ c. c.gdtr_limit) printed.same_cpu,
    ap (λ c. c.cs) printed.same_cpu,
    ap (λ c. c.ss) printed.same_cpu,
    ap (λ c. c.ds) printed.same_cpu,
    ap (λ c. c.es) printed.same_cpu,
    ap (λ c. c.fs) printed.same_cpu,
    ap (λ c. c.gs) printed.same_cpu,
  )
