-- ===== src/Interrupt/Table.antt =====
-- The interrupt descriptor table after `idt_init`.
use chp_os.Base.{ℕ, ◌+◌, ◌*◌, ◌^◌, ◌≤◌, ◌<◌, ◌≡◌, ap, ◌∙◌, ◌⊎◌, inl, inr, arith, u32, ptr_add}
use chp_os.Memory.{Mem}
use chp_os.Machine.{Machine, ◌>>=◌, World}
use chp_os.Machine.Changes.{vga_end, Changes, Changes-trans, Changes-mem}
use chp_os.Tty.Bounds.{IsValid}
use chp_os.Interrupt.{
  idt_max_entries, sizeof_descriptor, idt_entry, dispatch_entry, init_gates, idt_init,
}
use chp_os.Interrupt.Gates.{gate_at, interrupt_gate, gate_at-cong}
use chp_os.Memory.Access.{load32-same}
use chp_os.Interrupt.Loops.{init_gates-other, init_gates-Gates, init_gates-last}

-- Two regions of memory have no address in common.
abbrev pub IsDisjoint : (a n b m : ℕ) → Type 0
IsDisjoint a n b m = (a + n ≤ b) ⊎ (b + m ≤ a)

-- `sizeof(idt_t)`
abbrev pub sizeof_idt : ℕ
sizeof_idt = sizeof_descriptor * idt_max_entries

-- The table, with the eight bytes behind it that `idt_init` writes too, and the dispatch table.
abbrev pub IsIdtPlaced : World → Type 0
IsIdtPlaced w =
    (vga_end ≤ w.layout.idt)
    × (w.layout.idt + 2048 ≤ 2 ^ 32)
    × (w.layout.isr_dispatch_table + 1024 ≤ 2 ^ 32)
    × IsDisjoint w.layout.isr_dispatch_table 1024 w.layout.idt 2048

module _ (w : World) (placed : IsIdtPlaced w) (s : Machine) where
  abbrev m0 : Mem
  m0 = s.tty.mem

  abbrev m1 : Mem
  m1 = init_gates w 32 0 m0

  below : w.layout.idt + 2048 ≤ 2 ^ 32
  below = placed.1

  table_below : w.layout.isr_dispatch_table + 1024 ≤ 2 ^ 32
  table_below = placed.2

  same_dispatch : (i : ℕ) → i < 256 → dispatch_entry w m1 i ≡ dispatch_entry w m0 i
  same_dispatch i h = load32-same m0 m1 (ptr_add w.layout.isr_dispatch_table (i * 4)) λ b from to.
      init_gates-other w below 32 0 m0 b (omega arith) (ground (arith, placed, table_below))

  -- Where the table is behind the text buffer and apart from the dispatch table, after
  -- `idt_init` each of the 256 vectors has a present 32-bit interrupt gate for the kernel's
  -- code segment that leads to the routine of the dispatch table.
  pub idt_init-Gates :
      (i : ℕ)
      → i < 256
      → gate_at (idt_init w s).1.tty.mem (idt_entry w i)
        ≡ interrupt_gate (u32 (dispatch_entry w m0 i)) 8 0
  unfolding idt_init ◌>>=◌
  idt_init-Gates i h = elim (system_or_user i) [
    | inl lt ↦
        gate_at-cong m1 (init_gates w 224 32 m1) (idt_entry w i) (omega arith)
          (λ a from to. init_gates-other w below 224 32 m1 a (omega arith) (inl (omega arith)))
        ∙ init_gates-Gates w below placed.3 table_below 32 0 i m0 (omega arith) (omega arith) lt
    | inr le ↦
        init_gates-Gates w below placed.3 table_below 224 32 i m1 (omega arith) le h
        ∙ ap (λ d. interrupt_gate (u32 d) 8 0) (same_dispatch i h)
  ]
    where
      system_or_user : (i : ℕ) → (i < 32) ⊎ (32 ≤ i)
      system_or_user i = ground arith

  -- With a valid console, and the table behind the text buffer and apart from the dispatch
  -- table, `idt_init` changes no memory behind the text buffer but the 2048 bytes of the 256
  -- gates, and no register.
  pub idt_init-Changes :
      IsValid s.tty → Changes w.layout.idt (w.layout.idt + 2048) s (idt_init w s).1
  unfolding idt_init ◌>>=◌
  idt_init-Changes v =
      Changes-trans
        (Changes-mem v w.layout.idt (w.layout.idt + 2048) (init_gates w 32 0)
          λ a h. init_gates-other w below 32 0 m0 a (omega arith) (ground arith))
        λ v1.
          Changes-mem v1 w.layout.idt (w.layout.idt + 2048) (init_gates w 224 32)
            λ a h. init_gates-other w below 224 32 m1 a (omega arith) (ground arith)

-- Where the 2048 bytes from the table's address on are below 2 ^ 32, `idt_init` leaves the
-- byte 0x8e at an address past the end of the table, whatever was there before.
pub idt_init_past_end :
    (w : World)
    → w.layout.idt + 2048 ≤ 2 ^ 32
    → (s : Machine)
    → (a : ℕ) × (w.layout.idt + sizeof_idt ≤ a) × ((idt_init w s).1.tty.mem a ≡ 0x8e)
unfolding idt_init ◌>>=◌
idt_init_past_end w fits s = (
  w.layout.idt + sizeof_idt + 5,
  omega arith,
  init_gates-last w fits 223 32 (init_gates w 32 0 s.tty.mem) (omega arith),
)
