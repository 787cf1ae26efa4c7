-- ===== src/Segment/Loaded.antt =====
-- The flat model in the processor's registers and in memory, and what keeps it.
use chp_os.Base.{ℕ, ◌+◌, ◌^◌, ◌≤◌, ◌<◌, ◌≡◌, ◌∙◌, arith}
use chp_os.Machine.{Machine, World}
use chp_os.Segment.{gdt_entry}
use chp_os.Segment.Stored.{descriptor_at}
use chp_os.Segment.Flat.{code_descriptor, data_descriptor}
use chp_os.Base.{some}
use chp_os.Base.{true, refl}
use chp_os.Segment.Translate.{
  fetch, stack, data_access, selected, translate, is_code_segment, linear-code, linear-stack,
  linear-data, selected-entry, translate-entry, is_code_segment-entry,
}
use chp_os.Base.{ap₂, ptr_add}
use chp_os.Memory.{Mem}
use chp_os.Memory.Access.{load32-same}
use chp_os.Machine.{Cpu}
use chp_os.Segment.Fields.{unpack}

-- Through every segment register, an offset is a linear address for the register's use: CS to
-- fetch instructions, SS for a stack that can be written, the others for data.
pub record IsFlat (s : Machine) : Type 0 where
  pub through_cs : (offset : ℕ) → offset < 2 ^ 32 → translate s fetch s.cpu.cs offset ≡ some offset
  pub through_ss : (offset : ℕ) → offset < 2 ^ 32 → translate s stack s.cpu.ss offset ≡ some offset
  pub through_ds :
      (offset : ℕ) → offset < 2 ^ 32 → translate s data_access s.cpu.ds offset ≡ some offset
  pub through_es :
      (offset : ℕ) → offset < 2 ^ 32 → translate s data_access s.cpu.es offset ≡ some offset
  pub through_fs :
      (offset : ℕ) → offset < 2 ^ 32 → translate s data_access s.cpu.fs offset ≡ some offset
  pub through_gs :
      (offset : ℕ) → offset < 2 ^ 32 → translate s data_access s.cpu.gs offset ≡ some offset

-- The flat table as the processor finds it: GDTR, the selectors and the two descriptors.
pub record IsLoaded (w : World) (s : Machine) : Type 0 where
  pub base : s.cpu.gdtr_base ≡ w.layout.gdt
  pub limit : s.cpu.gdtr_limit ≡ 23
  pub cs : s.cpu.cs ≡ 0x08
  pub ss : s.cpu.ss ≡ 0x10
  pub ds : s.cpu.ds ≡ 0x10
  pub es : s.cpu.es ≡ 0x10
  pub fs : s.cpu.fs ≡ 0x10
  pub gs : s.cpu.gs ≡ 0x10
  pub code : descriptor_at s.tty.mem (gdt_entry w 1) ≡ code_descriptor
  pub rw_data : descriptor_at s.tty.mem (gdt_entry w 2) ≡ data_descriptor

module _ (w : World) {s : Machine} (l : IsLoaded w s) where
  selected-code :
      (selector : ℕ) → selector ≡ 0x08 → selected s.cpu s.tty.mem selector ≡ some code_descriptor
  selected-code selector e =
      selected-entry s.cpu s.tty.mem 1 selector w.layout.gdt code_descriptor l.base l.limit l.code
        (omega arith) (omega arith) (omega arith) (omega arith)

  selected-data :
      (selector : ℕ) → selector ≡ 0x10 → selected s.cpu s.tty.mem selector ≡ some data_descriptor
  selected-data selector e =
      selected-entry s.cpu s.tty.mem 2 selector w.layout.gdt data_descriptor l.base l.limit
        l.rw_data (omega arith) (omega arith) (omega arith) (omega arith)

  through_data :
      (selector offset : ℕ)
      → selector ≡ 0x10
      → offset < 2 ^ 32
      → translate s data_access selector offset ≡ some offset
  through_data selector offset e h =
      translate-entry s data_access selector offset data_descriptor (selected-data selector e)
      ∙ linear-data offset h

  pub IsLoaded-IsFlat : IsFlat s
  IsLoaded-IsFlat = record {
    through_cs = λ offset h.
        translate-entry s fetch s.cpu.cs offset code_descriptor (selected-code s.cpu.cs l.cs)
        ∙ linear-code offset h;
    through_ss = λ offset h.
        translate-entry s stack s.cpu.ss offset data_descriptor (selected-data s.cpu.ss l.ss)
        ∙ linear-stack offset h;
    through_ds = λ offset h. through_data s.cpu.ds offset l.ds h;
    through_es = λ offset h. through_data s.cpu.es offset l.es h;
    through_fs = λ offset h. through_data s.cpu.fs offset l.fs h;
    through_gs = λ offset h. through_data s.cpu.gs offset l.gs h;
  }

  pub IsLoaded-is_code_segment : is_code_segment s.cpu s.tty.mem 0x08 ≡ true
  IsLoaded-is_code_segment = is_code_segment-entry s.cpu s.tty.mem 0x08 (selected-code 0x08 refl)

-- The registers of the segments are the same.
abbrev pub SameSegments : Cpu → Cpu → Type 0
SameSegments c d =
    (d.gdtr_base ≡ c.gdtr_base)
    × (d.gdtr_limit ≡ c.gdtr_limit)
    × (d.cs ≡ c.cs)
    × (d.ss ≡ c.ss)
    × (d.ds ≡ c.ds)
    × (d.es ≡ c.es)
    × (d.fs ≡ c.fs)
    × (d.gs ≡ c.gs)

descriptor_at-same :
    (m m' : Mem) (desc : ℕ)
    → desc + 8 ≤ 2 ^ 32
    → ((a : ℕ) → desc ≤ a → a < desc + 8 → m' a ≡ m a)
    → descriptor_at m' desc ≡ descriptor_at m desc
descriptor_at-same m m' desc below same =
    ap₂ unpack (load32-same m m' desc λ a from to. same a from (omega arith))
      (load32-same m m' (ptr_add desc 4) λ a from to. same a (omega arith) (omega arith))

-- Code that keeps the table and these registers keeps the flat model.
pub IsLoaded-kept :
    (w : World) (s t : Machine)
    → w.layout.gdt + 64 ≤ 2 ^ 32
    → IsLoaded w s
    → SameSegments s.cpu t.cpu
    → ((a : ℕ) → w.layout.gdt ≤ a → a < w.layout.gdt + 24 → t.tty.mem a ≡ s.tty.mem a)
    → IsLoaded w t
IsLoaded-kept w s t below l c same = record {
  base = c.0 ∙ l.base;
  limit = c.1 ∙ l.limit;
  cs = c.2 ∙ l.cs;
  ss = c.3 ∙ l.ss;
  ds = c.4 ∙ l.ds;
  es = c.5 ∙ l.es;
  fs = c.6 ∙ l.fs;
  gs = c.7 ∙ l.gs;
  code =
      descriptor_at-same s.tty.mem t.tty.mem (gdt_entry w 1) (omega arith)
        (λ a from to. same a (omega arith) (omega arith))
      ∙ l.code;
  rw_data =
      descriptor_at-same s.tty.mem t.tty.mem (gdt_entry w 2) (omega arith)
        (λ a from to. same a (omega arith) (omega arith))
      ∙ l.rw_data;
}
