-- ===== src/Segment/Translate.antt =====
-- How the processor goes from a selector and an offset to a linear address.
use chp_os.Base.{
  ℕ, ◌+◌, ◌*◌, ◌^◌, ◌<◌, ◌≡◌, ap, ap₂, ◌∙◌, arith, ◌==◌, if◌then◌else◌, bits, ptr_add,
}
use chp_os.Memory.{Mem}
use chp_os.Machine.{Cpu, Machine}
use chp_os.Segment.Fields.{SegmentDescriptor}
use chp_os.Segment.Stored.{descriptor_at}
use chp_os.Segment.Flat.{code_descriptor, data_descriptor}
use chp_os.Base.{Option, some, none, Bool, true, false, u32, leb, ltb, ◌&&◌}

-- The base address that the three fields of a descriptor give.
abbrev pub segment_base : SegmentDescriptor → ℕ
segment_base d = d.base_addr_0_15 + d.base_addr_16_23 * 2 ^ 16 + d.base_24_31 * 2 ^ 24

-- The last offset of the segment; with the granularity bit the limit counts pages.
abbrev pub last_offset : SegmentDescriptor → ℕ
last_offset d =
    let raw = d.seg_lim_0_15 + d.seg_lim_16_19 * 2 ^ 16 in
    if d.g == 1 then raw * 4096 + 4095 else raw

-- What a segment register is for: CS, SS, and the others.
pub data SegmentUse : Type 0 where
  fetch stack data_access : SegmentUse

-- A present descriptor of a code or data segment (the S bit), not of the system.
abbrev pub is_memory_segment : SegmentDescriptor → Bool
is_memory_segment d = (d.present == 1) && (d.dtype == 1)

-- The type and, for code of the kernel, the level that the use asks for: bit 3 of the type is
-- executable, and without it bit 1 is writable. Data is read and written.
abbrev pub serves : SegmentUse → SegmentDescriptor → Bool
serves fetch d = (bits 3 1 d.type == 1) && (d.dpl == 0)
serves stack d = (bits 3 1 d.type == 0) && (bits 1 1 d.type == 1) && (d.dpl == 0)
serves data_access d = (bits 3 1 d.type == 0) && (bits 1 1 d.type == 1)

-- The linear address of an offset in a present segment that serves the use; `none` is a fault.
abbrev pub linear : SegmentDescriptor → SegmentUse → (offset : ℕ) → Option ℕ
linear d use_of offset =
    if is_memory_segment d && serves use_of d && leb offset (last_offset d)
    then some (u32 (segment_base d + offset))
    else none

-- The entry that a selector names: its index, from bit 3 on, counts in the table
-- that GDTR names (bit 2 would say another table), within the limit there, and entry 0 is not used.
abbrev pub selected : Cpu → Mem → (selector : ℕ) → Option SegmentDescriptor
selected c m selector =
    let index = bits 3 13 selector in
    if (bits 2 1 selector == 0) && ltb 0 index && leb (index * 8 + 7) c.gdtr_limit
    then some (descriptor_at m (ptr_add c.gdtr_base (index * 8)))
    else none

-- The processor's translation through a selector.
abbrev pub translate : Machine → SegmentUse → (selector offset : ℕ) → Option ℕ
translate s use_of selector offset = elim (selected s.cpu s.tty.mem selector) [
  | none ↦ none
  | some d ↦ linear d use_of offset
]

-- The check of the selector in a gate: it names a present code segment of the kernel.
abbrev pub is_code_segment : Cpu → Mem → (selector : ℕ) → Bool
is_code_segment c m selector = elim (selected c m selector) [
  | none ↦ false
  | some d ↦ is_memory_segment d && serves fetch d
]

pub linear-code : (offset : ℕ) → offset < 2 ^ 32 → linear code_descriptor fetch offset ≡ some offset
linear-code offset h = ground arith

pub linear-stack :
    (offset : ℕ) → offset < 2 ^ 32 → linear data_descriptor stack offset ≡ some offset
linear-stack offset h = ground arith

pub linear-data :
    (offset : ℕ) → offset < 2 ^ 32 → linear data_descriptor data_access offset ≡ some offset
linear-data offset h = ground arith

pub selected-entry :
    (c : Cpu) (m : Mem) (index selector base : ℕ) (d : SegmentDescriptor)
    → c.gdtr_base ≡ base
    → c.gdtr_limit ≡ 23
    → descriptor_at m (ptr_add base (index * 8)) ≡ d
    → bits 3 13 selector ≡ index
    → bits 2 1 selector ≡ 0
    → 0 < index
    → index < 3
    → selected c m selector ≡ some d
selected-entry c m index selector base d eb el ed ei et pos lt =
    let found : descriptor_at m (ptr_add c.gdtr_base (bits 3 13 selector * 8)) ≡ d =
      ap₂ (λ b i. descriptor_at m (ptr_add b (i * 8))) eb ei ∙ ed in
    let guard : ((bits 2 1 selector == 0)
          && ltb 0 (bits 3 13 selector)
          && leb (bits 3 13 selector * 8 + 7) c.gdtr_limit)
        ≡ true =
      ground arith in
    ap
      (λ b.
        if b then some (descriptor_at m (ptr_add c.gdtr_base (bits 3 13 selector * 8))) else none)
      guard
    ∙ ap some found

pub translate-entry :
    (s : Machine) (use_of : SegmentUse) (selector offset : ℕ) (d : SegmentDescriptor)
    → selected s.cpu s.tty.mem selector ≡ some d
    → translate s use_of selector offset ≡ linear d use_of offset
translate-entry s use_of selector offset d e =
    ap
      (λ (o : Option SegmentDescriptor). elim o as (λ _. Option ℕ) [
        | none ↦ none
        | some d ↦ linear d use_of offset
      ])
      e

pub is_code_segment-entry :
    (c : Cpu) (m : Mem) (selector : ℕ)
    → selected c m selector ≡ some code_descriptor
    → is_code_segment c m selector ≡ true
is_code_segment-entry c m selector e =
    ap
      (λ (o : Option SegmentDescriptor). elim o as (λ _. Bool) [
        | none ↦ false
        | some d ↦ is_memory_segment d && serves fetch d
      ])
      e
