-- ===== src/Segment/Fields.antt =====
-- `struct segment_descriptor`, and the descriptor that the manual asks for.
use chp_os.Base.{ℕ, ◌^◌, ◌<◌, ◌≡◌, bits}

-- `struct segment_descriptor`, field by field.
pub record SegmentDescriptor : Type 0 where
  pub seg_lim_0_15 : ℕ
  pub base_addr_0_15 : ℕ
  pub base_addr_16_23 : ℕ
  pub type : ℕ
  pub dtype : ℕ
  pub dpl : ℕ
  pub present : ℕ
  pub seg_lim_16_19 : ℕ
  pub avl : ℕ
  pub l : ℕ
  pub db : ℕ
  pub g : ℕ
  pub base_24_31 : ℕ

-- The packed fields in their order, from the low word and the high word.
abbrev pub unpack : (low high : ℕ) → SegmentDescriptor
unpack low high = record {
  seg_lim_0_15 = bits 0 16 low;
  base_addr_0_15 = bits 16 16 low;
  base_addr_16_23 = bits 0 8 high;
  type = bits 8 4 high;
  dtype = bits 12 1 high;
  dpl = bits 13 2 high;
  present = bits 15 1 high;
  seg_lim_16_19 = bits 16 4 high;
  avl = bits 20 1 high;
  l = bits 21 1 high;
  db = bits 22 1 high;
  g = bits 23 1 high;
  base_24_31 = bits 24 8 high;
}

-- The bits that the `SEGMENT_DESCR_*` macros can set: 12 to 15 and 20 to 23.
abbrev pub IsFlags : ℕ → Type 0
IsFlags flags = (bits 0 12 flags ≡ 0) × (bits 16 4 flags ≡ 0) × (flags < 2 ^ 24)

-- The descriptor that the manual asks for.
abbrev pub descriptor : (base limit type flags : ℕ) → SegmentDescriptor
descriptor base limit type flags = record {
  seg_lim_0_15 = bits 0 16 limit;
  base_addr_0_15 = bits 0 16 base;
  base_addr_16_23 = bits 16 8 base;
  type = type;
  dtype = bits 12 1 flags;
  dpl = bits 13 2 flags;
  present = bits 15 1 flags;
  seg_lim_16_19 = bits 16 4 limit;
  avl = bits 20 1 flags;
  l = bits 21 1 flags;
  db = bits 22 1 flags;
  g = bits 23 1 flags;
  base_24_31 = bits 24 8 base;
}
