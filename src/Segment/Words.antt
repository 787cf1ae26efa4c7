-- ===== src/Segment/Words.antt =====
-- `init_segment_descriptor` against the layout of `struct segment_descriptor`.
use chp_os.Base.{
  ℕ, ◌+◌, ◌*◌, ◌/◌, ◌%◌, ◌^◌, ◌<◌, ◌≡◌, refl, ap, ap₂, ◌∙◌, arith, bit_and, bit_or, bits,
  bits-bit_or, bit_or-lt, bit_or_halves, bit_and_mask, bit_and_low, bit_or_zero_left,
  bit_or_zero_right, ◌>>>◌, ◌<<<◌, u32,
}
use chp_os.Segment.{SegmentDataType, data_type_code, high_part, low_part}
use chp_os.Segment.Fields.{unpack, IsFlags, descriptor}

data_type_code-lt : (type : SegmentDataType) → data_type_code type < 16
data_type_code-lt type = ground arith

-- The five parts of the high word.
high_part-sum :
    (base limit : ℕ) (type : SegmentDataType) (flags : ℕ)
    → high_part base limit type flags
      ≡ bit_or
          (bit_or
            (bit_or (bit_or (bits 24 8 base * 2 ^ 24) (bits 16 8 base)) flags)
            (bits 16 4 limit * 2 ^ 16))
          (data_type_code type * 2 ^ 8)
unfolding high_part
high_part-sum base limit type flags =
    let t = data_type_code type in
    let typed : bit_and 0x00000f00 (u32 (t <<< 8)) ≡ t * 2 ^ 8 =
      bit_and_mask 8 4 (u32 (t <<< 8)) ∙ omega (arith, data_type_code-lt type) in
    let middle : bit_and 0x00ff0000 base >>> 16 ≡ bits 16 8 base =
      ap (λ x. x / 2 ^ 16) (bit_and_mask 16 8 base) ∙ omega arith in
    ap₂ bit_or
      (ap₂ bit_or (ap (λ x. bit_or x flags) (ap₂ bit_or (bit_and_mask 24 8 base) middle))
        (bit_and_mask 16 4 limit))
      typed

-- A field of the high word is made of the same field of its parts.
high_part-bits :
    (base limit : ℕ) (type : SegmentDataType) (flags k w a b f c t : ℕ)
    → bits k w (bits 24 8 base * 2 ^ 24) ≡ a
    → bits k w (bits 16 8 base) ≡ b
    → bits k w flags ≡ f
    → bits k w (bits 16 4 limit * 2 ^ 16) ≡ c
    → bits k w (data_type_code type * 2 ^ 8) ≡ t
    → bits k w (high_part base limit type flags) ≡ bit_or (bit_or (bit_or (bit_or a b) f) c) t
high_part-bits base limit type flags k w a b f c t ea eb ef ec et =
    ap (bits k w) (high_part-sum base limit type flags)
    ∙ bits-bit_or k w _ _
    ∙ ap₂ bit_or
        (bits-bit_or k w _ _
          ∙ ap₂ bit_or
              (bits-bit_or k w _ _ ∙ ap₂ bit_or (bits-bit_or k w _ _ ∙ ap₂ bit_or ea eb) ef) ec)
        et

low_part-sum : (base limit : ℕ) → low_part base limit ≡ bits 0 16 base * 2 ^ 16 + bits 0 16 limit
unfolding low_part
low_part-sum base limit =
    let upper : bit_and 0xffff0000 (u32 (base <<< 16)) ≡ bits 0 16 base * 2 ^ 16 =
      bit_and_mask 16 16 (u32 (base <<< 16)) ∙ omega arith in
    let parts : bit_or (0 * 2 ^ 16 + limit % 2 ^ 16) (bits 0 16 base * 2 ^ 16 + 0)
        ≡ bit_or 0 (bits 0 16 base) * 2 ^ 16 + bit_or (limit % 2 ^ 16) 0 =
      bit_or_halves 16 0 (bits 0 16 base) (limit % 2 ^ 16) 0 (omega arith) (omega arith) in
    ap₂ bit_or (bit_and_low 16 limit ∙ omega arith) (upper ∙ omega arith)
    ∙ parts
    ∙ omega (arith, bit_or_zero_left (bits 0 16 base), bit_or_zero_right (limit % 2 ^ 16))

-- Where one part alone reaches a field, the field is its.
ruleset alone = (bit_or_zero_left, bit_or_zero_right)

module _ (base limit : ℕ) (type : SegmentDataType) (flags : ℕ) (h : IsFlags flags) where
  pub low_part-lt : low_part base limit < 2 ^ 32
  low_part-lt = omega (arith, low_part-sum base limit)

  pub high_part-lt : high_part base limit type flags < 2 ^ 32
  high_part-lt =
      let small = data_type_code-lt type in
      rw high_part-sum (
        bit_or-lt 32 _ _
          (bit_or-lt 32 _ _
            (bit_or-lt 32 _ _ (bit_or-lt 32 _ _ (omega arith) (omega arith)) (omega arith))
            (omega arith))
          (omega arith))

  abbrev high : ℕ
  high = high_part base limit type flags

  abbrev parts_at :
      (k w a b f c t : ℕ)
      → bits k w (bits 24 8 base * 2 ^ 24) ≡ a
      → bits k w (bits 16 8 base) ≡ b
      → bits k w flags ≡ f
      → bits k w (bits 16 4 limit * 2 ^ 16) ≡ c
      → bits k w (data_type_code type * 2 ^ 8) ≡ t
      → bits k w high ≡ bit_or (bit_or (bit_or (bit_or a b) f) c) t
  parts_at = high_part-bits base limit type flags

  -- A field of the flags.
  flag_at :
      (k w : ℕ)
      → bits k w (bits 24 8 base * 2 ^ 24) ≡ 0
      → bits k w (bits 16 8 base) ≡ 0
      → bits k w (bits 16 4 limit * 2 ^ 16) ≡ 0
      → bits k w (data_type_code type * 2 ^ 8) ≡ 0
      → bits k w high ≡ bits k w flags
  flag_at k w ea eb ec et = parts_at k w 0 0 (bits k w flags) 0 0 ea eb refl ec et ∙ simp alone

  base_fields : (bits 0 8 high ≡ bits 16 8 base) × (bits 24 8 high ≡ bits 24 8 base)
  base_fields =
      let small = data_type_code-lt type in
      (
        parts_at 0 8 0 (bits 16 8 base) 0 0 0 (omega arith) (omega arith) (omega arith)
              (omega arith) (omega arith)
            ∙ simp alone,
        parts_at 24 8 (bits 24 8 base) 0 0 0 0 (omega arith) (omega arith) (omega arith)
              (omega arith) (omega arith)
            ∙ simp alone,
      )

  other_fields : (bits 8 4 high ≡ data_type_code type) × (bits 16 4 high ≡ bits 16 4 limit)
  other_fields =
      let small = data_type_code-lt type in
      (
        parts_at 8 4 0 0 0 0 (data_type_code type) (omega arith) (omega arith) (omega arith)
              (omega arith) (omega arith)
            ∙ simp alone,
        parts_at 16 4 0 0 0 (bits 16 4 limit) 0 (omega arith) (omega arith) (omega arith)
              (omega arith) (omega arith)
            ∙ simp alone,
      )

  flag_fields :
      (bits 12 1 high ≡ bits 12 1 flags)
      × (bits 13 2 high ≡ bits 13 2 flags)
      × (bits 15 1 high ≡ bits 15 1 flags)
      × (bits 20 1 high ≡ bits 20 1 flags)
      × (bits 21 1 high ≡ bits 21 1 flags)
      × (bits 22 1 high ≡ bits 22 1 flags)
      × (bits 23 1 high ≡ bits 23 1 flags)
  flag_fields =
      let small = data_type_code-lt type in
      (
        flag_at 12 1 (omega arith) (omega arith) (omega arith) (omega arith),
        flag_at 13 2 (omega arith) (omega arith) (omega arith) (omega arith),
        flag_at 15 1 (omega arith) (omega arith) (omega arith) (omega arith),
        flag_at 20 1 (omega arith) (omega arith) (omega arith) (omega arith),
        flag_at 21 1 (omega arith) (omega arith) (omega arith) (omega arith),
        flag_at 22 1 (omega arith) (omega arith) (omega arith) (omega arith),
        flag_at 23 1 (omega arith) (omega arith) (omega arith) (omega arith),
      )

  low_fields :
      (bits 0 16 (low_part base limit) ≡ bits 0 16 limit)
      × (bits 16 16 (low_part base limit) ≡ bits 0 16 base)
  low_fields = omega (arith, low_part-sum base limit)

  -- The two words that the code builds unpack to the descriptor that is asked for.
  pub unpack_parts :
      unpack (low_part base limit) high ≡ descriptor base limit (data_type_code type) flags
  unpack_parts =
      let (limit_low, base_low) = low_fields in
      let (base_middle, base_high) = base_fields in
      let (typed, limit_high) = other_fields in
      let (dt, pl, pr, av, lo, si, gr) = flag_fields in
      λ i. record {
        seg_lim_0_15 = limit_low i;
        base_addr_0_15 = base_low i;
        base_addr_16_23 = base_middle i;
        type = typed i;
        dtype = dt i;
        dpl = pl i;
        present = pr i;
        seg_lim_16_19 = limit_high i;
        avl = av i;
        l = lo i;
        db = si i;
        g = gr i;
        base_24_31 = base_high i;
      }
