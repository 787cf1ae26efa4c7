-- ===== src/Segment/Flags.antt =====
-- The flags that the macros of kernel/src/system/segment.h make.
use chp_os.Base.{
  ℕ, zero, suc, u32, ◌<<<◌, ◌+◌, ◌*◌, ◌%◌, ◌^◌, ◌≤◌, ◌<◌, ◌≡◌, ap, ap₂, ◌∙◌, arith, bits, bit_and,
  bit_or, bit_and_low, bit_or_fields,
}
use chp_os.Machine.{Machine, World}
use chp_os.Tty.Bounds.{IsValid}
use chp_os.Segment.{
  descr_gran, descr_size, descr_64bi, descr_avai, descr_pres, descr_priv, descr_dtyp,
  SegmentDataType, data_type_code, init_segment_descriptor,
}
use chp_os.Segment.Fields.{SegmentDescriptor, descriptor, IsFlags}
use chp_os.Segment.Stored.{descriptor_at, IsPlaced, init_segment_descriptor_lem}

-- Two arguments of `|` without a common bit.
or_apart : (k q r a b : ℕ) → a ≡ q * 2 ^ k → b ≡ r → r < 2 ^ k → bit_or a b ≡ q * 2 ^ k + r
or_apart k q r a b ea eb h = ap₂ bit_or ea eb ∙ bit_or_fields k q r h

digit_times : (d p : ℕ) → d < 2 → p ≤ 2 ^ 31 → d * p % 2 ^ 32 ≡ d * p
digit_times zero p h hp = omega arith
digit_times (suc zero) p h hp = omega arith
digit_times (suc (suc d)) p h hp = absurd (omega arith)

-- What a macro makes of its argument, below 2^32.
masked_bit : (v k : ℕ) → 2 ^ k ≤ 2 ^ 31 → u32 (bit_and v 0x1 <<< k) ≡ v % 2 * 2 ^ k
masked_bit v k h =
    ap (λ x. x * 2 ^ k % 2 ^ 32) (bit_and_low 1 v) ∙ digit_times (v % 2) (2 ^ k) (omega arith) h

masked_level : (t : ℕ) → descr_priv t ≡ t % 4 * 2 ^ 13
masked_level t = ap (λ x. x * 2 ^ 13 % 2 ^ 32) (bit_and_low 2 t) ∙ omega arith

module _ (gran size l avl pres priv dtyp : ℕ) where
  -- The flags of a descriptor, as its user joins them.
  abbrev pub joined_flags : ℕ
  joined_flags =
      let a = bit_or (descr_gran gran) (descr_size size) in
      let b = bit_or (bit_or a (descr_64bi l)) (descr_avai avl) in
      bit_or (bit_or (bit_or b (descr_pres pres)) (descr_priv priv)) (descr_dtyp dtyp)

  joined-sum :
      joined_flags
      ≡ gran % 2 * 2 ^ 23
        + size % 2 * 2 ^ 22
        + l % 2 * 2 ^ 21
        + avl % 2 * 2 ^ 20
        + pres % 2 * 2 ^ 15
        + priv % 4 * 2 ^ 13
        + dtyp % 2 * 2 ^ 12
  joined-sum =
      let a =
        or_apart 23 (gran % 2) (size % 2 * 2 ^ 22) _ _ (masked_bit gran 23 (omega arith))
          (masked_bit size 22 (omega arith)) (omega arith) in
      let b =
        or_apart 22 (gran % 2 * 2 + size % 2) (l % 2 * 2 ^ 21) _ _ (a ∙ omega arith)
          (masked_bit l 21 (omega arith)) (omega arith) in
      let c =
        or_apart 21 (gran % 2 * 4 + size % 2 * 2 + l % 2) (avl % 2 * 2 ^ 20) _ _ (b ∙ omega arith)
          (masked_bit avl 20 (omega arith)) (omega arith) in
      let high = gran % 2 * 8 + size % 2 * 4 + l % 2 * 2 + avl % 2 in
      let d =
        or_apart 20 high (pres % 2 * 2 ^ 15) _ _ (c ∙ omega arith)
          (masked_bit pres 15 (omega arith)) (omega arith) in
      let e =
        or_apart 15 (high * 2 ^ 5 + pres % 2) (priv % 4 * 2 ^ 13) _ _ (d ∙ omega arith)
          (masked_level priv) (omega arith) in
      or_apart 13 (high * 2 ^ 7 + pres % 2 * 4 + priv % 4) (dtyp % 2 * 2 ^ 12) _ _ (e ∙ omega arith)
        (masked_bit dtyp 12 (omega arith)) (omega arith)
      ∙ omega arith

  joined-IsFlags : IsFlags joined_flags
  joined-IsFlags = (omega (arith, joined-sum), omega (arith, joined-sum), omega (arith, joined-sum))

  -- The descriptor with the arguments of the macros, cut to their bits, as its flags.
  abbrev pub described : (base limit : ℕ) → SegmentDataType → SegmentDescriptor
  described base limit type = record (descriptor base limit (data_type_code type) 0) {
    dtype = dtyp % 2;
    dpl = priv % 4;
    present = pres % 2;
    avl = avl % 2;
    l = l % 2;
    db = size % 2;
    g = gran % 2;
  }

  flags_read :
      (bits 12 1 joined_flags ≡ dtyp % 2)
      × (bits 13 2 joined_flags ≡ priv % 4)
      × (bits 15 1 joined_flags ≡ pres % 2)
      × (bits 20 1 joined_flags ≡ avl % 2)
      × (bits 21 1 joined_flags ≡ l % 2)
      × (bits 22 1 joined_flags ≡ size % 2)
      × (bits 23 1 joined_flags ≡ gran % 2)
  flags_read = (
    omega (arith, joined-sum),
    omega (arith, joined-sum),
    omega (arith, joined-sum),
    omega (arith, joined-sum),
    omega (arith, joined-sum),
    omega (arith, joined-sum),
    omega (arith, joined-sum),
  )

  descriptor-described :
      (base limit : ℕ) (type : SegmentDataType)
      → descriptor base limit (data_type_code type) joined_flags ≡ described base limit type
  descriptor-described base limit type =
      let (dt, pl, pr, av, lo, si, gr) = flags_read in
      λ i. record (descriptor base limit (data_type_code type) 0) {
        dtype = dt i;
        dpl = pl i;
        present = pr i;
        avl = av i;
        l = lo i;
        db = si i;
        g = gr i;
      }

  -- Where a descriptor's flags are made by the seven macros and joined, the address is behind the
  -- text buffer and the console valid, the eight bytes that `init_segment_descriptor` leaves in
  -- memory decode to the base, the limit and the type that it was asked for, and to the arguments
  -- of the macros, each in the field that it is named for and cut to that field's bits.
  pub init_segment_descriptor-described :
      (w : World) (desc base limit : ℕ) (type : SegmentDataType)
      → IsPlaced desc
      → (s : Machine) → IsValid s.tty
      → descriptor_at (init_segment_descriptor w desc base limit type joined_flags s).1.tty.mem desc
        ≡ described base limit type
  init_segment_descriptor-described w desc base limit type placed s v =
      init_segment_descriptor_lem w desc base limit type joined_flags placed joined-IsFlags s v
      ∙ descriptor-described base limit type
