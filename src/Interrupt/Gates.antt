-- ===== src/Interrupt/Gates.antt =====
-- `idt_init_interrupt_gate` against the layout of an interrupt gate.
use chp_os.Base.{
  ℕ, ◌+◌, ◌*◌, ◌/◌, ◌%◌, ◌^◌, ◌≤◌, ◌<◌, ◌≡◌, refl, ◌∙◌, ◌⊎◌, arith, bits, bit_and, bit_or,
  bit_and_low, ◌<<<◌, ◌>>>◌, u16, u32, ptr_add, ◌==◌, ◌&&◌, Bool, ==→eq, all_below, all_below_sound,
}
use chp_os.Memory.{Mem, store16, load16}
use chp_os.Memory.Access.{load16-same, store16-other, load16-store16, load16-store16_other}
use chp_os.Segment.{sys_gate_code, gate_int_32}
use chp_os.Interrupt.{
  idt_desc_present, idt_desc_type_int, idt_desc_gate_size_32, gate_flags, idt_init_interrupt_gate,
}

-- An interrupt gate as the processor reads it: `kind` is the system bit and the type.
pub record Gate : Type 0 where
  pub offset : ℕ
  pub selector : ℕ
  pub kind : ℕ
  pub dpl : ℕ
  pub present : ℕ

-- The gate from the four fields of `idt_descriptor_t`.
abbrev pub decode : (offset_0_15 cs flags offset_16_31 : ℕ) → Gate
decode offset_0_15 cs flags offset_16_31 = record {
  offset = offset_0_15 + offset_16_31 * 2 ^ 16;
  selector = cs;
  kind = bits 8 5 flags;
  dpl = bits 13 2 flags;
  present = bits 15 1 flags;
}

abbrev pub gate_at : Mem → (desc : ℕ) → Gate
gate_at m desc =
    decode (load16 m desc) (load16 m (ptr_add desc 2)) (load16 m (ptr_add desc 4))
      (load16 m (ptr_add desc 6))

-- The processor's check of a gate: present, and a 32-bit interrupt gate.
abbrev pub is_open : Gate → Bool
is_open g = (g.present == 1) && (g.kind == 0x0e)

-- A present 32-bit interrupt gate.
abbrev pub interrupt_gate : (offset selector dpl : ℕ) → Gate
interrupt_gate offset selector dpl = record {
  offset = offset;
  selector = selector;
  kind = sys_gate_code gate_int_32;
  dpl = dpl;
  present = 1;
}

flags_of :
    (d : ℕ)
    → d < 4
    → u16 (
        bit_or
          (bit_or (bit_or (d <<< 13) idt_desc_present) idt_desc_type_int)
          idt_desc_gate_size_32)
      ≡ d * 2 ^ 13 + 0x8e00
unfolding all_below
flags_of d h = ==→eq _ _ (
    all_below_sound 4
      (λ d.
        u16 (
          bit_or (bit_or (bit_or (d <<< 13) idt_desc_present) idt_desc_type_int)
            idt_desc_gate_size_32)
        == d * 2 ^ 13 + 0x8e00)
      refl d h)

gate_flags-sum : (dpl : ℕ) → gate_flags dpl ≡ dpl % 4 * 2 ^ 13 + 0x8e00
unfolding gate_flags
gate_flags-sum dpl = rw (bit_and_low 2 dpl) (flags_of (dpl % 4) (omega arith))

module _ (desc offset seg dpl : ℕ) (m : Mem) (below : desc + 8 ≤ 2 ^ 32) where
  abbrev gated : Mem
  gated = idt_init_interrupt_gate desc offset seg dpl m

  -- Only the eight bytes of the gate change.
  pub gate-other : (a : ℕ) → (a < desc) ⊎ (desc + 8 ≤ a) → gated a ≡ m a
  unfolding idt_init_interrupt_gate
  gate-other a out =
      let m1 = store16 m (ptr_add desc 4) (gate_flags dpl) in
      let m2 = store16 m1 (ptr_add desc 2) seg in
      let m3 = store16 m2 desc (bit_and offset 0xffff) in
      store16-other m3 (ptr_add desc 6) _ a (ground arith)
      ∙ store16-other m2 desc _ a (ground arith)
      ∙ store16-other m1 (ptr_add desc 2) _ a (ground arith)
      ∙ store16-other m (ptr_add desc 4) _ a (ground arith)

  -- The high byte of the flags.
  pub gate-high_byte : (a : ℕ) → a ≡ desc + 5 → gated a ≡ dpl % 4 * 2 ^ 5 + 0x8e
  unfolding idt_init_interrupt_gate store16
  gate-high_byte a e = ground (arith, gate_flags-sum dpl)

  gate-words :
      seg < 2 ^ 16
      → (load16 gated desc ≡ offset % 2 ^ 16)
        × (load16 gated (ptr_add desc 2) ≡ seg)
        × (load16 gated (ptr_add desc 4) ≡ dpl % 4 * 2 ^ 13 + 0x8e00)
        × (load16 gated (ptr_add desc 6) ≡ offset / 2 ^ 16 % 2 ^ 16)
  unfolding idt_init_interrupt_gate
  gate-words fits =
      let m1 = store16 m (ptr_add desc 4) (gate_flags dpl) in
      let m2 = store16 m1 (ptr_add desc 2) seg in
      let low = bit_and offset 0xffff in
      let m3 = store16 m2 desc low in
      let high = u16 (bit_and (offset >>> 16) 0xffff) in
      let flags = gate_flags-sum dpl in
      (
        load16-store16_other m3 (ptr_add desc 6) high desc (ground arith)
            ∙ load16-store16 m2 desc low (omega (arith, bit_and_low 16 offset))
            ∙ bit_and_low 16 offset,
        load16-store16_other m3 (ptr_add desc 6) high (ptr_add desc 2) (ground arith)
            ∙ load16-store16_other m2 desc low (ptr_add desc 2) (ground arith)
            ∙ load16-store16 m1 (ptr_add desc 2) seg fits,
        load16-store16_other m3 (ptr_add desc 6) high (ptr_add desc 4) (ground arith)
            ∙ load16-store16_other m2 desc low (ptr_add desc 4) (ground arith)
            ∙ load16-store16_other m1 (ptr_add desc 2) seg (ptr_add desc 4) (ground arith)
            ∙ load16-store16 m (ptr_add desc 4) (gate_flags dpl) (omega (arith, flags))
            ∙ flags,
        load16-store16 m3 (ptr_add desc 6) high (omega arith)
            ∙ omega (arith, bit_and_low 16 (offset >>> 16)),
      )

  -- The four fields that the code stores read back as the interrupt gate that is asked for.
  pub gate_at-gate : seg < 2 ^ 16 → gate_at gated desc ≡ interrupt_gate (u32 offset) seg (dpl % 4)
  gate_at-gate fits =
      let (low, selector, flags, high) = gate-words fits in
      λ i. record {
        offset = sum low high i;
        selector = selector i;
        kind = kinds flags i;
        dpl = levels flags i;
        present = presents flags i;
      }
    where
      sum :
          {l h : ℕ}
          → l ≡ offset % 2 ^ 16
          → h ≡ offset / 2 ^ 16 % 2 ^ 16
          → l + h * 2 ^ 16 ≡ u32 offset
      sum el eh = omega arith

      kinds : {f : ℕ} → f ≡ dpl % 4 * 2 ^ 13 + 0x8e00 → bits 8 5 f ≡ 0xe
      kinds e = omega arith

      levels : {f : ℕ} → f ≡ dpl % 4 * 2 ^ 13 + 0x8e00 → bits 13 2 f ≡ dpl % 4
      levels e = omega arith

      presents : {f : ℕ} → f ≡ dpl % 4 * 2 ^ 13 + 0x8e00 → bits 15 1 f ≡ 1
      presents e = omega arith

pub gate_at-cong :
    (m m' : Mem) (desc : ℕ)
    → desc + 8 ≤ 2 ^ 32
    → ((a : ℕ) → desc ≤ a → a < desc + 8 → m' a ≡ m a)
    → gate_at m' desc ≡ gate_at m desc
gate_at-cong m m' desc below same =
    let word : (i : ℕ) → i + 2 ≤ 8 → load16 m' (ptr_add desc i) ≡ load16 m (ptr_add desc i) = λ i h.
      load16-same m m' (ptr_add desc i) (same _ (omega arith) (omega arith))
        (same _ (omega arith) (omega arith)) in
    λ i.
      decode
        (load16-same m m' desc (same _ (omega arith) (omega arith))
          (same _ (omega arith) (omega arith)) i)
        (word 2 (omega arith) i) (word 4 (omega arith) i) (word 6 (omega arith) i)
