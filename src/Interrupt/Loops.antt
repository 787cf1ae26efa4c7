-- ===== src/Interrupt/Loops.antt =====
-- The loops of `idt_init`: which gates they fill, and with what.
use chp_os.Base.{
  ℕ, zero, suc, ◌+◌, ◌*◌, ◌^◌, ◌≤◌, ◌<◌, ◌≡◌, refl, ap, ◌∙◌, ◌⊎◌, inl, arith, u32, ptr_add, subst,
}
use native.Mathlib.Decide.{ℕ_discrete}
use chp_os.Memory.{Mem}
use chp_os.Machine.{World}
use chp_os.Interrupt.{idt_init_interrupt_gate, seg_sel, idt_entry, dispatch_entry, init_gates}
use chp_os.Interrupt.Gates.{
  gate_at, interrupt_gate, gate_at-gate, gate-other, gate-high_byte, gate_at-cong,
}
use chp_os.Memory.Access.{load32-same}

module _ (w : World) (below : w.layout.idt + 2048 ≤ 2 ^ 32) where
  -- The loops change no memory but the gates that they fill.
  pub init_gates-other :
      (left i : ℕ) (m : Mem) (a : ℕ)
      → i + left ≤ 256
      → (a < w.layout.idt + i * 8) ⊎ (w.layout.idt + (i + left) * 8 ≤ a)
      → init_gates w left i m a ≡ m a
  unfolding init_gates
  init_gates-other zero i m a h out = refl
  init_gates-other (suc left) i m a h out =
      init_gates-other left (i + 1) _ a (omega arith) (ground arith)
      ∙ gate-other (idt_entry w i) (dispatch_entry w m i) seg_sel 0 m (omega arith) a (ground arith)

  -- The high byte of the flags of the last gate.
  pub init_gates-last :
      (left i : ℕ) (m : Mem)
      → i + left < 256
      → init_gates w (suc left) i m (w.layout.idt + (i + left) * 8 + 5) ≡ 0x8e
  unfolding init_gates
  init_gates-last zero i m h =
      gate-high_byte (idt_entry w i) (dispatch_entry w m i) seg_sel 0 m (omega arith) _
        (omega arith)
  init_gates-last (suc left) i m h =
      let m1 = idt_init_interrupt_gate (idt_entry w i) (dispatch_entry w m i) seg_sel 0 m in
      ap (init_gates w (suc left) (i + 1) m1) (omega arith)
      ∙ init_gates-last left (i + 1) m1 (omega arith)

  -- The dispatch table is apart from the memory that the loops fill.
  module _
      (apart : (w.layout.isr_dispatch_table + 1024 ≤ w.layout.idt)
        ⊎ (w.layout.idt + 2048 ≤ w.layout.isr_dispatch_table))
      (table_below : w.layout.isr_dispatch_table + 1024 ≤ 2 ^ 32) where
    dispatch_entry-gate :
        (i j offset : ℕ) (m : Mem)
        → i < 256
        → j < 256
        → dispatch_entry w (idt_init_interrupt_gate (idt_entry w i) offset seg_sel 0 m) j
          ≡ dispatch_entry w m j
    dispatch_entry-gate i j offset m hi hj =
        load32-same m _ (ptr_add w.layout.isr_dispatch_table (j * 4))
          λ b from to. gate-other (idt_entry w i) offset seg_sel 0 m (omega arith) b (ground arith)

    -- Each gate that the loops fill is present, for the code segment, and leads to the routine that
    -- the dispatch table names.
    pub init_gates-Gates :
        (left i j : ℕ) (m : Mem)
        → i + left ≤ 256
        → i ≤ j
        → j < i + left
        → gate_at (init_gates w left i m) (idt_entry w j)
          ≡ interrupt_gate (u32 (dispatch_entry w m j)) 8 0
    unfolding init_gates
    init_gates-Gates zero i j m h le lt = absurd (omega arith)
    init_gates-Gates (suc left) i j m h le lt =
        let m1 = idt_init_interrupt_gate (idt_entry w i) (dispatch_entry w m i) seg_sel 0 m in
        elim (ℕ_discrete i j) [
          | yes e ↦
              gate_at-cong m1 (init_gates w left (i + 1) m1) (idt_entry w j) (omega arith)
                (λ a from to. init_gates-other left (i + 1) m1 a (omega arith) (inl (omega arith)))
              ∙ subst
                  (λ k.
                    gate_at m1 (idt_entry w k) ≡ interrupt_gate (u32 (dispatch_entry w m k)) 8 0)
                  e
                  (gate_at-gate (idt_entry w i) (dispatch_entry w m i) seg_sel 0 m (omega arith)
                    (omega arith))
          | no ne ↦
              init_gates-Gates left (i + 1) j m1 (omega arith) (omega arith) (omega arith)
              ∙ ap (λ d. interrupt_gate (u32 d) 8 0)
                  (dispatch_entry-gate i j (dispatch_entry w m i) m (omega arith) (omega arith))
        ]
