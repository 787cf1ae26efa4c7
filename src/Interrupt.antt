-- ===== src/Interrupt.antt =====
-- kernel/src/system/interrupt.h and interrupt.c, with the routines and the stubs of asm_bits.s:
-- the interrupt descriptor table and the handlers of the user vectors.
pub mod Gates
pub mod Loops
pub mod Table
pub mod Flush
pub mod Handlers
pub mod Image
pub mod Linked
pub mod Stubs
pub mod Reload
use chp_os.Base.{
  ℕ, zero, suc, ◌+◌, ◌-◌, ◌*◌, ◌==◌, leb, ltb, if◌then◌else◌, [], ◌∷◌, Option, none, some, bit_and,
  bit_or, ◌<<<◌, ◌>>>◌, u16, ptr_add,
}
use chp_os.Memory.{Mem, store16, load16, store32, load32}
use chp_os.Machine.{M, ◌>>◌, modify, on_mem, World, printf, assert, log_debug, num}
use chp_os.Segment.{selector_index, selector_rpl, selector_ti_gdt, gdt_index_kernel_code}

abbrev pub idt_max_entries : ℕ
idt_max_entries = 255

-- `sizeof(idt_descriptor_t)`
abbrev pub sizeof_descriptor : ℕ
sizeof_descriptor = 8

abbrev pub idt_desc_present : ℕ
idt_desc_present = 1 <<< 15

abbrev pub idt_desc_type_int : ℕ
idt_desc_type_int = 0x3 <<< 9

abbrev pub idt_desc_gate_size_32 : ℕ
idt_desc_gate_size_32 = 1 <<< 11

-- `desc->flags`
unfoldable pub gate_flags : (dpl : ℕ) → ℕ
gate_flags dpl = u16 (
    bit_or (bit_or (bit_or (bit_and dpl 0x3 <<< 13) idt_desc_present) idt_desc_type_int)
      idt_desc_gate_size_32)

-- The fields of `idt_descriptor_t` are at the offsets 0, 2, 4 and 6.
unfoldable pub idt_init_interrupt_gate : (desc offset seg dpl : ℕ) → Mem → Mem
idt_init_interrupt_gate desc offset seg dpl m =
    let m1 = store16 m (ptr_add desc 4) (gate_flags dpl) in
    let m2 = store16 m1 (ptr_add desc 2) seg in
    let m3 = store16 m2 desc (bit_and offset 0xffff) in
    store16 m3 (ptr_add desc 6) (u16 (bit_and (offset >>> 16) 0xffff))

-- `seg_sel`
abbrev pub seg_sel : ℕ
seg_sel = bit_or (bit_or (selector_index gdt_index_kernel_code) (selector_rpl 0)) selector_ti_gdt

module _ (w : World) where
  -- `&idt.entries[i]`; nothing checks that `i` is an index of the array.
  abbrev pub idt_entry : ℕ → ℕ
  idt_entry i = ptr_add w.layout.idt (i * sizeof_descriptor)

  -- `isr_dispatch_table[i]`
  abbrev pub dispatch_entry : Mem → ℕ → ℕ
  dispatch_entry m i = load32 m (ptr_add w.layout.isr_dispatch_table (i * 4))

  -- `for (uint32_t i = ..; i < ..; ++i)`: both loops of `idt_init`.
  unfoldable pub init_gates : (left i : ℕ) → Mem → Mem
  init_gates zero i m = m
  init_gates (suc left) i m =
      init_gates left (i + 1)
        (idt_init_interrupt_gate (idt_entry i) (dispatch_entry m i) seg_sel 0 m)

  unfoldable pub idt_init : M (Unit {0})
  idt_init = do on_mem (init_gates 32 0); on_mem (init_gates 224 32)

  -- asm_bits.s: LIDT reads the limit and the base of `idtr`; the interrupt flag is as before.
  unfoldable pub idtr_reload : M (Unit {0})
  idtr_reload = modify λ s. record s {
    cpu = record s.cpu {
      idtr_limit = load16 s.tty.mem w.layout.idtr;
      idtr_base = load32 s.tty.mem (ptr_add w.layout.idtr 2);
    };
  }

  unfoldable pub idt_flush : M (Unit {0})
  idt_flush = do
    on_mem (λ m. store16 m w.layout.idtr (u16 (sizeof_descriptor * idt_max_entries - 1)))
    on_mem (λ m. store32 m (ptr_add w.layout.idtr 2) (idt_entry 0))
    idtr_reload
    log_debug w "[sys]: Flushed IDT\n" []

  -- `isr_user_handlers[vector]`
  abbrev pub handler_addr : ℕ → ℕ
  handler_addr vector = ptr_add w.layout.isr_user_handlers (vector * 4)

  -- `ASSERT` prints and goes on.
  unfoldable pub idt_register_handler : (vector handler : ℕ) → M (Unit {0})
  idt_register_handler vector handler = do
    assert w (leb 32 vector) "Assertion failedvector >= 32"
    on_mem (λ m. store32 m (handler_addr vector) handler)

  -- `isr_0_31`, which no stub calls.
  unfoldable pub isr_0_31 : (vector : ℕ) → M (Unit {0})
  isr_0_31 vector = printf w "received interrupt %u\n" (num vector ∷ [])

  -- asm_bits.s: the stub of vector `id` calls the handler that is set, if any. The result is the
  -- address that it calls. The vectors below 32 have another stub, which calls no handler.
  unfoldable pub isr_user_stub : (id : ℕ) → M (Option ℕ)
  isr_user_stub id s =
      let handler = load32 s.tty.mem (handler_addr id) in
      (if ltb id 32 then none else if handler == 0 then none else some handler, s)
