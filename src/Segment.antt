-- ===== src/Segment.antt =====
-- kernel/src/system/segment.h and segment.c, with the two routines of asm_bits.s that they call:
-- the global descriptor table.
pub mod Fields
pub mod Words
pub mod Stored
pub mod Flags
pub mod Flat
pub mod Translate
pub mod Load
pub mod Loaded
pub mod Reach
pub mod Shown
pub mod Gdtr
pub mod Reload
use chp_os.Base.{ℕ, ◌-◌, ◌*◌, [], ◌∷◌, bit_and, bit_or, ◌<<<◌, ◌>>>◌, u16, u32, ptr_add}
use chp_os.Memory.{store16, load16, store32, load32}
use chp_os.Machine.{M, ◌>>=◌, ◌>>◌, get_state, modify, on_mem, on_cpu, World, log_debug, num}

-- `SEGMENT_DESCR_ENCODE_FLAG`
abbrev pub encode_flag : (v offset : ℕ) → ℕ
encode_flag v offset = u32 (bit_and v 0x1 <<< offset)

abbrev pub descr_gran : ℕ → ℕ
descr_gran v = encode_flag v 23

abbrev pub descr_size : ℕ → ℕ
descr_size v = encode_flag v 22

abbrev pub descr_64bi : ℕ → ℕ
descr_64bi v = encode_flag v 21

abbrev pub descr_avai : ℕ → ℕ
descr_avai v = encode_flag v 20

abbrev pub descr_pres : ℕ → ℕ
descr_pres v = encode_flag v 15

abbrev pub descr_priv : ℕ → ℕ
descr_priv t = u32 (bit_and t 0x3 <<< 13)

abbrev pub descr_dtyp : ℕ → ℕ
descr_dtyp v = encode_flag v 12

-- `SEGMENT_SELECTOR_INDEX`, `SEGMENT_SELECTOR_RPL`, `SEGMENT_SELECTOR_TI_GDT`
abbrev pub selector_index : ℕ → ℕ
selector_index i = i <<< 3

abbrev pub selector_rpl : ℕ → ℕ
selector_rpl rpl = bit_and rpl 0x3

abbrev pub selector_ti_gdt : ℕ
selector_ti_gdt = 0

abbrev pub gdt_index_kernel_code : ℕ
gdt_index_kernel_code = 1

abbrev pub gdt_index_kernel_data : ℕ
gdt_index_kernel_data = 2

-- `enum segment_data_type`
pub data SegmentDataType : Type 0 where
  data_rd data_rda data_rdwr data_rdwra data_rdexpd data_rdexpda : SegmentDataType
  data_rdwrexpd data_rdwrexpda code_ex code_exa code_exrd code_exrda : SegmentDataType
  code_exc code_exca code_exrdc code_exrdca : SegmentDataType

abbrev pub data_type_code : SegmentDataType → ℕ
data_type_code data_rd = 0x00
data_type_code data_rda = 0x01
data_type_code data_rdwr = 0x02
data_type_code data_rdwra = 0x03
data_type_code data_rdexpd = 0x04
data_type_code data_rdexpda = 0x05
data_type_code data_rdwrexpd = 0x06
data_type_code data_rdwrexpda = 0x07
data_type_code code_ex = 0x08
data_type_code code_exa = 0x09
data_type_code code_exrd = 0x0a
data_type_code code_exrda = 0x0b
data_type_code code_exc = 0x0c
data_type_code code_exca = 0x0d
data_type_code code_exrdc = 0x0e
data_type_code code_exrdca = 0x0f

-- `enum segment_sys_gate_type`
pub data SegmentSysGateType : Type 0 where
  tss_avail_16 ldt tss_busy_16 gate_call_16 gate_task gate_int_16 : SegmentSysGateType
  gate_trap_16 tss_avail_32 tss_busy_32 gate_call_32 gate_int_32 gate_trap_32 : SegmentSysGateType

abbrev pub sys_gate_code : SegmentSysGateType → ℕ
sys_gate_code tss_avail_16 = 1
sys_gate_code ldt = 2
sys_gate_code tss_busy_16 = 3
sys_gate_code gate_call_16 = 4
sys_gate_code gate_task = 5
sys_gate_code gate_int_16 = 6
sys_gate_code gate_trap_16 = 7
sys_gate_code tss_avail_32 = 9
sys_gate_code tss_busy_32 = 11
sys_gate_code gate_call_32 = 12
sys_gate_code gate_int_32 = 14
sys_gate_code gate_trap_32 = 15

-- `high_part` of `init_segment_descriptor`
unfoldable pub high_part : (base limit : ℕ) → SegmentDataType → (flags : ℕ) → ℕ
high_part base limit type flags =
    let h0 = bit_and 0xff000000 base in
    let h1 = bit_or h0 (bit_and 0x00ff0000 base >>> 16) in
    let h2 = bit_or h1 flags in
    let h3 = bit_or h2 (bit_and 0x000f0000 limit) in
    bit_or h3 (bit_and 0x00000f00 (u32 (data_type_code type <<< 8)))

-- `low_part` of `init_segment_descriptor`
unfoldable pub low_part : (base limit : ℕ) → ℕ
low_part base limit =
    let l0 = bit_and limit 0x0000ffff in bit_or l0 (bit_and 0xffff0000 (u32 (base <<< 16)))

-- The address of `gdt.descriptors[i]`.
abbrev pub gdt_entry : World → ℕ → ℕ
gdt_entry w i = ptr_add w.layout.gdt (i * 8)

-- The limit and the flags of the two flat segments.
abbrev pub limit_4kb : ℕ
limit_4kb = 0xfffff

abbrev pub flat_flags : ℕ
flat_flags = bit_or (bit_or (bit_or (descr_size 1) (descr_pres 1)) (descr_dtyp 1)) (descr_gran 1)

module _ (w : World) where
  unfoldable pub init_segment_descriptor :
      (desc base limit : ℕ) → SegmentDataType → (flags : ℕ) → M (Unit {0})
  init_segment_descriptor desc base limit type flags = do
    on_mem (λ m. store32 m (ptr_add desc 4) (high_part base limit type flags))
    on_mem (λ m. store32 m desc (low_part base limit))
    s ← get_state
    log_debug w "[sys]: init seg desc as [%08x %08x]\n"
        (num (load32 s.tty.mem (ptr_add desc 4)) ∷ num (load32 s.tty.mem desc) ∷ [])

  -- asm_bits.s: the operand of LGDT is the 16-bit limit and, right after it, the 32-bit base.
  unfoldable pub segment_set_gdtr_asm_prot : (base limit : ℕ) → M (Unit {0})
  segment_set_gdtr_asm_prot base limit = do
    on_mem (λ m. store32 m (ptr_add w.layout.gdtr_limit 2) base)
    on_mem (λ m. store16 m w.layout.gdtr_limit (u16 limit))
    modify λ s. record s {
      cpu = record s.cpu {
        gdtr_limit = load16 s.tty.mem w.layout.gdtr_limit;
        gdtr_base = load32 s.tty.mem (ptr_add w.layout.gdtr_limit 2);
      };
    }

  -- asm_bits.s: the far jump loads CS, the moves load the others.
  unfoldable pub segment_reload_segments : M (Unit {0})
  segment_reload_segments =
      on_cpu λ c. record c { cs = 0x08; ss = 0x10; ds = 0x10; es = 0x10; fs = 0x10; gs = 0x10 }

  unfoldable pub gdt_flush : M (Unit {0})
  gdt_flush s0 =
      (do
        segment_set_gdtr_asm_prot w.layout.gdt s0.gdt_limit
        segment_reload_segments
        log_debug w "[sys]: Flushed GDT, reloaded segment regs\n" [])
        s0

  unfoldable pub gdt_init : M (Unit {0})
  gdt_init = do
    init_segment_descriptor (gdt_entry w 0) 0 0 data_rd 0
    init_segment_descriptor (gdt_entry w gdt_index_kernel_code) 0 limit_4kb code_exrd flat_flags
    init_segment_descriptor (gdt_entry w gdt_index_kernel_data) 0 limit_4kb data_rdwr flat_flags
    modify (λ s. record s { gdt_limit = 8 * 3 - 1 })
    log_debug w "[sys]: Init GDT done (basic flat model)\n" []
