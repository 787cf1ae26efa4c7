-- ===== src/Segment/Flat.antt =====
-- `gdt_init`: the three descriptors of the flat model.
use chp_os.Base.{ℕ, ◌+◌, ◌-◌, ◌*◌, ◌^◌, ◌≤◌, ◌<◌, ◌≡◌, ◌∙◌, arith, inl, inr}
use chp_os.Machine.{Machine, ◌>>=◌, World}
use chp_os.Machine.Changes.{
  vga_end, IsApart, Changes, Changes-trans, Changes-widen, Changes-log_debug,
}
use chp_os.Tty.Bounds.{IsValid}
use chp_os.Segment.{
  SegmentDataType, data_rd, code_exrd, data_rdwr, gdt_entry, init_segment_descriptor, gdt_init,
  limit_4kb, flat_flags,
}
use chp_os.Segment.Fields.{SegmentDescriptor}
use chp_os.Segment.Stored.{
  descriptor_at, IsPlaced, descriptor-apart, init_segment_descriptor-Changes,
  init_segment_descriptor_lem,
}

-- The table, all of it, lies behind the text buffer.
abbrev pub IsTablePlaced : World → Type 0
IsTablePlaced w = (vga_end ≤ w.layout.gdt) × (w.layout.gdt + 64 ≤ 2 ^ 32)

-- The descriptors of the flat model, bit field by bit field: base 0, 0xfffff pages of 4 KB, 32-bit,
-- present, of the kernel's privilege level; executable and readable code, and writable data.
abbrev pub code_descriptor : SegmentDescriptor
code_descriptor = record {
  seg_lim_0_15 = 0xffff;
  base_addr_0_15 = 0;
  base_addr_16_23 = 0;
  type = 0xa;
  dtype = 1;
  dpl = 0;
  present = 1;
  seg_lim_16_19 = 0xf;
  avl = 0;
  l = 0;
  db = 1;
  g = 1;
  base_24_31 = 0;
}

abbrev pub data_descriptor : SegmentDescriptor
data_descriptor = record {
  seg_lim_0_15 = 0xffff;
  base_addr_0_15 = 0;
  base_addr_16_23 = 0;
  type = 0x2;
  dtype = 1;
  dpl = 0;
  present = 1;
  seg_lim_16_19 = 0xf;
  avl = 0;
  l = 0;
  db = 1;
  g = 1;
  base_24_31 = 0;
}

-- The unused entry 0.
abbrev null_descriptor : SegmentDescriptor
null_descriptor = record {
  seg_lim_0_15 = 0;
  base_addr_0_15 = 0;
  base_addr_16_23 = 0;
  type = 0;
  dtype = 0;
  dpl = 0;
  present = 0;
  seg_lim_16_19 = 0;
  avl = 0;
  l = 0;
  db = 0;
  g = 0;
  base_24_31 = 0;
}

-- The table after `gdt_init`, and what else is as before.
pub record IsTable (w : World) (s s' : Machine) : Type 0 where
  pub null : descriptor_at s'.tty.mem (gdt_entry w 0) ≡ null_descriptor
  pub code : descriptor_at s'.tty.mem (gdt_entry w 1) ≡ code_descriptor
  pub rw_data : descriptor_at s'.tty.mem (gdt_entry w 2) ≡ data_descriptor
  pub limit : s'.gdt_limit ≡ 23
  pub valid : IsValid s'.tty
  pub apart : (a : ℕ) → IsApart w.layout.gdt (w.layout.gdt + 24) a → s'.tty.mem a ≡ s.tty.mem a
  pub same_cpu : s'.cpu ≡ s.cpu
  pub same_level : s'.log_current_level ≡ s.log_current_level

module _ (w : World) (placed : IsTablePlaced w) (s : Machine) (v : IsValid s.tty) where
  abbrev gdt : ℕ
  gdt = w.layout.gdt

  abbrev step : (i limit : ℕ) → SegmentDataType → (flags : ℕ) → Machine → Machine
  step i limit type flags t = (init_segment_descriptor w (gdt_entry w i) 0 limit type flags t).1

  abbrev s1 : Machine
  s1 = step 0 0 data_rd 0 s

  abbrev s2 : Machine
  s2 = step 1 limit_4kb code_exrd flat_flags s1

  abbrev s3 : Machine
  s3 = step 2 limit_4kb data_rdwr flat_flags s2

  entry-IsPlaced : (i : ℕ) → i < 3 → IsPlaced (gdt_entry w i)
  entry-IsPlaced i h = omega arith

  one : Changes (gdt_entry w 0) (gdt_entry w 0 + 8) s s1
  one =
      init_segment_descriptor-Changes w (gdt_entry w 0) 0 0 data_rd 0
        (entry-IsPlaced 0 (omega arith)) (omega arith) s v

  two : Changes (gdt_entry w 1) (gdt_entry w 1 + 8) s1 s2
  two =
      init_segment_descriptor-Changes w (gdt_entry w 1) 0 limit_4kb code_exrd flat_flags
        (entry-IsPlaced 1 (omega arith)) (omega arith) s1 one.valid

  three : Changes (gdt_entry w 2) (gdt_entry w 2 + 8) s2 s3
  three =
      init_segment_descriptor-Changes w (gdt_entry w 2) 0 limit_4kb data_rdwr flat_flags
        (entry-IsPlaced 2 (omega arith)) (omega arith) s2 two.valid

  all_three : Changes gdt (gdt + 24) s s3
  all_three = Changes-trans (Changes-widen gdt (gdt + 24) (omega arith) (omega arith) one) λ _.
      Changes-trans (Changes-widen gdt (gdt + 24) (omega arith) (omega arith) two)
        λ _. Changes-widen gdt (gdt + 24) (omega arith) (omega arith) three

  abbrev limited : Machine
  limited = record s3 { gdt_limit = 8 * 3 - 1 }

  logged : Changes 0 0 limited (gdt_init w s).1
  unfolding gdt_init ◌>>=◌
  logged = Changes-log_debug w 0 0 _ _ {s = limited} three.valid

  -- With a valid console and the table behind the text buffer, `gdt_init` writes the null, the
  -- code and the data descriptor of the flat model, each field of them given, and the limit of the table; behind the text
  -- buffer no other memory changes, and the registers and the log level are as before.
  pub gdt_init-IsTable : IsTable w s (gdt_init w s).1
  gdt_init-IsTable = record {
    null =
        descriptor-apart logged (gdt_entry w 0) (entry-IsPlaced 0 (omega arith)) (inr (omega arith))
        ∙ (descriptor-apart three (gdt_entry w 0) (entry-IsPlaced 0 (omega arith))
              (inl (omega arith))
            ∙ (descriptor-apart two (gdt_entry w 0) (entry-IsPlaced 0 (omega arith))
                  (inl (omega arith))
                ∙ init_segment_descriptor_lem w (gdt_entry w 0) 0 0 data_rd 0
                    (entry-IsPlaced 0 (omega arith)) (omega arith) s v));
    code =
        descriptor-apart logged (gdt_entry w 1) (entry-IsPlaced 1 (omega arith)) (inr (omega arith))
        ∙ (descriptor-apart three (gdt_entry w 1) (entry-IsPlaced 1 (omega arith))
              (inl (omega arith))
            ∙ init_segment_descriptor_lem w (gdt_entry w 1) 0 limit_4kb code_exrd flat_flags
                (entry-IsPlaced 1 (omega arith)) (omega arith) s1 one.valid);
    rw_data =
        descriptor-apart logged (gdt_entry w 2) (entry-IsPlaced 2 (omega arith)) (inr (omega arith))
        ∙ init_segment_descriptor_lem w (gdt_entry w 2) 0 limit_4kb data_rdwr flat_flags
            (entry-IsPlaced 2 (omega arith)) (omega arith) s2 two.valid;
    limit = logged.same_gdt_limit;
    valid = logged.valid;
    apart = λ a h. logged.apart a (h.0, inr (omega arith)) ∙ all_three.apart a h;
    same_cpu = logged.same_cpu ∙ all_three.same_cpu;
    same_level = logged.same_level ∙ all_three.same_level;
  }
