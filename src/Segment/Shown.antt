-- ===== src/Segment/Shown.antt =====
-- What `gdt_init` and `gdt_flush` print.
use chp_os.Base.{ℕ, ap₂, subst, arith, List, [], ◌∷◌, inl, ptr_add, u16}
use chp_os.Memory.{store16, store32}
use chp_os.Memory.Access.{store16-other, store32-other}
use chp_os.Machine.{Machine, ◌>>=◌, World, num}
use chp_os.Machine.Displays.{RendersBytes, Displays, Displays-log_debug, Displays-mem, typed}
use chp_os.Tty.Screen
use chp_os.Tty.Screen.{Screen}
use chp_os.Segment.{
  SegmentDataType, data_rd, code_exrd, data_rdwr, high_part, low_part, gdt_entry, limit_4kb,
  flat_flags, init_segment_descriptor, gdt_init, segment_set_gdtr_asm_prot, segment_reload_segments,
  gdt_flush,
}
use chp_os.Segment.Fields.{IsFlags}
use chp_os.Segment.Stored.{IsPlaced, stored-words}
use chp_os.Segment.Flat.{IsTablePlaced}
use chp_os.Segment.Reach.{IsOperandPlaced}

module _ (w : World) where
  -- The line on a descriptor: its high word and its low word.
  abbrev pub descriptor_line : (high low : ℕ) → List ℕ
  descriptor_line high low =
      w.render "[sys]: init seg desc as [%08x %08x]\n" (num high ∷ num low ∷ [])

  -- The lines of `gdt_init`, with the words of the null, the code and the data descriptor.
  abbrev pub init_lines : List (List ℕ)
  init_lines =
      descriptor_line 0 0
      ∷ descriptor_line 0x00cf9a00 0x0000ffff
      ∷ descriptor_line 0x00cf9200 0x0000ffff
      ∷ w.render "[sys]: Init GDT done (basic flat model)\n" []
      ∷ []

  -- The line of `gdt_flush`.
  abbrev pub flush_line : List ℕ
  flush_line = w.render "[sys]: Flushed GDT, reloaded segment regs\n" []

module _ (w : World) (bytes : RendersBytes w) {color : ℕ} where
  descriptor-Displays :
      (desc base limit : ℕ) (type : SegmentDataType) (flags : ℕ)
      → IsPlaced desc
      → IsFlags flags
      → {s : Machine} {screen : Screen} → Displays color s screen
      → Displays color (init_segment_descriptor w desc base limit type flags s).1 (
          Screen.puts color
            (descriptor_line w (high_part base limit type flags) (low_part base limit))
            screen)
  unfolding init_segment_descriptor ◌>>=◌
  descriptor-Displays desc base limit type flags placed fl {s} {screen} d =
      let high = high_part base limit type flags in
      let low = low_part base limit in
      let one =
        Displays-mem d (λ m. store32 m (ptr_add desc 4) high)
          λ a h. store32-other _ (ptr_add desc 4) high a (inl (omega arith)) in
      let both =
        Displays-mem one (λ m. store32 m desc low)
          λ a h. store32-other _ desc low a (inl (omega arith)) in
      let (low_stored, high_stored) =
        stored-words w desc base limit type flags placed fl s d.simulates.valid in
      let after = (init_segment_descriptor w desc base limit type flags s).1 in
      subst (λ line. Displays color after (Screen.puts color line screen))
        (ap₂ (descriptor_line w) high_stored low_stored) (Displays-log_debug both w bytes _ _)

  module _ (table : IsTablePlaced w) {s : Machine} {screen : Screen}
      (d : Displays color s screen) where
    gdt_init-Displays : Displays color (gdt_init w s).1 (typed color (init_lines w) screen)
    unfolding gdt_init high_part low_part ◌>>=◌
    gdt_init-Displays =
        let null =
          descriptor-Displays (gdt_entry w 0) 0 0 data_rd 0 (omega arith) (omega arith) d in
        let code =
          descriptor-Displays (gdt_entry w 1) 0 limit_4kb code_exrd flat_flags (omega arith)
            (omega arith) null in
        let rw_data =
          descriptor-Displays (gdt_entry w 2) 0 limit_4kb data_rdwr flat_flags (omega arith)
            (omega arith) code in
        Displays-log_debug (record { simulates = rw_data.simulates; logs = rw_data.logs }) w bytes _
          _

  gdt_flush-Displays :
      IsOperandPlaced w
      → {s : Machine} {screen : Screen} → Displays color s screen
      → Displays color (gdt_flush w s).1 (Screen.puts color (flush_line w) screen)
  unfolding gdt_flush segment_set_gdtr_asm_prot segment_reload_segments ◌>>=◌
  gdt_flush-Displays operand {s} d =
      let base = ptr_add w.layout.gdtr_limit 2 in
      let based =
        Displays-mem d (λ m. store32 m base w.layout.gdt)
          λ a h. store32-other _ base w.layout.gdt a (inl (omega (arith, operand))) in
      let limited =
        Displays-mem based (λ m. store16 m w.layout.gdtr_limit (u16 s.gdt_limit))
          λ a h.
            store16-other _ w.layout.gdtr_limit (u16 s.gdt_limit) a
              (inl (omega (arith, operand))) in
      Displays-log_debug (record { simulates = limited.simulates; logs = limited.logs }) w bytes _ _

  -- The two steps on the segments print these five lines.
  pub gdt-Displays :
      IsTablePlaced w
      → IsOperandPlaced w
      → {s : Machine} {screen : Screen} → Displays color s screen
      → Displays color
          (gdt_flush w (gdt_init w s).1).1
          (Screen.puts color (flush_line w) (typed color (init_lines w) screen))
  gdt-Displays table operand d = gdt_flush-Displays operand (gdt_init-Displays table d)
