-- ===== src/Kernel/Listing.antt =====
-- What the listing of the boot information in kernel/src/kernel.c prints.
use chp_os.Base.{◌<◌, ptr_add}
use chp_os.Memory.{load16, load32}
use chp_os.Base.{ℕ, ◌+◌, ◌^◌, ◌≤◌, ◌≡◌, refl, ap, ap₂, sym, ◌∙◌, arith, List, [], ◌∷◌, ◌++◌, inr}
use chp_os.Memory.{Mem}
use chp_os.Memory.Access.{load16-same, load32-same}
use chp_os.Machine.{Machine, World, num, printf, ◌>>=◌}
use chp_os.Machine.Changes.{vga_end, Changes-printf}
use chp_os.Tty.Bounds.{IsValid}
use chp_os.Tty.Tables.{put_all}
use chp_os.Tty.Output.{put_all-++}
use chp_os.Kernel.Start.{
  Width, byte, half, word, double, Field, get_field, printed_fields, print_fields,
  print_multiboot_info,
}

-- The bytes that a field takes.
abbrev size : Width → ℕ
size byte = 1
size half = 2
size word = 4
size double = 8

-- The bytes of a structure up to offset `bytes`.
abbrev info_bytes : ℕ
info_bytes = 118

abbrev AreInside : List Field → Type 0
AreInside [] = Unit
AreInside (f ∷ fs) = (f.offset + size f.width ≤ info_bytes) × AreInside fs

module _ (mb_info : ℕ) (fits : mb_info + info_bytes ≤ 2 ^ 32) (m m' : Mem)
    (same : (a : ℕ) → mb_info ≤ a → m' a ≡ m a) where
  get_field-same :
      (offset : ℕ) (width : Width)
      → offset + size width ≤ info_bytes
      → get_field mb_info offset width m' ≡ get_field mb_info offset width m
  unfolding get_field
  get_field-same offset byte h = ap (λ v. num v ∷ []) (same _ (omega arith))
  get_field-same offset half h =
      ap (λ v. num v ∷ []) (load16-same m m' _ (same _ (omega arith)) (same _ (omega arith)))
  get_field-same offset word h =
      ap (λ v. num v ∷ []) (load32-same m m' _ λ a from to. same a (omega arith))
  get_field-same offset double h =
      ap₂ (λ low high. num low ∷ num high ∷ [])
        (load32-same m m' _ λ a from to. same a (omega arith))
        (load32-same m m' _ λ a from to. same a (omega arith))

-- Some texts one after the other.
abbrev joined : List (List ℕ) → List ℕ
joined [] = []
joined (text ∷ texts) = text ++ joined texts

module _ (w : World) (mb_info : ℕ) where
  -- The text of the fields of a structure in memory `m`.
  abbrev field_lines : List Field → Mem → List ℕ
  field_lines [] m = []
  field_lines (f ∷ fs) m = w.render f.fmt (get_field mb_info f.offset f.width m) ++ field_lines fs m

  -- The listing by the layout of `multiboot_info_t`: the title, then for each of the eleven fields a
  -- line with its name and what the structure holds at its place, a `uint64_t` in two words.
  abbrev pub listing : Mem → List ℕ
  listing m = joined (
      w.render "multiboot info:\n" []
      ∷ w.render "vbe_mode: 0x%x\n" (num (load16 m (mb_info + 80)) ∷ [])
      ∷ w.render "vbe_control_info: 0x%x\n" (num (load32 m (mb_info + 72)) ∷ [])
      ∷ w.render "vbe_mode_info: 0x%x\n" (num (load32 m (mb_info + 76)) ∷ [])
      ∷ w.render "framebuffer_addr: 0x%x\n"
          (num (load32 m (mb_info + 88)) ∷ num (load32 m (mb_info + 92)) ∷ [])
      ∷ w.render "framebuffer_type: 0x%x\n" (num (m (mb_info + 109)) ∷ [])
      ∷ w.render "framebuffer_bpp: 0x%x\n" (num (m (mb_info + 108)) ∷ [])
      ∷ w.render "framebuffer_width: 0x%x\n" (num (load32 m (mb_info + 100)) ∷ [])
      ∷ w.render "framebuffer_height: 0x%x\n" (num (load32 m (mb_info + 104)) ∷ [])
      ∷ w.render "framebuffer_pitch: 0x%x\n" (num (load32 m (mb_info + 96)) ∷ [])
      ∷ w.render "framebuffer_palette_addr: 0x%x\n" (num (load32 m (mb_info + 112)) ∷ [])
      ∷ w.render "framebuffer_palette_num_colors: 0x%x\n" (num (load16 m (mb_info + 116)) ∷ [])
      ∷ [])

  module _ (behind : vga_end ≤ mb_info) (fits : mb_info + info_bytes ≤ 2 ^ 32) where
    print_fields-lines :
        (fs : List Field) (m : Mem) (s : Machine)
        → AreInside fs
        → IsValid s.tty
        → ((a : ℕ) → mb_info ≤ a → s.tty.mem a ≡ m a)
        → (print_fields w mb_info fs s).1.tty ≡ put_all (field_lines fs m) s.tty
    unfolding print_fields printf ◌>>=◌
    print_fields-lines [] m s inside v same = unfold put_all in refl
    print_fields-lines (f ∷ fs) m s (here, rest) v same =
        let args = get_field mb_info f.offset f.width s.tty.mem in
        let c = Changes-printf w 0 0 f.fmt args {s = s} v in
        let read = get_field-same mb_info fits m s.tty.mem same f.offset f.width here in
        print_fields-lines fs m _ rest c.valid
          (λ a h. c.apart a (omega (arith, behind), inr (omega arith)) ∙ same a h)
        ∙ sym (put_all-++ (w.render f.fmt args) (field_lines fs m) s.tty)
        ∙ ap (λ v. put_all (w.render f.fmt v ++ field_lines fs m) s.tty) read

    -- The fields of the code are those of the layout.
    listing-fields :
        (m : Mem) → w.render "multiboot info:\n" [] ++ field_lines printed_fields m ≡ listing m
    unfolding get_field
    listing-fields m =
        let at : (k : ℕ) → k < info_bytes → ptr_add mb_info k ≡ mb_info + k = λ k h. omega arith in
        rw
          (
            at 80 (omega arith),
            at 72 (omega arith),
            at 76 (omega arith),
            at 88 (omega arith),
            at 92 (omega arith),
            at 109 (omega arith),
            at 108 (omega arith),
            at 100 (omega arith),
            at 104 (omega arith),
            at 96 (omega arith),
            at 112 (omega arith),
            at 116 (omega arith),
          )
          refl

    -- Where the console is valid and the structure lies behind the text buffer and below 2^32,
    -- `print_multiboot_info` prints the title and then, line by line, the name of each of the eleven
    -- fields and what the structure held there at the call: its own output does not change what it
    -- prints.
    pub print_multiboot_info-listing :
        (s : Machine)
        → IsValid s.tty
        → (print_multiboot_info w mb_info s).1.tty ≡ put_all (listing s.tty.mem) s.tty
    unfolding print_multiboot_info printf ◌>>=◌
    print_multiboot_info-listing s v =
        let c = Changes-printf w 0 0 "multiboot info:\n" [] {s = s} v in
        print_fields-lines printed_fields s.tty.mem _ inside c.valid
          (λ a h. c.apart a (omega (arith, behind), inr (omega arith)))
        ∙ sym (
            put_all-++ (w.render "multiboot info:\n" []) (field_lines printed_fields s.tty.mem)
              s.tty)
        ∙ ap (λ l. put_all l s.tty) (listing-fields s.tty.mem)
      where
        inside : AreInside printed_fields
        inside = ground arith
