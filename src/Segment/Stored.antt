-- ===== src/Segment/Stored.antt =====
-- `init_segment_descriptor`: what it leaves in memory.
use chp_os.Base.{ℕ, ◌+◌, ◌^◌, ◌≤◌, ◌≡◌, ap₂, ◌∙◌, arith, inl, inr, ◌⊎◌, ptr_add}
use chp_os.Memory.{Mem, store32, load32}
use chp_os.Memory.Access.{load32-store32, load32-store32_other}
use chp_os.Machine.{Machine, ◌>>=◌, World, on_mem}
use chp_os.Machine.Changes.{
  vga_end, Changes, Changes-trans, Changes-widen, Changes-log_debug, Changes-store32, load32-apart,
}
use chp_os.Tty.Bounds.{IsValid}
use chp_os.Segment.{SegmentDataType, data_type_code, high_part, low_part, init_segment_descriptor}
use chp_os.Segment.Fields.{SegmentDescriptor, unpack, descriptor, IsFlags}
use chp_os.Segment.Words.{low_part-lt, high_part-lt, unpack_parts}

-- The descriptor in memory.
abbrev pub descriptor_at : Mem → ℕ → SegmentDescriptor
descriptor_at m desc = unpack (load32 m desc) (load32 m (ptr_add desc 4))

-- The eight bytes are behind the text buffer and below the end of the address space.
abbrev pub IsPlaced : (desc : ℕ) → Type 0
IsPlaced desc = (vga_end ≤ desc) × (desc + 8 ≤ 2 ^ 32)

pub descriptor-apart :
    {lo hi : ℕ} {s s' : Machine}
    → Changes lo hi s s'
    → (desc : ℕ) → IsPlaced desc
    → (desc + 8 ≤ lo) ⊎ (hi ≤ desc)
    → descriptor_at s'.tty.mem desc ≡ descriptor_at s.tty.mem desc
descriptor-apart {lo} {hi} c desc placed out =
    ap₂ unpack (load32-apart c desc (omega arith) (go out))
      (load32-apart c (ptr_add desc 4) (omega arith) (shifted out))
  where
    go : (desc + 8 ≤ lo) ⊎ (hi ≤ desc) → (desc + 4 ≤ lo) ⊎ (hi ≤ desc)
    go (inl h) = inl (omega arith)
    go (inr h) = inr h

    shifted : (desc + 8 ≤ lo) ⊎ (hi ≤ desc) → (ptr_add desc 4 + 4 ≤ lo) ⊎ (hi ≤ ptr_add desc 4)
    shifted (inl h) = inl (omega arith)
    shifted (inr h) = inr (omega arith)

module _ (w : World) (desc base limit : ℕ) (type : SegmentDataType) (flags : ℕ)
    (placed : IsPlaced desc) (fl : IsFlags flags) (s : Machine) (v : IsValid s.tty) where
  abbrev high_stored : Machine
  high_stored = (on_mem (λ m. store32 m (ptr_add desc 4) (high_part base limit type flags)) s).1

  abbrev both_stored : Machine
  both_stored = (on_mem (λ m. store32 m desc (low_part base limit)) high_stored).1

  stored-Changes : Changes desc (desc + 8) s both_stored
  stored-Changes =
      Changes-trans
        (Changes-widen desc (desc + 8) (omega arith) (omega arith)
          (Changes-store32 v (ptr_add desc 4) (high_part base limit type flags)))
        λ v1.
          Changes-widen desc (desc + 8) (omega arith) (omega arith)
            (Changes-store32 v1 desc (low_part base limit))

  pub stored-words :
      (load32 both_stored.tty.mem desc ≡ low_part base limit)
      × (load32 both_stored.tty.mem (ptr_add desc 4) ≡ high_part base limit type flags)
  stored-words = (
    load32-store32 high_stored.tty.mem desc (low_part base limit)
        (low_part-lt base limit type flags fl),
    load32-store32_other high_stored.tty.mem desc (low_part base limit) (ptr_add desc 4)
          (inr (omega arith))
        ∙ load32-store32 s.tty.mem (ptr_add desc 4) (high_part base limit type flags)
            (high_part-lt base limit type flags fl),
  )

  -- No other memory behind the text buffer changes.
  pub init_segment_descriptor-Changes :
      Changes desc (desc + 8) s (init_segment_descriptor w desc base limit type flags s).1
  unfolding init_segment_descriptor ◌>>=◌
  init_segment_descriptor-Changes =
      Changes-trans stored-Changes (Changes-log_debug w desc (desc + 8) _ _)

  logged-words :
      let m = (init_segment_descriptor w desc base limit type flags s).1.tty.mem in
      (load32 m desc ≡ low_part base limit)
      × (load32 m (ptr_add desc 4) ≡ high_part base limit type flags)
  unfolding init_segment_descriptor ◌>>=◌
  logged-words =
      let printed = Changes-log_debug w 0 0 _ _ stored-Changes.valid in
      (
        load32-apart printed desc (omega arith) (inr (omega arith)) ∙ stored-words.0,
        load32-apart printed (ptr_add desc 4) (omega arith) (inr (omega arith)) ∙ stored-words.1,
      )

  -- For flags that the macros can set, an address behind the text buffer and a valid console,
  -- the eight bytes that `init_segment_descriptor` leaves in memory decode to the descriptor
  -- with the base, the limit, the type and the flags that it was asked for.
  pub init_segment_descriptor_lem :
      descriptor_at (init_segment_descriptor w desc base limit type flags s).1.tty.mem desc
      ≡ descriptor base limit (data_type_code type) flags
  init_segment_descriptor_lem =
      ap₂ unpack logged-words.0 logged-words.1 ∙ unpack_parts base limit type flags fl
