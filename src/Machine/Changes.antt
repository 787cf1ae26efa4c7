-- ===== src/Machine/Changes.antt =====
-- Code that prints and writes to one region of memory.
use chp_os.Base.{
  ℕ, ◌+◌, ◌≤◌, ◌<◌, ◌≡◌, refl, ◌∙◌, ◌⊎◌, inl, inr, arith, List, String, leb, true, false,
  if◌then◌else◌,
}
use chp_os.Memory.{Mem, store16, load16, store32, load32}
use chp_os.Memory.Access.{store16-other, store32-other}
use chp_os.Machine.{
  Machine, ◌>>=◌, skip, World, Arg, debug, level, printf, log_debug, log_get_current_level, on_mem,
}
use chp_os.Tty.Bounds.{IsValid}
use chp_os.Tty.Pictures.{Draws-put_all}

-- The end of the text buffer.
abbrev pub vga_end : ℕ
vga_end = 0xb8fa0

-- The address is outside the region from `lo` up to `hi`, and behind the text buffer.
abbrev pub IsApart : (lo hi a : ℕ) → Type 0
IsApart lo hi a = (vga_end ≤ a) × ((a < lo) ⊎ (hi ≤ a))

-- From `s` to `s'` the console has printed and the memory from `lo` up to `hi` may have changed.
pub record Changes (lo hi : ℕ) (s s' : Machine) : Type 0 where
  pub valid : IsValid s'.tty
  pub apart : (a : ℕ) → IsApart lo hi a → s'.tty.mem a ≡ s.tty.mem a
  pub same_cpu : s'.cpu ≡ s.cpu
  pub same_level : s'.log_current_level ≡ s.log_current_level
  pub same_gdt_limit : s'.gdt_limit ≡ s.gdt_limit

pub Changes-refl : (lo hi : ℕ) {s : Machine} → IsValid s.tty → Changes lo hi s s
Changes-refl lo hi v = record {
  valid = v;
  apart = λ a h. refl;
  same_cpu = refl;
  same_level = refl;
  same_gdt_limit = refl;
}

pub Changes-trans :
    {lo hi : ℕ} {s t u : Machine}
    → Changes lo hi s t
    → (IsValid t.tty → Changes lo hi t u)
    → Changes lo hi s u
Changes-trans c next =
    let d = next c.valid in
    record {
      valid = d.valid;
      apart = λ a h. d.apart a h ∙ c.apart a h;
      same_cpu = d.same_cpu ∙ c.same_cpu;
      same_level = d.same_level ∙ c.same_level;
      same_gdt_limit = d.same_gdt_limit ∙ c.same_gdt_limit;
    }

pub Changes-widen :
    {lo hi : ℕ} (lo' hi' : ℕ) {s s' : Machine}
    → lo' ≤ lo
    → hi ≤ hi'
    → Changes lo hi s s'
    → Changes lo' hi' s s'
Changes-widen {lo} {hi} lo' hi' l h c = record {
  valid = c.valid;
  apart = λ a (behind, out). c.apart a (behind, go a out);
  same_cpu = c.same_cpu;
  same_level = c.same_level;
  same_gdt_limit = c.same_gdt_limit;
}
  where
    go : (a : ℕ) → (a < lo') ⊎ (hi' ≤ a) → (a < lo) ⊎ (hi ≤ a)
    go a (inl b) = inl (omega arith)
    go a (inr b) = inr (omega arith)

module _ (w : World) (lo hi : ℕ) where
  pub Changes-printf :
      (fmt : String) (args : List Arg) {s : Machine}
      → IsValid s.tty
      → Changes lo hi s (printf w fmt args s).1
  unfolding printf
  Changes-printf fmt args v =
      let d = Draws-put_all (w.render fmt args) v in
      record {
        valid = d.valid;
        apart = λ a h. d.outside a (inr h.0);
        same_cpu = refl;
        same_level = refl;
        same_gdt_limit = refl;
      }

  pub Changes-log_debug :
      (fmt : String) (args : List Arg) {s : Machine}
      → IsValid s.tty
      → Changes lo hi s (log_debug w fmt args s).1
  unfolding log_debug log_get_current_level ◌>>=◌
  Changes-log_debug fmt args {s} v =
      elim (leb (level debug) (level s.log_current_level))
        as (λ b. Changes lo hi s ((if b then printf w fmt args else skip) s).1) [
          | true ↦ Changes-printf fmt args v
          | false ↦ Changes-refl lo hi v
        ]

module _ {s : Machine} (valid : IsValid s.tty) where
  pub Changes-mem :
      (lo hi : ℕ) (f : Mem → Mem)
      → ((a : ℕ) → IsApart lo hi a → f s.tty.mem a ≡ s.tty.mem a)
      → Changes lo hi s (on_mem f s).1
  Changes-mem lo hi f apart = record {
    valid = record { col_in = valid.col_in; row_in = valid.row_in; color_in = valid.color_in };
    apart = apart;
    same_cpu = refl;
    same_level = refl;
    same_gdt_limit = refl;
  }

  pub Changes-store32 : (a v : ℕ) → Changes a (a + 4) s (on_mem (λ m. store32 m a v) s).1
  Changes-store32 a v =
      Changes-mem a (a + 4) (λ m. store32 m a v) λ b h. store32-other s.tty.mem a v b h.1

  pub Changes-store16 : (a v : ℕ) → Changes a (a + 2) s (on_mem (λ m. store16 m a v) s).1
  Changes-store16 a v =
      Changes-mem a (a + 2) (λ m. store16 m a v) λ b h. store16-other s.tty.mem a v b h.1

module _ {lo hi : ℕ} {s s' : Machine} (c : Changes lo hi s s') where
  pub load32-apart :
      (a : ℕ) → vga_end ≤ a → (a + 4 ≤ lo) ⊎ (hi ≤ a) → load32 s'.tty.mem a ≡ load32 s.tty.mem a
  unfolding load32
  load32-apart a behind out =
      ground (arith, c.apart a, c.apart (a + 1), c.apart (a + 2), c.apart (a + 2 + 1))

  pub load16-apart :
      (a : ℕ) → vga_end ≤ a → (a + 2 ≤ lo) ⊎ (hi ≤ a) → load16 s'.tty.mem a ≡ load16 s.tty.mem a
  unfolding load16
  load16-apart a behind out = ground (arith, c.apart a, c.apart (a + 1))
