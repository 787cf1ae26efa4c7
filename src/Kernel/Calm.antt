-- ===== src/Kernel/Calm.antt =====
-- What comes before the interrupts in `kernel_main` leaves the tables of routines alone.
use chp_os.Base.{
  ℕ, ◌+◌, ◌^◌, ◌≤◌, ◌<◌, ◌≡◌, refl, ap, sym, ◌∙◌, ◌⊎◌, inr, arith, ptr_add, List, [], ◌∷◌, subst,
  String,
}
use chp_os.Memory.{Mem}
use chp_os.Libc.{memcpy, memmove, memset}
use chp_os.Libc.Move.{moved, memmove-moved}
use chp_os.Libc.Fill.{filled, memset-filled}
use chp_os.Machine.{Machine, World, Arg, printf}
use chp_os.Machine.Changes.{vga_end, Changes-printf}
use chp_os.Tty.Bounds.{IsValid}
use chp_os.Segment.{gdt_init, gdt_flush}
use chp_os.Segment.Flat.{IsTablePlaced, gdt_init-IsTable}
use chp_os.Segment.Load.{gdt_flush_elsewhere}
use chp_os.Segment.Reach.{IsOperandPlaced}
use chp_os.Interrupt.Table.{IsDisjoint}
use chp_os.Kernel.{memcpy_test, Testcase, testcases, memmove_test, test_memcpy, test_memmove}
use chp_os.Kernel.SelfTests.{
  init_data_array-other, AreInArray, after_rounds, test_memcpy-okay, test_memmove-okay,
}

-- The address is not in the region.
abbrev pub IsOutside : (lo n a : ℕ) → Type 0
IsOutside lo n a = (a < lo) ⊎ (lo + n ≤ a)

pub memset-other :
    (dst c n : ℕ) (m : Mem) (a : ℕ)
    → dst + n ≤ 2 ^ 32
    → IsOutside dst n a
    → memset dst c n m a ≡ m a
memset-other dst c n m a h out =
    ap (λ (f : Mem). f a) (memset-filled dst c n m h) ∙ unfold filled in ground arith

memmove-other :
    (dst src n : ℕ) (m : Mem) (a : ℕ)
    → n ≤ 2 ^ 31
    → dst + n < 2 ^ 32
    → src + n < 2 ^ 32
    → IsOutside dst n a
    → memmove dst src n m a ≡ m a
memmove-other dst src n m a hn hd hs out =
    ap (λ (f : Mem). f a) (memmove-moved dst src n m hn hd hs) ∙ unfold moved in ground arith

pub memcpy_test-other :
    (src dst : ℕ) (m : Mem) (a : ℕ)
    → src + 256 < 2 ^ 32
    → dst + 256 < 2 ^ 32
    → IsOutside src 256 a
    → IsOutside dst 256 a
    → (memcpy_test src dst m).1 a ≡ m a
unfolding memcpy_test memcpy
memcpy_test-other src dst m a hs hd os od =
    memmove-other src dst 256 _ a (omega arith) (omega arith) (omega arith) os
    ∙ memmove-other dst src 256 _ a (omega arith) (omega arith) (omega arith) od
    ∙ init_data_array-other src 256 0 _ a (omega arith) (ground arith)
    ∙ memset-other dst 0 256 _ a (omega arith) od
    ∙ memset-other src 0 256 m a (omega arith) os

memmove_test-other :
    (array : ℕ) (t : Testcase) (m : Mem) (a : ℕ)
    → array + 256 < 2 ^ 32
    → t.from + t.n ≤ 256
    → t.to + t.n ≤ 256
    → IsOutside array 256 a
    → (memmove_test array t m).1 a ≡ m a
unfolding memmove_test
memmove_test-other array t m a h hf ht out =
    memmove-other (ptr_add array t.to) (ptr_add array t.from) t.n _ a (omega arith) (omega arith)
      (omega arith) (ground arith)
    ∙ init_data_array-other array 256 0 m a (omega arith) (ground arith)

pub after_rounds-other :
    (array : ℕ) (ts : List Testcase) (m : Mem) (a : ℕ)
    → array + 256 < 2 ^ 32
    → AreInArray ts
    → IsOutside array 256 a
    → after_rounds array ts m a ≡ m a
after_rounds-other array [] m a h inside out = refl
after_rounds-other array (t ∷ ts) m a h (hf, ht, inside) out =
    after_rounds-other array ts _ a h inside out ∙ memmove_test-other array t m a h hf ht out

-- The arrays of the self tests, on the stack.
pub record AreArrays (src_array dst_array array : ℕ) : Type 0 where
  pub src_in : src_array + 256 < 2 ^ 32
  pub dst_in : dst_array + 256 < 2 ^ 32
  pub array_in : array + 256 < 2 ^ 32
  pub apart : IsDisjoint dst_array 256 src_array 256

-- The address is not in memory that the code before the interrupts writes.
abbrev pub IsClear : World → (src_array dst_array array : ℕ) → ℕ → Type 0
IsClear w src dst array a =
    (vga_end ≤ a)
    × IsOutside src 256 a
    × IsOutside dst 256 a
    × IsOutside array 256 a
    × IsOutside w.layout.gdt 24 a
    × IsOutside w.layout.gdtr_limit 6 a

module _ (w : World) (src dst array : ℕ) (arrays : AreArrays src dst array) (s : Machine) where
  -- A valid console, and memory at these addresses as in `s`.
  pub record IsCalm (t : Machine) : Type 0 where
    pub valid : IsValid t.tty
    pub same : (a : ℕ) → IsClear w src dst array a → t.tty.mem a ≡ s.tty.mem a

  pub printf-IsCalm :
      (fmt : String) (args : List Arg) {t : Machine} → IsCalm t → IsCalm (printf w fmt args t).1
  printf-IsCalm fmt args c =
      let d = Changes-printf w 0 0 fmt args c.valid in
      record { valid = d.valid; same = λ a h. d.apart a (h.0, inr (omega arith)) ∙ c.same a h }

  mem-IsCalm :
      (m : Mem) {t : Machine}
      → IsCalm t
      → ((a : ℕ) → IsClear w src dst array a → m a ≡ t.tty.mem a)
      → IsCalm (record t { tty = record t.tty { mem = m } })
  mem-IsCalm m c e = record {
    valid = record {
      col_in = c.valid.col_in;
      row_in = c.valid.row_in;
      color_in = c.valid.color_in;
    };
    same = λ a h. e a h ∙ c.same a h;
  }

  pub test_memcpy-IsCalm : {t : Machine} → IsCalm t → IsCalm (test_memcpy w src dst t).1
  test_memcpy-IsCalm {t} c =
      subst (λ (r : Unit {0} × Machine). IsCalm r.1)
        (sym (test_memcpy-okay w src dst t arrays.src_in arrays.dst_in arrays.apart))
        (printf-IsCalm _ _ (
          mem-IsCalm (memcpy_test src dst t.tty.mem).1 c
            λ a h. memcpy_test-other src dst t.tty.mem a arrays.src_in arrays.dst_in h.1 h.2))

  pub test_memmove-IsCalm : {t : Machine} → IsCalm t → IsCalm (test_memmove w array t).1
  test_memmove-IsCalm {t} c =
      subst (λ (r : Unit {0} × Machine). IsCalm r.1)
        (sym (test_memmove-okay w array t arrays.array_in))
        (printf-IsCalm _ _ (
          mem-IsCalm (after_rounds array testcases (memset array 0 256 t.tty.mem)) c λ a h.
            after_rounds-other array testcases _ a arrays.array_in (ground arith) h.3
            ∙ memset-other array 0 256 t.tty.mem a (omega (arith, arrays.array_in)) h.3))

  pub gdt-IsCalm :
      IsTablePlaced w
      → IsOperandPlaced w
      → {t : Machine} → IsCalm t
      → IsCalm (gdt_flush w (gdt_init w t).1).1
  gdt-IsCalm table operand {t} c =
      let filled = gdt_init-IsTable w table t c.valid in
      let (valid, apart) =
        gdt_flush_elsewhere w (gdt_init w t).1 filled.valid operand.0 operand.1 in
      record {
        valid = valid;
        same = λ a h. apart a (h.0, h.5) ∙ filled.apart a (h.0, h.4) ∙ c.same a h;
      }
