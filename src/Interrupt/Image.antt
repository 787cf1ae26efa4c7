-- ===== src/Interrupt/Image.antt =====
-- kernel/src/system/asm_bits.s: the data of the interrupt code as it is loaded, `isr_dispatch_table`
-- with the addresses of the stubs and `isr_user_handlers` behind it.
use chp_os.Base.{
  ℕ, zero, suc, ◌+◌, ◌*◌, ◌^◌, ◌<◌, ◌≡◌, refl, ap, sym, subst, ◌∙◌, arith, List, [], ◌∷◌, inl,
}
use chp_os.Memory.{Mem, store8, store32, load32}
use chp_os.Memory.Access.{store32-other, load32-store32, load32-same, store8_self, store8-other}
use chp_os.Machine.{Code, isr_dispatch, isr_user_stub}

-- `.rept count`, which inserts the label with the number `i` and counts `i` up.
unfoldable pub rept : (count i : ℕ) → (ℕ → Code) → List Code
rept zero i label = []
rept (suc count) i label = label i ∷ rept count (i + 1) label

-- Where the section has come to, and the memory up to there.
abbrev pub Section : Type 0
Section = ℕ × Mem

-- `.long label`, for each label.
unfoldable pub longs : (address : Code → ℕ) → List Code → Section → Section
longs address [] sec = sec
longs address (label ∷ labels) (here, m) =
    longs address labels (here + 4, store32 m here (address label))

-- `.skip count, 0`
unfoldable pub skip_zeros : (count : ℕ) → Section → Section
skip_zeros zero sec = sec
skip_zeros (suc count) (here, m) = skip_zeros count (here + 1, store8 m here 0)

-- The section from `isr_dispatch_table` on.
unfoldable pub load_data : (address : Code → ℕ) → Section → Section
load_data address sec =
    skip_zeros 1024
      (longs address (rept 224 32 isr_user_stub) (longs address (rept 32 0 isr_dispatch) sec))

module _ (address : Code → ℕ) (label : ℕ → Code) where
  pub longs-end :
      (count i here : ℕ) (m : Mem)
      → (longs address (rept count i label) (here, m)).0 ≡ here + count * 4
  unfolding longs rept
  longs-end zero i here m = omega arith
  longs-end (suc count) i here m = longs-end count (i + 1) (here + 4) _ ∙ omega arith

  pub longs-below :
      (count i here : ℕ) (m : Mem) (b : ℕ)
      → b < here
      → (longs address (rept count i label) (here, m)).1 b ≡ m b
  unfolding longs rept
  longs-below zero i here m b below = refl
  longs-below (suc count) i here m b below =
      longs-below count (i + 1) (here + 4) _ b (omega arith)
      ∙ store32-other m here (address (label i)) b (inl below)

  pub longs-entry :
      (count i here : ℕ) (m : Mem) (k : ℕ)
      → k < count
      → address (label (i + k)) < 2 ^ 32
      → load32 (longs address (rept count i label) (here, m)).1 (here + k * 4)
        ≡ address (label (i + k))
  unfolding longs rept
  longs-entry zero i here m k lt fits = absurd (omega arith)
  longs-entry (suc count) i here m zero lt fits =
      let first : i + zero ≡ i = omega arith in
      load32-same (store32 m here (address (label i))) _ (here + zero * 4)
        (λ b from to. longs-below count (i + 1) (here + 4) _ b (omega arith))
      ∙ ap (load32 (store32 m here (address (label i)))) {x = here + zero * 4} {y = here}
          (omega arith)
      ∙ load32-store32 m here (address (label i))
          (subst (λ n. address (label n) < 2 ^ 32) first fits)
      ∙ ap (λ n. address (label n)) (sym first)
  longs-entry (suc count) i here m (suc k) lt fits =
      let next : i + suc k ≡ i + 1 + k = omega arith in
      let place : here + suc k * 4 ≡ here + 4 + k * 4 = omega arith in
      rw (next, place)
        (longs-entry count (i + 1) (here + 4) (store32 m here (address (label i))) k (omega arith)
          (subst (λ n. address (label n) < 2 ^ 32) next fits))

pub skip_zeros-below :
    (count here : ℕ) (m : Mem) (b : ℕ) → b < here → (skip_zeros count (here, m)).1 b ≡ m b
unfolding skip_zeros
skip_zeros-below zero here m b below = refl
skip_zeros-below (suc count) here m b below =
    skip_zeros-below count (here + 1) _ b (omega arith) ∙ store8-other m here 0 b (omega arith)

pub skip_zeros-inside :
    (count here : ℕ) (m : Mem) (k : ℕ) → k < count → (skip_zeros count (here, m)).1 (here + k) ≡ 0
unfolding skip_zeros
skip_zeros-inside zero here m k lt = absurd (omega arith)
skip_zeros-inside (suc count) here m zero lt =
    let first : here + zero ≡ here = omega arith in
    rw first (
      skip_zeros-below count (here + 1) (store8 m here 0) here (omega arith) ∙ store8_self m here 0)
skip_zeros-inside (suc count) here m (suc k) lt =
    let next : here + suc k ≡ here + 1 + k = omega arith in
    rw next (skip_zeros-inside count (here + 1) (store8 m here 0) k (omega arith))
