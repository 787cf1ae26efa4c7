-- ===== src/Interrupt/Linked.antt =====
-- kernel/src/system/asm_bits.s: where the loaded dispatch table leads.
use chp_os.Base.{
  ℕ, ◌+◌, ◌*◌, ◌-◌, ◌^◌, ◌≤◌, ◌<◌, ◌≡◌, refl, ap, sym, subst, ◌∙◌, arith, ltb, if◌then◌else◌, inl,
  inr, u32, ptr_add, some, Bool-cases,
}
use chp_os.Memory.{Mem, load32}
use chp_os.Memory.Access.{load32-same}
use chp_os.Machine.{World, Code, isr_dispatch, isr_user_stub}
use chp_os.Interrupt.{dispatch_entry, handler_addr}
use chp_os.Interrupt.Image.{
  Section, rept, longs, load_data, longs-end, longs-below, longs-entry, skip_zeros-below,
  skip_zeros-inside,
}

-- The stub of each vector.
abbrev pub stub_of : ℕ → Code
stub_of i = if ltb i 32 then isr_dispatch i else isr_user_stub i

-- What the linker gives: an address of 32 bits for each stub, at which the stub is, and a place for
-- the section, in which the handlers follow the table.
pub record IsLinked (w : World) (address : Code → ℕ) : Type 0 where
  pub fits : (i : ℕ) → i < 256 → address (stub_of i) < 2 ^ 32
  pub found : (i : ℕ) → i < 256 → w.code (address (stub_of i)) ≡ some (stub_of i)
  pub follows : w.layout.isr_user_handlers ≡ w.layout.isr_dispatch_table + 1024
  pub placed : w.layout.isr_dispatch_table + 2048 ≤ 2 ^ 32

module _ (w : World) (address : Code → ℕ) (linked : IsLinked w address) (m : Mem) where
  abbrev table : ℕ
  table = w.layout.isr_dispatch_table

  -- The memory with the section loaded.
  abbrev pub loaded : Mem
  loaded = (load_data address (table, m)).1

  abbrev dispatched : Section
  dispatched = longs address (rept 32 0 isr_dispatch) (table, m)

  abbrev users : Section
  users = longs address (rept 224 32 isr_user_stub) dispatched

  dispatched-end : dispatched.0 ≡ table + 32 * 4
  dispatched-end = longs-end address isr_dispatch 32 0 table m

  users-end : users.0 ≡ table + 1024
  users-end =
      longs-end address isr_user_stub 224 32 dispatched.0 dispatched.1
      ∙ omega (arith, dispatched-end)

  below_users : (b : ℕ) → b < table + 1024 → loaded b ≡ users.1 b
  unfolding load_data
  below_users b lt = skip_zeros-below 1024 users.0 users.1 b (omega (arith, users-end))

  below_dispatched : (b : ℕ) → b < table + 32 * 4 → users.1 b ≡ dispatched.1 b
  below_dispatched b lt =
      longs-below address isr_user_stub 224 32 dispatched.0 dispatched.1 b
        (omega (arith, dispatched-end))

  abbrev IsEntry : ℕ → Type 0
  IsEntry n = load32 loaded (table + n * 4) ≡ address (stub_of n)

  dispatch_part :
      (k : ℕ)
      → k < 32
      → stub_of (0 + k) ≡ isr_dispatch (0 + k)
      → load32 loaded (table + (0 + k) * 4) ≡ address (stub_of (0 + k))
  dispatch_part k lt stub =
      let place : table + (0 + k) * 4 ≡ table + k * 4 = omega arith in
      load32-same dispatched.1 loaded (table + (0 + k) * 4)
        (λ b from to. below_users b (omega arith) ∙ below_dispatched b (omega arith))
      ∙ ap (load32 dispatched.1) place
      ∙ longs-entry address isr_dispatch 32 0 table m k lt
          (subst (λ c. address c < 2 ^ 32) stub (linked.fits (0 + k) (omega arith)))
      ∙ ap address (sym stub)

  user_part :
      (k : ℕ)
      → k < 224
      → stub_of (32 + k) ≡ isr_user_stub (32 + k)
      → load32 loaded (table + (32 + k) * 4) ≡ address (stub_of (32 + k))
  user_part k lt stub =
      let place : table + (32 + k) * 4 ≡ dispatched.0 + k * 4 = omega (arith, dispatched-end) in
      load32-same users.1 loaded (table + (32 + k) * 4) (λ b from to. below_users b (omega arith))
      ∙ ap (load32 users.1) place
      ∙ longs-entry address isr_user_stub 224 32 dispatched.0 dispatched.1 k lt
          (subst (λ c. address c < 2 ^ 32) stub (linked.fits (32 + k) (omega arith)))
      ∙ ap address (sym stub)

  entry : (i : ℕ) → i < 256 → load32 loaded (table + i * 4) ≡ address (stub_of i)
  entry i lt = elim (Bool-cases (ltb i 32)) [
    | inl e ↦
        let at : i ≡ 0 + i = omega arith in
        subst IsEntry (sym at)
          (dispatch_part i (ground arith) (subst (λ n. stub_of n ≡ isr_dispatch n) at (rw e refl)))
    | inr e ↦
        let at : i ≡ 32 + (i - 32) = ground arith in
        subst IsEntry (sym at) (
          user_part (i - 32) (omega (arith, at))
            (subst (λ n. stub_of n ≡ isr_user_stub n) at (rw e refl)))
  ]

  zero_byte : (b : ℕ) → table + 1024 ≤ b → b < table + 2048 → loaded b ≡ 0
  unfolding load_data
  zero_byte b from to =
      let at : b ≡ users.0 + (b - users.0) = omega (arith, users-end) in
      ap loaded at ∙ skip_zeros-inside 1024 users.0 users.1 (b - users.0) (omega (arith, users-end))

  unset : (i : ℕ) → i < 256 → load32 loaded (handler_addr w i) ≡ 0
  unfolding load32
  unset i lt =
      let at : handler_addr w i ≡ table + 1024 + i * 4 =
        omega (arith, linked.placed, linked.follows) in
      load32-same (λ b. 0) loaded (handler_addr w i)
        λ b from to. zero_byte b (omega (arith, at)) (omega (arith, at))

  -- Once the data of asm_bits.s is loaded, the entry of each vector from 0 to 255 in the dispatch
  -- table is the address at which the stub of this vector is, and no vector has a handler.
  pub load_data-dispatches :
      (i : ℕ)
      → i < 256
      → (w.code (u32 (dispatch_entry w loaded i)) ≡ some (stub_of i))
        × (load32 loaded (handler_addr w i) ≡ 0)
  load_data-dispatches i lt =
      let place : ptr_add table (i * 4) ≡ table + i * 4 = omega (arith, linked.placed) in
      let address_read : u32 (dispatch_entry w loaded i) ≡ address (stub_of i) =
        ap u32 (ap (load32 loaded) place ∙ entry i lt) ∙ omega (arith, linked.fits i lt) in
      (ap w.code address_read ∙ linked.found i lt, unset i lt)
