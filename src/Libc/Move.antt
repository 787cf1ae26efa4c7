-- ===== src/Libc/Move.antt =====
-- memmove against its specification: the destination holds what the source held before the call.
use chp_os.Base.{
  ℕ, zero, suc, ◌+◌, ◌-◌, ◌^◌, ◌≤◌, ◌<◌, ◌&&◌, ◌≡◌, ◌⊎◌, inl, inr, true, arith, ltb, leb,
  if◌then◌else◌, ptr_add, u32, to_int, pos, negsuc, fun_ext, Bool-cases,
}
use chp_os.Memory.{Mem, store8}
use chp_os.Libc.{copy_forward, copy_down_from, copy_reverse, memmove}

-- The memory `m` after the `n` bytes at `src` have gone to `dst` at one stroke.
unfoldable pub moved : (dst src n : ℕ) → Mem → Mem
moved dst src n m a = if leb dst a && ltb a (dst + n) then m (src + (a - dst)) else m a

copy_forward-moved :
    (dst src left i : ℕ) (m : Mem) (a : ℕ)
    → dst + (i + left) ≤ 2 ^ 32
    → src + (i + left) ≤ 2 ^ 32
    → (dst ≤ src) ⊎ (src + (i + left) ≤ dst)
    → copy_forward dst src left i m a ≡ moved (dst + i) (src + i) left m a
unfolding copy_forward moved store8
copy_forward-moved dst src zero i m a hd hs apart = ground arith
copy_forward-moved dst src (suc left) i m a hd hs apart = ground (
  arith,
  copy_forward-moved dst src left (i + 1) (store8 m (ptr_add dst i) (m (ptr_add src i))) a,
)

copy_down_from-moved :
    (dst src i : ℕ) (m : Mem) (a : ℕ)
    → dst + i < 2 ^ 32
    → src ≤ dst
    → copy_down_from dst src i m a ≡ moved dst src (suc i) m a
unfolding copy_down_from moved store8
copy_down_from-moved dst src zero m a hd lt = ground arith
copy_down_from-moved dst src (suc i) m a hd lt = ground (
  arith,
  copy_down_from-moved dst src i (store8 m (ptr_add dst (suc i)) (m (ptr_add src (suc i)))) a,
)

-- `(int)(n - 1)` for the lengths that it can hold, and for those that it cannot.
last_index : (n : ℕ) → suc n ≤ 2 ^ 31 → to_int (u32 (suc n + 2 ^ 32 - 1)) ≡ pos n
last_index n h = ground arith

last_index_negative :
    (n : ℕ) → 2 ^ 31 < n → n < 2 ^ 32 → to_int (u32 (n + 2 ^ 32 - 1)) ≡ negsuc (2 ^ 32 - n)
last_index_negative n h lt = ground arith

copy_reverse-moved :
    (dst src n : ℕ) (m : Mem) (a : ℕ)
    → suc n ≤ 2 ^ 31
    → dst + n < 2 ^ 32
    → src ≤ dst
    → copy_reverse dst src (to_int (u32 (suc n + 2 ^ 32 - 1))) m a ≡ moved dst src (suc n) m a
unfolding copy_reverse
copy_reverse-moved dst src n m a hn hd lt =
    rw (last_index n hn) (copy_down_from-moved dst src n m a hd lt)

-- For regions that end below the end of the address space and a length of at most 2 ^ 31,
-- memmove leaves at the destination the bytes that the source held before the call, overlap or
-- not, and changes no byte elsewhere.
pub memmove-moved :
    (dst src n : ℕ) (m : Mem)
    → n ≤ 2 ^ 31
    → dst + n < 2 ^ 32
    → src + n < 2 ^ 32
    → memmove dst src n m ≡ moved dst src n m
unfolding memmove
memmove-moved dst src zero m hn hd hs =
    fun_ext λ a. unfold copy_forward copy_reverse moved in ground arith
memmove-moved dst src (suc n) m hn hd hs = fun_ext λ a.
    elim (Bool-cases (ltb src dst && leb dst (ptr_add src (suc n)))) [
      | inl e ↦ rw e (copy_reverse-moved dst src n m a hn (omega arith) (ground arith))
      | inr e ↦ rw e (ground (arith, copy_forward-moved dst src (suc n) 0 m a))
    ]

-- Where the source begins below the destination, reaches it, and ends below the end of the
-- address space, memmove with a length above 2 ^ 31 copies nothing at all.
pub memmove_past_int :
    (dst src n : ℕ) (m : Mem)
    → 2 ^ 31 < n
    → src < dst
    → dst ≤ src + n
    → src + n < 2 ^ 32
    → memmove dst src n m ≡ m
unfolding memmove copy_reverse
memmove_past_int dst src n m big lt reach fits =
    let test : (ltb src dst && leb dst (ptr_add src n)) ≡ true = ground arith in
    rw (test, last_index_negative n big (omega arith))
