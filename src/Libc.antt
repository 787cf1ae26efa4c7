-- ===== src/Libc.antt =====
-- libc/string.c: memmove, memcpy and memset over the flat memory.
pub mod Move
pub mod Fill
use chp_os.Base.{
  ℕ, zero, suc, ◌+◌, ◌-◌, ◌%◌, ◌^◌, ◌&&◌, if◌then◌else◌, ltb, leb, u32, ptr_add, ℤ, pos, negsuc,
  to_int,
}
use chp_os.Memory.{Mem, store8}

-- `to[i] = from[i]`
abbrev copy_byte : ℕ → ℕ → ℕ → Mem → Mem
copy_byte to from i m = store8 m (ptr_add to i) (m (ptr_add from i))

-- `for (size_t i = ..; i < n; ++i)` with `left` rounds to go.
pub copy_forward : (to from left i : ℕ) → Mem → Mem
copy_forward to from zero i m = m
copy_forward to from (suc left) i m = copy_forward to from left (i + 1) (copy_byte to from i m)

-- The rounds `i`, `i - 1`, .., 0.
pub copy_down_from : (to from i : ℕ) → Mem → Mem
copy_down_from to from zero m = copy_byte to from 0 m
copy_down_from to from (suc i) m = copy_down_from to from i (copy_byte to from (suc i) m)

-- `for (int i = ..; i >= 0; --i)`
pub copy_reverse : (to from : ℕ) → ℤ → Mem → Mem
copy_reverse to from (pos i) m = copy_down_from to from i m
copy_reverse to from (negsuc i) m = m

-- `n - 1` is a `size_t`, and is converted to `int`.
unfoldable pub memmove : (dst src n : ℕ) → Mem → Mem
memmove dst src n m =
    if ltb src dst && leb dst (ptr_add src n)
    then copy_reverse dst src (to_int (u32 (n + 2 ^ 32 - 1))) m
    else copy_forward dst src n 0 m

unfoldable pub memcpy : (dst src n : ℕ) → Mem → Mem
memcpy dst src n m = memmove dst src n m

-- `for (size_t i = ..; i < n; ++i) dst[i] = c;`
pub fill : (dst c left i : ℕ) → Mem → Mem
fill dst c zero i m = m
fill dst c (suc left) i m = fill dst c left (i + 1) (store8 m (ptr_add dst i) c)

unfoldable pub memset : (dst c n : ℕ) → Mem → Mem
memset dst c n m = fill dst c n 0 m
