-- ===== src/Libc/Fill.antt =====
-- memset against its specification.
use chp_os.Base.{
  ℕ, zero, suc, ◌+◌, ◌^◌, ◌≤◌, ◌&&◌, ◌≡◌, arith, ltb, leb, if◌then◌else◌, ptr_add, fun_ext,
}
use chp_os.Memory.{Mem, store8}
use chp_os.Libc.{fill, memset}

-- The memory `m` with the byte `c` at the `n` addresses from `dst` on.
unfoldable pub filled : (dst c n : ℕ) → Mem → Mem
filled dst c n m a = if leb dst a && ltb a (dst + n) then c else m a

fill-filled :
    (dst c left i : ℕ) (m : Mem) (a : ℕ)
    → dst + (i + left) ≤ 2 ^ 32
    → fill dst c left i m a ≡ filled (dst + i) c left m a
unfolding fill filled store8
fill-filled dst c zero i m a h = ground arith
fill-filled dst c (suc left) i m a h =
    ground (arith, fill-filled dst c left (i + 1) (store8 m (ptr_add dst i) c) a)

-- For a region within the address space, memset writes its byte to each address of the region
-- and to no other.
pub memset-filled : (dst c n : ℕ) (m : Mem) → dst + n ≤ 2 ^ 32 → memset dst c n m ≡ filled dst c n m
unfolding memset
memset-filled dst c n m h = fun_ext λ a. unfold filled in ground (arith, fill-filled dst c n 0 m a)
