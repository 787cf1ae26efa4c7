-- ===== src/Memory.antt =====
-- The flat memory that every object of the kernel lives in: byte addresses, and the little-endian
-- accesses that the compiler emits for `uint16_t` and `uint32_t` objects.
pub mod Access
use chp_os.Base.{ℕ, ◌+◌, ◌*◌, ◌/◌, ◌%◌, ◌^◌, ◌==◌, if◌then◌else◌, u8, ◌>>>◌}

-- The byte at each address.
abbrev pub Mem : Type 0
Mem = ℕ → ℕ

-- Stores one byte.
unfoldable pub store8 : Mem → ℕ → ℕ → Mem
store8 m a v b = if b == a then v else m b

-- Stores a `uint16_t`.
unfoldable pub store16 : Mem → ℕ → ℕ → Mem
unfolding store8
store16 m a v = store8 (store8 m a (u8 v)) (a + 1) (u8 (v >>> 8))

-- Reads a `uint16_t`.
unfoldable pub load16 : Mem → ℕ → ℕ
load16 m a = m a + m (a + 1) * 2 ^ 8

-- Stores a `uint32_t`.
unfoldable pub store32 : Mem → ℕ → ℕ → Mem
unfolding store16
store32 m a v = store16 (store16 m a (v % 2 ^ 16)) (a + 2) (v >>> 16)

-- Reads a `uint32_t`.
unfoldable pub load32 : Mem → ℕ → ℕ
unfolding load16
load32 m a = load16 m a + load16 m (a + 2) * 2 ^ 16
