-- ===== src/Base/Words.antt =====
-- The machine words of the i686 target: casts, shifts, pointers, and `int` as its bit pattern.
use Prim.Native.Nat.{ℕ, ◌+◌, ◌-◌, ◌*◌, ◌/◌, ◌%◌, ◌^◌}
use chp_os.Base.Tests.{ltb, if◌then◌else◌}

abbrev pub u8 : ℕ → ℕ
u8 n = n % 2 ^ 8

abbrev pub u16 : ℕ → ℕ
u16 n = n % 2 ^ 16

abbrev pub u32 : ℕ → ℕ
u32 n = n % 2 ^ 32

infixl 75 ◌<<<◌ ◌>>>◌
abbrev pub ◌<<<◌ : ℕ → ℕ → ℕ
x <<< k = x * 2 ^ k

abbrev pub ◌>>>◌ : ℕ → ℕ → ℕ
x >>> k = x / 2 ^ k

-- `p + i` for a pointer to bytes, and `size_t` addition.
abbrev pub ptr_add : ℕ → ℕ → ℕ
ptr_add p i = (p + i) % 2 ^ 32

-- `negsuc n` is -(n + 1).
pub data ℤ : Type 0 where
  pos : ℕ → ℤ
  negsuc : ℕ → ℤ

-- The `int` that a 32-bit pattern stands for.
abbrev pub to_int : ℕ → ℤ
to_int w = if ltb w (2 ^ 31) then pos w else negsuc (2 ^ 32 - w - 1)

-- A `char` (signed on this target) converted to `int`, as a 32-bit pattern.
abbrev pub char_to_int : ℕ → ℕ
char_to_int c = if ltb c 128 then c else c + (2 ^ 32 - 256)
