-- ===== src/Memory/Access.antt =====
-- Loads after stores.
use chp_os.Base.{ℕ, ◌+◌, ◌^◌, ◌≤◌, ◌<◌, ◌≡◌, ◌≢◌, ◌⊎◌, arith}
use chp_os.Memory.{Mem, store8, store16, load16, store32, load32}

pub store8_self : (m : Mem) (a v : ℕ) → store8 m a v a ≡ v
unfolding store8
store8_self m a v = ground arith

pub store8-other : (m : Mem) (a v b : ℕ) → b ≢ a → store8 m a v b ≡ m b
unfolding store8
store8-other m a v b ne = ground arith

pub store16-other : (m : Mem) (a v b : ℕ) → (b < a) ⊎ (a + 2 ≤ b) → store16 m a v b ≡ m b
unfolding store16
store16-other m a v b ne = ground arith

pub store32-other : (m : Mem) (a v b : ℕ) → (b < a) ⊎ (a + 4 ≤ b) → store32 m a v b ≡ m b
unfolding store32
store32-other m a v b ne = ground arith

pub load16-store16 : (m : Mem) (a v : ℕ) → v < 2 ^ 16 → load16 (store16 m a v) a ≡ v
unfolding load16 store16
load16-store16 m a v fits = ground arith

pub load16-store16_other :
    (m : Mem) (a v b : ℕ) → (b + 2 ≤ a) ⊎ (a + 2 ≤ b) → load16 (store16 m a v) b ≡ load16 m b
unfolding load16 store16
load16-store16_other m a v b apart = ground arith

pub load32-store32 : (m : Mem) (a v : ℕ) → v < 2 ^ 32 → load32 (store32 m a v) a ≡ v
unfolding load32 store32
load32-store32 m a v fits = ground arith

pub load32-store32_other :
    (m : Mem) (a v b : ℕ) → (b + 4 ≤ a) ⊎ (a + 4 ≤ b) → load32 (store32 m a v) b ≡ load32 m b
unfolding load32 store32
load32-store32_other m a v b apart = ground arith

-- A load reads nothing but its own bytes.
pub load16-same :
    (m m' : Mem) (a : ℕ) → m' a ≡ m a → m' (a + 1) ≡ m (a + 1) → load16 m' a ≡ load16 m a
unfolding load16
load16-same m m' a e e1 = omega (arith, e, e1)

pub load32-same :
    (m m' : Mem) (a : ℕ) → ((b : ℕ) → a ≤ b → b < a + 4 → m' b ≡ m b) → load32 m' a ≡ load32 m a
unfolding load32
load32-same m m' a same = omega (
  arith,
  same a (omega arith) (omega arith),
  same (a + 1) (omega arith) (omega arith),
  same (a + 2) (omega arith) (omega arith),
  same (a + 2 + 1) (omega arith) (omega arith),
)
