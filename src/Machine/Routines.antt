-- ===== src/Machine/Routines.antt =====
-- A routine of asm_bits.s that C code calls, and what it is to do.
use chp_os.Base.{ℕ, ◌+◌, ◌-◌, ◌^◌, ◌≤◌, ◌<◌, ◌≡◌, ◌⊎◌, arith}
use chp_os.Memory.{Mem, store16, store32, load32}
use chp_os.Machine.{Machine}
use chp_os.Machine.Processor.{Proc}

-- At the entry of a routine there is room for `depth` bytes below the return address, and for the
-- return address and two arguments above; the registers are words.
pub record IsCalled (depth : ℕ) (p : Proc) : Type 0 where
  pub room : depth ≤ p.esp
  pub top : p.esp + 12 < 2 ^ 32
  pub ebx_in : p.ebx < 2 ^ 32
  pub ebp_in : p.ebp < 2 ^ 32
  pub eflags_in : p.eflags < 2 ^ 32

-- From `p` to `q` the routine has come back to its caller, and has done to the system registers and
-- to memory what leads to the machine `s`, but for `depth` bytes below the stack.
pub record Performs (depth : ℕ) (s : Machine) (p q : Proc) : Type 0 where
  pub comes_back : (q.eip ≡ load32 p.mem p.esp) × (q.esp ≡ p.esp + 4)
  pub keeps : (q.ebx ≡ p.ebx) × (q.ebp ≡ p.ebp) × (q.eflags ≡ p.eflags)
  pub same_cpu : q.cpu ≡ s.cpu
  pub same_mem : (a : ℕ) → (a < p.esp - depth) ⊎ (p.esp ≤ a) → q.mem a ≡ s.tty.mem a

-- The same store after memories that agree at an address.
pub store32-agree : (m m' : Mem) (b v a : ℕ) → m a ≡ m' a → store32 m b v a ≡ store32 m' b v a
unfolding store32
store32-agree m m' b v a same = ground (arith, same)

pub store16-agree : (m m' : Mem) (b v a : ℕ) → m a ≡ m' a → store16 m b v a ≡ store16 m' b v a
unfolding store16
store16-agree m m' b v a same = ground (arith, same)
