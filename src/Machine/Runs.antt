-- ===== src/Machine/Runs.antt =====
-- Postconditions of kernel code, and the rule for sequences.
use chp_os.Machine.{Machine, M, ◌>>=◌}

-- From a state with `P`, `m` gives a result and a state with `Q`.
pub record Ensures {A : Type 0} (P : Machine → Type 0) (m : M A) (Q : A → Machine → Type 0)
    : Type 0 where
  pub run : (s : Machine) → P s → Q (m s).0 (m s).1

pub bind :
    {A B : Type 0} {P : Machine → Type 0} {m : M A} {Q : A → Machine → Type 0} {k : A → M B}
    {R : B → Machine → Type 0}
    → Ensures P m Q
    → ((a : A) → Ensures (Q a) (k a) R)
    → Ensures P (m >>= k) R
unfolding ◌>>=◌
bind {m} h next = record { run = λ s p. (next (m s).0).run (m s).1 (h.run s p) }
