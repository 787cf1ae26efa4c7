-- ===== src/Ps2/Polls.antt =====
-- The loop of the two waits: the polls that it makes and the counter that it ends with.
use chp_os.Base.{
  ℕ, zero, suc, ◌-◌, ◌/◌, ◌%◌, ◌^◌, ◌≤◌, ◌<◌, ◌≡◌, refl, ◌↔◌, ◌⊎◌, inl, inr, arith, ◌==◌, not, Bool,
  Bool-cases, true, false, List, ◌∷◌, ℤ, pos, negsuc, u8, bit_and, all_below, all_below_sound,
  agree, agree→eq, if◌then◌else◌, ◌∙◌, ap,
}
use chp_os.Machine.{Machine, M, pure, ◌>>=◌, World, Io, read}
use chp_os.Ps2.{io_port_ps2_status, complement, error_none, timeout_error, wait_until}

pub timeout_error-pos : (n : ℕ) → timeout_error (pos n) ≡ error_none → 0 < n
timeout_error-pos zero e = cc
timeout_error-pos (suc n) e = omega arith

pub timeout_error-negsuc : (n : ℕ) → ¬ (timeout_error (negsuc n) ≡ error_none)
timeout_error-negsuc n e = cc

pub timeout_error-in_time : (n : ℕ) → 0 < n → timeout_error (pos n) ≡ error_none
timeout_error-in_time zero h = absurd (omega arith)
timeout_error-in_time (suc n) h = refl

-- The tests of the two wait loops on a status byte.
abbrev pub input_test : ℕ → Bool
input_test v = not (bit_and (complement v) 0x02 == 0)

abbrev pub output_test : ℕ → Bool
output_test v = not (bit_and v 0x01 == 0)

pub input_free : (v : ℕ) → v < 2 ^ 8 → (input_test v ≡ true) ↔ (v / 2 % 2 ≡ 0)
unfolding all_below agree
input_free v h =
    let same =
      agree→eq (input_test v) (v / 2 % 2 == 0)
        (all_below_sound 256 (λ x. agree (input_test x) (x / 2 % 2 == 0)) refl v h) in
    rw same (ground arith)

pub output_full : (v : ℕ) → v < 2 ^ 8 → (output_test v ≡ true) ↔ (v % 2 ≡ 1)
unfolding all_below agree
output_full v h =
    let same =
      agree→eq (output_test v) (v % 2 == 1)
        (all_below_sound 256 (λ x. agree (output_test x) (x % 2 == 1)) refl v h) in
    rw same (ground arith)

module _ (w : World) where
  -- The status byte that a read gives after a history of accesses.
  abbrev pub status_now : List Io → ℕ
  status_now io = u8 (w.answer io io_port_ps2_status)

  -- The history after `n` more reads of the status register.
  abbrev pub polls : ℕ → List Io → List Io
  polls zero io = io
  polls (suc n) io = polls n (read io_port_ps2_status (status_now io) ∷ io)

  -- The byte that read number `n` from now on gives.
  abbrev pub status_at : ℕ → List Io → ℕ
  status_at n io = status_now (polls n io)

  -- A wait that ends with `r` for the counter, after `last + 1` polls of at most `limit + 1`.
  pub record Waited (test : ℕ → Bool) (limit : ℕ) (s : Machine) (r : ℤ) (s' : Machine)
      : Type 0 where
    pub last : ℕ
    pub bounded : last ≤ limit
    pub state : s' ≡ record s { io = polls (suc last) s.io }
    pub earlier : (i : ℕ) → i < last → test (status_at i s.io) ≡ false
    pub verdict :
        ((r ≡ pos (limit - last)) × (test (status_at last s.io) ≡ true))
        ⊎ ((r ≡ negsuc 0) × (last ≡ limit) × (test (status_at last s.io) ≡ false))

  module _ (test : ℕ → Bool) (ready : M Bool)
      (polls_once : (s : Machine)
        → ready s ≡ (
          test (status_now s.io),
          record s { io = read io_port_ps2_status (status_now s.io) ∷ s.io },
        )) where
    abbrev after_poll : Machine → Machine
    after_poll s = record s { io = read io_port_ps2_status (status_now s.io) ∷ s.io }

    abbrev branch : ℕ → Bool × Machine → ℤ × Machine
    branch limit (b, s') =
        (elim b as (λ _. M ℤ) [ true ↦ pure (pos (suc limit)) | false ↦ wait_until ready limit ]) s'

    wait_done :
        (limit : ℕ) (s : Machine)
        → test (status_now s.io) ≡ true
        → wait_until ready (suc limit) s ≡ (pos (suc limit), after_poll s)
    unfolding wait_until ◌>>=◌
    wait_done limit s e =
        ap (branch limit) (polls_once s) ∙ ap (λ b. branch limit (b, after_poll s)) e

    wait_more :
        (limit : ℕ) (s : Machine)
        → test (status_now s.io) ≡ false
        → wait_until ready (suc limit) s ≡ wait_until ready limit (after_poll s)
    unfolding wait_until ◌>>=◌
    wait_more limit s e =
        ap (branch limit) (polls_once s) ∙ ap (λ b. branch limit (b, after_poll s)) e

    wait_last :
        (s : Machine)
        → wait_until ready zero s
          ≡ ((if test (status_now s.io) then pos 0 else negsuc 0), after_poll s)
    unfolding wait_until ◌>>=◌
    wait_last s =
        ap (λ (r : Bool × Machine). ((if r.0 then pos 0 else negsuc 0), r.1)) (polls_once s)

    at_once :
        (limit : ℕ) (s : Machine)
        → test (status_now s.io) ≡ true
        → Waited test limit s (pos limit) (after_poll s)
    at_once limit s e = record {
      last = 0;
      bounded = omega arith;
      state = refl;
      earlier = λ i h. absurd (omega arith);
      verdict = inl (ap pos (omega arith), e);
    }

    too_late :
        (s : Machine) → test (status_now s.io) ≡ false → Waited test 0 s (negsuc 0) (after_poll s)
    too_late s e = record {
      last = 0;
      bounded = omega arith;
      state = refl;
      earlier = λ i h. absurd (omega arith);
      verdict = inr (refl, refl, e);
    }

    one_more :
        (limit : ℕ) (s : Machine) (r : ℤ) (s' : Machine)
        → test (status_now s.io) ≡ false
        → Waited test limit (after_poll s) r s'
        → Waited test (suc limit) s r s'
    one_more limit s r s' e rest = record {
      last = suc rest.last;
      bounded = omega (arith, rest.bounded);
      state = rest.state;
      earlier = go;
      verdict = later rest.verdict;
    }
      where
        go : (i : ℕ) → i < suc rest.last → test (status_at i s.io) ≡ false
        go zero h = e
        go (suc i) h = rest.earlier i (omega arith)

        later :
            ((r ≡ pos (limit - rest.last)) × (test (status_at (suc rest.last) s.io) ≡ true))
              ⊎ ((r ≡ negsuc 0)
                  × (rest.last ≡ limit)
                  × (test (status_at (suc rest.last) s.io) ≡ false))
            → ((r ≡ pos (suc limit - suc rest.last))
                × (test (status_at (suc rest.last) s.io) ≡ true))
              ⊎ ((r ≡ negsuc 0)
                  × (suc rest.last ≡ suc limit)
                  × (test (status_at (suc rest.last) s.io) ≡ false))
        later (inl (a, b)) = inl (a ∙ ap pos (omega arith), b)
        later (inr (a, b, c)) = inr (a, ap suc b, c)

    pub wait_until-Waited :
        (limit : ℕ) (s : Machine)
        → Waited test limit s (wait_until ready limit s).0 (wait_until ready limit s).1
    wait_until-Waited zero s = elim (Bool-cases (test (status_now s.io))) [
      | inl e ↦ rw (wait_last s, e) (at_once 0 s e)
      | inr e ↦ rw (wait_last s, e) (too_late s e)
    ]
    wait_until-Waited (suc limit) s =
        let rest = wait_until-Waited limit (after_poll s) in
        elim (Bool-cases (test (status_now s.io))) [
          | inl e ↦ rw (wait_done limit s e) (at_once (suc limit) s e)
          | inr e ↦ rw (wait_more limit s e) (one_more limit s _ _ e rest)
        ]
