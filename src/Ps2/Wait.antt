-- ===== src/Ps2/Wait.antt =====
-- The two wait loops: when they succeed, how often they poll, and that they do nothing else.
use chp_os.Base.{
  ℕ, suc, ◌+◌, ◌-◌, ◌/◌, ◌%◌, ◌^◌, ◌≤◌, ◌<◌, ◌≡◌, refl, ◌↔◌, inl, inr, arith, Bool, true, ℤ, ◌∙◌,
  ap, sym, ◌≢◌,
}
use chp_os.Machine.{Machine, ◌>>=◌, World, inb}
use chp_os.Ps2.{
  Ps2Error, error_none, timeout_error, ps2_read_status, ps2_input_ready, ps2_wait_input_ready,
  ps2_output_ready, ps2_wait_output_ready,
}
use chp_os.Ps2.Polls.{
  polls, status_at, Waited, timeout_error-pos, timeout_error-negsuc, timeout_error-in_time,
  input_test, output_test, input_free, output_full, wait_until-Waited,
}

module _ (w : World) where
  -- What a wait of at most `limit` polls promises: it succeeds exactly if one of these polls passes
  -- the test, makes one poll at least and one more than `limit` at most, and does nothing else.
  pub record Waits (Passes : ℕ → Type 0) (limit : ℕ) (s : Machine) (e : Ps2Error) (s' : Machine)
      : Type 0 where
    pub succeeds : (e ≡ error_none) ↔ ((i : ℕ) × (i < limit) × Passes (status_at w i s.io))
    pub count : ℕ
    pub bounded : (0 < count) × (count ≤ limit + 1)
    pub effect : s' ≡ record s { io = polls w count s.io }

  module _ (test : ℕ → Bool) (Passes : ℕ → Type 0)
      (means : (v : ℕ) → v < 2 ^ 8 → (test v ≡ true) ↔ Passes v) (limit : ℕ) (s : Machine) (r : ℤ)
      (s' : Machine) (wait : Waited w test limit s r s') where
    fits : (i : ℕ) → status_at w i s.io < 2 ^ 8
    fits i = omega arith

    in_time : timeout_error r ≡ error_none → (i : ℕ) × (i < limit) × Passes (status_at w i s.io)
    in_time e = elim wait.verdict [
      | inl (er, pass) ↦ (
        wait.last,
        omega (arith, timeout_error-pos (limit - wait.last) (ap timeout_error (sym er) ∙ e)),
        (means _ (fits wait.last)).0 pass,
      )
      | inr (er, _, _) ↦ absurd (timeout_error-negsuc 0 (ap timeout_error (sym er) ∙ e))
    ]

    not_last : (i : ℕ) → i < limit → Passes (status_at w i s.io) → wait.last ≢ limit
    not_last i lt pass e =
        let failed = wait.earlier i (omega arith) in cc (failed, (means _ (fits i)).1 pass)

    succeeded : (i : ℕ) × (i < limit) × Passes (status_at w i s.io) → timeout_error r ≡ error_none
    succeeded (i, lt, pass) = elim wait.verdict [
      | inl (er, _) ↦
          ap timeout_error er
          ∙ timeout_error-in_time (limit - wait.last)
              (omega (arith, not_last i lt pass, wait.bounded))
      | inr (_, e, _) ↦ absurd (not_last i lt pass e)
    ]

    Waited→Waits : Waits Passes limit s (timeout_error r) s'
    Waited→Waits = record {
      succeeds = (in_time, succeeded);
      count = suc wait.last;
      bounded = omega (arith, wait.bounded);
      effect = wait.state;
    }

  -- The controller has taken the last byte: bit 1 of the status is clear.
  abbrev pub InputFree : ℕ → Type 0
  InputFree v = v / 2 % 2 ≡ 0

  -- The controller has a byte to read: bit 0 of the status is set.
  abbrev pub OutputFull : ℕ → Type 0
  OutputFull v = v % 2 ≡ 1

  -- Waiting to write succeeds exactly if one of the next 100000000 reads of the status has bit
  -- 1 clear; it reads the status at least once and at most 100000001 times, and does nothing
  -- else.
  pub ps2_wait_input_ready-Waits :
      (s : Machine)
      → Waits InputFree 100000000 s (ps2_wait_input_ready w s).0 (ps2_wait_input_ready w s).1
  unfolding ps2_wait_input_ready ◌>>=◌
  ps2_wait_input_ready-Waits s = Waited→Waits input_test InputFree input_free 100000000 s _ _ (
      wait_until-Waited w input_test (ps2_input_ready w)
        (λ t. unfold ps2_input_ready ps2_read_status inb in refl) 100000000 s)

  -- Waiting to read succeeds exactly if one of the next 10000 reads of the status has bit 0
  -- set; it reads the status at least once and at most 10001 times, and does nothing else.
  pub ps2_wait_output_ready-Waits :
      (s : Machine)
      → Waits OutputFull 10000 s (ps2_wait_output_ready w s).0 (ps2_wait_output_ready w s).1
  unfolding ps2_wait_output_ready ◌>>=◌
  ps2_wait_output_ready-Waits s = Waited→Waits output_test OutputFull output_full 10000 s _ _ (
      wait_until-Waited w output_test (ps2_output_ready w)
        (λ t. unfold ps2_output_ready ps2_read_status inb in refl) 10000 s)
