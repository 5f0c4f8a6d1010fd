-- ===== src/Workflows/Polling/Attempts.antt =====
-- workflows/polling.ts: how polling ends.
use ksef_client_ts.Base.{
  ℕ, zero, suc, ◌+◌, ◌≤◌, ◌<◌, ◌≡◌, ap, ◌∙◌, subst, arith, Bool, true, false, Option, none, some,
  length, or_default, Bool-cases, Option-cases, inl, inr, ◌==◌,
}
use ksef_client_ts.Workflows.Polling.{Outcome, found, action_failed, timed_out, poll, poll_until}

module _ {A : Type 0} (action : ℕ → Option A) (condition : A → Bool) where
  -- The attempts in a range answer, and with no result that meets the condition.
  abbrev pub NotYet : ℕ → ℕ → Type 0
  NotYet start end =
      (k : ℕ)
      → start ≤ k
      → k < end
      → (result : A) × (action k ≡ some result) × (condition result ≡ false)

  -- The outcome of so many attempts from one on.
  abbrev pub IsOutcome : ℕ → ℕ → Outcome A → Type 0
  IsOutcome start left (found result) =
      (n : ℕ) × (start ≤ n)
      × (n < start + left)
      × (action n ≡ some result)
      × (condition result ≡ true)
      × NotYet start n
  IsOutcome start left action_failed =
      (n : ℕ) × (start ≤ n) × (n < start + left) × (action n ≡ none) × NotYet start n
  IsOutcome start left timed_out = NotYet start (start + left)

  NotYet-cons :
      (start end : ℕ) (result : A)
      → action start ≡ some result
      → condition result ≡ false
      → NotYet (start + 1) end
      → NotYet start end
  NotYet-cons start end result acted unmet rest k from below = elim (Bool-cases (k == start)) [
    | inl same ↦ let e : k ≡ start = ground arith in (result, ap action e ∙ acted, unmet)
    | inr later ↦ rest k (ground arith) below
  ]

  IsOutcome-cons :
      (start left : ℕ) (result : A) (outcome : Outcome A)
      → action start ≡ some result
      → condition result ≡ false
      → IsOutcome (start + 1) left outcome
      → IsOutcome start (suc left) outcome
  IsOutcome-cons start left result (found r) acted unmet (n, from, below, now, met, before) =
      (n, omega arith, omega arith, now, met, NotYet-cons start n result acted unmet before)
  IsOutcome-cons start left result action_failed acted unmet (n, from, below, now, before) =
      (n, omega arith, omega arith, now, NotYet-cons start n result acted unmet before)
  IsOutcome-cons start left result timed_out acted unmet before =
      let e : (start + 1) + left ≡ start + suc left = omega arith in
      NotYet-cons start (start + suc left) result acted unmet (subst (NotYet (start + 1)) e before)

  none_between : (start : ℕ) → NotYet start start
  none_between start k from below = (let c : ⊥ = omega arith in elim c [ ])

  poll-IsOutcome :
      (left start : ℕ) → IsOutcome start left (poll action condition left start).outcome
  unfolding poll
  poll-IsOutcome zero start = subst (NotYet start) (omega arith) (none_between start)
  poll-IsOutcome (suc left) start = elim (Option-cases (action start)) [
    | inl failed ↦ rw (poll, failed) (start, omega arith, omega arith, failed, none_between start)
    | inr (result, acted) ↦ elim (Bool-cases (condition result)) [
      | inl met ↦
          rw (poll, acted, met) (start, omega arith, omega arith, acted, met, none_between start)
      | inr unmet ↦
          rw (poll, acted, unmet)
            (IsOutcome-cons start left result (poll action condition left (start + 1)).outcome acted
              unmet (poll-IsOutcome left (start + 1)))
    ]
  ]

  -- The attempts that are reported: those before the one that ends it, or all.
  poll-progress : (left start : ℕ) → length (poll action condition left start).progress ≤ left
  unfolding poll
  poll-progress zero start = omega arith
  poll-progress (suc left) start = elim (Option-cases (action start)) [
    | inl failed ↦ rw (poll, failed) (omega arith)
    | inr (result, acted) ↦ elim (Bool-cases (condition result)) [
      | inl met ↦ rw (poll, acted, met) (omega arith)
      | inr unmet ↦ rw (poll, acted, unmet) (omega (arith, poll-progress left (start + 1)))
    ]
  ]

  -- Polling makes its attempts from 1 to maxAttempts. It returns the result of the first of them that
  -- meets the condition, it throws what one of them throws where all before it answered without
  -- meeting it, and it times out only where all of them answered without meeting it; it reports its
  -- progress for no more than maxAttempts of them.
  pub poll_until-IsOutcome :
      (max_attempts : Option ℕ)
      → IsOutcome 1 (or_default max_attempts 60) (poll_until action condition max_attempts).outcome
        × (length (poll_until action condition max_attempts).progress ≤ or_default max_attempts 60)
  poll_until-IsOutcome max_attempts =
      (poll-IsOutcome (or_default max_attempts 60) 1, poll-progress (or_default max_attempts 60) 1)
