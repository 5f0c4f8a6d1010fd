-- ===== src/Workflows/Polling/Tests.antt =====
-- Examples of workflows/polling.ts: an action that counts.
use ksef_client_ts.Base.{ℕ, ◌≡◌, refl, Bool, some, [], ◌∷◌, ltb, length, ◌≤◌}
use ksef_client_ts.Workflows.Polling.{found, poll, poll_until}
use ksef_client_ts.Workflows.Polling.Attempts.{IsOutcome, poll_until-IsOutcome}

abbrev above_two : ℕ → Bool
above_two n = ltb 2 n

third :
    poll_until some above_two (some 5)
    ≡ record { outcome = found 3; waits = 2; progress = 1 ∷ 2 ∷ [] }
unfolding poll
third = refl

poll_until-IsOutcome_example :
    IsOutcome some above_two 1 5 (poll_until some above_two (some 5)).outcome
    × (length (poll_until some above_two (some 5)).progress ≤ 5)
poll_until-IsOutcome_example = poll_until-IsOutcome some above_two (some 5)
