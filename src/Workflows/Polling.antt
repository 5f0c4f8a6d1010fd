-- ===== src/Workflows/Polling.antt =====
-- workflows/polling.ts. The action is a function of the attempt, `none` where it throws; the waits are
-- counted, each of `intervalMs`, and the calls of onProgress are the list of their attempts.
pub mod Attempts
mod Tests
use ksef_client_ts.Base.{
  ℕ, zero, suc, ◌+◌, Bool, true, false, Option, none, some, List, [], ◌∷◌, or_default,
}

pub data Outcome {ℓ} (A : Type ℓ) : Type ℓ where
  found : A → Outcome A
  action_failed timed_out : Outcome A

pub record Polled {ℓ} (A : Type ℓ) : Type ℓ where
  pub outcome : Outcome A
  pub waits : ℕ
  pub progress : List ℕ

-- `if (attempt < maxAttempts)`, by the attempts that are left
abbrev pub waits_before : ℕ → ℕ
waits_before zero = 0
waits_before (suc left) = 1

module _ {ℓ} {A : Type ℓ} where
  abbrev pub stopped : Outcome A → Polled A
  stopped outcome = record { outcome = outcome; waits = 0; progress = [] }

  module _ (action : ℕ → Option A) (condition : A → Bool) where
    unfoldable pub poll : ℕ → ℕ → Polled A
    poll zero attempt = stopped timed_out
    poll (suc left) attempt = elim (action attempt) [
      | none ↦ stopped action_failed
      | some result ↦ elim (condition result) [
        | true ↦ stopped (found result)
        | false ↦
            let rest = poll left (attempt + 1) in
            record {
              outcome = rest.outcome;
              waits = waits_before left + rest.waits;
              progress = attempt ∷ rest.progress;
            }
      ]
    ]

    abbrev pub poll_until : Option ℕ → Polled A
    poll_until max_attempts = poll (or_default max_attempts 60) 1
