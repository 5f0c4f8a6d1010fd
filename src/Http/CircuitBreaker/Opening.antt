-- ===== src/Http/CircuitBreaker/Opening.antt =====
-- http/circuit-breaker-policy.ts: when a run of failures opens the circuit, and what an open circuit
-- answers.
use ksef_client_ts.Base.{
  ℕ, ◌+◌, ◌-◌, ◌≤◌, ◌<◌, ◌≡◌, refl, Bool, true, false, none, some, List, [], ◌∷◌, String, arith,
  leb, if◌then◌else◌, length, or_default, ◌∙◌, ap, ◌≡⟨◌⟩◌, ◌∎,
}
use ksef_client_ts.Http.CircuitBreaker.{
  CircuitState, CircuitBreakerPolicy, Admission, circuit_open, key_for, with_state, fresh,
  failed_state, record_failure, ensure_closed, check_state,
}
use ksef_client_ts.Http.CircuitBreaker.States.{
  state_at, record_failure-SameConfig, record_failure_self,
}
use ksef_client_ts.Http.CircuitBreaker.Invariant.{IsValid}

-- `recordFailure(endpoint)` at each of the times.
unfoldable pub failures_at : CircuitBreakerPolicy → String → List ℕ → CircuitBreakerPolicy
failures_at p e [] = p
failures_at p e (t ∷ ts) = failures_at (record_failure p e t) e ts

abbrev pub last_of : ℕ → List ℕ → ℕ
last_of t [] = t
last_of t (u ∷ ts) = last_of u ts

-- Each time is at most `gap` after the one before it.
abbrev pub Within : ℕ → ℕ → List ℕ → Type 0
Within gap t [] = Unit
Within gap t (u ∷ ts) = (u ≤ t + gap) × Within gap u ts

-- The state after `n` failures in a row, the last at `t`.
abbrev pub streak : ℕ → ℕ → ℕ → CircuitState
streak threshold n t = record {
  failures = n;
  opened_at = if leb threshold n then some t else none;
  last_failure_at = some t;
  probe_in_flight = false;
}

failed_state-streak :
    (threshold open_ms n t u : ℕ)
    → n < threshold
    → u ≤ t + open_ms
    → failed_state threshold open_ms u (streak threshold n t) ≡ streak threshold (n + 1) u
unfolding failed_state
failed_state-streak threshold open_ms n t u below near = ground arith

failed_state-fresh :
    (threshold open_ms u : ℕ) → failed_state threshold open_ms u fresh ≡ streak threshold 1 u
unfolding failed_state
failed_state-fresh threshold open_ms u = ground arith

-- The key of an endpoint and the constants are the same after a failure.
key_for-record_failure :
    (p : CircuitBreakerPolicy) (e : String) (now : ℕ)
    → key_for (record_failure p e now) e ≡ key_for p e
unfolding key_for
key_for-record_failure p e now = rw (record_failure-SameConfig p e now).2

module _ (threshold gap : ℕ) (e key : String) where
  -- A policy with these constants, for an endpoint kept under this key.
  abbrev Has : CircuitBreakerPolicy → Type 0
  Has p = (p.failure_threshold ≡ threshold) × (p.open_ms ≡ gap) × (key_for p e ≡ key)

  record_failure-Has : (p : CircuitBreakerPolicy) (now : ℕ) → Has p → Has (record_failure p e now)
  record_failure-Has p now (a, b, c) =
      let same = record_failure-SameConfig p e now in
      (same.0 ∙ a, same.1 ∙ b, key_for-record_failure p e now ∙ c)

  record_failure-streak :
      (p : CircuitBreakerPolicy) (n t u : ℕ)
      → Has p
      → state_at p key ≡ some (streak threshold n t)
      → u ≤ t + gap
      → n < threshold
      → state_at (record_failure p e u) key ≡ some (streak threshold (n + 1) u)
  record_failure-streak p n t u (a, b, c) now near few =
      state_at (record_failure p e u) key
      ≡⟨ (rw (← c) (record_failure_self p e u)) ⟩
        some (
          failed_state p.failure_threshold p.open_ms u
            (or_default (state_at p (key_for p e)) fresh))
      ≡⟨ (rw (c, now, a, b)) ⟩ some (failed_state threshold gap u (streak threshold n t))
      ≡⟨ ap some (failed_state-streak threshold gap n t u few near) ⟩
        some (streak threshold (n + 1) u) ∎

  failures_at-streak :
      (p : CircuitBreakerPolicy) (n t : ℕ) (ts : List ℕ)
      → Has p
      → state_at p key ≡ some (streak threshold n t)
      → Within gap t ts
      → n + length ts ≤ threshold
      → state_at (failures_at p e ts) key ≡ some (streak threshold (n + length ts) (last_of t ts))
  unfolding failures_at
  failures_at-streak p n t [] has now near few =
      now ∙ ap (λ m. some (streak threshold m t)) (omega arith)
  failures_at-streak p n t (u ∷ ts) has now (near, rest) few =
      failures_at-streak (record_failure p e u) (n + 1) u ts (record_failure-Has p u has)
        (record_failure-streak p n t u has now near (omega arith)) rest (omega arith)
      ∙ ap (λ m. some (streak threshold m (last_of u ts))) (omega arith)

-- From no record of an endpoint, failures at the given times, each within one cooldown of the one
-- before, leave exactly their number and the last time; the circuit is open, since that last time,
-- if they are as many as the threshold, and closed if they are fewer.
pub failures-open :
    (p : CircuitBreakerPolicy) (e : String) (t : ℕ) (ts : List ℕ)
    → IsValid p
    → state_at p (key_for p e) ≡ none
    → Within p.open_ms t ts
    → 1 + length ts ≤ p.failure_threshold
    → state_at (failures_at p e (t ∷ ts)) (key_for p e)
      ≡ some (streak p.failure_threshold (1 + length ts) (last_of t ts))
unfolding failures_at
failures-open p e t ts v absent near few =
    failures_at-streak p.failure_threshold p.open_ms e (key_for p e) (record_failure p e t) 1 t ts
      (record_failure-Has p.failure_threshold p.open_ms e (key_for p e) p t (refl, refl, refl))
      (record_failure_self p e t
        ∙ rw absent (ap some (failed_state-fresh p.failure_threshold p.open_ms t)))
      near few

module _ (p : CircuitBreakerPolicy) (e : String) (s : CircuitState) (opened now : ℕ)
    (found : state_at p (key_for p e) ≡ some s) (since : s.opened_at ≡ some opened) where
  open-rejects :
      (owns : Bool)
      → now < opened + p.open_ms
      → ensure_closed p e now owns ≡ (
        p,
        circuit_open (record {
          endpoint = e;
          opened_at = opened;
          retry_after_ms = opened + p.open_ms - now;
        }),
      )
  unfolding ensure_closed
  open-rejects owns before = rw (found, ensure_closed, since, check_state) (ground arith)

  claimed_policy : CircuitBreakerPolicy
  claimed_policy = with_state p (key_for p e) (record s { probe_in_flight = true })

  -- The throw of a breaker whose circuit has been open since `opened`, with the time that is left.
  abbrev pub refusal : ℕ → Admission
  refusal later =
      circuit_open
        (record { endpoint = e; opened_at = opened; retry_after_ms = opened + p.open_ms - later })

failures_at_constants :
    (p : CircuitBreakerPolicy) (e : String) (ts : List ℕ)
    → ((failures_at p e ts).open_ms ≡ p.open_ms) × (key_for (failures_at p e ts) e ≡ key_for p e)
unfolding failures_at
failures_at_constants p e [] = (refl, refl)
failures_at_constants p e (t ∷ ts) =
    let (a, b) = failures_at_constants (record_failure p e t) e ts in
    (a ∙ (record_failure-SameConfig p e t).1, b ∙ key_for-record_failure p e t)

-- On a valid policy that has no record of the endpoint, as many failures in a row as the threshold,
-- each within one cooldown of the one before, make the breaker reject every request for the endpoint
-- until one cooldown after the last failure, with the time that is left and no change of state, also
-- for a request that owns a probe.
pub failures-reject :
    (p : CircuitBreakerPolicy) (e : String) (t : ℕ) (ts : List ℕ) (now : ℕ) (owns : Bool)
    → IsValid p
    → state_at p (key_for p e) ≡ none
    → Within p.open_ms t ts
    → 1 + length ts ≡ p.failure_threshold
    → now < last_of t ts + p.open_ms
    → ensure_closed (failures_at p e (t ∷ ts)) e now owns ≡ (
      failures_at p e (t ∷ ts),
      circuit_open (record {
        endpoint = e;
        opened_at = last_of t ts;
        retry_after_ms = last_of t ts + p.open_ms - now;
      }),
    )
failures-reject p e t ts now owns v absent near enough before =
    let (same, key) = failures_at_constants p e (t ∷ ts) in
    let opened = failures-open p e t ts v absent near (omega arith) in
    open-rejects (failures_at p e (t ∷ ts)) e
      (streak p.failure_threshold (1 + length ts) (last_of t ts)) (last_of t ts) now (rw key opened)
      (ground arith) owns (rw same before)
    ∙ rw same
