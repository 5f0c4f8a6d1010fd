-- ===== src/Http/CircuitBreaker/Ensured.antt =====
-- http/circuit-breaker-policy.ts: the outcomes of `ensureClosed` and of `releaseProbe`, one
-- constructor for each.
use ksef_client_ts.Base.{
  ℕ, ◌+◌, ◌-◌, ◌≤◌, ◌<◌, ◌≡◌, refl, Bool, true, false, Option, none, some, String, arith, leb,
  leb→le, Bool-cases, Option-cases, inl, inr,
}
use ksef_client_ts.Base.Dict.{get}
use ksef_client_ts.Http.CircuitBreaker.{
  CircuitState, CircuitBreakerPolicy, Admission, admitted, circuit_open, key_for, with_state,
  ensure_closed, check_state, half_open, restarted, release_probe,
}
use ksef_client_ts.Http.CircuitBreaker.States.{state_at}

pub data Ensured (p : CircuitBreakerPolicy) (e : String) (now : ℕ)
    : Bool → CircuitBreakerPolicy × Admission → Type 0 where
  untracked :
      {owns : Bool} → state_at p (key_for p e) ≡ none → Ensured p e now owns (p, admitted false)
  unopened :
      {owns : Bool} (s : CircuitState)
      → state_at p (key_for p e) ≡ some s
      → s.opened_at ≡ none
      → Ensured p e now owns (p, admitted false)
  cooling :
      {owns : Bool} (s : CircuitState) (opened : ℕ)
      → state_at p (key_for p e) ≡ some s
      → s.opened_at ≡ some opened
      → now < opened + p.open_ms
      → Ensured p e now owns (
        p,
        circuit_open (record {
          endpoint = e;
          opened_at = opened;
          retry_after_ms = opened + p.open_ms - now;
        }),
      )
  owner :
      (s : CircuitState) (opened : ℕ)
      → state_at p (key_for p e) ≡ some s
      → s.opened_at ≡ some opened
      → opened + p.open_ms ≤ now
      → Ensured p e now true (p, admitted false)
  busy :
      (s : CircuitState) (opened : ℕ)
      → state_at p (key_for p e) ≡ some s
      → s.opened_at ≡ some opened
      → opened + p.open_ms ≤ now
      → s.probe_in_flight ≡ true
      → Ensured p e now false
          (p, circuit_open (record { endpoint = e; opened_at = opened; retry_after_ms = 0 }))
  claim :
      (s : CircuitState) (opened : ℕ)
      → state_at p (key_for p e) ≡ some s
      → s.opened_at ≡ some opened
      → opened + p.open_ms ≤ now
      → s.probe_in_flight ≡ false
      → Ensured p e now false
          (with_state p (key_for p e) (record s { probe_in_flight = true }), admitted true)

module _ (p : CircuitBreakerPolicy) (e : String) (now : ℕ) (s : CircuitState) where
  check_state-Ensured :
      (opened : Option ℕ) (owns : Bool)
      → state_at p (key_for p e) ≡ some s
      → s.opened_at ≡ opened
      → Ensured p e now owns (check_state p e (key_for p e) s opened now owns)
  unfolding check_state half_open
  check_state-Ensured none owns found since = unopened s found since
  check_state-Ensured (some t) owns found since = elim (Bool-cases (leb (t + p.open_ms) now)) [
    | inr before ↦ rw before (cooling s t found since (ground arith))
    | inl over ↦ rw over (after owns (leb→le _ _ over))
  ]
    where
      after :
          (owns : Bool)
          → t + p.open_ms ≤ now
          → Ensured p e now owns (half_open p e (key_for p e) s t owns)
      after true late = owner s t found since late
      after false late = elim (Bool-cases s.probe_in_flight) [
        | inl probing ↦ rw probing (busy s t found since late probing)
        | inr idle ↦ rw idle (claim s t found since late idle)
      ]

pub ensure_closed-Ensured :
    (p : CircuitBreakerPolicy) (e : String) (now : ℕ) (owns : Bool)
    → Ensured p e now owns (ensure_closed p e now owns)
unfolding ensure_closed
ensure_closed-Ensured p e now owns = elim (Option-cases (get (key_for p e) p.states)) [
  | inl absent ↦ rw (absent, ensure_closed) (untracked absent)
  | inr (s, found) ↦
      rw (found, ensure_closed) (check_state-Ensured p e now s s.opened_at owns found refl)
]

-- The outcomes of `releaseProbe`: nothing to release, or an aborted probe.
pub data Released (p : CircuitBreakerPolicy) (e : String) (now : ℕ)
    : CircuitBreakerPolicy → Type 0 where
  nothing : Released p e now p
  aborted :
      (s : CircuitState)
      → state_at p (key_for p e) ≡ some s
      → s.probe_in_flight ≡ true
      → Released p e now (
          with_state p
            (key_for p e)
            (record s { probe_in_flight = false; opened_at = restarted now s.opened_at }))

pub release_probe-Released :
    (p : CircuitBreakerPolicy) (e : String) (now : ℕ) → Released p e now (release_probe p e now)
unfolding release_probe
release_probe-Released p e now = elim (Option-cases (get (key_for p e) p.states)) [
  | inl absent ↦ rw (absent, release_probe) nothing
  | inr (s, found) ↦ elim (Bool-cases s.probe_in_flight) [
    | inl probing ↦ rw (found, release_probe, probing) (aborted s found probing)
    | inr idle ↦ rw (found, release_probe, idle) nothing
  ]
]
