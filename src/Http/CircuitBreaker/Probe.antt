-- ===== src/Http/CircuitBreaker/Probe.antt =====
-- http/circuit-breaker-policy.ts: the breaker as a state machine under each key, and the single
-- half-open probe.
use ksef_client_ts.Base.{
  ℕ, ◌+◌, ◌≤◌, ◌≡◌, refl, Bool, true, false, Option, none, some, List, [], ◌∷◌, String, arith,
  eq_iff, Bool-cases, or_default, if◌then◌else◌, inl, inr, str_eq, eq_refl,
}
use ksef_client_ts.Base.Dict.{get-put}
use ksef_client_ts.Http.CircuitBreaker.{
  CircuitState, CircuitBreakerPolicy, Admission, admitted, key_for, fresh, failed_state,
  record_failure, record_success, release_probe, ensure_closed, is_settled,
}
use ksef_client_ts.Http.CircuitBreaker.States.{
  state_at, record_failure_self, record_failure_other, record_success_states, release_probe_other,
}
use ksef_client_ts.Http.CircuitBreaker.Ensured.{
  Ensured, untracked, claim, ensure_closed-Ensured, Released, nothing, aborted,
  release_probe-Released,
}
use ksef_client_ts.Http.CircuitBreaker.Invariant.{
  WellFormed?, IsValid, Call, ensure, success, failure, release, apply, run, apply-IsValid,
}

pub data Phase : Type 0 where
  closed open_circuit half_open : Phase

abbrev pub phase_of : Option ℕ → Bool → Phase
phase_of none probing = closed
phase_of (some _) false = open_circuit
phase_of (some _) true = half_open

-- The phase of a key: one that is not in the map is closed.
abbrev pub phase : Option CircuitState → Phase
phase none = closed
phase (some s) = phase_of s.opened_at s.probe_in_flight

-- The documented transitions, each with the call that may take it.
pub data Edge : Call → Phase → Phase → Type 0 where
  stay : {c : Call} {a : Phase} → Edge c a a
  trip : {e : String} {now : ℕ} → Edge (failure e now) closed open_circuit
  probe : {e : String} {now : ℕ} → Edge (ensure e now false) open_circuit half_open
  reopen : {e : String} {now : ℕ} → Edge (failure e now) half_open open_circuit
  abort : {e : String} {now : ℕ} → Edge (release e now) half_open open_circuit
  close : {e : String} {a : Phase} → Edge (success e) a closed

settled-closed :
    (open_ms now : ℕ) (keep key : String) (s : CircuitState)
    → is_settled open_ms now keep key s ≡ true
    → phase (some s) ≡ closed
unfolding is_settled
settled-closed open_ms now keep key s h = ground arith

failed_state-Edge :
    (threshold open_ms now : ℕ) (e : String) (o : Option CircuitState)
    → WellFormed? threshold o
    → Edge
        (failure e now)
        (phase o)
        (phase (some (failed_state threshold open_ms now (or_default o fresh))))
unfolding failed_state
failed_state-Edge threshold open_ms now e none w = grind (arith, stay, trip, reopen)
failed_state-Edge threshold open_ms now e (some s) w = grind (arith, stay, trip, reopen)

module _ (p : CircuitBreakerPolicy) (v : IsValid p) (e key : String) where
  failure-Edge :
      (now : ℕ)
      → Edge
          (failure e now)
          (phase (state_at p key))
          (phase (state_at (record_failure p e now) key))
  failure-Edge now = elim (Bool-cases (str_eq key (key_for p e))) [
    | inl same ↦
        rw ((eq_iff key _).0 same, record_failure_self p e now)
          (failed_state-Edge p.failure_threshold p.open_ms now e _ (v.each (key_for p e)))
    | inr other ↦
        elim (record_failure_other p e now key v.distinct
          (ground (arith, eq_iff key (key_for p e)))) [
            | inl kept ↦ rw kept stay
            | inr (s, found, settled, gone) ↦
                rw (gone, found, settled-closed p.open_ms now (key_for p e) key s settled) stay
          ]
  ]

  success-Edge :
      Edge (success e) (phase (state_at p key)) (phase (state_at (record_success p e) key))
  success-Edge = elim (Bool-cases (str_eq (key_for p e) key)) [
    | inl same ↦ rw (record_success_states p e key, same) close
    | inr other ↦ rw (record_success_states p e key, other) stay
  ]

  Released-Edge :
      (now : ℕ) {q : CircuitBreakerPolicy}
      → Released p e now q
      → Edge (release e now) (phase (state_at p key)) (phase (state_at q key))
  Released-Edge now nothing = stay
  Released-Edge now (aborted s found probing) = elim (Bool-cases (str_eq (key_for p e) key)) [
    | inl same ↦
        rw (← (eq_iff _ key).0 same, get-put (key_for p e) (key_for p e) _ p.states, eq_refl, found)
          (grind (arith, stay, abort))
    | inr other ↦ rw (get-put (key_for p e) key _ p.states, other) stay
  ]

  Ensured-Edge :
      (now : ℕ) {owns : Bool} {r : CircuitBreakerPolicy × Admission}
      → Ensured p e now owns r
      → Edge (ensure e now owns) (phase (state_at p key)) (phase (state_at r.0 key))
  Ensured-Edge now (untracked _) = stay
  Ensured-Edge now (claim s opened found since late idle) =
      elim (Bool-cases (str_eq (key_for p e) key)) [
        | inl same ↦
            rw
              (
                ← (eq_iff _ key).0 same,
                get-put (key_for p e) (key_for p e) _ p.states,
                eq_refl,
                found,
                since,
                idle,
              )
              probe
        | inr other ↦ rw (get-put (key_for p e) key _ p.states, other) stay
      ]
  Ensured-Edge now _ = stay

-- Under every key, each call of a method on a valid policy keeps the phase or takes it along one of
-- these transitions: a failure opens a closed circuit or re-opens a half-open one, an admission that
-- owns no probe makes an open circuit half-open, a release puts a half-open circuit back to open, and
-- a success closes a circuit.
pub apply-Edge :
    (p : CircuitBreakerPolicy) (c : Call) (key : String)
    → IsValid p
    → Edge c (phase (state_at p key)) (phase (state_at (apply p c) key))
unfolding apply
apply-Edge p (ensure e now owns) key v =
    Ensured-Edge p v e key now (ensure_closed-Ensured p e now owns)
apply-Edge p (success e) key v = success-Edge p v e key
apply-Edge p (failure e now) key v = failure-Edge p v e key now
apply-Edge p (release e now) key v = Released-Edge p v e key now (release_probe-Released p e now)

abbrev pub in_flight : Phase → ℕ
in_flight half_open = 1
in_flight _ = 0

abbrev pub granted : Admission → ℕ
granted (admitted true) = 1
granted _ = 0

-- 1 if the call claims the probe of the key.
abbrev pub claimed : CircuitBreakerPolicy → String → Call → ℕ
claimed p key (ensure e now owns) =
    if str_eq (key_for p e) key then granted (ensure_closed p e now owns).1 else 0
claimed p key _ = 0

-- 1 if the call reports an outcome of the key, or gives its probe up.
abbrev pub resolved : CircuitBreakerPolicy → String → Call → ℕ
resolved p key (ensure e now owns) = 0
resolved p key (success e) = if str_eq (key_for p e) key then 1 else 0
resolved p key (failure e now) = if str_eq (key_for p e) key then 1 else 0
resolved p key (release e now) = if str_eq (key_for p e) key then 1 else 0

unfoldable pub claims : CircuitBreakerPolicy → String → List Call → ℕ
claims p key [] = 0
claims p key (c ∷ cs) = claimed p key c + claims (apply p c) key cs

unfoldable pub resolutions : CircuitBreakerPolicy → String → List Call → ℕ
resolutions p key [] = 0
resolutions p key (c ∷ cs) = resolved p key c + resolutions (apply p c) key cs

module _ (p : CircuitBreakerPolicy) (key : String) where
  -- A call neither claims nor resolves the probe of another key.
  Ensured-balance :
      (e : String) (now : ℕ) {owns : Bool} {r : CircuitBreakerPolicy × Admission}
      → Ensured p e now owns r
      → (if str_eq (key_for p e) key then granted r.1 else 0) + in_flight (phase (state_at p key))
        ≤ in_flight (phase (state_at r.0 key))
  Ensured-balance e now (untracked _) = ground arith
  Ensured-balance e now (claim s opened found since late idle) =
      elim (Bool-cases (str_eq (key_for p e) key)) [
        | inl same ↦
            rw
              (
                ← (eq_iff _ key).0 same,
                get-put (key_for p e) (key_for p e) _ p.states,
                eq_refl,
                found,
                since,
                idle,
              )
              (omega arith)
        | inr other ↦ rw (get-put (key_for p e) key _ p.states, other) (omega arith)
      ]
  Ensured-balance e now _ = ground arith

  -- A report under another key leaves the phase alone.
  failure_phase :
      (e : String) (now : ℕ)
      → IsValid p
      → str_eq (key_for p e) key ≡ false
      → phase (state_at (record_failure p e now) key) ≡ phase (state_at p key)
  failure_phase e now v other =
      elim (record_failure_other p e now key v.distinct
        (ground (arith, eq_iff (key_for p e) key))) [
          | inl kept ↦ rw kept
          | inr (s, found, settled, gone) ↦
              rw (gone, found, settled-closed p.open_ms now (key_for p e) key s settled)
        ]

  release_phase :
      (e : String) (now : ℕ)
      → str_eq (key_for p e) key ≡ false
      → phase (state_at (release_probe p e now) key) ≡ phase (state_at p key)
  release_phase e now other =
      rw (release_probe_other p e now key (ground (arith, eq_iff (key_for p e) key)))

  in_flight-le : (a : Phase) → in_flight a ≤ 1
  in_flight-le half_open = omega arith
  in_flight-le _ = omega arith

  -- A report under the key accounts for the probe, and another leaves it in flight.
  report-balance :
      (here : Bool) (a b : Phase)
      → (here ≡ false → b ≡ a)
      → 0 + in_flight a ≤ (if here then 1 else 0) + in_flight b
  report-balance true a b h = omega (arith, in_flight-le a)
  report-balance false a b h = rw (h refl) (omega arith)

  balance :
      (c : Call)
      → IsValid p
      → claimed p key c + in_flight (phase (state_at p key))
        ≤ resolved p key c + in_flight (phase (state_at (apply p c) key))
  unfolding apply
  balance (ensure e now owns) v =
      omega (arith, Ensured-balance e now (ensure_closed-Ensured p e now owns))
  balance (success e) v =
      report-balance (str_eq (key_for p e) key) _ _
        (λ other. rw (record_success_states p e key, other))
  balance (failure e now) v = report-balance (str_eq (key_for p e) key) _ _ (failure_phase e now v)
  balance (release e now) v = report-balance (str_eq (key_for p e) key) _ _ (release_phase e now)

run-balance :
    (p : CircuitBreakerPolicy) (key : String) (cs : List Call)
    → IsValid p
    → claims p key cs + in_flight (phase (state_at p key))
      ≤ resolutions p key cs + in_flight (phase (state_at (run p cs) key))
unfolding claims resolutions run
run-balance p key [] v = omega arith
run-balance p key (c ∷ cs) v =
    omega (arith, balance p key c v, run-balance (apply p c) key cs (apply-IsValid p c v))

-- In any sequence of calls on a valid policy, the claims of the probe of a key, with the probe that
-- was in flight at the start, exceed by at most one the calls that report an outcome of that key or
-- release its probe, whichever request makes them: between two claims of the probe of a key there is
-- such a call.
pub single_probe :
    (p : CircuitBreakerPolicy) (key : String) (cs : List Call)
    → IsValid p
    → claims p key cs + in_flight (phase (state_at p key)) ≤ resolutions p key cs + 1
single_probe p key cs v =
    omega (arith, run-balance p key cs v, in_flight-le p key (phase (state_at (run p cs) key)))
