-- ===== src/Http/CircuitBreaker/Invariant.antt =====
-- http/circuit-breaker-policy.ts: the invariant of the map, which every method keeps.
use ksef_client_ts.Base.{
  ℕ, ◌<◌, ◌≡◌, List, [], ◌∷◌, Bool, true, Option, none, some, String, arith, eq_iff, Bool-cases,
  or_default, inl, inr, ◌⊎◌, ◌≢◌, str_eq,
}
use ksef_client_ts.Base.Dict.{get, Distinct, get-put}
use ksef_client_ts.Http.CircuitBreaker.{
  CircuitState, CircuitBreakerPolicy, CircuitBreakerConfig, Admission, constructed, new, key_for,
  fresh, failed_state, record_failure, record_success, release_probe, ensure_closed,
}
use ksef_client_ts.Http.CircuitBreaker.States.{
  state_at, record_failure-SameConfig, record_success-SameConfig, release_probe-SameConfig,
  ensure_closed-SameConfig, record_failure_self, record_failure_other, record_failure-Distinct,
  record_success_states, record_success-Distinct, release_probe-Distinct, ensure_closed-Distinct,
}
use ksef_client_ts.Http.CircuitBreaker.Ensured.{
  Ensured, untracked, claim, ensure_closed-Ensured, Released, nothing, aborted,
  release_probe-Released,
}

-- What holds of every state in the map: a closed circuit is below the threshold, and a probe is in
-- flight only while the circuit is open.
pub record WellFormed (threshold : ℕ) (s : CircuitState) : Type 0 where
  pub closed_below : s.opened_at ≡ none → s.failures < threshold
  pub probe_open : s.probe_in_flight ≡ true → s.opened_at ≢ none
  pub recorded : s.last_failure_at ≢ none

abbrev pub WellFormed? : ℕ → Option CircuitState → Type 0
WellFormed? threshold none = Unit
WellFormed? threshold (some s) = WellFormed threshold s

pub record IsValid (p : CircuitBreakerPolicy) : Type 0 where
  pub threshold_pos : 0 < p.failure_threshold
  pub open_pos : 0 < p.open_ms
  pub distinct : Distinct p.states
  pub each : (key : String) → WellFormed? p.failure_threshold (state_at p key)

failed_state-WellFormed :
    (threshold open_ms now : ℕ) (s : CircuitState)
    → 0 < threshold
    → (s.probe_in_flight ≡ true → s.opened_at ≢ none)
    → WellFormed threshold (failed_state threshold open_ms now s)
unfolding failed_state
failed_state-WellFormed threshold open_ms now s pos h = ground arith

-- The state that a failure starts from: the map's, or a fresh one.
start-probe_open :
    (threshold : ℕ) (o : Option CircuitState)
    → WellFormed? threshold o
    → (or_default o fresh).probe_in_flight ≡ true
    → (or_default o fresh).opened_at ≢ none
start-probe_open threshold none w h = cc
start-probe_open threshold (some s) w h = w.probe_open h

-- A new state under one key, and no change elsewhere or a deletion there.
WellFormed?-other :
    (threshold : ℕ) {o q : Option CircuitState}
    → WellFormed? threshold o
    → (q ≡ o) ⊎ (q ≡ none)
    → WellFormed? threshold q
WellFormed?-other threshold w (inl same) = rw same w
WellFormed?-other threshold w (inr gone) = rw gone tt

module _ (p : CircuitBreakerPolicy) (e : String) (v : IsValid p) where
  record_failure-each :
      (now : ℕ) (key : String)
      → WellFormed? p.failure_threshold (state_at (record_failure p e now) key)
  record_failure-each now key = elim (Bool-cases (str_eq key (key_for p e))) [
    | inl same ↦
        rw ((eq_iff key _).0 same, record_failure_self p e now)
          (failed_state-WellFormed _ _ now _ v.threshold_pos
            (start-probe_open _ _ (v.each (key_for p e))))
    | inr other ↦
        elim (record_failure_other p e now key v.distinct
          (ground (arith, eq_iff key (key_for p e)))) [
            | inl kept ↦ rw kept (v.each key)
            | inr (_, _, _, gone) ↦ rw gone tt
          ]
  ]

  record_success-each :
      (key : String) → WellFormed? p.failure_threshold (state_at (record_success p e) key)
  record_success-each key = elim (Bool-cases (str_eq (key_for p e) key)) [
    | inl same ↦ rw (record_success_states p e key, same) tt
    | inr other ↦ rw (record_success_states p e key, other) (v.each key)
  ]

  Released-each :
      (now : ℕ) {q : CircuitBreakerPolicy} (key : String)
      → Released p e now q
      → WellFormed? p.failure_threshold (state_at q key)
  Released-each now key nothing = v.each key
  Released-each now key (aborted s found probing) = elim (Bool-cases (str_eq (key_for p e) key)) [
    | inl same ↦
        let w : WellFormed p.failure_threshold s = rw found at (v.each (key_for p e)) in
        rw (get-put (key_for p e) key _ p.states, same) (ground arith)
    | inr other ↦ rw (get-put (key_for p e) key _ p.states, other) (v.each key)
  ]

  Ensured-each :
      (now : ℕ) {owns : Bool} {r : CircuitBreakerPolicy × Admission} (key : String)
      → Ensured p e now owns r
      → WellFormed? p.failure_threshold (state_at r.0 key)
  Ensured-each now key (untracked _) = v.each key
  Ensured-each now key (claim s opened found since late idle) =
      elim (Bool-cases (str_eq (key_for p e) key)) [
        | inl same ↦
            let w : WellFormed p.failure_threshold s = rw found at (v.each (key_for p e)) in
            rw (get-put (key_for p e) key _ p.states, same) (ground arith)
        | inr other ↦ rw (get-put (key_for p e) key _ p.states, other) (v.each key)
      ]
  Ensured-each now key _ = v.each key

-- A policy that the constructor accepts is valid.
pub new-IsValid :
    (config : CircuitBreakerConfig) (p : CircuitBreakerPolicy)
    → new config ≡ constructed p
    → IsValid p
unfolding new get
new-IsValid config p h =
    let facts : (0 < p.failure_threshold) × (0 < p.open_ms) × (p.states ≡ []) = ground arith in
    record {
      threshold_pos = facts.0;
      open_pos = facts.1;
      distinct = rw facts.2 tt;
      each = λ key. rw facts.2 tt;
    }

pub record_failure-IsValid :
    (p : CircuitBreakerPolicy) (e : String) (now : ℕ) → IsValid p → IsValid (record_failure p e now)
record_failure-IsValid p e now v =
    let same = record_failure-SameConfig p e now in
    record {
      threshold_pos = rw same.0 v.threshold_pos;
      open_pos = rw same.1 v.open_pos;
      distinct = record_failure-Distinct p e now v.distinct;
      each = λ key. rw same.0 (record_failure-each p e v now key);
    }

pub record_success-IsValid :
    (p : CircuitBreakerPolicy) (e : String) → IsValid p → IsValid (record_success p e)
record_success-IsValid p e v =
    let same = record_success-SameConfig p e in
    record {
      threshold_pos = rw same.0 v.threshold_pos;
      open_pos = rw same.1 v.open_pos;
      distinct = record_success-Distinct p e v.distinct;
      each = λ key. rw same.0 (record_success-each p e v key);
    }

pub release_probe-IsValid :
    (p : CircuitBreakerPolicy) (e : String) (now : ℕ) → IsValid p → IsValid (release_probe p e now)
release_probe-IsValid p e now v =
    let same = release_probe-SameConfig p e now in
    record {
      threshold_pos = rw same.0 v.threshold_pos;
      open_pos = rw same.1 v.open_pos;
      distinct = release_probe-Distinct p e now v.distinct;
      each = λ key. rw same.0 (Released-each p e v now key (release_probe-Released p e now));
    }

pub ensure_closed-IsValid :
    (p : CircuitBreakerPolicy) (e : String) (now : ℕ) (owns : Bool)
    → IsValid p
    → IsValid (ensure_closed p e now owns).0
ensure_closed-IsValid p e now owns v =
    let same = ensure_closed-SameConfig p e now owns in
    record {
      threshold_pos = rw same.0 v.threshold_pos;
      open_pos = rw same.1 v.open_pos;
      distinct = ensure_closed-Distinct p e now owns v.distinct;
      each = λ key. rw same.0 (Ensured-each p e v now key (ensure_closed-Ensured p e now owns));
    }

-- A call of a method, with the time at which it runs.
pub data Call : Type 0 where
  ensure : String → ℕ → Bool → Call
  success : String → Call
  failure release : String → ℕ → Call

unfoldable pub apply : CircuitBreakerPolicy → Call → CircuitBreakerPolicy
apply p (ensure e now owns) = (ensure_closed p e now owns).0
apply p (success e) = record_success p e
apply p (failure e now) = record_failure p e now
apply p (release e now) = release_probe p e now

unfoldable pub run : CircuitBreakerPolicy → List Call → CircuitBreakerPolicy
run p [] = p
run p (c ∷ cs) = run (apply p c) cs

pub apply-IsValid : (p : CircuitBreakerPolicy) (c : Call) → IsValid p → IsValid (apply p c)
unfolding apply
apply-IsValid p (ensure e now owns) v = ensure_closed-IsValid p e now owns v
apply-IsValid p (success e) v = record_success-IsValid p e v
apply-IsValid p (failure e now) v = record_failure-IsValid p e now v
apply-IsValid p (release e now) v = release_probe-IsValid p e now v

run-IsValid : (p : CircuitBreakerPolicy) (cs : List Call) → IsValid p → IsValid (run p cs)
unfolding run
run-IsValid p [] v = v
run-IsValid p (c ∷ cs) v = run-IsValid (apply p c) cs (apply-IsValid p c v)

-- Whatever methods are called on a policy that the constructor accepts, on whatever endpoints and
-- at whatever times, the thresholds stay positive, the keys stay unique, and under every key a
-- closed circuit is below its threshold and a probe in flight has an open circuit.
pub run-new-IsValid :
    (config : CircuitBreakerConfig) (p : CircuitBreakerPolicy) (cs : List Call)
    → new config ≡ constructed p
    → IsValid (run p cs)
run-new-IsValid config p cs h = run-IsValid p cs (new-IsValid config p h)
