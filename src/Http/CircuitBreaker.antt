-- ===== src/Http/CircuitBreaker.antt =====
-- http/circuit-breaker-policy.ts: the class's fields as a record, a method as a function from the
-- old policy to the new one. `now` is `performance.now()` at the call, in microseconds.
pub mod States
pub mod Ensured
pub mod Invariant
pub mod Probe
pub mod Opening
mod Tests
use ksef_client_ts.Base.{
  ℕ, ◌+◌, ◌-◌, ◌*◌, Bool, true, false, ◌&&◌, not, Option, none, some, [], ◌∷◌, String, ltb, leb,
  if◌then◌else◌, length, str_eq, or_default,
}
use ksef_client_ts.Base.Dict.{Dict, get, put, remove}
use ksef_client_ts.Base.Number.{Number, thousandths, positive_integer?, positive_finite?}

pub data Scope : Type 0 where
  global endpoint unknown : Scope

pub record CircuitBreakerConfig : Type 0 where
  pub failure_threshold : Option Number
  pub open_ms : Option Number
  pub scope : Option Scope

pub record CircuitState : Type 0 where
  pub failures : ℕ
  pub opened_at : Option ℕ
  pub last_failure_at : Option ℕ
  pub probe_in_flight : Bool

abbrev pub global_key : String
global_key = "__global__"

abbrev pub sweep_threshold : ℕ
sweep_threshold = 64

pub record CircuitBreakerPolicy : Type 0 where
  pub failure_threshold : ℕ
  pub open_ms : ℕ
  pub scope : Scope
  pub states : Dict CircuitState

pub data RangeError : Type 0 where
  bad_failure_threshold bad_open_ms bad_scope : RangeError

pub data Constructed : Type 0 where
  constructed : CircuitBreakerPolicy → Constructed
  range_error : RangeError → Constructed

with_scope : ℕ → ℕ → Scope → Constructed
with_scope threshold open_ms unknown = range_error bad_scope
with_scope threshold open_ms scope =
    constructed
      (record { failure_threshold = threshold; open_ms = open_ms; scope = scope; states = [] })

-- new CircuitBreakerPolicy(config)
unfoldable pub new : CircuitBreakerConfig → Constructed
unfolding with_scope
new config = elim (positive_integer? (or_default config.failure_threshold (thousandths 5000))) [
  | none ↦ range_error bad_failure_threshold
  | some threshold ↦ elim (positive_finite? (or_default config.open_ms (thousandths 30_000_000))) [
    | none ↦ range_error bad_open_ms
    | some open_ms ↦ with_scope threshold open_ms (or_default config.scope global)
  ]
]

-- KSeFCircuitOpenError
pub record CircuitOpen : Type 0 where
  pub endpoint : String
  pub opened_at : ℕ
  pub retry_after_ms : ℕ

-- What `ensureClosed` does: it returns a Boolean, or throws.
pub data Admission : Type 0 where
  admitted : Bool → Admission
  circuit_open : CircuitOpen → Admission

pub key_for_scope : Scope → String → String
key_for_scope global e = global_key
key_for_scope _ e = e

unfoldable pub key_for : CircuitBreakerPolicy → String → String
unfolding key_for_scope
key_for p e = key_for_scope p.scope e

abbrev pub with_state : CircuitBreakerPolicy → String → CircuitState → CircuitBreakerPolicy
with_state p key s = record p { states = put key s p.states }

-- The half-open branch, the cooldown over.
half_open :
    CircuitBreakerPolicy
    → String
    → String
    → CircuitState
    → ℕ
    → Bool
    → CircuitBreakerPolicy × Admission
half_open p e key s opened true = (p, admitted false)
half_open p e key s opened false =
    if s.probe_in_flight
    then (p, circuit_open (record { endpoint = e; opened_at = opened; retry_after_ms = 0 }))
    else (with_state p key (record s { probe_in_flight = true }), admitted true)

-- `elapsed >= openMs` is `opened + openMs <= now`.
check_state :
    CircuitBreakerPolicy
    → String
    → String
    → CircuitState
    → Option ℕ
    → ℕ
    → Bool
    → CircuitBreakerPolicy × Admission
unfolding half_open
check_state p e key s none now owns = (p, admitted false)
check_state p e key s (some opened) now owns =
    if leb (opened + p.open_ms) now then half_open p e key s opened owns else (
      p,
      circuit_open
          (record { endpoint = e; opened_at = opened; retry_after_ms = opened + p.open_ms - now }),
    )

-- ensureClosed(endpoint, alreadyOwnsProbe)
unfoldable pub ensure_closed :
    CircuitBreakerPolicy → String → ℕ → Bool → CircuitBreakerPolicy × Admission
unfolding check_state key_for
ensure_closed p e now owns = elim (get (key_for p e) p.states) [
  | none ↦ (p, admitted false)
  | some s ↦ check_state p e (key_for p e) s s.opened_at now owns
]

-- recordSuccess(endpoint)
unfoldable pub record_success : CircuitBreakerPolicy → String → CircuitBreakerPolicy
unfolding key_for
record_success p e = elim (get (key_for p e) p.states) [
  | none ↦ p
  | some _ ↦ record p { states = remove (key_for p e) p.states }
]

-- The cooldown clock of an open circuit, started anew.
abbrev pub restarted : ℕ → Option ℕ → Option ℕ
restarted now none = none
restarted now (some _) = some now

-- releaseProbe(endpoint)
unfoldable pub release_probe : CircuitBreakerPolicy → String → ℕ → CircuitBreakerPolicy
unfolding key_for
release_probe p e now = elim (get (key_for p e) p.states) [
  | none ↦ p
  | some s ↦
      if s.probe_in_flight
      then with_state p (key_for p e)
          (record s { probe_in_flight = false; opened_at = restarted now s.opened_at })
      else p
]

abbrev pub is_none {ℓ} : {A : Type ℓ} → Option A → Bool
is_none none = true
is_none (some _) = false

-- `last !== null && last + bound < now`
abbrev pub older_than : ℕ → ℕ → Option ℕ → Bool
older_than bound now none = false
older_than bound now (some last) = ltb (last + bound) now

-- The entries that the sweep deletes.
pub is_settled : ℕ → ℕ → String → String → CircuitState → Bool
is_settled open_ms now keep key s =
    not (str_eq key keep)
    && is_none s.opened_at
    && not s.probe_in_flight
    && older_than (2 * open_ms) now s.last_failure_at

pub sweep : ℕ → ℕ → String → Dict CircuitState → Dict CircuitState
sweep open_ms now keep [] = []
sweep open_ms now keep ((key, s) ∷ m) =
    let rest = sweep open_ms now keep m in
    if is_settled open_ms now keep key s then rest else (key, s) ∷ rest

is_endpoint : Scope → Bool
is_endpoint endpoint = true
is_endpoint _ = false

-- maybeSweepStaleClosed(now, keepKey)
unfoldable pub maybe_sweep_stale_closed : CircuitBreakerPolicy → ℕ → String → CircuitBreakerPolicy
unfolding is_endpoint sweep is_settled
maybe_sweep_stale_closed p now keep =
    if is_endpoint p.scope
    then if leb (length p.states) sweep_threshold
      then p
      else record p { states = sweep p.open_ms now keep p.states }
    else p

abbrev pub fresh : CircuitState
fresh = record { failures = 0; opened_at = none; last_failure_at = none; probe_in_flight = false }

-- The new state of the key that `recordFailure` writes, before the sweep.
unfoldable pub failed_state : ℕ → ℕ → ℕ → CircuitState → CircuitState
failed_state threshold open_ms now s =
    if not (is_none s.opened_at) && s.probe_in_flight
    then record {
      failures = threshold;
      opened_at = some now;
      last_failure_at = some now;
      probe_in_flight = false;
    }
    else let failures = if older_than open_ms now s.last_failure_at then 1 else s.failures + 1 in
      record s {
        failures = failures;
        last_failure_at = some now;
        opened_at = if is_none s.opened_at && leb threshold failures then some now else s.opened_at;
      }

-- recordFailure(endpoint)
unfoldable pub record_failure : CircuitBreakerPolicy → String → ℕ → CircuitBreakerPolicy
unfolding failed_state key_for
record_failure p e now =
    let key = key_for p e in
    let s = or_default (get key p.states) fresh in
    maybe_sweep_stale_closed (with_state p key (failed_state p.failure_threshold p.open_ms now s))
      now key
