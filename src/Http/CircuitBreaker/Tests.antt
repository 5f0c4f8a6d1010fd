-- ===== src/Http/CircuitBreaker/Tests.antt =====
-- http/circuit-breaker-policy.ts: runs of the policy, and the theorems at concrete inputs.
use ksef_client_ts.Base.{◌+◌, ◌≤◌, ◌≡◌, refl, false, none, some, List, [], ◌∷◌, arith}
use ksef_client_ts.Base.Dict.{get, put, remove}
use ksef_client_ts.Base.Number.{infinity, thousandths}
use ksef_client_ts.Http.CircuitBreaker.{
  CircuitBreakerPolicy, CircuitBreakerConfig, circuit_open, global, endpoint, constructed,
  range_error, bad_failure_threshold, bad_open_ms, new, key_for, ensure_closed, record_failure,
  record_success, maybe_sweep_stale_closed,
}
use ksef_client_ts.Http.CircuitBreaker.States.{state_at}
use ksef_client_ts.Http.CircuitBreaker.Invariant.{
  IsValid, new-IsValid, run-new-IsValid, Call, ensure, success, failure, apply, run,
}
use ksef_client_ts.Http.CircuitBreaker.Probe.{
  Edge, phase, in_flight, apply-Edge, claims, resolutions, single_probe,
}
use ksef_client_ts.Http.CircuitBreaker.Opening.{failures_at, streak, failures-open, failures-reject}

abbrev config : CircuitBreakerConfig
config = record {
  failure_threshold = some (thousandths 2000);
  open_ms = some (thousandths 100);
  scope = some endpoint;
}

-- Two failures open the circuit for 100 microseconds.
abbrev policy : CircuitBreakerPolicy
policy = record { failure_threshold = 2; open_ms = 100; scope = endpoint; states = [] }

new-config : new config ≡ constructed policy
unfolding new
new-config = refl

new_defaults :
    new (record { failure_threshold = none; open_ms = none; scope = none })
    ≡ constructed
        (record { failure_threshold = 5; open_ms = 30_000_000; scope = global; states = [] })
unfolding new
new_defaults = refl

new_rejects :
    (new (record { failure_threshold = some (thousandths 1500); open_ms = none; scope = none })
      ≡ range_error bad_failure_threshold)
    × (new (record { failure_threshold = none; open_ms = some infinity; scope = none })
        ≡ range_error bad_open_ms)
unfolding new
new_rejects = (refl, refl)

policy-IsValid : IsValid policy
policy-IsValid = new-IsValid config policy new-config

abbrev calls : List Call
calls =
    failure "a" 10
    ∷ failure "a" 60
    ∷ ensure "a" 100 false
    ∷ ensure "a" 160 false
    ∷ ensure "a" 170 false
    ∷ failure "a" 180
    ∷ ensure "a" 280 false
    ∷ success "a"
    ∷ []

calls_claim : (claims policy "a" calls ≡ 2) × (resolutions policy "a" calls ≡ 4)
unfolding claims resolutions apply ensure_closed record_failure record_success
    maybe_sweep_stale_closed get put remove
calls_claim = (refl, refl)

run-new-IsValid_example : IsValid (run policy calls)
run-new-IsValid_example = run-new-IsValid config policy calls new-config

apply-Edge_example :
    Edge
      (failure "a" 10)
      (phase (state_at policy "a"))
      (phase (state_at (apply policy (failure "a" 10)) "a"))
apply-Edge_example = apply-Edge policy (failure "a" 10) "a" policy-IsValid

single_probe_example :
    claims policy "a" calls + in_flight (phase (state_at policy "a"))
    ≤ resolutions policy "a" calls + 1
single_probe_example = single_probe policy "a" calls policy-IsValid

failures-open_example :
    state_at (failures_at policy "a" (10 ∷ 60 ∷ [])) (key_for policy "a") ≡ some (streak 2 2 60)
unfolding get key_for
failures-open_example =
    failures-open policy "a" 10 (60 ∷ []) policy-IsValid refl (omega arith) (omega arith)

failures-reject_example : ensure_closed (failures_at policy "a" (10 ∷ 60 ∷ [])) "a" 159 false ≡ (
  failures_at policy "a" (10 ∷ 60 ∷ []),
  circuit_open (record { endpoint = "a"; opened_at = 60; retry_after_ms = 1 }),
)
unfolding get key_for
failures-reject_example =
    failures-reject policy "a" 10 (60 ∷ []) 159 false policy-IsValid refl (omega arith) refl
      (omega arith)

abbrev opened : CircuitBreakerPolicy
opened = record policy { states = ("a", streak 2 2 60) ∷ [] }
