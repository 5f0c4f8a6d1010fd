-- ===== src/Http/RestClient.antt =====
-- http/rest-client.ts: `sendRequest` as a function of what its environment does. Between two
-- awaits the method runs alone; at each await other requests may call the shared breaker, which a
-- `Round` records as a list of calls. The environment's times are those of the breaker's clock.
pub mod Turns
pub mod Events
pub mod Ownership
pub mod Outcome
pub mod Reports
pub mod Resend
pub mod Waits
mod Tests
use ksef_client_ts.Base.{
  ℕ, zero, suc, ◌+◌, Bool, true, false, ◌&&◌, ◌||◌, not, Option, none, some, List, [], ◌∷◌, ◌++◌,
  String, leb, ltb, ◌==◌, if◌then◌else◌, or_default, str_eq,
}
use ksef_client_ts.Http.CircuitBreaker.{
  CircuitBreakerPolicy, CircuitOpen, Admission, admitted, circuit_open, ensure_closed,
}
use ksef_client_ts.Http.CircuitBreaker.Invariant.{
  Call, ensure, success, failure, release, apply, run,
}
use ksef_client_ts.Http.Retry.{
  RetryPolicy, Host, Response, Thrown, calculate_backoff, get_retry_after_ms,
  exceeds_max_retry_after, is_retryable_error, is_retryable_status,
}

-- The parts of RestRequest that `sendRequest` reads.
pub record RestRequest : Type 0 where
  pub method : String
  pub path : String
  pub is_presigned : Bool
  pub skip_auth_retry : Bool
  pub retry_safe : Bool

-- The client's configuration; its breaker, if any, is shared state and travels beside it.
pub record RestClient : Type 0 where
  pub retry_policy : RetryPolicy
  pub host : Host
  pub has_rate_limit : Bool
  pub has_auth_manager : Bool
  pub has_presigned_policy : Bool

-- The outcome of a transport call.
pub data Reply : Type 0 where
  responds : Response → Reply
  throws : Thrown → Reply

-- The outcome of `onUnauthorized()`: a token, `null` as `none`, or a throw.
pub data Refresh : Type 0 where
  token : Option String → Refresh
  refresh_throws : Thrown → Refresh

-- What the environment does in one round of the retry loop.
pub record Round : Type 0 where
  pub before : List Call
  pub checked_at : ℕ
  pub reply : Reply
  pub refresh : Refresh
  pub replay : Reply
  pub during : List Call
  pub recorded_at : ℕ
  pub date_now : ℕ
  pub random : ℕ
  pub acquire : Option Thrown
  pub late : List Call
  pub late_at : ℕ

pub data Failure : Type 0 where
  thrown : Thrown → Failure
  breaker_open : CircuitOpen → Failure
  invalid_url last_error_unset : Failure

-- What the method does, in order. `claimed` is an admission that took the probe.
pub data Event : Type 0 where
  sent : Bool → Reply → Event
  slept : ℕ → Event
  claimed : Event
  reported : Call → Event

pub data Verdict : Type 0 where
  returned : Response → Verdict
  raised : Failure → Verdict
  again : Verdict

-- The shared breaker, the ownership of the probe, what was done, and how it ended.
pub record Turn : Type 0 where
  pub breaker : Option CircuitBreakerPolicy
  pub owns : Bool
  pub events : List Event
  pub verdict : Verdict

abbrev pub interfere : Option CircuitBreakerPolicy → List Call → Option CircuitBreakerPolicy
interfere none cs = none
interfere (some p) cs = some (run p cs)

-- A method of the breaker that is called if there is one, with the event.
abbrev pub report : Option CircuitBreakerPolicy → Call → Option CircuitBreakerPolicy × List Event
report none c = (none, [])
report (some p) c = (some (apply p c), reported c ∷ [])

-- recordCircuitOutcome(path, status)
abbrev pub outcome_call : String → ℕ → ℕ → Call
outcome_call path status now = if leb 500 status then failure path now else success path

-- The answer of a round: the transport's reply, or after a refresh the reply to the new token.
unfoldable pub refreshed : Refresh → Response → Reply → Reply × List Event
refreshed (refresh_throws e) first replay = (throws e, [])
refreshed (token none) first replay = (responds first, [])
refreshed (token (some t)) first replay =
    if str_eq t "" then (responds first, []) else (replay, sent true replay ∷ [])

abbrev pub answer_response : RestClient → RestRequest → ℕ → Round → Response → Reply × List Event
answer_response c q attempt o r =
    if r.status == 401 && c.has_auth_manager && attempt == 0 && not q.skip_auth_retry
    then refreshed o.refresh r o.replay
    else (responds r, [])

abbrev pub answer_reply : RestClient → RestRequest → ℕ → Round → Reply → Reply × List Event
answer_reply c q attempt o (throws e) = (throws e, [])
answer_reply c q attempt o (responds r) = answer_response c q attempt o r

unfoldable pub answer : RestClient → RestRequest → ℕ → Round → Reply × List Event
unfolding refreshed
answer c q attempt o =
    let (final, more) = answer_reply c q attempt o o.reply in (final, sent false o.reply ∷ more)

-- retryMethod
abbrev pub retry_method : RestRequest → Option String
retry_method q = if q.retry_safe then none else some q.method

-- A terminal error that counts against the breaker.
abbrev pub reported_failure : RestRequest → ℕ → Option CircuitBreakerPolicy → Bool → Thrown → Turn
reported_failure q now b owns e =
    let (b', reports) = report b (failure q.path now) in
    record { breaker = b'; owns = owns; events = reports; verdict = raised (thrown e) }

-- The `catch` block. `b` is the breaker, as it is when the error is caught.
unfoldable pub caught :
    RestClient → RestRequest → ℕ → Round → ℕ → Option CircuitBreakerPolicy → Bool → Thrown → Turn
caught c q attempt o now b owns e =
    if is_retryable_error e c.retry_policy (retry_method q)
      && ltb attempt c.retry_policy.max_retries
    then record {
      breaker = b;
      owns = owns;
      events = slept (calculate_backoff attempt c.retry_policy o.random) ∷ [];
      verdict = again;
    }
    else if is_retryable_error e c.retry_policy none || owns
    then reported_failure q now b owns e
    else record { breaker = b; owns = owns; events = []; verdict = raised (thrown e) }

-- A response that is final: its outcome is recorded, and it is returned.
unfoldable pub finish : RestRequest → Round → Option CircuitBreakerPolicy → Bool → Response → Turn
finish q o b owns r =
    let (b', reports) = report b (outcome_call q.path r.status o.recorded_at) in
    record { breaker = b'; owns = owns; events = reports; verdict = returned r }

abbrev pub with_events : List Event → Turn → Turn
with_events before t = record t { events = before ++ t.events }

-- A retryable response after its wait: on 429 the limiter is asked again, and if it throws, the
-- outcome is recorded and the error goes to the `catch` block.
abbrev pub reacquire :
    RestClient → RestRequest → ℕ → Round → Option CircuitBreakerPolicy → Bool → Option Thrown → Turn
reacquire c q attempt o b owns none = record {
  breaker = b;
  owns = owns;
  events = [];
  verdict = again;
}
reacquire c q attempt o b owns (some e) =
    let (b', reports) = report (interfere b o.late) (outcome_call q.path 429 o.late_at) in
    with_events reports (caught c q attempt o o.late_at b' false e)

unfoldable pub wait_and_retry :
    RestClient → RestRequest → ℕ → Round → Option CircuitBreakerPolicy → Bool → Response → ℕ → Turn
wait_and_retry c q attempt o b owns r delay = with_events (slept delay ∷ []) (
    if r.status == 429 && c.has_rate_limit
    then reacquire c q attempt o b owns o.acquire
    else record { breaker = b; owns = owns; events = []; verdict = again })

-- A retryable response with budget left, by its `Retry-After`.
abbrev pub retry_response :
    RestClient
    → RestRequest
    → ℕ
    → Round
    → Option CircuitBreakerPolicy
    → Bool
    → Response
    → Option ℕ
    → Turn
retry_response c q attempt o b owns r none =
    wait_and_retry c q attempt o b owns r (calculate_backoff attempt c.retry_policy o.random)
retry_response c q attempt o b owns r (some d) =
    if exceeds_max_retry_after d c.retry_policy
    then finish q o b owns r
    else wait_and_retry c q attempt o b owns r d

-- The `try` block after its transport calls.
unfoldable pub settle :
    RestClient → RestRequest → ℕ → Round → Option CircuitBreakerPolicy → Bool → Reply → Turn
settle c q attempt o b owns (throws e) = caught c q attempt o o.recorded_at b owns e
settle c q attempt o b owns (responds r) =
    if is_retryable_status r.status c.retry_policy (retry_method q)
      && ltb attempt c.retry_policy.max_retries
    then retry_response c q attempt o b owns r (get_retry_after_ms c.host o.date_now r)
    else finish q o b owns r

-- The breaker's check at the start of a round: the breaker after it, and the admission.
abbrev pub check :
    Option CircuitBreakerPolicy → String → ℕ → Bool → Option CircuitBreakerPolicy × Admission
check none path now owns = (none, admitted false)
check (some p) path now owns =
    let (p', admission) = ensure_closed p path now owns in (some p', admission)

abbrev pub claim_events : Bool → List Event
claim_events true = claimed ∷ []
claim_events false = []

-- One round once the breaker has answered.
unfoldable pub admitted_turn :
    RestClient → RestRequest → ℕ → Round → Bool → Option CircuitBreakerPolicy → Admission → Turn
admitted_turn c q attempt o owns b (circuit_open e) = record {
  breaker = b;
  owns = owns;
  events = [];
  verdict = raised (breaker_open e);
}
admitted_turn c q attempt o owns b (admitted claim) =
    let (final, sends) = answer c q attempt o in
    with_events (claim_events claim)
      (with_events sends (settle c q attempt o (interfere b o.during) (owns || claim) final))

-- One iteration of the retry loop.
unfoldable pub turn :
    RestClient → RestRequest → ℕ → Round → Option CircuitBreakerPolicy → Bool → Turn
turn c q attempt o b owns =
    let (b', admission) = check (interfere b o.before) q.path o.checked_at owns in
    admitted_turn c q attempt o owns b' admission

-- The loop goes on after a turn that asks for another round. What it would do there is given.
abbrev pub continue : Verdict → Turn → Turn → Turn
continue again t rest = with_events t.events rest
continue _ t rest = t

-- The retry loop, with the rounds that are left: `maxRetries + 1 - attempt`.
unfoldable pub loop :
    RestClient → RestRequest → (ℕ → Round) → ℕ → ℕ → Option CircuitBreakerPolicy → Bool → Turn
loop c q rounds zero attempt b owns = record {
  breaker = b;
  owns = owns;
  events = [];
  verdict = raised last_error_unset;
}
loop c q rounds (suc left) attempt b owns =
    let t = turn c q attempt (rounds attempt) b owns in
    let rest = loop c q rounds left (suc attempt) t.breaker t.owns in continue t.verdict t rest

-- What the environment does before the loop.
pub record Entry : Type 0 where
  pub url_valid : Bool
  pub checked_at : ℕ
  pub acquire : Option Thrown
  pub during : List Call
  pub released_at : ℕ

-- The limiter threw before the loop: a claimed probe is released.
abbrev pub limiter_failed : RestRequest → Entry → Option CircuitBreakerPolicy → Bool → Thrown → Turn
limiter_failed q n b true e =
    let (b', reports) = report b (release q.path n.released_at) in
    record { breaker = b'; owns = true; events = reports; verdict = raised (thrown e) }
limiter_failed q n b false e = record {
  breaker = b;
  owns = false;
  events = [];
  verdict = raised (thrown e);
}

abbrev pub start_loop :
    RestClient
    → RestRequest
    → Entry
    → (ℕ → Round)
    → Option CircuitBreakerPolicy
    → Bool
    → Option Thrown
    → Turn
start_loop c q n rounds b owns none = loop c q rounds (suc c.retry_policy.max_retries) 0 b owns
start_loop c q n rounds b owns (some e) = limiter_failed q n (interfere b n.during) owns e

abbrev pub enter :
    RestClient → RestRequest → Entry → (ℕ → Round) → Option CircuitBreakerPolicy → Admission → Turn
enter c q n rounds b (circuit_open e) = record {
  breaker = b;
  owns = false;
  events = [];
  verdict = raised (breaker_open e);
}
enter c q n rounds b (admitted claim) =
    with_events (claim_events claim)
      (start_loop c q n rounds b claim (if c.has_rate_limit then n.acquire else none))

-- sendRequest(request)
unfoldable pub send_request :
    RestClient → RestRequest → Entry → (ℕ → Round) → Option CircuitBreakerPolicy → Turn
send_request c q n rounds b =
    if q.is_presigned && c.has_presigned_policy && not n.url_valid
    then record { breaker = b; owns = false; events = []; verdict = raised invalid_url }
    else let (b', admission) = check b q.path n.checked_at false in enter c q n rounds b' admission
