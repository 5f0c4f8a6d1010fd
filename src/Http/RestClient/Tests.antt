-- ===== src/Http/RestClient/Tests.antt =====
-- http/rest-client.ts: runs of a request, and the theorems at concrete inputs.
use ksef_client_ts.Base.{arith, ℕ, ◌+◌, ◌≤◌, ◌≡◌, refl, true, false, none, some, [], ◌∷◌, ◌==◌}
use ksef_client_ts.Base.Dict.{get}
use ksef_client_ts.Base.Number.{nan}
use ksef_client_ts.Http.CircuitBreaker.{CircuitBreakerPolicy, global, ensure_closed, record_success}
use ksef_client_ts.Http.CircuitBreaker.Invariant.{success, apply, run}
use ksef_client_ts.Http.Retry.{
  Response, js_error, invalid_date, default_retry_policy, calculate_backoff, get_retry_after_ms,
  is_non_idempotent, is_retryable_error, is_retryable_status,
}
use ksef_client_ts.Http.RestClient.{
  RestRequest, RestClient, Reply, responds, throws, token, Round, sent, slept, reported, answer,
  caught, finish, wait_and_retry, settle, admitted_turn, turn, loop, Entry, send_request,
}
use ksef_client_ts.Http.RestClient.Events.{total, is_sent, is_claimed, is_reported}
use ksef_client_ts.Http.RestClient.Outcome.{Ends, send_request-Ends}
use ksef_client_ts.Http.RestClient.Reports.{ReportsAt, send_request_reports_once}
use ksef_client_ts.Http.RestClient.Ownership.{Covers, send_request-Covers}
use ksef_client_ts.Http.RestClient.Waits.{AllFit, send_request-AllFit}
use ksef_client_ts.Http.RestClient.Resend.{acted, send_request-acted}

abbrev client : RestClient
client = record {
  retry_policy = default_retry_policy;
  host = record { to_number = λ t. nan; to_date = λ t. invalid_date };
  has_rate_limit = true;
  has_auth_manager = true;
  has_presigned_policy = false;
}

abbrev query : RestRequest
query = record {
  method = "GET";
  path = "invoices";
  is_presigned = false;
  skip_auth_retry = false;
  retry_safe = false;
}

abbrev post : RestRequest
post = record query { method = "POST" }

abbrev quiet : Entry
quiet = record { url_valid = true; checked_at = 0; acquire = none; during = []; released_at = 0 }

abbrev answers : ℕ → Response
answers status = record { status = status; retry_after = none }

abbrev calm_round : Reply → Round
calm_round reply = record {
  before = [];
  checked_at = 10;
  reply = reply;
  refresh = token none;
  replay = reply;
  during = [];
  recorded_at = 20;
  date_now = 0;
  random = 0;
  acquire = none;
  late = [];
  late_at = 30;
}

abbrev breaker : CircuitBreakerPolicy
breaker = record { failure_threshold = 2; open_ms = 100; scope = global; states = [] }

-- Two refused connections, then an answer.
abbrev flaky : ℕ → Round
flaky i = calm_round (elim (i == 2) [
  | true ↦ responds (answers 200)
  | false ↦ throws (js_error "Error" (some "ECONNREFUSED"))
])

flaky_run :
    (send_request client post quiet flaky (some breaker)).events
    ≡ sent false (throws (js_error "Error" (some "ECONNREFUSED")))
      ∷ slept 500_000
      ∷ sent false (throws (js_error "Error" (some "ECONNREFUSED")))
      ∷ slept 1_000_000
      ∷ sent false (responds (answers 200))
      ∷ reported (success "invoices")
      ∷ []
unfolding send_request loop turn admitted_turn answer settle caught finish wait_and_retry
    is_retryable_error is_retryable_status is_non_idempotent calculate_backoff ensure_closed run
    apply record_success get get_retry_after_ms
flaky_run = refl

send_request-Ends_example :
    Ends (send_request client post quiet flaky (some breaker)).verdict
    × (total is_sent (send_request client post quiet flaky (some breaker)).events ≤ 3 + 2)
send_request-Ends_example = send_request-Ends client post quiet flaky (some breaker)

send_request_reports_once_example :
    ReportsAt true
      (send_request client post quiet flaky (some breaker)).verdict
      (total is_reported (send_request client post quiet flaky (some breaker)).events)
send_request_reports_once_example =
    send_request_reports_once client post quiet flaky (some breaker) (λ i. tt)

send_request-Covers_example :
    Covers
      (send_request client query quiet flaky (some breaker)).verdict
      (total is_claimed (send_request client query quiet flaky (some breaker)).events)
      (total is_reported (send_request client query quiet flaky (some breaker)).events)
send_request-Covers_example = send_request-Covers client query quiet flaky breaker

post_unsafe : is_non_idempotent (some "POST") ≡ true
unfolding is_non_idempotent
post_unsafe = refl

send_request-acted_example :
    total acted (send_request client post quiet flaky (some breaker)).events ≤ 1
send_request-acted_example = send_request-acted client post quiet flaky (some breaker) post_unsafe

send_request-AllFit_example : AllFit (send_request client post quiet flaky (some breaker)).events
send_request-AllFit_example =
    send_request-AllFit client post flaky (λ n. omega arith) quiet (some breaker)
