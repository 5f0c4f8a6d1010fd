-- ===== src/Http/RestClient/Reports.antt =====
-- http/rest-client.ts: the outcome of a request is reported to the breaker once.
use ksef_client_ts.Base.{
  ℕ, zero, suc, ◌≤◌, ◌≡◌, refl, Bool, true, false, Option, none, some, List, [], arith,
  if◌then◌else◌, inl, inr, Bool-cases, ◌&&◌, ◌||◌, not, is_some, ◌∙◌, ap, ◌++◌, String,
}
use ksef_client_ts.Http.CircuitBreaker.{CircuitBreakerPolicy, Admission, admitted, circuit_open}
use ksef_client_ts.Http.CircuitBreaker.Invariant.{Call, failure}
use ksef_client_ts.Http.Retry.{Thrown, is_retryable_error}
use ksef_client_ts.Http.Retry.Idempotence.{error-idempotent}
use ksef_client_ts.Http.RestClient.{
  RestRequest, RestClient, Reply, Round, thrown, Verdict, returned, raised, again, Turn, answer,
  check, claim_events, admitted_turn, turn, continue, loop, finish, report, settle, interfere,
  outcome_call, Entry, enter, start_loop, send_request,
}
use ksef_client_ts.Http.RestClient.Turns.{
  Caught, retried, counted, dropped, Settled, final, waits, limited, fails, settle-Settled,
}
use ksef_client_ts.Http.RestClient.Events.{
  total, total-append, is_reported, answer_reports, claim_reports, total-admitted_turn,
}

-- The reports that go with an end: none before another round, exactly one with a response, if there
-- is a breaker, and one at most with an error.
abbrev pub ReportsAt : Bool → Verdict → ℕ → Type 0
ReportsAt has again n = n ≡ 0
ReportsAt has (returned _) n = n ≡ (if has then 1 else 0)
ReportsAt has (raised _) n = n ≤ 1

abbrev pub Reports : Option CircuitBreakerPolicy → Turn → Type 0
Reports b t =
    (is_some t.breaker ≡ is_some b) × ReportsAt (is_some b) t.verdict (total is_reported t.events)

report_facts :
    (b : Option CircuitBreakerPolicy) (call : Call)
    → (is_some (report b call).0 ≡ is_some b)
      × (total is_reported (report b call).1 ≡ (if is_some b then 1 else 0))
report_facts none call = (refl, refl)
report_facts (some p) call = (refl, omega arith)

is_some-interfere :
    (b : Option CircuitBreakerPolicy) (cs : List Call) → is_some (interfere b cs) ≡ is_some b
is_some-interfere none cs = refl
is_some-interfere (some p) cs = refl

check-is_some :
    (b : Option CircuitBreakerPolicy) (path : String) (now : ℕ) (owns : Bool)
    → is_some (check b path now owns).0 ≡ is_some b
check-is_some none path now owns = refl
check-is_some (some p) path now owns = refl

count-le : (has : Bool) → (if has then 1 else 0) ≤ 1
count-le true = omega arith
count-le false = omega arith

Caught-Reports :
    (c : RestClient) (q : RestRequest) (attempt : ℕ) (o : Round) (b : Option CircuitBreakerPolicy)
    (now : ℕ) {owns : Bool} {e : Thrown} {t : Turn}
    → Caught c q attempt o b now owns e t
    → Reports b t
Caught-Reports c q attempt o b now (retried e d _ left) = (refl, refl)
Caught-Reports c q attempt o b now (counted e _) =
    let (same, one) = report_facts b (failure q.path now) in
    (same, omega (arith, one, count-le (is_some b)))
Caught-Reports c q attempt o b now (dropped e _) = (refl, omega arith)

-- The limiter's errors are not of the kind that is retried.
abbrev pub CalmLimiter : RestClient → Option Thrown → Type 0
CalmLimiter c none = Unit
CalmLimiter c (some e) = is_retryable_error e c.retry_policy none ≡ false

-- An error that is not retryable, caught without a probe, is passed on and not reported.
Caught-calm :
    (c : RestClient) (q : RestRequest) (attempt : ℕ) (o : Round) (b : Option CircuitBreakerPolicy)
    (now : ℕ) {e : Thrown} {t : Turn}
    → is_retryable_error e c.retry_policy none ≡ false
    → Caught c q attempt o b now false e t
    → (t.breaker ≡ b) × (t.events ≡ []) × (t.verdict ≡ raised (thrown e))
Caught-calm c q attempt o b now calm (retried e d retryable left) =
    let idempotent : is_retryable_error e c.retry_policy none ≡ true =
      error-idempotent _ _ e retryable in
    ground arith
Caught-calm c q attempt o b now calm (counted e outage) = ground arith
Caught-calm c q attempt o b now calm (dropped e _) = (refl, refl, refl)

module _ (c : RestClient) (q : RestRequest) (attempt : ℕ) (o : Round)
    (calm : CalmLimiter c o.acquire) where
  Settled-Reports :
      (b : Option CircuitBreakerPolicy) (owns : Bool) {a : Reply} {t : Turn}
      → Settled c q attempt o b owns a t
      → Reports b t
  unfolding finish
  Settled-Reports b owns (final r) = report_facts b _
  Settled-Reports b owns (waits r d _ _) = (refl, refl)
  Settled-Reports b owns (limited r d e {t} _ failed _ k) =
      let call = outcome_call q.path 429 o.late_at in
      let (same, one) = report_facts (interfere b o.late) call in
      let (kept, silent, raises) =
        Caught-calm c q attempt o (report (interfere b o.late) call).0 o.late_at (rw failed at calm)
          k in
      (
        ap is_some kept ∙ same ∙ is_some-interfere b o.late,
        rw (raises, silent)
            (omega (
              arith,
              total-append is_reported (report (interfere b o.late) call).1 [],
              one,
              count-le (is_some (interfere b o.late)),
            )),
      )
  Settled-Reports b owns (fails e k) = Caught-Reports c q attempt o b _ k

  admitted_turn-Reports :
      (owns : Bool) (b : Option CircuitBreakerPolicy) (a : Admission)
      → Reports b (admitted_turn c q attempt o owns b a)
  unfolding admitted_turn
  admitted_turn-Reports owns b (circuit_open e) = (refl, omega arith)
  admitted_turn-Reports owns b (admitted claim) =
      let (same, at_end) = Settled-Reports (interfere b o.during) (owns || claim) (
        settle-Settled c q attempt o (interfere b o.during) (owns || claim)
          (answer c q attempt o).0) in
      let s =
        settle c q attempt o (interfere b o.during) (owns || claim) (answer c q attempt o).0 in
      let same_count : total is_reported
            (claim_events claim ++ ((answer c q attempt o).1 ++ s.events))
          ≡ total is_reported s.events =
        omega (
          arith,
          total-admitted_turn is_reported c q attempt o owns b claim,
          claim_reports claim,
          answer_reports c q attempt o,
        ) in
      (same ∙ is_some-interfere b o.during, rw (← is_some-interfere b o.during, same_count) at_end)

  turn-Reports :
      (b : Option CircuitBreakerPolicy) (owns : Bool) → Reports b (turn c q attempt o b owns)
  unfolding turn
  turn-Reports b owns =
      let before = interfere b o.before in
      let (b', admission) = check before q.path o.checked_at owns in
      let (same, at_end) = admitted_turn-Reports owns b' admission in
      let shared : is_some b' ≡ is_some b =
        check-is_some before q.path o.checked_at owns ∙ is_some-interfere b o.before in
      (same ∙ shared, rw (← shared) at_end)

continue-Reports :
    (b : Option CircuitBreakerPolicy) (v : Verdict) (t rest : Turn)
    → v ≡ t.verdict
    → Reports b t
    → Reports t.breaker rest
    → Reports b (continue v t rest)
continue-Reports b again t rest same (shared, at_end) (shared', at_end') =
    let silent : total is_reported t.events ≡ 0 = rw (← same) at at_end in
    let same_count : total is_reported (t.events ++ rest.events) ≡ total is_reported rest.events =
      omega (arith, total-append is_reported t.events rest.events, silent) in
    (shared' ∙ shared, rw (same_count, ← shared) at_end')
continue-Reports b (returned r) t rest same reports later = reports
continue-Reports b (raised e) t rest same reports later = reports

loop-Reports :
    (c : RestClient) (q : RestRequest) (rounds : ℕ → Round)
    → ((i : ℕ) → CalmLimiter c (rounds i).acquire)
    → (left attempt : ℕ) (b : Option CircuitBreakerPolicy) (owns : Bool)
    → Reports b (loop c q rounds left attempt b owns)
unfolding loop
loop-Reports c q rounds calm zero attempt b owns = (refl, omega arith)
loop-Reports c q rounds calm (suc left) attempt b owns =
    let t = turn c q attempt (rounds attempt) b owns in
    continue-Reports b t.verdict t (loop c q rounds left (suc attempt) t.breaker t.owns) refl
      (turn-Reports c q attempt (rounds attempt) (calm attempt) b owns)
      (loop-Reports c q rounds calm left (suc attempt) t.breaker t.owns)

start_loop-Reports :
    (c : RestClient) (q : RestRequest) (n : Entry) (rounds : ℕ → Round)
    → ((i : ℕ) → CalmLimiter c (rounds i).acquire)
    → (b : Option CircuitBreakerPolicy) (owns : Bool) (limiter : Option Thrown)
    → Reports b (start_loop c q n rounds b owns limiter)
start_loop-Reports c q n rounds calm b owns none =
    loop-Reports c q rounds calm (suc c.retry_policy.max_retries) 0 b owns
start_loop-Reports c q n rounds calm none true (some e) = (refl, omega arith)
start_loop-Reports c q n rounds calm none false (some e) = (refl, omega arith)
start_loop-Reports c q n rounds calm (some p) true (some e) = (refl, omega arith)
start_loop-Reports c q n rounds calm (some p) false (some e) = (refl, omega arith)

enter-Reports :
    (c : RestClient) (q : RestRequest) (n : Entry) (rounds : ℕ → Round)
    → ((i : ℕ) → CalmLimiter c (rounds i).acquire)
    → (b : Option CircuitBreakerPolicy) (a : Admission) → Reports b (enter c q n rounds b a)
enter-Reports c q n rounds calm b (circuit_open e) = (refl, omega arith)
enter-Reports c q n rounds calm b (admitted claim) =
    let t = start_loop c q n rounds b claim (if c.has_rate_limit then n.acquire else none) in
    let (shared, at_end) =
      start_loop-Reports c q n rounds calm b claim (if c.has_rate_limit then n.acquire else none) in
    let same_count : total is_reported (claim_events claim ++ t.events)
        ≡ total is_reported t.events =
      omega (arith, total-append is_reported (claim_events claim) t.events, claim_reports claim) in
    (shared, rw same_count at_end)

-- If the limiter throws no error of the kind that is retried, a request that returns a response has
-- reported exactly one outcome to its breaker, and none if it has no breaker, and a request that
-- raises an error has reported at most one, however often it retried.
pub send_request_reports_once :
    (c : RestClient) (q : RestRequest) (n : Entry) (rounds : ℕ → Round)
    (b : Option CircuitBreakerPolicy)
    → ((i : ℕ) → CalmLimiter c (rounds i).acquire)
    → ReportsAt
        (is_some b)
        (send_request c q n rounds b).verdict
        (total is_reported (send_request c q n rounds b).events)
unfolding send_request
send_request_reports_once c q n rounds b calm =
    elim (Bool-cases (q.is_presigned && c.has_presigned_policy && not n.url_valid)) [
      | inl refused ↦ rw refused (omega arith)
      | inr accepted ↦
          rw (accepted, ← check-is_some b q.path n.checked_at false)
            (enter-Reports c q n rounds calm (check b q.path n.checked_at false).0
              (check b q.path n.checked_at false).1).1
    ]
