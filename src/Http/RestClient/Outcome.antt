-- ===== src/Http/RestClient/Outcome.antt =====
-- http/rest-client.ts: how a request ends, how often the transport is called for it, and how often
-- its outcome is reported to the breaker.
use ksef_client_ts.Base.{
  ℕ, zero, suc, ◌+◌, ◌≤◌, ◌<◌, ◌≡◌, refl, Bool, true, false, Option, none, some, arith,
  if◌then◌else◌, inl, inr, Bool-cases, ◌&&◌, ◌||◌, not,
}
use ksef_client_ts.Http.CircuitBreaker.{CircuitBreakerPolicy, Admission, admitted, circuit_open}
use ksef_client_ts.Http.Retry.{Thrown}
use ksef_client_ts.Http.RestClient.{
  RestRequest, RestClient, Reply, Round, last_error_unset, Verdict, returned, raised, again, Turn,
  answer, claim_events, admitted_turn, turn, continue, loop, finish, interfere, Entry, enter,
  start_loop, send_request,
}
use ksef_client_ts.Http.RestClient.Turns.{
  Caught, retried, counted, dropped, Settled, final, waits, limited, fails, settle-Settled,
}
use ksef_client_ts.Http.RestClient.Events.{total, total-append, is_sent, loop_sends, claim_sends}

-- A request ends by a response or by an error that the code raises with a value.
abbrev pub Ends : Verdict → Type 0
Ends again = ⊥
Ends (raised last_error_unset) = ⊥
Ends _ = Unit

-- A round asks for another only while the budget lasts.
abbrev EndsAt : RestClient → ℕ → Verdict → Type 0
EndsAt c attempt again = attempt < c.retry_policy.max_retries
EndsAt c attempt v = Ends v

Caught-EndsAt :
    (c : RestClient) (q : RestRequest) (attempt : ℕ) (o : Round) (b : Option CircuitBreakerPolicy)
    (now : ℕ) {owns : Bool} {e : Thrown} {t : Turn}
    → Caught c q attempt o b now owns e t
    → EndsAt c attempt t.verdict
Caught-EndsAt c q attempt o b now (retried e d _ left) = left
Caught-EndsAt c q attempt o b now (counted e _) = tt
Caught-EndsAt c q attempt o b now (dropped e _) = tt

Settled-EndsAt :
    (c : RestClient) (q : RestRequest) (attempt : ℕ) (o : Round) (b : Option CircuitBreakerPolicy)
    (owns : Bool) {a : Reply} {t : Turn}
    → Settled c q attempt o b owns a t
    → EndsAt c attempt t.verdict
unfolding finish
Settled-EndsAt c q attempt o b owns (final r) = tt
Settled-EndsAt c q attempt o b owns (waits r d _ left) = left
Settled-EndsAt c q attempt o b owns (limited r d e _ _ _ k) = Caught-EndsAt c q attempt o _ _ k
Settled-EndsAt c q attempt o b owns (fails e k) = Caught-EndsAt c q attempt o b _ k

admitted_turn-EndsAt :
    (c : RestClient) (q : RestRequest) (attempt : ℕ) (o : Round) (owns : Bool)
    (b : Option CircuitBreakerPolicy) (a : Admission)
    → EndsAt c attempt (admitted_turn c q attempt o owns b a).verdict
unfolding admitted_turn
admitted_turn-EndsAt c q attempt o owns b (circuit_open e) = tt
admitted_turn-EndsAt c q attempt o owns b (admitted claim) =
    Settled-EndsAt c q attempt o (interfere b o.during) (owns || claim)
      (settle-Settled c q attempt o (interfere b o.during) (owns || claim) (answer c q attempt o).0)

turn-EndsAt :
    (c : RestClient) (q : RestRequest) (attempt : ℕ) (o : Round) (b : Option CircuitBreakerPolicy)
    (owns : Bool)
    → EndsAt c attempt (turn c q attempt o b owns).verdict
unfolding turn
turn-EndsAt c q attempt o b owns = admitted_turn-EndsAt c q attempt o owns _ _

continue-Ends :
    (c : RestClient) (attempt : ℕ) (v : Verdict) (t rest : Turn)
    → EndsAt c attempt v
    → v ≡ t.verdict
    → (attempt < c.retry_policy.max_retries → Ends rest.verdict)
    → Ends (continue v t rest).verdict
continue-Ends c attempt again t rest ends same later = later ends
continue-Ends c attempt (returned r) t rest ends same later = rw (← same) tt
continue-Ends c attempt (raised e) t rest ends same later = rw (← same) ends

loop-Ends :
    (c : RestClient) (q : RestRequest) (rounds : ℕ → Round) (left attempt : ℕ)
    (b : Option CircuitBreakerPolicy) (owns : Bool)
    → c.retry_policy.max_retries < left + attempt
    → attempt ≤ c.retry_policy.max_retries
    → Ends (loop c q rounds left attempt b owns).verdict
unfolding loop
loop-Ends c q rounds zero attempt b owns enough fits = absurd (omega arith)
loop-Ends c q rounds (suc left) attempt b owns enough fits =
    let t = turn c q attempt (rounds attempt) b owns in
    continue-Ends c attempt t.verdict t (loop c q rounds left (suc attempt) t.breaker t.owns)
      (turn-EndsAt c q attempt (rounds attempt) b owns) refl
      λ more. loop-Ends c q rounds left (suc attempt) t.breaker t.owns (omega arith) more

start_loop-Ends :
    (c : RestClient) (q : RestRequest) (n : Entry) (rounds : ℕ → Round)
    (b : Option CircuitBreakerPolicy) (owns : Bool) (limiter : Option Thrown)
    → Ends (start_loop c q n rounds b owns limiter).verdict
start_loop-Ends c q n rounds b owns none =
    loop-Ends c q rounds (suc c.retry_policy.max_retries) 0 b owns (omega arith) (omega arith)
start_loop-Ends c q n rounds b true (some e) = tt
start_loop-Ends c q n rounds b false (some e) = tt

start_loop_sends :
    (c : RestClient) (q : RestRequest) (n : Entry) (rounds : ℕ → Round)
    (b : Option CircuitBreakerPolicy) (owns : Bool) (limiter : Option Thrown)
    → total is_sent (start_loop c q n rounds b owns limiter).events ≤ c.retry_policy.max_retries + 2
start_loop_sends c q n rounds b owns none =
    omega (arith, loop_sends c q rounds (suc c.retry_policy.max_retries) 0 b owns)
start_loop_sends c q n rounds none true (some e) = omega arith
start_loop_sends c q n rounds (some p) true (some e) = omega arith
start_loop_sends c q n rounds b false (some e) = omega arith

enter-Ends :
    (c : RestClient) (q : RestRequest) (n : Entry) (rounds : ℕ → Round)
    (b : Option CircuitBreakerPolicy) (a : Admission)
    → Ends (enter c q n rounds b a).verdict
      × (total is_sent (enter c q n rounds b a).events ≤ c.retry_policy.max_retries + 2)
enter-Ends c q n rounds b (circuit_open e) = (tt, omega arith)
enter-Ends c q n rounds b (admitted claim) =
    let limiter = if c.has_rate_limit then n.acquire else none in
    let t = start_loop c q n rounds b claim limiter in
    (
      start_loop-Ends c q n rounds b claim limiter,
      omega (
        arith,
        total-append is_sent (claim_events claim) t.events,
        claim_sends claim,
        start_loop_sends c q n rounds b claim limiter,
      ),
    )

-- Whatever the server, the limiter, the refresh and other requests do, a request ends with a
-- response or a raised error, never by running past its loop, and calls the transport at most
-- `maxRetries + 2` times: once for each attempt, and once more after a token refresh.
pub send_request-Ends :
    (c : RestClient) (q : RestRequest) (n : Entry) (rounds : ℕ → Round)
    (b : Option CircuitBreakerPolicy)
    → Ends (send_request c q n rounds b).verdict
      × (total is_sent (send_request c q n rounds b).events ≤ c.retry_policy.max_retries + 2)
unfolding send_request
send_request-Ends c q n rounds b =
    elim (Bool-cases (q.is_presigned && c.has_presigned_policy && not n.url_valid)) [
      | inl refused ↦ rw refused (tt, omega arith)
      | inr accepted ↦ rw accepted (enter-Ends c q n rounds _ _)
    ]
