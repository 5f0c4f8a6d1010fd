-- ===== src/Http/RestClient/Waits.antt =====
-- http/rest-client.ts: the waits of a request.
use ksef_client_ts.Base.{
  ℕ, zero, suc, ◌≤◌, ◌<◌, Bool, true, false, ◌&&◌, ◌||◌, not, Option, none, some, List, ◌++◌, ltb,
  ◌==◌, All, All-append, Bool-cases, inl, inr, if◌then◌else◌, str_eq,
}
use ksef_client_ts.Http.CircuitBreaker.{CircuitBreakerPolicy, Admission, admitted, circuit_open}
use ksef_client_ts.Http.CircuitBreaker.Invariant.{Call, failure, release}
use ksef_client_ts.Http.Retry.{
  Response, Thrown, random_scale, max_timer_delay_ms, calculate_backoff, get_retry_after_ms,
  exceeds_max_retry_after, is_retryable_error, is_retryable_status,
}
use ksef_client_ts.Http.Retry.Delays.{calculate_backoff_bounds, exceeds_max_retry_after-timer}
use ksef_client_ts.Http.RestClient.{
  RestRequest, RestClient, Reply, responds, throws, token, refresh_throws, Refresh, Round, Event,
  slept, Verdict, returned, raised, again, Turn, Entry, retry_method, caught, finish,
  wait_and_retry, retry_response, reacquire, settle, interfere, report, outcome_call, answer,
  answer_reply, refreshed, check, claim_events, admitted_turn, turn, continue, loop, limiter_failed,
  start_loop, enter, send_request,
}

-- A wait that `setTimeout` takes as it is.
abbrev pub FitsTimer : Event → Type 0
FitsTimer (slept delay) = delay ≤ max_timer_delay_ms
FitsTimer _ = Unit

abbrev pub AllFit : List Event → Type 0
AllFit = All FitsTimer

report-AllFit : (b : Option CircuitBreakerPolicy) (c : Call) → AllFit (report b c).1
report-AllFit none c = tt
report-AllFit (some p) c = (tt, tt)

finish-AllFit :
    (q : RestRequest) (o : Round) (b : Option CircuitBreakerPolicy) (owns : Bool) (r : Response)
    → AllFit (finish q o b owns r).events
unfolding finish
finish-AllFit q o b owns r = report-AllFit b (outcome_call q.path r.status o.recorded_at)

module _ (c : RestClient) (q : RestRequest) where
  module _ (attempt : ℕ) (o : Round) (fair : o.random < random_scale) where
    caught-AllFit :
        (now : ℕ) (b : Option CircuitBreakerPolicy) (owns : Bool) (e : Thrown)
        → AllFit (caught c q attempt o now b owns e).events
    unfolding caught
    caught-AllFit now b owns e =
        elim (Bool-cases (
          is_retryable_error e c.retry_policy (retry_method q)
          && ltb attempt c.retry_policy.max_retries)) [
            | inl retried ↦
                rw (caught, retried)
                  ((calculate_backoff_bounds attempt o.random c.retry_policy fair).3, tt)
            | inr stops ↦ elim (Bool-cases (is_retryable_error e c.retry_policy none || owns)) [
              | inl counts ↦ rw (caught, stops, counts) (report-AllFit b (failure q.path now))
              | inr benign ↦ rw (caught, stops, benign) tt
            ]
          ]

    reacquire-AllFit :
        (b : Option CircuitBreakerPolicy) (owns : Bool) (thrown : Option Thrown)
        → AllFit (reacquire c q attempt o b owns thrown).events
    reacquire-AllFit b owns none = tt
    reacquire-AllFit b owns (some e) =
        let told = report (interfere b o.late) (outcome_call q.path 429 o.late_at) in
        All-append FitsTimer told.1 (caught c q attempt o o.late_at told.0 false e).events
          (report-AllFit (interfere b o.late) (outcome_call q.path 429 o.late_at))
          (caught-AllFit o.late_at told.0 false e)

    wait_and_retry-AllFit :
        (b : Option CircuitBreakerPolicy) (owns : Bool) (r : Response) (delay : ℕ)
        → delay ≤ max_timer_delay_ms
        → AllFit (wait_and_retry c q attempt o b owns r delay).events
    unfolding wait_and_retry
    wait_and_retry-AllFit b owns r delay h =
        elim (Bool-cases (r.status == 429 && c.has_rate_limit)) [
          | inl limited ↦ rw (wait_and_retry, limited) (h, reacquire-AllFit b owns o.acquire)
          | inr free ↦ rw (wait_and_retry, free) (h, tt)
        ]

    retry_response-AllFit :
        (b : Option CircuitBreakerPolicy) (owns : Bool) (r : Response) (asked : Option ℕ)
        → AllFit (retry_response c q attempt o b owns r asked).events
    retry_response-AllFit b owns r none =
        wait_and_retry-AllFit b owns r (calculate_backoff attempt c.retry_policy o.random)
          (calculate_backoff_bounds attempt o.random c.retry_policy fair).3
    retry_response-AllFit b owns r (some d) =
        elim (Bool-cases (exceeds_max_retry_after d c.retry_policy)) [
          | inl too_long ↦ rw too_long (finish-AllFit q o b owns r)
          | inr fits ↦ rw fits (
              wait_and_retry-AllFit b owns r d
                (exceeds_max_retry_after-timer d c.retry_policy fits))
        ]

    settle-AllFit :
        (b : Option CircuitBreakerPolicy) (owns : Bool) (final : Reply)
        → AllFit (settle c q attempt o b owns final).events
    unfolding settle
    settle-AllFit b owns (throws e) = caught-AllFit o.recorded_at b owns e
    settle-AllFit b owns (responds r) =
        elim (Bool-cases (
          is_retryable_status r.status c.retry_policy (retry_method q)
          && ltb attempt c.retry_policy.max_retries)) [
            | inl retried ↦
                rw (settle, retried)
                  (retry_response-AllFit b owns r (get_retry_after_ms c.host o.date_now r))
            | inr stops ↦ rw (settle, stops) (finish-AllFit q o b owns r)
          ]

    refreshed-AllFit :
        (refresh : Refresh) (first : Response) (replay : Reply)
        → AllFit (refreshed refresh first replay).1
    unfolding refreshed
    refreshed-AllFit (refresh_throws e) first replay = tt
    refreshed-AllFit (token none) first replay = tt
    refreshed-AllFit (token (some t)) first replay = elim (Bool-cases (str_eq t "")) [
      | inl empty ↦ rw (refreshed, empty) tt
      | inr full ↦ rw (refreshed, full) (tt, tt)
    ]

    answer_reply-AllFit : (reply : Reply) → AllFit (answer_reply c q attempt o reply).1
    answer_reply-AllFit (throws e) = tt
    answer_reply-AllFit (responds r) =
        elim (Bool-cases
          (r.status == 401 && c.has_auth_manager && attempt == 0 && not q.skip_auth_retry)) [
            | inl refreshes ↦ rw refreshes (refreshed-AllFit o.refresh r o.replay)
            | inr plain ↦ rw plain tt
          ]

    answer-AllFit : AllFit (answer c q attempt o).1
    unfolding answer
    answer-AllFit = (tt, answer_reply-AllFit o.reply)

    claim_events-AllFit : (claim : Bool) → AllFit (claim_events claim)
    claim_events-AllFit true = (tt, tt)
    claim_events-AllFit false = tt

    admitted_turn-AllFit :
        (owns : Bool) (b : Option CircuitBreakerPolicy) (admission : Admission)
        → AllFit (admitted_turn c q attempt o owns b admission).events
    unfolding admitted_turn
    admitted_turn-AllFit owns b (circuit_open e) = tt
    admitted_turn-AllFit owns b (admitted claim) =
        let (final, sends) = answer c q attempt o in
        let settled = settle c q attempt o (interfere b o.during) (owns || claim) final in
        All-append FitsTimer (claim_events claim) (sends ++ settled.events)
          (claim_events-AllFit claim)
          (All-append FitsTimer sends settled.events answer-AllFit
            (settle-AllFit (interfere b o.during) (owns || claim) final))

    turn-AllFit :
        (b : Option CircuitBreakerPolicy) (owns : Bool) → AllFit (turn c q attempt o b owns).events
    unfolding turn
    turn-AllFit b owns =
        let (b', admission) = check (interfere b o.before) q.path o.checked_at owns in
        admitted_turn-AllFit owns b' admission

  continue-AllFit :
      (v : Verdict) (t rest : Turn)
      → AllFit t.events
      → AllFit rest.events
      → AllFit (continue v t rest).events
  continue-AllFit again t rest h k = All-append FitsTimer t.events rest.events h k
  continue-AllFit (returned r) t rest h k = h
  continue-AllFit (raised f) t rest h k = h

  module _ (rounds : ℕ → Round) (fair : (n : ℕ) → (rounds n).random < random_scale) where
    loop-AllFit :
        (left attempt : ℕ) (b : Option CircuitBreakerPolicy) (owns : Bool)
        → AllFit (loop c q rounds left attempt b owns).events
    unfolding loop
    loop-AllFit zero attempt b owns = tt
    loop-AllFit (suc left) attempt b owns =
        let t = turn c q attempt (rounds attempt) b owns in
        continue-AllFit t.verdict t (loop c q rounds left (suc attempt) t.breaker t.owns)
          (turn-AllFit attempt (rounds attempt) (fair attempt) b owns)
          (loop-AllFit left (suc attempt) t.breaker t.owns)

    limiter_failed-AllFit :
        (n : Entry) (b : Option CircuitBreakerPolicy) (claim : Bool) (e : Thrown)
        → AllFit (limiter_failed q n b claim e).events
    limiter_failed-AllFit n b true e = report-AllFit b (release q.path n.released_at)
    limiter_failed-AllFit n b false e = tt

    start_loop-AllFit :
        (n : Entry) (b : Option CircuitBreakerPolicy) (claim : Bool) (thrown : Option Thrown)
        → AllFit (start_loop c q n rounds b claim thrown).events
    start_loop-AllFit n b claim none = loop-AllFit (suc c.retry_policy.max_retries) 0 b claim
    start_loop-AllFit n b claim (some e) = limiter_failed-AllFit n (interfere b n.during) claim e

    enter-AllFit :
        (n : Entry) (b : Option CircuitBreakerPolicy) (admission : Admission)
        → AllFit (enter c q n rounds b admission).events
    enter-AllFit n b (circuit_open e) = tt
    enter-AllFit n b (admitted claim) =
        let limited = if c.has_rate_limit then n.acquire else none in
        All-append FitsTimer (claim_events claim) (start_loop c q n rounds b claim limited).events
          (claim_events-AllFit 0 (rounds 0) (fair 0) claim) (start_loop-AllFit n b claim limited)

    -- Where `Math.random()` gives fractions below 1, every wait of a request, after a response or an
    -- error, at any attempt and with any policy and headers, is one that a timer takes as it is: no
    -- wait is longer than 2147483647 ms, with which `setTimeout` would fire at once.
    pub send_request-AllFit :
        (n : Entry) (b : Option CircuitBreakerPolicy) → AllFit (send_request c q n rounds b).events
    unfolding send_request
    send_request-AllFit n b =
        elim (Bool-cases (q.is_presigned && c.has_presigned_policy && not n.url_valid)) [
          | inl refused ↦ rw (send_request, refused) tt
          | inr fine ↦
              let (b', admission) = check b q.path n.checked_at false in
              rw (send_request, fine) (enter-AllFit n b' admission)
        ]
