-- ===== src/Http/RestClient/Resend.antt =====
-- http/rest-client.ts: a request that is not idempotent is not sent again once the server may have
-- acted on it.
use ksef_client_ts.Base.{
  ℕ, zero, suc, ◌+◌, ◌≤◌, ◌≡◌, refl, sym, Bool, true, false, Option, none, some, arith,
  if◌then◌else◌, inl, inr, Bool-cases, ◌==◌, ◌&&◌, ◌||◌, not,
}
use ksef_client_ts.Http.CircuitBreaker.{CircuitBreakerPolicy, Admission, admitted, circuit_open}
use ksef_client_ts.Http.Retry.{Response, Thrown, is_non_idempotent}
use ksef_client_ts.Http.Retry.Idempotence.{not_sent, status-non_idempotent, error-non_idempotent}
use ksef_client_ts.Http.RestClient.{
  RestRequest, RestClient, Reply, responds, throws, Refresh, token, refresh_throws, Round, Event,
  sent, Verdict, returned, raised, again, Turn, refreshed, answer, answer_reply, claim_events,
  admitted_turn, turn, continue, loop, finish, interfere, Entry, enter, start_loop, send_request,
  retry_method,
}
use ksef_client_ts.Http.RestClient.Turns.{
  Caught, retried, counted, dropped, Settled, final, waits, limited, fails, settle-Settled,
}
use ksef_client_ts.Http.RestClient.Events.{
  total, total-append, total-admitted_turn, IgnoresSettling, Settled-total,
}

-- 1 if the server may have acted on the request: it answered with another status than 429 and 401,
-- or the connection failed after the request was sent.
abbrev pub may_have_acted : Reply → ℕ
may_have_acted (responds r) = if r.status == 429 || r.status == 401 then 0 else 1
may_have_acted (throws e) = if not_sent e then 0 else 1

abbrev pub acted : Event → ℕ
acted (sent _ reply) = may_have_acted reply
acted _ = 0

acted-IgnoresSettling : IgnoresSettling acted
acted-IgnoresSettling = record { on_slept = λ d. refl; on_reported = λ c. refl }

acted-le : (a : Reply) → may_have_acted a ≤ 1
acted-le (responds r) = ground arith
acted-le (throws e) = ground arith

refreshed-acted :
    (f : Refresh) (r : Response) (replay : Reply)
    → r.status ≡ 401
    → may_have_acted (responds r) + total acted (refreshed f r replay).1
      ≤ may_have_acted (refreshed f r replay).0
unfolding refreshed
refreshed-acted (refresh_throws e) r replay h = rw h (omega arith)
refreshed-acted (token none) r replay h = rw h (omega arith)
refreshed-acted (token (some t)) r replay h = ground arith

answer-acted :
    (c : RestClient) (q : RestRequest) (attempt : ℕ) (o : Round)
    → total acted (answer c q attempt o).1 ≤ may_have_acted (answer c q attempt o).0
unfolding answer
answer-acted c q attempt o = by_reply o.reply
  where
    by_reply :
        (a : Reply)
        → may_have_acted a + total acted (answer_reply c q attempt o a).1
          ≤ may_have_acted (answer_reply c q attempt o a).0
    by_reply (throws e) = omega arith
    by_reply (responds r) = ground (arith, refreshed-acted o.refresh r o.replay)

module _ (c : RestClient) (q : RestRequest)
    (unsafe : is_non_idempotent (retry_method q) ≡ true) where
  Caught-acted :
      (attempt : ℕ) (o : Round) (b : Option CircuitBreakerPolicy) (now : ℕ) {owns : Bool}
      {e : Thrown} {t : Turn}
      → Caught c q attempt o b now owns e t
      → t.verdict ≡ again
      → may_have_acted (throws e) ≡ 0
  Caught-acted attempt o b now (retried e d retryable _) h =
      rw (error-non_idempotent c.retry_policy (retry_method q) e unsafe retryable).0 refl
  Caught-acted attempt o b now (counted _ _) h = cc
  Caught-acted attempt o b now (dropped _ _) h = cc

  -- Another round is asked for only where the server did not act.
  Settled-acted :
      (attempt : ℕ) (o : Round) (b : Option CircuitBreakerPolicy) (owns : Bool) {a : Reply}
      {t : Turn}
      → Settled c q attempt o b owns a t
      → t.verdict ≡ again
      → may_have_acted a ≡ 0
  unfolding finish
  Settled-acted attempt o b owns (final r) h = cc
  Settled-acted attempt o b owns (waits r d retryable _) h =
      rw (status-non_idempotent c.retry_policy (retry_method q) r.status unsafe retryable).0 refl
  Settled-acted attempt o b owns (limited r d e too_many _ _ k) h = rw too_many refl
  Settled-acted attempt o b owns (fails e k) h = Caught-acted attempt o b o.recorded_at k h

  abbrev AtMostOnce : Turn → Type 0
  AtMostOnce t = (total acted t.events ≤ 1) × (t.verdict ≡ again → total acted t.events ≡ 0)

  claim_acted : (claim : Bool) → total acted (claim_events claim) ≡ 0
  claim_acted true = refl
  claim_acted false = refl

  admitted_turn-AtMostOnce :
      (attempt : ℕ) (o : Round) (owns : Bool) (b : Option CircuitBreakerPolicy) (a : Admission)
      → AtMostOnce (admitted_turn c q attempt o owns b a)
  admitted_turn-AtMostOnce attempt o owns b (circuit_open e) =
      unfold admitted_turn in (omega arith, λ h. refl)
  admitted_turn-AtMostOnce attempt o owns b (admitted claim) =
      let settled =
        settle-Settled c q attempt o (interfere b o.during) (owns || claim)
          (answer c q attempt o).0 in
      let bound : total acted (admitted_turn c q attempt o owns b (admitted claim)).events
          ≤ may_have_acted (answer c q attempt o).0 =
        omega (
          arith,
          total-admitted_turn acted c q attempt o owns b claim,
          claim_acted claim,
          answer-acted c q attempt o,
          Settled-total acted acted-IgnoresSettling c q attempt o (interfere b o.during)
              (owns || claim) settled,
        ) in
      (
        omega (arith, bound, acted-le (answer c q attempt o).0),
        λ more. omega (
          arith,
          bound,
          Settled-acted attempt o (interfere b o.during) (owns || claim) settled
              (unfold admitted_turn in more),
        ),
      )

  turn-AtMostOnce :
      (attempt : ℕ) (o : Round) (b : Option CircuitBreakerPolicy) (owns : Bool)
      → AtMostOnce (turn c q attempt o b owns)
  unfolding turn
  turn-AtMostOnce attempt o b owns = admitted_turn-AtMostOnce attempt o owns _ _

  continue-acted :
      (v : Verdict) (t rest : Turn)
      → v ≡ t.verdict
      → AtMostOnce t
      → total acted rest.events ≤ 1
      → total acted (continue v t rest).events ≤ 1
  continue-acted again t rest same (once, clean) later =
      omega (arith, total-append acted t.events rest.events, clean (sym same))
  continue-acted (returned r) t rest same (once, clean) later = once
  continue-acted (raised e) t rest same (once, clean) later = once

  loop-acted :
      (rounds : ℕ → Round) (left attempt : ℕ) (b : Option CircuitBreakerPolicy) (owns : Bool)
      → total acted (loop c q rounds left attempt b owns).events ≤ 1
  unfolding loop
  loop-acted rounds zero attempt b owns = omega arith
  loop-acted rounds (suc left) attempt b owns =
      let t = turn c q attempt (rounds attempt) b owns in
      continue-acted t.verdict t (loop c q rounds left (suc attempt) t.breaker t.owns) refl
        (turn-AtMostOnce attempt (rounds attempt) b owns)
        (loop-acted rounds left (suc attempt) t.breaker t.owns)

  start_loop-acted :
      (n : Entry) (rounds : ℕ → Round) (b : Option CircuitBreakerPolicy) (owns : Bool)
      (limiter : Option Thrown)
      → total acted (start_loop c q n rounds b owns limiter).events ≤ 1
  start_loop-acted n rounds b owns none =
      loop-acted rounds (suc c.retry_policy.max_retries) 0 b owns
  start_loop-acted n rounds none true (some e) = omega arith
  start_loop-acted n rounds (some p) true (some e) = omega arith
  start_loop-acted n rounds b false (some e) = omega arith

  enter-acted :
      (n : Entry) (rounds : ℕ → Round) (b : Option CircuitBreakerPolicy) (a : Admission)
      → total acted (enter c q n rounds b a).events ≤ 1
  enter-acted n rounds b (circuit_open e) = omega arith
  enter-acted n rounds b (admitted claim) =
      let limiter = if c.has_rate_limit then n.acquire else none in
      omega (
        arith,
        total-append acted (claim_events claim) (start_loop c q n rounds b claim limiter).events,
        claim_acted claim,
        start_loop-acted n rounds b claim limiter,
      )

-- A POST or PATCH that is not marked retry-safe is sent at most once to a server that may act on
-- it: of all transport calls of the request, at most one ends in a way in which the server may have
-- acted, which is any answer but 429 and 401 and any error after the request was sent.
pub send_request-acted :
    (c : RestClient) (q : RestRequest) (n : Entry) (rounds : ℕ → Round)
    (b : Option CircuitBreakerPolicy)
    → is_non_idempotent (retry_method q) ≡ true
    → total acted (send_request c q n rounds b).events ≤ 1
unfolding send_request
send_request-acted c q n rounds b unsafe =
    elim (Bool-cases (q.is_presigned && c.has_presigned_policy && not n.url_valid)) [
      | inl refused ↦ rw refused (omega arith)
      | inr accepted ↦ rw accepted (enter-acted c q unsafe n rounds _ _)
    ]
