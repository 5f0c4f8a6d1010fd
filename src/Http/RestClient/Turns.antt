-- ===== src/Http/RestClient/Turns.antt =====
-- http/rest-client.ts: the ways in which a round of the retry loop ends, one constructor for each.
use mathlib.Core.Bool.{and-eq-true_iff, or-true}
use ksef_client_ts.Base.{
  ℕ, ◌<◌, ◌≡◌, refl, Bool, true, false, Option, none, some, [], ◌∷◌, ltb, ltb→lt, if◌then◌else◌,
  inl, inr, Bool-cases, ◌==◌, ==_iff, ◌&&◌, ◌||◌,
}
use ksef_client_ts.Http.CircuitBreaker.{CircuitBreakerPolicy}
use ksef_client_ts.Http.Retry.{
  Response, Thrown, exceeds_max_retry_after, is_retryable_error, is_retryable_status,
}
use ksef_client_ts.Http.RestClient.{
  RestRequest, RestClient, Reply, responds, throws, Round, slept, Turn, raised, again, thrown,
  retry_method, reported_failure, caught, finish, wait_and_retry, retry_response, reacquire, settle,
  with_events, interfere, report, outcome_call,
}

module _ (c : RestClient) (q : RestRequest) (attempt : ℕ) (o : Round)
    (b : Option CircuitBreakerPolicy) where
  pub data Caught (now : ℕ) : Bool → Thrown → Turn → Type 0 where
    retried :
        {owns : Bool} (e : Thrown) (delay : ℕ)
        → is_retryable_error e c.retry_policy (retry_method q) ≡ true
        → attempt < c.retry_policy.max_retries
        → Caught now owns e
            (record { breaker = b; owns = owns; events = slept delay ∷ []; verdict = again })
    counted :
        {owns : Bool} (e : Thrown)
        → (is_retryable_error e c.retry_policy none || owns) ≡ true
        → Caught now owns e (reported_failure q now b owns e)
    dropped :
        (e : Thrown)
        → is_retryable_error e c.retry_policy none ≡ false
        → Caught now false e
            (record { breaker = b; owns = false; events = []; verdict = raised (thrown e) })

  pub caught-Caught :
      (now : ℕ) (owns : Bool) (e : Thrown) → Caught now owns e (caught c q attempt o now b owns e)
  unfolding caught
  caught-Caught now owns e =
      elim (Bool-cases (
        is_retryable_error e c.retry_policy (retry_method q)
        && ltb attempt c.retry_policy.max_retries)) [
          | inl yes_again ↦
              let (retryable, left) = (and-eq-true_iff _ _).0 yes_again in
              rw yes_again (retried e _ retryable (ltb→lt _ _ left))
          | inr stops ↦ rw stops (terminal owns)
        ]
    where
      terminal :
          (owns : Bool)
          → Caught now owns e (
              if is_retryable_error e c.retry_policy none || owns
              then reported_failure q now b owns e
              else record { breaker = b; owns = owns; events = []; verdict = raised (thrown e) })
      terminal true = rw or-true (counted e (or-true _))
      terminal false = elim (Bool-cases (is_retryable_error e c.retry_policy none)) [
        | inl outage ↦ rw outage (counted e (rw outage))
        | inr benign ↦ rw benign (dropped e benign)
      ]

module _ (c : RestClient) (q : RestRequest) (attempt : ℕ) (o : Round)
    (b : Option CircuitBreakerPolicy) (owns : Bool) where
  pub data Settled : Reply → Turn → Type 0 where
    final : (r : Response) → Settled (responds r) (finish q o b owns r)
    waits :
        (r : Response) (delay : ℕ)
        → is_retryable_status r.status c.retry_policy (retry_method q) ≡ true
        → attempt < c.retry_policy.max_retries
        → Settled
            (responds r)
            (record { breaker = b; owns = owns; events = slept delay ∷ []; verdict = again })
    limited :
        (r : Response) (delay : ℕ) (e : Thrown) {t : Turn}
        → r.status ≡ 429
        → o.acquire ≡ some e
        → attempt < c.retry_policy.max_retries
        → Caught c q attempt o
            (report (interfere b o.late) (outcome_call q.path 429 o.late_at)).0
            o.late_at
            false
            e
            t
        → Settled (responds r) (
            with_events
              (slept delay ∷ [])
              (with_events (report (interfere b o.late) (outcome_call q.path 429 o.late_at)).1 t))
    fails :
        (e : Thrown) {t : Turn}
        → Caught c q attempt o b o.recorded_at owns e t
        → Settled (throws e) t

  wait_and_retry-Settled :
      (r : Response) (delay : ℕ)
      → is_retryable_status r.status c.retry_policy (retry_method q) ≡ true
      → attempt < c.retry_policy.max_retries
      → Settled (responds r) (wait_and_retry c q attempt o b owns r delay)
  unfolding wait_and_retry
  wait_and_retry-Settled r delay retryable left =
      elim (Bool-cases (r.status == 429 && c.has_rate_limit)) [
        | inl asks ↦
            rw asks (by_acquire o.acquire refl ((==_iff _ _).0 ((and-eq-true_iff _ _).0 asks).0))
        | inr skips ↦ rw skips (waits r delay retryable left)
      ]
    where
      by_acquire :
          (a : Option Thrown)
          → o.acquire ≡ a
          → r.status ≡ 429
          → Settled (responds r) (with_events (slept delay ∷ []) (reacquire c q attempt o b owns a))
      by_acquire none granted too_many = waits r delay retryable left
      by_acquire (some e) failed too_many =
          limited r delay e too_many failed left (caught-Caught c q attempt o _ o.late_at false e)

  retry_response-Settled :
      (r : Response) (asked : Option ℕ)
      → is_retryable_status r.status c.retry_policy (retry_method q) ≡ true
      → attempt < c.retry_policy.max_retries
      → Settled (responds r) (retry_response c q attempt o b owns r asked)
  retry_response-Settled r none retryable left = wait_and_retry-Settled r _ retryable left
  retry_response-Settled r (some d) retryable left =
      elim (Bool-cases (exceeds_max_retry_after d c.retry_policy)) [
        | inl too_long ↦ rw too_long (final r)
        | inr acceptable ↦ rw acceptable (wait_and_retry-Settled r d retryable left)
      ]

  pub settle-Settled : (a : Reply) → Settled a (settle c q attempt o b owns a)
  unfolding settle
  settle-Settled (throws e) = fails e (caught-Caught c q attempt o b o.recorded_at owns e)
  settle-Settled (responds r) =
      elim (Bool-cases (
        is_retryable_status r.status c.retry_policy (retry_method q)
        && ltb attempt c.retry_policy.max_retries)) [
          | inl yes_again ↦
              let (retryable, left) = (and-eq-true_iff _ _).0 yes_again in
              rw yes_again (retry_response-Settled r _ retryable (ltb→lt _ _ left))
          | inr last ↦ rw last (final r)
        ]
