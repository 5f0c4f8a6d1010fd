-- ===== src/Http/RestClient/Events.antt =====
-- http/rest-client.ts: counting what a request does.
use ksef_client_ts.Base.{
  ℕ, zero, suc, ◌+◌, ◌≤◌, ◌≡◌, refl, Bool, true, false, Option, none, some, List, [], ◌∷◌, ◌++◌,
  arith, if◌then◌else◌, ◌==◌, ◌||◌,
}
use ksef_client_ts.Http.CircuitBreaker.{CircuitBreakerPolicy, Admission, admitted, circuit_open}
use ksef_client_ts.Http.CircuitBreaker.Invariant.{Call}
use ksef_client_ts.Http.Retry.{Response, Thrown}
use ksef_client_ts.Http.RestClient.{
  RestRequest, RestClient, Reply, responds, throws, Refresh, token, refresh_throws, Round, Event,
  sent, slept, claimed, reported, Verdict, again, Turn, refreshed, answer, answer_reply,
  claim_events, admitted_turn, turn, continue, loop, finish, report, settle, interfere,
  outcome_call,
}
use ksef_client_ts.Http.RestClient.Turns.{
  Caught, retried, counted, dropped, Settled, final, waits, limited, fails, settle-Settled,
}

-- The weight of a list of events.
abbrev pub total : (Event → ℕ) → List Event → ℕ
total w [] = 0
total w (e ∷ es) = w e + total w es

pub total-append :
    (w : Event → ℕ) (es fs : List Event) → total w (es ++ fs) ≡ total w es + total w fs
total-append w [] fs = omega arith
total-append w (e ∷ es) fs = omega (arith, total-append w es fs)

abbrev pub is_sent : Event → ℕ
is_sent (sent _ _) = 1
is_sent _ = 0

abbrev pub is_claimed : Event → ℕ
is_claimed claimed = 1
is_claimed _ = 0

abbrev pub is_reported : Event → ℕ
is_reported (reported _) = 1
is_reported _ = 0

-- A weight that is 0 on every event that `settle` can add.
pub record IgnoresSettling (w : Event → ℕ) : Type 0 where
  pub on_slept : (d : ℕ) → w (slept d) ≡ 0
  pub on_reported : (c : Call) → w (reported c) ≡ 0

module _ (w : Event → ℕ) (ignores : IgnoresSettling w) where
  report-total : (b : Option CircuitBreakerPolicy) (call : Call) → total w (report b call).1 ≡ 0
  report-total none call = refl
  report-total (some p) call = omega (arith, ignores.on_reported call)

  Caught-total :
      (c : RestClient) (q : RestRequest) (attempt : ℕ) (o : Round) (b : Option CircuitBreakerPolicy)
      (now : ℕ) {owns : Bool} {e : Thrown} {t : Turn}
      → Caught c q attempt o b now owns e t
      → total w t.events ≡ 0
  Caught-total c q attempt o b now (retried e d _ _) = omega (arith, ignores.on_slept d)
  Caught-total c q attempt o b now (counted e _) = report-total b _
  Caught-total c q attempt o b now (dropped e _) = refl

  pub Settled-total :
      (c : RestClient) (q : RestRequest) (attempt : ℕ) (o : Round) (b : Option CircuitBreakerPolicy)
      (owns : Bool) {a : Reply} {t : Turn}
      → Settled c q attempt o b owns a t
      → total w t.events ≡ 0
  unfolding finish
  Settled-total c q attempt o b owns (final r) = report-total b _
  Settled-total c q attempt o b owns (waits r d _ _) = omega (arith, ignores.on_slept d)
  Settled-total c q attempt o b owns (limited r d e _ _ _ k) = omega (
    arith,
    ignores.on_slept d,
    Caught-total c q attempt o _ o.late_at k,
    report-total (interfere b o.late) (outcome_call q.path 429 o.late_at),
    total-append w (report (interfere b o.late) (outcome_call q.path 429 o.late_at)).1,
  )
  Settled-total c q attempt o b owns (fails e k) = Caught-total c q attempt o b _ k

-- The transport is called once in a round, and twice at most in the first.
refreshed_sends :
    (f : Refresh) (r : Response) (replay : Reply) → total is_sent (refreshed f r replay).1 ≤ 1
unfolding refreshed
refreshed_sends (refresh_throws e) r replay = omega arith
refreshed_sends (token none) r replay = omega arith
refreshed_sends (token (some t)) r replay = ground arith

answer_sends :
    (c : RestClient) (q : RestRequest) (attempt : ℕ) (o : Round)
    → total is_sent (answer c q attempt o).1 ≤ 1 + (if attempt == 0 then 1 else 0)
unfolding answer
answer_sends c q attempt o = by_reply o.reply
  where
    by_reply :
        (a : Reply)
        → 1 + total is_sent (answer_reply c q attempt o a).1 ≤ 1 + (if attempt == 0 then 1 else 0)
    by_reply (throws e) = omega arith
    by_reply (responds r) = ground (arith, refreshed_sends o.refresh r o.replay)

sent-IgnoresSettling : IgnoresSettling is_sent
sent-IgnoresSettling = record { on_slept = λ d. refl; on_reported = λ c. refl }

-- The events of an admitted round: the claim, the transport calls, and how it settles.
pub total-admitted_turn :
    (w : Event → ℕ) (c : RestClient) (q : RestRequest) (attempt : ℕ) (o : Round) (owns : Bool)
    (b : Option CircuitBreakerPolicy) (claim : Bool)
    → total w (admitted_turn c q attempt o owns b (admitted claim)).events
      ≡ total w (claim_events claim)
        + total w (answer c q attempt o).1
        + total w
            (settle c q attempt o
              (interfere b o.during)
              (owns || claim)
              (answer c q attempt o).0).events
unfolding admitted_turn
total-admitted_turn w c q attempt o owns b claim =
    let (reply, sends) = answer c q attempt o in
    let s = settle c q attempt o (interfere b o.during) (owns || claim) reply in
    omega (
      arith,
      total-append w (claim_events claim) (sends ++ s.events),
      total-append w sends s.events,
    )

pub claim_sends : (claim : Bool) → total is_sent (claim_events claim) ≡ 0
claim_sends true = refl
claim_sends false = refl

admitted_turn_sends :
    (c : RestClient) (q : RestRequest) (attempt : ℕ) (o : Round) (owns : Bool)
    (b : Option CircuitBreakerPolicy) (a : Admission)
    → total is_sent (admitted_turn c q attempt o owns b a).events
      ≤ 1 + (if attempt == 0 then 1 else 0)
admitted_turn_sends c q attempt o owns b (circuit_open e) = unfold admitted_turn in omega arith
admitted_turn_sends c q attempt o owns b (admitted claim) = omega (
  arith,
  total-admitted_turn is_sent c q attempt o owns b claim,
  claim_sends claim,
  answer_sends c q attempt o,
  Settled-total is_sent sent-IgnoresSettling c q attempt o (interfere b o.during) (owns || claim) (
      settle-Settled c q attempt o (interfere b o.during) (owns || claim) (answer c q attempt o).0),
)

turn_sends :
    (c : RestClient) (q : RestRequest) (attempt : ℕ) (o : Round) (b : Option CircuitBreakerPolicy)
    (owns : Bool)
    → total is_sent (turn c q attempt o b owns).events ≤ 1 + (if attempt == 0 then 1 else 0)
unfolding turn
turn_sends c q attempt o b owns = admitted_turn_sends c q attempt o owns _ _

-- A turn, and if it asks for another round, what that does: the weights add up.
pub total-continue :
    (w : Event → ℕ) (v : Verdict) (t rest : Turn)
    → total w (continue v t rest).events ≤ total w t.events + total w rest.events
total-continue w again t rest = omega (arith, total-append w t.events rest.events)
total-continue w _ t rest = omega arith

pub loop_sends :
    (c : RestClient) (q : RestRequest) (rounds : ℕ → Round) (left attempt : ℕ)
    (b : Option CircuitBreakerPolicy) (owns : Bool)
    → total is_sent (loop c q rounds left attempt b owns).events
      ≤ left + (if attempt == 0 then 1 else 0)
unfolding loop
loop_sends c q rounds zero attempt b owns = omega arith
loop_sends c q rounds (suc left) attempt b owns =
    let t = turn c q attempt (rounds attempt) b owns in
    let rest = loop c q rounds left (suc attempt) t.breaker t.owns in
    ground (
      arith,
      total-continue is_sent t.verdict t rest,
      turn_sends c q attempt (rounds attempt) b owns,
      loop_sends c q rounds left (suc attempt) t.breaker t.owns,
    )

refreshed_reports :
    (f : Refresh) (r : Response) (replay : Reply) → total is_reported (refreshed f r replay).1 ≡ 0
unfolding refreshed
refreshed_reports (refresh_throws e) r replay = refl
refreshed_reports (token none) r replay = refl
refreshed_reports (token (some t)) r replay = ground arith

-- The transport calls are no reports.
pub answer_reports :
    (c : RestClient) (q : RestRequest) (attempt : ℕ) (o : Round)
    → total is_reported (answer c q attempt o).1 ≡ 0
unfolding answer
answer_reports c q attempt o = by_reply o.reply
  where
    by_reply : (a : Reply) → 0 + total is_reported (answer_reply c q attempt o a).1 ≡ 0
    by_reply (throws e) = omega arith
    by_reply (responds r) = ground (arith, refreshed_reports o.refresh r o.replay)

pub claim_reports : (claim : Bool) → total is_reported (claim_events claim) ≡ 0
claim_reports true = refl
claim_reports false = refl

refreshed_claims :
    (f : Refresh) (r : Response) (replay : Reply) → total is_claimed (refreshed f r replay).1 ≡ 0
unfolding refreshed
refreshed_claims (refresh_throws e) r replay = refl
refreshed_claims (token none) r replay = refl
refreshed_claims (token (some t)) r replay = ground arith

-- Nor are they claims.
pub answer_claims :
    (c : RestClient) (q : RestRequest) (attempt : ℕ) (o : Round)
    → total is_claimed (answer c q attempt o).1 ≡ 0
unfolding answer
answer_claims c q attempt o = by_reply o.reply
  where
    by_reply : (a : Reply) → 0 + total is_claimed (answer_reply c q attempt o a).1 ≡ 0
    by_reply (throws e) = omega arith
    by_reply (responds r) = ground (arith, refreshed_claims o.refresh r o.replay)
