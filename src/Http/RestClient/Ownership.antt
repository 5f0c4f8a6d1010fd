-- ===== src/Http/RestClient/Ownership.antt =====
-- http/rest-client.ts: a request that claims the half-open probe accounts for it.
use native.Mathlib.Nat.{zero-add}
use ksef_client_ts.Base.{
  ℕ, zero, suc, ◌+◌, ◌≤◌, ◌≡◌, refl, Bool, true, false, Option, none, some, List, ◌++◌, arith,
  if◌then◌else◌, inl, inr, Bool-cases, ◌&&◌, ◌||◌, not, is_some, String,
}
use ksef_client_ts.Http.CircuitBreaker.{CircuitBreakerPolicy, Admission, admitted, circuit_open}
use ksef_client_ts.Http.CircuitBreaker.Ensured.{
  Ensured, untracked, unopened, owner, claim, ensure_closed-Ensured,
}
use ksef_client_ts.Http.CircuitBreaker.Invariant.{Call, failure}
use ksef_client_ts.Http.Retry.{Thrown}
use ksef_client_ts.Http.RestClient.{
  RestRequest, RestClient, Reply, Round, thrown, breaker_open, last_error_unset, Verdict, returned,
  raised, again, Turn, answer, check, claim_events, admitted_turn, turn, continue, loop, finish,
  report, settle, interfere, outcome_call, Entry, enter, start_loop, send_request,
}
use ksef_client_ts.Http.RestClient.Turns.{
  Caught, retried, counted, dropped, Settled, final, waits, limited, fails, settle-Settled,
}
use ksef_client_ts.Http.RestClient.Outcome.{Ends, send_request-Ends}
use ksef_client_ts.Http.RestClient.Events.{
  total, total-append, is_claimed, is_reported, answer_reports, claim_reports, total-admitted_turn,
  answer_claims,
}

abbrev pub held : Bool → ℕ
held true = 1
held false = 0

-- The probes held at the start and claimed since are covered by reports, or still held before
-- another round. Where the breaker itself refused to go on, nothing is said, nor of the end past
-- the loop, which no request reaches.
abbrev pub Accounted : Verdict → ℕ → Bool → ℕ → ℕ → Type 0
Accounted again start owns claims reports = start + claims ≤ reports + held owns
Accounted (raised (breaker_open _)) start owns claims reports = Unit
Accounted (raised last_error_unset) start owns claims reports = Unit
Accounted _ start owns claims reports = start + claims ≤ reports

abbrev Balanced : ℕ → Turn → Type 0
Balanced start t =
    (is_some t.breaker ≡ true)
    × Accounted t.verdict start t.owns (total is_claimed t.events) (total is_reported t.events)

held-le : (owns : Bool) → held owns ≤ 1
held-le true = omega arith
held-le false = omega arith

report-Balanced :
    (b : Option CircuitBreakerPolicy) (call : Call)
    → is_some b ≡ true
    → (is_some (report b call).0 ≡ true)
      × (total is_reported (report b call).1 ≡ 1)
      × (total is_claimed (report b call).1 ≡ 0)
report-Balanced none call h = cc
report-Balanced (some p) call h = (refl, omega arith, omega arith)

is_some-interfere :
    (b : Option CircuitBreakerPolicy) (cs : List Call)
    → is_some b ≡ true
    → is_some (interfere b cs) ≡ true
is_some-interfere none cs h = h
is_some-interfere (some p) cs h = refl

Caught-Balanced :
    (c : RestClient) (q : RestRequest) (attempt : ℕ) (o : Round) (b : Option CircuitBreakerPolicy)
    (now : ℕ) {owns : Bool} {e : Thrown} {t : Turn}
    → is_some b ≡ true
    → Caught c q attempt o b now owns e t
    → Balanced (held owns) t
Caught-Balanced c q attempt o b now has (retried e d _ left) = (has, omega arith)
Caught-Balanced c q attempt o b now has (counted {owns} e _) =
    let facts = report-Balanced b (failure q.path now) has in
    (facts.0, omega (arith, facts.1, facts.2, held-le owns))
Caught-Balanced c q attempt o b now has (dropped e _) = (has, omega arith)

-- A report made before a turn covers a probe that the turn no longer holds.
covered :
    (v : Verdict) (owns t_owns : Bool) (claims reports : ℕ)
    → Accounted v 0 t_owns claims reports
    → Accounted v (held owns) t_owns claims (1 + reports)
covered again owns t_owns claims reports h = omega (arith, held-le owns)
covered (returned r) owns t_owns claims reports h = omega (arith, held-le owns)
covered (raised (thrown e)) owns t_owns claims reports h = omega (arith, held-le owns)
covered (raised (breaker_open e)) owns t_owns claims reports h = tt
covered (raised last_error_unset) owns t_owns claims reports h = tt
covered (raised _) owns t_owns claims reports h = omega (arith, held-le owns)

Settled-Balanced :
    (c : RestClient) (q : RestRequest) (attempt : ℕ) (o : Round) (b : Option CircuitBreakerPolicy)
    (owns : Bool) {a : Reply} {t : Turn}
    → is_some b ≡ true
    → Settled c q attempt o b owns a t
    → Balanced (held owns) t
unfolding finish
Settled-Balanced c q attempt o b owns has (final r) =
    let facts = report-Balanced b (outcome_call q.path r.status o.recorded_at) has in
    (facts.0, omega (arith, facts.1, facts.2, held-le owns))
Settled-Balanced c q attempt o b owns has (waits r d _ _) = (has, omega arith)
Settled-Balanced c q attempt o b owns has (limited r d e {t} _ _ _ k) =
    let call = outcome_call q.path 429 o.late_at in
    let facts = report-Balanced (interfere b o.late) call (is_some-interfere b o.late has) in
    let (kept, accounted) =
      Caught-Balanced c q attempt o (report (interfere b o.late) call).0 o.late_at facts.0 k in
    let reports : 0 + total is_reported ((report (interfere b o.late) call).1 ++ t.events)
        ≡ 1 + total is_reported t.events =
      omega
        (arith, total-append is_reported (report (interfere b o.late) call).1 t.events, facts.1) in
    let claims : 0 + total is_claimed ((report (interfere b o.late) call).1 ++ t.events)
        ≡ total is_claimed t.events =
      omega
        (arith, total-append is_claimed (report (interfere b o.late) call).1 t.events, facts.2) in
    (kept, rw (reports, claims) (covered t.verdict owns t.owns _ _ accounted))
Settled-Balanced c q attempt o b owns has (fails e k) = Caught-Balanced c q attempt o b _ has k

-- An admission claims the probe only for a request that does not hold it.
abbrev Takes : Bool → Admission → Type 0
Takes owns (circuit_open e) = Unit
Takes owns (admitted taken) = held (owns || taken) ≡ held owns + held taken

held-or_false : (owns : Bool) → held (owns || false) ≡ held owns + 0
held-or_false true = refl
held-or_false false = refl

Ensured-Takes :
    (p : CircuitBreakerPolicy) (e : String) (now : ℕ) {owns : Bool}
    {r : CircuitBreakerPolicy × Admission}
    → Ensured p e now owns r
    → Takes owns r.1
Ensured-Takes p e now (untracked {owns} _) = held-or_false owns
Ensured-Takes p e now (unopened {owns} _ _ _) = held-or_false owns
Ensured-Takes p e now (claim _ _ _ _ _ _) = refl
Ensured-Takes p e now (owner _ _ _ _ _) = refl
Ensured-Takes p e now _ = tt

check_facts :
    (b : Option CircuitBreakerPolicy) (path : String) (now : ℕ) (owns : Bool)
    → is_some b ≡ true
    → (is_some (check b path now owns).0 ≡ true) × Takes owns (check b path now owns).1
check_facts none path now owns has = cc
check_facts (some p) path now owns has =
    (refl, Ensured-Takes p path now (ensure_closed-Ensured p path now owns))

claim_claims : (taken : Bool) → total is_claimed (claim_events taken) ≡ held taken
claim_claims true = refl
claim_claims false = refl

-- More claims at the start of a turn, and as many more probes held.
shifted :
    (v : Verdict) (start more claims reports : ℕ) (owns : Bool)
    → Accounted v (start + more) owns claims reports
    → Accounted v start owns (more + claims) reports
shifted again start more claims reports owns h = omega arith
shifted (returned r) start more claims reports owns h = omega arith
shifted (raised (breaker_open e)) start more claims reports owns h = tt
shifted (raised last_error_unset) start more claims reports owns h = tt
shifted (raised _) start more claims reports owns h = omega arith

admitted_turn-Balanced :
    (c : RestClient) (q : RestRequest) (attempt : ℕ) (o : Round) (owns : Bool)
    (b : Option CircuitBreakerPolicy) (a : Admission)
    → is_some b ≡ true
    → Takes owns a
    → Balanced (held owns) (admitted_turn c q attempt o owns b a)
unfolding admitted_turn
admitted_turn-Balanced c q attempt o owns b (circuit_open e) has takes = (has, tt)
admitted_turn-Balanced c q attempt o owns b (admitted taken) has takes =
    let s = settle c q attempt o (interfere b o.during) (owns || taken) (answer c q attempt o).0 in
    let (kept, accounted) =
      Settled-Balanced c q attempt o (interfere b o.during) (owns || taken)
        (is_some-interfere b o.during has)
        (settle-Settled c q attempt o (interfere b o.during) (owns || taken)
          (answer c q attempt o).0) in
    let reports : total is_reported (claim_events taken ++ ((answer c q attempt o).1 ++ s.events))
        ≡ total is_reported s.events =
      omega (
        arith,
        total-admitted_turn is_reported c q attempt o owns b taken,
        claim_reports taken,
        answer_reports c q attempt o,
      ) in
    let claims : total is_claimed (claim_events taken ++ ((answer c q attempt o).1 ++ s.events))
        ≡ held taken + total is_claimed s.events =
      omega (
        arith,
        total-admitted_turn is_claimed c q attempt o owns b taken,
        claim_claims taken,
        answer_claims c q attempt o,
      ) in
    (
      kept,
      rw (reports, claims)
          (shifted s.verdict (held owns) (held taken) _ _ s.owns (rw takes at accounted)),
    )

turn-Balanced :
    (c : RestClient) (q : RestRequest) (attempt : ℕ) (o : Round) (b : Option CircuitBreakerPolicy)
    (owns : Bool)
    → is_some b ≡ true
    → Balanced (held owns) (turn c q attempt o b owns)
unfolding turn
turn-Balanced c q attempt o b owns has =
    let facts =
      check_facts (interfere b o.before) q.path o.checked_at owns
        (is_some-interfere b o.before has) in
    admitted_turn-Balanced c q attempt o owns _ _ facts.0 facts.1

-- A turn that asks for another round, and what that round does.
joined :
    (v : Verdict) (start mid claims reports claims' reports' : ℕ) (owns : Bool)
    → start + claims ≤ reports + mid
    → Accounted v mid owns claims' reports'
    → Accounted v start owns (claims + claims') (reports + reports')
joined again start mid claims reports claims' reports' owns h k = omega arith
joined (returned r) start mid claims reports claims' reports' owns h k = omega arith
joined (raised (breaker_open e)) start mid claims reports claims' reports' owns h k = tt
joined (raised last_error_unset) start mid claims reports claims' reports' owns h k = tt
joined (raised _) start mid claims reports claims' reports' owns h k = omega arith

continue-Balanced :
    (start : ℕ) (v : Verdict) (t rest : Turn)
    → v ≡ t.verdict
    → Balanced start t
    → Balanced (held t.owns) rest
    → Balanced start (continue v t rest)
continue-Balanced start again t rest same (has, accounted) (has', later) =
    let open_end : start + total is_claimed t.events ≤ total is_reported t.events + held t.owns =
      rw (← same) at accounted in
    (
      has',
      rw
          (
            total-append is_claimed t.events rest.events,
            total-append is_reported t.events rest.events,
          )
          (joined rest.verdict start (held t.owns) _ _ _ _ rest.owns open_end later),
    )
continue-Balanced start (returned r) t rest same now later = now
continue-Balanced start (raised e) t rest same now later = now

loop-Balanced :
    (c : RestClient) (q : RestRequest) (rounds : ℕ → Round) (left attempt : ℕ)
    (b : Option CircuitBreakerPolicy) (owns : Bool)
    → is_some b ≡ true
    → Balanced (held owns) (loop c q rounds left attempt b owns)
unfolding loop
loop-Balanced c q rounds zero attempt b owns has = (has, tt)
loop-Balanced c q rounds (suc left) attempt b owns has =
    let t = turn c q attempt (rounds attempt) b owns in
    let now = turn-Balanced c q attempt (rounds attempt) b owns has in
    continue-Balanced (held owns) t.verdict t (loop c q rounds left (suc attempt) t.breaker t.owns)
      refl now (loop-Balanced c q rounds left (suc attempt) t.breaker t.owns now.0)

start_loop-Balanced :
    (c : RestClient) (q : RestRequest) (n : Entry) (rounds : ℕ → Round)
    (b : Option CircuitBreakerPolicy) (owns : Bool) (limiter : Option Thrown)
    → is_some b ≡ true
    → Balanced (held owns) (start_loop c q n rounds b owns limiter)
start_loop-Balanced c q n rounds b owns none has =
    loop-Balanced c q rounds (suc c.retry_policy.max_retries) 0 b owns has
start_loop-Balanced c q n rounds none owns (some e) has = cc
start_loop-Balanced c q n rounds (some p) true (some e) has = (refl, omega arith)
start_loop-Balanced c q n rounds (some p) false (some e) has = (refl, omega arith)

enter-Balanced :
    (c : RestClient) (q : RestRequest) (n : Entry) (rounds : ℕ → Round)
    (b : Option CircuitBreakerPolicy) (a : Admission)
    → is_some b ≡ true
    → Balanced 0 (enter c q n rounds b a)
enter-Balanced c q n rounds b (circuit_open e) has = (has, tt)
enter-Balanced c q n rounds b (admitted taken) has =
    let limiter = if c.has_rate_limit then n.acquire else none in
    let t = start_loop c q n rounds b taken limiter in
    let (kept, accounted) = start_loop-Balanced c q n rounds b taken limiter has in
    let reports : total is_reported (claim_events taken ++ t.events) ≡ total is_reported t.events =
      omega (arith, total-append is_reported (claim_events taken) t.events, claim_reports taken) in
    let claims : total is_claimed (claim_events taken ++ t.events)
        ≡ held taken + total is_claimed t.events =
      omega (arith, total-append is_claimed (claim_events taken) t.events, claim_claims taken) in
    (
      kept,
      rw (reports, claims) (shifted t.verdict 0 (held taken) _ _ t.owns (rw zero-add accounted)),
    )

send_request-Balanced :
    (c : RestClient) (q : RestRequest) (n : Entry) (rounds : ℕ → Round) (p : CircuitBreakerPolicy)
    → Balanced 0 (send_request c q n rounds (some p))
unfolding send_request
send_request-Balanced c q n rounds p =
    elim (Bool-cases (q.is_presigned && c.has_presigned_policy && not n.url_valid)) [
      | inl refused ↦ rw refused (refl, omega arith)
      | inr accepted ↦ rw accepted (enter-Balanced c q n rounds _ _ refl)
    ]

-- The claims of a request that has ended are covered by its reports.
abbrev pub Covers : Verdict → ℕ → ℕ → Type 0
Covers (raised (breaker_open _)) claims reports = Unit
Covers _ claims reports = claims ≤ reports

covers :
    (v : Verdict) (owns : Bool) (claims reports : ℕ)
    → Ends v
    → Accounted v 0 owns claims reports
    → Covers v claims reports
covers again owns claims reports ends h = absurd ends
covers (returned r) owns claims reports ends h = omega arith
covers (raised (breaker_open e)) owns claims reports ends h = tt
covers (raised last_error_unset) owns claims reports ends h = absurd ends
covers (raised _) owns claims reports ends h = omega arith

-- Unless the breaker itself refuses a later attempt of it, a request that has claimed the half-open
-- probe of its breaker has given it back when it ends, by reporting an outcome or releasing it: the
-- probe slot does not leak, whatever the server, the limiter, the refresh and other requests do.
pub send_request-Covers :
    (c : RestClient) (q : RestRequest) (n : Entry) (rounds : ℕ → Round) (p : CircuitBreakerPolicy)
    → Covers
        (send_request c q n rounds (some p)).verdict
        (total is_claimed (send_request c q n rounds (some p)).events)
        (total is_reported (send_request c q n rounds (some p)).events)
send_request-Covers c q n rounds p =
    let t = send_request c q n rounds (some p) in
    covers t.verdict t.owns _ _ (send_request-Ends c q n rounds (some p)).0
      (send_request-Balanced c q n rounds p).1
