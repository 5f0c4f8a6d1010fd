-- ===== src/Http/CircuitBreaker/States.antt =====
-- http/circuit-breaker-policy.ts: what each method leaves under each key of the map.
use ksef_client_ts.Base.{
  ℕ, ◌+◌, ◌≡◌, refl, Bool, true, false, Option, none, some, [], ◌∷◌, String, arith, leb, str_eq,
  eq_iff, eq_refl, Bool-cases, Option-cases, or_default, ◌∙◌, if◌then◌else◌, inl, inr, ◌⊎◌, ◌≢◌,
}
use ksef_client_ts.Base.Dict.{
  Dict, get, get-put, get-remove, Distinct, put-Distinct, remove-Distinct,
}
use ksef_client_ts.Http.CircuitBreaker.{
  CircuitState, CircuitBreakerPolicy, key_for, is_settled, sweep, with_state, check_state,
  half_open, ensure_closed, release_probe, maybe_sweep_stale_closed, fresh, failed_state,
  record_failure, record_success,
}

-- The states of a policy by key.
abbrev pub state_at : CircuitBreakerPolicy → String → Option CircuitState
state_at p key = get key p.states

module _ (open_ms now : ℕ) (keep : String) where
  pub get-sweep_keep : (m : Dict CircuitState) → get keep (sweep open_ms now keep m) ≡ get keep m
  unfolding sweep is_settled get
  get-sweep_keep [] = refl
  get-sweep_keep ((key, s) ∷ m) = ground (arith, get-sweep_keep m)

  get-sweep-none :
      (key : String) (m : Dict CircuitState)
      → get key m ≡ none
      → get key (sweep open_ms now keep m) ≡ none
  unfolding sweep get
  get-sweep-none key [] h = refl
  get-sweep-none key ((j, s) ∷ m) h = ground (arith, get-sweep-none key m)

  pub get-sweep :
      (key : String) (m : Dict CircuitState)
      → Distinct m
      → (get key (sweep open_ms now keep m) ≡ get key m)
        ⊎ ((s : CircuitState) × (get key m ≡ some s)
            × (is_settled open_ms now keep key s ≡ true)
            × (get key (sweep open_ms now keep m) ≡ none))
  unfolding sweep get
  get-sweep key [] h = inl refl
  get-sweep key ((j, s) ∷ m) (absent, h) = elim (Bool-cases (str_eq j key)) [
    | inl same ↦ elim (Bool-cases (is_settled open_ms now keep j s)) [
      | inl settled ↦
          let e : j ≡ key = (eq_iff j key).0 same in
          inr (s, rw same, rw (← e) settled, rw settled (rw (← e) (get-sweep-none j m absent)))
      | inr kept ↦ inl (rw (kept, same))
    ]
    | inr other ↦ elim (get-sweep key m h) [
      | inl e ↦ inl (ground arith)
      | inr (t, found, settled, gone) ↦ inr (t, rw other found, settled, ground arith)
    ]
  ]

  pub sweep-Distinct : (m : Dict CircuitState) → Distinct m → Distinct (sweep open_ms now keep m)
  unfolding sweep
  sweep-Distinct [] h = tt
  sweep-Distinct ((j, s) ∷ m) h = ground (arith, sweep-Distinct m, get-sweep-none j m)

module _ (p : CircuitBreakerPolicy) (now : ℕ) (keep : String) where
  maybe_sweep_states :
      ((maybe_sweep_stale_closed p now keep).states ≡ p.states)
      ⊎ ((maybe_sweep_stale_closed p now keep).states ≡ sweep p.open_ms now keep p.states)
  unfolding maybe_sweep_stale_closed
  maybe_sweep_states = ground arith

  maybe_sweep_keep : state_at (maybe_sweep_stale_closed p now keep) keep ≡ state_at p keep
  maybe_sweep_keep = elim maybe_sweep_states [
    | inl e ↦ rw e
    | inr e ↦ rw e (get-sweep_keep p.open_ms now keep p.states)
  ]

  maybe_sweep-Distinct : Distinct p.states → Distinct (maybe_sweep_stale_closed p now keep).states
  maybe_sweep-Distinct h = elim maybe_sweep_states [
    | inl e ↦ rw e h
    | inr e ↦ rw e (sweep-Distinct p.open_ms now keep p.states h)
  ]

  -- The sweep leaves a state alone, or deletes one that is settled.
  maybe_sweep_other :
      (key : String)
      → Distinct p.states
      → (state_at (maybe_sweep_stale_closed p now keep) key ≡ state_at p key)
        ⊎ ((s : CircuitState) × (state_at p key ≡ some s)
            × (is_settled p.open_ms now keep key s ≡ true)
            × (state_at (maybe_sweep_stale_closed p now keep) key ≡ none))
  maybe_sweep_other key h = elim maybe_sweep_states [
    | inl e ↦ inl (rw e)
    | inr e ↦ rw e (get-sweep p.open_ms now keep key p.states h)
  ]

-- The constants of a policy.
abbrev pub SameConfig : CircuitBreakerPolicy → CircuitBreakerPolicy → Type 0
SameConfig p q =
    (p.failure_threshold ≡ q.failure_threshold) × (p.open_ms ≡ q.open_ms) × (p.scope ≡ q.scope)

module _ (p : CircuitBreakerPolicy) (e : String) where
  pub record_failure-SameConfig : (now : ℕ) → SameConfig (record_failure p e now) p
  unfolding record_failure maybe_sweep_stale_closed
  record_failure-SameConfig now = ground arith

  pub record_success-SameConfig : SameConfig (record_success p e) p
  unfolding record_success
  record_success-SameConfig = ground arith

  pub release_probe-SameConfig : (now : ℕ) → SameConfig (release_probe p e now) p
  unfolding release_probe
  release_probe-SameConfig now = ground arith

  pub ensure_closed-SameConfig :
      (now : ℕ) (owns : Bool) → SameConfig (ensure_closed p e now owns).0 p
  unfolding ensure_closed
  ensure_closed-SameConfig now owns = ground arith

module _ (p : CircuitBreakerPolicy) (e : String) (now : ℕ) where
  failing : CircuitBreakerPolicy
  failing =
      with_state p (key_for p e) (
        failed_state p.failure_threshold p.open_ms now
          (or_default (state_at p (key_for p e)) fresh))

  pub record_failure_self :
      state_at (record_failure p e now) (key_for p e)
      ≡ some (
          failed_state p.failure_threshold p.open_ms now
            (or_default (state_at p (key_for p e)) fresh))
  unfolding record_failure failing
  record_failure_self = maybe_sweep_keep failing now (key_for p e) ∙ simp (get-put, eq_refl)

  pub record_failure_other :
      (key : String)
      → Distinct p.states
      → key ≢ key_for p e
      → (state_at (record_failure p e now) key ≡ state_at p key)
        ⊎ ((s : CircuitState) × (state_at p key ≡ some s)
            × (is_settled p.open_ms now (key_for p e) key s ≡ true)
            × (state_at (record_failure p e now) key ≡ none))
  unfolding record_failure failing
  record_failure_other key h ne = ground (
    arith,
    maybe_sweep_other failing now (key_for p e) key,
    eq_iff (key_for p e) key,
    put-Distinct (key_for p e)
        (failed_state p.failure_threshold p.open_ms now
          (or_default (state_at p (key_for p e)) fresh))
        p.states h,
    get-put (key_for p e) key
        (failed_state p.failure_threshold p.open_ms now
          (or_default (state_at p (key_for p e)) fresh))
        p.states,
  )

  pub record_failure-Distinct : Distinct p.states → Distinct (record_failure p e now).states
  unfolding record_failure
  record_failure-Distinct h =
      maybe_sweep-Distinct _ now (key_for p e) (put-Distinct (key_for p e) _ p.states h)

module _ (p : CircuitBreakerPolicy) (e : String) where
  pub record_success_states :
      (key : String)
      → state_at (record_success p e) key
        ≡ (if str_eq (key_for p e) key then none else state_at p key)
  unfolding record_success
  record_success_states key =
      ground (arith, get-remove (key_for p e) key p.states, eq_iff (key_for p e) key)

  pub record_success-Distinct : Distinct p.states → Distinct (record_success p e).states
  unfolding record_success
  record_success-Distinct h = ground (arith, remove-Distinct (key_for p e) p.states h)

-- The policy as it was, or with one new state under the key of an endpoint.
abbrev WritesKey : CircuitBreakerPolicy → String → CircuitBreakerPolicy → Type 0
WritesKey p e q = (q ≡ p) ⊎ ((s : CircuitState) × (q ≡ with_state p (key_for p e) s))

module _ (p q : CircuitBreakerPolicy) (e : String) (w : WritesKey p e q) where
  WritesKey-Distinct : Distinct p.states → Distinct q.states
  WritesKey-Distinct h = elim w [
    | inl same ↦ rw same h
    | inr (s, written) ↦ rw written (put-Distinct (key_for p e) s p.states h)
  ]

  WritesKey_other : (key : String) → key ≢ key_for p e → state_at q key ≡ state_at p key
  WritesKey_other key ne = elim w [
    | inl same ↦ rw same
    | inr (s, written) ↦
        rw written (ground (arith, get-put (key_for p e) key s p.states, eq_iff (key_for p e) key))
  ]

module _ (p : CircuitBreakerPolicy) (e : String) (now : ℕ) where
  release_probe-WritesKey : WritesKey p e (release_probe p e now)
  unfolding release_probe
  release_probe-WritesKey = elim (Option-cases (get (key_for p e) p.states)) [
    | inl absent ↦ inl (rw (absent, release_probe))
    | inr (s, found) ↦ elim (Bool-cases s.probe_in_flight) [
      | inl probing ↦ rw (found, release_probe, probing) (inr (_, refl))
      | inr idle ↦ inl (rw (found, release_probe, idle))
    ]
  ]

  check_state-WritesKey :
      (s : CircuitState) (opened : Option ℕ) (owns : Bool)
      → WritesKey p e (check_state p e (key_for p e) s opened now owns).0
  unfolding check_state half_open
  check_state-WritesKey s none owns = inl refl
  check_state-WritesKey s (some t) true = inl (ground arith)
  check_state-WritesKey s (some t) false = elim (Bool-cases (leb (t + p.open_ms) now)) [
    | inl over ↦ elim (Bool-cases s.probe_in_flight) [
      | inl probing ↦ inl (rw (over, probing))
      | inr idle ↦ rw (over, idle) (inr (_, refl))
    ]
    | inr cooling ↦ inl (rw cooling)
  ]

  ensure_closed-WritesKey : (owns : Bool) → WritesKey p e (ensure_closed p e now owns).0
  unfolding ensure_closed
  ensure_closed-WritesKey owns = elim (Option-cases (get (key_for p e) p.states)) [
    | inl absent ↦ inl (rw (absent, ensure_closed))
    | inr (s, found) ↦ rw (found, ensure_closed) (check_state-WritesKey s s.opened_at owns)
  ]

  pub release_probe-Distinct : Distinct p.states → Distinct (release_probe p e now).states
  release_probe-Distinct = WritesKey-Distinct p _ e release_probe-WritesKey

  pub release_probe_other :
      (key : String) → key ≢ key_for p e → state_at (release_probe p e now) key ≡ state_at p key
  release_probe_other = WritesKey_other p _ e release_probe-WritesKey

  pub ensure_closed-Distinct :
      (owns : Bool) → Distinct p.states → Distinct (ensure_closed p e now owns).0.states
  ensure_closed-Distinct owns = WritesKey-Distinct p _ e (ensure_closed-WritesKey owns)

  pub ensure_closed_other :
      (owns : Bool) (key : String)
      → key ≢ key_for p e
      → state_at (ensure_closed p e now owns).0 key ≡ state_at p key
  ensure_closed_other owns = WritesKey_other p _ e (ensure_closed-WritesKey owns)
