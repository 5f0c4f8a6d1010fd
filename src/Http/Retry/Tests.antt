-- ===== src/Http/Retry/Tests.antt =====
-- http/retry-policy.ts: runs of the policy, and the theorems at concrete inputs.
use ksef_client_ts.Base.{
  ℕ, ◌+◌, ◌*◌, ◌^◌, ◌≤◌, ◌≡◌, ◌↔◌, inl, refl, min, true, false, none, some, arith, str_eq,
}
use ksef_client_ts.Base.Number.{nan, thousandths}
use ksef_client_ts.Http.Retry.{
  Host, Response, Thrown, js_error, invalid_date, since_epoch, default_retry_policy,
  max_timer_delay_ms, calculate_backoff, parse_retry_after, get_retry_after_ms,
  exceeds_max_retry_after, is_non_idempotent, is_retryable_error, is_retryable_status,
}
use ksef_client_ts.Http.Retry.Delays.{calculate_backoff_bounds}
use ksef_client_ts.Http.Retry.Idempotence.{not_sent, is_listed, non_idempotent_retries}

-- A host that reads two headers.
abbrev host : Host
host = record {
  to_number = λ text. elim (str_eq text "5") [ true ↦ thousandths 5000 | false ↦ nan ];
  to_date = λ text. elim (str_eq text "later") [ true ↦ since_epoch 1700 | false ↦ invalid_date ];
}

parse_runs :
    (parse_retry_after host 1500 (some "5") ≡ some 5_000_000)
    × (parse_retry_after host 1500 (some "later") ≡ some 200_000)
    × (parse_retry_after host 1500 (some " ") ≡ none)
    × (parse_retry_after host 1500 (some "x") ≡ none)
unfolding parse_retry_after
parse_runs = (refl, refl, refl, refl)

method_runs :
    (is_non_idempotent (some "post") ≡ true)
    × (is_non_idempotent (some "PUT") ≡ false)
    × (is_retryable_error (js_error "TimeoutError" none) default_retry_policy (some "GET") ≡ false)
unfolding is_non_idempotent is_retryable_error
method_runs = (refl, refl, refl)

calculate_backoff_bounds_example :
    (min (min (500_000 * 2 ^ 2) 30_000_000) max_timer_delay_ms
      ≤ calculate_backoff 2 default_retry_policy 7)
    × (calculate_backoff 2 default_retry_policy 7 ≤ 500_000 * 2 ^ 2 + 500_000)
    × (calculate_backoff 2 default_retry_policy 7 ≤ 30_000_000)
    × (calculate_backoff 2 default_retry_policy 7 ≤ max_timer_delay_ms)
calculate_backoff_bounds_example = calculate_backoff_bounds 2 7 default_retry_policy (omega arith)

abbrev busy : Response
busy = record { status = 503; retry_after = some "5" }

accepts :
    (d : ℕ)
    → get_retry_after_ms host 0 busy ≡ some d
    → exceeds_max_retry_after d default_retry_policy ≡ false
unfolding get_retry_after_ms parse_retry_after exceeds_max_retry_after
accepts d h = ground arith

abbrev refused : Thrown
refused = js_error "Error" (some "ECONNREFUSED")

non_idempotent_retries_example :
    ((is_retryable_status 429 default_retry_policy (some "Post") ≡ true)
      ↔ ((◌≡◌ {A = ℕ} 429 429) × (is_listed default_retry_policy 429 ≡ true)))
    × ((is_retryable_error refused default_retry_policy (some "Post") ≡ true)
        ↔ ((default_retry_policy.retry_network_errors ≡ true) × (not_sent refused ≡ true)))
non_idempotent_retries_example =
    non_idempotent_retries default_retry_policy "Post" 429 refused (inl refl)
