-- ===== src/Http/Retry.antt =====
-- http/retry-policy.ts: the retry policy's decisions. Delays are in thousandths of a millisecond.
pub mod Delays
pub mod Idempotence
mod Tests
use ksef_client_ts.Base.{
  ℕ, ◌+◌, ◌-◌, ◌*◌, ◌/◌, ◌^◌, min, Bool, true, false, ◌&&◌, ◌||◌, not, Option, none, some, List, [],
  ◌∷◌, String, map, ltb, leb, ◌==◌, if◌then◌else◌, any, str_eq,
}
use ksef_client_ts.Base.Number.{Number, nan, infinity, minus_infinity, thousandths, minus}
use ksef_client_ts.Base.Text.{codes, same_text, to_upper, trims_empty}

pub record RetryPolicy : Type 0 where
  pub max_retries : ℕ
  pub base_delay_ms : ℕ
  pub max_delay_ms : ℕ
  pub retryable_status_codes : List ℕ
  pub retry_network_errors : Bool
  pub max_retry_after_ms : Option Number

abbrev pub default_max_retry_after_ms : ℕ
default_max_retry_after_ms = 120_000_000

abbrev pub max_timer_delay_ms : ℕ
max_timer_delay_ms = 2_147_483_647_000

abbrev pub default_retry_policy : RetryPolicy
default_retry_policy = record {
  max_retries = 3;
  base_delay_ms = 500_000;
  max_delay_ms = 30_000_000;
  retryable_status_codes = 429 ∷ 500 ∷ 502 ∷ 503 ∷ 504 ∷ [];
  retry_network_errors = true;
  max_retry_after_ms = some (thousandths default_max_retry_after_ms);
}

-- `Math.random()` is `random / random_scale`.
abbrev pub random_scale : ℕ
random_scale = 9_007_199_254_740_992

-- calculateBackoff(attempt, policy), rounded down to a thousandth of a millisecond
unfoldable pub calculate_backoff : ℕ → RetryPolicy → ℕ → ℕ
calculate_backoff attempt policy random =
    let exponential = policy.base_delay_ms * 2 ^ attempt in
    let jitter = random * policy.base_delay_ms / random_scale in
    min (min (exponential + jitter) policy.max_delay_ms) max_timer_delay_ms

-- What `new Date(text).getTime()` is, in milliseconds: invalid, before 1970, or since.
pub data Instant : Type 0 where
  invalid_date before_epoch : Instant
  since_epoch : ℕ → Instant

-- The conversions of the host: `Number(text)` and `new Date(text)`.
pub record Host : Type 0 where
  pub to_number : String → Number
  pub to_date : String → Instant

date_delay : Instant → ℕ → Option ℕ
date_delay invalid_date now = none
date_delay before_epoch now = some 0
date_delay (since_epoch t) now = some ((t - now) * 1000)

-- A count of seconds in thousandths is one of milliseconds.
seconds_delay : Number → Instant → ℕ → Option ℕ
unfolding date_delay
seconds_delay nan date now = date_delay date now
seconds_delay (thousandths n) date now = some (n * 1000)
seconds_delay (minus n) date now = some 0
seconds_delay _ date now = none

-- parseRetryAfter(header), with `now` for `Date.now()`
unfoldable pub parse_retry_after : Host → ℕ → Option String → Option ℕ
unfolding seconds_delay
parse_retry_after host now none = none
parse_retry_after host now (some header) =
    if trims_empty (codes header)
    then none
    else seconds_delay (host.to_number header) (host.to_date header) now

pub record Response : Type 0 where
  pub status : ℕ
  pub retry_after : Option String

-- RETRY_AFTER_STATUSES.has(status)
abbrev honours_retry_after : ℕ → Bool
honours_retry_after status = status == 429 || status == 503

-- getRetryAfterMs(response)
unfoldable pub get_retry_after_ms : Host → ℕ → Response → Option ℕ
get_retry_after_ms host now r =
    if honours_retry_after r.status then parse_retry_after host now r.retry_after else none

-- Whether a delay exceeds the cap `min(configured, MAX_TIMER_DELAY_MS)`.
abbrev exceeds_cap : ℕ → Number → Bool
exceeds_cap delay nan = ltb default_max_retry_after_ms delay
exceeds_cap delay infinity = ltb max_timer_delay_ms delay
exceeds_cap delay (thousandths n) = ltb (min n max_timer_delay_ms) delay
exceeds_cap delay _ = true

-- exceedsMaxRetryAfter(delayMs, policy)
unfoldable pub exceeds_max_retry_after : ℕ → RetryPolicy → Bool
exceeds_max_retry_after delay policy = elim policy.max_retry_after_ms [
  | none ↦ ltb default_max_retry_after_ms delay
  | some configured ↦ exceeds_cap delay configured
]

-- A thrown value: an `Error` with its name and its `code`, if that is a text, or another value.
pub data Thrown : Type 0 where
  js_error : String → Option String → Thrown
  other_value : Thrown

abbrev pub retryable_error_codes : List String
retryable_error_codes = "ECONNRESET" ∷ "ECONNREFUSED" ∷ "ETIMEDOUT" ∷ "UND_ERR_CONNECT_TIMEOUT" ∷ []

abbrev pub not_sent_error_codes : List String
not_sent_error_codes = "ECONNREFUSED" ∷ "UND_ERR_CONNECT_TIMEOUT" ∷ []

abbrev pub has_code : List String → Option String → Bool
has_code set none = false
has_code set (some code) = any (λ c. str_eq c code) set

-- NON_IDEMPOTENT_METHODS.has(method.toUpperCase())
unfoldable pub is_non_idempotent : Option String → Bool
is_non_idempotent none = false
is_non_idempotent (some method) =
    let upper = map to_upper (codes method) in
    same_text upper (codes "POST") || same_text upper (codes "PATCH")

-- isRetryableError(error, policy, method)
unfoldable pub is_retryable_error : Thrown → RetryPolicy → Option String → Bool
is_retryable_error other_value policy method = false
is_retryable_error (js_error name code) policy method =
    if not policy.retry_network_errors
    then false
    else if is_non_idempotent method
    then has_code not_sent_error_codes code
    else str_eq name "AbortError" || has_code retryable_error_codes code

-- isRetryableStatus(status, policy, method)
unfoldable pub is_retryable_status : ℕ → RetryPolicy → Option String → Bool
is_retryable_status status policy method =
    any (λ s. s == status) policy.retryable_status_codes
    && (not (is_non_idempotent method) || status == 429)
