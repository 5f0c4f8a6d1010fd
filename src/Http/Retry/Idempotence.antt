-- ===== src/Http/Retry/Idempotence.antt =====
-- http/retry-policy.ts: what may be retried for a method that is not idempotent.
use ksef_client_ts.Base.{
  ℕ, ◌≡◌, refl, Bool, true, false, Option, none, some, arith, String, ◌||◌, ◌⊎◌, not, if◌then◌else◌,
  ◌↔◌, map, any, ◌==◌, str_eq, eq_iff, sym, ◌∙◌, Bool-cases, inl, inr,
}
use ksef_client_ts.Base.Text.{codes, to_upper}
use ksef_client_ts.Http.Retry.{
  RetryPolicy, Thrown, js_error, other_value, has_code, retryable_error_codes, not_sent_error_codes,
  is_non_idempotent, is_retryable_error, is_retryable_status,
}

or-true : (b : Bool) → (b || true) ≡ true
or-true true = refl
or-true false = refl

has_code_not_sent :
    (code : Option String)
    → has_code not_sent_error_codes code ≡ true
    → has_code retryable_error_codes code ≡ true
has_code_not_sent none h = h
has_code_not_sent (some c) h = ground arith

-- The codes of errors that are raised before the request is sent: the server refused the connection,
-- or it was not established in time.
abbrev pub no_connection : Option String → Bool
no_connection none = false
no_connection (some code) = str_eq code "ECONNREFUSED" || str_eq code "UND_ERR_CONNECT_TIMEOUT"

-- An error that was raised before the request was sent.
abbrev pub not_sent : Thrown → Bool
not_sent (js_error name code) = no_connection code
not_sent other_value = false

has_code-no_connection :
    (code : Option String) → has_code not_sent_error_codes code ≡ no_connection code
has_code-no_connection none = refl
has_code-no_connection (some c) = ground (
  arith,
  eq_iff c "ECONNREFUSED",
  eq_iff "ECONNREFUSED" c,
  eq_iff c "UND_ERR_CONNECT_TIMEOUT",
  eq_iff "UND_ERR_CONNECT_TIMEOUT" c,
)

-- No method given counts as idempotent.
none-is_non_idempotent : is_non_idempotent none ≡ false
unfolding is_non_idempotent
none-is_non_idempotent = refl

pub status-non_idempotent :
    (policy : RetryPolicy) (method : Option String) (status : ℕ)
    → is_non_idempotent method ≡ true
    → is_retryable_status status policy method ≡ true
    → (status ≡ 429) × (is_retryable_status status policy none ≡ true)
unfolding is_retryable_status
status-non_idempotent policy method status h k = ground (arith, none-is_non_idempotent)

pub error-non_idempotent :
    (policy : RetryPolicy) (method : Option String) (e : Thrown)
    → is_non_idempotent method ≡ true
    → is_retryable_error e policy method ≡ true
    → (not_sent e ≡ true) × (is_retryable_error e policy none ≡ true)
unfolding is_retryable_error
error-non_idempotent policy method other_value h k = cc
error-non_idempotent policy method (js_error name code) h k =
    let networked : policy.retry_network_errors ≡ true = ground arith in
    let unsent : has_code not_sent_error_codes code ≡ true = ground arith in
    (
      sym (has_code-no_connection code) ∙ unsent,
      rw (networked, none-is_non_idempotent, has_code_not_sent code unsent) (or-true _),
    )

-- POST or PATCH, in letters of either case.
abbrev pub IsWrite : String → Type 0
IsWrite method =
    (map to_upper (codes method) ≡ codes "POST") ⊎ (map to_upper (codes method) ≡ codes "PATCH")

IsWrite-is_non_idempotent :
    (method : String) → IsWrite method → is_non_idempotent (some method) ≡ true
unfolding is_non_idempotent
IsWrite-is_non_idempotent method (inl post) = rw (is_non_idempotent, post) refl
IsWrite-is_non_idempotent method (inr patch) = rw (is_non_idempotent, patch) refl

-- The policy lists the status.
abbrev pub is_listed : RetryPolicy → ℕ → Bool
is_listed policy status = any (λ s. s == status) policy.retryable_status_codes

write_status :
    (policy : RetryPolicy) (method : Option String) (status : ℕ)
    → is_non_idempotent method ≡ true
    → (is_retryable_status status policy method ≡ true)
      ↔ ((status ≡ 429) × (is_listed policy status ≡ true))
unfolding is_retryable_status
write_status policy method status h = (λ k. ground arith, λ k. ground arith)

both : (b c : Bool) → ((if not b then false else c) ≡ true) ↔ ((b ≡ true) × (c ≡ true))
both b c = (λ k. ground arith, λ k. ground arith)

write_error :
    (policy : RetryPolicy) (method : Option String) (e : Thrown)
    → is_non_idempotent method ≡ true
    → (is_retryable_error e policy method ≡ true)
      ↔ ((policy.retry_network_errors ≡ true) × (not_sent e ≡ true))
unfolding is_retryable_error
write_error policy method other_value h = (λ k. cc, λ k. cc)
write_error policy method (js_error name code) h =
    rw (h, has_code-no_connection code) (both policy.retry_network_errors (no_connection code))

-- For a POST or a PATCH, and whatever the policy: a status is retried if and only if it is 429 and the
-- policy lists it, and an error if and only if the policy retries network errors and the error is a
-- refused connection or one that was not established in time.
pub non_idempotent_retries :
    (policy : RetryPolicy) (method : String) (status : ℕ) (e : Thrown)
    → IsWrite method
    → ((is_retryable_status status policy (some method) ≡ true)
        ↔ ((status ≡ 429) × (is_listed policy status ≡ true)))
      × ((is_retryable_error e policy (some method) ≡ true)
          ↔ ((policy.retry_network_errors ≡ true) × (not_sent e ≡ true)))
non_idempotent_retries policy method status e h =
    let write = IsWrite-is_non_idempotent method h in
    (write_status policy (some method) status write, write_error policy (some method) e write)

-- What is retried for some method is retried for an idempotent one.
pub error-idempotent :
    (policy : RetryPolicy) (method : Option String) (e : Thrown)
    → is_retryable_error e policy method ≡ true
    → is_retryable_error e policy none ≡ true
unfolding is_retryable_error
error-idempotent policy method other_value k = cc
error-idempotent policy method (js_error name code) k =
    elim (Bool-cases (is_non_idempotent method)) [
      | inl h ↦ (error-non_idempotent policy method (js_error name code) h k).1
      | inr h ↦ ground (arith, none-is_non_idempotent)
    ]
