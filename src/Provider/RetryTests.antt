-- ===== src/Provider/RetryTests.antt =====
-- The theorems on provider/retry.go at small policies.
use rysh_cli_shared.Prelude.{
  ℕ, ◌*◌, String, false, none, some, [], ◌∷◌, ◌≡◌, refl, ok, err, eqb, if◌then◌else◌, arith,
}
use rysh_cli_shared.Provider.Retry.{
  RetryPolicy, class_success, class_transient, Attempted, Caller, given, backoff_for, retry_loop,
  retry_with_policy, default_retry_policy, second, positive, shift_left, jittered,
  classify_http_error, parse_retry_after, Headers, classify_transport_error,
}
use rysh_cli_shared.Provider.Retry.Attempts.{
  Fails, numbers, backoffs, retry_with_policy-settled, retry_with_policy-exhausted,
}
use rysh_cli_shared.Provider.Retry.Backoff.{backoff_for-doubling, backoff_for-overflow}

abbrev steady : RetryPolicy
steady = record default_retry_policy { jitter = 0 }

abbrev no_fuzz : ℕ → ℕ → ℕ
no_fuzz j d = 0

abbrev busy : Attempted ℕ String
busy = record { outcome = 0; classification = class_transient; retry_after = 0; error = some "529" }

abbrev answer : Attempted ℕ String
answer = record { outcome = 42; classification = class_success; retry_after = 0; error = none }

abbrev third : ℕ → Attempted ℕ String
third i = if eqb i 3 then answer else busy

abbrev caller : (ℕ → Attempted ℕ String) → Caller ℕ String
caller f = record { attempt = f; ended = λ i. none; interrupted = λ i. none; fuzz = λ i. no_fuzz }

abbrev fails : Fails (caller third) 1
fails = record { due = refl; transient = refl; rested = refl }

abbrev seconds : ℕ → ℕ
seconds n = n * second

third_run :
    retry_with_policy (caller third) steady
    ≡ record { returned = ok 42; attempts = 1 ∷ 2 ∷ 3 ∷ []; waits = seconds 1 ∷ seconds 2 ∷ [] }
unfolding retry_with_policy retry_loop backoff_for shift_left jittered positive
third_run = refl

plain_texts : Headers
plain_texts = record { trim_space = λ s. s; atoi = λ s. some 7; until_time = λ s. none }

overloaded : classify_http_error plain_texts 529 "7" ≡ (class_transient, seconds 7)
unfolding classify_http_error parse_retry_after plain_texts
overloaded = refl

reset :
    classify_transport_error (
      some (record {
        is_retryable = false;
        is_canceled = false;
        is_deadline_exceeded = false;
        is_timeout = false;
        message = "read: connection reset by peer";
      }))
    ≡ class_transient
unfolding classify_transport_error
reset = refl

retry_with_policy-settled_example : retry_with_policy (caller third) steady ≡ record {
  returned = ok 42;
  attempts = numbers 1 3;
  waits = backoffs (caller third) steady 1 2;
}
retry_with_policy-settled_example =
    retry_with_policy-settled (caller third) steady 2 (ok 42) (omega arith)
      (fails, (record { due = refl; transient = refl; rested = refl }, tt)) refl refl

abbrev short : RetryPolicy
short = record steady { max_attempts = 2 }

retry_with_policy-exhausted_example : retry_with_policy (caller third) short ≡ record {
  returned = err (given "529");
  attempts = numbers 1 2;
  waits = backoffs (caller third) short 1 1;
}
retry_with_policy-exhausted_example =
    retry_with_policy-exhausted (caller third) short 1 refl
      (fails, (record { due = refl; transient = refl; rested = refl }, tt))

backoff_for-doubling_example : backoff_for no_fuzz steady 4 0 ≡ seconds 8
unfolding positive
backoff_for-doubling_example =
    backoff_for-doubling no_fuzz steady 3 0 refl refl (omega arith) (omega arith) (omega arith)
      (omega arith)

backoff_for-overflow_example : backoff_for no_fuzz steady 65 0 ≡ 0
unfolding positive
backoff_for-overflow_example =
    backoff_for-overflow no_fuzz steady 64 0 refl refl (omega arith) (omega arith)
