-- ===== src/Provider/Retry.antt =====
-- provider/retry.go: which failures are worth another attempt, how long to wait_for, and the loop.
-- Durations are nanoseconds. An `int` or a duration is its bit pattern, and so is a `float64`.
pub mod Attempts
pub mod Backoff
use rysh_cli_shared.Prelude.{
  ℕ, zero, suc, ◌+◌, ◌-◌, ◌*◌, ◌^◌, ◌%◌, String, Bool, true, false, ◌&&◌, ◌||◌, not, Option, none,
  some, List, [], ◌∷◌, Result, ok, err, ◌==◌, if◌then◌else◌, slt, leb, ltb, eqb, two_64, any,
}
use text.Mathlib.Text.{find?}

abbrev pub second : ℕ
second = 1000000000

pub record RetryPolicy : Type 0 where
  pub max_attempts : ℕ
  pub base_delay : ℕ
  pub max_delay : ℕ
  pub jitter : ℕ
  pub honour_retry_after : Bool

-- The bits of the float64 next to 0.2.
abbrev pub default_retry_policy : RetryPolicy
default_retry_policy = record {
  max_attempts = 5;
  base_delay = second;
  max_delay = 30 * second;
  jitter = 4596373779694328218;
  honour_retry_after = true;
}

pub data RetryClassification : Type 0 where
  class_success class_transient class_fatal : RetryClassification

-- What the functions of the standard library make of a header's text: strings.TrimSpace,
-- strconv.Atoi where it succeeds, and the time from now to http.ParseTime's where that succeeds.
pub record Headers : Type 0 where
  pub trim_space : String → String
  pub atoi : String → Option ℕ
  pub until_time : String → Option ℕ

abbrev pub until : Option ℕ → ℕ
until none = 0
until (some d) = if slt 0 d then d else 0

abbrev pub seconds_or : Option ℕ → ℕ → ℕ
seconds_or none d = d
seconds_or (some secs) d = if slt secs 0 then d else (secs * second) % two_64

-- parseRetryAfter
unfoldable pub parse_retry_after : Headers → String → ℕ
parse_retry_after h value =
    let v = h.trim_space value in
    if v == "" then 0 else seconds_or (h.atoi v) (until (h.until_time v))

-- classifyHTTPError, on the text of the header Retry-After
unfoldable pub classify_http_error : Headers → ℕ → String → RetryClassification × ℕ
classify_http_error h status retry_after =
    let later : RetryClassification × ℕ = (class_transient, parse_retry_after h retry_after) in
    if not (slt status 200) && slt status 300
    then (class_success, 0)
    else if eqb status 408 || eqb status 429 || eqb status 529
    then later
    else if not (slt status 500)
    then later
    else (class_fatal, 0)

-- What classifyTransportError asks of an error: errors.As for a retryableError, errors.Is for the two
-- errors of a context, whether it is a net.Error that timed out, and its text.
pub record TransportError : Type 0 where
  pub is_retryable : Bool
  pub is_canceled : Bool
  pub is_deadline_exceeded : Bool
  pub is_timeout : Bool
  pub message : String

abbrev pub transient_patterns : List String
transient_patterns =
    "connection reset" ∷ "connection refused" ∷ "EOF" ∷ "timeout" ∷ "temporary failure"
    ∷ "i/o timeout" ∷ "network is unreachable" ∷ []

-- strings.Contains
abbrev pub occurs : String → String → Bool
occurs s t = elim (find? s t) [ none ↦ false | some n ↦ true ]

-- classifyTransportError
unfoldable pub classify_transport_error : Option TransportError → RetryClassification
classify_transport_error none = class_success
classify_transport_error (some e) =
    if e.is_retryable
    then class_transient
    else if e.is_canceled || e.is_deadline_exceeded
    then class_fatal
    else if e.is_timeout
    then class_transient
    else if any (occurs e.message) transient_patterns
    then class_transient
    else class_fatal

-- x > 0, on a float64: the bit pattern of a positive number, infinity included
unfoldable pub positive : ℕ → Bool
positive x = ltb 0 x && leb x 9218868437227405312

-- base << shift
unfoldable pub shift_left : ℕ → ℕ → ℕ
shift_left base shift = (base * 2 ^ shift) % two_64

-- d > p.MaxDelay, where that is set
abbrev pub exceeds : RetryPolicy → ℕ → Bool
exceeds p d = slt 0 p.max_delay && slt p.max_delay d

-- attempt - 1, and 0 below it
abbrev pub shift_of : ℕ → ℕ
shift_of attempt = let shift = (attempt + (two_64 - 1)) % two_64 in if slt shift 0 then 0 else shift

unfoldable pub jittered : (ℕ → ℕ → ℕ) → RetryPolicy → ℕ → ℕ
unfolding positive
jittered fuzz p delay =
    let d = (delay + fuzz p.jitter delay) % two_64 in
    if positive p.jitter then if slt d 0 then 0 else d else delay

-- RetryPolicy.backoffFor. `fuzz` is the random part, time.Duration(rand.Float64()*2*span - span), of
-- a jitter and a delay.
unfoldable pub backoff_for : (ℕ → ℕ → ℕ) → RetryPolicy → ℕ → ℕ → ℕ
unfolding shift_left jittered
backoff_for fuzz p attempt retry_after =
    let base = if slt 0 p.base_delay then p.base_delay else second in
    let delay = shift_left base (shift_of attempt) in
    if p.honour_retry_after && slt 0 retry_after
    then if exceeds p retry_after then p.max_delay else retry_after
    else jittered fuzz p (if exceeds p delay then p.max_delay else delay)

-- What an attemptFunc returns.
pub record Attempted (T E : Type 0) : Type 0 where
  pub outcome : T
  pub classification : RetryClassification
  pub retry_after : ℕ
  pub error : Option E

-- The closure and the context, by the number of the attempt: what the attempt returns, the context's
-- error when the attempt is due, its error if it ends in the wait after the attempt, and the random
-- part of that wait.
pub record Caller (T E : Type 0) : Type 0 where
  pub attempt : ℕ → Attempted T E
  pub ended : ℕ → Option E
  pub interrupted : ℕ → Option E
  pub fuzz : ℕ → ℕ → ℕ → ℕ

pub data RetryError (E : Type 0) : Type 0 where
  given : E → RetryError E
  no_details : RetryError E
  exhausted : ℕ → RetryError E

-- What retryWithPolicy returns, the attempts that it makes, and the waits that it starts.
pub record Run (T E : Type 0) : Type 0 where
  pub returned : Result (RetryError E) T
  pub attempts : List ℕ
  pub waits : List ℕ

-- e, unless there is an earlier error
abbrev pub first_error : {E : Type 0} → Option E → E → RetryError E
first_error none e = given e
first_error (some e0) e = given e0

abbrev pub or_else : {E : Type 0} → Option E → RetryError E → RetryError E
or_else none e = e
or_else (some e0) e = given e0

-- policy.MaxAttempts, and 1 unless that is positive
abbrev pub attempts_allowed : RetryPolicy → ℕ
attempts_allowed p = if slt 0 p.max_attempts then p.max_attempts else 1

module _ {T E : Type 0} where
  abbrev pub stop : Result (RetryError E) T → Run T E
  stop r = record { returned = r; attempts = []; waits = [] }

  abbrev pub tried : ℕ → Run T E → Run T E
  tried i r = record r { attempts = i ∷ r.attempts }

  abbrev pub waited : ℕ → Run T E → Run T E
  waited d r = record r { waits = d ∷ r.waits }

  -- The wait after an attempt, and what follows it.
  abbrev pub wait_for : ℕ → Option E → Option E → Run T E → Run T E
  wait_for d last none rest = waited d rest
  wait_for d last (some e) rest = waited d (stop (err (first_error last e)))

  abbrev pub after : Attempted T E → Bool → ℕ → Option E → Run T E → RetryClassification → Run T E
  after a is_last d interruption rest class_success = stop (ok a.outcome)
  after a is_last d interruption rest class_fatal = stop (err (or_else a.error no_details))
  after a is_last d interruption rest class_transient =
      if is_last then rest else wait_for d a.error interruption rest

  abbrev pub check_ended : Option E → Option E → Run T E → Run T E
  check_ended last none run = run
  check_ended last (some e) run = stop (err (first_error last e))

  -- The loop, from attempt i on with `left` attempts left. `i` stays in the range of an int.
  unfoldable pub retry_loop : Caller T E → RetryPolicy → ℕ → ℕ → Option E → Run T E
  unfolding backoff_for
  retry_loop c p zero i last = stop (err (or_else last (exhausted p.max_attempts)))
  retry_loop c p (suc left) i last =
      let a = c.attempt i in
      let rest = retry_loop c p left (suc i) a.error in
      let d = backoff_for (c.fuzz i) p i a.retry_after in
      check_ended last (c.ended i)
        (tried i (after a (eqb left 0) d (c.interrupted i) rest a.classification))

  -- retryWithPolicy
  unfoldable pub retry_with_policy : Caller T E → RetryPolicy → Run T E
  retry_with_policy c p =
      let n = attempts_allowed p in retry_loop c (record p { max_attempts = n }) n 1 none
