-- ===== src/Provider/Retry/Backoff.antt =====
-- The waits that RetryPolicy.backoffFor computes (provider/retry.go).
use rysh_cli_shared.Prelude.{
  ℕ, zero, suc, ◌+◌, ◌-◌, ◌*◌, ◌^◌, ◌≤◌, ◌<◌, true, false, ◌&&◌, ◌≡◌, slt, ltb, leb, two_63, two_64,
  arith, subst, if◌then◌else◌,
}
use rysh_cli_shared.Provider.Retry.{
  RetryPolicy, backoff_for, shift_left, positive, jittered, shift_of, second,
}

-- The smaller of two numbers.
abbrev pub min : ℕ → ℕ → ℕ
min a b = if leb a b then a else b

shift_left-small : (b n : ℕ) → b * 2 ^ n < two_64 → shift_left b n ≡ b * 2 ^ n
unfolding shift_left
shift_left-small b n h = omega arith

below_power : (n : ℕ) → n < 2 ^ n
below_power zero = omega arith
below_power (suc n) = omega (arith, below_power n)

bounded : (b n : ℕ) → 0 < b → b * 2 ^ n < two_63 → n < two_63
bounded b n h k = grind (arith, below_power n)

bounded_base : (b n : ℕ) → b * 2 ^ n < two_63 → b < two_63
bounded_base b n k = grind (arith, below_power n)

shift_of-suc : (n : ℕ) → n < two_63 → shift_of (suc n) ≡ n
shift_of-suc n h = ground arith

slt-lt : (a b : ℕ) → a < two_63 → b < two_63 → slt a b ≡ ltb a b
slt-lt a b h k = ground arith

-- Without jitter and without a Retry-After to honour, the wait after attempt n+1 is BaseDelay
-- doubled n times, and at most MaxDelay, as long as the doubled delay is below 2 ^ 63.
pub backoff_for-doubling :
    (fuzz : ℕ → ℕ → ℕ) (p : RetryPolicy) (n retry_after : ℕ)
    → positive p.jitter ≡ false
    → (p.honour_retry_after && slt 0 retry_after) ≡ false
    → 0 < p.base_delay
    → 0 < p.max_delay
    → p.max_delay < two_63
    → p.base_delay * 2 ^ n < two_63
    → backoff_for fuzz p (suc n) retry_after ≡ min (p.base_delay * 2 ^ n) p.max_delay
unfolding backoff_for jittered
backoff_for-doubling fuzz p n retry_after j r b m1 m2 h =
    let q = bounded p.base_delay n b h in
    let b' : slt 0 p.base_delay ≡ true =
      ground (arith, slt-lt 0 p.base_delay, bounded_base p.base_delay n h) in
    rw (r, shift_of-suc n q, b', shift_left-small p.base_delay n (omega arith), j)
      (ground (
        arith,
        slt-lt 0 p.base_delay,
        slt-lt 0 p.max_delay,
        slt-lt p.max_delay (p.base_delay * 2 ^ n),
      ))

-- Without jitter, no wait is longer than a positive MaxDelay, whatever the attempt and the server's
-- Retry-After.
pub backoff_for-capped :
    (fuzz : ℕ → ℕ → ℕ) (p : RetryPolicy) (attempt retry_after : ℕ)
    → positive p.jitter ≡ false
    → slt 0 p.max_delay ≡ true
    → slt p.max_delay (backoff_for fuzz p attempt retry_after) ≡ false
unfolding backoff_for jittered
backoff_for-capped fuzz p attempt retry_after j m = ground arith

power_split : (b m : ℕ) → b * 2 ^ (64 + m) ≡ two_64 * (b * 2 ^ m)
power_split b zero = omega arith
power_split b (suc m) =
    let e : 64 + suc m ≡ suc (64 + m) = omega arith in rw e (grind (arith, power_split b m))

shift_left-gone : (b n : ℕ) → shift_left b (64 + n) ≡ 0
unfolding shift_left
shift_left-gone b n = omega (arith, power_split b n)

-- From attempt 65 on, the shift drops all bits of BaseDelay: without jitter and without a Retry-After
-- to honour there is no wait at all, whatever BaseDelay and MaxDelay are.
pub backoff_for-overflow :
    (fuzz : ℕ → ℕ → ℕ) (p : RetryPolicy) (n retry_after : ℕ)
    → positive p.jitter ≡ false
    → (p.honour_retry_after && slt 0 retry_after) ≡ false
    → 64 ≤ n
    → n < two_63
    → backoff_for fuzz p (suc n) retry_after ≡ 0
unfolding backoff_for jittered
backoff_for-overflow fuzz p n retry_after j r h k =
    let e : 64 + (n - 64) ≡ n = omega (arith, h) in
    let base = if slt 0 p.base_delay then p.base_delay else second in
    let q = subst (λ m. shift_left base m ≡ 0) e (shift_left-gone base (n - 64)) in
    rw (r, shift_of-suc n k, q, j) (ground arith)
