-- ===== src/Provider/Retry/Attempts.antt =====
-- The attempts and the waits of retryWithPolicy (provider/retry.go).
use rysh_cli_shared.Prelude.{
  ℕ, zero, suc, ◌+◌, ◌≤◌, ◌<◌, Bool, false, Option, none, some, List, [], ◌∷◌, Result, ok, err, ◌≡◌,
  refl, ap, subst, eqb, length, arith,
}
use rysh_cli_shared.Provider.Retry.{
  RetryPolicy, RetryClassification, class_success, class_transient, class_fatal, Attempted, Caller,
  RetryError, no_details, exhausted, Run, backoff_for, retry_loop, retry_with_policy, or_else,
  attempts_allowed, stop, after,
}

-- The numbers from i on, n of them.
abbrev pub numbers : ℕ → ℕ → List ℕ
numbers i zero = []
numbers i (suc n) = i ∷ numbers (suc i) n

module _ {T E : Type 0} (c : Caller T E) where
  -- The attempt is due, fails transiently, and the context lasts through the wait after it.
  pub record Fails (i : ℕ) : Type 0 where
    pub due : c.ended i ≡ none
    pub transient : (c.attempt i).classification ≡ class_transient
    pub rested : c.interrupted i ≡ none

  -- The attempts from i on, n of them.
  abbrev pub AllFail : ℕ → ℕ → Type 0
  AllFail i zero = Unit
  AllFail i (suc n) = Fails i × AllFail (suc i) n

  -- The waits after the attempts from i on, n of them.
  abbrev pub backoffs : RetryPolicy → ℕ → ℕ → List ℕ
  backoffs p i zero = []
  backoffs p i (suc n) = backoff_for (c.fuzz i) p i (c.attempt i).retry_after ∷ backoffs p (suc i) n

  -- What an attempt returns for good, if it does.
  abbrev pub settled : Attempted T E → RetryClassification → Option (Result (RetryError E) T)
  settled a class_success = some (ok a.outcome)
  settled a class_fatal = some (err (or_else a.error no_details))
  settled a class_transient = none

  after-settled :
      (a : Attempted T E) (k : RetryClassification) (b : Bool) (d : ℕ) (o : Option E)
      (rest : Run T E) {r : Result (RetryError E) T}
      → settled a k ≡ some r
      → after a b d o rest k ≡ stop r
  after-settled a class_success b d o rest h = ap stop (ground arith)
  after-settled a class_fatal b d o rest h = ap stop (ground arith)
  after-settled a class_transient b d o rest h = absurd (ground arith)

  loop_settled :
      (p : RetryPolicy) (left i n j : ℕ) (last : Option E) (r : Result (RetryError E) T)
      → j ≡ i + n
      → n < left
      → AllFail i n
      → c.ended j ≡ none
      → settled (c.attempt j) (c.attempt j).classification ≡ some r
      → retry_loop c p left i last
        ≡ record { returned = r; attempts = numbers i (suc n); waits = backoffs p i n }
  unfolding retry_loop
  loop_settled p zero i n j last r e h f d s = absurd (ground arith)
  loop_settled p (suc left) i zero j last r e h f d s =
      let q : j ≡ i = omega (arith, e) in
      let d' = subst (λ k. c.ended k ≡ none) q d in
      let s' = subst (λ k. settled (c.attempt k) (c.attempt k).classification ≡ some r) q s in
      rw
        (
          d',
          after-settled (c.attempt i) (c.attempt i).classification (eqb left 0)
              (backoff_for (c.fuzz i) p i (c.attempt i).retry_after) (c.interrupted i)
              (retry_loop c p left (suc i) (c.attempt i).error) s',
        )
        refl
  loop_settled p (suc left) i (suc n) j last r e h (f, g) d s =
      let ih =
        loop_settled p left (suc i) n j (c.attempt i).error r (omega arith) (omega arith) g d s in
      let k : eqb left 0 ≡ false = ground arith in rw (f.due, f.transient, k, f.rested, ih) refl

  loop_exhausted :
      (p : RetryPolicy) (left i j : ℕ) (last : Option E)
      → j ≡ i + left
      → AllFail i (suc left)
      → retry_loop c p (suc left) i last ≡ record {
        returned = err (or_else (c.attempt j).error (exhausted p.max_attempts));
        attempts = numbers i (suc left);
        waits = backoffs p i left;
      }
  unfolding retry_loop
  loop_exhausted p zero i j last e (f, g) =
      let q : j ≡ i = omega (arith, e) in rw (f.due, f.transient, q) refl
  loop_exhausted p (suc left) i j last e (f, g) =
      let k : eqb (suc left) 0 ≡ false = ground arith in
      let ih = loop_exhausted p left (suc i) j (c.attempt i).error (omega (arith, e)) g in
      rw (f.due, f.transient, k, f.rested, ih) refl

  loop_few :
      (p : RetryPolicy) (left i : ℕ) (last : Option E)
      → length (retry_loop c p left i last).attempts ≤ left
  unfolding retry_loop
  loop_few p zero i last = omega arith
  loop_few p (suc left) i last = ground (arith, loop_few p left (suc i) (c.attempt i).error)

  -- retryWithPolicy makes at most policy.MaxAttempts attempts, and at most one if that is not
  -- positive.
  pub retry_with_policy-attempts :
      (p : RetryPolicy) → length (retry_with_policy c p).attempts ≤ attempts_allowed p
  unfolding retry_with_policy
  retry_with_policy-attempts p =
      loop_few (record p { max_attempts = attempts_allowed p }) (attempts_allowed p) 1 none

  -- If the first n attempts fail transiently with the context alive through the waits, and the next is
  -- allowed, due, and succeeds or fails for good, then retryWithPolicy makes these attempts with the
  -- waits of backoffFor between them, and returns what that last attempt returns.
  pub retry_with_policy-settled :
      (p : RetryPolicy) (n : ℕ) (r : Result (RetryError E) T)
      → n < attempts_allowed p
      → AllFail 1 n
      → c.ended (suc n) ≡ none
      → settled (c.attempt (suc n)) (c.attempt (suc n)).classification ≡ some r
      → retry_with_policy c p ≡ record {
        returned = r;
        attempts = numbers 1 (suc n);
        waits = backoffs (record p { max_attempts = attempts_allowed p }) 1 n;
      }
  unfolding retry_with_policy
  retry_with_policy-settled p n r h f d s =
      loop_settled (record p { max_attempts = attempts_allowed p }) (attempts_allowed p) 1 n (suc n)
        none r (omega arith) h f d s

  -- If all attempts that the policy allows fail transiently with the context alive, then
  -- retryWithPolicy makes them all, waits between them and not after the last, and returns the last
  -- attempt's error.
  pub retry_with_policy-exhausted :
      (p : RetryPolicy) (n : ℕ)
      → attempts_allowed p ≡ suc n
      → AllFail 1 (suc n)
      → retry_with_policy c p ≡ record {
        returned = err (or_else (c.attempt (suc n)).error (exhausted (suc n)));
        attempts = numbers 1 (suc n);
        waits = backoffs (record p { max_attempts = suc n }) 1 n;
      }
  unfolding retry_with_policy
  retry_with_policy-exhausted p n h f =
      rw h (loop_exhausted (record p { max_attempts = suc n }) n 1 (suc n) none (omega arith) f)
