-- ===== src/Retry/Attempts.antt =====
-- What nexus/base.py, _RetryMixin.retry, comes to.
use event_pipeline.Prelude.{
  ℕ, suc, ◌+◌, ◌-◌, ◌≤◌, ◌<◌, ◌≡◌, refl, ◌∙◌, subst, Bool, Option, none, some, arith,
}
use event_pipeline.Exceptions.{Exn, Content, max_retry, nothing, exception, Attempt, ok}
use event_pipeline.Retry.{
  RetryPolicy, RetryState, fresh, Retried, returned, raised_exn, retry_loop, retry, give_up,
  count_call,
}
use event_pipeline.Retry.Loop.{
  FailsAt, Within, loop-Within, after_failures, loop_gives_up, loop_returns,
}

module _ {V : Type 0} where
  Within-result :
      (p : RetryPolicy) (func : ℕ → Attempt V (Bool × Content V)) (s : RetryState)
      (o : Option (Retried V × RetryState))
      → Within p func s o
      → (r : Retried V) × (t : RetryState) × (o ≡ some (r, t))
        × (t.calls ≤ s.calls + (p.max_attempts - s.retry_count))
  Within-result p func s none w = absurd w
  Within-result p func s (some (r, t)) w = (r, t, refl, w)

  retry-retry_loop :
      (p : RetryPolicy) (func : ℕ → Attempt V (Bool × Content V)) (s : RetryState)
      → retry (some p) func s ≡ retry_loop p func (suc (p.max_attempts - s.retry_count)) s nothing
  unfolding retry
  retry-retry_loop p func s = refl

  give_up-result :
      (p : RetryPolicy) (func : ℕ → Attempt V (Bool × Content V)) (t : RetryState) (c : Content V)
      → ((give_up p func t c).0 ≡ raised_exn (max_retry t.retry_count c))
        × ((give_up p func t c).1.calls ≡ t.calls)
  unfolding give_up
  give_up-result p func t c = (refl, refl)

  -- Under any policy, from any state of the event and whatever the retried function does, `retry` comes to an end, and it calls the function at most as often as attempts are left.
  pub retry_total :
      (p : RetryPolicy) (func : ℕ → Attempt V (Bool × Content V)) (s : RetryState)
      → (r : Retried V) × (t : RetryState) × (retry (some p) func s ≡ some (r, t))
        × (t.calls ≤ s.calls + (p.max_attempts - s.retry_count))
  unfolding retry
  retry_total p func s =
      Within-result p func s _
        (loop-Within p func (suc (p.max_attempts - s.retry_count)) s nothing (omega arith))

  -- If every call up to the last attempt raises an exception that the policy retries on, none of them a MaxRetryError, then `retry` on a fresh event raises MaxRetryError with the number of attempts and the first of the exceptions, after exactly `max_attempts` calls.
  pub retry_exhausted :
      (p : RetryPolicy) (func : ℕ → Attempt V (Bool × Content V)) (e : ℕ → Exn V)
      → 0 < p.max_attempts
      → ((i : ℕ) → i < p.max_attempts → FailsAt p func i (e i))
      → (t : RetryState) × (retry (some p) func fresh
          ≡ some (raised_exn (max_retry p.max_attempts (exception (e 0))), t))
        × (t.calls ≡ p.max_attempts)
  retry_exhausted p func e pos fails =
      let (t, c, run, after) =
        after_failures p func e p.max_attempts (suc (p.max_attempts - fresh.retry_count)) 1 fresh
          nothing (omega arith) (omega arith)
          (λ i h. subst (λ j. FailsAt p func j (e j)) (omega arith) (fails i h)) in
      let (result, calls) = give_up-result p func t c in
      let count : t.retry_count ≡ p.max_attempts = omega (arith, after.count_after) in
      (
        (give_up p func t c).1,
        retry-retry_loop p func fresh
            ∙ run
            ∙ loop_gives_up p func 0 t c (omega (arith, count))
            ∙ cc (result, count, after.cause_kept pos),
        omega (arith, calls, after.calls_after),
      )

  -- If the first k calls raise exceptions that the policy retries on and the next call returns, with attempts left for it, then `retry` on a fresh event returns what that call returned, after k + 1 calls.
  pub retry_recovers :
      (p : RetryPolicy) (func : ℕ → Attempt V (Bool × Content V)) (e : ℕ → Exn V) (k : ℕ)
      (st : Bool) (c : Content V)
      → k < p.max_attempts
      → ((i : ℕ) → i < k → FailsAt p func i (e i))
      → func k ≡ ok (st, c)
      → (t : RetryState) × (retry (some p) func fresh ≡ some (returned st c, t))
        × (t.calls ≡ k + 1)
        × (t.retry_count ≡ k + 1)
  retry_recovers p func e k st c room fails success =
      let (t, d, run, after) =
        after_failures p func e k (suc (p.max_attempts - fresh.retry_count))
          (suc (p.max_attempts - k)) fresh nothing (omega arith) (omega arith)
          (λ i h. subst (λ j. FailsAt p func j (e j)) (omega arith) (fails i h)) in
      let calls : t.calls ≡ k = omega (arith, after.calls_after) in
      (
        count_call p func t,
        retry-retry_loop p func fresh
            ∙ run
            ∙ loop_returns p func (p.max_attempts - k) t d (omega (arith, after.count_after))
                (rw calls success),
        omega (arith, calls),
        omega (arith, after.count_after),
      )
