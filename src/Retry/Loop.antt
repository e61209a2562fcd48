-- ===== src/Retry/Loop.antt =====
-- The retry loop of nexus/base.py, _RetryMixin.retry.
use event_pipeline.Prelude.{
  ℕ, zero, suc, ◌+◌, ◌-◌, ◌≤◌, ◌<◌, ◌≡◌, refl, Bool, true, false, Option, none, some, leb, arith,
  inl, inr, subst, ◌∙◌, Bool-cases, ◌⊎◌,
}
use event_pipeline.Exceptions.{Exn, Content, raised, max_retry, nothing, Attempt, ok, raise}
use event_pipeline.Retry.{
  RetryPolicy, RetryState, Retried, returned, is_retryable, after_call, count_call, after_failure,
  first_cause, give_up, retry_loop,
}

abbrev pub is_max_retry : {V : Type 0} → Exn V → Bool
is_max_retry (max_retry n c) = true
is_max_retry e = false

leb-false : (a b : ℕ) → leb a b ≡ false → b < a
leb-false a b h = ground arith

module _ {V : Type 0} (p : RetryPolicy) (func : ℕ → Attempt V (Bool × Content V)) where
  retry_count-after_failure :
      (s : RetryState) → (after_failure p func s).retry_count ≡ s.retry_count
  unfolding after_failure
  retry_count-after_failure s = ground arith

  calls-after_failure : (s : RetryState) → (after_failure p func s).calls ≡ s.calls
  unfolding after_failure
  calls-after_failure s = ground arith

  -- The k-th call of the function raises an exception that the loop retries on.
  abbrev pub FailsAt : ℕ → Exn V → Type 0
  FailsAt k e = (func k ≡ raise e) × (is_retryable (some p) e ≡ true) × (is_max_retry e ≡ false)

  abbrev pub Within : RetryState → Option (Retried V × RetryState) → Type 0
  Within s none = ⊥
  Within s (some (r, s')) = s'.calls ≤ s.calls + (p.max_attempts - s.retry_count)

  Within-mono :
      (s s' : RetryState) (o : Option (Retried V × RetryState))
      → s'.calls + (p.max_attempts - s'.retry_count) ≤ s.calls + (p.max_attempts - s.retry_count)
      → Within s' o
      → Within s o
  Within-mono s s' none h w = w
  Within-mono s s' (some (r, t)) h w = omega arith

  after_call-Within :
      (a : Attempt V (Bool × Content V)) (s : RetryState) (cause : Content V)
      (again : RetryState → Content V → Option (Retried V × RetryState))
      → s.retry_count < p.max_attempts
      → ((c : Content V)
          → Within
              (after_failure p func (count_call p func s))
              (again (after_failure p func (count_call p func s)) c))
      → Within s (after_call p func a (count_call p func s) cause again)
  after_call-Within (ok (st, c)) s cause again lt h = omega arith
  after_call-Within (raise (max_retry n c)) s cause again lt h = omega arith
  after_call-Within (raise e) s cause again lt h = elim (Bool-cases (is_retryable (some p) e)) [
    | inl retried ↦ rw retried (
        Within-mono s (after_failure p func (count_call p func s)) _
          (omega (
            arith,
            retry_count-after_failure (count_call p func s),
            calls-after_failure (count_call p func s),
          ))
          (h (first_cause p func cause e)))
    | inr raised_on ↦ rw raised_on (omega arith)
  ]

  pub loop-Within :
      (fuel : ℕ) (s : RetryState) (cause : Content V)
      → p.max_attempts - s.retry_count < fuel
      → Within s (retry_loop p func fuel s cause)
  unfolding retry_loop
  loop-Within zero s cause h = absurd (omega arith)
  loop-Within (suc fuel) s cause h = elim (Bool-cases (leb p.max_attempts s.retry_count)) [
    | inl done ↦ rw done (omega arith)
    | inr more ↦ rw more (
        after_call-Within (func s.calls) s cause (retry_loop p func fuel) (ground arith) (λ c.
          loop-Within fuel (after_failure p func (count_call p func s)) c (
            omega (
              arith,
              leb-false p.max_attempts s.retry_count more,
              retry_count-after_failure (count_call p func s),
            ))))
  ]

  loop_step :
      (fuel : ℕ) (s : RetryState) (cause : Content V) (e : Exn V)
      → s.retry_count < p.max_attempts
      → FailsAt s.calls e
      → retry_loop p func (suc fuel) s cause
        ≡ retry_loop p func fuel
            (after_failure p func (count_call p func s))
            (first_cause p func cause e)
  unfolding retry_loop
  loop_step fuel s cause (raised k m) h (call, again, other) = rw call (ground arith)
  loop_step fuel s cause e h (call, again, other) = rw call (ground arith)

  first_cause-first_cause :
      (c : Content V) (e e' : Exn V)
      → first_cause p func (first_cause p func c e) e' ≡ first_cause p func c e
  first_cause-first_cause nothing e e' = refl
  first_cause-first_cause c e e' = refl

  same_cause :
      (c d : Content V) (e e' : Exn V)
      → (d ≡ first_cause p func c e) ⊎ (d ≡ first_cause p func (first_cause p func c e) e')
      → d ≡ first_cause p func c e
  same_cause c d e e' (inl h) = h
  same_cause c d e e' (inr h) = h ∙ first_cause-first_cause c e e'

  -- Where the loop stands after k failed calls.
  pub record AfterFailures (k : ℕ) (s : RetryState) (cause : Content V) (e : Exn V) (t : RetryState)
      (c : Content V) : Type 0 where
    pub calls_after : t.calls ≡ s.calls + k
    pub count_after : t.retry_count ≡ s.retry_count + k
    pub cause_after : (c ≡ cause) ⊎ (c ≡ first_cause p func cause e)
    pub cause_kept : 0 < k → c ≡ first_cause p func cause e

  pub after_failures :
      (e : ℕ → Exn V) (k n fuel : ℕ) (s : RetryState) (cause : Content V)
      → n ≡ k + fuel
      → s.retry_count + k ≤ p.max_attempts
      → ((i : ℕ) → i < k → FailsAt (s.calls + i) (e (s.calls + i)))
      → (t : RetryState) × (c : Content V) × (retry_loop p func n s cause
          ≡ retry_loop p func fuel t c)
        × AfterFailures k s cause (e s.calls) t c
  after_failures e zero n fuel s cause q room fails = (
    s,
    cause,
    rw (let q' : n ≡ fuel = omega arith in q') refl,
    record {
      calls_after = omega arith;
      count_after = omega arith;
      cause_after = inl refl;
      cause_kept = λ h. absurd (omega arith);
    },
  )
  after_failures e (suc k) zero fuel s cause q room fails = absurd (omega arith)
  after_failures e (suc k) (suc n) fuel s cause q room fails =
      let next = after_failure p func (count_call p func s) in
      let c1 = first_cause p func cause (e s.calls) in
      let calls1 : next.calls ≡ s.calls + 1 = calls-after_failure (count_call p func s) in
      let count1 : next.retry_count ≡ s.retry_count + 1 =
        retry_count-after_failure (count_call p func s) in
      let first : FailsAt s.calls (e s.calls) =
        subst (λ i. FailsAt i (e i)) (omega arith) (fails 0 (omega arith)) in
      let (t, c, run, after) =
        after_failures e k n fuel next c1 (omega arith) (omega arith)
          (λ i h. subst (λ j. FailsAt j (e j)) (omega arith) (fails (suc i) (omega arith))) in
      let kept : c ≡ c1 = same_cause cause c (e s.calls) (e next.calls) after.cause_after in
      (
        t,
        c,
        loop_step n s cause (e s.calls) (omega arith) first ∙ run,
        record {
          calls_after = omega (arith, after.calls_after);
          count_after = omega (arith, after.count_after);
          cause_after = inr kept;
          cause_kept = λ _. kept;
        },
      )

  -- The two ways out of the loop.
  pub loop_gives_up :
      (fuel : ℕ) (s : RetryState) (cause : Content V)
      → p.max_attempts ≤ s.retry_count
      → retry_loop p func (suc fuel) s cause ≡ some (give_up p func s cause)
  unfolding retry_loop
  loop_gives_up fuel s cause h = ground arith

  pub loop_returns :
      (fuel : ℕ) (s : RetryState) (cause : Content V) {st : Bool} {c : Content V}
      → s.retry_count < p.max_attempts
      → func s.calls ≡ ok (st, c)
      → retry_loop p func (suc fuel) s cause ≡ some (returned st c, count_call p func s)
  unfolding retry_loop
  loop_returns fuel s cause h e = rw e (ground arith)
