-- ===== src/Samples/Events.antt =====
-- Tests of nexus/base.py on events that fail, recover and ask for a switch.
use event_pipeline.Prelude.{
  ℕ, ◌<◌, ◌≡◌, refl, Bool, true, false, not, Option, none, some, arith, if◌then◌else◌, nat_beq,
}
use event_pipeline.Exceptions.{
  Content, EventResult, max_retry, switch_task, value, exception, Attempt, ok, raise, is_error,
  content,
}
use event_pipeline.Retry.{RetryState, Retried, returned, raised_exn, fresh, retry, is_retryable}
use event_pipeline.Retry.Attempts.{retry_exhausted, retry_recovers}
use event_pipeline.Event.{goto, call}
use event_pipeline.Event.Calls.{Contained, NeverStops, succeeded, call-Contained, call_verdict}
use event_pipeline.Event.Switches.{goto_reports_error}
use event_pipeline.Samples.{boom, twice, event_of, jumper}

retry_exhausted_example :
    (t : RetryState) × (retry (some twice) (λ k. raise boom) fresh
      ≡ some (raised_exn (max_retry 2 (exception boom)), t))
    × (t.calls ≡ 2)
unfolding is_retryable
retry_exhausted_example =
    retry_exhausted twice (λ k. raise boom) (λ k. boom) (omega arith) (λ i low. (refl, refl, refl))

-- Fails once.
abbrev second_time : ℕ → Attempt ℕ (Bool × Content ℕ)
second_time k = if nat_beq k 0 then raise boom else ok (true, value 7)

first_fails : (i : ℕ) → i < 1 → second_time i ≡ raise boom
first_fails i low = ground arith

retry_recovers_example :
    (t : RetryState) × (retry (some twice) second_time fresh ≡ some (returned true (value 7), t))
    × (t.calls ≡ 2)
    × (t.retry_count ≡ 2)
unfolding is_retryable
retry_recovers_example =
    retry_recovers twice second_time (λ k. boom) 1 true (value 7) (omega arith)
      (λ i low. (first_fails i low, refl, refl)) refl

never_stops :
    (policy : Option _) (process : ℕ → Attempt ℕ (Bool × Content ℕ))
    → NeverStops (event_of policy process)
never_stops policy process = record { exceptions = refl; successes = refl; errors = refl }

call-Contained_example :
    (a : Attempt ℕ (EventResult ℕ)) × (t : RetryState) × (call
        (event_of (some twice) second_time)
        fresh
      ≡ some (a, t))
    × Contained (event_of (some twice) second_time) a
call-Contained_example = call-Contained (event_of (some twice) second_time) fresh refl

call_verdict_example :
    (r : Retried ℕ) × (t : RetryState) × (x : EventResult ℕ) × (retry (some twice) second_time fresh
      ≡ some (r, t))
    × (call (event_of (some twice) second_time) fresh ≡ some (ok x, t))
    × (is_error x ≡ not (succeeded r))
call_verdict_example =
    call_verdict (event_of (some twice) second_time) fresh refl
      (never_stops (some twice) second_time)

goto_reports_error_example :
    (x y : EventResult ℕ) × (t : RetryState) × (call (jumper none) fresh ≡ some (ok x, t))
    × (content x ≡ exception (switch_task "task" 2 y))
    × (is_error x ≡ true)
unfolding goto
goto_reports_error_example =
    goto_reports_error (jumper none) fresh 2 true false (value 3) refl (never_stops none _) refl
      refl
