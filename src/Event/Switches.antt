-- ===== src/Event/Switches.antt =====
-- Events whose process asks for another task by EventBase.goto (nexus/base.py).
use event_pipeline.Prelude.{
  ℕ, ◌+◌, ◌<◌, ◌≡◌, refl, ◌∙◌, String, [], Bool, true, false, not, none, some, arith,
}
use event_pipeline.Exceptions.{
  Exn, Content, EventResult, switch_task, exception, event_result, ok, raise, is_error, content,
  max_retry,
}
use event_pipeline.Retry.{RetryPolicy, RetryState, fresh, raised_exn, retry, is_retryable}
use event_pipeline.Retry.Attempts.{retry_exhausted}
use event_pipeline.Event.{Event, call, conclude, on_failure, goto}
use event_pipeline.Event.Calls.{NeverStops, call-conclude, on_failure-error}

module _ {V : Type 0} where
  goto_switches :
      {A : Type 0} (ev : Event V) (descriptor : ℕ) (status handlers : Bool) (c : Content V)
      → NeverStops ev
      → (y : EventResult V) × (goto {A = A} ev descriptor status c handlers
          ≡ raise (switch_task ev.task_id descriptor y))
  unfolding goto
  goto_switches ev d status false c h = (event_result (not status) c ev.task_id ev.event_name, refl)
  goto_switches ev d true true c h = (event_result false c ev.task_id ev.event_name, ground arith)
  goto_switches ev d false true c h =
      let (y, failed, _) = on_failure-error ev c h in (y, rw failed refl)

  on_failure-switch :
      (ev : Event V) (current : String) (next : ℕ) (y : EventResult V)
      → NeverStops ev
      → on_failure ev (exception (switch_task current next y))
        ≡ ok (event_result true (exception (switch_task current next y)) ev.task_id ev.event_name)
  unfolding on_failure
  on_failure-switch ev current next y h = ground arith

  -- Without bypass checks, stop flags and a retry policy, an event whose process calls `goto` hands back a result that carries the switch request for the descriptor, and that result is an error even where `goto` was given a true status.
  pub goto_reports_error :
      (ev : Event V) (s : RetryState) (descriptor : ℕ) (status handlers : Bool) (c : Content V)
      → ev.run_bypass_event_checks ≡ false
      → NeverStops ev
      → ev.retry_policy ≡ none
      → ev.process s.calls ≡ goto ev descriptor status c handlers
      → (x y : EventResult V) × (t : RetryState) × (call ev s ≡ some (ok x, t))
        × (content x ≡ exception (switch_task ev.task_id descriptor y))
        × (is_error x ≡ true)
  goto_reports_error ev s descriptor status handlers c h stops policy process =
      let (y, jump) = goto_switches {A = Bool × Content V} ev descriptor status handlers c stops in
      let request : Exn V = switch_task ev.task_id descriptor y in
      let ran : retry ev.retry_policy ev.process s
          ≡ some (raised_exn request, record s { calls = s.calls + 1 }) =
        rw policy (unfold retry in rw (process ∙ jump) refl) in
      (
        event_result true (exception request) ev.task_id ev.event_name,
        y,
        record s { calls = s.calls + 1 },
        call-conclude ev s (record s { calls = s.calls + 1 }) (raised_exn request) h ran
            ∙ (unfold conclude in rw (on_failure-switch ev ev.task_id descriptor y stops) refl),
        refl,
        refl,
      )

  on_failure-max_retry :
      (ev : Event V) (n : ℕ) (c : Content V)
      → NeverStops ev
      → on_failure ev (exception (max_retry n c))
        ≡ ok (event_result true c ev.task_id ev.event_name)
  unfolding on_failure
  on_failure-max_retry ev n c h = ground arith

  retryable-any :
      (p : RetryPolicy) (e : Exn V) → p.retry_on_exceptions ≡ [] → is_retryable (some p) e ≡ true
  unfolding is_retryable
  retryable-any p e h = rw h refl

  -- Under a retry policy that names no exception classes, an event whose process calls `goto` at every attempt is run `max_attempts` times before the switch request is handed back: the request is retried like a failure.
  pub goto_retried :
      (ev : Event V) (p : RetryPolicy) (descriptor : ℕ) (status handlers : Bool) (c : Content V)
      → ev.run_bypass_event_checks ≡ false
      → NeverStops ev
      → ev.retry_policy ≡ some p
      → p.retry_on_exceptions ≡ []
      → 0 < p.max_attempts
      → ((k : ℕ) → ev.process k ≡ goto ev descriptor status c handlers)
      → (x y : EventResult V) × (t : RetryState) × (call ev fresh ≡ some (ok x, t))
        × (content x ≡ exception (switch_task ev.task_id descriptor y))
        × (t.calls ≡ p.max_attempts)
  goto_retried ev p descriptor status handlers c h stops policy any_class pos process =
      let (y, jump) = goto_switches {A = Bool × Content V} ev descriptor status handlers c stops in
      let request : Exn V = switch_task ev.task_id descriptor y in
      let (t, ran, calls) =
        retry_exhausted p ev.process (λ _. request) pos
          (λ i _. (process i ∙ jump, retryable-any p request any_class, refl)) in
      (
        event_result true (exception request) ev.task_id ev.event_name,
        y,
        t,
        call-conclude ev fresh t (raised_exn (max_retry p.max_attempts (exception request))) h
              (rw policy ran)
            ∙ (unfold conclude in
                rw (on_failure-max_retry ev p.max_attempts (exception request) stops) refl),
        refl,
        calls,
      )
