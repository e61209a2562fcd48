-- ===== src/Event/Calls.antt =====
-- What a call of an event (nexus/base.py, EventBase.__call__) comes to.
use event_pipeline.Prelude.{
  ℕ, ◌≡◌, refl, ap, ◌∙◌, Bool, true, false, not, Option, none, some, arith,
}
use event_pipeline.Exceptions.{
  Content, EventResult, stop_processing, nothing, exception, event_result, Attempt, ok, raise,
  is_error,
}
use event_pipeline.Retry.{
  RetryPolicy, RetryState, Retried, returned, returned_none, raised_exn, retry,
}
use event_pipeline.Retry.Attempts.{retry_total}
use event_pipeline.Event.{
  Event, call, run_process, conclude, on_success, on_failure, finish, unwrap, unpack_error,
}

module _ {V : Type 0} where
  -- A result, or the StopProcessingError of this very event.
  abbrev pub Contained : Event V → Attempt V (EventResult V) → Type 0
  Contained ev (ok r) = Unit
  Contained ev (raise (stop_processing m c n t)) = (n ≡ ev.event_name) × (t ≡ ev.task_id)
  Contained ev (raise e) = ⊥

  abbrev pub succeeded : Retried V → Bool
  succeeded (returned true c) = true
  succeeded r = false

  -- No flag asks for a stop.
  pub record NeverStops (ev : Event V) : Type 0 where
    pub exceptions : ev.stop_on_exception ≡ false
    pub successes : ev.stop_on_success ≡ false
    pub errors : ev.stop_on_error ≡ false

  on_success-Contained : (ev : Event V) (c : Content V) → Contained ev (on_success ev c)
  unfolding on_success
  on_success-Contained ev c = ground arith

  on_failure-Contained : (ev : Event V) (c : Content V) → Contained ev (on_failure ev c)
  unfolding on_failure
  on_failure-Contained ev (exception e) = ground arith
  on_failure-Contained ev c = ground arith

  conclude-Contained : (ev : Event V) (r : Retried V) → Contained ev (conclude ev r)
  unfolding conclude
  conclude-Contained ev (returned true c) = on_success-Contained ev c
  conclude-Contained ev (returned false c) = on_failure-Contained ev c
  conclude-Contained ev (raised_exn e) = on_failure-Contained ev (exception e)
  conclude-Contained ev returned_none = on_failure-Contained ev unpack_error

  retry_defined :
      (policy : Option RetryPolicy) (func : ℕ → Attempt V (Bool × Content V)) (s : RetryState)
      → (r : Retried V) × (t : RetryState) × (retry policy func s ≡ some (r, t))
  retry_defined none func s = unfold retry in (_, _, refl)
  retry_defined (some p) func s = let (r, t, e, _) = retry_total p func s in (r, t, e)

  call-run_process :
      (ev : Event V) (s : RetryState)
      → ev.run_bypass_event_checks ≡ false
      → call ev s ≡ run_process ev s
  unfolding call
  call-run_process ev s h = rw h

  pub call-conclude :
      (ev : Event V) (s t : RetryState) (r : Retried V)
      → ev.run_bypass_event_checks ≡ false
      → retry ev.retry_policy ev.process s ≡ some (r, t)
      → call ev s ≡ some (conclude ev r, t)
  call-conclude ev s t r h e = call-run_process ev s h ∙ (unfold run_process in ap (finish ev) e)

  -- Without bypass checks every call of an event ends, whatever its process returns and whatever instances of Exception it raises, and either hands back a result or raises the StopProcessingError that names the event and its task: no other instance of Exception, SwitchTask and MaxRetryError included, escapes. (A SystemExit or KeyboardInterrupt of the process, which no handler catches, is not considered.)
  pub call-Contained :
      (ev : Event V) (s : RetryState)
      → ev.run_bypass_event_checks ≡ false
      → (a : Attempt V (EventResult V)) × (t : RetryState) × (call ev s ≡ some (a, t))
        × Contained ev a
  call-Contained ev s h =
      let (r, t, e) = retry_defined ev.retry_policy ev.process s in
      (conclude ev r, t, call-conclude ev s t r h e, conclude-Contained ev r)

  pub on_failure-error :
      (ev : Event V) (c : Content V)
      → NeverStops ev
      → (r : EventResult V) × (on_failure ev c ≡ ok r) × (is_error r ≡ true)
  unfolding on_failure
  on_failure-error ev (exception e) h =
      (event_result true (unwrap e) ev.task_id ev.event_name, ground arith, refl)
  on_failure-error ev nothing h =
      (event_result true nothing ev.task_id ev.event_name, ground arith, refl)
  on_failure-error ev c h = (event_result true c ev.task_id ev.event_name, ground arith, refl)

  conclude-verdict :
      (ev : Event V) (r : Retried V)
      → NeverStops ev
      → (x : EventResult V) × (conclude ev r ≡ ok x) × (is_error x ≡ not (succeeded r))
  unfolding conclude
  conclude-verdict ev (returned true c) h =
      (event_result false c ev.task_id ev.event_name, ground arith, refl)
  conclude-verdict ev (returned false c) h = on_failure-error ev c h
  conclude-verdict ev (raised_exn e) h = on_failure-error ev (exception e) h
  conclude-verdict ev returned_none h = on_failure-error ev unpack_error h

  -- Without bypass checks and with no stop flag set, a call of an event hands back a result, which is an error exactly if `retry` did not return a true status.
  pub call_verdict :
      (ev : Event V) (s : RetryState)
      → ev.run_bypass_event_checks ≡ false
      → NeverStops ev
      → (r : Retried V) × (t : RetryState) × (x : EventResult V) × (retry ev.retry_policy ev.process
            s
          ≡ some (r, t))
        × (call ev s ≡ some (ok x, t))
        × (is_error x ≡ not (succeeded r))
  call_verdict ev s h stops =
      let (r, t, e) = retry_defined ev.retry_policy ev.process s in
      let (x, concluded, error) = conclude-verdict ev r stops in
      (
        r,
        t,
        x,
        e,
        call-conclude ev s t r h e ∙ ap (λ (a : Attempt V (EventResult V)). some (a, t)) concluded,
        error,
      )
