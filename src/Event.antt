-- ===== src/Event.antt =====
-- nexus/base.py: EventBase. The methods that a subclass writes, `process` and
-- `can_bypass_current_event`, are fields; `on_success` and `on_failure` are those of the base class.
-- `init_args` and `call_args`, which results only carry along, are left out.
pub mod Calls
pub mod Switches
use event_pipeline.Prelude.{
  ℕ, zero, suc, String, Bool, true, false, not, Option, none, some, if◌then◌else◌,
}
use event_pipeline.Exceptions.{
  Exn, Content, EventResult, raised, max_retry, stop_processing, switch_task, nothing, text,
  exception, skipped, event_result, Attempt, ok, raise,
}
use event_pipeline.Retry.{
  RetryPolicy, RetryState, Retried, returned, returned_none, raised_exn, retry, config_retry_policy,
}

pub record Event (V : Type 0) : Type 0 where
  pub event_name : String
  pub task_id : String
  pub retry_policy : Option RetryPolicy
  pub stop_on_exception : Bool
  pub stop_on_success : Bool
  pub stop_on_error : Bool
  pub run_bypass_event_checks : Bool
  pub can_bypass : Attempt V (Bool × Content V)
  -- What the k-th call of `process` does.
  pub process : ℕ → Attempt V (Bool × Content V)

module _ {V : Type 0} where
  infixl 5 ◌>>=◌ ◌>>◌
  abbrev pub ◌>>=◌ : {A B : Type 0} → Attempt V A → (A → Attempt V B) → Attempt V B
  ok a >>= f = f a
  raise e >>= f = raise e

  abbrev pub ◌>>◌ : {B : Type 0} → Attempt V (Unit {0}) → Attempt V B → Attempt V B
  m >> k = m >>= λ _. k

  unfoldable pub raise_stop_processing_exception :
      Event V → (condition : Bool) (message cause : Content V) → Attempt V (Unit {0})
  raise_stop_processing_exception ev condition message cause =
      if condition then raise (stop_processing message cause ev.event_name ev.task_id) else ok tt

  abbrev result : Event V → Bool → Content V → EventResult V
  result ev error c = event_result error c ev.task_id ev.event_name

  unfoldable pub on_success : Event V → Content V → Attempt V (EventResult V)
  unfolding raise_stop_processing_exception
  on_success ev c = do
    raise_stop_processing_exception ev ev.stop_on_success c nothing
    ok (result ev false c)

  -- `execution_result.exception` of a MaxRetryError, and any other exception itself
  abbrev pub unwrap : Exn V → Content V
  unwrap (max_retry n c) = c
  unwrap e = exception e

  abbrev failure_of : Event V → Content V → Attempt V (EventResult V)
  failure_of ev c = do
    raise_stop_processing_exception ev ev.stop_on_error c nothing
    ok (result ev true c)

  unfoldable pub on_failure : Event V → Content V → Attempt V (EventResult V)
  unfolding raise_stop_processing_exception
  on_failure ev (exception e) = do
    raise_stop_processing_exception ev ev.stop_on_exception
        (text "Error occurred while processing event") (unwrap e)
    failure_of ev (unwrap e)
  on_failure ev c = failure_of ev c

  -- Always raises: SwitchTask, or the StopProcessingError of the handler that it runs.
  unfoldable pub goto :
      {A : Type 0}
      → Event V
      → (descriptor : ℕ) (result_status : Bool) (c : Content V) (execute_on_event_method : Bool)
      → Attempt V A
  unfolding on_success on_failure
  goto ev descriptor status c handlers = do
    r ←
        if handlers
        then (if status then on_success ev c else on_failure ev c)
        else ok (result ev (not status) c)
    raise (switch_task ev.task_id descriptor r)

  abbrev pub unpack_error : Content V
  unpack_error = exception (raised "TypeError" "cannot unpack non-iterable NoneType object")

  -- The tail of `__call__`: what follows the call of `retry`.
  unfoldable pub conclude : Event V → Retried V → Attempt V (EventResult V)
  unfolding on_success on_failure
  conclude ev (returned true c) = on_success ev c
  conclude ev (returned false c) = on_failure ev c
  conclude ev (raised_exn e) = on_failure ev (exception e)
  -- unpacking `None`
  conclude ev returned_none = on_failure ev unpack_error

  abbrev pub finish :
      Event V → Option (Retried V × RetryState) → Option (Attempt V (EventResult V) × RetryState)
  finish ev none = none
  finish ev (some (r, t)) = some (conclude ev r, t)

  unfoldable pub run_process :
      Event V → RetryState → Option (Attempt V (EventResult V) × RetryState)
  run_process ev s = finish ev (retry ev.retry_policy ev.process s)

  abbrev bypassed :
      Event V
      → Attempt V (Bool × Content V)
      → RetryState
      → Option (Attempt V (EventResult V) × RetryState)
  bypassed ev (raise e) s = some (raise e, s)
  bypassed ev (ok (true, found)) s = some (on_success ev (skipped found), s)
  bypassed ev (ok (false, found)) s = run_process ev s

  -- `__call__`; `none` would mean that `retry` ran out of its fuel.
  unfoldable pub call : Event V → RetryState → Option (Attempt V (EventResult V) × RetryState)
  unfolding run_process conclude on_success
  call ev s = if ev.run_bypass_event_checks then bypassed ev ev.can_bypass s else run_process ev s

abbrev with_attempts : Option RetryPolicy → ℕ → Option RetryPolicy
with_attempts none n = some (config_retry_policy n)
with_attempts (some p) n = some (record p { max_attempts = n })

-- EventExecutionContext._configure_event of nexus/task.py: the number of retries of the pointy
-- script goes into the policy of the event.
unfoldable pub configure_event : {V : Type 0} → Event V → Option ℕ → Event V
unfolding config_retry_policy
configure_event ev none = ev
configure_event ev (some zero) = ev
configure_event ev (some (suc n)) = record ev {
  retry_policy = with_attempts ev.retry_policy (suc n);
}
