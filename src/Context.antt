-- ===== src/Context.antt =====
-- nexus/task.py: EventExecutionContext. The executors of concurrent.futures and the user's events
-- are not part of the program: what the futures hold is an argument.
pub mod Dispatch
pub mod Failure
pub mod Branches
use event_pipeline.Prelude.{
  ℕ, String, Bool, true, false, Option, none, some, List, [], ◌∷◌, ◌++◌, get_elem?, length, is_some,
  not, ◌&&◌, if◌then◌else◌, ◌==◌, comparable_string,
}
use event_pipeline.Prelude.Dict.{Dict, lookup}
use event_pipeline.Exceptions.{
  Exn, Content, EventResult, raised, pipeline_exception, max_retry, stop_processing, switch_task,
  text, exception, error_dict, event_result, Attempt, ok, raise, content, klass,
}
use event_pipeline.Evaluation.{
  EvaluationState, EvaluationContext, success, failure, context_evaluation,
}
use event_pipeline.Pipe.{parallelism, is_parallelism}
use event_pipeline.Task.{Task, Heap, Pointer, pipe, get_pointer_type, get_descriptor_config}

pub data ExecutionState : Type 0 where
  pending executing cancelled finished aborted : ExecutionState

-- The signals of a context that the model keeps.
pub data ContextSignal : Type 0 where
  event_execution_cancelled event_execution_aborted : ContextSignal

-- `_errors`: a PipelineError made from an errored result, or the BadPipelineError of `dispatch`.
pub data ContextError (V : Type 0) : Type 0 where
  pipeline_error : (message : Content V) (code : String) → ContextError V
  bad_pipeline_error : Exn V → ContextError V

-- Results have ids of their own, so that adding one to the ResultSet of a context appends it.
pub record Context (V : Type 0) : Type 0 where
  pub task_profiles : List ℕ
  pub execution_result : List (EventResult V)
  pub state : ExecutionState
  pub previous_context : Option ℕ
  pub next_context : Option ℕ
  pub errors : List (ContextError V)
  pub signals : List ContextSignal

-- What `process_executor_results` raises and `dispatch` returns: the descriptor asked for, and
-- `descriptor_configured`.
pub record SwitchRequest : Type 0 where
  pub next_task_descriptor : ℕ
  pub descriptor_configured : Bool

-- How the `with` block of `process_executor_results` is left.
pub data Processed : Type 0 where
  all_processed : Processed
  switched : SwitchRequest → Processed
  -- the AttributeErrors of a context without a last task, and of `params` that are None
  no_last_task no_params : Processed

-- A future's outcome: the result to add, the switch asked for, and whether to cancel.
pub record Outcome (V : Type 0) : Type 0 where
  pub result : EventResult V
  pub request : Option ℕ
  pub stop : Bool

abbrev pub is_stopped : ExecutionState → Bool
is_stopped cancelled = true
is_stopped aborted = true
is_stopped s = false

-- params.get(key, default)
abbrev pub param : String → String → Dict String String → String
param key default params = elim (lookup key params) [ none ↦ default | some v ↦ v ]

module _ {V : Type 0} where
  -- EventExecutionContext(task=profiles, pipeline=pipeline)
  abbrev pub new_context : List ℕ → Option ℕ → Context V
  new_context profiles previous = record {
    task_profiles = profiles;
    execution_result = [];
    state = pending;
    previous_context = previous;
    next_context = none;
    errors = [];
    signals = [];
  }

  unfoldable pub cancel : Context V → Context V
  cancel c = record c { state = cancelled; signals = c.signals ++ event_execution_cancelled ∷ [] }

  unfoldable pub abort : Context V → Context V
  abort c = record c { state = aborted; signals = c.signals ++ event_execution_aborted ∷ [] }

  -- `if result.error: …`, and the result is added either way
  unfoldable pub add_result : EventResult V → Context V → Context V
  add_result (event_result true m task_id name) c = record c {
    execution_result = c.execution_result ++ event_result true m task_id name ∷ [];
    errors = c.errors ++ pipeline_error m task_id ∷ [];
  }
  add_result r c = record c { execution_result = c.execution_result ++ r ∷ [] }

  -- `e.to_dict()` of a PipelineError, and `str(e)` otherwise, of which only the beginning is kept
  abbrev pub report : Exn V → Content V
  report (raised k m) = text m
  report (pipeline_exception k m p) = error_dict k m
  report (max_retry n cause) = text "Max retries exceeded"
  report (stop_processing m cause name task_id) = error_dict "StopProcessingError" m
  report (switch_task t n r) = text "Task switched"

  -- `getattr(e, "params", {})`, which may be None
  abbrev pub params_of : Exn V → Option (Dict String String)
  params_of (pipeline_exception k m params) = params
  params_of (stop_processing m cause name task_id) =
      some (("event_name", name) ∷ ("task_id", task_id) ∷ [])
  params_of e = some []

  -- The result made from an exception; a `task_id` of None is an empty text.
  abbrev pub result_of : Exn V → Dict String String → EventResult V
  result_of e params =
      event_result true (report e) (param "task_id" "" params) (param "event_name" "unknown" params)

  abbrev pub requested : Content V → Option ℕ
  requested (exception (switch_task t n r)) = some n
  requested m = none

  -- `none` is the AttributeError of `params` that are None.
  unfoldable pub outcome : Attempt V (EventResult V) → Option (Outcome V)
  unfolding klass lookup
  outcome (ok r) = some (record { result = r; request = requested (content r); stop = false })
  outcome (raise (switch_task t n r)) = some (record { result = r; request = some n; stop = false })
  outcome (raise e) = elim (params_of e) [
    | none ↦ none
    | some params ↦ some (record {
      result = result_of e params;
      request = none;
      stop = klass e == "StopProcessingError";
    })
  ]

abbrev pub is_parallel_pointer : Pointer → Bool
is_parallel_pointer (pipe parallelism) = true
is_parallel_pointer p = false

-- The test of the loop of `_get_last_task_profile_in_chain` on the task at place `i`.
unfoldable pub ends_chain : Heap → ℕ → Bool
unfolding get_pointer_type
ends_chain h i = elim (get_elem? h i) [
  | none ↦ false
  | some t ↦ is_parallel_pointer (get_pointer_type h i) && not (is_parallelism t.on_success_pipe)
]

unfoldable pub first_end : Heap → List ℕ → Option ℕ
unfolding ends_chain
first_end h [] = none
first_end h (i ∷ is) = if ends_chain h i then some i else first_end h is

unfoldable pub get_last_task_profile : Heap → List ℕ → Option ℕ
unfolding first_end
get_last_task_profile h (i ∷ []) = some i
get_last_task_profile h is = first_end h is

-- `current_task_profile.extra_config.get_descriptor_config(n)` is set
unfoldable pub has_descriptor : Heap → ℕ → ℕ → Bool
unfolding get_descriptor_config
has_descriptor h i n = elim (get_elem? h i) [
  | none ↦ false
  | some t ↦ is_some (get_descriptor_config t n)
]

module _ {V : Type 0} (h : Heap) where
  -- A switch request: cancelled if no descriptor is configured for it.
  unfoldable pub switch : ℕ → Context V → Context V × Processed
  unfolding cancel get_last_task_profile has_descriptor
  switch n c = elim (get_last_task_profile h c.task_profiles) [
    | none ↦ (c, no_last_task)
    | some i ↦
        if has_descriptor h i n
        then (c, switched (record { next_task_descriptor = n; descriptor_configured = true }))
        else (
          cancel c,
          switched (record { next_task_descriptor = n; descriptor_configured = false }),
        )
  ]

  -- What the body of the loop does to the context before the switch.
  unfoldable pub record_outcome : Outcome V → Context V → Context V
  unfolding cancel add_result
  record_outcome o c = add_result o.result (if o.stop then cancel c else c)

  -- process_executor_results; the futures come in the order in which the set yields them.
  unfoldable pub process_results :
      List (Attempt V (EventResult V)) → Context V → Context V × Processed
  unfolding record_outcome outcome switch
  process_results [] c = (c, all_processed)
  process_results (f ∷ fs) c = elim (outcome f) [
    | none ↦ (c, no_params)
    | some o ↦
        let c' = record_outcome o c in
        let rest = process_results fs c' in elim o.request [ none ↦ rest | some n ↦ switch n c' ]
  ]

  -- the `except` branch of `dispatch` for anything but a SwitchTask
  unfoldable pub fail_with : Exn V → Context V → Context V
  unfolding abort
  fail_with e c = abort (record c { errors = c.errors ++ bad_pipeline_error e ∷ [] })

  abbrev pub attribute_error : Exn V
  attribute_error = raised "AttributeError" "'NoneType' object has no attribute 'extra_config'"

  abbrev pub params_error : Exn V
  params_error = raised "AttributeError" "'NoneType' object has no attribute 'get'"

  abbrev finish_if_executing : Context V → Context V
  finish_if_executing c = elim c.state [ executing ↦ record c { state = finished } | _ ↦ c ]

  unfoldable pub settle : Context V × Processed → Context V × Option SwitchRequest
  unfolding fail_with
  settle (c, all_processed) = (finish_if_executing c, none)
  settle (c, switched r) = (c, some r)
  settle (c, no_last_task) = (fail_with attribute_error c, none)
  settle (c, no_params) = (fail_with params_error c, none)

  -- The `except` branch of `dispatch`. A SwitchTask comes back as it was raised, and
  -- `descriptor_configured` of a new one is False.
  abbrev pub catch : Exn V → Context V → Context V × Option SwitchRequest
  catch (switch_task t n r) c =
      (c, some (record { next_task_descriptor = n; descriptor_configured = false }))
  catch e c = (fail_with e c, none)

  -- dispatch: `futures` is what `init_and_execute_events` returns or raises.
  unfoldable pub dispatch :
      Attempt V (List (Attempt V (EventResult V))) → Context V → Context V × Option SwitchRequest
  unfolding process_results settle fail_with
  dispatch (raise e) c = catch e (record c { state = executing })
  dispatch (ok futures) c = settle (process_results futures (record c { state = executing }))

  -- execution_failed and execution_success. `evaluation` gives the evaluation state of the class of
  -- an event; `none` is the AttributeError of a context without a last task.
  unfoldable pub verdict :
      (String → EvaluationState) → EvaluationContext → Bool → Context V → Option Bool
  unfolding get_last_task_profile context_evaluation
  verdict evaluation context stopped c =
      if is_stopped c.state then some stopped else elim (get_last_task_profile h c.task_profiles) [
        | none ↦ none
        | some i ↦ elim (get_elem? h i) [
          | none ↦ none
          | some t ↦ some (
              context_evaluation (evaluation t.event) (length c.execution_result) (length c.errors)
                context)
        ]
      ]

  unfoldable pub execution_failed : (String → EvaluationState) → Context V → Option Bool
  unfolding verdict
  execution_failed evaluation c = verdict evaluation failure true c

  unfoldable pub execution_success : (String → EvaluationState) → Context V → Option Bool
  unfolding verdict
  execution_success evaluation c = verdict evaluation success false c
