-- ===== src/Wrapper.antt =====
-- nexus/pipeline_wrapper.py: PipelineWrapper, which runs a pipeline of a batch in a process of its own,
-- and the lifecycle events that it sends. A pipeline is known by its id. The signals that a wrapper
-- forwards, times and texts for the log are left out; exceptions are the names of their classes.
pub mod Reports
pub mod Monitoring
pub mod Failures
use event_pipeline.Prelude.{
  ℕ, zero, suc, String, Bool, true, false, Option, none, some, List, [], ◌∷◌, ◌++◌, get_elem?,
  length, is_some, if◌then◌else◌,
}
use event_pipeline.Task.{Heap}
use event_pipeline.Context.{Context, execution_failed}
use event_pipeline.Execution.{World, Exit, returned, task_switching_error, attribute_error}
use event_pipeline.Pipeline.{
  Pipeline, Started, started, event_done, raised, start, get_latest_execution_context,
}

pub data PipelineExecutionState : Type 0 where
  initialized initializing running completed failed finished : PipelineExecutionState

-- The event type of a message, and what the message carries for it. A context stands among the
-- contexts that are sent along.
pub data Lifecycle (V : Type 0) : Type 0 where
  wrapper_started pipeline_execution_start : Lifecycle V
  pipeline_execution_end :
      (contexts : List (Context V)) (execution_context : Option ℕ) → Lifecycle V
  wrapper_failed : (error_type : String) → Lifecycle V
  wrapper_finished : (had_exception : Bool) → Lifecycle V

pub record Message (V : Type 0) : Type 0 where
  pub event_type : Lifecycle V
  pub pipeline_id : ℕ
  pub execution_state : PipelineExecutionState

-- A wrapper, with the messages that the queue has taken.
pub record PipelineWrapper (V : Type 0) : Type 0 where
  pub pipeline : Pipeline V
  pub execution_state : PipelineExecutionState
  pub exception : Option String
  pub signals_queue : List (Message V)

-- What the search for a context that failed gives: a context or None, an AttributeError of a context
-- without a task, or no end.
pub data Search : Type 0 where
  found : Option ℕ → Search
  no_task endless : Search

abbrev pub name_of : Exit → String
name_of returned = ""
name_of task_switching_error = "TaskSwitchingError"
name_of attribute_error = "AttributeError"

module _ {V : Type 0} (h : Heap) (w : World V) where
  -- Pipeline.get_first_error_execution_node
  unfoldable pub get_first_error_execution_node : ℕ → List (Context V) → Option ℕ → Search
  get_first_error_execution_node zero cs o = endless
  get_first_error_execution_node (suc fuel) cs none = found none
  get_first_error_execution_node (suc fuel) cs (some i) = elim (get_elem? cs i) [
    | none ↦ found none
    | some c ↦ elim (execution_failed h w.evaluation c) [
      | none ↦ no_task
      | some true ↦ found (some i)
      | some false ↦ get_first_error_execution_node fuel cs c.next_context
    ]
  ]

-- `accepts` says which messages the queue takes; a message that it does not take is lost.
module _ {V : Type 0} (accepts : Message V → Bool) where
  abbrev pub put : Message V → List (Message V) → List (Message V)
  put m q = if accepts m then q ++ m ∷ [] else q

  -- _send_wrapper_lifecycle_event
  abbrev pub send : ℕ → Lifecycle V → PipelineWrapper V → PipelineWrapper V
  send id e s = record s {
    signals_queue =
        put (record { event_type = e; pipeline_id = id; execution_state = s.execution_state })
          s.signals_queue;
  }

-- A wrapper with or without a logger, of a pipeline with its id, its fuel and its first task.
module _ {V : Type 0} (h : Heap) (w : World V) (accepts : Message V → Bool) (logger : Bool)
    (id fuel root : ℕ) where
  -- The handling of an exception.
  abbrev pub fail_with : String → PipelineWrapper V → PipelineWrapper V
  fail_with e s =
      send accepts id (wrapper_failed e) (record s { exception = some e; execution_state = failed })

  -- The log of a failure reads `error_node.task`, which a context does not have.
  abbrev pub report_failure : Search → PipelineWrapper V → Option (PipelineWrapper V)
  report_failure endless s = none
  report_failure no_task s = some (fail_with "AttributeError" s)
  report_failure (found none) s = some (record s { execution_state = failed })
  report_failure (found (some i)) s =
      some (if logger then fail_with "AttributeError" s else record s { execution_state = failed })

  abbrev pub complete : Option ℕ → PipelineWrapper V → PipelineWrapper V
  complete o s =
      send accepts id (pipeline_execution_end s.pipeline.contexts o)
        (record s { execution_state = completed })

  abbrev pub by_failure : ℕ → Option Bool → PipelineWrapper V → Option (PipelineWrapper V)
  by_failure i none s = some (fail_with "AttributeError" s)
  by_failure i (some true) s =
      let cs = s.pipeline.contexts in
      report_failure (get_first_error_execution_node h w (suc (length cs)) cs (some i)) s
  by_failure i (some false) s = some (complete (some i) s)

  -- What _handle_pipeline_execution does once `start` has ended; `none` says that a search for a
  -- context does not end.
  unfoldable pub after_start : Started → PipelineWrapper V → Option (PipelineWrapper V)
  unfolding get_first_error_execution_node get_latest_execution_context execution_failed
  after_start event_done s = some (fail_with "EventDone" s)
  after_start (raised e) s = some (fail_with (name_of e) s)
  after_start (started none) s = some (complete none s)
  after_start (started (some i)) s = elim (get_latest_execution_context s.pipeline.contexts i) [
    | none ↦ none
    | some l ↦ elim (get_elem? s.pipeline.contexts l) [
      | none ↦ none
      | some c ↦ by_failure i (execution_failed h w.evaluation c) s
    ]
  ]

  unfoldable pub handle_pipeline_execution : PipelineWrapper V → Option (PipelineWrapper V)
  unfolding after_start start
  handle_pipeline_execution s =
      let s1 = send accepts id pipeline_execution_start (record s { execution_state = running }) in
      elim (start h w fuel root true s1.pipeline) [
        | none ↦ none
        | some r ↦ after_start r.0 (record s1 { pipeline = r.1 })
      ]

  abbrev pub finish : PipelineWrapper V → PipelineWrapper V
  finish s =
      send accepts id (wrapper_finished (is_some s.exception))
        (record s { execution_state = finished })

  -- run, which returns the fields `pipeline` and `exception`; `none` says that it does not end.
  unfoldable pub run : PipelineWrapper V → Option (PipelineWrapper V)
  unfolding handle_pipeline_execution
  run s =
      let s1 = send accepts id wrapper_started (record s { execution_state = initializing }) in
      elim (handle_pipeline_execution s1) [ none ↦ none | some s2 ↦ some (finish s2) ]
