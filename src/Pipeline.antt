-- ===== src/Pipeline.antt =====
-- nexus/pipeline.py: Pipeline.start, stop and shutdown, and the walks over the chain of contexts that
-- they use (nexus/task.py: EventExecutionContext). Locks are left out: one thread runs the pipeline.
pub mod Links
pub mod Chain
pub mod Walks
pub mod Lifecycle
use event_pipeline.Prelude.{
  ℕ, zero, suc, Bool, not, ◌&&◌, Option, none, some, List, [], ◌∷◌, ◌++◌, get_elem?, set, length,
  is_some, if◌then◌else◌,
}
use event_pipeline.Task.{Heap}
use event_pipeline.Context.{Context, ExecutionState, cancelled, aborted, cancel, abort}
use event_pipeline.Execution.{World, Run, Exit, returned, execute_task}

-- The signals of a pipeline, with the context that they carry.
pub data LifecycleSignal : Type 0 where
  pipeline_execution_start : LifecycleSignal
  pipeline_stop pipeline_shutdown : (context : ℕ) → LifecycleSignal
  pipeline_execution_end : (context : Option ℕ) → LifecycleSignal

-- A pipeline, with the store of all contexts.
pub record Pipeline (V : Type 0) : Type 0 where
  pub contexts : List (Context V)
  pub execution_context : Option ℕ
  pub signals : List LifecycleSignal

-- How `start` ends: it returns `execution_context`, it raises EventDone, or an exception leaves
-- `execute_task`.
pub data Started : Type 0 where
  started : (context : Option ℕ) → Started
  event_done : Started
  raised : Exit → Started

-- The signal for the state of the latest context.
abbrev pub signal_of : ExecutionState → ℕ → Option ℕ → LifecycleSignal
signal_of cancelled l o = pipeline_stop l
signal_of aborted l o = pipeline_shutdown l
signal_of s l o = pipeline_execution_end o

module _ {V : Type 0} where
  -- get_execution_context_head: back along `previous_context`.
  unfoldable pub get_execution_context_head : ℕ → List (Context V) → ℕ → Option ℕ
  get_execution_context_head zero cs i = none
  get_execution_context_head (suc fuel) cs i = elim (get_elem? cs i) [
    | none ↦ none
    | some c ↦ elim c.previous_context [
      | none ↦ some i
      | some p ↦ get_execution_context_head fuel cs p
    ]
  ]

  -- The second loop of get_latest_execution_context: on along `next_context`.
  unfoldable pub follow_next : ℕ → List (Context V) → ℕ → Option ℕ
  follow_next zero cs i = none
  follow_next (suc fuel) cs i = elim (get_elem? cs i) [
    | none ↦ none
    | some c ↦ elim c.next_context [ none ↦ some i | some n ↦ follow_next fuel cs n ]
  ]

  -- get_latest_execution_context; `none` says that a loop does not end.
  unfoldable pub get_latest_execution_context : List (Context V) → ℕ → Option ℕ
  get_latest_execution_context cs i = elim (get_execution_context_head (length cs) cs i) [
    | none ↦ none
    | some j ↦ follow_next (length cs) cs j
  ]

  abbrev pub emit : LifecycleSignal → Pipeline V → Pipeline V
  emit s p = record p { signals = p.signals ++ s ∷ [] }

  abbrev pub final_signal : List (Context V) → Option ℕ → Option LifecycleSignal
  final_signal cs none = some (pipeline_execution_end none)
  final_signal cs (some i) = elim (get_latest_execution_context cs i) [
    | none ↦ none
    | some l ↦ elim (get_elem? cs l) [ none ↦ none | some c ↦ some (signal_of c.state l (some i)) ]
  ]

  -- What `start` does after `execute_task`.
  unfoldable pub finish : Exit × Run V → List LifecycleSignal → Option (Started × Pipeline V)
  unfolding get_latest_execution_context
  finish (returned, r) signals = elim (final_signal r.contexts r.execution_context) [
    | none ↦ none
    | some s ↦ some (
      started r.execution_context,
      record {
        contexts = r.contexts;
        execution_context = r.execution_context;
        signals = signals ++ s ∷ [];
      },
    )
  ]
  finish (e, r) signals = some (
    raised e,
    record { contexts = r.contexts; execution_context = r.execution_context; signals = signals },
  )

module _ {V : Type 0} (h : Heap) (w : World V) where
  -- start, on the first task of the pipeline; `none` says that it does not end.
  unfoldable pub start : ℕ → ℕ → Bool → Pipeline V → Option (Started × Pipeline V)
  unfolding finish
  start fuel root force_rerun p =
      let p' = emit pipeline_execution_start p in
      if is_some p.execution_context && not force_rerun
      then some (event_done, p')
      else elim (execute_task h w fuel (some root) none
          (record { contexts = p.contexts; execution_context = none; sink_queue = [] })) [
            | none ↦ none
            | some r ↦ finish r p'.signals
          ]

module _ {V : Type 0} where
  abbrev pub change_latest :
      (Context V → Context V) → (ℕ → LifecycleSignal) → Pipeline V → Option (Pipeline V)
  change_latest change signal p = elim p.execution_context [
    | none ↦ some p
    | some i ↦ elim (get_latest_execution_context p.contexts i) [
      | none ↦ none
      | some l ↦ elim (get_elem? p.contexts l) [
        | none ↦ none
        | some c ↦ some (emit (signal i) (record p { contexts = set p.contexts l (change c) }))
      ]
    ]
  ]

  -- stop and shutdown; `none` says that the search for the latest context does not end.
  unfoldable pub stop : Pipeline V → Option (Pipeline V)
  unfolding cancel get_latest_execution_context
  stop p = change_latest cancel pipeline_stop p

  unfoldable pub shutdown : Pipeline V → Option (Pipeline V)
  unfolding abort get_latest_execution_context
  shutdown p = change_latest abort pipeline_shutdown p
