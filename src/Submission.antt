-- ===== src/Submission.antt =====
-- nexus/task.py, EventExecutionContext.init_and_execute_events: the events of a context on their
-- executors. Executor classes have a type E with their identity, the values of their arguments a type
-- V, the arguments of an event's call a type A, futures a type F. An event is a number that stands
-- for the object. The callback that connects event_execution_end is left out.
pub mod Grouping
pub mod Configs
pub mod Previous
use event_pipeline.Prelude.{
  ℕ, String, Bool, max, if◌then◌else◌, Option, none, some, List, [], ◌∷◌, ◌++◌, Comparable,
  comparable_string,
}
use event_pipeline.Prelude.Dict.{Dict, lookup, insert}
use event_pipeline.Exceptions.{Attempt, ok, raise}

-- What _get_executor_context_and_event gives for a task, with the executor class of the event.
pub record Prepared (E A V : Type 0) : Type 0 where
  pub executor : E
  pub event : ℕ
  pub context : Dict String V
  pub call_args : A

-- An entry of `executors_map`: under the key "context" and under the events, in their order.
pub record Group (A V : Type 0) : Type 0 where
  pub context : Dict String V
  pub events : List (ℕ × A)

pub data EventSignal (E : Type 0) : Type 0 where
  event_execution_init : (event : ℕ) (executor : E) → EventSignal E
  event_execution_start : (event : ℕ) → EventSignal E

-- Python's values: `==`, isinstance(value, EMPTY), and the number of a value whose text is numeric.
pub record Values (V : Type 0) : Type 0 where
  pub same : V → V → Bool
  pub is_empty : V → Bool
  pub numeric : V → Option ℕ
  pub of_int : ℕ → V

-- Making an executor with its arguments gives what submits to it.
abbrev pub Executors : (E A V F W : Type 0) → Type 0
Executors E A V F W = E → Dict String V → Attempt W (ℕ → A → Attempt W F)

module _ {V : Type 0} (py : Values V) where
  -- previous_context.get(key, 0)
  abbrev pub value_or_zero : String → Dict String V → V
  value_or_zero key context = elim (lookup key context) [ none ↦ py.of_int 0 | some v ↦ v ]

  abbrev pub larger : String → Dict String V → Option ℕ → Option ℕ → Dict String V
  larger key context (some n) (some p) = insert key (py.of_int (max n p)) context
  larger key context n p = context

  -- A round of the loop over the context of a later event.
  unfoldable pub merge_entry : String → V → Dict String V → Dict String V
  merge_entry key value previous =
      let p = value_or_zero key previous in
      if py.same p value
      then previous
      else if py.is_empty value
      then previous
      else larger key previous (py.numeric value) (py.numeric p)

  unfoldable pub merge : Dict String V → Dict String V → Dict String V
  unfolding merge_entry
  merge [] previous = previous
  merge ((key, value) ∷ context) previous = merge context (merge_entry key value previous)

  -- `if previous_context: …`
  abbrev pub merge_context : Dict String V → Dict String V → Dict String V
  merge_context [] context = merge context []
  merge_context (entry ∷ previous) context = entry ∷ previous

  module _ {E A : Type 0} ⦃e : Comparable E⦄ where
    -- A round of the loop over the tasks. An event is a new object, so that writing under it appends.
    unfoldable pub add_event : Prepared E A V → Dict E (Group A V) → Dict E (Group A V)
    unfolding merge
    add_event p m = elim (lookup p.executor m) [
      | none ↦
          insert p.executor (record { context = p.context; events = (p.event, p.call_args) ∷ [] }) m
      | some g ↦
          insert p.executor
            (record {
              context = merge_context g.context p.context;
              events = g.events ++ (p.event, p.call_args) ∷ [];
            })
            m
    ]

    -- _gather_executors_for_parallel_executions, with the signals so far; the preparation of a
    -- task may raise.
    unfoldable pub gather_executors :
        {W : Type 0}
        → List (Attempt W (Prepared E A V))
        → Dict E (Group A V)
        → List (EventSignal E)
        → Attempt W (Dict E (Group A V)) × List (EventSignal E)
    unfolding add_event
    gather_executors [] m signals = (ok m, signals)
    gather_executors (raise x ∷ tasks) m signals = (raise x, signals)
    gather_executors (ok p ∷ tasks) m signals =
        gather_executors tasks (add_event p m)
          (signals ++ event_execution_init p.event p.executor ∷ [])

module _ {E W : Type 0} where
  -- What comes after a part that returned, with the signals that it left.
  abbrev pub and_then :
      {B C : Type 0}
      → Attempt W B × List (EventSignal E)
      → (B → List (EventSignal E) → Attempt W C × List (EventSignal E))
      → Attempt W C × List (EventSignal E)
  and_then (ok b, signals) k = k b signals
  and_then (raise x, signals) k = (raise x, signals)

  abbrev pub extend :
      {F : Type 0}
      → List F
      → Attempt W (List F) × List (EventSignal E)
      → Attempt W (List F) × List (EventSignal E)
  extend fs (ok rest, signals) = (ok (fs ++ rest), signals)
  extend fs (raise x, signals) = (raise x, signals)

  -- _submit_event_to_executor for the events of one executor
  unfoldable pub submit_events :
      {A F : Type 0}
      → (ℕ → A → Attempt W F)
      → List (ℕ × A)
      → List (EventSignal E)
      → Attempt W (List F) × List (EventSignal E)
  submit_events submit [] signals = (ok [], signals)
  submit_events submit ((event, args) ∷ events) signals = elim (submit event args) [
    | raise x ↦ (raise x, signals ++ event_execution_start event ∷ [])
    | ok f ↦
        extend (f ∷ []) (submit_events submit events (signals ++ event_execution_start event ∷ []))
  ]

module _ {E A V F W : Type 0} where
  -- The loop over `executor_maps`. Both branches on the number of events do the same.
  unfoldable pub execute_groups :
      Executors E A V F W
      → Dict E (Group A V)
      → List (EventSignal E)
      → Attempt W (List F) × List (EventSignal E)
  unfolding submit_events
  execute_groups executors [] signals = (ok [], signals)
  execute_groups executors ((executor, g) ∷ groups) signals = elim (executors executor g.context) [
    | raise x ↦ (raise x, signals)
    | ok submit ↦
        and_then (submit_events submit g.events signals)
          (λ fs signals'. extend fs (execute_groups executors groups signals'))
  ]

  unfoldable pub init_and_execute_events :
      Values V
      → ⦃e : Comparable E⦄ → Executors E A V F W
      → List (Attempt W (Prepared E A V))
      → Attempt W (List F) × List (EventSignal E)
  unfolding gather_executors execute_groups
  init_and_execute_events py executors tasks =
      and_then (gather_executors py tasks [] []) (execute_groups executors)
