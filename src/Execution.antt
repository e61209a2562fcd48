-- ===== src/Execution.antt =====
-- nexus/task.py: PipelineTask.execute_task. The tasks are on
-- a heap that does not change; contexts live on a store of their own, as they point at one another.
pub mod Weights
pub mod Fuel
pub mod Termination
pub mod Profiles
pub mod Contexts
pub mod Parallel
use event_pipeline.Prelude.{
  ℕ, zero, suc, String, Bool, true, false, Option, none, some, List, [], ◌∷◌, ◌++◌, get_elem?, set,
  length, if◌then◌else◌,
}
use event_pipeline.Exceptions.{EventResult, Attempt}
use event_pipeline.Evaluation.{EvaluationState}
use event_pipeline.Pipe.{is_parallelism}
use event_pipeline.Task.{Task, Heap, is_conditional, get_descriptor}
use event_pipeline.Context.{
  Context, SwitchRequest, new_context, dispatch, execution_failed, is_stopped,
}

-- What the program does not implement: the executors with the user's events, which turn the tasks of
-- the n-th context into futures, and the evaluation state of each event class.
pub record World (V : Type 0) : Type 0 where
  pub run : ℕ → List ℕ → Attempt V (List (Attempt V (EventResult V)))
  pub evaluation : String → EvaluationState

-- The contexts, `pipeline.execution_context`, and the deque of sinks with its right end first.
pub record Run (V : Type 0) : Type 0 where
  pub contexts : List (Context V)
  pub execution_context : Option ℕ
  pub sink_queue : List ℕ

-- How a call of `execute_task` ends: it returns, it raises TaskSwitchingError, or an AttributeError
-- of a reference to no task leaves it.
pub data Exit : Type 0 where
  returned task_switching_error attribute_error : Exit

-- The loop that gathers a chain of parallel tasks: the tasks passed, and the task that it stops at.
-- A task whose pipe is PARALLELISM has a successor.
unfoldable pub gather : ℕ → Heap → ℕ → List ℕ × ℕ
gather zero h i = ([], i)
gather (suc fuel) h i = elim (get_elem? h i) [
  | none ↦ ([], i)
  | some t ↦
      let more : List ℕ × ℕ = elim t.on_success_event [
        | none ↦ ([], i)
        | some j ↦ let (passed, last) = gather fuel h j in (i ∷ passed, last)
      ] in
      if is_parallelism t.on_success_pipe then more else ([], i)
]

-- `list(parallel_tasks) if parallel_tasks else task`
abbrev pub profiles_of : List ℕ × ℕ → List ℕ
profiles_of ([], last) = last ∷ []
profiles_of (i ∷ is, last) = (i ∷ is) ++ last ∷ []

module _ {V : Type 0} where
  abbrev pub set_next : ℕ → Context V → Context V
  set_next n c = record c { next_context = some n }

  -- previous_context.next_context = execution_context
  unfoldable pub link_next : ℕ → ℕ → List (Context V) → List (Context V)
  link_next p n cs = elim (get_elem? cs p) [ none ↦ cs | some c ↦ set cs p (set_next n c) ]

  abbrev pub push_sink : Task → Run V → Run V
  push_sink t s = elim t.sink_node [
    | none ↦ s
    | some k ↦ record s { sink_queue = k ∷ s.sink_queue }
  ]

  -- The first half of `execute_task`: the new context is stored, with the tasks that it runs, and the
  -- task at which the call goes on. For the first task of a pipeline there is no look at its sink or
  -- at parallel tasks.
  unfoldable pub open_context : Heap → ℕ → Task → Option ℕ → Run V → Run V × ℕ
  unfolding gather link_next
  open_context h i t none s = (
    record s {
      contexts = s.contexts ++ new_context (i ∷ []) none ∷ [];
      execution_context = some (length s.contexts);
    },
    i,
  )
  open_context h i t (some p) s =
      let s' = push_sink t s in
      let chain = gather (length h) h i in
      (
        record s' {
          contexts =
              link_next p (length s'.contexts)
                (s'.contexts ++ new_context (profiles_of chain) (some p) ∷ []);
        },
        chain.1,
      )

-- What `execute_task` does after the dispatch: it ends, or calls itself on a task (or on None) with a
-- previous context.
pub data Next : Type 0 where
  stop : Exit → Next
  go_on : (task previous : Option ℕ) → Next

module _ {V : Type 0} (h : Heap) (w : World V) where
  abbrev pub by_verdict : Task → ℕ → Option Bool → Next
  by_verdict t c none = stop attribute_error
  by_verdict t c (some true) = go_on t.on_failure_event (some c)
  by_verdict t c (some false) = go_on t.on_success_event (some c)

  -- `c` is the place of the context that was dispatched, `t` the last task of it.
  unfoldable pub advance : Task → ℕ → Context V → Next
  unfolding is_conditional
  advance t c ctx =
      if is_conditional t
      then by_verdict t c (execution_failed h w.evaluation ctx)
      else go_on t.on_success_event (some c)

  -- A switch goes on from the context before the one that asked for it.
  unfoldable pub switch_to : Task → ℕ → Option ℕ → Next
  unfolding get_descriptor
  switch_to t n previous = elim (get_descriptor t n) [
    | none ↦ stop task_switching_error
    | some k ↦ go_on (some k) previous
  ]

  abbrev pub configured : Option SwitchRequest → Option ℕ
  configured none = none
  configured (some r) = if r.descriptor_configured then some r.next_task_descriptor else none

  abbrev pub follow : Task → (previous : Option ℕ) → ℕ → Context V → Option ℕ → Next
  follow t previous c ctx none = advance t c ctx
  follow t previous c ctx (some n) = switch_to t n previous

  unfoldable pub decide : Task → (previous : Option ℕ) → ℕ → Context V → Option SwitchRequest → Next
  unfolding advance switch_to
  decide t previous c ctx request =
      if is_stopped ctx.state then stop returned else follow t previous c ctx (configured request)

  -- One activation of `execute_task`, up to its recursive call, on the task `t` at place `i`.
  unfoldable pub activate : ℕ → Task → Option ℕ → Run V → Next × Run V
  unfolding open_context decide dispatch
  activate i t previous s =
      let (s', last) = open_context h i t previous s in
      let c = length s.contexts in
      elim (get_elem? s'.contexts c) [
        | none ↦ (stop attribute_error, s')
        | some ctx ↦
            let (ctx', request) = dispatch h (w.run c ctx.task_profiles) ctx in
            elim (get_elem? h last) [
              | none ↦ (stop attribute_error, s')
              | some t' ↦ (
                decide t' previous c ctx' request,
                record s' { contexts = set s'.contexts c ctx' },
              )
            ]
      ]

  unfoldable pub step : ℕ → Option ℕ → Run V → Next × Run V
  unfolding activate
  step i previous s = elim (get_elem? h i) [
    | none ↦ (stop attribute_error, s)
    | some t ↦ activate i t previous s
  ]

  -- execute_task; `none` says that the fuel ran out. Without a task it empties the deque of sinks.
  unfoldable pub execute_task : ℕ → Option ℕ → Option ℕ → Run V → Option (Exit × Run V)
  unfolding step
  execute_task zero task previous s = none
  execute_task (suc fuel) (some i) previous s =
      let (next, s') = step i previous s in
      elim next [ stop e ↦ some (e, s') | go_on task prev ↦ execute_task fuel task prev s' ]
  execute_task (suc fuel) none previous s = elim s.sink_queue [
    | [] ↦ some (returned, s)
    | k ∷ ks ↦ elim (execute_task fuel (some k) previous (record s { sink_queue = ks })) [
      | none ↦ none
      | some (e, s') ↦ elim e [
        | returned ↦ execute_task fuel none previous s'
        | other ↦ some (other, s')
      ]
    ]
  ]
