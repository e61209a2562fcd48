-- ===== src/Context/Failure.antt =====
-- When a dispatched context counts as failed (nexus/task.py, execution_failed).
use Prim.Native.Nat.add
use event_pipeline.Prelude.{
  ℕ, ◌+◌, ◌<◌, ◌≡◌, refl, sym, subst, ◌++◌, ◌∙◌, ap, String, Bool, false, ltb, Option, some, List,
  ◌∷◌, length, All, get_elem?, arith,
}
use event_pipeline.Exceptions.{EventResult, Attempt, ok}
use event_pipeline.Evaluation.{
  EvaluationState, success_on_all_events_success, success_for_partial_success,
  failure_for_all_events_failure, failure_for_partial_error, context_evaluation, failure,
}
use event_pipeline.Task.{Task, Heap}
use event_pipeline.Context.{
  Context, finished, new_context, dispatch, get_last_task_profile, execution_failed,
}
use event_pipeline.Context.Dispatch.{IsQuiet, result_made, results_of, errored, dispatch_quiet}

-- The verdict on a context with at least one result, `errors` of them errored.
abbrev pub fails : EvaluationState → (errors : ℕ) → Bool
fails success_on_all_events_success errors = ltb 0 errors
fails failure_for_partial_error errors = ltb 0 errors
fails success_for_partial_success errors = false
fails failure_for_all_events_failure errors = false

fails_lem :
    (state : EvaluationState) (results errors : ℕ)
    → 0 < results
    → context_evaluation state results errors failure ≡ fails state errors
unfolding context_evaluation
fails_lem success_on_all_events_success results errors h = ground arith
fails_lem failure_for_partial_error results errors h = ground arith
fails_lem success_for_partial_success results errors h = ground arith
fails_lem failure_for_all_events_failure results errors h = ground arith

quiet_count :
    {V : Type 0} (f : Attempt V (EventResult V)) (fs : List (Attempt V (EventResult V)))
    → IsQuiet f
    → 0 < length (results_of (f ∷ fs))
quiet_count f fs (o, made, asks, stops) =
    subst (λ rs. 0 < length (rs ++ results_of fs)) (sym (result_made f o made)) (omega arith)

module _ {V : Type 0} (h : Heap) (evaluation : String → EvaluationState) where
  failed_of_counts :
      (c : Context V) (i : ℕ) (t : Task)
      → c.state ≡ finished
      → get_last_task_profile h c.task_profiles ≡ some i
      → get_elem? h i ≡ some t
      → execution_failed h evaluation c
        ≡ some (
            context_evaluation
              (evaluation t.event)
              (length c.execution_result)
              (length c.errors)
              failure)
  unfolding execution_failed
  failed_of_counts c i t done last found =
      rw (done, execution_failed) (rw (last, execution_failed) (rw (found, execution_failed) refl))

  -- After the dispatch of a new context with at least one future, from each of which a result is made (so that no one holds a PipelineError with params of None), and none of which asks for a switch or a stop, the context has failed exactly if some result is an error where the event of its last task evaluates by SUCCESS_ON_ALL_EVENTS_SUCCESS or FAILURE_FOR_PARTIAL_ERROR, and it has not failed, however many results are errors, where it evaluates by one of the other two states.
  pub dispatch-fails :
      (f : Attempt V (EventResult V)) (fs : List (Attempt V (EventResult V))) (profiles : List ℕ)
      (previous : Option ℕ) (i : ℕ) (t : Task)
      → All IsQuiet (f ∷ fs)
      → get_last_task_profile h profiles ≡ some i
      → get_elem? h i ≡ some t
      → execution_failed h evaluation (dispatch h (ok (f ∷ fs)) (new_context profiles previous)).0
        ≡ some (fails (evaluation t.event) (errored (results_of (f ∷ fs))))
  dispatch-fails f fs profiles previous i t quiet last found =
      let (c, e, done, tasks, results, errors) =
        dispatch_quiet h (f ∷ fs) (new_context profiles previous) quiet in
      let some_result : 0 < length (results_of (f ∷ fs)) = quiet_count f fs quiet.0 in
      rw e (
        failed_of_counts c i t done (rw tasks last) found
        ∙ ap some (
            rw (results, errors)
              (fails_lem (evaluation t.event) (length (results_of (f ∷ fs)))
                  (0 + errored (results_of (f ∷ fs))) some_result
                ∙ ap (fails (evaluation t.event)) (add.zero (errored (results_of (f ∷ fs)))))))
