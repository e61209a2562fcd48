-- ===== src/Evaluation.antt =====
-- nexus/base.py: EvaluationContext and EventExecutionEvaluationState, which turn the numbers of
-- results and of errors of an execution context into success or failure.
pub mod Verdicts
use event_pipeline.Prelude.{ℕ, Bool, not, ◌&&◌, ltb}

pub data EvaluationContext : Type 0 where
  success failure : EvaluationContext

pub data EvaluationState : Type 0 where
  success_on_all_events_success : EvaluationState
  failure_for_partial_error : EvaluationState
  success_for_partial_success : EvaluationState
  failure_for_all_events_failure : EvaluationState

-- `results` and `errors` are `len(result)` and `len(errors)`.
unfoldable pub evaluate : EvaluationState → (results errors : ℕ) → Bool
evaluate success_on_all_events_success results errors = not (ltb 0 errors) && ltb 0 results
evaluate success_for_partial_success results errors = ltb 0 results
evaluate failure_for_partial_error results errors = ltb 0 errors
evaluate failure_for_all_events_failure results errors = not (ltb 0 results) && ltb 0 errors

unfoldable pub context_evaluation :
    EvaluationState → (results errors : ℕ) → EvaluationContext → Bool
unfolding evaluate
context_evaluation success_on_all_events_success results errors success =
    evaluate success_on_all_events_success results errors
context_evaluation success_for_partial_success results errors success =
    evaluate success_for_partial_success results errors
context_evaluation state results errors success = not (evaluate state results errors)
context_evaluation failure_for_all_events_failure results errors failure =
    evaluate failure_for_all_events_failure results errors
context_evaluation failure_for_partial_error results errors failure =
    evaluate failure_for_partial_error results errors
context_evaluation state results errors failure = not (evaluate state results errors)
