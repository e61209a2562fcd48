-- ===== src/Evaluation/Verdicts.antt =====
-- The two verdicts of nexus/base.py, success and failure, beside each other.
use event_pipeline.Prelude.{ℕ, ◌≡◌, not, arith}
use event_pipeline.Evaluation.{
  EvaluationState, success, failure, context_evaluation, success_on_all_events_success,
  failure_for_partial_error, success_for_partial_success, failure_for_all_events_failure,
}

-- Under every evaluation state and whatever the numbers of results and errors, the failure verdict is the negation of the success verdict.
pub evaluation_complement :
    (state : EvaluationState) (results errors : ℕ)
    → context_evaluation state results errors failure
      ≡ not (context_evaluation state results errors success)
unfolding context_evaluation
evaluation_complement success_on_all_events_success results errors = ground arith
evaluation_complement failure_for_partial_error results errors = ground arith
evaluation_complement success_for_partial_success results errors = ground arith
evaluation_complement failure_for_all_events_failure results errors = ground arith
