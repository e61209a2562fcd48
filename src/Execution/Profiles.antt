-- ===== src/Execution/Profiles.antt =====
-- The tasks of a context during EventExecutionContext.dispatch (nexus/task.py).
use event_pipeline.Prelude.{ℕ, ◌≡◌, refl, ◌∙◌, List, [], ◌∷◌, arith, inl, inr, Option-cases}
use event_pipeline.Exceptions.{Exn, EventResult, switch_task, Attempt, ok, raise}
use event_pipeline.Task.{Heap}
use event_pipeline.Context.{
  Context, Processed, all_processed, switched, no_last_task, no_params, catch, outcome, Outcome,
  record_outcome, add_result, cancel, abort, switch, process_results, fail_with, settle, dispatch,
}

module _ {V : Type 0} (h : Heap) where
  record_outcome-profiles :
      (o : Outcome V) (c : Context V) → (record_outcome h o c).task_profiles ≡ c.task_profiles
  unfolding record_outcome add_result cancel
  record_outcome-profiles o c = ground arith

  switch-profiles : (n : ℕ) (c : Context V) → (switch h n c).0.task_profiles ≡ c.task_profiles
  unfolding switch cancel
  switch-profiles n c = ground arith

  process-profiles :
      (fs : List (Attempt V (EventResult V))) (c : Context V)
      → (process_results h fs c).0.task_profiles ≡ c.task_profiles
  unfolding process_results
  process-profiles [] c = refl
  process-profiles (f ∷ fs) c = elim (Option-cases (outcome f)) [
    | inl breaks ↦ rw (breaks, process_results) refl
    | inr (o, e) ↦
        let same = record_outcome-profiles o c in
        rw (e, process_results)
          (elim (Option-cases o.request) [
            | inl stays ↦ rw stays (process-profiles fs (record_outcome h o c) ∙ same)
            | inr (n, asked) ↦ rw asked (switch-profiles n (record_outcome h o c) ∙ same)
          ])
  ]

  settle-profiles : (p : Context V × Processed) → (settle h p).0.task_profiles ≡ p.0.task_profiles
  unfolding settle fail_with abort
  settle-profiles (c, all_processed) = ground arith
  settle-profiles (c, no_last_task) = refl
  settle-profiles (c, no_params) = refl
  settle-profiles (c, switched r) = refl

  catch-profiles : (e : Exn V) (c : Context V) → (catch h e c).0.task_profiles ≡ c.task_profiles
  unfolding fail_with abort
  catch-profiles (switch_task t n r) c = refl
  catch-profiles e c = refl

  pub dispatch-profiles :
      (run : Attempt V (List (Attempt V (EventResult V)))) (c : Context V)
      → (dispatch h run c).0.task_profiles ≡ c.task_profiles
  unfolding dispatch fail_with abort
  dispatch-profiles (raise e) c = catch-profiles e _
  dispatch-profiles (ok fs) c = settle-profiles (process_results h fs _) ∙ process-profiles fs _
