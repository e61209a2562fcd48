-- ===== src/Context/Dispatch.antt =====
-- What dispatching a context (nexus/task.py, EventExecutionContext.dispatch) comes to.

use event_pipeline.Prelude.{
  comparable_nat, if◌then◌else◌, ℕ, suc, ◌+◌, ◌≡◌, refl, sym, subst, ap, ◌∙◌, true, false, Option,
  none, some, List, [], ◌∷◌, ◌++◌, length, length-append, All, arith, inl, inr, Option-cases,
}
use mathlib.Core.List.{append_assoc, append-nil}
use event_pipeline.Exceptions.{
  Exn, EventResult, event_result, raised, pipeline_exception, max_retry, stop_processing,
  switch_task, Attempt, ok, raise, is_error,
}
use event_pipeline.Task.{Heap}
use event_pipeline.Context.{
  Context, ExecutionState, executing, cancelled, finished, aborted, SwitchRequest, Processed,
  all_processed, switched, no_last_task, no_params, catch, fail_with, abort, Outcome, outcome,
  record_outcome, add_result, process_results, switch, settle, dispatch, cancel,
}

-- The state that a dispatched context may have, given the switch request that comes back.
abbrev pub Settled : ExecutionState → Option SwitchRequest → Type 0
Settled finished none = Unit
Settled cancelled r = Unit
Settled aborted none = Unit
Settled executing (some r) = r.descriptor_configured ≡ true
Settled s r = ⊥

abbrev Running : ExecutionState → Type 0
Running executing = Unit
Running cancelled = Unit
Running s = ⊥

-- How a dispatch ends. A SwitchTask that was raised before there were futures leaves the context
-- executing, and comes back as it was raised.
abbrev pub Ends :
    {V : Type 0}
    → Attempt V (List (Attempt V (EventResult V)))
    → Context V × Option SwitchRequest
    → Type 0
Ends (raise (switch_task t n r)) (c, request) =
    (c.state ≡ executing)
    × (request ≡ some (record { next_task_descriptor = n; descriptor_configured = false }))
Ends (raise e) (c, request) = (c.state ≡ aborted) × (request ≡ none)
Ends (ok fs) (c, request) = Settled c.state request

module _ {V : Type 0} (h : Heap) where
  abbrev Ready : Context V × Processed → Type 0
  Ready (c, all_processed) = Running c.state
  Ready (c, no_last_task) = Unit
  Ready (c, no_params) = Unit
  Ready (c, switched r) = Settled c.state (some r)

  switch-Ready : (n : ℕ) (c : Context V) → Running c.state → Ready (switch h n c)
  unfolding switch cancel
  switch-Ready n c x = ground arith

  record_outcome-Running :
      (o : Outcome V) (c : Context V) → Running c.state → Running (record_outcome h o c).state
  unfolding record_outcome add_result cancel
  record_outcome-Running o c x = ground arith

  process-Ready :
      (fs : List (Attempt V (EventResult V))) (c : Context V)
      → Running c.state
      → Ready (process_results h fs c)
  unfolding process_results
  process-Ready [] c x = x
  process-Ready (f ∷ fs) c x = elim (Option-cases (outcome f)) [
    | inl breaks ↦ rw (breaks, process_results) tt
    | inr (o, e) ↦
        let x' = record_outcome-Running o c x in
        rw (e, process_results)
          (elim (Option-cases o.request) [
            | inl stays ↦ rw stays (process-Ready fs (record_outcome h o c) x')
            | inr (n, asked) ↦ rw asked (switch-Ready n (record_outcome h o c) x')
          ])
  ]

  settle-Settled :
      (p : Context V × Processed) → Ready p → Settled (settle h p).0.state (settle h p).1
  unfolding settle
  settle-Settled (c, all_processed) x = ground arith
  settle-Settled (c, no_last_task) x = tt
  settle-Settled (c, no_params) x = tt
  settle-Settled (c, switched r) x = x

  catch-Ends : (e : Exn V) (c : Context V) → c.state ≡ executing → Ends (raise e) (catch h e c)
  unfolding fail_with abort
  catch-Ends (switch_task t n r) c x = (x, refl)
  catch-Ends (raised k m) c x = (refl, refl)
  catch-Ends (pipeline_exception k m p) c x = (refl, refl)
  catch-Ends (max_retry n m) c x = (refl, refl)
  catch-Ends (stop_processing m k n t) c x = (refl, refl)

  -- Whatever the futures hold, a dispatched context is finished, cancelled or aborted; only a request for a configured descriptor leaves it executing, and with such a request it is not finished. If starting the events raised, the context is aborted without a request, unless a SwitchTask was raised: then it is left executing, and the request comes back as not configured.
  pub dispatch-Settled :
      (run : Attempt V (List (Attempt V (EventResult V)))) (c : Context V)
      → Ends run (dispatch h run c)
  unfolding dispatch
  dispatch-Settled (raise e) c = catch-Ends e (record c { state = executing }) refl
  dispatch-Settled (ok fs) c = settle-Settled (process_results h fs _) (process-Ready fs _ tt)

-- A future from which a result is made, and which asks for no switch and for no stop.
abbrev pub IsQuiet : {V : Type 0} → Attempt V (EventResult V) → Type 0
IsQuiet {V} f = (o : Outcome V) × (outcome f ≡ some o) × (o.request ≡ none) × (o.stop ≡ false)

-- The result made from a future, if there is one.
abbrev pub result_in : {V : Type 0} → Attempt V (EventResult V) → List (EventResult V)
result_in f = elim (outcome f) [ none ↦ [] | some o ↦ o.result ∷ [] ]

abbrev pub results_of : {V : Type 0} → List (Attempt V (EventResult V)) → List (EventResult V)
results_of [] = []
results_of (f ∷ fs) = result_in f ++ results_of fs

pub result_made :
    {V : Type 0} (f : Attempt V (EventResult V)) (o : Outcome V)
    → outcome f ≡ some o
    → result_in f ≡ o.result ∷ []
result_made f o made = ap (λ x. elim x [ none ↦ [] | some p ↦ p.result ∷ [] ]) made

-- len([r for r in rs if r.error])
abbrev pub errored : {V : Type 0} → List (EventResult V) → ℕ
errored [] = 0
errored (r ∷ rs) = if is_error r then suc (errored rs) else errored rs

-- What the loop added to a context.
pub record Recorded {V : Type 0} (rs : List (EventResult V)) (c c' : Context V) : Type 0 where
  pub same_state : c'.state ≡ c.state
  pub same_tasks : c'.task_profiles ≡ c.task_profiles
  pub results : c'.execution_result ≡ c.execution_result ++ rs
  pub error_count : length c'.errors ≡ length c.errors + errored rs

module _ {V : Type 0} (h : Heap) where
  add_result-Recorded : (r : EventResult V) (c : Context V) → Recorded (r ∷ []) c (add_result r c)
  unfolding add_result
  add_result-Recorded (event_result true m t n) c = record {
    same_state = refl;
    same_tasks = refl;
    results = refl;
    error_count = length-append c.errors _;
  }
  add_result-Recorded (event_result false m t n) c = record {
    same_state = refl;
    same_tasks = refl;
    results = refl;
    error_count = omega arith;
  }

  pub record_outcome-Recorded :
      (o : Outcome V) (c : Context V)
      → o.stop ≡ false
      → Recorded (o.result ∷ []) c (record_outcome h o c)
  unfolding record_outcome
  record_outcome-Recorded o c e = rw e (add_result-Recorded o.result c)

  -- Quiet futures before any others.
  pub process_quiet :
      (fs later : List (Attempt V (EventResult V))) (c : Context V)
      → All IsQuiet fs
      → (c' : Context V) × (process_results h (fs ++ later) c ≡ process_results h later c')
        × Recorded (results_of fs) c c'
  unfolding process_results
  process_quiet [] later c q = (
    c,
    refl,
    record {
      same_state = refl;
      same_tasks = refl;
      results = sym (append-nil c.execution_result);
      error_count = omega arith;
    },
  )
  process_quiet (f ∷ fs) later c ((o, made, asks, stops), qs) =
      let first = record_outcome-Recorded o c stops in
      let (c', e, rest) = process_quiet fs later (record_outcome h o c) qs in
      (
        c',
        rw (made, process_results) (rw asks e),
        subst (λ rs. Recorded (rs ++ results_of fs) c c') (sym (result_made f o made))
            (record {
              same_state = rest.same_state ∙ first.same_state;
              same_tasks = rest.same_tasks ∙ first.same_tasks;
              results =
                  rest.results
                  ∙ ap (λ l. l ++ results_of fs) first.results
                  ∙ append_assoc c.execution_result (o.result ∷ []) (results_of fs);
              error_count = ground (arith, rest.error_count, first.error_count);
            }),
      )

  settle-finished :
      (c : Context V)
      → c.state ≡ executing
      → settle h (c, all_processed) ≡ (record c { state = finished }, none)
  unfolding settle
  settle-finished c e = rw (e, settle) refl

  pub dispatch_quiet :
      (fs : List (Attempt V (EventResult V))) (c : Context V)
      → All IsQuiet fs
      → (c' : Context V) × (dispatch h (ok fs) c ≡ (c', none))
        × (c'.state ≡ finished)
        × (c'.task_profiles ≡ c.task_profiles)
        × (c'.execution_result ≡ c.execution_result ++ results_of fs)
        × (length c'.errors ≡ length c.errors + errored (results_of fs))
  unfolding dispatch
  dispatch_quiet fs c q =
      let (c', e, r) = process_quiet fs [] (record c { state = executing }) q in
      let all = rw (append-nil fs) at e in
      (
        record c' { state = finished },
        rw all (settle-finished c' r.same_state),
        refl,
        r.same_tasks,
        r.results,
        r.error_count,
      )
