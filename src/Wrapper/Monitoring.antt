-- ===== src/Wrapper/Monitoring.antt =====
-- The lifecycle events of wrappers (nexus/pipeline_wrapper.py) in the monitor of a batch
-- (nexus/pipeline.py, _BatchProcessingMonitor).
use event_pipeline.Prelude.{
  ℕ, suc, length, ◌≡◌, refl, sym, subst, ◌∙◌, String, Bool, true, false, Option, none, some,
  some_inj, List, [], ◌∷◌, ◌++◌, get_elem?, All, All-get_elem?, Option-cases, Bool-cases, inl, inr,
}
use event_pipeline.Task.{Heap}
use event_pipeline.Context.{Context, execution_failed}
use event_pipeline.Execution.{World}
use event_pipeline.Pipeline.{
  Started, started, event_done, raised, start, get_latest_execution_context,
}
use event_pipeline.Monitor.{Monitor, on_pipeline_started, on_pipeline_ended}
use event_pipeline.Wrapper.{
  Lifecycle, Message, PipelineWrapper, Search, found, no_task, endless, wrapper_started,
  pipeline_execution_start, pipeline_execution_end, wrapper_failed, wrapper_finished, put, send,
  initializing, fail_with, report_failure, by_failure, after_start, handle_pipeline_execution, run,
  get_first_error_execution_node,
}

module _ {V : Type 0} (h : Heap) (w : World V) where
  -- The listeners of the signal that an event stands for. An end without a context raises an
  -- AttributeError in its listener, which the signal catches; `none` says that the search for the
  -- latest context does not end.
  unfoldable by_type : (pipeline now : ℕ) → Lifecycle V → Monitor → Option Monitor
  unfolding on_pipeline_started on_pipeline_ended execution_failed get_latest_execution_context
  by_type p now pipeline_execution_start m = some (on_pipeline_started p now m)
  by_type p now (pipeline_execution_end cs none) m = some m
  by_type p now (pipeline_execution_end cs (some i)) m = elim (get_latest_execution_context cs i) [
    | none ↦ none
    | some l ↦ elim (get_elem? cs l) [
      | none ↦ none
      | some c ↦ some (on_pipeline_ended p now (execution_failed h w.evaluation c) false m)
    ]
  ]
  by_type p now wrapper_started m = some m
  by_type p now (wrapper_failed e) m = some m
  by_type p now (wrapper_finished b) m = some m

  -- _handle_wrapper_lifecycle_event at a time
  unfoldable pub handle_wrapper_lifecycle_event : (now : ℕ) → Message V → Monitor → Option Monitor
  unfolding by_type
  handle_wrapper_lifecycle_event now x m = by_type x.pipeline_id now x.event_type m

  -- The messages in the order in which the monitor takes them from the queue, with their times.
  unfoldable pub handle_messages : List (ℕ × Message V) → Monitor → Option Monitor
  unfolding handle_wrapper_lifecycle_event
  handle_messages [] m = some m
  handle_messages (x ∷ xs) m = elim (handle_wrapper_lifecycle_event x.0 x.1 m) [
    | none ↦ none
    | some m' ↦ handle_messages xs m'
  ]

-- An end that is no failure counts none.
ended_well :
    (p now : ℕ) (m : Monitor)
    → (on_pipeline_ended p now (some false) false m).metrics.failed ≡ m.metrics.failed
unfolding on_pipeline_ended
ended_well p now m = refl

module _ {V : Type 0} (h : Heap) (w : World V) where
  -- What the end of a pipeline carries: no context, or one whose latest context has not failed.
  abbrev Carries : List (Context V) → Option ℕ → Type 0
  Carries cs none = Unit
  Carries cs (some i) =
      (l : ℕ) × (c : Context V) × (get_latest_execution_context cs i ≡ some l)
      × (get_elem? cs l ≡ some c)
      × (execution_failed h w.evaluation c ≡ some false)

  abbrev IsHarmless : Lifecycle V → Type 0
  IsHarmless (pipeline_execution_end cs o) = Carries cs o
  IsHarmless e = Unit

  -- Handling an event returns and counts no failure.
  handle-IsHarmless :
      (p now : ℕ) (e : Lifecycle V) (m : Monitor)
      → IsHarmless e
      → (m' : Monitor) × (by_type h w p now e m ≡ some m') × (m'.metrics.failed ≡ m.metrics.failed)
  unfolding by_type on_pipeline_started
  handle-IsHarmless p now wrapper_started m c = (m, refl, refl)
  handle-IsHarmless p now pipeline_execution_start m c = (on_pipeline_started p now m, refl, refl)
  handle-IsHarmless p now (pipeline_execution_end cs none) m c = (m, refl, refl)
  handle-IsHarmless p now (pipeline_execution_end cs (some i)) m (l, c, latest, there, fine) = (
    on_pipeline_ended p now (execution_failed h w.evaluation c) false m,
    rw (latest, by_type) (rw there refl),
    rw fine (ended_well p now m),
  )
  handle-IsHarmless p now (wrapper_failed e) m c = (m, refl, refl)
  handle-IsHarmless p now (wrapper_finished b) m c = (m, refl, refl)

  abbrev AllHarmless : List (Message V) → Type 0
  AllHarmless q = All (λ x. IsHarmless x.event_type) q

  append-AllHarmless :
      (q : List (Message V)) (x : Message V)
      → AllHarmless q
      → IsHarmless x.event_type
      → AllHarmless (q ++ x ∷ [])
  append-AllHarmless [] x a c = (c, tt)
  append-AllHarmless (y ∷ q) x (b, a) c = (b, append-AllHarmless q x a c)

  module _ (accepts : Message V → Bool) (logger : Bool) (id fuel root : ℕ) where
    put-AllHarmless :
        (x : Message V) (q : List (Message V))
        → AllHarmless q
        → IsHarmless x.event_type
        → AllHarmless (put accepts x q)
    put-AllHarmless x q a c = elim (Bool-cases (accepts x)) [
      | inl taken ↦ rw taken (append-AllHarmless q x a c)
      | inr lost ↦ rw lost a
    ]

    abbrev Sends : Option (PipelineWrapper V) → Type 0
    Sends o = (s : PipelineWrapper V) → o ≡ some s → AllHarmless s.signals_queue

    fail_with-AllHarmless :
        (e : String) (s : PipelineWrapper V)
        → AllHarmless s.signals_queue
        → AllHarmless (fail_with h w accepts logger id fuel root e s).signals_queue
    fail_with-AllHarmless e s a = put-AllHarmless _ s.signals_queue a tt

    one-Sends : (s : PipelineWrapper V) → AllHarmless s.signals_queue → Sends (some s)
    one-Sends s a s' e = subst (λ r. AllHarmless r.signals_queue) (some_inj e) a

    report_failure-Sends :
        (x : Search) (s : PipelineWrapper V)
        → AllHarmless s.signals_queue
        → Sends (report_failure h w accepts logger id fuel root x s)
    report_failure-Sends endless s a = λ s' e. cc
    report_failure-Sends no_task s a = one-Sends _ (fail_with-AllHarmless "AttributeError" s a)
    report_failure-Sends (found none) s a = one-Sends _ a
    report_failure-Sends (found (some i)) s a = elim (Bool-cases logger) [
      | inl with_logger ↦ rw with_logger (one-Sends _ (fail_with-AllHarmless "AttributeError" s a))
      | inr without ↦ rw without (one-Sends _ a)
    ]

    by_failure-Sends :
        (i : ℕ) (verdict : Option Bool) (s : PipelineWrapper V)
        → AllHarmless s.signals_queue
        → (verdict ≡ some false → Carries s.pipeline.contexts (some i))
        → Sends (by_failure h w accepts logger id fuel root i verdict s)
    by_failure-Sends i none s a c = one-Sends _ (fail_with-AllHarmless "AttributeError" s a)
    by_failure-Sends i (some true) s a c =
        let cs = s.pipeline.contexts in
        report_failure-Sends (get_first_error_execution_node h w (suc (length cs)) cs (some i)) s a
    by_failure-Sends i (some false) s a c =
        one-Sends _ (put-AllHarmless _ s.signals_queue a (c refl))

    after_start-Sends :
        (o : Started) (s : PipelineWrapper V)
        → AllHarmless s.signals_queue
        → Sends (after_start h w accepts logger id fuel root o s)
    unfolding after_start
    after_start-Sends event_done s a = one-Sends _ (fail_with-AllHarmless "EventDone" s a)
    after_start-Sends (raised e) s a = one-Sends _ (fail_with-AllHarmless _ s a)
    after_start-Sends (started none) s a = one-Sends _ (put-AllHarmless _ s.signals_queue a tt)
    after_start-Sends (started (some i)) s a =
        elim (Option-cases (get_latest_execution_context s.pipeline.contexts i)) [
          | inl lost ↦ rw (lost, after_start) (λ s' e. cc)
          | inr (l, latest) ↦ elim (Option-cases (get_elem? s.pipeline.contexts l)) [
            | inl lost ↦ rw (latest, after_start) (rw lost (λ s' e. cc))
            | inr (c, there) ↦
                rw (latest, after_start)
                  (rw there (
                    by_failure-Sends i (execution_failed h w.evaluation c) s a
                      (λ fine. (l, c, latest, there, fine))))
          ]
        ]

    handle_pipeline_execution-Sends :
        (s : PipelineWrapper V)
        → AllHarmless s.signals_queue
        → Sends (handle_pipeline_execution h w accepts logger id fuel root s)
    unfolding handle_pipeline_execution
    handle_pipeline_execution-Sends s a =
        elim (Option-cases (start h w fuel root true s.pipeline)) [
          | inl lost ↦ rw (lost, handle_pipeline_execution) (λ s' e. cc)
          | inr (r, ends) ↦
              rw (ends, handle_pipeline_execution)
                (after_start-Sends r.0 _ (put-AllHarmless _ s.signals_queue a tt))
        ]

    run-Sends :
        (s : PipelineWrapper V)
        → AllHarmless s.signals_queue
        → Sends (run h w accepts logger id fuel root s)
    unfolding run
    run-Sends s a =
        let s1 : PipelineWrapper V =
          send accepts id wrapper_started (record s { execution_state = initializing }) in
        elim (Option-cases (handle_pipeline_execution h w accepts logger id fuel root s1)) [
          | inl lost ↦ rw (lost, run) (λ s' e. cc)
          | inr (s2, ends) ↦
              let sent : AllHarmless s2.signals_queue =
                handle_pipeline_execution-Sends s1 (put-AllHarmless _ s.signals_queue a tt) s2
                  ends in
              rw (ends, run) (one-Sends _ (put-AllHarmless _ s2.signals_queue sent tt))
        ]

-- A message that a wrapper with an empty queue sends when it runs a pipeline.
abbrev pub IsSent : {V : Type 0} → Heap → World V → Message V → Type 0
IsSent {V} h w x =
    (accepts : Message V → Bool) × (logger : Bool) × (id : ℕ) × (fuel : ℕ) × (root : ℕ)
    × (s : PipelineWrapper V) × (s' : PipelineWrapper V) × (n : ℕ) × (s.signals_queue ≡ [])
    × (run h w accepts logger id fuel root s ≡ some s')
    × (get_elem? s'.signals_queue n ≡ some x)

module _ {V : Type 0} (h : Heap) (w : World V) where
  sent-IsHarmless : (x : Message V) → IsSent h w x → IsHarmless h w x.event_type
  sent-IsHarmless x (accepts, logger, id, fuel, root, s, s', n, empty, runs, there) =
      All-get_elem? (λ y. IsHarmless h w y.event_type) s'.signals_queue n x
        (run-Sends h w accepts logger id fuel root s (subst (λ q. AllHarmless h w q) (sym empty) tt)
          s' runs)
        there

  -- Whatever wrappers send while they run pipelines of a batch, failing ones included, in whatever order and at whatever times the monitor takes it from the queue: the monitor handles all of it, and its number of failed pipelines stays what it was.
  pub failures_uncounted :
      (xs : List (ℕ × Message V)) (m : Monitor)
      → All (λ x. IsSent h w x.1) xs
      → (m' : Monitor) × (handle_messages h w xs m ≡ some m')
        × (m'.metrics.failed ≡ m.metrics.failed)
  unfolding handle_messages handle_wrapper_lifecycle_event
  failures_uncounted [] m sent = (m, refl, refl)
  failures_uncounted (x ∷ xs) m (one, others) =
      let (m1, first, same) =
        handle-IsHarmless h w x.1.pipeline_id x.0 x.1.event_type m (sent-IsHarmless x.1 one) in
      let (m2, rest, still) = failures_uncounted xs m1 others in
      (m2, rw (first, handle_messages) rest, still ∙ same)
