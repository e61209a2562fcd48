-- ===== src/Wrapper/Reports.antt =====
-- What a wrapper (nexus/pipeline_wrapper.py) reports of the pipeline that it runs.
use event_pipeline.Prelude.{
  ℕ, zero, suc, ◌+◌, ◌*◌, ◌^◌, ◌<◌, ◌≡◌, ◌⊎◌, refl, sym, ap, ◌∙◌, String, Bool, true, false, Option,
  none, some, List, [], ◌∷◌, ◌++◌, length, is_some, arith, inl, inr, Option-cases, Bool-cases,
  get_elem?-of_lt,
}
use event_pipeline.Ast.{Ast}
use event_pipeline.Task.{Heap}
use event_pipeline.Task.Build.{ok, build_pipeline}
use event_pipeline.Context.{Context, execution_failed}
use event_pipeline.Execution.{World}
use event_pipeline.Pipeline.{Pipeline, Started, started, event_done, raised}
use event_pipeline.Pipeline.Links.{IsLinked}
use event_pipeline.Pipeline.Walks.{walk_ends}
use event_pipeline.Pipeline.Lifecycle.{IsWellFormed, Signalled, start_ends}
use event_pipeline.Wrapper.{
  Lifecycle, PipelineExecutionState, Message, PipelineWrapper, Search, found, no_task,
  wrapper_started, pipeline_execution_start, pipeline_execution_end, wrapper_failed,
  wrapper_finished, put, send, initializing, running, completed, failed, finished, name_of,
  report_failure, by_failure, after_start, handle_pipeline_execution, finish, run,
  get_first_error_execution_node,
}

module _ {V : Type 0} (h : Heap) (w : World V) (cs : List (Context V)) where
  -- The search for a context that failed ends, with a context or with none, or in an AttributeError.
  search_ends :
      IsLinked cs
      → (fuel i : ℕ) → length cs < i + fuel
      → i < length cs
      → ((o : Option ℕ) × (get_first_error_execution_node h w fuel cs (some i) ≡ found o))
        ⊎ (get_first_error_execution_node h w fuel cs (some i) ≡ no_task)
  unfolding get_first_error_execution_node
  search_ends linked zero i room inside = absurd (omega arith)
  search_ends linked (suc zero) i room inside = absurd (omega arith)
  search_ends linked (suc (suc fuel)) i room inside =
      let (c, there) = get_elem?-of_lt cs i inside in
      rw (there, get_first_error_execution_node)
        (elim (Option-cases (execution_failed h w.evaluation c)) [
          | inl raises ↦ rw raises (inr refl)
          | inr (true, fails) ↦ rw fails (inl (some i, refl))
          | inr (false, fine) ↦ rw fine (elim (Option-cases c.next_context) [
            | inl last ↦ rw last (inl (none, refl))
            | inr (n, on) ↦
                let newer = (rw on at (linked i c there).1) in
                rw on (search_ends linked (suc fuel) n (omega arith) newer.1)
          ])
        ])

module _ {V : Type 0} (accepts : Message V → Bool) where
  -- The queue after messages were put one after the other.
  abbrev pub put_all : List (Message V) → List (Message V) → List (Message V)
  put_all [] q = q
  put_all (m ∷ ms) q = put_all ms (put accepts m q)

  put_all-append :
      (ms : List (Message V)) (m : Message V) (q : List (Message V))
      → put_all (ms ++ m ∷ []) q ≡ put accepts m (put_all ms q)
  put_all-append [] m q = refl
  put_all-append (x ∷ ms) m q = put_all-append ms m (put accepts x q)

started_inj : {a b : Option ℕ} → started a ≡ started b → a ≡ b
started_inj e = cc e

module _ {V : Type 0} (id : ℕ) where
  abbrev pub message : PipelineExecutionState → Lifecycle V → Message V
  message s e = record { event_type = e; pipeline_id = id; execution_state = s }

  -- The report of a pipeline, beside the exception that is returned: its end, a failure of the
  -- wrapper with that exception, or nothing.
  abbrev pub IsReport : List (Message V) → Option String → Type 0
  IsReport ms e =
      ((cs : List (Context V)) × (o : Option ℕ) × (ms
          ≡ message completed (pipeline_execution_end cs o) ∷ [])
        × (e ≡ none))
      ⊎ ((t : String) × (ms ≡ message failed (wrapper_failed t) ∷ []) × (e ≡ some t))
      ⊎ ((ms ≡ []) × (e ≡ none))

module _ {V : Type 0} (h : Heap) (w : World V) (accepts : Message V → Bool) (logger : Bool)
    (id fuel root : ℕ) where
  -- A step of a wrapper ends and puts a report on the queue.
  abbrev Reported : Option (PipelineWrapper V) → List (Message V) → Type 0
  Reported o q =
      (s' : PipelineWrapper V) × (ms : List (Message V)) × (o ≡ some s')
      × IsReport id ms s'.exception
      × (s'.signals_queue ≡ put_all accepts ms q)

  fails :
      (t : String) (s : PipelineWrapper V)
      → Reported
          (some (
            send accepts id
              (wrapper_failed t)
              (record s { exception = some t; execution_state = failed })))
          s.signals_queue
  fails t s = (_, _, refl, inr (inl (t, refl, refl)), refl)

  report_failure-Reported :
      (x : Search) (s : PipelineWrapper V)
      → s.exception ≡ none
      → ((o : Option ℕ) × (x ≡ found o)) ⊎ (x ≡ no_task)
      → Reported (report_failure h w accepts logger id fuel root x s) s.signals_queue
  report_failure-Reported x s clear (inr e) = rw e (fails "AttributeError" s)
  report_failure-Reported x s clear (inl (none, e)) =
      rw e (_, [], refl, inr (inr (refl, clear)), refl)
  report_failure-Reported x s clear (inl (some i, e)) = rw e (elim (Bool-cases logger) [
    | inl with_logger ↦ rw with_logger (fails "AttributeError" s)
    | inr without ↦ rw without (_, [], refl, inr (inr (refl, clear)), refl)
  ])

  by_failure-Reported :
      (i : ℕ) (verdict : Option Bool) (s : PipelineWrapper V)
      → s.exception ≡ none
      → IsLinked s.pipeline.contexts
      → i < length s.pipeline.contexts
      → Reported (by_failure h w accepts logger id fuel root i verdict s) s.signals_queue
  by_failure-Reported i none s clear linked inside = fails "AttributeError" s
  by_failure-Reported i (some true) s clear linked inside =
      let cs = s.pipeline.contexts in
      report_failure-Reported (get_first_error_execution_node h w (suc (length cs)) cs (some i)) s
        clear (search_ends h w cs linked (suc (length cs)) i (omega arith) inside)
  by_failure-Reported i (some false) s clear linked inside =
      (_, _, refl, inl (s.pipeline.contexts, some i, refl, clear), refl)

  after_start-Reported :
      (o : Started) (s : PipelineWrapper V)
      → s.exception ≡ none
      → IsWellFormed s.pipeline
      → ((c : Option ℕ) → o ≡ started c → c ≡ s.pipeline.execution_context)
      → Reported (after_start h w accepts logger id fuel root o s) s.signals_queue
  unfolding after_start
  after_start-Reported event_done s clear well same = fails "EventDone" s
  after_start-Reported (raised e) s clear well same = fails (name_of e) s
  after_start-Reported (started none) s clear well same =
      (_, _, refl, inl (s.pipeline.contexts, none, refl, clear), refl)
  after_start-Reported (started (some i)) s clear (linked, inside) same =
      let here : i < length s.pipeline.contexts = (rw (sym (same (some i) refl)) at inside) in
      let (l, latest, bound, (c, there, last)) = walk_ends s.pipeline.contexts linked i here in
      rw (latest, after_start)
        (rw there (by_failure-Reported i (execution_failed h w.evaluation c) s clear linked here))

module _ {V : Type 0} (x : Ast) (root : ℕ) (h : Heap) (w : World V)
    (built : build_pipeline x ≡ ok (root, h)) (accepts : Message V → Bool) (logger : Bool)
    (id : ℕ) where
  abbrev enough : ℕ
  enough = 8 * 2 ^ length h

  returned_context :
      (p : Pipeline V) (o : Started) (p' : Pipeline V)
      → Signalled p (o, p')
      → (c : Option ℕ) → o ≡ started c
      → c ≡ p'.execution_context
  returned_context p event_done p' sig c e = cc
  returned_context p (raised t) p' sig c e = cc
  returned_context p (started d) p' sig c e = started_inj (sym e) ∙ sig.0

  handle_pipeline_execution-Reported :
      (s : PipelineWrapper V)
      → s.exception ≡ none
      → IsWellFormed s.pipeline
      → Reported h w accepts logger id enough root
          (handle_pipeline_execution h w accepts logger id enough root s)
          (put accepts (message id running pipeline_execution_start) s.signals_queue)
  unfolding handle_pipeline_execution
  handle_pipeline_execution-Reported s clear well =
      let (o, p', ends, after, sig) = start_ends x root h w built true s.pipeline well in
      rw (ends, handle_pipeline_execution)
        (after_start-Reported h w accepts logger id enough root o
          (record (send accepts id pipeline_execution_start
            (record s { execution_state = running })) { pipeline = p' })
          clear after (returned_context s.pipeline o p' sig))

  -- On a script that builds, a wrapper that has no exception yet always ends its run of a well-formed pipeline, in the state finished. It has put on the queue, each with the state of that moment, that it started, that the pipeline starts, a report, and that it finished, with whether it returns an exception; the report is the end of the pipeline, or a failure of the wrapper with the exception that it returns, or nothing. It returns an exception only with such a failure.
  pub run_reports :
      (s : PipelineWrapper V)
      → s.exception ≡ none
      → IsWellFormed s.pipeline
      → (s' : PipelineWrapper V) × (report : List (Message V)) × (run h w accepts logger id enough
            root s
          ≡ some s')
        × (s'.execution_state ≡ finished)
        × IsReport id report s'.exception
        × (s'.signals_queue
            ≡ put_all accepts
                (message id initializing wrapper_started
                    ∷ message id running pipeline_execution_start
                    ∷ report
                  ++ message id finished (wrapper_finished (is_some s'.exception)) ∷ [])
                s.signals_queue)
  unfolding run
  run_reports s clear well =
      let s1 : PipelineWrapper V =
        send accepts id wrapper_started (record s { execution_state = initializing }) in
      let (s2, ms, ends, report, queue) = handle_pipeline_execution-Reported s1 clear well in
      let last : Message V = message id finished (wrapper_finished (is_some s2.exception)) in
      (
        finish h w accepts logger id enough root s2,
        ms,
        rw (ends, run) refl,
        refl,
        report,
        ap (put accepts last) queue ∙ sym (put_all-append accepts ms last _),
      )
