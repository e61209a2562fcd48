-- ===== src/Wrapper/Failures.antt =====
-- A wrapper (nexus/pipeline_wrapper.py) whose pipeline has failed.
use event_pipeline.Prelude.{
  ℕ, zero, suc, ◌≡◌, ◌⊎◌, refl, sym, subst, ◌∙◌, String, Bool, true, false, Option, none, some,
  some_inj, List, get_elem?, length, arith, inl, inr, Option-cases, ◌<◌, lt-of-get_elem?,
}
use event_pipeline.Task.{Heap}
use event_pipeline.Context.{Context, execution_failed}
use event_pipeline.Execution.{World}
use event_pipeline.Pipeline.{
  Pipeline, started, start, get_latest_execution_context, follow_next, get_execution_context_head,
}
use event_pipeline.Wrapper.{
  Message, PipelineWrapper, Search, found, no_task, send, report_failure, after_start,
  handle_pipeline_execution, finish, run, get_first_error_execution_node, pipeline_execution_start,
  wrapper_started, running, initializing,
}

missing : {l : ℕ} → none ≡ some l → ⊥
missing e = cc

false_not_true : false ≡ true → ⊥
false_not_true e = cc

module _ {V : Type 0} (h : Heap) (w : World V) (cs : List (Context V)) where
  -- A search that stops: at a context that failed, or in an AttributeError.
  abbrev Stops : Search → Type 0
  Stops x = ((i : ℕ) × (x ≡ found (some i))) ⊎ (x ≡ no_task)

  still_fails :
      (i l : ℕ) (d c : Context V)
      → some i ≡ some l
      → get_elem? cs i ≡ some d
      → get_elem? cs l ≡ some c
      → execution_failed h w.evaluation d ≡ some false
      → execution_failed h w.evaluation c ≡ some true
      → ⊥
  still_fails i l d c same here there fine fails =
      let one : d ≡ c =
        some_inj (sym here ∙ subst (λ k. get_elem? cs k ≡ some c) (sym (some_inj same)) there) in
      false_not_true (
        some_inj
          (sym fine ∙ subst (λ k. execution_failed h w.evaluation k ≡ some true) (sym one) fails))

  search-Stops :
      (fuel i l : ℕ) (c : Context V)
      → follow_next fuel cs i ≡ some l
      → get_elem? cs l ≡ some c
      → execution_failed h w.evaluation c ≡ some true
      → Stops (get_first_error_execution_node h w (suc fuel) cs (some i))
  unfolding get_first_error_execution_node follow_next
  search-Stops zero i l c walk there fails = absurd (missing walk)
  search-Stops (suc fuel) i l c walk there fails = elim (Option-cases (get_elem? cs i)) [
    | inl lost ↦ absurd (missing (rw (lost, follow_next) at walk))
    | inr (d, here) ↦
        let on = (rw (here, follow_next) at walk) in
        rw (here, get_first_error_execution_node)
          (elim (Option-cases (execution_failed h w.evaluation d)) [
            | inl raises ↦ rw raises (inr refl)
            | inr (true, failed) ↦ rw failed (inl (i, refl))
            | inr (false, fine) ↦ rw fine (elim (Option-cases d.next_context) [
              | inl last ↦ absurd (still_fails i l d c (rw last at on) here there fine fails)
              | inr (n, next) ↦ rw next (search-Stops fuel n l c (rw next at on) there fails)
            ])
          ])
  ]

  first_is_head :
      (fuel i : ℕ) (d : Context V)
      → zero < fuel
      → get_elem? cs i ≡ some d
      → d.previous_context ≡ none
      → get_execution_context_head fuel cs i ≡ some i
  unfolding get_execution_context_head
  first_is_head zero i d room here first = absurd (omega arith)
  first_is_head (suc fuel) i d room here first =
      rw (here, get_execution_context_head) (rw first refl)

module _ {V : Type 0} (h : Heap) (w : World V) (accepts : Message V → Bool) (id fuel root : ℕ) where
  -- A run with a logger that ends with an exception of this class.
  abbrev Raises : String → Option (PipelineWrapper V) → Type 0
  Raises t o = (s' : PipelineWrapper V) × (o ≡ some s') × (s'.exception ≡ some t)

  report_failure-Raises :
      (x : Search) (s : PipelineWrapper V)
      → ((i : ℕ) × (x ≡ found (some i))) ⊎ (x ≡ no_task)
      → Raises "AttributeError" (report_failure h w accepts true id fuel root x s)
  report_failure-Raises x s (inl (i, e)) = rw e (_, refl, refl)
  report_failure-Raises x s (inr e) = rw e (_, refl, refl)

  after_start-Raises :
      (i l : ℕ) (d c : Context V) (s : PipelineWrapper V)
      → get_elem? s.pipeline.contexts i ≡ some d
      → d.previous_context ≡ none
      → get_latest_execution_context s.pipeline.contexts i ≡ some l
      → get_elem? s.pipeline.contexts l ≡ some c
      → execution_failed h w.evaluation c ≡ some true
      → Raises "AttributeError" (after_start h w accepts true id fuel root (started (some i)) s)
  unfolding after_start get_latest_execution_context
  after_start-Raises i l d c s here first latest there fails =
      let cs = s.pipeline.contexts in
      let bound = lt-of-get_elem? cs i here in
      let head = first_is_head h w cs (length cs) i d (omega arith) here first in
      let walk : follow_next (length cs) cs i ≡ some l =
        (rw (head, get_latest_execution_context) at latest) in
      rw (latest, after_start)
        (rw there (
          rw fails (
            report_failure-Raises (get_first_error_execution_node h w (suc (length cs)) cs (some i))
              s (search-Stops h w cs (length cs) i l c walk there fails))))

  -- When `start` returns the first context of a chain whose latest context has failed, the run of a wrapper with a logger ends with an AttributeError, which is about the report of the failure and not about the pipeline.
  pub failure_hidden :
      (i l : ℕ) (d c : Context V) (p : Pipeline V) (s : PipelineWrapper V)
      → start h w fuel root true s.pipeline ≡ some (started (some i), p)
      → get_elem? p.contexts i ≡ some d
      → d.previous_context ≡ none
      → get_latest_execution_context p.contexts i ≡ some l
      → get_elem? p.contexts l ≡ some c
      → execution_failed h w.evaluation c ≡ some true
      → (s' : PipelineWrapper V) × (run h w accepts true id fuel root s ≡ some s')
        × (s'.exception ≡ some "AttributeError")
  unfolding run handle_pipeline_execution
  failure_hidden i l d c p s ends here first latest there fails =
      let s1 : PipelineWrapper V =
        send accepts id wrapper_started (record s { execution_state = initializing }) in
      let s2 : PipelineWrapper V =
        send accepts id pipeline_execution_start (record s1 { execution_state = running }) in
      let (s3, after, raises) =
        after_start-Raises i l d c (record s2 { pipeline = p }) here first latest there fails in
      let handled : handle_pipeline_execution h w accepts true id fuel root s1 ≡ some s3 =
        rw (ends, handle_pipeline_execution) after in
      (finish h w accepts true id fuel root s3, rw (handled, run) refl, raises)
