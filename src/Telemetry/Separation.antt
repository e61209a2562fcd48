-- ===== src/Telemetry/Separation.antt =====
-- The logger of batches and the standard logger (nexus/telemetry/logger.py).
use event_pipeline.Prelude.{
  ℕ, ◌+◌, ◌≡◌, ◌⊎◌, refl, sym, ap, subst, ◌∙◌, String, Option, none, some, List, [], ◌∷◌, ◌==◌,
  if◌then◌else◌, inl, inr, Bool-cases, Option-cases, comparable_string,
}
use event_pipeline.Prelude.Dict.{lookup, insert, lookup-insert}
use event_pipeline.ResultSet.{
  ResultSet, Got, got, missed, key_error, multi_value_error, empty, add, get,
}
use event_pipeline.Telemetry.{EventMetrics, TelemetryLogger, id_of, type_of, matching, finished}
use event_pipeline.Telemetry
use event_pipeline.Telemetry.Batches.{
  BatchLogger, comparable_id, set_of, with_metric, start_event, end_event, record_retry,
}

-- A call of a logger, with the pipeline that it is about.
pub data Call : Type 0 where
  starts : EventMetrics → Call
  ends :
      (task_id name : String) (error : Option String) (now : ℕ) (pipeline_id : Option String) → Call
  retries : (task_id name : String) (pipeline_id : Option String) → Call

abbrev pub about : Call → Option String
about (starts m) = m.pipeline_id
about (ends task_id name error now pipeline_id) = pipeline_id
about (retries task_id name pipeline_id) = pipeline_id

module _ {P : Type 0} where
  -- The state after a call; an exception leaves what was there.
  abbrev pub call : Call → BatchLogger P → BatchLogger P
  call (starts m) s = start_event m s
  call (ends task_id name error now pipeline_id) s =
      (end_event task_id name error now pipeline_id s).1
  call (retries task_id name pipeline_id) s = (record_retry task_id name pipeline_id s).1

  abbrev pub standard_call : Call → TelemetryLogger P → TelemetryLogger P
  standard_call (starts m) t = Telemetry.start_event m t
  standard_call (ends task_id name error now pipeline_id) t =
      (Telemetry.end_event task_id name error now t).1
  standard_call (retries task_id name pipeline_id) t = (Telemetry.record_retry task_id name t).1

  abbrev pub calls : List Call → BatchLogger P → BatchLogger P
  calls [] s = s
  calls (c ∷ cs) s = calls cs (call c s)

  abbrev pub standard_calls : List Call → TelemetryLogger P → TelemetryLogger P
  standard_calls [] t = t
  standard_calls (c ∷ cs) t = standard_calls cs (standard_call c t)

abbrev pub only : Option String → List Call → List Call
only pipeline_id [] = []
only pipeline_id (c ∷ cs) =
    if about c == pipeline_id then c ∷ only pipeline_id cs else only pipeline_id cs

abbrev changed_by :
    Got EventMetrics
    → (EventMetrics → EventMetrics)
    → ResultSet EventMetrics String
    → ResultSet EventMetrics String
changed_by (missed e) change set = set
changed_by (got m) change set = with_metric set (change m)

-- What a call does to the metrics of its pipeline.
abbrev effect : Call → ResultSet EventMetrics String → ResultSet EventMetrics String
effect (starts m) set = add id_of type_of m set
effect (ends task_id name error now pipeline_id) set =
    changed_by (get id_of type_of (matching name task_id) set) (finished error now) set
effect (retries task_id name pipeline_id) set =
    changed_by (get id_of type_of (matching name task_id) set)
      (λ m. record m { retry_count = m.retry_count + 1 }) set

Got-cases :
    {R : Type 0} (g : Got R)
    → (g ≡ missed key_error) ⊎ ((g ≡ missed multi_value_error) ⊎ ((r : R) × (g ≡ got r)))
Got-cases (missed key_error) = inl refl
Got-cases (missed multi_value_error) = inr (inl refl)
Got-cases (got r) = inr (inr (r, refl))

module _ {P : Type 0} where
  set_of-insert :
      (a q : Option String) (set : ResultSet EventMetrics String) (s : BatchLogger P)
      → set_of q (record s { metrics = insert a set s.metrics })
        ≡ (if a == q then set else set_of q s)
  set_of-insert a q set s =
      ap
        (λ (o : Option (ResultSet EventMetrics String)).
          let r : ResultSet EventMetrics String = elim o [ none ↦ empty | some x ↦ x ] in r)
        (lookup-insert a q set s.metrics)
      ∙ elim (Bool-cases (a == q)) [ inl same ↦ rw same refl | inr other ↦ rw other refl ]

  standard_call-effect :
      (c : Call) (t : TelemetryLogger P) → (standard_call c t).metrics ≡ effect c t.metrics
  unfolding Telemetry.start_event Telemetry.end_event Telemetry.record_retry
  standard_call-effect (starts m) t = refl
  standard_call-effect (ends task_id name error now pipeline_id) t =
      elim (Got-cases (get id_of type_of (matching name task_id) t.metrics)) [
        | inl e ↦ rw (e, standard_call, Telemetry.end_event) refl
        | inr r ↦ elim r [
          | inl e ↦ rw (e, standard_call, Telemetry.end_event) refl
          | inr (m, e) ↦ rw (e, standard_call, Telemetry.end_event) refl
        ]
      ]
  standard_call-effect (retries task_id name pipeline_id) t =
      elim (Got-cases (get id_of type_of (matching name task_id) t.metrics)) [
        | inl e ↦ rw (e, standard_call, Telemetry.record_retry) refl
        | inr r ↦ elim r [
          | inl e ↦ rw (e, standard_call, Telemetry.record_retry) refl
          | inr (m, e) ↦ rw (e, standard_call, Telemetry.record_retry) refl
        ]
      ]

  -- A call that leaves the metrics of its pipeline alone, and one that writes them.
  kept :
      (c : Call) (q : Option String) (s : BatchLogger P)
      → effect c (set_of (about c) s) ≡ set_of (about c) s
      → set_of q s ≡ (if about c == q then effect c (set_of q s) else set_of q s)
  kept c q s same = elim (Bool-cases (about c == q)) [
    | inl here ↦ rw here (
        sym (
          subst (λ a. effect c (set_of a s) ≡ set_of a s)
            ((comparable_id.equals_iff (about c) q).0 here) same))
    | inr other ↦ rw other refl
  ]

  written :
      (c : Call) (q : Option String) (s : BatchLogger P) (set : ResultSet EventMetrics String)
      → effect c (set_of (about c) s) ≡ set
      → set_of q (record s { metrics = insert (about c) set s.metrics })
        ≡ (if about c == q then effect c (set_of q s) else set_of q s)
  written c q s set same = set_of-insert (about c) q set s ∙ elim (Bool-cases (about c == q)) [
    | inl here ↦ rw here (
        sym (
          subst (λ a. effect c (set_of a s) ≡ set) ((comparable_id.equals_iff (about c) q).0 here)
            same))
    | inr other ↦ rw other refl
  ]

  call-effect :
      (c : Call) (q : Option String) (s : BatchLogger P)
      → set_of q (call c s) ≡ (if about c == q then effect c (set_of q s) else set_of q s)
  unfolding start_event end_event record_retry
  call-effect (starts m) q s =
      written (starts m) q s (add id_of type_of m (set_of m.pipeline_id s)) refl
  call-effect (ends task_id name error now a) q s = elim (Option-cases (lookup a s.metrics)) [
    | inl absent ↦
        rw (absent, call, end_event)
          (kept (ends task_id name error now a) q s (rw (absent, set_of) refl))
    | inr (set, found) ↦ elim (Got-cases (get id_of type_of (matching name task_id) set)) [
      | inl e ↦
          rw (found, call, end_event)
            (rw (e, call, end_event)
              (kept (ends task_id name error now a) q s (rw (found, set_of) (rw e refl))))
      | inr r ↦ elim r [
        | inl e ↦
            rw (found, call, end_event)
              (rw (e, call, end_event)
                (kept (ends task_id name error now a) q s (rw (found, set_of) (rw e refl))))
        | inr (m, e) ↦
            rw (found, call, end_event)
              (rw (e, call, end_event)
                (written (ends task_id name error now a) q s
                  (with_metric set (finished error now m)) (rw (found, set_of) (rw e refl))))
      ]
    ]
  ]
  call-effect (retries task_id name a) q s = elim (Option-cases (lookup a s.metrics)) [
    | inl absent ↦
        rw (absent, call, record_retry)
          (kept (retries task_id name a) q s (rw (absent, set_of) refl))
    | inr (set, found) ↦ elim (Got-cases (get id_of type_of (matching name task_id) set)) [
      | inl e ↦
          rw (found, call, record_retry)
            (rw (e, call, record_retry)
              (kept (retries task_id name a) q s (rw (found, set_of) (rw e refl))))
      | inr r ↦ elim r [
        | inl e ↦
            rw (found, call, record_retry)
              (rw (e, call, record_retry)
                (kept (retries task_id name a) q s (rw (found, set_of) (rw e refl))))
        | inr (m, e) ↦
            rw (found, call, record_retry)
              (rw (e, call, record_retry)
                (written (retries task_id name a) q s
                  (with_metric set (record m { retry_count = m.retry_count + 1 }))
                  (rw (found, set_of) (rw e refl))))
      ]
    ]
  ]

  -- The metrics that the logger of batches keeps for a pipeline, after any calls, are those of a
  -- standard logger that had the same metrics and got, in the same order, only the calls about this
  -- pipeline.
  pub calls_separate :
      (q : Option String) (cs : List Call) (s : BatchLogger P) (t : TelemetryLogger P)
      → t.metrics ≡ set_of q s
      → set_of q (calls cs s) ≡ (standard_calls (only q cs) t).metrics
  calls_separate q [] s t same = sym same
  calls_separate q (c ∷ cs) s t same = elim (Bool-cases (about c == q)) [
    | inl here ↦ rw here (
        calls_separate q cs (call c s) (standard_call c t)
          (standard_call-effect c t ∙ ap (effect c) same ∙ sym (call-effect c q s ∙ rw here refl)))
    | inr other ↦
        rw other (calls_separate q cs (call c s) t (same ∙ sym (call-effect c q s ∙ rw other refl)))
  ]
