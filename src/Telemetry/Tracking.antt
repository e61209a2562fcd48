-- ===== src/Telemetry/Tracking.antt =====
-- The tracking of an event (nexus/telemetry/logger.py).
use event_pipeline.Prelude.{
  ℕ, ◌≡◌, refl, ◌∙◌, ap, String, false, Option, some, List, [], ◌∷◌, ◌++◌, map, ◌==◌,
  comparable_string, if◌then◌else◌, any, filterb, arith, ==_refl,
}
use event_pipeline.Prelude.Dict.{lookup, insert, has, values, lookup-insert}
use event_pipeline.ResultSet.{got, missed, key_error, add, get, only}
use event_pipeline.ResultSet.Filtered.{
  IsIndexed, get-only, values-insert, insert-IsIndexed, filterb_none, filterb-append,
}
use event_pipeline.Telemetry.{
  EventMetrics, TelemetryLogger, returned, no_result_found, matching, finished, id_of, type_of,
  start_event, end_event, put, publish,
}

module _ {P : Type 0} (m : EventMetrics) (s : TelemetryLogger P)
    (indexed : IsIndexed id_of type_of s.metrics.content)
    (new_id : has m.id s.metrics.content ≡ false)
    (untracked : any (matching m.event_name m.task_id) (values s.metrics.content) ≡ false) where
  -- Before `start_event` nothing is found.
  get_before : get id_of type_of (matching m.event_name m.task_id) s.metrics ≡ missed key_error
  get_before =
      get-only id_of type_of (matching m.event_name m.task_id) s.metrics indexed
      ∙ ap (only id_of type_of)
          (filterb_none (matching m.event_name m.task_id) (values s.metrics.content) untracked)

  matches_itself : filterb (matching m.event_name m.task_id) (m ∷ []) ≡ m ∷ []
  matches_itself = rw (==_refl m.event_name) (rw (==_refl m.task_id) refl)

  only_match :
      filterb (matching m.event_name m.task_id) (values s.metrics.content ++ m ∷ []) ≡ m ∷ []
  only_match =
      filterb-append (matching m.event_name m.task_id) (values s.metrics.content) (m ∷ [])
      ∙ ap (λ (ms : List EventMetrics). ms ++ filterb (matching m.event_name m.task_id) (m ∷ []))
          (filterb_none (matching m.event_name m.task_id) (values s.metrics.content) untracked)
      ∙ matches_itself

  -- After it the new metric is.
  get_after : get id_of type_of (matching m.event_name m.task_id) (start_event m s).metrics ≡ got m
  unfolding start_event add
  get_after =
      get-only id_of type_of (matching m.event_name m.task_id) (start_event m s).metrics
        (insert-IsIndexed id_of type_of m s.metrics.content new_id indexed)
      ∙ ap
          (λ (ms : List EventMetrics).
            only id_of type_of (filterb (matching m.event_name m.task_id) ms))
          (values-insert m.id m s.metrics.content new_id)
      ∙ ap (only id_of type_of) only_match

  -- Where every metric stands under its id and none is yet of this event and task, `end_event` changes nothing and lets the KeyError of `get` out. After `start_event` of a metric with a new id it returns: the metric has its end time, the error and the status that goes with it, every other metric is as before, and every publisher was called with the metric.
  pub end_event_lem :
      (error : Option String) (now : ℕ)
      → (end_event m.task_id m.event_name error now s ≡ (no_result_found, s))
        × (s' : TelemetryLogger P) × (end_event m.task_id m.event_name error now (start_event m s)
            ≡ (returned, s'))
        × ((j : String)
            → lookup j s'.metrics.content
              ≡ (if m.id == j then some (finished error now m) else lookup j s.metrics.content))
        × (s'.published ≡ s.published ++ map (λ p. (p, finished error now m)) s.publishers)
  unfolding end_event start_event add
  end_event_lem error now = (
    rw (get_before, end_event) refl,
    publish (finished error now m) (put (finished error now m) (start_event m s)),
    rw (get_after, end_event) refl,
    λ j. grind (
      arith,
      lookup-insert m.id j (finished error now m) (insert m.id m s.metrics.content),
      lookup-insert m.id j m s.metrics.content,
    ),
    refl,
  )
