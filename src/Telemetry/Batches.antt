-- ===== src/Telemetry/Batches.antt =====
-- nexus/telemetry/logger.py: DefaultBatchTelemetryLogger, which keeps a ResultSet of metrics for each
-- pipeline.
use event_pipeline.Prelude.{
  ℕ, ◌+◌, ◌≡◌, ◌↔◌, String, Bool, true, false, Option, none, some, List, ◌++◌, map, ◌==◌,
  Comparable, comparable_string, arith,
}
use event_pipeline.Prelude.Dict.{Dict, lookup, insert}
use event_pipeline.ResultSet.{ResultSet, got, missed, key_error, multi_value_error, empty, add, get}
use event_pipeline.Telemetry.{
  EventMetrics, Ended, returned, no_result_found, more_than_one_result, id_of, type_of, matching,
  finished,
}

abbrev pub same_id : Option String → Option String → Bool
same_id none none = true
same_id (some a) (some b) = a == b
same_id a b = false

pub same_id_iff : (a b : Option String) → (same_id a b ≡ true) ↔ (a ≡ b)
same_id_iff none none = ground arith
same_id_iff none (some b) = ground arith
same_id_iff (some a) none = ground arith
same_id_iff (some a) (some b) = ground (arith, comparable_string.equals_iff a b)

instance abbrev pub comparable_id : Comparable (Option String)
comparable_id = record { equals = same_id; equals_iff = same_id_iff }

-- The metrics of the pipelines by their ids, which may be None.
pub record BatchLogger (P : Type 0) : Type 0 where
  pub metrics : Dict (Option String) (ResultSet EventMetrics String)
  pub publishers : List P
  pub published : List (P × EventMetrics)

-- How record_retry ends for a pipeline that is not there, with the other ends.
pub data BatchEnded : Type 0 where
  ended : Ended → BatchEnded
  no_such_pipeline : BatchEnded

abbrev pub set_of : {P : Type 0} → Option String → BatchLogger P → ResultSet EventMetrics String
set_of pipeline_id s = elim (lookup pipeline_id s.metrics) [ none ↦ empty | some set ↦ set ]

abbrev pub with_metric :
    ResultSet EventMetrics String → EventMetrics → ResultSet EventMetrics String
with_metric set m = record set { content = insert m.id m set.content }

module _ {P : Type 0} where
  -- start_event, for a metric that was made from its arguments
  unfoldable pub start_event : EventMetrics → BatchLogger P → BatchLogger P
  unfolding add
  start_event m s = record s {
    metrics = insert m.pipeline_id (add id_of type_of m (set_of m.pipeline_id s)) s.metrics;
  }

  abbrev pub ended_with :
      Option String → ResultSet EventMetrics String → EventMetrics → BatchLogger P → BatchLogger P
  ended_with pipeline_id set m s = record s {
    metrics = insert pipeline_id (with_metric set m) s.metrics;
    published = s.published ++ map (λ p. (p, m)) s.publishers;
  }

  -- end_event; no exception of `get` is an ObjectDoesNotExist.
  unfoldable pub end_event :
      (task_id name : String) (error : Option String) (now : ℕ) (pipeline_id : Option String)
      → BatchLogger P
      → BatchEnded × BatchLogger P
  unfolding get
  end_event task_id name error now pipeline_id s = elim (lookup pipeline_id s.metrics) [
    | none ↦ (ended returned, s)
    | some set ↦ elim (get id_of type_of (matching name task_id) set) [
      | missed e ↦ elim e [
        | key_error ↦ (ended no_result_found, s)
        | multi_value_error ↦ (ended more_than_one_result, s)
      ]
      | got m ↦ (ended returned, ended_with pipeline_id set (finished error now m) s)
    ]
  ]

  unfoldable pub record_retry :
      (task_id name : String) (pipeline_id : Option String)
      → BatchLogger P
      → BatchEnded × BatchLogger P
  unfolding get
  record_retry task_id name pipeline_id s = elim (lookup pipeline_id s.metrics) [
    | none ↦ (no_such_pipeline, s)
    | some set ↦ elim (get id_of type_of (matching name task_id) set) [
      | missed e ↦ elim e [
        | key_error ↦ (ended no_result_found, s)
        | multi_value_error ↦ (ended more_than_one_result, s)
      ]
      | got m ↦ (
        ended returned,
        record s {
          metrics =
              insert pipeline_id (with_metric set (record m { retry_count = m.retry_count + 1 }))
                s.metrics;
        },
      )
    ]
  ]
