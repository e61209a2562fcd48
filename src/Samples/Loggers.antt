-- ===== src/Samples/Loggers.antt =====
-- Tests of the telemetry logger.
use event_pipeline.Prelude.{ℕ, String, ◌≡◌, refl, none, some, List, [], ◌∷◌, comparable_string}
use event_pipeline.Prelude.Dict.{lookup, insert}
use event_pipeline.ResultSet.{get, filter, of_list, add}
use event_pipeline.Telemetry.{
  EventMetrics, TelemetryLogger, returned, no_result_found, new_metrics, new_logger, add_publisher,
  start_event, record_retry, finished,
}
use event_pipeline.Telemetry.Batches
use event_pipeline.Telemetry.Batches.{BatchLogger, set_of}
use event_pipeline.Telemetry.Separation.{
  Call, starts, ends, retries, calls, standard_calls, calls_separate,
}

abbrev metric : EventMetrics
metric = new_metrics "m1" "Fetch" "task" none none 3

-- A logger with one publisher.
abbrev logger : TelemetryLogger ℕ
logger = add_publisher 1 new_logger

retried : (record_retry "task" "Fetch" (start_event metric logger)).0 ≡ returned
unfolding record_retry start_event get filter of_list add insert
retried = refl

retried_too_early : record_retry "task" "Fetch" logger ≡ (no_result_found, logger)
unfolding record_retry get filter of_list
retried_too_early = refl

abbrev batch_logger : BatchLogger ℕ
batch_logger = record { metrics = []; publishers = 1 ∷ []; published = [] }

abbrev metric_of : String → String → EventMetrics
metric_of id pipeline = new_metrics id "Fetch" "task" none (some pipeline) 3

-- Two pipelines of a batch run the same event, with the same name and task.
abbrev mixed : List Call
mixed =
    starts (metric_of "m1" "p1")
    ∷ starts (metric_of "m2" "p2")
    ∷ ends "Fetch" "task" none 7 (some "p2")
    ∷ ends "task" "Fetch" none 8 (some "p1")
    ∷ retries "task" "Fetch" (some "p3")
    ∷ []

first_completed : set_of (some "p1") (calls mixed batch_logger) ≡ record {
  content = ("m1", finished none 8 (metric_of "m1" "p1")) ∷ [];
  context_types = "EventMetrics" ∷ [];
}
unfolding Batches.start_event Batches.end_event Batches.record_retry get filter of_list add insert
    lookup
first_completed = refl

calls_separate_example :
    set_of (some "p1") (calls mixed batch_logger)
    ≡ (standard_calls
        (starts (metric_of "m1" "p1") ∷ ends "task" "Fetch" none 8 (some "p1") ∷ [])
        logger).metrics
unfolding lookup
calls_separate_example = calls_separate (some "p1") mixed batch_logger logger refl
