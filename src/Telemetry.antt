-- ===== src/Telemetry.antt =====
-- nexus/telemetry/logger.py: EventMetrics and StandardTelemetryLogger, on the ResultSet of
-- nexus/result.py. Publishers are of a type P; what they do with a metric is outside, and an exception of
-- theirs is only logged. Times are whole numbers.
pub mod Tracking
pub mod Batches
pub mod Separation
use event_pipeline.Prelude.{
  ℕ, ◌+◌, String, Bool, false, not, ◌&&◌, Option, none, some, List, [], ◌∷◌, ◌++◌, map, ◌==◌,
  comparable_string, if◌then◌else◌,
}
use event_pipeline.Prelude.Dict.{insert}
use event_pipeline.ResultSet.{ResultSet, got, missed, key_error, multi_value_error, empty, add, get}

pub data Status : Type 0 where
  pending failed completed : Status

pub record EventMetrics : Type 0 where
  pub id : String
  pub event_name : String
  pub task_id : String
  pub start_time : ℕ
  pub end_time : Option ℕ
  pub status : Status
  pub error : Option String
  pub retry_count : ℕ
  pub process_id : Option ℕ
  pub pipeline_id : Option String

abbrev pub id_of : EventMetrics → String
id_of m = m.id

-- All members have one content type.
abbrev pub type_of : EventMetrics → String
type_of m = "EventMetrics"

pub record TelemetryLogger (P : Type 0) : Type 0 where
  pub metrics : ResultSet EventMetrics String
  pub publishers : List P
  -- The calls of publish_event_metrics.
  pub published : List (P × EventMetrics)

abbrev pub new_logger : {P : Type 0} → TelemetryLogger P
new_logger = record { metrics = empty; publishers = []; published = [] }

-- How a method ends: it returns, or an exception of `get` leaves it.
pub data Ended : Type 0 where
  returned no_result_found more_than_one_result : Ended

abbrev pub matching : (name task_id : String) → EventMetrics → Bool
matching name task_id m = m.event_name == name && m.task_id == task_id

-- The empty string is no error.
abbrev pub is_error : Option String → Bool
is_error none = false
is_error (some e) = not (e == "")

abbrev pub finished : Option String → ℕ → EventMetrics → EventMetrics
finished error now m = record m {
  end_time = some now;
  status = if is_error error then failed else completed;
  error = error;
}

abbrev pub new_metrics :
    (id event_name task_id : String) → Option ℕ → Option String → ℕ → EventMetrics
new_metrics id event_name task_id process_id pipeline_id now = record {
  id = id;
  event_name = event_name;
  task_id = task_id;
  start_time = now;
  end_time = none;
  status = pending;
  error = none;
  retry_count = 0;
  process_id = process_id;
  pipeline_id = pipeline_id;
}

module _ {P : Type 0} where
  abbrev pub add_publisher : P → TelemetryLogger P → TelemetryLogger P
  add_publisher p s = record s { publishers = s.publishers ++ p ∷ [] }

  -- A metric of the set is changed where it is.
  abbrev pub put : EventMetrics → TelemetryLogger P → TelemetryLogger P
  put m s = record s { metrics = record s.metrics { content = insert m.id m s.metrics.content } }

  -- start_event of a metric that was made from its arguments
  unfoldable pub start_event : EventMetrics → TelemetryLogger P → TelemetryLogger P
  unfolding add
  start_event m s = record s { metrics = add id_of type_of m s.metrics }

  abbrev pub publish : EventMetrics → TelemetryLogger P → TelemetryLogger P
  publish m s = record s { published = s.published ++ map (λ p. (p, m)) s.publishers }

  -- end_event; it expects an ObjectDoesNotExist of `get`, which raises a KeyError.
  unfoldable pub end_event :
      (task_id name : String) → Option String → ℕ → TelemetryLogger P → Ended × TelemetryLogger P
  end_event task_id name error now s = elim (get id_of type_of (matching name task_id) s.metrics) [
    | missed key_error ↦ (no_result_found, s)
    | missed multi_value_error ↦ (returned, s)
    | got m ↦ (returned, publish (finished error now m) (put (finished error now m) s))
  ]

  unfoldable pub record_retry :
      (task_id name : String) → TelemetryLogger P → Ended × TelemetryLogger P
  record_retry task_id name s = elim (get id_of type_of (matching name task_id) s.metrics) [
    | missed key_error ↦ (no_result_found, s)
    | missed multi_value_error ↦ (more_than_one_result, s)
    | got m ↦ (returned, put (record m { retry_count = m.retry_count + 1 }) s)
  ]
