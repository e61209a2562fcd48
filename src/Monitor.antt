-- ===== src/Monitor.antt =====
-- nexus/pipeline.py: _BatchProcessingMonitor and PipelineExecutionMetrics, with metrics enabled. A
-- pipeline is a number, times are natural numbers, and what the listeners log is left out.
pub mod Metrics
use event_pipeline.Prelude.{
  ℕ, zero, suc, ◌+◌, ◌-◌, Bool, true, false, not, Option, none, some, List, [], ◌∷◌, ◌++◌, length,
  comparable_nat,
}
use event_pipeline.Prelude.Dict.{Dict, lookup, insert, remove}

pub record PipelineExecutionMetrics : Type 0 where
  pub started : ℕ
  pub completed : ℕ
  pub failed : ℕ
  pub active : ℕ
  pub execution_durations : List ℕ

-- The set of active pipelines has them as its keys.
pub record Monitor : Type 0 where
  pub metrics : PipelineExecutionMetrics
  pub active_pipelines : Dict ℕ (Unit {0})
  pub pipeline_start_times : Dict ℕ ℕ

abbrev pub new_monitor : Monitor
new_monitor = record {
  metrics = record { started = 0; completed = 0; failed = 0; active = 0; execution_durations = [] };
  active_pipelines = [];
  pipeline_start_times = [];
}

-- The signals of a pipeline. The end of one carries whether its latest execution context has failed
-- (`none` if that raises) and whether the signal has an exception.
pub data PipelineSignal : Type 0 where
  pipeline_started : (pipeline timestamp : ℕ) → PipelineSignal
  pipeline_ended :
      (pipeline timestamp : ℕ) (latest_failed : Option Bool) (exception : Bool) → PipelineSignal

unfoldable pub on_pipeline_started : (pipeline timestamp : ℕ) → Monitor → Monitor
on_pipeline_started p now m =
    let active = insert p tt m.active_pipelines in
    record {
      metrics = record (m.metrics) { started = m.metrics.started + 1; active = length active };
      active_pipelines = active;
      pipeline_start_times = insert p now m.pipeline_start_times;
    }

abbrev pub success_of : Option Bool → Bool → Bool
success_of none exception = not exception
success_of (some failed) exception = not failed

-- `if start_time`: a start at the time 0 has no duration.
abbrev pub durations : Option ℕ → ℕ → List ℕ → List ℕ
durations none now ds = ds
durations (some zero) now ds = ds
durations (some (suc s)) now ds = ds ++ (now - suc s) ∷ []

abbrev pub count_end : Bool → PipelineExecutionMetrics → PipelineExecutionMetrics
count_end true m = record m { completed = m.completed + 1 }
count_end false m = record m { failed = m.failed + 1 }

unfoldable pub on_pipeline_ended : (pipeline timestamp : ℕ) → Option Bool → Bool → Monitor → Monitor
on_pipeline_ended p now latest_failed exception m =
    let rest = remove p m.active_pipelines in
    record {
      metrics = record (count_end (success_of latest_failed exception) m.metrics) {
        active = length rest;
        execution_durations =
            durations (lookup p m.pipeline_start_times) now m.metrics.execution_durations;
      };
      active_pipelines = rest;
      pipeline_start_times = remove p m.pipeline_start_times;
    }

abbrev pub handle : PipelineSignal → Monitor → Monitor
handle (pipeline_started p now) m = on_pipeline_started p now m
handle (pipeline_ended p now latest exception) m = on_pipeline_ended p now latest exception m

-- The signals in the order in which the monitor takes them from its queue.
unfoldable pub handle_all : List PipelineSignal → Monitor → Monitor
unfolding on_pipeline_started on_pipeline_ended
handle_all [] m = m
handle_all (s ∷ rest) m = handle_all rest (handle s m)
