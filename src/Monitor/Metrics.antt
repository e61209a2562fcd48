-- ===== src/Monitor/Metrics.antt =====
-- The counters of _BatchProcessingMonitor (nexus/pipeline.py) beside one another.
use event_pipeline.Prelude.{
  ℕ, suc, ◌+◌, ◌≡◌, refl, Bool, true, false, List, [], ◌∷◌, length, arith, comparable_nat, Option,
}
use event_pipeline.Prelude.Dict.{
  Dict, insert, remove, has, IsKeyed, length-insert, length-remove, insert-IsKeyed, remove-IsKeyed,
}
use event_pipeline.Monitor.{
  PipelineExecutionMetrics, Monitor, new_monitor, PipelineSignal, pipeline_started, pipeline_ended,
  on_pipeline_started, on_pipeline_ended, handle_all, count_end, success_of,
}

-- Every pipeline starts while it is not active and ends while it is.
abbrev pub IsProper : List PipelineSignal → Dict ℕ (Unit {0}) → Type 0
IsProper [] active = Unit
IsProper (pipeline_started p now ∷ rest) active =
    (has p active ≡ false) × IsProper rest (insert p tt active)
IsProper (pipeline_ended p now latest exception ∷ rest) active =
    (has p active ≡ true) × IsProper rest (remove p active)

pub record IsBalanced (m : Monitor) : Type 0 where
  pub counted :
      m.metrics.started ≡ m.metrics.completed + m.metrics.failed + length m.active_pipelines
  pub active : m.metrics.active ≡ length m.active_pipelines
  pub keyed : IsKeyed m.active_pipelines

started-IsBalanced :
    (p now : ℕ) (m : Monitor)
    → IsBalanced m
    → has p m.active_pipelines ≡ false
    → IsBalanced (on_pipeline_started p now m)
unfolding on_pipeline_started
started-IsBalanced p now m b idle = record {
  counted = grind (arith, b.counted, idle, length-insert p tt m.active_pipelines);
  active = refl;
  keyed = insert-IsKeyed p tt m.active_pipelines b.keyed;
}

ended_count :
    (x : Bool) (m : PipelineExecutionMetrics)
    → ((count_end x m).completed + (count_end x m).failed ≡ suc (m.completed + m.failed))
      × ((count_end x m).started ≡ m.started)
ended_count true m = (omega arith, refl)
ended_count false m = (omega arith, refl)

ended-IsBalanced :
    (p now : ℕ) (latest : Option Bool) (exception : Bool) (m : Monitor)
    → IsBalanced m
    → has p m.active_pipelines ≡ true
    → IsBalanced (on_pipeline_ended p now latest exception m)
unfolding on_pipeline_ended
ended-IsBalanced p now latest exception m b there =
    let (sum, starts) = ended_count (success_of latest exception) m.metrics in
    let size = length-remove p m.active_pipelines b.keyed in
    record {
      counted = grind (arith, b.counted, sum, starts, rw there at size);
      active = refl;
      keyed = remove-IsKeyed p m.active_pipelines b.keyed;
    }

handle_all-IsBalanced :
    (history : List PipelineSignal) (m : Monitor)
    → IsBalanced m
    → IsProper history m.active_pipelines
    → IsBalanced (handle_all history m)
unfolding handle_all
handle_all-IsBalanced [] m b proper = b
handle_all-IsBalanced (pipeline_started p now ∷ rest) m b (idle, proper) =
    handle_all-IsBalanced rest (on_pipeline_started p now m) (started-IsBalanced p now m b idle)
      proper
handle_all-IsBalanced (pipeline_ended p now latest exception ∷ rest) m b (there, proper) =
    handle_all-IsBalanced rest (on_pipeline_ended p now latest exception m)
      (ended-IsBalanced p now latest exception m b there) proper

-- After signals in which every pipeline starts while it is not active and ends while it is, the pipelines that started are those that completed, those that failed and those that are active, and the active count is the number of active pipelines.
pub history-IsBalanced :
    (history : List PipelineSignal)
    → IsProper history []
    → IsBalanced (handle_all history new_monitor)
history-IsBalanced history proper =
    handle_all-IsBalanced history new_monitor (record { counted = refl; active = refl; keyed = tt })
      proper
