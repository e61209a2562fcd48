-- ===== src/Samples.antt =====
-- A script, events and services that the tests of the other modules use: the script is
-- `Fetch -> Check (0 -> Retry_later, 1 -> Store, 2 -> Review) -> Notify`.
mod Submissions
mod Streams
mod Drawings
mod Lookups
mod Pipelines
mod Events
mod Services
mod Batches
mod Lifecycles
mod Transfers
mod Fields
mod Loggers
mod Wrappers
use event_pipeline.Prelude.{ℕ, Bool, true, false, Option, none, [], ◌∷◌}
use event_pipeline.Exceptions.{
  Exn, Content, EventResult, raised, value, nothing, text, event_result, Attempt, ok, raise,
}
use event_pipeline.Evaluation.{success_on_all_events_success}
use event_pipeline.Ast.{Ast, bin_op, descriptor, task_name, conditional, group, branch, end}
use event_pipeline.Task.{Heap}
use event_pipeline.Task.Build.{Result, ok as built, err}
use event_pipeline.Event.{Event, goto}
use event_pipeline.Retry.{RetryPolicy}
use event_pipeline.Execution.{World, Run}

abbrev pub script : Ast
script =
    bin_op "->"
      (bin_op "->" (task_name "Fetch") (
        conditional (task_name "Check") (
          group (
            branch 0 (bin_op "->" (descriptor 0) (task_name "Retry_later")) (
              branch 1 (bin_op "->" (descriptor 1) (task_name "Store"))
                (branch 2 (bin_op "->" (descriptor 2) (task_name "Review")) end))))))
      (task_name "Notify")

abbrev pub heap_of : Result (ℕ × Heap) → Heap
heap_of (built (r, h)) = h
heap_of (err e) = []

abbrev pub root_of : Result (ℕ × Heap) → ℕ
root_of (built (r, h)) = r
root_of (err e) = 0

abbrev pub boom : Exn ℕ
boom = raised "ValueError" "boom"

abbrev pub good : EventResult ℕ
good = event_result false (value 7) "task" "Fetch"

abbrev pub bad : EventResult ℕ
bad = event_result true (text "boom") "task" "Fetch"

abbrev pub world : World ℕ
world = record {
  run = λ n profiles. ok (ok good ∷ []);
  evaluation = λ name. success_on_all_events_success;
}

abbrev pub idle_run : Run ℕ
idle_run = record { contexts = []; execution_context = none; sink_queue = [] }

abbrev pub twice : RetryPolicy
twice = record {
  max_attempts = 2;
  backoff_factor = 5;
  max_backoff = 10000;
  retry_on_exceptions = [];
}

-- An event that never stops the pipeline.
abbrev pub event_of : Option RetryPolicy → (ℕ → Attempt ℕ (Bool × Content ℕ)) → Event ℕ
event_of policy process = record {
  event_name = "Fetch";
  task_id = "task";
  retry_policy = policy;
  stop_on_exception = false;
  stop_on_success = false;
  stop_on_error = false;
  run_bypass_event_checks = false;
  can_bypass = ok (false, nothing);
  process = process;
}

abbrev pub jumper : Option RetryPolicy → Event ℕ
jumper policy =
    event_of policy (λ k. goto (event_of policy (λ j. raise boom)) 2 true (value 3) false)
