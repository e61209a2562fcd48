-- ===== src/Samples/Wrappers.antt =====
-- Tests of wrappers and of the monitor that takes their messages.
use event_pipeline.Prelude.{
  ℕ, get_elem?, ◌*◌, ◌^◌, ◌≡◌, refl, Bool, true, none, some, [], ◌∷◌, ◌++◌, length, is_some, List,
}
use event_pipeline.Exceptions.{raise}
use event_pipeline.Evaluation.{success_on_all_events_success}
use event_pipeline.Execution.{World, execute_task}
use event_pipeline.Context.{
  Context, new_context, aborted, bad_pipeline_error, event_execution_aborted, execution_failed,
}
use event_pipeline.Task.{get_root}
use event_pipeline.Task.Build.{build_pipeline, parse_ast, alloc, root}
use event_pipeline.Pipeline.{
  Pipeline, started, start, pipeline_shutdown, get_latest_execution_context,
  get_execution_context_head, follow_next,
}
use event_pipeline.Pipeline
use event_pipeline.Samples.{boom, world}
use event_pipeline.Samples.Lifecycles.{fetch, tasks, built-fetch, fresh, fresh-IsWellFormed}
use event_pipeline.Wrapper.{
  Message, PipelineWrapper, initialized, initializing, running, finished, wrapper_started,
  pipeline_execution_start, wrapper_failed, wrapper_finished, failed, run,
}
use event_pipeline.Monitor.{Monitor, new_monitor}
use event_pipeline.Wrapper.Monitoring.{IsSent, handle_messages, failures_uncounted}
use event_pipeline.Wrapper.Reports.{message, put_all, IsReport, run_reports}
use event_pipeline.Wrapper.Failures.{failure_hidden}

-- The event raises an exception.
abbrev bad_world : World ℕ
bad_world = record { run = λ i ts. raise boom; evaluation = λ e. success_on_all_events_success }

abbrev takes_all : Message ℕ → Bool
takes_all m = true

abbrev new_wrapper : PipelineWrapper ℕ
new_wrapper = record {
  pipeline = fresh;
  execution_state = initialized;
  exception = none;
  signals_queue = [];
}

-- Its only context, after the exception.
abbrev aborted_context : Context ℕ
aborted_context = record (new_context (0 ∷ []) none) {
  state = aborted;
  errors = bad_pipeline_error boom ∷ [];
  signals = event_execution_aborted ∷ [];
}

abbrev ended : Pipeline ℕ
ended = record {
  contexts = aborted_context ∷ [];
  execution_context = some 0;
  signals = Pipeline.pipeline_execution_start ∷ pipeline_shutdown 0 ∷ [];
}

start_ended : start tasks bad_world 16 0 true fresh ≡ some (started (some 0), ended)
unfolding start execute_task build_pipeline parse_ast alloc root get_root get_execution_context_head
    follow_next
start_ended = refl

failure_hidden_example :
    (s' : PipelineWrapper ℕ) × (run tasks bad_world takes_all true 7 16 0 new_wrapper ≡ some s')
    × (s'.exception ≡ some "AttributeError")
unfolding get_latest_execution_context get_execution_context_head follow_next execution_failed
failure_hidden_example =
    failure_hidden tasks bad_world takes_all 7 16 0 0 0 aborted_context aborted_context ended
      new_wrapper start_ended refl refl refl refl refl

run_reports_example :
    (s' : PipelineWrapper ℕ) × (report : List (Message ℕ)) × (run tasks world takes_all true 7
        (8 * 2 ^ length tasks)
        0
        new_wrapper
      ≡ some s')
    × (s'.execution_state ≡ finished)
    × IsReport 7 report s'.exception
    × (s'.signals_queue
        ≡ put_all takes_all
            (message 7 initializing wrapper_started
                ∷ message 7 running pipeline_execution_start
                ∷ report
              ++ message 7 finished (wrapper_finished (is_some s'.exception)) ∷ [])
            [])
run_reports_example =
    run_reports fetch 0 tasks world built-fetch takes_all true 7 new_wrapper refl fresh-IsWellFormed

-- What the wrapper sends of it.
abbrev failed_wrapper : PipelineWrapper ℕ
failed_wrapper = record {
  pipeline = ended;
  execution_state = finished;
  exception = some "AttributeError";
  signals_queue =
      message 7 initializing wrapper_started
      ∷ message 7 running pipeline_execution_start
      ∷ message 7 failed (wrapper_failed "AttributeError")
      ∷ message 7 finished (wrapper_finished true)
      ∷ [];
}

run_fails : run tasks bad_world takes_all true 7 16 0 new_wrapper ≡ some failed_wrapper
unfolding run execute_task build_pipeline parse_ast alloc root get_root get_execution_context_head
    follow_next
run_fails = refl

sent :
    (n : ℕ) (x : Message ℕ)
    → get_elem? failed_wrapper.signals_queue n ≡ some x
    → IsSent tasks bad_world x
sent n x there = (takes_all, true, 7, 16, 0, new_wrapper, failed_wrapper, n, refl, run_fails, there)

failures_uncounted_example :
    (m : Monitor) × (handle_messages tasks bad_world
        ((4, message 7 running pipeline_execution_start)
          ∷ (5, message 7 failed (wrapper_failed "AttributeError"))
          ∷ [])
        new_monitor
      ≡ some m)
    × (m.metrics.failed ≡ 0)
failures_uncounted_example =
    failures_uncounted tasks bad_world
      ((4, message 7 running pipeline_execution_start)
        ∷ (5, message 7 failed (wrapper_failed "AttributeError"))
        ∷ [])
      new_monitor (sent 1 _ refl, (sent 2 _ refl, tt))
