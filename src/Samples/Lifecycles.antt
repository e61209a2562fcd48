-- ===== src/Samples/Lifecycles.antt =====
-- Tests of Pipeline.start, stop and shutdown.
use event_pipeline.Prelude.{ℕ, ◌*◌, ◌^◌, ◌≡◌, refl, false, none, some, [], ◌∷◌, arith, length}
use event_pipeline.Ast.{Ast, task_name}
use event_pipeline.Task.{Heap, get_root, root_within}
use event_pipeline.Task.Build.{ok as built, build_pipeline, parse_ast, alloc, root}
use event_pipeline.Context.{new_context, cancel}
use event_pipeline.Execution.{Run, execute_task}
use event_pipeline.Execution.{Exit}
use event_pipeline.Pipeline.{
  Pipeline, Started, start, stop, pipeline_execution_start, pipeline_stop,
}
use event_pipeline.Execution.Termination.{execute_task_terminates}
use event_pipeline.Pipeline.Links.{append-IsLinked}
use event_pipeline.Pipeline.Chain.{IsChain, execute_task-IsChain}
use event_pipeline.Pipeline.Lifecycle.{IsWellFormed, Signalled, Changed, start_ends, stop-Changed}
use event_pipeline.Samples.{world, idle_run, heap_of}

abbrev pub fetch : Ast
fetch = task_name "Fetch"

abbrev pub tasks : Heap
tasks = heap_of (build_pipeline fetch)

pub built-fetch : build_pipeline fetch ≡ built (0, tasks)
unfolding build_pipeline parse_ast alloc root get_root root_within
built-fetch = refl

abbrev pub fresh : Pipeline ℕ
fresh = record { contexts = []; execution_context = none; signals = [] }

pub fresh-IsWellFormed : IsWellFormed fresh
fresh-IsWellFormed = (λ n c e. cc, tt)

start_ends_example :
    (o : Started) × (p' : Pipeline ℕ) × (start tasks world (8 * 2 ^ length tasks) 0 false fresh
      ≡ some (o, p'))
    × IsWellFormed p'
    × Signalled fresh (o, p')
start_ends_example = start_ends fetch 0 tasks world built-fetch false fresh fresh-IsWellFormed

abbrev waiting : Pipeline ℕ
waiting = record {
  contexts = new_context (0 ∷ []) none ∷ [];
  execution_context = some 0;
  signals = pipeline_execution_start ∷ [];
}

waiting-IsWellFormed : IsWellFormed waiting
waiting-IsWellFormed =
    (append-IsLinked [] (new_context (0 ∷ []) none) (λ n c e. cc) tt refl, omega arith)

stop-Changed_example : Changed cancel pipeline_stop 0 waiting (stop waiting)
stop-Changed_example = stop-Changed 0 waiting waiting-IsWellFormed refl

fetch_ends :
    (r : Exit × Run ℕ) × (execute_task tasks world (8 * 2 ^ length tasks) (some 0) none idle_run
      ≡ some r)
fetch_ends = execute_task_terminates fetch 0 tasks world 0 none idle_run built-fetch refl

execute_task-IsChain_example : IsChain fetch_ends.0.1
execute_task-IsChain_example =
    execute_task-IsChain tasks world (8 * 2 ^ length tasks) (some 0) none idle_run fetch_ends.0
      (λ n c q. cc, tt) tt fetch_ends.1
