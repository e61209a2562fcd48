-- ===== src/Samples/Pipelines.antt =====
-- Tests of nexus/task.py on a script with a conditional, a custom descriptor and a sink.
use event_pipeline.Prelude.{
  true, zero, suc, ap, subst, some_inj, is_some, get_elem?, ℕ, ◌*◌, ◌^◌, ◌≡◌, ◌≢◌, refl, false,
  none, some, [], ◌∷◌, length,
}
use event_pipeline.Exceptions.{EventResult, ok, raise, content}
use event_pipeline.Evaluation.{success_for_partial_success}
use event_pipeline.Prelude.Dict.{insert, lookup}
use event_pipeline.Ast.{Ast, bin_op, task_name}
use event_pipeline.Execution.Contexts.{first_context_alone}
use event_pipeline.Pipe.{parallelism, is_parallelism, token, get_pipe_type_enum}
use event_pipeline.Task.{
  Task, Heap, get_pointer_type, new_task, get_root, is_conditional, add_descriptor,
  get_descriptor_config, root_within,
}
use event_pipeline.Task.Build.{
  ok as built, err, endless_climb, build_pipeline, parse_ast, alloc, combine, attach, root, modify,
  make_parent, head_of, alloc_parent, attach_branch, read, attach_custom, link_custom, join,
  pipe_of,
}
use event_pipeline.Task.Forest.{IsPipeline, build_never_loops, build-IsPipeline}
use event_pipeline.Context.{
  Context, Outcome, dispatch, new_context, execution_failed, outcome, requested,
  get_last_task_profile,
}
use event_pipeline.Context.Dispatch.{Ends, IsQuiet, dispatch-Settled}
use event_pipeline.Context.Failure.{dispatch-fails}
use event_pipeline.Execution.{Run, Exit, execute_task}
use event_pipeline.Execution.Parallel.{
  IsPaired, get_parallel_nodes, is_parallel_execution_node, chain,
}
use event_pipeline.Execution.Termination.{execute_task_terminates}
use event_pipeline.Samples.{script, heap_of, root_of, good, bad, boom, world, idle_run}

abbrev start : ℕ
start = root_of (build_pipeline script)

six_tasks : length (heap_of (build_pipeline script)) ≡ 6
unfolding build_pipeline parse_ast alloc combine attach token root get_root modify make_parent
    head_of alloc_parent attach_branch read attach_custom link_custom join is_conditional
    get_pipe_type_enum insert pipe_of add_descriptor root_within get_descriptor_config lookup
six_tasks = refl

built-script :
    build_pipeline script ≡ built (root_of (build_pipeline script), heap_of (build_pipeline script))
unfolding build_pipeline parse_ast alloc combine attach token root get_root modify make_parent
    head_of alloc_parent attach_branch read attach_custom link_custom join is_conditional
    get_pipe_type_enum insert pipe_of add_descriptor root_within get_descriptor_config lookup
built-script = refl

build-IsPipeline_example :
    IsPipeline (root_of (build_pipeline script)) (heap_of (build_pipeline script))
build-IsPipeline_example =
    build-IsPipeline script (root_of (build_pipeline script)) (heap_of (build_pipeline script))
      built-script

build_never_loops_example : build_pipeline script ≢ err endless_climb
build_never_loops_example = build_never_loops script

execute_task_terminates_example :
    (result : Exit × Run ℕ) × (execute_task
        (heap_of (build_pipeline script))
        world
        (8 * 2 ^ length (heap_of (build_pipeline script)))
        (some (root_of (build_pipeline script)))
        none
        idle_run
      ≡ some result)
execute_task_terminates_example =
    execute_task_terminates script (root_of (build_pipeline script))
      (heap_of (build_pipeline script)) world (root_of (build_pipeline script)) none idle_run
      built-script refl

dispatch-Settled_example :
    Ends
      (ok (raise boom ∷ ok good ∷ []))
      (dispatch [] (ok (raise boom ∷ ok good ∷ [])) (new_context (0 ∷ []) none))
dispatch-Settled_example =
    dispatch-Settled [] (ok (raise boom ∷ ok good ∷ [])) (new_context (0 ∷ []) none)

-- A future with a result.
quiet : (r : EventResult ℕ) → requested (content r) ≡ none → IsQuiet (ok r)
unfolding outcome
quiet r asks = (_, refl, asks, refl)

-- Both results are errors.
dispatch-fails_example :
    execution_failed
      (new_task "Fetch" ∷ [])
      (λ name. success_for_partial_success)
      (dispatch (new_task "Fetch" ∷ []) (ok (ok bad ∷ ok bad ∷ [])) (new_context (0 ∷ []) none)).0
    ≡ some false
unfolding get_last_task_profile
dispatch-fails_example =
    dispatch-fails (new_task "Fetch" ∷ []) (λ name. success_for_partial_success) (ok bad)
      (ok bad ∷ []) (0 ∷ []) none 0 (new_task "Fetch") (quiet bad refl, (quiet bad refl, tt)) refl
      refl

abbrev single : Ast
single = task_name "Fetch"

-- The event asks for the success branch.
abbrev asked : Outcome ℕ
asked = record { result = good; request = some 1; stop = false }

-- The script `A || B`.
abbrev pair : Ast
pair = bin_op "||" (task_name "A") (task_name "B")

pair_is_built : build_pipeline pair ≡ built (0, heap_of (build_pipeline pair))
unfolding build_pipeline parse_ast alloc combine attach token root get_root modify make_parent
    head_of alloc_parent attach_branch read attach_custom link_custom join is_conditional
    get_pipe_type_enum insert pipe_of add_descriptor root_within get_descriptor_config lookup
pair_is_built = refl

abbrev first_task : Task
first_task = record (new_task "A") { on_success_event = some 1; on_success_pipe = some parallelism }

first_of_pair : get_elem? (heap_of (build_pipeline pair)) 0 ≡ some first_task
unfolding build_pipeline parse_ast alloc combine attach token root get_root modify make_parent
    head_of alloc_parent attach_branch read attach_custom link_custom join is_conditional
    get_pipe_type_enum insert pipe_of add_descriptor root_within get_descriptor_config lookup
first_of_pair = refl

pair_ends :
    (result : Exit × Run ℕ) × (execute_task
        (heap_of (build_pipeline pair))
        world
        (8 * 2 ^ length (heap_of (build_pipeline pair)))
        (some 0)
        none
        idle_run
      ≡ some result)
pair_ends =
    execute_task_terminates pair 0 (heap_of (build_pipeline pair)) world 0 none idle_run
      pair_is_built refl

first_context_alone_example :
    (d : Context ℕ) × (get_elem? pair_ends.0.1.contexts 0 ≡ some d) × (d.task_profiles ≡ 0 ∷ [])
first_context_alone_example =
    first_context_alone (heap_of (build_pipeline pair)) world
      (8 * 2 ^ length (heap_of (build_pipeline pair))) 0 first_task idle_run pair_ends.0
      first_of_pair pair_ends.1

abbrev pair_heap : Heap
pair_heap = first_task ∷ record (new_task "B") { parent_node = some 0 } ∷ []

pair_heap-IsPaired : IsPaired pair_heap
pair_heap-IsPaired zero t e p =
    subst (λ (u : Task). is_some u.on_success_event ≡ true) (some_inj e) refl
pair_heap-IsPaired (suc zero) t e p =
    cc (ap (λ (u : Task). is_parallelism u.on_success_pipe) (some_inj e), p)
pair_heap-IsPaired (suc (suc i)) t e p = cc e

parallel_first : is_parallel_execution_node pair_heap 0 ≡ true
unfolding is_parallel_execution_node
parallel_first = refl

-- The second task of the pair is parallel, as a parallel pipe leads to it.
second_is_parallel : get_parallel_nodes pair_heap 1 ≡ some (some 1 ∷ [])
unfolding get_parallel_nodes is_parallel_execution_node chain get_pointer_type
second_is_parallel = refl
