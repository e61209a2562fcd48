-- ===== src/Samples/Drawings.antt =====
-- Tests of the drawing of pipelines.
use event_pipeline.Prelude.{
  ℕ, zero, suc, String, ◌≡◌, refl, false, some, List, [], ◌∷◌, any, ◌==◌, comparable_string,
  comparable_nat,
}
use event_pipeline.Prelude.Dict.{lookup, insert}
use event_pipeline.Samples.{heap_of}
use event_pipeline.Ast.{Ast, bin_op, descriptor, task_name, conditional, group, branch, end}
use event_pipeline.Task.Build.{
  build_pipeline, parse_ast, alloc, combine, attach, root, modify, make_parent, head_of,
  alloc_parent, attach_branch, read, attach_custom, link_custom, join, pipe_of,
}
use event_pipeline.Pipe.{pointer, token, get_pipe_type_enum, parallelism}
use event_pipeline.Task.{
  Task, Heap, new_task, get_root, root_within, bf_traversal, get_children, is_conditional,
  is_descriptor_task, get_pointer_type, pointer_from, add_descriptor, get_descriptor_config,
}
use event_pipeline.Execution.Parallel.{is_parallel_execution_node, get_parallel_nodes, chain}
use event_pipeline.Drawing.{
  Picture, Drawn, drawn, out_of_fuel, generate_dot, draw, visit, get_dot_node_data, parallel_nodes,
  group_edges, child_edges, no_none, is_passed_over, is_sink, contains,
}
use event_pipeline.Drawing.Endless.{draw_never_ends, draw_forgets}
use event_pipeline.Drawing.Sequential.{generate_dot_exact, single_line, leads}

abbrev digits : ℕ → String
digits zero = "0"
digits (suc zero) = "1"
digits n = "n"

abbrev id : ℕ → String
id zero = "a"
id (suc zero) = "b"
id (suc (suc zero)) = "c"
id n = "d"

-- `A -> B`
abbrev two_tasks : Heap
two_tasks =
    record (new_task "A") { on_success_event = some 1; on_success_pipe = some pointer }
    ∷ record (new_task "B") { parent_node = some 0 }
    ∷ []

two_drawn :
    generate_dot id digits two_tasks 2 0
    ≡ drawn (record {
      nodes =
          "\t\"a\" [label=\"A\", shape=circle, style=\"filled,rounded\", fillcolor=yellow]\n"
          ∷ "\t\"b\" [label=\"B\", shape=circle, style=\"filled,rounded\", fillcolor=yellow]\n"
          ∷ [];
      edges = "\t\"a\" -> \"b\"" ∷ [];
    })
unfolding generate_dot draw visit get_dot_node_data is_passed_over is_sink is_conditional
    is_parallel_execution_node get_pointer_type pointer_from child_edges group_edges get_root
    root_within bf_traversal get_children is_descriptor_task
two_drawn = refl

two_tasks_sequential : (i : ℕ) → is_parallel_execution_node two_tasks i ≡ false
unfolding is_parallel_execution_node get_pointer_type pointer_from
two_tasks_sequential zero = refl
two_tasks_sequential (suc zero) = refl
two_tasks_sequential (suc (suc i)) = refl

root_of_b : get_root two_tasks 1 ≡ some 0
unfolding get_root root_within
root_of_b = refl

generate_dot_exact_example :
    (p : Picture) × (generate_dot id digits two_tasks 2 1 ≡ drawn p)
    × ((y : String)
        → contains p.nodes y
          ≡ any (λ j. single_line id digits two_tasks two_tasks_sequential j == y) (0 ∷ 1 ∷ []))
    × ((y : String)
        → contains p.edges y
          ≡ any (λ j. leads id digits two_tasks two_tasks_sequential j y) (0 ∷ 1 ∷ []))
unfolding bf_traversal get_children
generate_dot_exact_example =
    generate_dot_exact id digits two_tasks two_tasks_sequential 1 0 root_of_b

-- `A (0 -> B, 1 -> C) || D`: the tasks A, B, C and D.
abbrev forked : Task
forked = record (new_task "A") {
  on_failure_event = some 1;
  on_failure_pipe = some pointer;
  on_success_event = some 2;
  on_success_pipe = some pointer;
  sink_node = some 3;
  sink_pipe = some parallelism;
}

abbrev behind : Task
behind = record (new_task "D") { parent_node = some 0 }

abbrev branch_of : String → ℕ → Task
branch_of name d = record (new_task name) {
  parent_node = some 0;
  own_descriptor = some d;
  own_descriptor_pipe = some "->";
}

abbrev fork : Heap
fork = forked ∷ branch_of "B" 0 ∷ branch_of "C" 1 ∷ behind ∷ []

abbrev fork_script : Ast
fork_script =
    bin_op "||"
      (conditional (task_name "A") (
        group (
          branch 0 (bin_op "->" (descriptor 0) (task_name "B"))
            (branch 1 (bin_op "->" (descriptor 1) (task_name "C")) end))))
      (task_name "D")

-- The tasks that the script builds, in the order of their making.
script_never_ends : generate_dot id digits (heap_of (build_pipeline fork_script)) 20 0 ≡ out_of_fuel
unfolding generate_dot draw visit get_dot_node_data is_passed_over is_sink is_conditional
    is_parallel_execution_node get_pointer_type pointer_from child_edges group_edges get_root
    root_within bf_traversal get_children is_descriptor_task parallel_nodes get_parallel_nodes
    no_none chain build_pipeline parse_ast alloc combine attach token root modify make_parent
    head_of alloc_parent attach_branch read attach_custom link_custom join get_pipe_type_enum insert
    pipe_of add_descriptor get_descriptor_config lookup
script_never_ends = refl

fork_never_ends : generate_dot id digits fork 20 0 ≡ out_of_fuel
unfolding generate_dot draw visit get_dot_node_data is_passed_over is_sink is_conditional
    is_parallel_execution_node get_pointer_type pointer_from child_edges group_edges get_root
    root_within bf_traversal get_children is_descriptor_task parallel_nodes get_parallel_nodes
    no_none chain
fork_never_ends = refl

abbrev blank : Picture
blank = record { nodes = []; edges = [] }

draw_never_ends_example : draw id digits fork 20 (3 ∷ 2 ∷ []) blank ≡ out_of_fuel
draw_never_ends_example =
    draw_never_ends id digits fork 0 3 forked behind refl refl refl refl refl refl refl refl refl 20
      (2 ∷ []) blank

-- `A (0 -> B || C, 1 -> D)`
abbrev forked_twice : Heap
forked_twice =
    record (new_task "A") {
      on_failure_event = some 1;
      on_failure_pipe = some pointer;
      on_success_event = some 3;
      on_success_pipe = some pointer;
    }
    ∷ record (branch_of "B" 0) { on_success_event = some 2; on_success_pipe = some parallelism }
    ∷ record (new_task "C") { parent_node = some 1 }
    ∷ branch_of "D" 1
    ∷ []

abbrev nodes_of : Drawn → List String
nodes_of (drawn p) = p.nodes
nodes_of other = []

-- There are lines for A and for B with C, and none for D.
d_is_left_out :
    nodes_of (generate_dot id digits forked_twice 20 0)
    ≡ "\t\"a\" [label=\"A\", shape=diamond, style=\"filled,rounded\", fillcolor=yellow]\n"
      ∷ "\t\"b\" [label=\"{B|C}\", shape=record, style=\"filled,rounded\", fillcolor=lightblue]\n"
      ∷ []
unfolding generate_dot draw visit get_dot_node_data is_passed_over is_sink is_conditional
    is_parallel_execution_node get_pointer_type pointer_from child_edges group_edges get_root
    root_within bf_traversal get_children is_descriptor_task parallel_nodes get_parallel_nodes
    no_none chain
d_is_left_out = refl

draw_forgets_example :
    draw id digits forked_twice 20 (1 ∷ 2 ∷ 3 ∷ []) blank
    ≡ draw id digits forked_twice 20 (1 ∷ []) blank
unfolding is_parallel_execution_node is_passed_over
draw_forgets_example = draw_forgets id digits forked_twice 1 refl refl 20 (2 ∷ 3 ∷ []) [] blank
