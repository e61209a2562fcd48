-- ===== src/Drawing.antt =====
-- nexus/translator/dot.py, and PipelineTask.is_sink and get_dot_node_data of nexus/task.py: the text
-- that Graphviz draws. The ids of tasks and the text of a number are arguments.
pub mod Sequential
pub mod Endless
use Prim.Native.String.{◌++◌ as append}
use event_pipeline.Prelude.{
  ℕ, zero, suc, String, Bool, true, false, not, ◌&&◌, Option, none, some, List, [], ◌∷◌, ◌++◌, map,
  get_elem?, length, any, if◌then◌else◌, ◌==◌, comparable_string,
}
use event_pipeline.Pipe.{is_parallelism}
use event_pipeline.Task.{
  Heap, refers, is_descriptor_task, is_conditional, get_children, get_root, bf_traversal,
}
use event_pipeline.Execution.Parallel.{is_parallel_execution_node, get_parallel_nodes}

abbrev pub text_of : List String → String
text_of [] = ""
text_of (s ∷ ss) = append s (text_of ss)

-- The references of a list that holds no None; a None has no `event` and no children.
unfoldable pub no_none : List (Option ℕ) → Option (List ℕ)
no_none [] = some []
no_none (none ∷ is) = none
no_none (some i ∷ is) = elim (no_none is) [ none ↦ none | some js ↦ some (i ∷ js) ]

abbrev pub last_of : ℕ → List ℕ → ℕ
last_of i [] = i
last_of i (j ∷ js) = last_of j js

-- `"|".join(names)`
abbrev pub bar_joined : List String → String
bar_joined [] = ""
bar_joined (n ∷ []) = n
bar_joined (n ∷ m ∷ ns) = append n (append "|" (bar_joined (m ∷ ns)))

-- `if x not in xs: xs.append(x)`
abbrev pub contains : List String → String → Bool
contains xs x = any (λ y. y == x) xs

abbrev pub add_new : String → List String → List String
add_new x xs = if contains xs x then xs else xs ++ x ∷ []

-- The lists `nodes` and `edges`.
pub record Picture : Type 0 where
  pub nodes : List String
  pub edges : List String

abbrev pub add_node : String → Picture → Picture
add_node x p = record p { nodes = add_new x p.nodes }

abbrev pub add_edge : String → Picture → Picture
add_edge x p = record p { edges = add_new x p.edges }

-- What a round of the loop does to the iterator: it goes on, or it starts again at a task. It fails
-- with an AttributeError.
pub data Visit : Type 0 where
  goes_on : Picture → Visit
  starts_at : ℕ → Picture → Visit
  fails : Visit

-- How drawing ends: with a picture, by an AttributeError or RecursionError, or not within the fuel.
pub data Drawn : Type 0 where
  drawn : Picture → Drawn
  raised out_of_fuel : Drawn

-- PipelineTask.is_sink
unfoldable pub is_sink : Heap → ℕ → Bool
unfolding is_descriptor_task
is_sink h i = elim (get_elem? h i) [
  | none ↦ false
  | some t ↦ elim t.parent_node [
    | none ↦ false
    | some p ↦ elim (get_elem? h p) [
      | none ↦ false
      | some parent ↦ not (is_descriptor_task t) && refers parent.sink_node i
    ]
  ]
]

-- The last task of a parallel chain is drawn with the chain.
unfoldable pub is_passed_over : Heap → ℕ → Bool
is_passed_over h i = elim (get_elem? h i) [
  | none ↦ false
  | some t ↦ elim t.parent_node [
    | none ↦ false
    | some p ↦ elim (get_elem? h p) [
      | none ↦ false
      | some parent ↦
          is_parallelism parent.on_success_pipe && not (is_parallelism t.on_success_pipe)
    ]
  ]
]

abbrev pub event_of : Heap → ℕ → String
event_of h i = elim (get_elem? h i) [ none ↦ "" | some t ↦ t.event ]

abbrev pub children_of : Heap → ℕ → List ℕ
children_of h i = elim (get_elem? h i) [ none ↦ [] | some t ↦ get_children t ]

abbrev pub is_conditional_at : Heap → ℕ → Bool
is_conditional_at h i = elim (get_elem? h i) [ none ↦ false | some t ↦ is_conditional t ]

module _ (id digits : ℕ → String) (h : Heap) where
  abbrev pub node_line : ℕ → (label attributes : String) → String
  node_line i label attributes =
      text_of ("\t\"" ∷ id i ∷ "\" [label=\"" ∷ label ∷ "\", " ∷ attributes ∷ "]\n" ∷ [])

  abbrev pub group_line : ℕ → List ℕ → String
  group_line i js =
      node_line i (text_of ("{" ∷ bar_joined (map (event_of h) (i ∷ js)) ∷ "}" ∷ []))
        "shape=record, style=\"filled,rounded\", fillcolor=lightblue"

  -- get_parallel_nodes of a parallel task: the first of them and the others.
  unfoldable pub parallel_nodes : ℕ → Option (ℕ × List ℕ)
  unfolding get_parallel_nodes no_none
  parallel_nodes i = elim (get_parallel_nodes h i) [
    | none ↦ none
    | some nodes ↦ elim (no_none nodes) [
      | none ↦ none
      | some tasks ↦ elim tasks [ [] ↦ none | j ∷ js ↦ some (j, js) ]
    ]
  ]

  abbrev pub group_text : Option (ℕ × List ℕ) → Option String
  group_text none = none
  group_text (some (j, js)) = some (group_line j js)

  -- get_dot_node_data; `none` is an AttributeError.
  unfoldable pub get_dot_node_data : ℕ → Option String
  unfolding parallel_nodes is_parallel_execution_node is_sink is_conditional
  get_dot_node_data i =
      if is_sink h i
      then some (node_line i (event_of h i) "shape=box, style=\"filled,rounded\", fillcolor=yellow")
      else if is_conditional_at h i
      then some
          (node_line i (event_of h i) "shape=diamond, style=\"filled,rounded\", fillcolor=yellow")
      else if is_parallel_execution_node h i
      then group_text (parallel_nodes i)
      else some
          (node_line i (event_of h i) "shape=circle, style=\"filled,rounded\", fillcolor=yellow")

  abbrev pub tail_label : Option ℕ → String
  tail_label none = ""
  tail_label (some d) = text_of (" [taillabel=\"" ∷ digits d ∷ "\"]" ∷ [])

  abbrev pub descriptor_of : ℕ → Option ℕ
  descriptor_of i = elim (get_elem? h i) [ none ↦ none | some t ↦ t.own_descriptor ]

  -- The edge to the node `b`, with the descriptor of the task `c`.
  abbrev pub edge : (a b c : ℕ) → String
  edge a b c =
      text_of ("\t\"" ∷ id a ∷ "\" -> \"" ∷ id b ∷ "\"" ∷ tail_label (descriptor_of c) ∷ [])

  -- The loop over the children of the last task of a parallel chain.
  unfoldable pub group_edges : ℕ → List ℕ → Picture → Picture
  group_edges a [] p = p
  group_edges a (c ∷ cs) p = group_edges a cs (add_edge (edge a c c) p)

  -- The loop over the children of any other task.
  unfoldable pub child_edges : ℕ → List ℕ → Picture → Option Picture
  unfolding parallel_nodes is_parallel_execution_node
  child_edges a [] p = some p
  child_edges a (c ∷ cs) p = elim (is_parallel_execution_node h c) [
    | false ↦ child_edges a cs (add_edge (edge a c c) p)
    | true ↦ elim (parallel_nodes c) [
      | none ↦ none
      | some (j, js) ↦ child_edges a cs (add_edge (edge a j j) (add_node (group_line j js) p))
    ]
  ]

  -- What is drawn for a parallel task, and where the iterator is set to.
  abbrev pub visit_group : Option (ℕ × List ℕ) → Picture → Visit
  visit_group none p = fails
  visit_group (some (j, js)) p =
      starts_at (last_of j js)
        (group_edges j (children_of h (last_of j js)) (add_node (group_line j js) p))

  abbrev pub visit_single : Option Picture → Visit
  visit_single none = fails
  visit_single (some p) = goes_on p

  abbrev pub visit_drawn : ℕ → Picture → Visit
  visit_drawn i p =
      if is_parallel_execution_node h i
      then visit_group (parallel_nodes i) p
      else visit_single (child_edges i (children_of h i) p)

  -- A round of the loop of generate_dot_from_task_state, for the task that the iterator yields.
  unfoldable pub visit : ℕ → Picture → Visit
  unfolding is_passed_over get_dot_node_data group_edges child_edges
  visit i p =
      if is_passed_over h i
      then goes_on p
      else (elim (get_dot_node_data i) [ none ↦ fails | some s ↦ visit_drawn i (add_node s p) ])

  -- The loop; the iterator is the list of the tasks that it still yields.
  unfoldable pub draw : ℕ → List ℕ → Picture → Drawn
  unfolding visit
  draw fuel [] p = drawn p
  draw zero (i ∷ is) p = out_of_fuel
  draw (suc fuel) (i ∷ is) p = elim (visit i p) [
    | goes_on p' ↦ draw fuel is p'
    | starts_at j p' ↦ draw fuel (bf_traversal (length h) h j) p'
    | fails ↦ raised
  ]

  abbrev pub ended : List String → List String
  ended [] = []
  ended (e ∷ es) = append e "\n" ∷ ended es

  abbrev pub render : Picture → String
  render p = text_of (
      "digraph G {\n"
      ∷ "\tnode [fontname=\"Helvetica\", fontsize=11]\n"
      ∷ "\tedge [fontname=\"Helvetica\", fontsize=10]\n"
      ∷ (p.nodes ++ (ended p.edges ++ "}" ∷ [])))

  -- generate_dot_from_task_state up to its text, from any task of a pipeline.
  unfoldable pub generate_dot : ℕ → ℕ → Drawn
  unfolding draw
  generate_dot fuel i = elim (get_root h i) [
    | none ↦ raised
    | some r ↦ draw fuel (bf_traversal (length h) h r) (record { nodes = []; edges = [] })
  ]
