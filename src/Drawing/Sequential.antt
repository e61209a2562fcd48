-- ===== src/Drawing/Sequential.antt =====
-- What generate_dot_from_task_state (nexus/translator/dot.py) draws of a pipeline without `||`.
use event_pipeline.Prelude.{
  ℕ, ◌≡◌, refl, ap, ◌∙◌, subst, String, Bool, true, false, ◌||◌, some, List, [], ◌∷◌, ◌++◌, length,
  get_elem?, any, if◌then◌else◌, ◌==◌, comparable_string, arith, inl, inr, Bool-cases, Option-cases,
}
use event_pipeline.Pipe.{is_parallelism}
use event_pipeline.Task.{Task, Heap, get_root, bf_traversal}
use event_pipeline.Execution.Parallel.{is_parallel_execution_node}
use event_pipeline.Drawing.{
  Picture, drawn, goes_on, is_sink, is_passed_over, is_conditional_at, event_of, children_of,
  node_line, get_dot_node_data, edge, group_edges, child_edges, visit, draw, generate_dot, contains,
  add_new, add_node, add_edge, visit_single,
}

any-append :
    {A : Type 0} (f : A → Bool) (xs ys : List A) → any f (xs ++ ys) ≡ (any f xs || any f ys)
any-append f [] ys = refl
any-append f (x ∷ xs) ys = ground (arith, any-append f xs ys)

contains-add_new :
    (x y : String) (xs : List String) → contains (add_new x xs) y ≡ (contains xs y || x == y)
contains-add_new x y xs = elim (Bool-cases (contains xs x)) [
  | inl there ↦ elim (Bool-cases (x == y)) [
    | inl same ↦
        let y_there : contains xs y ≡ true =
          subst (λ z. contains xs z ≡ true) ((comparable_string.equals_iff x y).0 same) there in
        rw there (rw same (rw y_there refl))
    | inr other ↦ rw there (rw other (ground arith))
  ]
  | inr fresh ↦ rw fresh (any-append (λ z. z == y) xs (x ∷ []) ∙ ground arith)
]

or_assoc : (a b c : Bool) → ((a || b) || c) ≡ (a || (b || c))
or_assoc true b c = refl
or_assoc false b c = refl

module _ (id digits : ℕ → String) (h : Heap)
    (sequential : (i : ℕ) → is_parallel_execution_node h i ≡ false) where
  -- The line of a task that is drawn by itself.
  abbrev pub single_line : ℕ → String
  single_line i =
      if is_sink h i
      then node_line id digits h i (event_of h i)
          "shape=box, style=\"filled,rounded\", fillcolor=yellow"
      else if is_conditional_at h i
      then node_line id digits h i (event_of h i)
          "shape=diamond, style=\"filled,rounded\", fillcolor=yellow"
      else node_line id digits h i (event_of h i)
          "shape=circle, style=\"filled,rounded\", fillcolor=yellow"

  no_parallel_pipe :
      (i : ℕ) (t : Task) → get_elem? h i ≡ some t → is_parallelism t.on_success_pipe ≡ false
  unfolding is_parallel_execution_node
  no_parallel_pipe i t found = elim (Bool-cases (is_parallelism t.on_success_pipe)) [
    | inr single ↦ single
    | inl parallel ↦ cc (rw parallel at (rw (found, is_parallel_execution_node) at (sequential i)))
  ]

  none_passed_over : (i : ℕ) → is_passed_over h i ≡ false
  unfolding is_passed_over
  none_passed_over i = elim (Option-cases (get_elem? h i)) [
    | inl off ↦ rw (off, is_passed_over) refl
    | inr (t, found) ↦ elim (Option-cases t.parent_node) [
      | inl top ↦ rw (found, is_passed_over) (rw (top, is_passed_over) refl)
      | inr (p, parent) ↦ elim (Option-cases (get_elem? h p)) [
        | inl off ↦
            rw (found, is_passed_over) (rw (parent, is_passed_over) (rw (off, is_passed_over) refl))
        | inr (u, above) ↦
            rw (found, is_passed_over)
              (rw (parent, is_passed_over)
                (rw (above, is_passed_over) (rw (no_parallel_pipe p u above) refl)))
      ]
    ]
  ]

  node_data : (i : ℕ) → get_dot_node_data id digits h i ≡ some (single_line i)
  unfolding get_dot_node_data
  node_data i = elim (Bool-cases (is_sink h i)) [
    | inl sink ↦ rw sink refl
    | inr other ↦ elim (Bool-cases (is_conditional_at h i)) [
      | inl conditional ↦ rw other (rw conditional refl)
      | inr plain ↦ rw other (rw plain (rw (sequential i) refl))
    ]
  ]

  child_edges-group_edges :
      (a : ℕ) (cs : List ℕ) (p : Picture)
      → child_edges id digits h a cs p ≡ some (group_edges id digits h a cs p)
  unfolding child_edges group_edges
  child_edges-group_edges a [] p = refl
  child_edges-group_edges a (c ∷ cs) p =
      rw (sequential c, child_edges)
        (child_edges-group_edges a cs (add_edge (edge id digits h a c c) p))

  abbrev with_task : ℕ → Picture → Picture
  with_task i p = group_edges id digits h i (children_of h i) (add_node (single_line i) p)

  visit_lem : (i : ℕ) (p : Picture) → visit id digits h i p ≡ goes_on (with_task i p)
  unfolding visit
  visit_lem i p = rw (none_passed_over i) (
      rw (node_data i, visit)
        (rw (sequential i) (
          ap (visit_single id digits h)
            (child_edges-group_edges i (children_of h i) (add_node (single_line i) p)))))

  abbrev with_tasks : List ℕ → Picture → Picture
  with_tasks [] p = p
  with_tasks (i ∷ is) p = with_tasks is (with_task i p)

  draw_lem :
      (is : List ℕ) (p : Picture) → draw id digits h (length is) is p ≡ drawn (with_tasks is p)
  unfolding draw
  draw_lem [] p = refl
  draw_lem (i ∷ is) p = rw (visit_lem i p, draw) (draw_lem is (with_task i p))

  edges_nodes :
      (a : ℕ) (cs : List ℕ) (p : Picture) → (group_edges id digits h a cs p).nodes ≡ p.nodes
  unfolding group_edges
  edges_nodes a [] p = refl
  edges_nodes a (c ∷ cs) p = edges_nodes a cs (add_edge (edge id digits h a c c) p)

  edges_edges :
      (a : ℕ) (cs : List ℕ) (p : Picture) (y : String)
      → contains (group_edges id digits h a cs p).edges y
        ≡ (contains p.edges y || any (λ c. edge id digits h a c c == y) cs)
  unfolding group_edges
  edges_edges a [] p y = ground arith
  edges_edges a (c ∷ cs) p y =
      edges_edges a cs (add_edge (edge id digits h a c c) p) y
      ∙ ap (λ b. b || any (λ c. edge id digits h a c c == y) cs)
          (contains-add_new (edge id digits h a c c) y p.edges)
      ∙ or_assoc (contains p.edges y) (edge id digits h a c c == y)
          (any (λ c. edge id digits h a c c == y) cs)

  tasks_nodes :
      (is : List ℕ) (p : Picture) (y : String)
      → contains (with_tasks is p).nodes y
        ≡ (contains p.nodes y || any (λ i. single_line i == y) is)
  tasks_nodes [] p y = ground arith
  tasks_nodes (i ∷ is) p y =
      tasks_nodes is (with_task i p) y
      ∙ ap (λ b. b || any (λ i. single_line i == y) is)
          (ap (λ xs. contains xs y) (edges_nodes i (children_of h i) (add_node (single_line i) p))
            ∙ contains-add_new (single_line i) y p.nodes)
      ∙ or_assoc (contains p.nodes y) (single_line i == y) (any (λ i. single_line i == y) is)

  abbrev pub leads : ℕ → String → Bool
  leads i y = any (λ c. edge id digits h i c c == y) (children_of h i)

  tasks_edges :
      (is : List ℕ) (p : Picture) (y : String)
      → contains (with_tasks is p).edges y ≡ (contains p.edges y || any (λ i. leads i y) is)
  tasks_edges [] p y = ground arith
  tasks_edges (i ∷ is) p y =
      tasks_edges is (with_task i p) y
      ∙ ap (λ b. b || any (λ i. leads i y) is)
          (edges_edges i (children_of h i) (add_node (single_line i) p) y)
      ∙ or_assoc (contains p.edges y) (leads i y) (any (λ i. leads i y) is)

  -- Where no task is parallel and the task has a root, `generate_dot` ends after as many rounds as the
  -- traversal from the root yields tasks. The picture has exactly the node lines of the tasks of the
  -- traversal, a box for a sink, a diamond for a conditional task and a circle for any other, and
  -- exactly the edges from these tasks to each of their children.
  pub generate_dot_exact :
      (i r : ℕ)
      → get_root h i ≡ some r
      → (p : Picture) × (generate_dot id digits h (length (bf_traversal (length h) h r)) i
          ≡ drawn p)
        × ((y : String)
            → contains p.nodes y ≡ any (λ j. single_line j == y) (bf_traversal (length h) h r))
        × ((y : String) → contains p.edges y ≡ any (λ j. leads j y) (bf_traversal (length h) h r))
  unfolding generate_dot
  generate_dot_exact i r root =
      let tasks : List ℕ = bf_traversal (length h) h r in
      let blank : Picture = record { nodes = []; edges = [] } in
      (
        with_tasks tasks blank,
        rw (root, generate_dot) (draw_lem tasks blank),
        tasks_nodes tasks blank,
        tasks_edges tasks blank,
      )
