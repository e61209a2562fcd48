-- ===== src/Drawing/Endless.antt =====
-- The loop of generate_dot_from_task_state (nexus/translator/dot.py) at a sink behind `||`.
use event_pipeline.Prelude.{
  ℕ, zero, suc, ◌-◌, ◌≡◌, refl, sym, ap, ◌∙◌, String, true, false, Option, none, some, List, [],
  ◌∷◌, length, get_elem?, lt-of-get_elem?, ==_refl, arith, inl, inr, Bool-cases, Option-cases,
}
use event_pipeline.Pipe.{parallelism, is_parallelism}
use event_pipeline.Task.{Task, Heap, refers, bf_traversal, get_pointer_type, pointer_from}
use event_pipeline.Execution.Parallel.{is_parallel_execution_node, get_parallel_nodes, chain}
use event_pipeline.Drawing.{
  group_text, visit_group, Picture, Drawn, out_of_fuel, starts_at, goes_on, fails, raised, Visit,
  is_sink, is_passed_over, is_conditional_at, parallel_nodes, get_dot_node_data, visit, draw,
  no_none, group_edges, add_node, group_line, children_of,
}

module _ (id digits : ℕ → String) (h : Heap) (d : ℕ) (t : Task) (found : get_elem? h d ≡ some t)
    (single : is_parallelism t.on_success_pipe ≡ false)
    (parallel : is_parallel_execution_node h d ≡ true) where
  size : length h ≡ suc (length h - 1)
  size = omega (arith, lt-of-get_elem? h d found)

  chain_alone : (n : ℕ) → chain (suc n) h (some d) ≡ some d ∷ []
  unfolding chain
  chain_alone n = rw (found, chain) (rw (single, chain) refl)

  parallel_nodes_alone : parallel_nodes id digits h d ≡ some (d, [])
  unfolding parallel_nodes get_parallel_nodes no_none
  parallel_nodes_alone =
      rw (parallel, parallel_nodes) (rw size (rw (chain_alone (length h - 1)) refl))

  node_data-ne-none : get_dot_node_data id digits h d ≡ none → ⊥
  unfolding get_dot_node_data
  node_data-ne-none e = elim (Bool-cases (is_sink h d)) [
    | inl sink ↦ cc (rw sink at e)
    | inr other ↦ elim (Bool-cases (is_conditional_at h d)) [
      | inl conditional ↦ cc (rw conditional at (rw other at e))
      | inr plain ↦
          let shown : group_text id digits h (parallel_nodes id digits h d) ≡ none =
            rw parallel at (rw plain at (rw other at e)) in
          cc (sym (ap (group_text id digits h) parallel_nodes_alone) ∙ shown)
    ]
  ]

  module _ (shown : is_passed_over h d ≡ false) where
    visit_again : (p : Picture) → (p' : Picture) × (visit id digits h d p ≡ starts_at d p')
    unfolding visit
    visit_again p = elim (Option-cases (get_dot_node_data id digits h d)) [
      | inl none_there ↦ absurd (node_data-ne-none none_there)
      | inr (s, line) ↦
          let p' : Picture =
            group_edges id digits h d (children_of h d)
              (add_node (group_line id digits h d []) (add_node s p)) in
          (
            p',
            rw shown (
                rw (line, visit)
                  (rw parallel
                    (ap (λ g. visit_group id digits h g (add_node s p)) parallel_nodes_alone))),
          )
    ]

    yields_itself : (is : List ℕ) × (bf_traversal (length h) h d ≡ d ∷ is)
    unfolding bf_traversal
    yields_itself = rw size (rw (found, bf_traversal) (_, refl))

    draw_again :
        (fuel : ℕ) (is : List ℕ) (p : Picture) → draw id digits h fuel (d ∷ is) p ≡ out_of_fuel
    unfolding draw
    draw_again zero is p = refl
    draw_again (suc fuel) is p =
        let (p', again) = visit_again p in
        let (is', first) = yields_itself in rw (again, draw) (rw first (draw_again fuel is' p'))

module _ (id digits : ℕ → String) (h : Heap) (a d : ℕ) (u t : Task) where
  -- When the iterator of the loop yields the sink of a task with branches, and the sink stands behind
  -- `||` with no `||` after it, the loop never ends, whatever the picture and the rest of the
  -- iterator are: it sets the iterator to the sink, which it has just drawn.
  pub draw_never_ends :
      get_elem? h a ≡ some u
      → get_elem? h d ≡ some t
      → t.parent_node ≡ some a
      → u.sink_node ≡ some d
      → u.sink_pipe ≡ some parallelism
      → refers u.on_success_event d ≡ false
      → refers u.on_failure_event d ≡ false
      → is_parallelism u.on_success_pipe ≡ false
      → is_parallelism t.on_success_pipe ≡ false
      → (fuel : ℕ) (is : List ℕ) (p : Picture) → draw id digits h fuel (d ∷ is) p ≡ out_of_fuel
  unfolding is_parallel_execution_node get_pointer_type pointer_from is_passed_over
  draw_never_ends above found parent sink pipe success failure before after fuel is p =
      draw_again id digits h d t found after
        (rw (found, is_parallel_execution_node)
          (rw after (
            rw (found, get_pointer_type)
              (rw (parent, get_pointer_type)
                (rw (above, get_pointer_type)
                  (rw success (rw failure (rw sink (rw (==_refl d) (rw pipe refl))))))))))
        (rw (found, is_passed_over)
          (rw (parent, is_passed_over) (rw (above, is_passed_over) (rw before refl))))
        fuel is p

module _ (id digits : ℕ → String) (h : Heap) (i : ℕ)
    (parallel : is_parallel_execution_node h i ≡ true) (shown : is_passed_over h i ≡ false) where
  -- After `visit` the iterator does not go on.
  abbrev GoesNotOn : Visit → Type 0
  GoesNotOn (goes_on p) = ⊥
  GoesNotOn (starts_at j p) = Unit
  GoesNotOn fails = Unit

  visit_group-GoesNotOn :
      (g : Option (ℕ × List ℕ)) (p : Picture) → GoesNotOn (visit_group id digits h g p)
  visit_group-GoesNotOn none p = tt
  visit_group-GoesNotOn (some (j, js)) p = tt

  visit-GoesNotOn : (p : Picture) → GoesNotOn (visit id digits h i p)
  unfolding visit
  visit-GoesNotOn p = elim (Option-cases (get_dot_node_data id digits h i)) [
    | inl no_line ↦ rw shown (rw (no_line, visit) tt)
    | inr (s, line) ↦ rw shown (
        rw (line, visit)
          (rw parallel (visit_group-GoesNotOn (parallel_nodes id digits h i) (add_node s p))))
  ]

  by_visit : ℕ → List ℕ → Visit → Drawn
  by_visit fuel is (goes_on p) = draw id digits h fuel is p
  by_visit fuel is (starts_at j p) = draw id digits h fuel (bf_traversal (length h) h j) p
  by_visit fuel is fails = raised

  by_visit-same :
      (fuel : ℕ) (is js : List ℕ) (v : Visit)
      → GoesNotOn v
      → by_visit fuel is v ≡ by_visit fuel js v
  unfolding by_visit
  by_visit-same fuel is js (goes_on p) h = absurd h
  by_visit-same fuel is js (starts_at j p) h = refl
  by_visit-same fuel is js fails h = refl

  -- When the iterator yields a parallel task that is not the last of its chain, the rest of the
  -- iterator makes no difference to what is drawn: the tasks that are only there are left out.
  pub draw_forgets :
      (fuel : ℕ) (is js : List ℕ) (p : Picture)
      → draw id digits h fuel (i ∷ is) p ≡ draw id digits h fuel (i ∷ js) p
  unfolding draw by_visit
  draw_forgets zero is js p = refl
  draw_forgets (suc fuel) is js p =
      by_visit-same fuel is js (visit id digits h i p) (visit-GoesNotOn p)
