-- ===== src/Execution/Parallel.antt =====
-- The parallel nodes of a task (nexus/task.py: PipelineTask.get_parallel_nodes), which drawings of a
-- pipeline use, and the parallel tasks that execute_task gathers.
use event_pipeline.Prelude.{
  ℕ, zero, suc, ◌≡◌, refl, ◌∙◌, ap, sym, Bool, true, false, ◌||◌, Option, none, some, List, [], ◌∷◌,
  ◌++◌, map, get_elem?, length, is_some, if◌then◌else◌, inl, inr, Bool-cases, Option-cases,
}
use event_pipeline.Pipe.{is_parallelism}
use event_pipeline.Task.{Task, Heap, get_pointer_type}
use event_pipeline.Context.{is_parallel_pointer}
use event_pipeline.Execution.{gather, profiles_of}

unfoldable pub is_parallel_execution_node : Heap → ℕ → Bool
is_parallel_execution_node h i = elim (get_elem? h i) [
  | none ↦ false
  | some t ↦ is_parallelism t.on_success_pipe || is_parallel_pointer (get_pointer_type h i)
]

-- The loop of get_parallel_nodes, and the task after it, which may be None.
unfoldable pub chain : ℕ → Heap → Option ℕ → List (Option ℕ)
chain zero h o = o ∷ []
chain (suc fuel) h none = none ∷ []
chain (suc fuel) h (some i) = elim (get_elem? h i) [
  | none ↦ some i ∷ []
  | some t ↦
      let more = chain fuel h t.on_success_event in
      if is_parallelism t.on_success_pipe then some i ∷ more else some i ∷ []
]

-- `none` is the None of a task that is not parallel.
unfoldable pub get_parallel_nodes : Heap → ℕ → Option (List (Option ℕ))
get_parallel_nodes h i =
    if is_parallel_execution_node h i then some (chain (length h) h (some i)) else none

-- A task that a parallel pipe leads from has a successor.
abbrev pub IsPaired : Heap → Type 0
IsPaired h =
    (i : ℕ) (t : Task)
    → get_elem? h i ≡ some t
    → is_parallelism t.on_success_pipe ≡ true
    → is_some t.on_success_event ≡ true

pub profiles_of-append : (g : List ℕ × ℕ) → profiles_of g ≡ g.0 ++ g.1 ∷ []
profiles_of-append ([], last) = refl
profiles_of-append (i ∷ is, last) = refl

-- The loop goes where that of execute_task goes.
chain-gather :
    (fuel : ℕ) (h : Heap) (i : ℕ)
    → IsPaired h
    → chain fuel h (some i) ≡ map some ((gather fuel h i).0 ++ (gather fuel h i).1 ∷ [])
unfolding chain gather
chain-gather zero h i paired = refl
chain-gather (suc fuel) h i paired = elim (Option-cases (get_elem? h i)) [
  | inl absent ↦ rw (absent, chain, gather) refl
  | inr (t, found) ↦ elim (Bool-cases (is_parallelism t.on_success_pipe)) [
    | inl parallel ↦ elim (Option-cases t.on_success_event) [
      | inl end ↦ cc (paired i t found parallel, ap is_some end)
      | inr (j, next) ↦
          rw (found, chain, gather)
            (rw parallel
              (rw next (ap (λ (ns : List (Option ℕ)). some i ∷ ns) (chain-gather fuel h j paired))))
    ]
    | inr single ↦ rw (found, chain, gather) (rw single refl)
  ]
]

-- Where every task with a parallel pipe has a successor, the parallel nodes of a parallel task are the tasks that execute_task gathers into the one context that it opens for this task, in the same order.
pub get_parallel_nodes-gather :
    (h : Heap) (i : ℕ)
    → IsPaired h
    → is_parallel_execution_node h i ≡ true
    → get_parallel_nodes h i ≡ some (map some (profiles_of (gather (length h) h i)))
unfolding get_parallel_nodes
get_parallel_nodes-gather h i paired parallel = rw parallel (
    ap some (
      chain-gather (length h) h i paired
      ∙ ap (λ (is : List ℕ). map some is)
          {x = (gather (length h) h i).0 ++ (gather (length h) h i).1 ∷ []}
          {y = profiles_of (gather (length h) h i)}
          (sym (profiles_of-append (gather (length h) h i)))))
