-- ===== src/Execution/Termination.antt =====
-- The fuel of execute_task (nexus/task.py) on what build_pipeline_from_execution_code gives.
use event_pipeline.Prelude.{
  ℕ, zero, suc, ◌+◌, ◌-◌, ◌*◌, ◌^◌, ◌≤◌, ◌<◌, ◌≡◌, inl, inr, true, Bool-cases, Option, some, [],
  ◌∷◌, get_elem?, length, lt-of-get_elem?, All, arith, Option-cases, comparable_nat,
}
use event_pipeline.Prelude.Dict.{Dict, lookup, values}
use event_pipeline.Pipe.{is_parallelism}
use event_pipeline.Ast.{Ast}
use event_pipeline.Task.{Task, Heap, DescriptorConfig}
use event_pipeline.Task.Segments.{Seg, Edges, OptAll-map, Below}
use event_pipeline.Task.Build.{ok, build_pipeline}
use event_pipeline.Task.Forest.{IsForest, build-IsPipeline}
use event_pipeline.Execution.{World, Run, Exit, gather, execute_task}
use event_pipeline.Execution.Weights.{Stops, Branches, IsWeighted, sink_cost}
use event_pipeline.Execution.Fuel.{execute_task_ends}

two_pow_pos : (a : ℕ) → 1 ≤ 2 ^ a
two_pow_pos zero = omega arith
two_pow_pos (suc a) = omega (arith, two_pow_pos a)

two_pow_lt : (a b : ℕ) → a < b → 2 * 2 ^ a ≤ 2 ^ b
two_pow_lt zero zero h = omega arith
two_pow_lt zero (suc b) h = omega (arith, two_pow_pos b)
two_pow_lt (suc a) zero h = omega arith
two_pow_lt (suc a) (suc b) h = omega (arith, two_pow_lt a b (omega arith))

lookup-All :
    (P : DescriptorConfig → Type 0) (n : ℕ) (m : Dict ℕ DescriptorConfig) (c : DescriptorConfig)
    → All P (values m)
    → lookup n m ≡ some c
    → P c
unfolding lookup
lookup-All P n [] c all e = cc
lookup-All P n ((k, v) ∷ m) c all e = ground (arith, lookup-All P n m c all.1)

module _ (h : Heap) (d : ℕ → ℕ) (s : Seg d h 0 (length h)) where
  weight : ℕ → ℕ
  weight i = 4 * 2 ^ (length h - d i) - 2

  edges : (i : ℕ) (t : Task) → get_elem? h i ≡ some t → Edges d 0 (length h) i t
  edges i t found = s.edges i t (omega arith) (lt-of-get_elem? h i found) found

  Reaches : ℕ → ℕ → Type 0
  Reaches i last = (last < length h) × (d i ≤ d last)

  passed_on :
      (fuel i : ℕ) (t : Task)
      → Edges d 0 (length h) i t
      → i < length h
      → ((j : ℕ) → j < length h → Reaches j (gather fuel h j).1)
      → get_elem? h i ≡ some t
      → is_parallelism t.on_success_pipe ≡ true
      → Reaches i (gather (suc fuel) h i).1
  unfolding gather Reaches
  passed_on fuel i t below inside deeper found parallel = elim (Option-cases t.on_success_event) [
    | inl end ↦ rw (found, gather) (rw parallel (rw end (inside, omega arith)))
    | inr (j, next) ↦
        let (lo, hi, down) = (rw next at below.success) in
        let (stays, further) = deeper j hi in
        rw (found, gather) (rw parallel (rw next (stays, omega arith)))
  ]

  gather-deeper : (fuel i : ℕ) → i < length h → Reaches i (gather fuel h i).1
  unfolding gather Reaches
  gather-deeper zero i inside = (inside, omega arith)
  gather-deeper (suc fuel) i inside = elim (Option-cases (get_elem? h i)) [
    | inl absent ↦ rw (absent, gather) (inside, omega arith)
    | inr (t, found) ↦ elim (Bool-cases (is_parallelism t.on_success_pipe)) [
      | inl parallel ↦
          passed_on fuel i t (edges i t found) inside (gather-deeper fuel) found parallel
      | inr single ↦ rw (found, gather) (rw single (inside, omega arith))
    ]
  ]

  Stops-Reaches : (i last : ℕ) → i < length h → Stops weight h i last → Reaches i last
  unfolding Reaches
  Stops-Reaches i last inside (inl e) = rw e (inside, omega arith)
  Stops-Reaches i last inside (inr e) = rw e (gather-deeper (length h) i inside)

  -- Two of a deeper task weigh no more than one task less four.
  deeper_weight : (i c : ℕ) → d i < d c → c < length h → 2 * weight c + 4 ≤ 4 * 2 ^ (length h - d i)
  unfolding weight
  deeper_weight i c down inside = omega (
    arith,
    s.bound c (omega arith) inside,
    two_pow_pos (length h - d c),
    two_pow_lt (length h - d c) (length h - d i) (omega (arith, s.bound c (omega arith) inside)),
  )

  room_of : ℕ → ℕ
  room_of i = 4 * 2 ^ (length h - d i) - 4

  target_weight :
      (i last c : ℕ) → d i ≤ d last → Below d 0 (length h) last c → 2 * weight c ≤ room_of i
  unfolding room_of
  target_weight i last c le (lo, hi, down) = omega (arith, deeper_weight i c (omega arith) hi)

  some_room : (i : ℕ) → i < length h → 4 ≤ room_of i
  unfolding room_of
  some_room i inside = omega (
    arith,
    s.bound i (omega arith) inside,
    two_pow_pos 0,
    two_pow_lt 0 (length h - d i) (omega (arith, s.bound i (omega arith) inside)),
  )

  to_Branches :
      (i last : ℕ) (t : Task)
      → i < length h
      → d i ≤ d last
      → Edges d 0 (length h) last t
      → Branches weight t (room_of i)
  to_Branches i last t inside le below = record {
    some_room = omega (arith, some_room i inside);
    success = OptAll-map t.on_success_event (λ c. target_weight i last c le) below.success;
    failure = OptAll-map t.on_failure_event (λ c. target_weight i last c le) below.failure;
    custom = λ n c e. target_weight i last c.task le (
        lookup-All (λ (x : DescriptorConfig). Below d 0 (length h) last x.task) n t.descriptors c
          below.customs e);
  }

  falls :
      (i : ℕ) (t : Task)
      → i < length h
      → Edges d 0 (length h) i t
      → room_of i + sink_cost weight t < 2 * weight i
  unfolding room_of weight
  falls i t inside below = elim (Option-cases t.sink_node) [
    | inl no_sink ↦ rw no_sink (omega (arith, two_pow_pos (length h - d i)))
    | inr (k, sink) ↦
        let (lo, hi, down) = (rw sink at below.sink) in
        rw sink (omega (arith, deeper_weight i k down hi, two_pow_pos (length h - d i)))
  ]

  weighted : IsWeighted weight h
  unfolding Reaches
  weighted = record {
    room = room_of;
    branches = λ i last t t' found stops found'.
        let inside = lt-of-get_elem? h i found in
        to_Branches i last t' inside (Stops-Reaches i last inside stops).1 (edges last t' found');
    falls = λ i t found. falls i t (lt-of-get_elem? h i found) (edges i t found);
  }

  weight-le : (i : ℕ) → weight i ≤ 4 * 2 ^ length h - 2
  unfolding weight
  weight-le i = omega (arith, two_pow_lt (length h - d i) (suc (length h)) (omega arith))

module _ {V : Type 0} (h : Heap) (w : World V) where
  forest_ends :
      IsForest h
      → (i : ℕ) (p : Option ℕ) (s : Run V) → s.sink_queue ≡ []
      → (r : Exit × Run V) × (execute_task h w (8 * 2 ^ length h) (some i) p s ≡ some r)
  unfolding weight
  forest_ends f i p s idle =
      let W = weight h f.depth f.ordered in
      let (r, e, less) =
        execute_task_ends W h w (8 * 2 ^ length h) (weighted h f.depth f.ordered) (some i) p s
          (rw idle (omega (arith, weight-le h f.depth f.ordered i, two_pow_pos (length h)))) in
      (r, e)

-- If building the tasks of a syntax tree succeeds, then execute_task comes to an end on them, whatever the executors, the events and the evaluation states answer, from every task and previous context, when no sink waits: 8 * 2 ^ n activations are enough for n tasks.
pub execute_task_terminates :
    {V : Type 0} (x : Ast) (r : ℕ) (h : Heap) (w : World V) (i : ℕ) (p : Option ℕ) (s : Run V)
    → build_pipeline x ≡ ok (r, h)
    → s.sink_queue ≡ []
    → (result : Exit × Run V) × (execute_task h w (8 * 2 ^ length h) (some i) p s ≡ some result)
execute_task_terminates x r h w i p s built idle =
    forest_ends h w (build-IsPipeline x r h built).forest i p s idle
