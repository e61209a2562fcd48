-- ===== src/Submission/Previous.antt =====
-- The results that EventExecutionContext._get_executor_context_and_event (nexus/task.py) hands to an
-- event, and PipelineTask.get_parallel_execution_parent_node, which decides on them.
use event_pipeline.Prelude.{
  ℕ, zero, suc, ◌<◌, ◌-◌, ◌≡◌, ◌⊎◌, refl, ◌∙◌, ap, Bool, true, false, ◌||◌, Option, none, some,
  List, [], ◌∷◌, ◌++◌, get_elem?, length, if◌then◌else◌, arith, inl, inr, Bool-cases, Option-cases,
  All, lt-of-get_elem?, ==_refl,
}
use event_pipeline.Exceptions.{EventResult}
use event_pipeline.Pipe.{PipeType, pointer, pipe_pointer, parallelism, retry, is_parallelism}
use event_pipeline.Task.{
  Task, Heap, Pointer, no_pointer, pipe, of_pipe, get_pointer_type, pointer_from, get_root,
  root_within,
}
use event_pipeline.Context.{Context, is_parallel_pointer}
use event_pipeline.Execution.{gather, profiles_of}
use event_pipeline.Execution.Parallel.{is_parallel_execution_node, profiles_of-append}

-- The argument `previous_result` of an event: absent, EMPTY, or the results of the previous context.
pub data PreviousResult (V : Type 0) : Type 0 where
  absent empty : PreviousResult V
  results : List (EventResult V) → PreviousResult V

-- One step of get_parallel_execution_parent_node: None, the task itself, or its parent.
pub data Climb : Type 0 where
  nothing arrived : Climb
  higher : ℕ → Climb

unfoldable pub climb : Heap → ℕ → Climb
unfolding is_parallel_execution_node
climb h i =
    if is_parallel_execution_node h i
    then (elim (get_elem? h i) [
      | none ↦ nothing
      | some t ↦ elim t.parent_node [
        | none ↦ arrived
        | some p ↦ elim (get_elem? h p) [
          | none ↦ nothing
          | some parent ↦ if is_parallelism parent.on_success_pipe then higher p else arrived
        ]
      ]
    ])
    else nothing

abbrev pub by_climb : ℕ → (ℕ → Option ℕ) → Climb → Option ℕ
by_climb i up nothing = none
by_climb i up arrived = some i
by_climb i up (higher p) = up p

-- get_parallel_execution_parent_node; `none` is None, or a climb that did not end within the fuel.
unfoldable pub parallel_parent : ℕ → Heap → ℕ → Option ℕ
unfolding climb
parallel_parent zero h i = none
parallel_parent (suc fuel) h i = by_climb i (parallel_parent fuel h) (climb h i)

-- `pointer_type`; the head of a chain of parallel tasks stands for its members.
unfoldable pub pointer_type : Heap → ℕ → Pointer
unfolding parallel_parent
pointer_type h i =
    if is_parallel_execution_node h i
    then (elim (parallel_parent (length h) h i) [
      | none ↦ no_pointer
      | some parent ↦ get_pointer_type h parent
    ])
    else get_pointer_type h i

abbrev pub results_of : {V : Type 0} → Option (Context V) → PreviousResult V
results_of none = empty
results_of (some c) = results c.execution_result

abbrev pub handed_on : {V : Type 0} → Pointer → Option (Context V) → PreviousResult V
handed_on (pipe pipe_pointer) previous = results_of previous
handed_on p previous = absent

unfoldable pub previous_result : {V : Type 0} → Heap → ℕ → Option (Context V) → PreviousResult V
unfolding pointer_type
previous_result h i previous = handed_on (pointer_type h i) previous

-- The task that a parallel pipe leads to has the task that it leads from as its parent.
abbrev pub IsJoined : Heap → Type 0
IsJoined h =
    (i j : ℕ) (t : Task)
    → get_elem? h i ≡ some t
    → is_parallelism t.on_success_pipe ≡ true
    → t.on_success_event ≡ some j
    → (t' : Task) × (get_elem? h j ≡ some t') × (t'.parent_node ≡ some i)

abbrev pub IsRooted : Heap → Type 0
IsRooted h = (i : ℕ) → i < length h → (r : ℕ) × (get_root h i ≡ some r)

from_parallel :
    (h : Heap) (i : ℕ) (t : Task)
    → get_elem? h i ≡ some t
    → is_parallelism t.on_success_pipe ≡ true
    → is_parallel_execution_node h i ≡ true
unfolding is_parallel_execution_node
from_parallel h i t found parallel =
    rw (found, is_parallel_execution_node) (rw (parallel, is_parallel_execution_node) refl)

parallel_pointer :
    (p : Option PipeType) → is_parallelism p ≡ true → is_parallel_pointer (of_pipe p) ≡ true
parallel_pointer none e = cc
parallel_pointer (some pointer) e = cc
parallel_pointer (some pipe_pointer) e = cc
parallel_pointer (some parallelism) e = refl
parallel_pointer (some retry) e = cc

or_true : (a : Bool) {b : Bool} → b ≡ true → (a || b) ≡ true
or_true true e = refl
or_true false e = e

pointer-joined :
    (h : Heap) (i j : ℕ) (t t' : Task)
    → get_elem? h i ≡ some t
    → t.on_success_event ≡ some j
    → get_elem? h j ≡ some t'
    → t'.parent_node ≡ some i
    → get_pointer_type h j ≡ of_pipe t.on_success_pipe
unfolding get_pointer_type pointer_from
pointer-joined h i j t t' found next found' parent =
    rw (found', get_pointer_type)
      (rw (parent, get_pointer_type) (rw (found, get_pointer_type) (rw next (rw (==_refl j) refl))))

to_parallel :
    (h : Heap) (i j : ℕ) (t t' : Task)
    → get_elem? h i ≡ some t
    → is_parallelism t.on_success_pipe ≡ true
    → t.on_success_event ≡ some j
    → get_elem? h j ≡ some t'
    → t'.parent_node ≡ some i
    → is_parallel_execution_node h j ≡ true
unfolding is_parallel_execution_node
to_parallel h i j t t' found parallel next found' parent =
    rw (found', is_parallel_execution_node)
      (or_true (is_parallelism t'.on_success_pipe) (
        ap is_parallel_pointer (pointer-joined h i j t t' found next found' parent)
        ∙ parallel_pointer t.on_success_pipe parallel))

abbrev Climbs : ℕ → Heap → ℕ → ℕ → Type 0
Climbs fuel h i r =
    (climb h i ≡ arrived)
    ⊎ ((p : ℕ) × (climb h i ≡ higher p)
        × (root_within fuel h p ≡ some r)
        × (is_parallel_execution_node h p ≡ true))

on_heap :
    (fuel : ℕ) (h : Heap) (p r : ℕ)
    → root_within fuel h p ≡ some r
    → (parent : Task) × (get_elem? h p ≡ some parent)
unfolding root_within
on_heap zero h p r e = cc
on_heap (suc fuel) h p r e = elim (Option-cases (get_elem? h p)) [
  | inl off ↦ cc (rw (off, root_within) at e)
  | inr here ↦ here
]

climb-Climbs :
    (fuel : ℕ) (h : Heap) (i r : ℕ)
    → root_within (suc fuel) h i ≡ some r
    → is_parallel_execution_node h i ≡ true
    → Climbs fuel h i r
unfolding climb root_within
climb-Climbs fuel h i r e parallel =
    let (t, found) = on_heap (suc fuel) h i r e in
    elim (Option-cases t.parent_node) [
      | inl top ↦ inl (rw (parallel, climb) (rw (found, climb) (rw (top, climb) refl)))
      | inr (p, parent) ↦
          let up : root_within fuel h p ≡ some r =
            rw (parent, root_within) at (rw (found, root_within) at e) in
          let (t', found') = on_heap fuel h p r up in
          elim (Bool-cases (is_parallelism t'.on_success_pipe)) [
            | inl more ↦ inr (
              p,
              rw (parallel, climb)
                  (rw (found, climb)
                    (rw (parent, climb) (rw (found', climb) (rw (more, climb) refl)))),
              up,
              from_parallel h p t' found' more,
            )
            | inr end ↦ inl (
                rw (parallel, climb)
                  (rw (found, climb)
                    (rw (parent, climb) (rw (found', climb) (rw (end, climb) refl)))))
          ]
    ]

-- A climb that reaches a root ends for parallel tasks too.
parallel_parent_ends :
    (fuel : ℕ) (h : Heap) (i r : ℕ)
    → root_within fuel h i ≡ some r
    → is_parallel_execution_node h i ≡ true
    → (q : ℕ) × (parallel_parent fuel h i ≡ some q)
unfolding parallel_parent root_within
parallel_parent_ends zero h i r e parallel = cc
parallel_parent_ends (suc fuel) h i r e parallel = elim (climb-Climbs fuel h i r e parallel) [
  | inl here ↦ (i, rw here refl)
  | inr (p, up, rooted, above) ↦
      let (q, found) = parallel_parent_ends fuel h p r rooted above in (q, rw up found)
]

by_climb_mono :
    (i q : ℕ) (up up' : ℕ → Option ℕ) (c : Climb)
    → ((p : ℕ) → up p ≡ some q → up' p ≡ some q)
    → by_climb i up c ≡ some q
    → by_climb i up' c ≡ some q
by_climb_mono i q up up' nothing more e = e
by_climb_mono i q up up' arrived more e = e
by_climb_mono i q up up' (higher p) more e = more p e

parallel_parent_mono :
    (fuel : ℕ) (h : Heap) (i q : ℕ)
    → parallel_parent fuel h i ≡ some q
    → parallel_parent (suc fuel) h i ≡ some q
unfolding parallel_parent
parallel_parent_mono zero h i q e = cc
parallel_parent_mono (suc fuel) h i q e =
    by_climb_mono i q (parallel_parent fuel h) (parallel_parent (suc fuel) h) (climb h i)
      (λ p. parallel_parent_mono fuel h p q) e

climb-joined :
    (h : Heap) (i j : ℕ) (t t' : Task)
    → get_elem? h i ≡ some t
    → is_parallelism t.on_success_pipe ≡ true
    → t.on_success_event ≡ some j
    → get_elem? h j ≡ some t'
    → t'.parent_node ≡ some i
    → climb h j ≡ higher i
unfolding climb
climb-joined h i j t t' found parallel next found' parent =
    rw (to_parallel h i j t t' found parallel next found' parent, climb)
      (rw (found', climb) (rw (parent, climb) (rw (found, climb) (rw (parallel, climb) refl))))

module _ {V : Type 0} (h : Heap) (joined : IsJoined h) (rooted : IsRooted h)
    (previous : Option (Context V)) where
  pointer_type-joined :
      (n i j : ℕ) (t : Task)
      → length h ≡ suc n
      → get_elem? h i ≡ some t
      → is_parallelism t.on_success_pipe ≡ true
      → t.on_success_event ≡ some j
      → pointer_type h j ≡ pointer_type h i
  unfolding pointer_type get_root root_within parallel_parent
  pointer_type-joined n i j t size found parallel next =
      let (t', found', parent) = joined i j t found parallel next in
      let (r, root) = rooted j (lt-of-get_elem? h j found') in
      let from_i : root_within n h i ≡ some r =
        rw (parent, root_within) at (rw (found', root_within) at (rw size at root)) in
      let (q, ends) = parallel_parent_ends n h i r from_i (from_parallel h i t found parallel) in
      let at_i : parallel_parent (length h) h i ≡ some q =
        rw size (parallel_parent_mono n h i q ends) in
      let at_j : parallel_parent (length h) h j ≡ some q =
        rw size (rw (climb-joined h i j t t' found parallel next found' parent) ends) in
      rw (to_parallel h i j t t' found parallel next found' parent) (
        rw (from_parallel h i t found parallel)
          (rw (at_i, pointer_type) (rw (at_j, pointer_type) refl)))

  abbrev pub Same : ℕ → ℕ → Type 0
  Same i k = previous_result h k previous ≡ previous_result h i previous

  All-Same : (i j : ℕ) (ks : List ℕ) → Same i j → All (Same j) ks → All (Same i) ks
  All-Same i j [] e h = tt
  All-Same i j (k ∷ ks) e h = (h.0 ∙ e, All-Same i j ks e h.1)

  gather-Same : (fuel i : ℕ) → All (Same i) ((gather fuel h i).0 ++ (gather fuel h i).1 ∷ [])
  unfolding gather previous_result
  gather-Same zero i = (refl, tt)
  gather-Same (suc fuel) i = elim (Option-cases (get_elem? h i)) [
    | inl off ↦ rw (off, gather) (refl, tt)
    | inr (t, found) ↦ elim (Bool-cases (is_parallelism t.on_success_pipe)) [
      | inr single ↦ rw (found, gather) (rw single (refl, tt))
      | inl parallel ↦ elim (Option-cases t.on_success_event) [
        | inl end ↦ rw (found, gather) (rw parallel (rw end (refl, tt)))
        | inr (j, next) ↦
            rw (found, gather)
              (rw parallel (
                rw next (
                  refl,
                  All-Same i j ((gather fuel h j).0 ++ (gather fuel h j).1 ∷ [])
                      (ap (λ p. handed_on p previous)
                        (pointer_type-joined (length h - 1) i j t
                          (omega (arith, lt-of-get_elem? h i found)) found parallel next))
                      (gather-Same fuel j),
                )))
      ]
    ]
  ]

  -- Where the task that a parallel pipe leads to has the task that it leads from as its parent, and
  -- every task reaches a root, all tasks that `execute_task` gathers into one context from a task get
  -- the same `previous_result` as this task: none, EMPTY or the results of the previous context.
  pub previous_result-gather : (i : ℕ) → All (Same i) (profiles_of (gather (length h) h i))
  previous_result-gather i =
      rw (profiles_of-append (gather (length h) h i)) (gather-Same (length h) i)
