-- ===== src/Execution/Fuel.antt =====
-- How much fuel execute_task (nexus/task.py) takes under a weight of the tasks.
use event_pipeline.Prelude.{
  ℕ, zero, suc, ◌+◌, ◌*◌, ◌≤◌, ◌<◌, ◌≡◌, refl, sym, subst, Option, none, some, List, [], ◌∷◌,
  get_elem?, arith, inl, inr, Option-cases,
}
use event_pipeline.Task.{Task, Heap}
use event_pipeline.Execution.{
  World, Run, Exit, returned, task_switching_error, attribute_error, Next, stop, go_on, activate,
  step, execute_task,
}
use event_pipeline.Execution.Weights.{queued, cost_of, IsWeighted, Less, activate-Less}

module _ {V : Type 0} (h : Heap) (w : World V) where
  pub step_absent :
      (i : ℕ) (p : Option ℕ) (s : Run V)
      → get_elem? h i ≡ none
      → step h w i p s ≡ (stop attribute_error, s)
  unfolding step
  step_absent i p s absent = rw (absent, step) refl

  pub step_found :
      (i : ℕ) (p : Option ℕ) (s : Run V) (t : Task)
      → get_elem? h i ≡ some t
      → step h w i p s ≡ activate h w i t p s
  unfolding step
  step_found i p s t found = rw (found, step) refl

module _ {V : Type 0} (W : ℕ → ℕ) (h : Heap) (w : World V) where
  -- The result is there, and the deque has grown by no more than the call had to do.
  abbrev pub Ends : ℕ → Option (Exit × Run V) → Type 0
  Ends bound o = (r : Exit × Run V) × (o ≡ some r) × (queued W r.1.sink_queue ≤ bound)

  abbrev Total : ℕ → Type 0
  Total fuel =
      (o p : Option ℕ) (s : Run V)
      → cost_of W o + queued W s.sink_queue < fuel
      → Ends (cost_of W o + queued W s.sink_queue) (execute_task h w fuel o p s)

  Ends-mono : (a b : ℕ) (o : Option (Exit × Run V)) → a ≤ b → Ends a o → Ends b o
  Ends-mono a b o le (r, e, q) = (r, e, omega arith)

  abbrev resumed : ℕ → Next × Run V → Option (Exit × Run V)
  resumed fuel (n, s) = elim n [ stop e ↦ some (e, s) | go_on o p ↦ execute_task h w fuel o p s ]

  resume-Ends :
      (fuel bound : ℕ) (n : Next × Run V)
      → Total fuel
      → bound ≤ fuel
      → Less W h w bound n
      → Ends bound (elim n.0 [ stop e ↦ some (e, n.1) | go_on o p ↦ execute_task h w fuel o p n.1 ])
  resume-Ends fuel bound (stop e, s) total enough less = ((e, s), refl, omega arith)
  resume-Ends fuel bound (go_on o p, s) total enough less =
      Ends-mono (cost_of W o + queued W s.sink_queue) bound (execute_task h w fuel o p s)
        (omega arith) (total o p s (omega arith))

  then-Ends :
      (fuel bound : ℕ) (p : Option ℕ) (r : Exit × Run V)
      → Total fuel
      → bound < fuel
      → 1 + queued W r.1.sink_queue ≤ bound
      → Ends bound
          (elim r.0 [ returned ↦ execute_task h w fuel none p r.1 | other ↦ some (other, r.1) ])
  then-Ends fuel bound p (returned, s) total enough less =
      Ends-mono (1 + queued W s.sink_queue) bound (execute_task h w fuel none p s) less
        (total none p s (omega arith))
  then-Ends fuel bound p (task_switching_error, s) total enough less =
      ((task_switching_error, s), refl, omega arith)
  then-Ends fuel bound p (attribute_error, s) total enough less =
      ((attribute_error, s), refl, omega arith)

  task-Ends :
      (fuel i : ℕ) (p : Option ℕ) (s : Run V)
      → IsWeighted W h
      → Total fuel
      → 2 * W i + queued W s.sink_queue ≤ fuel
      → Ends (2 * W i + queued W s.sink_queue) (execute_task h w (suc fuel) (some i) p s)
  unfolding execute_task
  task-Ends fuel i p s weighted total enough = elim (Option-cases (get_elem? h i)) [
    | inl absent ↦
        subst (λ n. Ends (2 * W i + queued W s.sink_queue) (resumed fuel n))
          (sym (step_absent h w i p s absent)) ((attribute_error, s), refl, omega arith)
    | inr (t, found) ↦
        subst (λ n. Ends (2 * W i + queued W s.sink_queue) (resumed fuel n))
          (sym (step_found h w i p s t found))
          (resume-Ends fuel (2 * W i + queued W s.sink_queue) (activate h w i t p s) total enough
            (activate-Less W h w i t p s weighted found))
  ]

  sinks_end :
      (fuel : ℕ) (p : Option ℕ) (s : Run V) (q : List ℕ)
      → Total fuel
      → s.sink_queue ≡ q
      → queued W q < fuel
      → Ends (1 + queued W q) (execute_task h w (suc fuel) none p s)
  unfolding execute_task
  sinks_end fuel p s [] total e enough =
      rw (e, execute_task) ((returned, s), refl, rw e (omega arith))
  sinks_end fuel p s (k ∷ ks) total e enough =
      let (r, run, less) = total (some k) p (record s { sink_queue = ks }) (omega arith) in
      rw (e, execute_task)
        (rw run (
          Ends-mono (2 * W k + 1 + queued W ks) _ _ (omega arith)
            (then-Ends fuel (2 * W k + 1 + queued W ks) p r total (omega arith) (omega arith))))

  pub execute_task_ends : (fuel : ℕ) → IsWeighted W h → Total fuel
  execute_task_ends zero weighted o p s enough = elim enough [ ]
  execute_task_ends (suc fuel) weighted (some i) p s enough =
      task-Ends fuel i p s weighted (execute_task_ends fuel weighted) (omega arith)
  execute_task_ends (suc fuel) weighted none p s enough =
      sinks_end fuel p s s.sink_queue (execute_task_ends fuel weighted) refl (omega arith)
