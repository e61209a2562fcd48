-- ===== src/Execution/Weights.antt =====
-- A weight for tasks, and the weight that an activation of execute_task (nexus/task.py) leaves.
use event_pipeline.Prelude.{
  ℕ, zero, suc, ◌+◌, ◌*◌, ◌≤◌, ◌<◌, ◌≡◌, refl, Bool, true, false, Option, none, some, List, [], ◌∷◌,
  get_elem?, length, arith, inl, inr, ◌⊎◌, Bool-cases, Option-cases, comparable_nat,
}
use event_pipeline.Prelude.Dict.{lookup}
use event_pipeline.Task.{
  Task, Heap, DescriptorConfig, is_conditional, get_descriptor, get_descriptor_config,
}
use event_pipeline.Task.Segments.{OptAll}
use event_pipeline.Context.{Context, SwitchRequest, execution_failed, is_stopped}
use event_pipeline.Execution.{
  World, Run, task_switching_error, Next, stop, go_on, gather, open_context, by_verdict, advance,
  switch_to, follow, configured, decide, activate,
}

module _ (W : ℕ → ℕ) where
  -- What the deque has left to do, and what a call has.
  abbrev pub queued : List ℕ → ℕ
  queued [] = 0
  queued (k ∷ ks) = 2 * W k + 1 + queued ks

  abbrev pub cost_of : Option ℕ → ℕ
  cost_of none = 1
  cost_of (some k) = 2 * W k

  abbrev pub cost : Next → ℕ
  cost (stop e) = 0
  cost (go_on o p) = cost_of o

  abbrev pub sink_cost : Task → ℕ
  sink_cost t = elim t.sink_node [ none ↦ 0 | some k ↦ 2 * W k + 1 ]

  -- Every task that a switch or a branch can lead to from `t` costs at most `m`.
  pub record Branches (t : Task) (m : ℕ) : Type 0 where
    pub some_room : 1 ≤ m
    pub success : OptAll (λ k. 2 * W k ≤ m) t.on_success_event
    pub failure : OptAll (λ k. 2 * W k ≤ m) t.on_failure_event
    pub custom : (n : ℕ) (c : DescriptorConfig) → lookup n t.descriptors ≡ some c → 2 * W c.task ≤ m

  -- At the tasks at which an activation on `i` can stop gathering.
  abbrev pub Stops : Heap → ℕ → ℕ → Type 0
  Stops h i last = (last ≡ i) ⊎ (last ≡ (gather (length h) h i).1)

  pub record IsWeighted (h : Heap) : Type 0 where
    pub room : ℕ → ℕ
    pub branches :
        (i last : ℕ) (t t' : Task)
        → get_elem? h i ≡ some t
        → Stops h i last
        → get_elem? h last ≡ some t'
        → Branches t' (room i)
    pub falls : (i : ℕ) (t : Task) → get_elem? h i ≡ some t → room i + sink_cost t < 2 * W i

  go_on-cost : (o p : Option ℕ) (m : ℕ) → 1 ≤ m → OptAll (λ k. 2 * W k ≤ m) o → cost (go_on o p) ≤ m
  go_on-cost none p m h x = h
  go_on-cost (some k) p m h x = x

module _ {V : Type 0} (W : ℕ → ℕ) (h : Heap) (w : World V) where
  by_verdict-cost :
      (t : Task) (c m : ℕ) (o : Option Bool) → Branches W t m → cost W (by_verdict h w t c o) ≤ m
  by_verdict-cost t c m none b = omega arith
  by_verdict-cost t c m (some true) b =
      go_on-cost W t.on_failure_event (some c) m b.some_room b.failure
  by_verdict-cost t c m (some false) b =
      go_on-cost W t.on_success_event (some c) m b.some_room b.success

  advance-cost :
      (t : Task) (c m : ℕ) (ctx : Context V) → Branches W t m → cost W (advance h w t c ctx) ≤ m
  unfolding advance
  advance-cost t c m ctx b = elim (Bool-cases (is_conditional t)) [
    | inl both ↦ rw both (by_verdict-cost t c m (execution_failed h w.evaluation ctx) b)
    | inr plain ↦ rw plain (go_on-cost W t.on_success_event (some c) m b.some_room b.success)
  ]

  target_cost :
      (o p : Option ℕ) (m : ℕ)
      → OptAll (λ k. 2 * W k ≤ m) o
      → cost W (elim o [ none ↦ stop task_switching_error | some k ↦ go_on (some k) p ]) ≤ m
  target_cost none p m x = omega arith
  target_cost (some k) p m x = x

  descriptor_cost :
      (t : Task) (n m : ℕ) → Branches W t m → OptAll (λ k. 2 * W k ≤ m) (get_descriptor t n)
  unfolding get_descriptor get_descriptor_config
  descriptor_cost t zero m b = b.failure
  descriptor_cost t (suc zero) m b = b.success
  descriptor_cost t (suc (suc n)) m b = elim (Option-cases (lookup (suc (suc n)) t.descriptors)) [
    | inl absent ↦ rw (absent, get_descriptor) tt
    | inr (c, found) ↦ rw (found, get_descriptor) (b.custom (suc (suc n)) c found)
  ]

  switch_to-cost :
      (t : Task) (n m : ℕ) (p : Option ℕ) → Branches W t m → cost W (switch_to h w t n p) ≤ m
  unfolding switch_to
  switch_to-cost t n m p b = target_cost (get_descriptor t n) p m (descriptor_cost t n m b)

  follow-cost :
      (t : Task) (p : Option ℕ) (c m : ℕ) (ctx : Context V) (o : Option ℕ)
      → Branches W t m
      → cost W (follow h w t p c ctx o) ≤ m
  follow-cost t p c m ctx none b = advance-cost t c m ctx b
  follow-cost t p c m ctx (some n) b = switch_to-cost t n m p b

  decide-cost :
      (t : Task) (p : Option ℕ) (c m : ℕ) (ctx : Context V) (r : Option SwitchRequest)
      → Branches W t m
      → cost W (decide h w t p c ctx r) ≤ m
  unfolding decide
  decide-cost t p c m ctx r b = elim (Bool-cases (is_stopped ctx.state)) [
    | inl ended ↦ rw ended (omega arith)
    | inr running ↦ rw running (follow-cost t p c m ctx (configured h w r) b)
  ]

  -- The deque after the first half of an activation, and the task at which that goes on.
  open_context-queue :
      (i : ℕ) (t : Task) (p : Option ℕ) (s : Run V)
      → queued W (open_context h i t p s).0.sink_queue ≤ sink_cost W t + queued W s.sink_queue
  unfolding open_context
  open_context-queue i t none s = omega arith
  open_context-queue i t (some p) s = ground arith

  open_context-last :
      (i : ℕ) (t : Task) (p : Option ℕ) (s : Run V) → Stops W h i (open_context h i t p s).1
  unfolding open_context
  open_context-last i t none s = inl refl
  open_context-last i t (some p) s = inr refl

  -- What an activation leaves to do.
  abbrev pub Less : ℕ → Next × Run V → Type 0
  Less bound (n, s) = cost W n + queued W s.sink_queue < bound

  pub activate-Less :
      (i : ℕ) (t : Task) (p : Option ℕ) (s : Run V)
      → IsWeighted W h
      → get_elem? h i ≡ some t
      → Less (2 * W i + queued W s.sink_queue) (activate h w i t p s)
  unfolding activate
  activate-Less i t p s weighted found =
      let queue = open_context-queue i t p s in
      let falls = weighted.falls i t found in
      elim (Option-cases (get_elem? (open_context h i t p s).0.contexts (length s.contexts))) [
        | inl no_context ↦ rw (no_context, activate) (omega arith)
        | inr (ctx, stored) ↦ elim (Option-cases (get_elem? h (open_context h i t p s).1)) [
          | inl no_task ↦ rw (stored, activate) (rw (no_task, activate) (omega arith))
          | inr (t', found') ↦
              rw (stored, activate)
                (rw (found', activate)
                  (omega (
                    arith,
                    decide-cost t' p (length s.contexts) (weighted.room i) _ _
                        (weighted.branches i _ t t' found (open_context-last i t p s) found'),
                  )))
        ]
      ]
