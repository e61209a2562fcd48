-- ===== src/Execution/Contexts.antt =====
-- The store of contexts during execute_task (nexus/task.py).
use event_pipeline.Prelude.{
  ℕ, zero, suc, ◌≡◌, ◌≢◌, refl, ◌∙◌, sym, subst, Option, none, some, some_inj, List, [], ◌∷◌, ◌++◌,
  get_elem?, set, length, get_elem?-set_self, get_elem?-set_ne, get_elem?-append_lt,
  get_elem?-append_self, lt-of-get_elem?, arith, inl, inr, ◌⊎◌, Option-cases,
}
use event_pipeline.Task.{Task, Heap}
use event_pipeline.Context.{Context, dispatch, new_context}
use event_pipeline.Execution.Fuel.{step_absent, step_found}
use event_pipeline.Execution.{
  push_sink, gather, profiles_of, World, Run, Exit, returned, task_switching_error, attribute_error,
  Next, stop, go_on, set_next, link_next, open_context, activate, step, execute_task,
}
use event_pipeline.Execution.Profiles.{dispatch-profiles}

same_place : (n m : ℕ) → (n ≡ m) ⊎ (n ≢ m)
same_place n m = grind arith

module _ {V : Type 0} where
  -- Every context is still there, with the tasks that it had.
  abbrev pub Kept : List (Context V) → List (Context V) → Type 0
  Kept cs ds =
      (n : ℕ) (c : Context V)
      → get_elem? cs n ≡ some c
      → (d : Context V) × (get_elem? ds n ≡ some d) × (d.task_profiles ≡ c.task_profiles)

  Kept-refl : (cs : List (Context V)) → Kept cs cs
  Kept-refl cs n c e = (c, e, refl)

  Kept-trans : (cs ds es : List (Context V)) → Kept cs ds → Kept ds es → Kept cs es
  Kept-trans cs ds es k l n c e =
      let (d, found, same) = k n c e in
      let (x, found', same') = l n d found in (x, found', same' ∙ same)

  Kept-append : (cs ds : List (Context V)) → Kept cs (cs ++ ds)
  Kept-append cs ds n c e = (c, get_elem?-append_lt cs ds n (lt-of-get_elem? cs n e) ∙ e, refl)

  Kept-set :
      (cs : List (Context V)) (m : ℕ) (x c : Context V)
      → get_elem? cs m ≡ some c
      → x.task_profiles ≡ c.task_profiles
      → Kept cs (set cs m x)
  Kept-set cs m x c there same n d e = elim (same_place m n) [
    | inl here ↦ (
      x,
      subst (λ j. get_elem? (set cs m x) j ≡ some x) here
          (get_elem?-set_self cs m x (lt-of-get_elem? cs m there)),
      cc (same, there, e, here),
    )
    | inr other ↦ (d, get_elem?-set_ne cs m n x other ∙ e, refl)
  ]

  link_next-Kept : (p n : ℕ) (cs : List (Context V)) → Kept cs (link_next p n cs)
  unfolding link_next
  link_next-Kept p n cs = elim (Option-cases (get_elem? cs p)) [
    | inl absent ↦ rw (absent, link_next) (Kept-refl cs)
    | inr (c, there) ↦ rw (there, link_next) (Kept-set cs p (set_next n c) c there refl)
  ]

  pub push_sink-contexts : (t : Task) (s : Run V) → (push_sink t s).contexts ≡ s.contexts
  push_sink-contexts t s = ground arith

  open_context-Kept :
      (h : Heap) (i : ℕ) (t : Task) (p : Option ℕ) (s : Run V)
      → Kept s.contexts (open_context h i t p s).0.contexts
  unfolding open_context
  open_context-Kept h i t none s = Kept-append s.contexts _
  open_context-Kept h i t (some p) s =
      let s' = push_sink t s in
      let stored = s'.contexts ++ new_context (profiles_of (gather (length h) h i)) (some p) ∷ [] in
      subst (λ cs. Kept cs (link_next p (length s'.contexts) stored)) (push_sink-contexts t s)
        (Kept-trans s'.contexts stored _ (Kept-append s'.contexts _)
          (link_next-Kept p (length s'.contexts) stored))

module _ {V : Type 0} (h : Heap) (w : World V) where
  activate-Kept :
      (i : ℕ) (t : Task) (p : Option ℕ) (s : Run V)
      → Kept s.contexts (activate h w i t p s).1.contexts
  unfolding activate
  activate-Kept i t p s =
      let opened = open_context-Kept h i t p s in
      elim (Option-cases (get_elem? (open_context h i t p s).0.contexts (length s.contexts))) [
        | inl no_context ↦ rw (no_context, activate) opened
        | inr (ctx, there) ↦ elim (Option-cases (get_elem? h (open_context h i t p s).1)) [
          | inl no_task ↦ rw (there, activate) (rw (no_task, activate) opened)
          | inr (t', found) ↦
              rw (there, activate)
                (rw (found, activate)
                  (Kept-trans s.contexts (open_context h i t p s).0.contexts _ opened (
                    Kept-set (open_context h i t p s).0.contexts (length s.contexts) _ ctx there
                      (dispatch-profiles h (w.run (length s.contexts) ctx.task_profiles) ctx))))
        ]
      ]

  step-Kept : (i : ℕ) (p : Option ℕ) (s : Run V) → Kept s.contexts (step h w i p s).1.contexts
  step-Kept i p s = elim (Option-cases (get_elem? h i)) [
    | inl absent ↦ rw (step_absent h w i p s absent) (Kept-refl s.contexts)
    | inr (t, found) ↦ rw (step_found h w i p s t found) (activate-Kept i t p s)
  ]

  abbrev Keeps : ℕ → Type 0
  Keeps fuel =
      (o p : Option ℕ) (s : Run V) (r : Exit × Run V)
      → execute_task h w fuel o p s ≡ some r
      → Kept s.contexts r.1.contexts

  resumed-Kept :
      (fuel : ℕ) (n : Next × Run V) (r : Exit × Run V)
      → Keeps fuel
      → elim n.0 [ stop e ↦ some (e, n.1) | go_on o p ↦ execute_task h w fuel o p n.1 ] ≡ some r
      → Kept n.1.contexts r.1.contexts
  resumed-Kept fuel (stop e, s) r keeps run =
      subst (λ (x : Exit × Run V). Kept s.contexts x.1.contexts) (some_inj run)
        (Kept-refl s.contexts)
  resumed-Kept fuel (go_on o p, s) r keeps run = keeps o p s r run

  then-Kept :
      (fuel : ℕ) (p : Option ℕ) (x r : Exit × Run V)
      → Keeps fuel
      → elim x.0 [ returned ↦ execute_task h w fuel none p x.1 | other ↦ some (other, x.1) ]
        ≡ some r
      → Kept x.1.contexts r.1.contexts
  then-Kept fuel p (returned, s) r keeps run = keeps none p s r run
  then-Kept fuel p (task_switching_error, s) r keeps run =
      subst (λ (x : Exit × Run V). Kept s.contexts x.1.contexts) (some_inj run)
        (Kept-refl s.contexts)
  then-Kept fuel p (attribute_error, s) r keeps run =
      subst (λ (x : Exit × Run V). Kept s.contexts x.1.contexts) (some_inj run)
        (Kept-refl s.contexts)

  sinks-Kept :
      (fuel : ℕ) (p : Option ℕ) (s : Run V) (q : List ℕ) (r : Exit × Run V)
      → Keeps fuel
      → s.sink_queue ≡ q
      → execute_task h w (suc fuel) none p s ≡ some r
      → Kept s.contexts r.1.contexts
  unfolding execute_task
  sinks-Kept fuel p s [] r keeps e run =
      subst (λ (x : Exit × Run V). Kept s.contexts x.1.contexts)
        (some_inj (rw (e, execute_task) at run)) (Kept-refl s.contexts)
  sinks-Kept fuel p s (k ∷ ks) r keeps e run =
      elim (Option-cases (execute_task h w fuel (some k) p (record s { sink_queue = ks }))) [
        | inl out ↦ cc (rw out at (rw (e, execute_task) at run))
        | inr (x, first) ↦
            Kept-trans s.contexts x.1.contexts r.1.contexts
              (keeps (some k) p (record s { sink_queue = ks }) x first)
              (then-Kept fuel p x r keeps (rw first at (rw (e, execute_task) at run)))
      ]

  execute_task-Kept : (fuel : ℕ) → Keeps fuel
  unfolding execute_task
  execute_task-Kept zero o p s r run = cc
  execute_task-Kept (suc fuel) (some i) p s r run =
      Kept-trans s.contexts (step h w i p s).1.contexts r.1.contexts (step-Kept i p s)
        (resumed-Kept fuel (step h w i p s) r (execute_task-Kept fuel) run)
  execute_task-Kept (suc fuel) none p s r run =
      sinks-Kept fuel p s s.sink_queue r (execute_task-Kept fuel) refl run

  -- What an activation without a previous context stores.
  activate_first :
      (i : ℕ) (t : Task) (s : Run V)
      → get_elem? h i ≡ some t
      → (d : Context V) × (get_elem? (activate h w i t none s).1.contexts (length s.contexts)
          ≡ some d)
        × (d.task_profiles ≡ i ∷ [])
  unfolding activate open_context
  activate_first i t s found =
      let fresh = new_context {V = V} (i ∷ []) none in
      let stored = get_elem?-append_self s.contexts fresh in
      (
        (dispatch h (w.run (length s.contexts) (i ∷ [])) fresh).0,
        rw (stored, activate)
            (rw (found, activate)
              (get_elem?-set_self (s.contexts ++ fresh ∷ []) (length s.contexts) _
                (lt-of-get_elem? (s.contexts ++ fresh ∷ []) (length s.contexts) stored))),
        dispatch-profiles h (w.run (length s.contexts) (i ∷ [])) fresh,
      )

  -- If execute_task was called on a task without a previous context, as Pipeline.start calls it on the first task, and came to an end, then the first context that it opened has that task alone, even where a parallel pipe leads from it to the next task, and whatever ran later.
  pub first_context_alone :
      (fuel i : ℕ) (t : Task) (s : Run V) (r : Exit × Run V)
      → get_elem? h i ≡ some t
      → execute_task h w fuel (some i) none s ≡ some r
      → (d : Context V) × (get_elem? r.1.contexts (length s.contexts) ≡ some d)
        × (d.task_profiles ≡ i ∷ [])
  unfolding execute_task
  first_context_alone zero i t s r found run = cc
  first_context_alone (suc fuel) i t s r found run =
      let (d, stored, alone) =
        subst
          (λ (n : Next × Run V).
            (d : Context V) × (get_elem? n.1.contexts (length s.contexts) ≡ some d)
            × (d.task_profiles ≡ i ∷ []))
          (sym (step_found h w i none s t found)) (activate_first i t s found) in
      let (x, kept, same) =
        resumed-Kept fuel (step h w i none s) r (execute_task-Kept fuel) run (length s.contexts) d
          stored in
      (x, kept, same ∙ alone)

  -- Whatever it is called on, execute_task, when it comes to an end, has removed no context from the store, and every context that was there has the tasks that it had.
  pub contexts-Kept :
      (fuel : ℕ) (task previous : Option ℕ) (s : Run V) (r : Exit × Run V)
      → execute_task h w fuel task previous s ≡ some r
      → Kept s.contexts r.1.contexts
  contexts-Kept fuel task previous s r run = execute_task-Kept fuel task previous s r run
