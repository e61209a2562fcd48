-- ===== src/Pipeline/Chain.antt =====
-- The chain of contexts that execute_task leaves (nexus/task.py).
use event_pipeline.Prelude.{
  ℕ, zero, suc, ◌+◌, ◌<◌, ◌≤◌, ◌≡◌, refl, ◌∙◌, sym, subst, ap, Option, none, some, some_inj, List,
  [], ◌∷◌, ◌++◌, get_elem?, set, length, length-set, length-append, lt-of-get_elem?, arith, inl,
  inr, Option-cases, if◌then◌else◌, Bool, true, false,
}
use event_pipeline.Task.{Task, Heap, get_descriptor, is_conditional}
use event_pipeline.Context.{
  Context, dispatch, new_context, execution_failed, SwitchRequest, is_stopped,
}
use event_pipeline.Execution.Fuel.{step_absent, step_found}
use event_pipeline.Execution.{
  push_sink, gather, profiles_of, World, Run, Exit, returned, task_switching_error, attribute_error,
  Next, stop, go_on, set_next, link_next, open_context, activate, step, execute_task, decide,
  advance, switch_to, follow, configured, by_verdict,
}
use event_pipeline.Execution.Contexts.{push_sink-contexts}
use event_pipeline.Pipeline.Links.{
  IsLinked, append-IsLinked, set-IsLinked, link_next-IsLinked, dispatch-SameLinks, SameLinks,
}

abbrev pub Inside : ℕ → Option ℕ → Type 0
Inside size none = Unit
Inside size (some i) = i < size

Inside-more : (a b : ℕ) (o : Option ℕ) → a ≤ b → Inside a o → Inside b o
Inside-more a b none le h = tt
Inside-more a b (some i) le h = omega arith

-- What a step may do to the size of the store and to the previous context.
abbrev NextInside : ℕ → Next → Type 0
NextInside size (stop e) = Unit
NextInside size (go_on o p) = Inside size p

either-NextInside :
    (size : ℕ) (b : Bool) (x y : Next)
    → NextInside size x
    → NextInside size y
    → NextInside size (if b then x else y)
either-NextInside size true x y hx hy = hx
either-NextInside size false x y hx hy = hy

module _ {V : Type 0} where
  -- The contexts are linked, and `pipeline.execution_context` is one of them.
  abbrev pub IsChain : Run V → Type 0
  IsChain s = IsLinked s.contexts × Inside (length s.contexts) s.execution_context

  changed-IsLinked :
      (cs : List (Context V)) (m : ℕ) (x c : Context V)
      → IsLinked cs
      → get_elem? cs m ≡ some c
      → SameLinks c x
      → IsLinked (set cs m x)
  unfolding SameLinks
  changed-IsLinked cs m x c linked there (back, on) =
      set-IsLinked cs m x linked (rw back (linked m c there).0) (rw on (linked m c there).1)
        (lt-of-get_elem? cs m there)

  length-link_next : (p n : ℕ) (cs : List (Context V)) → length (link_next p n cs) ≡ length cs
  unfolding link_next
  length-link_next p n cs = elim (Option-cases (get_elem? cs p)) [
    | inl absent ↦ rw (absent, link_next) refl
    | inr (c, found) ↦ rw (found, link_next) (length-set cs p (set_next n c))
  ]

  abbrev opened : List (Context V) → ℕ → List ℕ → List (Context V)
  opened cs p profiles = link_next p (length cs) (cs ++ new_context profiles (some p) ∷ [])

  length-opened :
      (cs : List (Context V)) (p : ℕ) (profiles : List ℕ)
      → length (opened cs p profiles) ≡ length cs + 1
  length-opened cs p profiles =
      length-link_next p (length cs) (cs ++ new_context profiles (some p) ∷ [])
      ∙ length-append cs (new_context profiles (some p) ∷ [])

  opened-IsLinked :
      (cs : List (Context V)) (p : ℕ) (profiles : List ℕ)
      → IsLinked cs
      → p < length cs
      → IsLinked (opened cs p profiles)
  opened-IsLinked cs p profiles linked inside =
      link_next-IsLinked p (length cs) (cs ++ new_context profiles (some p) ∷ []) inside
        (omega (arith, length-append cs (new_context profiles (some p) ∷ [])))
        (append-IsLinked cs (new_context profiles (some p)) linked inside refl)

  length-open_context :
      (h : Heap) (i : ℕ) (t : Task) (p : Option ℕ) (s : Run V)
      → length (open_context h i t p s).0.contexts ≡ length s.contexts + 1
  unfolding open_context
  length-open_context h i t none s = length-append s.contexts (new_context (i ∷ []) none ∷ [])
  length-open_context h i t (some p) s =
      length-opened (push_sink t s).contexts p (profiles_of (gather (length h) h i))
      ∙ ap (λ (cs : List (Context V)). length cs + 1) (push_sink-contexts t s)

  push_sink-execution_context :
      (t : Task) (s : Run V) → (push_sink t s).execution_context ≡ s.execution_context
  push_sink-execution_context t s = ground arith

  open_context-IsChain :
      (h : Heap) (i : ℕ) (t : Task) (p : Option ℕ) (s : Run V)
      → IsChain s
      → Inside (length s.contexts) p
      → IsChain (open_context h i t p s).0
  unfolding open_context
  open_context-IsChain h i t none s chain inside = (
    append-IsLinked s.contexts (new_context (i ∷ []) none) chain.0 tt refl,
    omega (arith, length-append s.contexts (new_context (i ∷ []) none ∷ [])),
  )
  open_context-IsChain h i t (some p) s chain inside =
      let same = push_sink-contexts t s in
      let profiles = profiles_of (gather (length h) h i) in
      let count = length-opened (push_sink t s).contexts p profiles in
      (
        opened-IsLinked (push_sink t s).contexts p profiles (subst IsLinked (sym same) chain.0)
            (subst (λ (cs : List (Context V)). p < length cs) (sym same) inside),
        Inside-more (length s.contexts) (length (opened (push_sink t s).contexts p profiles))
            (push_sink t s).execution_context (omega (arith, count, ap length same))
            (subst (Inside (length s.contexts)) (sym (push_sink-execution_context t s)) chain.1),
      )

module _ {V : Type 0} (h : Heap) (w : World V) where
  verdict-NextInside :
      (size : ℕ) (t : Task) (c : ℕ) (o : Option Bool)
      → c < size
      → NextInside size (by_verdict h w t c o)
  verdict-NextInside size t c none inside = tt
  verdict-NextInside size t c (some true) inside = inside
  verdict-NextInside size t c (some false) inside = inside

  advance-NextInside :
      (size : ℕ) (t : Task) (c : ℕ) (ctx : Context V)
      → c < size
      → NextInside size (advance h w t c ctx)
  unfolding advance
  advance-NextInside size t c ctx inside =
      either-NextInside size (is_conditional t)
        (by_verdict h w t c (execution_failed h w.evaluation ctx))
        (go_on t.on_success_event (some c))
        (verdict-NextInside size t c (execution_failed h w.evaluation ctx) inside) inside

  follow-NextInside :
      (size : ℕ) (t : Task) (p : Option ℕ) (c : ℕ) (ctx : Context V) (o : Option ℕ)
      → c < size
      → Inside size p
      → NextInside size (follow h w t p c ctx o)
  unfolding switch_to
  follow-NextInside size t p c ctx none inside before = advance-NextInside size t c ctx inside
  follow-NextInside size t p c ctx (some n) inside before =
      elim (Option-cases (get_descriptor t n)) [
        | inl absent ↦ rw (absent, switch_to) tt
        | inr (k, found) ↦ rw (found, switch_to) before
      ]

  decide-NextInside :
      (size : ℕ) (t : Task) (p : Option ℕ) (c : ℕ) (ctx : Context V)
      (request : Option SwitchRequest)
      → c < size
      → Inside size p
      → NextInside size (decide h w t p c ctx request)
  unfolding decide
  decide-NextInside size t p c ctx request inside before =
      either-NextInside size (is_stopped ctx.state) (stop returned)
        (follow h w t p c ctx (configured h w request)) tt
        (follow-NextInside size t p c ctx (configured h w request) inside before)

  -- What a step leaves: a chain, no shorter than before, and a previous context that is there.
  abbrev Stepped : Run V → Next × Run V → Type 0
  Stepped s r =
      IsChain r.1 × (length s.contexts ≤ length r.1.contexts) × NextInside (length r.1.contexts) r.0

  activate-Stepped :
      (i : ℕ) (t : Task) (p : Option ℕ) (s : Run V)
      → IsChain s
      → Inside (length s.contexts) p
      → Stepped s (activate h w i t p s)
  unfolding activate
  activate-Stepped i t p s chain inside =
      let opened = open_context-IsChain h i t p s chain inside in
      let longer = length-open_context h i t p s in
      elim (Option-cases (get_elem? (open_context h i t p s).0.contexts (length s.contexts))) [
        | inl no_context ↦ rw (no_context, activate) (opened, omega (arith, longer), tt)
        | inr (ctx, there) ↦ elim (Option-cases (get_elem? h (open_context h i t p s).1)) [
          | inl no_task ↦
              rw (there, activate) (rw (no_task, activate) (opened, omega (arith, longer), tt))
          | inr (t', found) ↦
              rw (there, activate)
                (rw (found, activate)
                  (let cs = (open_context h i t p s).0.contexts in
                    let after = dispatch h (w.run (length s.contexts) ctx.task_profiles) ctx in
                    let count = length-set cs (length s.contexts) after.0 in
                    (
                      (
                        changed-IsLinked cs (length s.contexts) after.0 ctx opened.0 there (
                            dispatch-SameLinks h (w.run (length s.contexts) ctx.task_profiles) ctx),
                        rw count opened.1,
                      ),
                      omega (arith, count, longer),
                      decide-NextInside (length (set cs (length s.contexts) after.0)) t' p
                          (length s.contexts) after.0 after.1 (omega (arith, count, longer))
                          (Inside-more (length s.contexts)
                            (length (set cs (length s.contexts) after.0)) p
                            (omega (arith, count, longer)) inside),
                    )))
        ]
      ]

  step-Stepped :
      (i : ℕ) (p : Option ℕ) (s : Run V)
      → IsChain s
      → Inside (length s.contexts) p
      → Stepped s (step h w i p s)
  step-Stepped i p s chain inside = elim (Option-cases (get_elem? h i)) [
    | inl absent ↦ rw (step_absent h w i p s absent) (chain, omega arith, tt)
    | inr (t, found) ↦ rw (step_found h w i p s t found) (activate-Stepped i t p s chain inside)
  ]

  -- The invariant at the end of a run.
  abbrev pub Ended : Run V → Exit × Run V → Type 0
  Ended s r = IsChain r.1 × (length s.contexts ≤ length r.1.contexts)

  abbrev pub Ends : ℕ → Type 0
  Ends fuel =
      (o p : Option ℕ) (s : Run V) (r : Exit × Run V)
      → IsChain s
      → Inside (length s.contexts) p
      → execute_task h w fuel o p s ≡ some r
      → Ended s r

  resumed-Ended :
      (fuel : ℕ) (s : Run V) (n : Next × Run V) (r : Exit × Run V)
      → Ends fuel
      → Stepped s n
      → elim n.0 [ stop e ↦ some (e, n.1) | go_on o p ↦ execute_task h w fuel o p n.1 ] ≡ some r
      → Ended s r
  resumed-Ended fuel s (stop e, s') r ends (chain, longer, inside) run =
      subst (λ (x : Exit × Run V). Ended s x) (some_inj run) (chain, longer)
  resumed-Ended fuel s (go_on o p, s') r ends (chain, longer, inside) run =
      let (chain', longer') = ends o p s' r chain inside run in (chain', omega arith)

  then-Ended :
      (fuel : ℕ) (p : Option ℕ) (s : Run V) (x r : Exit × Run V)
      → Ends fuel
      → Inside (length s.contexts) p
      → Ended s x
      → elim x.0 [ returned ↦ execute_task h w fuel none p x.1 | other ↦ some (other, x.1) ]
        ≡ some r
      → Ended s r
  then-Ended fuel p s (returned, s') r ends inside (chain, longer) run =
      let (chain', longer') =
        ends none p s' r chain
          (Inside-more (length s.contexts) (length s'.contexts) p longer inside) run in
      (chain', omega arith)
  then-Ended fuel p s (task_switching_error, s') r ends inside ended run =
      subst (λ (x : Exit × Run V). Ended s x) (some_inj run) ended
  then-Ended fuel p s (attribute_error, s') r ends inside ended run =
      subst (λ (x : Exit × Run V). Ended s x) (some_inj run) ended

  sinks-Ended :
      (fuel : ℕ) (p : Option ℕ) (s : Run V) (q : List ℕ) (r : Exit × Run V)
      → Ends fuel
      → IsChain s
      → Inside (length s.contexts) p
      → s.sink_queue ≡ q
      → execute_task h w (suc fuel) none p s ≡ some r
      → Ended s r
  unfolding execute_task
  sinks-Ended fuel p s [] r ends chain inside e run =
      subst (λ (x : Exit × Run V). Ended s x) (some_inj (rw (e, execute_task) at run))
        (chain, omega arith)
  sinks-Ended fuel p s (k ∷ ks) r ends chain inside e run =
      elim (Option-cases (execute_task h w fuel (some k) p (record s { sink_queue = ks }))) [
        | inl out ↦ cc (rw out at (rw (e, execute_task) at run))
        | inr (x, first) ↦
            then-Ended fuel p s x r ends inside
              (ends (some k) p (record s { sink_queue = ks }) x chain inside first)
              (rw first at (rw (e, execute_task) at run))
      ]

  pub execute_task-Ended : (fuel : ℕ) → Ends fuel
  unfolding execute_task
  execute_task-Ended zero o p s r chain inside run = cc
  execute_task-Ended (suc fuel) (some i) p s r chain inside run =
      resumed-Ended fuel s (step h w i p s) r (execute_task-Ended fuel)
        (step-Stepped i p s chain inside) run
  execute_task-Ended (suc fuel) none p s r chain inside run =
      sinks-Ended fuel p s s.sink_queue r (execute_task-Ended fuel) chain inside refl run

  -- Whatever task execute_task is called on, with a previous context that is there or none, when it comes to an end every context that it leaves points back to an older context or none and on to a newer context of the store or none, and `pipeline.execution_context` is a context of the store or None, if this was so before.
  pub execute_task-IsChain :
      (fuel : ℕ) (task previous : Option ℕ) (s : Run V) (r : Exit × Run V)
      → IsChain s
      → Inside (length s.contexts) previous
      → execute_task h w fuel task previous s ≡ some r
      → IsChain r.1
  execute_task-IsChain fuel task previous s r chain inside run =
      (execute_task-Ended fuel task previous s r chain inside run).0
