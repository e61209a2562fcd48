-- ===== src/Pipeline/Links.antt =====
-- The links between contexts during execute_task (nexus/task.py).
use event_pipeline.Prelude.{
  ℕ, ◌<◌, ◌≤◌, ◌≡◌, ◌≢◌, refl, ◌∙◌, sym, subst, Option, none, some, some_inj, List, [], ◌∷◌, ◌++◌,
  get_elem?, set, length, get_elem?-set_self, get_elem?-set_ne, get_elem?-append_lt, length-set,
  length-append, get_elem?-append_self, lt-of-get_elem?, arith, inl, inr, ◌⊎◌, Option-cases,
}
use event_pipeline.Exceptions.{Exn, EventResult, switch_task, Attempt, ok, raise}
use event_pipeline.Task.{Heap}
use event_pipeline.Context.{
  Context, dispatch, Processed, all_processed, switched, no_last_task, no_params, catch, outcome,
  Outcome, record_outcome, add_result, cancel, abort, switch, process_results, fail_with, settle,
  executing,
}
use event_pipeline.Execution.{set_next, link_next}

abbrev pub Before : ℕ → Option ℕ → Type 0
Before n none = Unit
Before n (some p) = p < n

abbrev pub Ahead : ℕ → ℕ → Option ℕ → Type 0
Ahead n size none = Unit
Ahead n size (some m) = (n < m) × (m < size)

pub same_place : (n m : ℕ) → (n ≡ m) ⊎ (n ≢ m)
same_place n m = grind arith

module _ {V : Type 0} where
  -- A context points back to an older one, and on to a newer one that is there.
  abbrev pub IsLinked : List (Context V) → Type 0
  IsLinked cs =
      (n : ℕ) (c : Context V)
      → get_elem? cs n ≡ some c
      → Before n c.previous_context × Ahead n (length cs) c.next_context

  unfoldable pub SameLinks : Context V → Context V → Type 0
  SameLinks c d = (d.previous_context ≡ c.previous_context) × (d.next_context ≡ c.next_context)

module _ {V : Type 0} (h : Heap) where
  record_outcome-SameLinks : (o : Outcome V) (c : Context V) → SameLinks c (record_outcome h o c)
  unfolding record_outcome add_result cancel SameLinks
  record_outcome-SameLinks o c = (ground arith, ground arith)

  switch-SameLinks : (n : ℕ) (c : Context V) → SameLinks c (switch h n c).0
  unfolding switch cancel SameLinks
  switch-SameLinks n c = (ground arith, ground arith)

  process-SameLinks :
      (fs : List (Attempt V (EventResult V))) (c : Context V)
      → SameLinks c (process_results h fs c).0
  unfolding process_results SameLinks
  process-SameLinks [] c = (refl, refl)
  process-SameLinks (f ∷ fs) c = elim (Option-cases (outcome f)) [
    | inl breaks ↦ rw (breaks, process_results) (refl, refl)
    | inr (o, e) ↦
        let c' = record_outcome h o c in
        let same = record_outcome-SameLinks o c in
        let later = process-SameLinks fs c' in
        rw (e, process_results)
          (elim (Option-cases o.request) [
            | inl stays ↦ rw stays (later.0 ∙ same.0, later.1 ∙ same.1)
            | inr (n, asked) ↦
                let asks = switch-SameLinks n c' in rw asked (asks.0 ∙ same.0, asks.1 ∙ same.1)
          ])
  ]

  settle-SameLinks : (p : Context V × Processed) → SameLinks p.0 (settle h p).0
  unfolding settle fail_with abort SameLinks
  settle-SameLinks (c, all_processed) = (ground arith, ground arith)
  settle-SameLinks (c, no_last_task) = (refl, refl)
  settle-SameLinks (c, no_params) = (refl, refl)
  settle-SameLinks (c, switched r) = (refl, refl)

  catch-SameLinks : (e : Exn V) (c : Context V) → SameLinks c (catch h e c).0
  unfolding fail_with abort SameLinks
  catch-SameLinks (switch_task t n r) c = (refl, refl)
  catch-SameLinks e c = (refl, refl)

  pub dispatch-SameLinks :
      (run : Attempt V (List (Attempt V (EventResult V)))) (c : Context V)
      → SameLinks c (dispatch h run c).0
  unfolding dispatch fail_with abort SameLinks
  dispatch-SameLinks (raise e) c = catch-SameLinks e (record c { state = executing })
  dispatch-SameLinks (ok fs) c =
      let running = record c { state = executing } in
      let loop = process-SameLinks fs running in
      let end = settle-SameLinks (process_results h fs running) in (end.0 ∙ loop.0, end.1 ∙ loop.1)

Ahead-more : (n a b : ℕ) (o : Option ℕ) → a ≤ b → Ahead n a o → Ahead n b o
Ahead-more n a b none le h = tt
Ahead-more n a b (some m) le h = omega arith

Ahead-none : (n a : ℕ) (o : Option ℕ) → o ≡ none → Ahead n a o
Ahead-none n a o e = rw e tt

module _ {V : Type 0} where
  pub append-IsLinked :
      (cs : List (Context V)) (c : Context V)
      → IsLinked cs
      → Before (length cs) c.previous_context
      → c.next_context ≡ none
      → IsLinked (cs ++ c ∷ [])
  append-IsLinked cs c linked back last n d e = elim (same_place n (length cs)) [
    | inl here ↦
        subst
          (λ (x : Context V).
            Before n x.previous_context × Ahead n (length (cs ++ c ∷ [])) x.next_context)
          (some_inj (
            sym (get_elem?-append_self cs c)
            ∙ subst (λ k. get_elem? (cs ++ c ∷ []) k ≡ some d) here e))
          (
            subst (λ k. Before k c.previous_context) (sym here) back,
            Ahead-none n (length (cs ++ c ∷ [])) c.next_context last,
          )
    | inr other ↦
        let inside : n < length cs =
          omega (arith, lt-of-get_elem? (cs ++ c ∷ []) n e, length-append cs (c ∷ []), other) in
        let old = linked n d (sym (get_elem?-append_lt cs (c ∷ []) n inside) ∙ e) in
        (
          old.0,
          Ahead-more n (length cs) (length (cs ++ c ∷ [])) d.next_context
              (omega (arith, length-append cs (c ∷ []))) old.1,
        )
  ]

  pub set-IsLinked :
      (cs : List (Context V)) (m : ℕ) (x : Context V)
      → IsLinked cs
      → Before m x.previous_context
      → Ahead m (length cs) x.next_context
      → m < length cs
      → IsLinked (set cs m x)
  set-IsLinked cs m x linked back on inside n d e = elim (same_place n m) [
    | inl here ↦
        subst
          (λ (y : Context V).
            Before n y.previous_context × Ahead n (length (set cs m x)) y.next_context)
          (some_inj (
            sym (get_elem?-set_self cs m x inside)
            ∙ subst (λ k. get_elem? (set cs m x) k ≡ some d) here e))
          (subst (λ k. Before k x.previous_context × Ahead k (length (set cs m x)) x.next_context)
            (sym here) (back, rw (length-set cs m x) on))
    | inr other ↦
        let old = linked n d (sym (get_elem?-set_ne cs m n x (λ q. other (sym q))) ∙ e) in
        (old.0, rw (length-set cs m x) old.1)
  ]

  pub link_next-IsLinked :
      (p n : ℕ) (cs : List (Context V))
      → p < n
      → n < length cs
      → IsLinked cs
      → IsLinked (link_next p n cs)
  unfolding link_next
  link_next-IsLinked p n cs before there linked = elim (Option-cases (get_elem? cs p)) [
    | inl absent ↦ rw (absent, link_next) linked
    | inr (c, found) ↦
        rw (found, link_next)
          (set-IsLinked cs p (set_next n c) linked (linked p c found).0 (before, there)
            (lt-of-get_elem? cs p found))
  ]
