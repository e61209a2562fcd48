-- ===== src/Pipeline/Walks.antt =====
-- The walks over the chain of contexts (nexus/task.py: EventExecutionContext).
use event_pipeline.Prelude.{
  ℕ, zero, suc, ◌+◌, ◌<◌, ◌≤◌, ◌≡◌, refl, none, some, List, get_elem?, length, arith, inl, inr,
  Option-cases, get_elem?-of_lt,
}
use event_pipeline.Context.{Context}
use event_pipeline.Pipeline.{get_execution_context_head, follow_next, get_latest_execution_context}
use event_pipeline.Pipeline.Links.{IsLinked}

module _ {V : Type 0} (cs : List (Context V)) (linked : IsLinked cs) where
  -- A context without a previous one.
  abbrev IsHead : ℕ → Type 0
  IsHead j = (c : Context V) × (get_elem? cs j ≡ some c) × (c.previous_context ≡ none)

  -- A context without a next one.
  abbrev pub IsLatest : ℕ → Type 0
  IsLatest l = (c : Context V) × (get_elem? cs l ≡ some c) × (c.next_context ≡ none)

  pub back_ends :
      (fuel i : ℕ)
      → i < fuel
      → i < length cs
      → (j : ℕ) × (get_execution_context_head fuel cs i ≡ some j) × (j ≤ i) × IsHead j
  unfolding get_execution_context_head
  back_ends zero i below inside = absurd (omega arith)
  back_ends (suc fuel) i below inside =
      let (c, found) = get_elem?-of_lt cs i inside in
      elim (Option-cases c.previous_context) [
        | inl first ↦ (
          i,
          rw (found, get_execution_context_head) (rw first refl),
          omega arith,
          (c, found, first),
        )
        | inr (p, back) ↦
            let older = (rw back at (linked i c found).0) in
            let (j, walk, le, head) = back_ends fuel p (omega arith) (omega arith) in
            (j, rw (found, get_execution_context_head) (rw back walk), omega arith, head)
      ]

  pub follow_ends :
      (fuel i : ℕ)
      → length cs ≤ i + fuel
      → i < length cs
      → (l : ℕ) × (follow_next fuel cs i ≡ some l) × (l < length cs) × IsLatest l
  unfolding follow_next
  follow_ends zero i room inside = absurd (omega arith)
  follow_ends (suc fuel) i room inside =
      let (c, found) = get_elem?-of_lt cs i inside in
      elim (Option-cases c.next_context) [
        | inl last ↦ (i, rw (found, follow_next) (rw last refl), inside, ((c, found, last)))
        | inr (n, on) ↦
            let newer = (rw on at (linked i c found).1) in
            let (l, walk, bound, latest) = follow_ends fuel n (omega arith) newer.1 in
            (l, rw (found, follow_next) (rw on walk), bound, latest)
      ]

  -- The search for the latest context ends, at a context of the store without a next one.
  pub walk_ends :
      (i : ℕ)
      → i < length cs
      → (l : ℕ) × (get_latest_execution_context cs i ≡ some l) × (l < length cs) × IsLatest l
  unfolding get_latest_execution_context
  walk_ends i inside =
      let (j, back, le, head) = back_ends (length cs) i inside inside in
      let (l, walk, bound, latest) = follow_ends (length cs) j (omega arith) (omega arith) in
      (l, rw (back, get_latest_execution_context) walk, bound, latest)
