-- ===== src/Submission/Grouping.antt =====
-- Which events init_and_execute_events (nexus/task.py) submits to which executors.
use event_pipeline.Prelude.{
  ℕ, ◌≡◌, refl, ap, ◌∙◌, String, none, some, List, [], ◌∷◌, ◌++◌, map, Comparable, ◌==◌, inl, inr,
  Bool-cases, Option-cases, some_inj,
}
use event_pipeline.Prelude.Dict.{Dict, lookup, insert}
use mathlib.Core.List.Perm
use mathlib.Core.List.{
  Perm, append_assoc, append-nil, perm_middle, perm-append_left_iff, map-append,
}
use event_pipeline.Exceptions.{Attempt, ok}
use event_pipeline.Submission.{
  Prepared, Group, EventSignal, event_execution_init, event_execution_start, Values, Executors,
  add_event, gather_executors, submit_events, execute_groups, init_and_execute_events,
  merge_context,
}

-- What a future stands for: the event that runs with its arguments, and the executor that runs it.
abbrev pub Asked : Type 0 → Type 0 → Type 0
Asked E A = E × ℕ × A

abbrev pub of_events : {E A : Type 0} → E → List (ℕ × A) → List (Asked E A)
of_events x events = map (λ v. (x, v.0, v.1)) events

module _ {E A V : Type 0} where
  abbrev pub asked : Prepared E A V → Asked E A
  asked p = (p.executor, p.event, p.call_args)

  abbrev pub submissions : Dict E (Group A V) → List (Asked E A)
  submissions [] = []
  submissions ((x, g) ∷ m) = of_events x g.events ++ submissions m

  -- The tasks that were prepared, when none raised.
  abbrev pub all_ok : {W : Type 0} → List (Prepared E A V) → List (Attempt W (Prepared E A V))
  all_ok [] = []
  all_ok (p ∷ ps) = ok p ∷ all_ok ps

extended-Perm :
    {E A : Type 0} (x : E) (events : List (ℕ × A)) (v : ℕ × A) (rest : List (Asked E A))
    → Perm (of_events x (events ++ v ∷ []) ++ rest) ((x, v.0, v.1) ∷ (of_events x events ++ rest))
extended-Perm {E} {A} x events v rest =
    rw (map-append {B = Asked E A} (λ (v : ℕ × A). (x, v.0, v.1)) events (v ∷ [])) (
      rw (append_assoc (of_events x events) ((x, v.0, v.1) ∷ []) rest)
        (perm_middle (of_events x events) rest))

module _ {E A V : Type 0} ⦃e : Comparable E⦄ where
  -- The events of the executor of `p` are extended at the end, wherever it stands.
  insert-Perm :
      (p : Prepared E A V) (g : Group A V) (context : Dict String V) (m : Dict E (Group A V))
      → lookup p.executor m ≡ some g
      → Perm
          (submissions (
            insert p.executor
              (record { context = context; events = g.events ++ (p.event, p.call_args) ∷ [] })
              m))
          (asked p ∷ submissions m)
  unfolding lookup insert
  insert-Perm p g context [] found = cc
  insert-Perm p g context ((x, g') ∷ m) found = elim (Bool-cases (x == p.executor)) [
    | inl same ↦ rw same (
        rw (← (e.equals_iff x p.executor).0 same) (
          rw (some_inj (rw same at found))
            (extended-Perm x g.events (p.event, p.call_args) (submissions m))))
    | inr other ↦ rw other (
        Perm.trans
          ((perm-append_left_iff (of_events x g'.events)).1
            (insert-Perm p g context m (rw other at found)))
          (perm_middle (of_events x g'.events) (submissions m)))
  ]

  insert_new-Perm :
      (p : Prepared E A V) (context : Dict String V) (m : Dict E (Group A V))
      → lookup p.executor m ≡ none
      → Perm
          (submissions (
            insert p.executor
              (record { context = context; events = (p.event, p.call_args) ∷ [] })
              m))
          (asked p ∷ submissions m)
  unfolding lookup insert
  insert_new-Perm p context [] absent = Perm.refl (asked p ∷ [])
  insert_new-Perm p context ((x, g) ∷ m) absent = elim (Bool-cases (x == p.executor)) [
    | inl same ↦ cc (rw same at absent)
    | inr other ↦ rw other (
        Perm.trans
          ((perm-append_left_iff (of_events x g.events)).1
            (insert_new-Perm p context m (rw other at absent)))
          (perm_middle (of_events x g.events) (submissions m)))
  ]

  add_event-Perm :
      (py : Values V) (p : Prepared E A V) (m : Dict E (Group A V))
      → Perm (submissions (add_event py p m)) (asked p ∷ submissions m)
  unfolding add_event
  add_event-Perm py p m = elim (Option-cases (lookup p.executor m)) [
    | inl absent ↦ rw (absent, add_event) (insert_new-Perm p p.context m absent)
    | inr (g, found) ↦
        rw (found, add_event) (insert-Perm p g (merge_context py g.context p.context) m found)
  ]

  -- The map that is gathered, with the signals, when no preparation raises.
  pub gather_executors-Perm :
      {W : Type 0} (py : Values V) (ps : List (Prepared E A V)) (m : Dict E (Group A V))
      (signals : List (EventSignal E))
      → (m' : Dict E (Group A V)) × (gather_executors py {W = W} (all_ok ps) m signals
          ≡ (ok m', signals ++ map (λ p. event_execution_init p.event p.executor) ps))
        × Perm (submissions m') (map asked ps ++ submissions m)
  unfolding gather_executors
  gather_executors-Perm py [] m signals =
      (m, rw (append-nil signals) refl, Perm.refl (submissions m))
  gather_executors-Perm {W} py (p ∷ ps) m signals =
      let (m', done, perm) =
        gather_executors-Perm {W = W} py ps (add_event py p m)
          (signals ++ event_execution_init p.event p.executor ∷ []) in
      (
        m',
        done
            ∙ ap
                (λ (s : List (EventSignal E)).
                  let r : Attempt W (Dict E (Group A V)) × List (EventSignal E) = (ok m', s) in r)
                (append_assoc signals (event_execution_init p.event p.executor ∷ [])
                  (map (λ (p : Prepared E A V). event_execution_init p.event p.executor) ps)),
        Perm.trans perm (
            Perm.trans ((perm-append_left_iff (map asked ps)).1 (add_event-Perm py p m))
              (perm_middle (map asked ps) (submissions m))),
      )

abbrev pub started : {E A : Type 0} → List (Asked E A) → List (EventSignal E)
started {E} {A} qs = map (λ (q : Asked E A). event_execution_start q.1) qs

module _ {E A V F W : Type 0} (executors : Executors E A V F W)
    (run : E → Dict String V → ℕ → A → F)
    (accepts : (x : E) (context : Dict String V)
      → executors x context ≡ ok (λ event args. ok (run x context event args))) where
  abbrev pub futures_of : E → Dict String V → List (ℕ × A) → List F
  futures_of x context events = map (λ (v : ℕ × A). run x context v.0 v.1) events

  abbrev pub futures : Dict E (Group A V) → List F
  futures [] = []
  futures ((x, g) ∷ m) = futures_of x g.context g.events ++ futures m

  -- The futures are those of the events, in their order.
  submit_events_lem :
      (x : E) (context : Dict String V) (events : List (ℕ × A)) (signals : List (EventSignal E))
      → submit_events {W = W} (λ event args. ok (run x context event args)) events signals
        ≡ (ok (futures_of x context events), signals ++ started (of_events x events))
  unfolding submit_events
  submit_events_lem x context [] signals = rw (append-nil signals) refl
  submit_events_lem x context ((v, args) ∷ events) signals =
      rw (submit_events_lem x context events (signals ++ event_execution_start v ∷ [])) (
        rw (append_assoc signals (event_execution_start v ∷ []) (started (of_events x events)))
          refl)

  pub execute_groups_lem :
      (m : Dict E (Group A V)) (signals : List (EventSignal E))
      → execute_groups executors m signals ≡ (ok (futures m), signals ++ started (submissions m))
  unfolding execute_groups
  execute_groups_lem [] signals = rw (append-nil signals) refl
  execute_groups_lem ((x, g) ∷ m) signals =
      rw (accepts x g.context, execute_groups)
        (rw (submit_events_lem x g.context g.events signals, execute_groups)
          (rw (execute_groups_lem m (signals ++ started (of_events x g.events)), execute_groups)
            (rw (append_assoc signals (started (of_events x g.events)) (started (submissions m))) (
              rw
                (map-append {B = EventSignal E} (λ (q : Asked E A). event_execution_start q.1)
                  (of_events x g.events) (submissions m))
                refl))))

  module _ (about : F → Asked E A)
      (runs : (x : E) (context : Dict String V) (event : ℕ) (args : A)
        → about (run x context event args) ≡ (x, event, args)) where
    about-futures_of :
        (x : E) (context : Dict String V) (events : List (ℕ × A))
        → map about (futures_of x context events) ≡ of_events x events
    about-futures_of x context [] = refl
    about-futures_of x context ((v, args) ∷ events) =
        rw (runs x context v args) (rw (about-futures_of x context events) refl)

    about-futures : (m : Dict E (Group A V)) → map about (futures m) ≡ submissions m
    about-futures [] = refl
    about-futures ((x, g) ∷ m) =
        map-append about (futures_of x g.context g.events) (futures m)
        ∙ rw (about-futures_of x g.context g.events) (rw (about-futures m) refl)

    -- When preparing the tasks raises nothing and every executor accepts its events,
    -- `init_and_execute_events` returns one future for each task: each runs the event of the task with
    -- the arguments and on the executor of the task, and only the order may differ. Every event is
    -- announced by event_execution_init, in the order of the tasks, before any starts, and each future
    -- by event_execution_start, in the order of the futures.
    pub init_and_execute_events-Perm :
        ⦃e : Comparable E⦄ (py : Values V) (ps : List (Prepared E A V))
        → (fs : List F) × (init_and_execute_events py executors (all_ok ps) ≡ (
          ok fs,
          map (λ p. event_execution_init p.event p.executor) ps ++ started (map about fs),
        ))
          × Perm (map about fs) (map asked ps)
    unfolding init_and_execute_events
    init_and_execute_events-Perm py ps =
        let (m, gathered, perm) = gather_executors-Perm {W = W} py ps [] [] in
        let announced : List (EventSignal E) =
          map (λ (p : Prepared E A V). event_execution_init p.event p.executor) ps in
        (
          futures m,
          rw (gathered, init_and_execute_events)
              (rw (about-futures m) (execute_groups_lem m announced)),
          rw (about-futures m) (rw (append-nil (map asked ps)) at perm),
        )
