-- ===== src/Submission/Configs.antt =====
-- The arguments with which init_and_execute_events (nexus/task.py) makes executors.
use event_pipeline.Prelude.{
  ℕ, ◌≡◌, refl, sym, ap, ◌∙◌, subst, String, true, false, Option, none, some, List, [], ◌∷◌, ◌++◌,
  Comparable, ◌==◌, ==_refl, inl, inr, Bool-cases, if◌then◌else◌, Option-cases, any, All, is_some,
}
use event_pipeline.Prelude.Dict.{
  Dict, lookup, insert, has, IsKeyed, lookup-insert, insert-IsKeyed, has-lookup,
}
use event_pipeline.Exceptions.{ok}
use event_pipeline.Submission.{
  Prepared, Group, EventSignal, Values, Executors, add_event, gather_executors,
  init_and_execute_events, merge_context, event_execution_init,
}
use event_pipeline.Submission.Grouping.{all_ok, futures, futures_of, execute_groups_lem}

module _ {E A V : Type 0} (py : Values V) ⦃e : Comparable E⦄ (x : E) where
  -- The executor has a group with the context `c`.
  abbrev Configured : Dict String V → Dict E (Group A V) → Type 0
  Configured c m = (g : Group A V) × (lookup x m ≡ some g) × (g.context ≡ c)

  abbrev group_with : Prepared E A V → Option (Group A V) → Group A V
  group_with p none = record { context = p.context; events = (p.event, p.call_args) ∷ [] }
  group_with p (some g) = record {
    context = merge_context py g.context p.context;
    events = g.events ++ (p.event, p.call_args) ∷ [];
  }

  add_event-insert :
      (p : Prepared E A V) (m : Dict E (Group A V))
      → add_event py p m ≡ insert p.executor (group_with p (lookup p.executor m)) m
  unfolding add_event
  add_event-insert p m = elim (Option-cases (lookup p.executor m)) [
    | inl absent ↦ rw (absent, add_event) refl
    | inr (g, found) ↦ rw (found, add_event) refl
  ]

  lookup-add_event :
      (p : Prepared E A V) (m : Dict E (Group A V))
      → lookup x (add_event py p m)
        ≡ (if p.executor == x then some (group_with p (lookup p.executor m)) else lookup x m)
  lookup-add_event p m =
      ap (lookup x) (add_event-insert p m)
      ∙ lookup-insert p.executor x (group_with p (lookup p.executor m)) m

  add_event-IsKeyed :
      (p : Prepared E A V) (m : Dict E (Group A V)) → IsKeyed m → IsKeyed (add_event py p m)
  add_event-IsKeyed p m keyed =
      rw (add_event-insert p m)
        (insert-IsKeyed p.executor (group_with p (lookup p.executor m)) m keyed)

  add_event-first :
      (p : Prepared E A V) (m : Dict E (Group A V))
      → (p.executor == x) ≡ true
      → lookup x m ≡ none
      → Configured p.context (add_event py p m)
  add_event-first p m same absent = (
    group_with p (lookup p.executor m),
    lookup-add_event p m ∙ rw same refl,
    rw ((e.equals_iff p.executor x).0 same) (rw absent refl),
  )

  add_event-later :
      (p : Prepared E A V) (m : Dict E (Group A V)) (entry : String × V) (c : Dict String V)
      → Configured (entry ∷ c) m
      → Configured (entry ∷ c) (add_event py p m)
  add_event-later p m entry c (g, found, context) = elim (Bool-cases (p.executor == x)) [
    | inl same ↦ (
      group_with p (lookup p.executor m),
      lookup-add_event p m ∙ rw same refl,
      rw ((e.equals_iff p.executor x).0 same) (rw found (rw context refl)),
    )
    | inr other ↦ (g, lookup-add_event p m ∙ rw other found, context)
  ]

  -- What the map is after the tasks, when none raised.
  abbrev gathered : List (Prepared E A V) → Dict E (Group A V) → Dict E (Group A V)
  gathered [] m = m
  gathered (p ∷ ps) m = gathered ps (add_event py p m)

  gather_executors-gathered :
      {W : Type 0} (ps : List (Prepared E A V)) (m : Dict E (Group A V))
      (signals : List (EventSignal E))
      → (signals' : List (EventSignal E)) × (gather_executors py {W = W} (all_ok ps) m signals
          ≡ (ok (gathered ps m), signals'))
  unfolding gather_executors
  gather_executors-gathered [] m signals = (signals, refl)
  gather_executors-gathered {W} (p ∷ ps) m signals =
      gather_executors-gathered {W = W} ps (add_event py p m)
        (signals ++ event_execution_init p.event p.executor ∷ [])

  gathered-IsKeyed :
      (ps : List (Prepared E A V)) (m : Dict E (Group A V)) → IsKeyed m → IsKeyed (gathered ps m)
  gathered-IsKeyed [] m keyed = keyed
  gathered-IsKeyed (p ∷ ps) m keyed =
      gathered-IsKeyed ps (add_event py p m) (add_event-IsKeyed p m keyed)

  gathered-later :
      (ps : List (Prepared E A V)) (m : Dict E (Group A V)) (entry : String × V) (c : Dict String V)
      → Configured (entry ∷ c) m
      → Configured (entry ∷ c) (gathered ps m)
  gathered-later [] m entry c here = here
  gathered-later (p ∷ ps) m entry c here =
      gathered-later ps (add_event py p m) entry c (add_event-later p m entry c here)

  gathered-first :
      (before : List (Prepared E A V)) (p : Prepared E A V) (after : List (Prepared E A V))
      (m : Dict E (Group A V)) (entry : String × V) (c : Dict String V)
      → any (λ q. q.executor == x) before ≡ false
      → (p.executor == x) ≡ true
      → p.context ≡ entry ∷ c
      → lookup x m ≡ none
      → Configured (entry ∷ c) (gathered (before ++ p ∷ after) m)
  gathered-first [] p after m entry c others same context absent =
      gathered-later after (add_event py p m) entry c
        (subst (λ d. Configured d (add_event py p m)) context (add_event-first p m same absent))
  gathered-first (q ∷ before) p after m entry c others same context absent =
      elim (Bool-cases (q.executor == x)) [
        | inl e' ↦ cc (rw e' at others)
        | inr e' ↦
            gathered-first before p after (add_event py q m) entry c (rw e' at others) same context
              (lookup-add_event q m ∙ rw e' absent)
      ]

module _ {E A V F W : Type 0} ⦃e : Comparable E⦄ (executors : Executors E A V F W)
    (run : E → Dict String V → ℕ → A → F)
    (accepts : (x : E) (context : Dict String V)
      → executors x context ≡ ok (λ event args. ok (run x context event args)))
    (made : F → E × Dict String V)
    (runs : (x : E) (context : Dict String V) (event : ℕ) (args : A)
      → made (run x context event args) ≡ (x, context)) where
  -- The future's executor was made with the arguments `c`, if it is of the class `x`.
  abbrev pub Made : E → Dict String V → F → Type 0
  Made x c f = ((made f).0 == x) ≡ true → (made f).1 ≡ c

  All-append : (P : F → Type 0) (fs gs : List F) → All P fs → All P gs → All P (fs ++ gs)
  All-append P [] gs hf hg = hg
  All-append P (f ∷ fs) gs hf hg = (hf.0, All-append P fs gs hf.1 hg)

  futures_of-All :
      (P : F → Type 0) (y : E) (c : Dict String V) (events : List (ℕ × A))
      → ((event : ℕ) (args : A) → P (run y c event args))
      → All P (futures_of executors run accepts y c events)
  futures_of-All P y c [] h = tt
  futures_of-All P y c ((event, args) ∷ events) h = (h event args, futures_of-All P y c events h)

  clash :
      (x y : E) (g : Group A V) (m : Dict E (Group A V))
      → (y == x) ≡ true
      → has y m ≡ false
      → lookup x m ≡ some g
      → ⊥
  clash x y g m same fresh found = cc (
    has-lookup x m,
    ap is_some found,
    subst (λ z. has z m ≡ false) ((e.equals_iff y x).0 same) fresh,
  )

  futures-Made :
      (x : E) (c : Dict String V) (m : Dict E (Group A V))
      → ((g : Group A V) → lookup x m ≡ some g → g.context ≡ c)
      → IsKeyed m
      → All (Made x c) (futures executors run accepts m)
  unfolding lookup
  futures-Made x c [] h keyed = tt
  futures-Made x c ((y, g) ∷ m) h keyed =
      All-append (Made x c) (futures_of executors run accepts y g.context g.events)
        (futures executors run accepts m)
        (futures_of-All (Made x c) y g.context g.events (λ event args.
          subst (λ (r : E × Dict String V). (r.0 == x) ≡ true → r.1 ≡ c)
            (sym (runs y g.context event args)) (λ same. h g (rw same refl))))
        (futures-Made x c m
          (λ g' found. elim (Bool-cases (y == x)) [
            | inl same ↦ absurd (clash x y g' m same keyed.0 found)
            | inr other ↦ h g' (rw other found)
          ])
          keyed.1)

  -- When preparing the tasks raises nothing and every executor accepts its events: if the first task
  -- with an executor class asks for arguments of that executor (for a context that is not empty), then
  -- every future of the class runs on an executor made with exactly these; what later events ask for is
  -- ignored.
  pub init_and_execute_events-Made :
      (py : Values V) (before : List (Prepared E A V)) (p : Prepared E A V)
      (after : List (Prepared E A V)) (entry : String × V) (c : Dict String V)
      → any (λ q. q.executor == p.executor) before ≡ false
      → p.context ≡ entry ∷ c
      → (fs : List F) × ((init_and_execute_events py executors (all_ok (before ++ p ∷ after))).0
          ≡ ok fs)
        × All (Made p.executor (entry ∷ c)) fs
  unfolding init_and_execute_events lookup
  init_and_execute_events-Made py before p after entry c others context =
      let ps : List (Prepared E A V) = before ++ p ∷ after in
      let (signals, done) = gather_executors-gathered py p.executor {W = W} ps [] [] in
      let (g, found, kept) =
        gathered-first py p.executor before p after [] entry c others (==_refl p.executor) context
          refl in
      (
        futures executors run accepts (gathered py p.executor ps []),
        rw (done, init_and_execute_events)
            (rw (execute_groups_lem executors run accepts (gathered py p.executor ps []) signals)
              refl),
        futures-Made p.executor (entry ∷ c) (gathered py p.executor ps [])
            (λ g' found'. cc (found, found', kept)) (gathered-IsKeyed py p.executor ps [] tt),
      )
