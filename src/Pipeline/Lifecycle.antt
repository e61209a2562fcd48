-- ===== src/Pipeline/Lifecycle.antt =====
-- Pipeline.start, stop and shutdown (nexus/pipeline.py).
use event_pipeline.Prelude.{
  ℕ, ◌*◌, ◌^◌, ◌<◌, ◌≡◌, ◌≢◌, ◌==◌, ==_refl, comparable_nat, refl, sym, subst, ap, Bool, true,
  false, not, ◌&&◌, Option, none, some, List, [], ◌∷◌, ◌++◌, get_elem?, set, length, is_some,
  length-set, get_elem?-set_self, get_elem?-set_ne, arith, inl, inr, Bool-cases, if◌then◌else◌,
}
use event_pipeline.Ast.{Ast}
use event_pipeline.Task.{Heap}
use event_pipeline.Task.Build.{ok, build_pipeline}
use event_pipeline.Context.{Context, cancel, abort}
use event_pipeline.Execution.{World, Run, Exit, returned, task_switching_error, attribute_error}
use event_pipeline.Execution.Termination.{execute_task_terminates}
use event_pipeline.Pipeline.{
  Pipeline, LifecycleSignal, pipeline_execution_start, pipeline_execution_end, pipeline_stop,
  pipeline_shutdown, Started, started, event_done, raised, start, finish, stop, change_latest,
  shutdown, emit, final_signal, signal_of, get_latest_execution_context,
}
use event_pipeline.Pipeline.Links.{IsLinked, set-IsLinked, same_place}
use event_pipeline.Pipeline.Chain.{IsChain, Inside, execute_task-IsChain}
use event_pipeline.Pipeline.Walks.{walk_ends}

and-left : (a b : Bool) → (a && b) ≡ true → a ≡ true
and-left true b e = refl
and-left false b e = e

module _ {V : Type 0} where
  -- The contexts are linked, and `execution_context` is one of them.
  abbrev pub IsWellFormed : Pipeline V → Type 0
  IsWellFormed p = IsLinked p.contexts × Inside (length p.contexts) p.execution_context

  -- What an activation of `start` does to the signals, by how it ends.
  abbrev pub Signalled : Pipeline V → Started × Pipeline V → Type 0
  Signalled p (event_done, p') =
      (is_some p.execution_context ≡ true)
      × (p'.contexts ≡ p.contexts)
      × (p'.signals ≡ p.signals ++ pipeline_execution_start ∷ [])
  Signalled p (raised e, p') = p'.signals ≡ p.signals ++ pipeline_execution_start ∷ []
  Signalled p (started c, p') =
      (c ≡ p'.execution_context)
      × (s : LifecycleSignal) × (final_signal p'.contexts c ≡ some s)
      × (p'.signals ≡ (p.signals ++ pipeline_execution_start ∷ []) ++ s ∷ [])

  final_signal_ends :
      (cs : List (Context V)) (o : Option ℕ)
      → IsLinked cs
      → Inside (length cs) o
      → (s : LifecycleSignal) × (final_signal cs o ≡ some s)
  final_signal_ends cs none linked inside = (pipeline_execution_end none, refl)
  final_signal_ends cs (some i) linked inside =
      let (l, walk, bound, (c, found, last)) = walk_ends cs linked i inside in
      (signal_of c.state l (some i), rw (walk, final_signal) (rw (found, final_signal) refl))

  finish_ends :
      (p : Pipeline V) (r : Exit × Run V)
      → IsChain r.1
      → (o : Started) × (p' : Pipeline V) × (finish r (p.signals ++ pipeline_execution_start ∷ [])
          ≡ some (o, p'))
        × IsWellFormed p'
        × Signalled p (o, p')
  unfolding finish
  finish_ends p (returned, r) (linked, inside) =
      let (s, final) = final_signal_ends r.contexts r.execution_context linked inside in
      (
        started r.execution_context,
        record {
          contexts = r.contexts;
          execution_context = r.execution_context;
          signals = (p.signals ++ pipeline_execution_start ∷ []) ++ s ∷ [];
        },
        rw (final, finish) refl,
        (linked, inside),
        (refl, s, final, refl),
      )
  finish_ends p (task_switching_error, r) chain =
      (raised task_switching_error, _, refl, chain, refl)
  finish_ends p (attribute_error, r) chain = (raised attribute_error, _, refl, chain, refl)

module _ {V : Type 0} (x : Ast) (r : ℕ) (h : Heap) (w : World V)
    (built : build_pipeline x ≡ ok (r, h)) where
  -- On a script that builds, `start` of a well-formed pipeline always ends, with or without `force_rerun`, and leaves the pipeline well formed. It emits pipeline_execution_start first. If it raises EventDone, there was a context and no context has changed, and if it raises that or another exception, no other signal is emitted; if it returns, it returns `execution_context` and has emitted exactly one more signal, which is pipeline_stop, pipeline_shutdown or pipeline_execution_end by the state of the latest context.
  pub start_ends :
      (force : Bool) (p : Pipeline V)
      → IsWellFormed p
      → (o : Started) × (p' : Pipeline V) × (start h w (8 * 2 ^ length h) r force p ≡ some (o, p'))
        × IsWellFormed p'
        × Signalled p (o, p')
  unfolding start
  start_ends force p well = elim (Bool-cases (is_some p.execution_context && not force)) [
    | inl done ↦ (
      event_done,
      emit pipeline_execution_start p,
      rw done refl,
      well,
      (and-left (is_some p.execution_context) (not force) done, refl, refl),
    )
    | inr fresh ↦
        let s0 : Run V = record {
          contexts = p.contexts;
          execution_context = none;
          sink_queue = [];
        } in
        let (e, runs) = execute_task_terminates x r h w r none s0 built refl in
        let (o, p', ends, after, signalled) =
          finish_ends p e
            (execute_task-IsChain h w (8 * 2 ^ length h) (some r) none s0 e (well.0, tt) tt runs) in
        (o, p', rw fresh (rw runs ends), after, signalled)
  ]

differs : (n m : ℕ) → n ≢ m → (n == m) ≡ false
differs n m h = ground (arith, h)

get_elem?-set :
    {A : Type 0} (xs : List A) (m n : ℕ) (v : A)
    → m < length xs
    → get_elem? (set xs m v) n ≡ (if n == m then some v else get_elem? xs n)
get_elem?-set xs m n v inside = elim (same_place n m) [
  | inl here ↦ rw here (rw (==_refl m) (get_elem?-set_self xs m v inside))
  | inr other ↦ rw (differs n m other) (get_elem?-set_ne xs m n v (λ e. other (sym e)))
]

module _ {V : Type 0} where
  -- What `stop` and `shutdown` do: the latest context changes, and only that one.
  abbrev pub Changed :
      (Context V → Context V)
      → (ℕ → LifecycleSignal)
      → ℕ
      → Pipeline V
      → Option (Pipeline V)
      → Type 0
  Changed change signal i p result =
      (l : ℕ) × (c : Context V) × (p' : Pipeline V) × (result ≡ some p')
      × (get_latest_execution_context p.contexts i ≡ some l)
      × (get_elem? p.contexts l ≡ some c)
      × ((n : ℕ)
          → get_elem? p'.contexts n ≡ (if n == l then some (change c) else get_elem? p.contexts n))
      × (p'.signals ≡ p.signals ++ signal i ∷ [])
      × IsWellFormed p'

  change_latest-Changed :
      (change : Context V → Context V) (signal : ℕ → LifecycleSignal) (i : ℕ) (p : Pipeline V)
      → ((c : Context V)
          → ((change c).previous_context ≡ c.previous_context)
            × ((change c).next_context ≡ c.next_context))
      → IsWellFormed p
      → p.execution_context ≡ some i
      → Changed change signal i p (change_latest change signal p)
  change_latest-Changed change signal i p links well here =
      let inside : i < length p.contexts = subst (Inside (length p.contexts)) here well.1 in
      let (l, walk, bound, (c, found, last)) = walk_ends p.contexts well.0 i inside in
      (
        l,
        c,
        emit (signal i) (record p { contexts = set p.contexts l (change c) }),
        rw (here, change_latest)
            (rw (walk, change_latest)
              (rw (found, change_latest)
                (ap
                  (λ (o : Option ℕ). some (record {
                    contexts = set p.contexts l (change c);
                    execution_context = o;
                    signals = p.signals ++ signal i ∷ [];
                  }))
                  here))),
        walk,
        found,
        λ n. get_elem?-set p.contexts l n (change c) bound,
        refl,
        (
          set-IsLinked p.contexts l (change c) well.0 (rw (links c).0 (well.0 l c found).0)
              (rw (links c).1 (well.0 l c found).1) bound,
          rw (length-set p.contexts l (change c)) well.1,
        ),
      )

  -- `stop` of a well-formed pipeline that has contexts ends: it cancels the latest context, leaves every other one as it was, emits pipeline_stop last, and leaves the pipeline well formed.
  pub stop-Changed :
      (i : ℕ) (p : Pipeline V)
      → IsWellFormed p
      → p.execution_context ≡ some i
      → Changed cancel pipeline_stop i p (stop p)
  unfolding stop cancel
  stop-Changed i p well here =
      change_latest-Changed cancel pipeline_stop i p (λ c. (refl, refl)) well here

  -- `shutdown` of a well-formed pipeline that has contexts ends: it aborts the latest context, leaves every other one as it was, emits pipeline_shutdown last, and leaves the pipeline well formed.
  pub shutdown-Changed :
      (i : ℕ) (p : Pipeline V)
      → IsWellFormed p
      → p.execution_context ≡ some i
      → Changed abort pipeline_shutdown i p (shutdown p)
  unfolding shutdown abort
  shutdown-Changed i p well here =
      change_latest-Changed abort pipeline_shutdown i p (λ c. (refl, refl)) well here
