-- ===== src/Batch/Started.antt =====
-- What BatchPipeline.execute (nexus/pipeline.py) starts: the number of pipelines and their arguments.
use event_pipeline.Prelude.{
  ℕ, zero, suc, ◌+◌, ◌<◌, ◌≡◌, refl, ◌∙◌, sym, ap, subst, not, ◌&&◌, String, Bool, true, false,
  Option, none, some, List, [], ◌∷◌, ◌++◌, length, if◌then◌else◌, comparable_string, ◌==◌, ==_refl,
  arith, get_elem?, is_some, inl, inr, Bool-cases, Option-cases, All, All-get_elem?, some_inj, any,
}
use event_pipeline.Prelude.Dict.{lookup, insert, lookup-insert, update, has, IsKeyed, has-lookup}
use mathlib.Core.Option
use event_pipeline.Batch.{
  Kwargs, BatchMap, Source, BatchField, next_values, any_truthy, longest, submit, execute_rounds,
  all_iterators_consumed, attribute_of, started, report, is_missing, attribute_error, not_accepted,
  is_empty, gather_and_init, prepare_args, execute, pipelines_of,
}
use event_pipeline.Batch.Rounds.{nth}
use event_pipeline.Batch.Submissions.{lookup-update}
use event_pipeline.Batch.Fields.{
  DistinctNames, Processed, pipelines_of-Submits, none_missing, prepare_args-IsKeyed,
}

module _ {V : Type 0} (truthy : V → Bool) (convert : String → V → Option V)
    (accepts : Kwargs V → Bool) (c : String → V → V)
    (converts : (f : String) (v : V) → convert f v ≡ some (c f v)) where
  nth-get_elem? :
      (f : String) (k : ℕ) (vs : List V)
      → nth truthy convert accepts c converts f k vs ≡ Option.map (c f) (get_elem? vs k)
  nth-get_elem? f k [] = refl
  nth-get_elem? f zero (v ∷ vs) = refl
  nth-get_elem? f (suc k) (v ∷ vs) = nth-get_elem? f k vs

module _ {V : Type 0} (truthy : V → Bool) (convert : String → V → Option V)
    (accepts : Kwargs V → Bool) (c : String → V → V)
    (converts : (f : String) (v : V) → convert f v ≡ some (c f v))
    (truthful : (f : String) (v : V) → truthy (c f v) ≡ true)
    (accepted : (p : Kwargs V) → accepts p ≡ true) (attributes : Kwargs V)
    (processor method : String → Source V → List V) (fields : List BatchField)
    (names : DistinctNames fields) (processed : All Processed fields) (n : ℕ)
    (size : longest (gather_and_init attributes processor method fields []) ≡ suc n) where
  abbrev others : Kwargs V
  others = prepare_args attributes processor method fields

  -- The pipelines of the rounds are those of `execute`, as there is one.
  execute_started :
      (ps : List (Kwargs V))
      → pipelines_of truthy convert accepts attributes processor method others
          (gather_and_init attributes processor method fields [])
        ≡ some ps
      → 0 < length ps
      → execute truthy convert accepts attributes processor method fields ≡ started ps
  unfolding execute
  execute_started [] rounds some_of_them = absurd (omega arith)
  execute_started (p ∷ ps) rounds some_of_them =
      rw (none_missing truthy convert accepts attributes processor method fields processed)
        (rw (accepted (prepare_args attributes processor method fields)) (rw rounds refl))

  -- Where the fields have distinct names, every field with a `_batch` method has a batch processor,
  -- every conversion gives a true value, some iterator has a value and the template accepts all
  -- arguments, `execute` submits as many pipelines as the longest iterator
  -- has values (at least one), and one more exactly when an other field has a true value: the dict of
  -- the last round still holds it.
  pub execute-count :
      (ps : List (Kwargs V)) × (execute truthy convert accepts attributes processor method fields
        ≡ started ps)
      × (length ps
          ≡ suc n
            + (if any_truthy truthy convert accepts
                  (prepare_args attributes processor method fields)
                then 1
                else 0))
  execute-count =
      let s =
        pipelines_of-Submits truthy convert accepts c converts truthful accepted attributes
          processor method fields names processed n size in
      (s.0, execute_started s.0 s.1 (omega (arith, s.2)), s.2)

  -- Where the fields have distinct names, every field with a `_batch` method has a batch processor,
  -- every conversion gives a true value, some iterator has a value and the template accepts all
  -- arguments, the pipeline number k that `execute` submits, with k below the length of the longest
  -- iterator, has for a batch field the converted value number k of its iterator, and None where that has ended
  -- before.
  pub execute-batch_value :
      (k : ℕ)
      → k < suc n
      → (f : String) (vs : List V)
      → lookup f (gather_and_init attributes processor method fields []) ≡ some vs
      → (ps : List (Kwargs V)) × (p : Kwargs V) × (execute truthy convert accepts attributes
            processor method fields
          ≡ started ps)
        × (get_elem? ps k ≡ some p)
        × (lookup f p ≡ some (Option.map (c f) (get_elem? vs k)))
  execute-batch_value k below f vs found =
      let (ps, done, count, each) =
        pipelines_of-Submits truthy convert accepts c converts truthful accepted attributes
          processor method fields names processed n size in
      let (p, at, args) = each k below in
      (
        ps,
        p,
        execute_started ps done (omega (arith, count)),
        at,
        args.0 f vs found ∙ ap some (nth-get_elem? truthy convert accepts c converts f k vs),
      )

All-append : {A : Type 0} (P : A → Type 0) (xs ys : List A) → All P xs → All P ys → All P (xs ++ ys)
All-append P [] ys hx hy = hy
All-append P (x ∷ xs) ys hx hy = (hx.0, All-append P xs ys hx.1 hy)

module _ {V : Type 0} (truthy : V → Bool) (convert : String → V → Option V)
    (accepts : Kwargs V → Bool) (others : Kwargs V) (keyed : IsKeyed others) (f : String)
    (here : has f others ≡ true) where
  abbrev Keeps : Kwargs V → Type 0
  Keeps p = lookup f p ≡ lookup f others

  abbrev Every : Option (List (Kwargs V)) → Type 0
  Every none = Unit
  Every (some ps) = All Keeps ps

  update-Keeps : (kwargs : Kwargs V) → Keeps (update kwargs others)
  update-Keeps kwargs = grind (
    arith,
    lookup-update f kwargs others keyed,
    has-lookup f others,
    here,
    Option-cases (lookup f others),
  )

  submit_lem :
      (kwargs : Kwargs V)
      → any_truthy truthy convert accepts kwargs ≡ true
      → accepts (update kwargs others) ≡ true
      → submit truthy convert accepts others kwargs
        ≡ some (update kwargs others ∷ [], update kwargs others)
  submit_lem kwargs t a = rw t (rw a refl)

  submit_skipped :
      (kwargs : Kwargs V)
      → any_truthy truthy convert accepts kwargs ≡ false
      → submit truthy convert accepts others kwargs ≡ some ([], kwargs)
  submit_skipped kwargs t = rw t refl

  submit_refused :
      (kwargs : Kwargs V)
      → any_truthy truthy convert accepts kwargs ≡ true
      → accepts (update kwargs others) ≡ false
      → submit truthy convert accepts others kwargs ≡ none
  submit_refused kwargs t a = rw t (rw a refl)

  submit-Keeps :
      (kwargs : Kwargs V) (xs : List (Kwargs V)) (kwargs' : Kwargs V)
      → submit truthy convert accepts others kwargs ≡ some (xs, kwargs')
      → All Keeps xs
  submit-Keeps kwargs xs kwargs' done =
      elim (Bool-cases (any_truthy truthy convert accepts kwargs)) [
        | inl t ↦ elim (Bool-cases (accepts (update kwargs others))) [
          | inl a ↦
              subst (All Keeps) (ap (λ r. r.0) (some_inj (sym (submit_lem kwargs t a) ∙ done)))
                (update-Keeps kwargs, tt)
          | inr a ↦ absurd (cc (submit_refused kwargs t a, done))
        ]
        | inr t ↦
            subst (All Keeps) (ap (λ r. r.0) (some_inj (sym (submit_skipped kwargs t) ∙ done))) tt
      ]

  after :
      (xs : List (Kwargs V)) (r : Option (List (Kwargs V)))
      → All Keeps xs
      → Every r
      → Every (elim r [ none ↦ none | some rest ↦ some (xs ++ rest) ])
  after xs none hx h = tt
  after xs (some rest) hx h = All-append Keeps xs rest hx h

  rounds-Keeps :
      (fuel : ℕ) (m : BatchMap V) (kwargs : Kwargs V)
      → Every (execute_rounds truthy convert accepts others fuel m kwargs)
  unfolding execute_rounds
  rounds-Keeps zero m kwargs = tt
  rounds-Keeps (suc fuel) m kwargs =
      elim (Option-cases (next_values truthy convert accepts m kwargs)) [
        | inl e ↦ rw (e, execute_rounds) tt
        | inr ((m', y), e) ↦ elim (Option-cases (submit truthy convert accepts others y)) [
          | inl s ↦ rw (e, execute_rounds) (rw (s, execute_rounds) tt)
          | inr ((xs, y'), s) ↦ elim (Bool-cases (all_iterators_consumed m)) [
            | inl g ↦
                rw (e, execute_rounds)
                  (rw (s, execute_rounds) (rw (g, execute_rounds) (submit-Keeps y xs y' s)))
            | inr g ↦
                rw (e, execute_rounds)
                  (rw (s, execute_rounds)
                    (rw (g, execute_rounds)
                      (after xs (execute_rounds truthy convert accepts others fuel m' y')
                        (submit-Keeps y xs y' s) (rounds-Keeps fuel m' y'))))
          ]
        ]
      ]

  pipelines_of-Keeps :
      (attributes : Kwargs V) (processor method : String → Source V → List V) (m : BatchMap V)
      → Every (pipelines_of truthy convert accepts attributes processor method others m)
  pipelines_of-Keeps attributes processor method [] = (refl, tt)
  pipelines_of-Keeps attributes processor method ((g, vs) ∷ m) =
      rounds-Keeps (suc (longest ((g, vs) ∷ m))) ((g, vs) ∷ m) []

inserted_attribute :
    {V : Type 0} (value : String → Option V) (g f : String) (rest : Kwargs V)
    → (g == f ≡ false → lookup f rest ≡ some (value f))
    → lookup f (insert g (value g) rest) ≡ some (value f)
inserted_attribute value g f rest h = elim (Bool-cases (g == f)) [
  | inl e ↦
      lookup-insert g f (value g) rest
      ∙ rw e (ap (λ x. some (value x)) ((comparable_string.equals_iff g f).0 e))
  | inr e ↦ lookup-insert g f (value g) rest ∙ rw e (h e)
]

report_started :
    {V : Type 0} (o : Option (List (Kwargs V))) (ps : List (Kwargs V))
    → report o ≡ started ps
    → o ≡ some ps
report_started none ps e = cc
report_started (some []) ps e = cc
report_started (some (p ∷ qs)) ps e = cc

unless-started :
    {V : Type 0} (b d : Bool) (o : Option (List (Kwargs V))) (ps : List (Kwargs V))
    → (if b then attribute_error else if d then not_accepted else report o) ≡ started ps
    → o ≡ some ps
unless-started true d o ps e = cc
unless-started false true o ps e = cc
unless-started false false o ps e = report_started o ps e

lookup-prepare_args :
    {V : Type 0} (attributes : Kwargs V) (processor method : String → Source V → List V)
    (fields : List BatchField) (i : ℕ) (f : BatchField)
    → get_elem? fields i ≡ some f
    → f.has_batch_operation ≡ false
    → lookup f.name (prepare_args attributes processor method fields)
      ≡ some (attribute_of attributes processor method f.name)
unfolding prepare_args
lookup-prepare_args attributes processor method [] i f within plain = cc
lookup-prepare_args attributes processor method (g ∷ fs) zero f within plain =
    let same : g ≡ f = some_inj within in
    rw (ap (λ (x : BatchField). x.has_batch_operation) same ∙ plain) (
      inserted_attribute (attribute_of attributes processor method) g.name f.name
        (prepare_args attributes processor method fs)
        (λ e. cc (e, ap (λ (x : BatchField). x.name) same, ==_refl f.name)))
lookup-prepare_args attributes processor method (g ∷ fs) (suc i) f within plain =
    let rest = lookup-prepare_args attributes processor method fs i f within plain in
    elim (Bool-cases g.has_batch_operation) [
      | inl e ↦ rw e rest
      | inr e ↦ rw e (
          inserted_attribute (attribute_of attributes processor method) g.name f.name
            (prepare_args attributes processor method fs) (λ _. rest))
    ]

-- Every pipeline that `execute` starts has, for each field without a batch processor, the value that
-- the batch itself has; also when a method `<name>_batch` gave values for the field.
pub execute-other_value :
    {V : Type 0} (truthy : V → Bool) (convert : String → V → Option V) (accepts : Kwargs V → Bool)
    (attributes : Kwargs V) (processor method : String → Source V → List V)
    (fields : List BatchField) (i : ℕ) (f : BatchField) (ps : List (Kwargs V)) (k : ℕ)
    (p : Kwargs V)
    → get_elem? fields i ≡ some f
    → f.has_batch_operation ≡ false
    → execute truthy convert accepts attributes processor method fields ≡ started ps
    → get_elem? ps k ≡ some p
    → lookup f.name p ≡ some (attribute_of attributes processor method f.name)
unfolding execute
execute-other_value truthy convert accepts attributes processor method fields i f ps k p within
      plain done at =
    let others = prepare_args attributes processor method fields in
    let value = lookup-prepare_args attributes processor method fields i f within plain in
    let here : has f.name others ≡ true = has-lookup f.name others ∙ ap is_some value in
    All-get_elem? (λ q. lookup f.name q ≡ lookup f.name others) ps k p
      (subst
        (Every truthy convert accepts others
          (prepare_args-IsKeyed attributes processor method fields) f.name here)
        (unless-started (any (is_missing truthy convert accepts attributes processor method) fields)
          (not (accepts others) && is_empty (gather_and_init attributes processor method fields []))
          (pipelines_of truthy convert accepts attributes processor method others
            (gather_and_init attributes processor method fields []))
          ps done)
        (pipelines_of-Keeps truthy convert accepts others
          (prepare_args-IsKeyed attributes processor method fields) f.name here attributes processor
          method (gather_and_init attributes processor method fields [])))
      at
    ∙ value
