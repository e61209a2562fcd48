-- ===== src/Batch/Fields.antt =====
-- BatchPipeline.execute (nexus/pipeline.py) from the fields of the template to the pipelines.
use event_pipeline.Prelude.{
  ℕ, suc, ◌≡◌, refl, ◌∙◌, ap, String, Bool, true, false, ◌&&◌, ◌||◌, not, Option, some, List, [],
  ◌∷◌, comparable_string, ◌==◌, arith, inl, inr, Option-cases, any, All,
}
use event_pipeline.Prelude.Dict.{lookup, has, IsKeyed, has-insert, insert-IsKeyed}
use event_pipeline.Batch.{
  Kwargs, BatchMap, longest, execute_rounds, pipelines_of, Source, BatchField, gather_and_init,
  gather_field, gather_field_batch_methods, with_processor, prepare_args, attribute_of,
  value_or_empty, is_missing,
}
use event_pipeline.Batch.Pipelines.{Submits, all_rounds}

-- No two fields have one name.
abbrev pub DistinctNames : List BatchField → Type 0
DistinctNames [] = Unit
DistinctNames (f ∷ fs) = (any (λ g. g.name == f.name) fs ≡ false) × DistinctNames fs

-- A field with a method `<name>_batch` has a batch processor too.
abbrev pub Processed : BatchField → Type 0
Processed f = f.has_batch_method ≡ true → f.has_batch_operation ≡ true

module _ {V : Type 0} (attributes : Kwargs V) (processor method : String → Source V → List V) where
  methods-has :
      (x : String) (f : BatchField) (m : BatchMap V)
      → has x (gather_field_batch_methods attributes processor method f m)
        ≡ (f.name == x || has x m)
  unfolding gather_field_batch_methods
  methods-has x f m = elim (Option-cases (lookup f.name m)) [
    | inl e ↦ rw (e, gather_field_batch_methods) (has-insert f.name x _ m)
    | inr (vs, e) ↦ rw (e, gather_field_batch_methods) (has-insert f.name x _ m)
  ]

  methods-IsKeyed :
      (f : BatchField) (m : BatchMap V)
      → IsKeyed m
      → IsKeyed (gather_field_batch_methods attributes processor method f m)
  unfolding gather_field_batch_methods
  methods-IsKeyed f m keyed = elim (Option-cases (lookup f.name m)) [
    | inl e ↦ rw (e, gather_field_batch_methods) (insert-IsKeyed f.name _ m keyed)
    | inr (vs, e) ↦ rw (e, gather_field_batch_methods) (insert-IsKeyed f.name _ m keyed)
  ]

  has-gather_field :
      (x : String) (f : BatchField) (m : BatchMap V)
      → Processed f
      → has x (gather_field attributes processor method f m)
        ≡ (f.name == x && f.has_batch_operation || has x m)
  unfolding gather_field
  has-gather_field x f m processed = ground (
    arith,
    methods-has x f (with_processor attributes processor method f m),
    has-insert f.name x (processor f.name (value_or_empty attributes processor method f.name)) m,
  )

  gather_field-IsKeyed :
      (f : BatchField) (m : BatchMap V)
      → IsKeyed m
      → IsKeyed (gather_field attributes processor method f m)
  unfolding gather_field
  gather_field-IsKeyed f m keyed = ground (
    arith,
    methods-IsKeyed f (with_processor attributes processor method f m),
    insert-IsKeyed f.name (processor f.name (value_or_empty attributes processor method f.name)) m,
  )

  pub gather_and_init-IsKeyed :
      (fs : List BatchField) (m : BatchMap V)
      → IsKeyed m
      → IsKeyed (gather_and_init attributes processor method fs m)
  unfolding gather_and_init
  gather_and_init-IsKeyed [] m keyed = keyed
  gather_and_init-IsKeyed (f ∷ fs) m keyed =
      gather_and_init-IsKeyed fs (gather_field attributes processor method f m)
        (gather_field-IsKeyed f m keyed)

  has-gather_and_init :
      (x : String) (fs : List BatchField) (m : BatchMap V)
      → All Processed fs
      → has x (gather_and_init attributes processor method fs m)
        ≡ (any (λ f. f.name == x && f.has_batch_operation) fs || has x m)
  unfolding gather_and_init
  has-gather_and_init x [] m processed = refl
  has-gather_and_init x (f ∷ fs) m processed = ground (
    arith,
    has-gather_and_init x fs (gather_field attributes processor method f m) processed.1,
    has-gather_field x f m processed.0,
  )

  has-prepare_args :
      (x : String) (fs : List BatchField)
      → has x (prepare_args attributes processor method fs)
        ≡ any (λ f. f.name == x && not f.has_batch_operation) fs
  unfolding prepare_args has
  has-prepare_args x [] = refl
  has-prepare_args x (f ∷ fs) = ground (
    arith,
    has-prepare_args x fs,
    has-insert f.name x (attribute_of attributes processor method f.name)
        (prepare_args attributes processor method fs),
  )

  pub prepare_args-IsKeyed :
      (fs : List BatchField) → IsKeyed (prepare_args attributes processor method fs)
  unfolding prepare_args
  prepare_args-IsKeyed [] = tt
  prepare_args-IsKeyed (f ∷ fs) = ground (
    arith,
    prepare_args-IsKeyed fs,
    insert-IsKeyed f.name (attribute_of attributes processor method f.name)
        (prepare_args attributes processor method fs),
  )

  unnamed :
      (x : String) (y : String) (p : BatchField → Bool) (fs : List BatchField)
      → any (λ g. g.name == y) fs ≡ false
      → y ≡ x
      → any (λ g. g.name == x && p g) fs ≡ false
  unnamed x y p [] fresh e = refl
  unnamed x y p (f ∷ fs) fresh e = ground (
    arith,
    unnamed x y p fs,
    e,
    comparable_string.equals_iff f.name x,
    comparable_string.equals_iff f.name y,
  )

  -- A name is not that of a field with and of a field without a batch processor.
  exclusive :
      (x : String) (fs : List BatchField)
      → DistinctNames fs
      → any (λ f. f.name == x && f.has_batch_operation) fs ≡ true
      → any (λ f. f.name == x && not f.has_batch_operation) fs ≡ false
  exclusive x [] names e = refl
  exclusive x (f ∷ fs) names e = ground (
    arith,
    exclusive x fs names.1,
    unnamed x f.name (λ (g : BatchField). g.has_batch_operation) fs names.0,
    unnamed x f.name (λ (g : BatchField). not g.has_batch_operation) fs names.0,
    comparable_string.equals_iff f.name x,
  )

  pub fields-Apart :
      (fs : List BatchField)
      → DistinctNames fs
      → All Processed fs
      → (x : String) → has x (gather_and_init attributes processor method fs []) ≡ true
      → has x (prepare_args attributes processor method fs) ≡ false
  unfolding has
  fields-Apart fs names processed x here =
      has-prepare_args x fs
      ∙ exclusive x fs names (ground (arith, has-gather_and_init x fs [] processed, here))

  pub pipelines_of-rounds :
      (truthy : V → Bool) (convert : String → V → Option V) (accepts : Kwargs V → Bool)
      (others : Kwargs V) (n : ℕ) (m : BatchMap V)
      → longest m ≡ suc n
      → pipelines_of truthy convert accepts attributes processor method others m
        ≡ execute_rounds truthy convert accepts others (suc (suc n)) m []
  pipelines_of-rounds truthy convert accepts others n [] e = absurd (omega arith)
  pipelines_of-rounds truthy convert accepts others n ((f, vs) ∷ m) e =
      ap (λ (k : ℕ). execute_rounds truthy convert accepts others (suc k) ((f, vs) ∷ m) []) e

module _ {V : Type 0} (truthy : V → Bool) (convert : String → V → Option V)
    (accepts : Kwargs V → Bool) (c : String → V → V)
    (converts : (f : String) (v : V) → convert f v ≡ some (c f v))
    (truthful : (f : String) (v : V) → truthy (c f v) ≡ true)
    (accepted : (p : Kwargs V) → accepts p ≡ true) (attributes : Kwargs V)
    (processor method : String → Source V → List V) (fields : List BatchField)
    (names : DistinctNames fields) (processed : All Processed fields) where
  pub pipelines_of-Submits :
      (n : ℕ)
      → longest (gather_and_init attributes processor method fields []) ≡ suc n
      → Submits truthy convert accepts c converts truthful accepted
          (prepare_args attributes processor method fields)
          (prepare_args-IsKeyed attributes processor method fields)
          (gather_and_init attributes processor method fields [])
          (suc n)
          (pipelines_of truthy convert accepts attributes processor method
            (prepare_args attributes processor method fields)
            (gather_and_init attributes processor method fields []))
  pipelines_of-Submits n e =
      rw
        (pipelines_of-rounds attributes processor method truthy convert accepts
          (prepare_args attributes processor method fields) n
          (gather_and_init attributes processor method fields []) e)
        (all_rounds truthy convert accepts c converts truthful accepted
          (prepare_args attributes processor method fields)
          (prepare_args-IsKeyed attributes processor method fields) n
          (gather_and_init attributes processor method fields [])
          (gather_and_init-IsKeyed attributes processor method fields [] tt)
          (fields-Apart attributes processor method fields names processed) e)

-- A field with a processor is in the map when its method is looked at.
pub none_missing :
    {V : Type 0} (truthy : V → Bool) (convert : String → V → Option V) (accepts : Kwargs V → Bool)
    (attributes : Kwargs V) (processor method : String → Source V → List V) (fs : List BatchField)
    → All Processed fs
    → any (is_missing truthy convert accepts attributes processor method) fs ≡ false
none_missing truthy convert accepts attributes processor method [] processed = refl
none_missing truthy convert accepts attributes processor method (f ∷ fs) processed = ground (
  arith,
  none_missing truthy convert accepts attributes processor method fs processed.1,
  processed.0,
)
