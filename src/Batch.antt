-- ===== src/Batch.antt =====
-- nexus/pipeline.py: BatchPipeline, from the fields of a batch to the pipelines that it submits. The
-- values, their truth, their conversion to the data type of a field and the batch processors are
-- arguments. An iterator is the list of the values that
-- it still gives, none of which is None.
pub mod Rounds
pub mod Submissions
pub mod Pipelines
pub mod Fields
pub mod Started
use event_pipeline.Prelude.{
  ℕ, zero, suc, String, Bool, true, false, not, any, ◌&&◌, ◌||◌, max, Option, none, some, List, [],
  ◌∷◌, ◌++◌, length, if◌then◌else◌, comparable_string,
}
use event_pipeline.Prelude.Dict.{Dict, lookup, insert, update, has}

-- The keyword arguments of a pipeline; `none` is None.
abbrev pub Kwargs : Type 0 → Type 0
Kwargs V = Dict String (Option V)

-- _field_batch_op_map
abbrev pub BatchMap : Type 0 → Type 0
BatchMap V = Dict String (List V)

-- An InputDataField as the batch sees it: whether it has a batch processor, and whether the class of
-- the batch has a method `<name>_batch`.
pub record BatchField : Type 0 where
  pub name : String
  pub has_batch_operation : Bool
  pub has_batch_method : Bool

-- What a batch processor is applied to: the value of the field, the empty list that stands for a value
-- that is not there, or an iterator.
pub data Source (V : Type 0) : Type 0 where
  empty_list : Source V
  attribute : Option V → Source V
  iterator : List V → Source V

module _ {V : Type 0} (attributes : Kwargs V) (processor method : String → Source V → List V) where
  abbrev pub attribute_of : String → Option V
  attribute_of name = elim (lookup name attributes) [ none ↦ none | some v ↦ v ]

  abbrev pub value_or_empty : String → Source V
  value_or_empty name = elim (lookup name attributes) [ none ↦ empty_list | some v ↦ attribute v ]

  -- The first half of a round of _gather_and_init_field_batch_iterators.
  abbrev pub with_processor : BatchField → BatchMap V → BatchMap V
  with_processor f m =
      if f.has_batch_operation
      then insert f.name (processor f.name (value_or_empty f.name)) m
      else m

  -- _gather_field_batch_methods
  unfoldable pub gather_field_batch_methods : BatchField → BatchMap V → BatchMap V
  gather_field_batch_methods f m = elim (lookup f.name m) [
    | none ↦ insert f.name (method f.name (attribute (attribute_of f.name))) m
    | some it ↦ insert f.name (method f.name (iterator it)) m
  ]

  -- A round of _gather_and_init_field_batch_iterators.
  unfoldable pub gather_field : BatchField → BatchMap V → BatchMap V
  gather_field f m =
      let m' = with_processor f m in
      if f.has_batch_method then gather_field_batch_methods f m' else m'

  unfoldable pub gather_and_init : List BatchField → BatchMap V → BatchMap V
  gather_and_init [] m = m
  gather_and_init (f ∷ fs) m = gather_and_init fs (gather_field f m)

  -- _prepare_args_for_non_batch_fields
  unfoldable pub prepare_args : List BatchField → Kwargs V
  prepare_args [] = []
  prepare_args (f ∷ fs) =
      if f.has_batch_operation
      then prepare_args fs
      else insert f.name (attribute_of f.name) (prepare_args fs)

-- How `execute` ends, with the arguments of the pipelines that it starts: it returns, it raises an
-- AttributeError, an exception of the template or PipelineConfigurationError, or its fuel ran out.
pub data Executed (V : Type 0) : Type 0 where
  started : List (Kwargs V) → Executed V
  attribute_error not_accepted not_configured_pipeline out_of_fuel : Executed V

-- The test on the number of pipelines.
abbrev pub report : {V : Type 0} → Option (List (Kwargs V)) → Executed V
report none = out_of_fuel
report (some []) = not_configured_pipeline
report (some (p ∷ ps)) = started (p ∷ ps)

abbrev pub is_empty : {A : Type 0} → List A → Bool
is_empty [] = true
is_empty (x ∷ xs) = false

abbrev pub all_iterators_consumed : {V : Type 0} → BatchMap V → Bool
all_iterators_consumed [] = true
all_iterators_consumed ((f, []) ∷ m) = all_iterators_consumed m
all_iterators_consumed ((f, v ∷ vs) ∷ m) = false

abbrev pub longest : {V : Type 0} → BatchMap V → ℕ
longest [] = 0
longest ((f, vs) ∷ m) = max (length vs) (longest m)

module _ {V : Type 0} (truthy : V → Bool) (convert : String → V → Option V)
    (accepts : Kwargs V → Bool) where
  -- The `for` loop of _execute_field_batch_processors: it takes a value of every iterator, and writes
  -- it to the one dict that the generator keeps. `none` is an exception of a conversion.
  unfoldable pub next_values : BatchMap V → Kwargs V → Option (BatchMap V × Kwargs V)
  next_values [] kwargs = some ([], kwargs)
  next_values ((f, []) ∷ m) kwargs = elim (next_values m (insert f none kwargs)) [
    | none ↦ none
    | some (rest, kwargs') ↦ some ((f, []) ∷ rest, kwargs')
  ]
  next_values ((f, v ∷ vs) ∷ m) kwargs = elim (convert f v) [
    | none ↦ none
    | some w ↦ elim (next_values m (insert f (some w) kwargs)) [
      | none ↦ none
      | some (rest, kwargs') ↦ some ((f, vs) ∷ rest, kwargs')
    ]
  ]

  abbrev pub is_truthy : Option V → Bool
  is_truthy none = false
  is_truthy (some v) = truthy v

  -- any(kwargs.values())
  unfoldable pub any_truthy : Kwargs V → Bool
  any_truthy [] = false
  any_truthy ((f, v) ∷ m) = is_truthy v || any_truthy m

  -- What `execute` does with the dict that the generator yields: it writes the other fields into
  -- it, and submits a pipeline with what is in it then; `none` is an exception of the template.
  abbrev pub submit : Kwargs V → Kwargs V → Option (List (Kwargs V) × Kwargs V)
  submit others kwargs =
      if any_truthy kwargs
      then (if accepts (update kwargs others)
          then some (update kwargs others ∷ [], update kwargs others)
          else none)
      else some ([], kwargs)

  -- The loop of `execute` over the generator, with the pipelines that it submits; `none` says that the
  -- fuel ran out. An exception of a conversion or of the template ends both.
  unfoldable pub execute_rounds : Kwargs V → ℕ → BatchMap V → Kwargs V → Option (List (Kwargs V))
  unfolding next_values any_truthy
  execute_rounds others zero m kwargs = none
  execute_rounds others (suc fuel) m kwargs = elim (next_values m kwargs) [
    | none ↦ some []
    | some (m', yielded) ↦ elim (submit others yielded) [
      | none ↦ some []
      | some (submitted, kwargs') ↦ elim (all_iterators_consumed m) [
        | true ↦ some submitted
        | false ↦ elim (execute_rounds others fuel m' kwargs') [
          | none ↦ none
          | some rest ↦ some (submitted ++ rest)
        ]
      ]
    ]
  ]

module _ {V : Type 0} (truthy : V → Bool) (convert : String → V → Option V)
    (accepts : Kwargs V → Bool) (attributes : Kwargs V)
    (processor method : String → Source V → List V) where
  abbrev pub pipelines_of : Kwargs V → BatchMap V → Option (List (Kwargs V))
  pipelines_of others [] = some (others ∷ [])
  pipelines_of others ((f, vs) ∷ m) =
      execute_rounds truthy convert accepts others (suc (longest ((f, vs) ∷ m))) ((f, vs) ∷ m) []

  -- A method for a field that has no batch processor looks up the field's value without a default.
  abbrev pub is_missing : BatchField → Bool
  is_missing f = f.has_batch_method && not f.has_batch_operation && not (has f.name attributes)

  -- `execute` of a new batch. Without batch fields it runs one pipeline in the process itself.
  unfoldable pub execute : List BatchField → Executed V
  unfolding execute_rounds gather_and_init prepare_args
  execute fields =
      let others = prepare_args attributes processor method fields in
      let m = gather_and_init attributes processor method fields [] in
      if any is_missing fields
      then attribute_error
      else if not (accepts others) && is_empty m
      then not_accepted
      else report (pipelines_of others m)
