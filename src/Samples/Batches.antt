-- ===== src/Samples/Batches.antt =====
-- Tests of the batches of pipelines.
use event_pipeline.Prelude.{
  String, ◌≡◌, refl, Bool, true, false, Option, none, some, List, [], ◌∷◌, arith, length, get_elem?,
  comparable_string,
}
use event_pipeline.Prelude.Dict.{lookup, insert, update, has}
use event_pipeline.Batch.{
  Kwargs, started, Source, empty_list, attribute, iterator, BatchField, gather_and_init,
  gather_field, gather_field_batch_methods, prepare_args, execute, any_truthy, execute_rounds,
  next_values, longest,
}
use event_pipeline.Batch.Started.{execute-count, execute-batch_value, execute-other_value}

abbrev image : BatchField
image = record { name = "image"; has_batch_operation = true; has_batch_method = true }

abbrev size : BatchField
size = record { name = "size"; has_batch_operation = false; has_batch_method = false }

abbrev label : BatchField
label = record { name = "label"; has_batch_operation = false; has_batch_method = true }

abbrev attributes : Kwargs String
attributes = ("image", some "folder") ∷ ("size", some "40") ∷ ("label", some "all") ∷ []

-- The processor of a field lists what its value holds, and the method of a field keeps an iterator.
abbrev processor : String → Source String → List String
processor name source = "a" ∷ "b" ∷ []

abbrev method : String → Source String → List String
method name (attribute v) = "c" ∷ []
method name (iterator vs) = vs
method name empty_list = []

abbrev truthy : String → Bool
truthy v = true

abbrev convert : String → String → Option String
convert name v = some v

abbrev accepts : Kwargs String → Bool
accepts p = true

abbrev same : String → String → String
same name v = v

two_and_one_more :
    execute truthy convert accepts attributes processor method (image ∷ size ∷ [])
    ≡ started (
        (("image", some "a") ∷ ("size", some "40") ∷ [])
        ∷ (("image", some "b") ∷ ("size", some "40") ∷ [])
        ∷ (("image", none) ∷ ("size", some "40") ∷ [])
        ∷ [])
unfolding execute gather_and_init gather_field gather_field_batch_methods prepare_args
    execute_rounds next_values any_truthy lookup insert update
two_and_one_more = refl

abbrev labelled : Kwargs String
labelled = ("label", some "all") ∷ []

method_without_processor :
    execute truthy convert accepts attributes processor method (label ∷ [])
    ≡ started (labelled ∷ [])
unfolding execute gather_and_init gather_field gather_field_batch_methods prepare_args
    execute_rounds next_values any_truthy lookup insert update has
method_without_processor = refl

sizes : longest (gather_and_init attributes processor method (image ∷ size ∷ []) []) ≡ 2
unfolding gather_and_init gather_field gather_field_batch_methods lookup insert
sizes = refl

execute-count_example :
    (ps : List (Kwargs String)) × (execute truthy convert accepts attributes processor method
        (image ∷ size ∷ [])
      ≡ started ps)
    × (length ps ≡ 3)
unfolding any_truthy prepare_args insert lookup
execute-count_example =
    execute-count truthy convert accepts same (λ f v. refl) (λ f v. refl) (λ p. refl) attributes
      processor method (image ∷ size ∷ []) (refl, (refl, tt)) (λ e. refl, (λ e. e, tt)) 1 sizes

execute-batch_value_example :
    (ps : List (Kwargs String)) × (p : Kwargs String) × (execute truthy convert accepts attributes
        processor method
        (image ∷ size ∷ [])
      ≡ started ps)
    × (get_elem? ps 1 ≡ some p)
    × (lookup "image" p ≡ some (some "b"))
unfolding gather_and_init gather_field gather_field_batch_methods insert lookup
execute-batch_value_example =
    execute-batch_value truthy convert accepts same (λ f v. refl) (λ f v. refl) (λ p. refl)
      attributes processor method (image ∷ size ∷ []) (refl, (refl, tt)) (λ e. refl, (λ e. e, tt)) 1
      sizes 1 (omega arith) "image" ("a" ∷ "b" ∷ []) refl

execute-other_value_example : lookup "label" labelled ≡ some (some "all")
unfolding lookup
execute-other_value_example =
    execute-other_value truthy convert accepts attributes processor method (label ∷ []) 0 label
      (labelled ∷ []) 0 labelled refl refl method_without_processor refl
