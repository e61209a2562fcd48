-- ===== src/Samples/Fields.antt =====
-- Tests of the fields of pipelines and their cache.
use event_pipeline.Prelude.{
  ℕ, String, Bool, true, ◌≡◌, refl, none, some, [], ◌∷◌, ltb, comparable_string, ◌==◌,
}
use event_pipeline.Prelude.Dict.{lookup, insert, has, remove}
use event_pipeline.Field.{
  InputDataField, PipelineState, assigned, type_error, set_field, set_cache,
  set_cache_for_pipeline_field, clear, check_cache_exists,
}
use event_pipeline.Field.Cache.{Write, write_all, cache_forgets}

-- Numbers above 100 are callable.
abbrev callable : ℕ → Bool
callable n = ltb 100 n

abbrev age : InputDataField ℕ
age = record {
  name = "age";
  data_type = some (λ n. ltb n 50);
  default = none;
  default_factory = some (some 18);
  required = true;
}

abbrev no_state : PipelineState ℕ
no_state = []

default_is_given :
    set_field callable age "pipeline_P_1" none [] no_state
    ≡ assigned
        (("age", some 18) ∷ [])
        (("pipeline_cache", ("pipeline_P_1", ("age", 18) ∷ []) ∷ []) ∷ [])
unfolding set_field lookup insert has set_cache
default_is_given = refl

wrong_type : set_field callable age "pipeline_P_1" (some 60) [] no_state ≡ type_error
unfolding set_field
wrong_type = refl

abbrev is_field : String → Bool
is_field name = name == "age"

abbrev write_age : String → ℕ → Write ℕ
write_age key n = record { instance_key = key; field_name = "age"; value = n }

cache_forgets_example :
    lookup "pipeline_cache" (
      set_cache_for_pipeline_field "pipeline_P_2" "age"
        (some 8)
        (write_all (write_age "pipeline_P_1" 7 ∷ []) []))
    ≡ some (("pipeline_P_2", ("age", 8) ∷ []) ∷ [])
cache_forgets_example =
    cache_forgets is_field (write_age "pipeline_P_1" 7 ∷ []) (write_age "pipeline_P_2" 8)
      ((refl, refl), tt) (refl, refl)

-- An instance that is cleared is in no cache.
cleared :
    check_cache_exists {V = ℕ} "pipeline_P_1"
      (clear "pipeline_P_1" (("pipeline_cache", ("pipeline_P_1", ("age", 7) ∷ []) ∷ []) ∷ []))
    ≡ []
unfolding check_cache_exists clear has remove
cleared = refl
